-- ===== src/Sse.antt =====
-- The vocabulary of spa/src/api/chat.ts: the callbacks' calls as events, and its errors.
pub mod Frame
pub mod Boundary
pub mod Reader
pub mod Server
use eks_any_model_hosting.Common.{ℕ, Bool, List, Option, Text}
use eks_any_model_hosting.Json.{Json}

pub data StreamErrorKind : Type 0 where
  unauthorized rate_limited network server aborted : StreamErrorKind

pub record StreamError : Type 0 where
  pub kind : StreamErrorKind
  pub message : Text
  pub status : Option ℕ

-- One call of `onToken`, `onUsage`, `onDone` or `onError`.
pub data Event : Type 0 where
  token : Text → Event
  usage : Json → Event
  done : Event
  error : StreamError → Event

-- What `handleFrame` called, and what it returned.
pub record Handled : Type 0 where
  pub events : List Event
  pub finished : Bool

-- What a rejected promise or a `throw` carries: a DOMException by its name and message, another
-- Error by its message, or a value that is no Error.
pub data Thrown : Type 0 where
  dom_exception : Text → Text → Thrown
  js_error : Text → Thrown
  non_error : Thrown

-- `e instanceof Error ? e.message : fallback`; a DOMException is an Error.
abbrev pub message_or : Text → Thrown → Text
message_or fallback (dom_exception name message) = message
message_or fallback (js_error message) = message
message_or fallback non_error = fallback

-- How an asynchronous function has ended, or that it waits for what has not arrived.
pub data Ending : Type 0 where
  returned waiting : Ending
  threw : Thrown → Ending

pub record Outcome : Type 0 where
  pub events : List Event
  pub ending : Ending
