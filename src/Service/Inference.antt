-- ===== src/Service/Inference.antt =====
-- The client of the model server, services/api/app/inference.py: `stream_chat`, for whatever the
-- model server answers, and however the run ends. The metrics and the log are left out, but for the
-- counters' refusal of a negative amount.
pub mod Chunks
pub mod Closing
pub mod Heard
pub mod Delivery
pub mod Agreement
use eks_any_model_hosting.Common.{
  ℕ, leb, ltb, Bool, true, false, ◌&&◌, ◌||◌, not, List, [], ◌∷◌, ◌++◌, Option, none, some, Text,
  codes, starts_with, if◌then◌else◌,
}
use mathlib.Core.Option
use eks_any_model_hosting.Json.{Json, num, bool, str}
use eks_any_model_hosting.Sse.Server.{Sent, token_sent, odd_sent, done_sent, error_sent}
use eks_any_model_hosting.Sessions.{Message}
use eks_any_model_hosting.Service.Turn.{joined, usage_frames}
use eks_any_model_hosting.Service.Inference.Chunks.{
  Line, skipped, sentinel, chunk, line_of, Taken, took, raised, Progress, no_progress, truthy,
  on_chunk,
}

-- What Python raises: the classes that the code tells apart, and any other.
pub data Raised : Type 0 where
  connect_error connect_timeout read_timeout timeout_error : Raised
  other_http_error : Raised
  other_error : Raised

-- A line of the response with what `is_disconnected` answers behind it, or an exception at that
-- place, which the overall timeout may raise too.
pub data Round : Type 0 where
  arrives : Text → Bool → Round
  breaks : Raised → Round

-- The server's answer to a request; its rounds end where the response does.
pub data Upstream : Type 0 where
  refused : Raised → Upstream
  answered : ℕ → List Round → Upstream

-- How the generator ends: behind a closing frame, at a client that has left, or by an exception that
-- is not caught.
pub data Ending : Type 0 where
  closed left escaped : Ending

-- The frames, what `on_complete` is called with, and the ending.
pub record Run : Type 0 where
  pub frames : List Sent
  pub completed : Option Text
  pub ending : Ending

abbrev pub ended_by : List Sent → Ending → Run
ended_by frames ending = record { frames = frames; completed = none; ending = ending }

abbrev pub closed_by : Text → Text → Run
closed_by code message = ended_by (error_sent code message ∷ []) closed

-- The `except` clauses.
unfoldable pub on_raised : Raised → Run
on_raised connect_error = closed_by (codes "MODEL_UNAVAILABLE") (codes "The model is unavailable.")
on_raised connect_timeout =
    closed_by (codes "MODEL_UNAVAILABLE") (codes "The model is unavailable.")
on_raised read_timeout = closed_by (codes "MODEL_TIMEOUT") (codes "The model timed out.")
on_raised timeout_error = closed_by (codes "MODEL_TIMEOUT") (codes "The model timed out.")
on_raised other_http_error = closed_by (codes "MODEL_ERROR") (codes "The model returned an error.")
on_raised other_error = ended_by [] escaped

-- Where the loop over the lines ends.
pub data Stop : Type 0 where
  at_end : Progress → Stop
  at_departure : Stop
  at_exception : Raised → Stop

pub record Reading : Type 0 where
  pub frames : List Sent
  pub stop : Stop

abbrev pub stopped : Stop → Reading
stopped s = record { frames = []; stop = s }

abbrev pub yielding : Sent → Reading → Reading
yielding e r = record { frames = e ∷ r.frames; stop = r.stop }

-- {"text": content}
abbrev pub token_of : Json → Sent
token_of (str text) = token_sent text
token_of v = odd_sent v

abbrev pub on_taken : Taken (Progress × Option Json) → (Progress → Reading) → Reading
on_taken (took (p, none)) go_on = go_on p
on_taken (took (p, some content)) go_on = yielding (token_of content) (go_on p)
on_taken raised go_on = stopped (at_exception other_error)

-- `await resp.aread()` of a refusal.
abbrev pub aread : List Round → Option Raised
aread [] = none
aread (arrives line gone ∷ rounds) = aread rounds
aread (breaks e ∷ rounds) = some e

abbrev pub on_refusal : Option Raised → Run
on_refusal none = closed_by (codes "MODEL_ERROR") (codes "The model returned an error.")
on_refusal (some e) = on_raised e

-- The parts that `"".join` takes; `none` is its TypeError on one that is no string.
abbrev pub texts_in : List Json → Option (List Text)
texts_in [] = some []
texts_in (str text ∷ parts) = Option.map (◌∷◌ text) (texts_in parts)
texts_in (_ ∷ parts) = none

-- The text that `on_complete` is called with, where there are parts.
abbrev pub answer_of : List Text → Option Text
answer_of [] = none
answer_of (part ∷ parts) = some (joined (part ∷ parts))

module _ (is_zero : Text → Bool) where
  -- A counter's `inc` takes numbers, and Booleans as numbers, and raises on a negative one.
  abbrev pub is_amount : Json → Bool
  is_amount (num n) = not (starts_with (codes "-") n)
  is_amount (bool b) = true
  is_amount _ = false

  -- `if tokens:`, and `inc` raises.
  abbrev pub is_refused : Json → Bool
  is_refused tokens = truthy is_zero (some tokens) && not (is_amount tokens)

  abbrev pub counts_of : Progress → Option (Json × Json)
  counts_of p =
      if not (truthy is_zero (some p.prompt_tokens) || truthy is_zero (some p.completion_tokens))
      then none
      else some (p.prompt_tokens, p.completion_tokens)

  -- Behind `on_complete`.
  abbrev pub on_answer : Progress → Option Text → Run
  on_answer p answer =
      if is_refused p.prompt_tokens || is_refused p.completion_tokens
      then record { frames = []; completed = answer; ending = escaped }
      else record {
        frames = usage_frames (counts_of p) ++ done_sent ∷ [];
        completed = answer;
        ending = closed;
      }

  abbrev pub on_texts : Progress → Option (List Text) → Run
  on_texts p none = on_raised other_error
  on_texts p (some texts) = on_answer p (answer_of texts)

  -- Behind the loop.
  unfoldable pub on_end : Progress → Run
  unfolding joined starts_with on_raised
  on_end p = on_texts p (texts_in p.assistant_parts)

  abbrev pub on_stop : Stop → Run
  on_stop (at_end p) = on_end p
  on_stop at_departure = ended_by [] left
  on_stop (at_exception e) = on_raised e

  abbrev pub on_reading : Reading → Run
  on_reading r = let rest = on_stop r.stop in record rest { frames = r.frames ++ rest.frames }

module _ (json_loads : Text → Option Json) (is_zero : Text → Bool) where
  abbrev pub on_line : Line → Progress → (Progress → Reading) → Reading
  on_line skipped p go_on = go_on p
  on_line sentinel p go_on = stopped (at_end p)
  on_line (chunk v) p go_on = on_taken (on_chunk is_zero v p) go_on

  -- The loop.
  unfoldable pub read_lines : List Round → Progress → Reading
  unfolding line_of on_chunk
  read_lines [] p = stopped (at_end p)
  read_lines (breaks e ∷ rounds) p = stopped (at_exception e)
  read_lines (arrives line gone ∷ rounds) p =
      let rest = on_line (line_of json_loads line) p (read_lines rounds) in
      if gone then stopped at_departure else rest

  unfoldable pub stream_chat : Upstream → Run
  unfolding on_raised read_lines on_end
  stream_chat (refused e) = on_raised e
  stream_chat (answered status rounds) =
      let read = on_reading is_zero (read_lines rounds no_progress) in
      if leb 400 status then on_refusal (aread rounds) else read

-- The request to the model server. The temperature keeps its literal.
pub record ModelRequest : Type 0 where
  pub model : Text
  pub messages : List Message
  pub temperature : Text
  pub max_tokens : ℕ
  pub stream : Bool

-- Of the settings, what the request to the model takes.
pub record Served : Type 0 where
  pub served_model_name : Text
  pub system_prompt : Text
  pub max_output_tokens : ℕ

-- `clamped_max_tokens` of services/api/app/models.py.
unfoldable pub clamped_max_tokens : ℕ → ℕ → ℕ
clamped_max_tokens requested ceiling =
    let capped = if ltb ceiling requested then ceiling else requested in
    if ltb 1 capped then capped else 1

unfoldable pub build_payload : List Message → Text → ℕ → Served → Bool → ModelRequest
unfolding clamped_max_tokens
build_payload conversation temperature requested served stream = record {
  model = served.served_model_name;
  messages = record { role = codes "system"; content = served.system_prompt } ∷ conversation;
  temperature = temperature;
  max_tokens = clamped_max_tokens requested served.max_output_tokens;
  stream = stream;
}
