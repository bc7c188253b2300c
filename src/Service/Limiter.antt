-- ===== src/Service/Limiter.antt =====
-- The limiter of services/api/app/middleware.py, and the chat requests that hold its slots: the
-- handler `chat_completions` of services/api/app/main.py. Each of its stretches between two waits is
-- one step; the limiter's methods do not wait.
pub mod Slots
use eks_any_model_hosting.Common.{
  ℕ, ◌+◌, ◌-◌, ◌≡◌, leb, ltb, Bool, true, false, List, [], ◌∷◌, ◌++◌, map, Option, none, some, Text,
  if◌then◌else◌,
}
use eks_any_model_hosting.Chat.Requests.{ChatMessage}
use eks_any_model_hosting.Sessions.{Message, Limits, Sessions, larger, sync, append_assistant}
use eks_any_model_hosting.Sessions.Steps.{Operation, apply}
use eks_any_model_hosting.Service.Turn.{to_message}

pub record Limiter : Type 0 where
  pub max : ℕ
  pub in_flight : ℕ

-- `__init__`
abbrev pub new_limiter : ℕ → Limiter
new_limiter max_concurrent = record { max = larger 1 max_concurrent; in_flight = 0 }

unfoldable pub try_acquire : Limiter → Limiter × Bool
try_acquire l =
    if leb l.max l.in_flight then (l, false) else (record l { in_flight = l.in_flight + 1 }, true)

unfoldable pub release : Limiter → Limiter
release l = if ltb 0 l.in_flight then record l { in_flight = l.in_flight - 1 } else l

-- The application's state, and for each request that holds a slot the session that its closures have.
pub record Server : Type 0 where
  pub limiter : Limiter
  pub sessions : Sessions
  pub held : List Text

-- `if body.session_id:`, the conversation to answer beside the store.
unfoldable pub synced_store : Limits → Text → List Message → ℕ → Sessions → Sessions × List Message
unfolding sync
synced_store limits [] transcript now sessions = (sessions, transcript)
synced_store limits (c ∷ session_id) transcript now sessions =
    sync limits (c ∷ session_id) transcript now sessions

-- What a request that is not refused becomes.
pub data Admission : Type 0 where
  refused : Admission
  answering : List Message → Admission

abbrev pub admit : Text → List Message → Sessions → Server → Limiter × Bool → Server × Admission
admit session_id conversation sessions server (l, false) =
    (record server { limiter = l; sessions = sessions }, refused)
admit session_id conversation sessions server (l, true) = (
  record { limiter = l; sessions = sessions; held = server.held ++ session_id ∷ [] },
  answering conversation,
)

-- The handler up to its first wait, or to the response 429.
unfoldable pub ask : Limits → Text → List ChatMessage → ℕ → Server → Server × Admission
unfolding synced_store try_acquire
ask limits session_id messages now server =
    let (sessions, conversation) =
      synced_store limits session_id (map to_message messages) now server.sessions in
    admit session_id conversation sessions server (try_acquire server.limiter)

-- `_remember`, and `append_assistant` behind a complete answer, where there is a session.
unfoldable pub remember : Limits → Text → Option Text → ℕ → Sessions → Sessions
unfolding append_assistant
remember limits session_id none now sessions = sessions
remember limits [] (some text) now sessions = sessions
remember limits (c ∷ session_id) (some text) now sessions =
    append_assistant limits (c ∷ session_id) text now sessions

-- The `finally` of an answer. The other requests that hold a slot are those before and behind it.
unfoldable pub finish : List Text → List Text → Server → Server
unfolding release
finish earlier later server = record server {
  limiter = release server.limiter;
  held = earlier ++ later;
}

unfoldable pub new_server : ℕ → Server
new_server max_concurrent = record {
  limiter = new_limiter max_concurrent;
  sessions = [];
  held = [];
}

-- What happens in the service: a request asks, an answer ends, and any route uses the store.
pub data Step (limits : Limits) : Server → Server → Type 0 where
  asks :
      (server : Server) (session_id : Text) (messages : List ChatMessage) (now : ℕ)
      → Step limits server (ask limits session_id messages now server).0
  ends :
      (server : Server) (earlier later : List Text) (session_id : Text)
      → server.held ≡ earlier ++ session_id ∷ later
      → Step limits server (finish earlier later server)
  stores :
      (server : Server) (o : Operation)
      → Step limits server (record server { sessions = apply limits o server.sessions })

pub data Reachable (limits : Limits) (max_concurrent : ℕ) : Server → Type 0 where
  started : Reachable limits max_concurrent (new_server max_concurrent)
  next :
      {before after : Server}
      → Reachable limits max_concurrent before
      → Step limits before after
      → Reachable limits max_concurrent after
