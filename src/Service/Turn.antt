-- ===== src/Service/Turn.antt =====
-- One turn of a chat in the service, and what the client and the service then have of it: the
-- streamed answer of services/api/app/main.py and services/api/app/inference.py, where the model
-- answers without an error and nobody disconnects.
pub mod Received
pub mod Recall
pub mod Agreement
use eks_any_model_hosting.Common.{
  ℕ, List, [], ◌∷◌, ◌++◌, map, Option, none, some, Text, is_nil, if◌then◌else◌,
}
use eks_any_model_hosting.Json.{Json}
use eks_any_model_hosting.Chat.Requests.{ChatMessage}
use eks_any_model_hosting.Sse.Server.{Sent, token_sent, usage_sent, done_sent}
use eks_any_model_hosting.Sessions.{Message, Limits, Sessions, sync, append_assistant}

-- {"role": m.role, "content": m.content}
abbrev pub to_message : ChatMessage → Message
to_message m = record { role = m.role; content = m.content }

-- "".join(assistant_parts)
unfoldable pub joined : List Text → Text
joined [] = []
joined (part ∷ parts) = part ++ joined parts

-- The contents of the model's chunks that are not empty.
unfoldable pub parts_of : List Text → List Text
parts_of [] = []
parts_of (content ∷ contents) =
    let rest = parts_of contents in if is_nil content then rest else content ∷ rest

-- The frames behind the tokens; `usage` are the two counts, where one of them is not zero.
abbrev pub usage_frames : Option (Json × Json) → List Sent
usage_frames none = []
usage_frames (some (prompt, completion)) = usage_sent prompt completion ∷ []

-- The frames before `done`.
unfoldable pub frames_of : List Text → Option (Json × Json) → List Sent
unfolding parts_of
frames_of contents usage = map token_sent (parts_of contents) ++ usage_frames usage

-- `on_complete` is called where there are parts.
abbrev pub remembered : Limits → Text → List Text → ℕ → Sessions → Sessions
remembered limits session_id [] now sessions = sessions
remembered limits session_id (part ∷ parts) now sessions =
    append_assistant limits session_id (joined (part ∷ parts)) now sessions

-- The store behind a streamed turn that the limiter admits: the transcript is synced at the request,
-- the answer appended at its end. A request without a session leaves the store.
unfoldable pub stream_turn :
    Limits → Text → List ChatMessage → List Text → ℕ → ℕ → Sessions → Sessions
unfolding sync append_assistant joined parts_of
stream_turn limits [] messages contents now ended sessions = sessions
stream_turn limits (c ∷ session_id) messages contents now ended sessions =
    remembered limits (c ∷ session_id) (parts_of contents) ended
      (sync limits (c ∷ session_id) (map to_message messages) now sessions).0
