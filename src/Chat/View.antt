-- ===== src/Chat/View.antt =====
-- The state and the actions of spa/src/components/ChatView.tsx. An action that awaits a token is in
-- two parts, with what its closure has captured between them. The ids that `newId` and
-- `newSessionId` make, and the AbortControllers as numbers, are arguments; the markup and the
-- scrolling are not modelled.
pub mod Exchange
pub mod Steps
pub mod Interleaved
use eks_any_model_hosting.Common.{
  ℕ, ◌+◌, Bool, true, false, ◌||◌, List, [], ◌∷◌, ◌++◌, Option, none, some, Text, codes, text_eq,
  trim, is_nil, if◌then◌else◌,
}
use eks_any_model_hosting.Json.{Json}
use eks_any_model_hosting.Sse.{
  StreamError, StreamErrorKind, unauthorized, aborted, Event, token, usage, done, error,
}
use eks_any_model_hosting.Chat.Requests.{ChatMessage, StreamRequest}

-- `streaming` is false where the source leaves it out.
pub record DisplayMessage : Type 0 where
  pub id : Text
  pub role : Text
  pub content : Text
  pub streaming : Bool

-- The states and the ref of the component, the controllers on which `abort` was called, the number
-- of calls of `onRequireLogin`, and the sessions given to `forgetSession` with their tokens.
pub record View : Type 0 where
  pub messages : List DisplayMessage
  pub input : Text
  pub is_streaming : Bool
  pub error : Option Text
  pub usage : Option Json
  pub session_id : Text
  pub abort_ref : Option ℕ
  pub aborted : List ℕ
  pub logins : ℕ
  pub forgotten : List (Text × Text)

-- What the closure of a `submit` that awaits its token has captured.
pub record Submission : Type 0 where
  pub trimmed : Text
  pub transcript : List DisplayMessage
  pub session_id : Text

-- messages.map((m) => (m.id === id ? f(m) : m))
unfoldable pub update_message :
    (DisplayMessage → DisplayMessage) → Text → List DisplayMessage → List DisplayMessage
unfolding text_eq
update_message f id [] = []
update_message f id (m ∷ ms) = (if text_eq m.id id then f m else m) ∷ update_message f id ms

unfoldable pub append_to_assistant : Text → Text → View → View
unfolding update_message
append_to_assistant assistant_id text v = record v {
  messages = update_message (λ m. record m { content = m.content ++ text }) assistant_id v.messages;
}

unfoldable pub finalize_assistant : Text → View → View
unfolding update_message
finalize_assistant assistant_id v = record v {
  messages = update_message (λ m. record m { streaming = false }) assistant_id v.messages;
}

-- What `onDone` does, and `onError` first.
unfoldable pub close_stream : Text → View → View
unfolding finalize_assistant
close_stream assistant_id v = record (finalize_assistant assistant_id v) {
  is_streaming = false;
  abort_ref = none;
}

abbrev pub require_login : View → View
require_login v = record v { logins = v.logins + 1 }

abbrev pub on_error_kind : StreamErrorKind → Text → View → View
on_error_kind StreamErrorKind.aborted message v = v
on_error_kind unauthorized message v = require_login v
on_error_kind _ message v = record v { error = some message }

-- The callbacks of `submit`.
unfoldable pub on_event : Text → Event → View → View
unfolding append_to_assistant close_stream
on_event assistant_id (token text) v = append_to_assistant assistant_id text v
on_event assistant_id (usage u) v = record v { usage = some u }
on_event assistant_id done v = close_stream assistant_id v
on_event assistant_id (error e) v = on_error_kind e.kind e.message (close_stream assistant_id v)

unfoldable pub on_events : Text → List Event → View → View
unfolding on_event
on_events assistant_id [] v = v
on_events assistant_id (e ∷ es) v = on_events assistant_id es (on_event assistant_id e v)

-- `submit` up to its `await`.
unfoldable pub begin_submit : Text → View → Option Submission × View
unfolding trim
begin_submit raw v =
    let trimmed = trim raw in
    if is_nil trimmed || v.is_streaming then (none, v) else (
      some (record { trimmed = trimmed; transcript = v.messages; session_id = v.session_id }),
      record v { error = none; usage = none },
    )

-- [...messages, userMsg].map((m) => ({ role: m.role, content: m.content }))
unfoldable pub history_of : List DisplayMessage → List ChatMessage
history_of [] = []
history_of (m ∷ ms) = record { role = m.role; content = m.content } ∷ history_of ms

abbrev pub user_message : Text → Text → DisplayMessage
user_message id text = record { id = id; role = codes "user"; content = text; streaming = false }

abbrev pub assistant_message : Text → Text → Bool → DisplayMessage
assistant_message id text streaming = record {
  id = id;
  role = codes "assistant";
  content = text;
  streaming = streaming;
}

unfoldable pub open_stream : Text → Text → ℕ → Submission → View → View
open_stream user_id assistant_id controller s v = record v {
  messages =
      v.messages ++ user_message user_id s.trimmed ∷ assistant_message assistant_id [] true ∷ [];
  input = [];
  is_streaming = true;
  abort_ref = some controller;
}

unfoldable pub stream_request : Text → Text → Submission → StreamRequest
unfolding history_of
stream_request access_token user_id s = record {
  messages = history_of (s.transcript ++ user_message user_id s.trimmed ∷ []);
  access_token = access_token;
  session_id = some s.session_id;
  temperature = some (codes "0.7");
  max_output_tokens = some (codes "512");
}

-- `submit` from its `await` to the call of `streamChatCompletion`.
unfoldable pub resume_submit :
    Option Text → Text → Text → ℕ → Submission → View → Option StreamRequest × View
unfolding open_stream stream_request
resume_submit none user_id assistant_id controller s v = (none, require_login v)
resume_submit (some []) user_id assistant_id controller s v = (none, require_login v)
resume_submit (some (c ∷ t)) user_id assistant_id controller s v =
    (some (stream_request (c ∷ t) user_id s), open_stream user_id assistant_id controller s v)

-- `abortRef.current?.abort()`
abbrev pub abort : Option ℕ → View → View
abort none v = v
abort (some controller) v = record v { aborted = controller ∷ v.aborted }

-- `stop`, and what `newChat` and the unmounting do first.
unfoldable pub stop : View → View
stop v = abort v.abort_ref v

abbrev pub forget : Text → Option Text → View → View
forget session_id none v = v
forget session_id (some []) v = v
forget session_id (some (c ∷ t)) v = record v { forgotten = (session_id, c ∷ t) ∷ v.forgotten }

-- `newChat` behind its `await`, with the session that its closure has captured.
unfoldable pub end_new_chat : Text → Option Text → Text → View → View
end_new_chat session_id access_token new_id v = record (forget session_id access_token v) {
  session_id = new_id;
  messages = [];
  error = none;
  usage = none;
}
