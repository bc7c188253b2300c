-- ===== src/Chat/Requests.antt =====
-- The requests that spa/src/api/chat.ts sends.
pub mod Roles
use eks_any_model_hosting.Common.{
  Bool, true, ◌||◌, List, [], ◌∷◌, ◌++◌, Option, none, some, Text, codes, text_eq, is_nil, map,
  if◌then◌else◌,
}
use eks_any_model_hosting.Json.{
  Json, null, bool, num, str, arr, obj, Items, nil, cons, Fields, field, end,
}

-- A role as it may stand in the history at run time.
pub record ChatMessage : Type 0 where
  pub role : Text
  pub content : Text

-- `temperature` and `max_output_tokens` are number literals.
pub record StreamRequest : Type 0 where
  pub messages : List ChatMessage
  pub access_token : Text
  pub session_id : Option Text
  pub temperature : Option Text
  pub max_output_tokens : Option Text

pub record HttpRequest : Type 0 where
  pub url : Text
  pub method : Text
  pub headers : List (Text × Text)
  pub body : Option Text

abbrev pub chat_path : Text
chat_path = codes "/api/v1/chat/completions"

-- `v ?? d`
abbrev pub or_default : Option Text → Text → Text
or_default none d = d
or_default (some v) d = v

unfoldable pub is_sendable : ChatMessage → Bool
unfolding text_eq
is_sendable m = text_eq m.role (codes "user") || text_eq m.role (codes "assistant")

-- messages.filter(…)
unfoldable pub sendable : List ChatMessage → List ChatMessage
unfolding is_sendable
sendable [] = []
sendable (m ∷ ms) = if is_sendable m then m ∷ sendable ms else sendable ms

abbrev pub message_json : ChatMessage → Json
message_json m =
    obj (field (codes "role") (str m.role) (field (codes "content") (str m.content) end))

abbrev pub messages_json : List ChatMessage → Items
messages_json [] = nil
messages_json (m ∷ ms) = cons (message_json m) (messages_json ms)

-- `...(sessionId ? { session_id: sessionId } : {})`: an empty id is left out.
abbrev pub session_field : Option Text → Fields → Fields
session_field none fs = fs
session_field (some id) fs = if is_nil id then fs else field (codes "session_id") (str id) fs

unfoldable pub chat_payload : StreamRequest → Json
unfolding sendable
chat_payload req = obj (
    field (codes "messages") (arr (messages_json (sendable req.messages))) (
      session_field req.session_id (
        field (codes "temperature") (num (or_default req.temperature (codes "0.7"))) (
          field (codes "max_output_tokens") (num (or_default req.max_output_tokens (codes "512")))
            (field (codes "stream") (bool true) end)))))

abbrev pub bearer : Text → Text × Text
bearer access_token = (codes "Authorization", codes "Bearer " ++ access_token)

module _ (api_base_url : Text) where
  unfoldable pub chat_request : (Json → Text) → StreamRequest → HttpRequest
  unfolding chat_payload
  chat_request stringify req = record {
    url = api_base_url ++ chat_path;
    method = codes "POST";
    headers =
        (codes "Content-Type", codes "application/json")
        ∷ (codes "Accept", codes "text/event-stream")
        ∷ bearer req.access_token
        ∷ [];
    body = some (stringify (chat_payload req));
  }

  -- `forgetSession` ignores how the request ends.
  unfoldable pub forget_session_request : (Text → Text) → Text → Text → HttpRequest
  forget_session_request encode_uri_component session_id access_token = record {
    url = api_base_url ++ (codes "/api/v1/sessions/" ++ encode_uri_component session_id);
    method = codes "DELETE";
    headers = bearer access_token ∷ [];
    body = none;
  }

-- `newSessionId`: the platform's UUID where it has one, else the time and eight random digits.
unfoldable pub new_session_id : Option Text → Text → Text → Text
new_session_id (some uuid) now_base36 random_base36 = uuid
new_session_id none now_base36 random_base36 =
    codes "s-" ++ (now_base36 ++ (codes "-" ++ random_base36))
