-- ===== src/Sse/Server.antt =====
-- The frames that the API service sends (`_sse` and `stream_chat` of
-- services/api/app/inference.py); json.dumps is a parameter.
pub mod Frames
pub mod RoundTrip
use eks_any_model_hosting.Common.{
  ℕ, Bool, true, false, List, [], ◌∷◌, ◌++◌, ◌≡◌, ◌≢◌, Option, some, Text, codes, starts_with, trim,
  All,
}
use eks_any_model_hosting.Json.{Json, str, obj, Fields, field, end}

-- The four kinds of frames, with what varies in them. The content of an `odd_sent` token is no string.
pub data Sent : Type 0 where
  token_sent : Text → Sent
  odd_sent : Json → Sent
  usage_sent : Json → Json → Sent
  done_sent : Sent
  error_sent : Text → Text → Sent

abbrev pub event_name : Sent → Text
event_name (token_sent text) = codes "token"
event_name (odd_sent v) = codes "token"
event_name (usage_sent prompt completion) = codes "usage"
event_name done_sent = codes "done"
event_name (error_sent code message) = codes "error"

abbrev pub payload : Sent → Json
payload (token_sent text) = obj (field (codes "text") (str text) end)
payload (odd_sent v) = obj (field (codes "text") v end)
payload (usage_sent prompt completion) =
    obj (field (codes "prompt_tokens") prompt (field (codes "completion_tokens") completion end))
payload done_sent = obj end
payload (error_sent code message) =
    obj (field (codes "code") (str code) (field (codes "message") (str message) end))

-- `done` and `error` frames end the stream.
abbrev pub is_last : Sent → Bool
is_last done_sent = true
is_last (error_sent code message) = true
is_last _ = false

abbrev pub event_line : Sent → Text
event_line e = codes "event: " ++ event_name e

module _ (dumps : Json → Text) where
  abbrev pub data_line : Sent → Text
  data_line e = codes "data: " ++ dumps (payload e)

  abbrev pub frame_text : Sent → Text
  frame_text e = event_line e ++ (b'\n' ∷ data_line e)

  unfoldable pub sse : Sent → Text
  sse e = frame_text e ++ codes "\n\n"

  unfoldable pub sse_all : List Sent → Text
  sse_all [] = []
  sse_all (e ∷ es) = sse e ++ sse_all es

abbrev pub IsPlain : ℕ → Type 0
IsPlain c = (c ≢ b'\n') × (c ≢ b'\r')

-- What json.dumps with compact separators and JSON.parse promise of one payload: an object's text
-- opens with a brace, holds no line break and no outer space, and is read back.
pub record IsCarried (dumps : Json → Text) (json_parse : Text → Option Json) (e : Sent)
    : Type 0 where
  pub opens : starts_with (codes "{") (dumps (payload e)) ≡ true
  pub plain : All IsPlain (dumps (payload e))
  pub trimmed : trim (dumps (payload e)) ≡ dumps (payload e)
  pub parsed : json_parse (dumps (payload e)) ≡ some (payload e)
