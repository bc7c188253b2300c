-- ===== src/Chat/Respond.antt =====
-- The handling of the response in `streamChatCompletion` of spa/src/api/chat.ts.
pub mod Outcomes
pub mod Refusals
use Prim.Native.String
use eks_any_model_hosting.Common.{
  ℕ, Bool, true, false, List, [], ◌∷◌, ◌++◌, Option, none, some, Text, codes, text_eq, is_nil, ◌==◌,
  if◌then◌else◌,
}
use eks_any_model_hosting.Json.{Json}
use eks_any_model_hosting.Sse.{
  message_or, StreamErrorKind, unauthorized, rate_limited, network, server, aborted, StreamError,
  Event, error, Thrown, dom_exception, js_error, non_error, Ending, returned, waiting, threw,
  Outcome,
}
use eks_any_model_hosting.Sse.Reader.{Round, parse_sse_stream}
use eks_any_model_hosting.Chat.Requests.{StreamRequest, HttpRequest, chat_request}

-- `ok` and `status` of a response, its body as the rounds of its reader, and what `text()` settles
-- with, `none` where that rejects.
pub record Response (Chunk : Type 0) : Type 0 where
  pub ok : Bool
  pub status : ℕ
  pub body : Option (List (Round Chunk))
  pub body_text : Option Text

pub data Fetched (Chunk : Type 0) : Type 0 where
  rejected : Thrown → Fetched Chunk
  responded : Response Chunk → Fetched Chunk

unfoldable pub is_abort : Thrown → Bool
unfolding text_eq
is_abort (dom_exception name message) = text_eq name (codes "AbortError")
is_abort _ = false

abbrev pub stream_error : StreamErrorKind → Text → StreamError
stream_error kind message = record { kind = kind; message = message; status = none }

-- The `catch` blocks round `fetch` and round the parser.
unfoldable pub thrown_error : Text → Thrown → StreamError
unfolding is_abort
thrown_error fallback e =
    if is_abort e
    then stream_error aborted (codes "Request cancelled.")
    else stream_error network (message_or fallback e)

abbrev pub text_or_nil : Option Text → Text
text_or_nil none = []
text_or_nil (some s) = s

-- `toHttpError`; `show` prints a status in decimal.
unfoldable pub to_http_error : {Chunk : Type 0} → (ℕ → Text) → Response Chunk → StreamError
to_http_error show res =
    let detail = text_or_nil res.body_text in
    if res.status == 401
    then record {
      kind = unauthorized;
      message = codes "Your session has expired. Please sign in again.";
      status = some 401;
    }
    else if res.status == 429
    then record {
      kind = rate_limited;
      message = codes "Rate limit reached. Please wait a moment and try again.";
      status = some 429;
    }
    else record {
      kind = server;
      message =
          if is_nil detail
          then codes "Request failed (" ++ (show res.status ++ codes ").")
          else detail;
      status = some res.status;
    }

abbrev pub reporting : StreamError → Outcome
reporting e = record { events = error e ∷ []; ending = returned }

-- The `try` round the parser.
abbrev pub catch_read : Outcome → Outcome
catch_read o = elim o.ending [
  | returned ↦ o
  | waiting ↦ o
  | threw e ↦ record {
    events = o.events ++ error (thrown_error (codes "Stream read error.") e) ∷ [];
    ending = returned;
  }
]

module _ (json_parse : Text → Option Json) (show : ℕ → Text) {Chunk State : Type 0}
    (decode : State → Chunk → Text × State) (fresh : State) where
  -- `res.body`, behind the test of `res.ok`.
  unfoldable pub on_body : Option (List (Round Chunk)) → Outcome
  on_body none = reporting (stream_error server (codes "Empty response body from server."))
  on_body (some rounds) = catch_read (parse_sse_stream json_parse decode fresh rounds)

  unfoldable pub on_fetched : Fetched Chunk → Outcome
  unfolding on_body
  on_fetched (rejected e) = reporting (thrown_error (codes "Network error.") e)
  on_fetched (responded res) =
      if res.ok then on_body res.body else reporting (to_http_error show res)

  unfoldable pub stream_chat_completion :
      Text → (Json → Text) → (HttpRequest → Fetched Chunk) → StreamRequest → Outcome
  unfolding on_fetched
  stream_chat_completion api_base_url stringify fetch req =
      on_fetched (fetch (chat_request api_base_url stringify req))
