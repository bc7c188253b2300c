-- ===== src/Service/Completion.antt =====
-- The answer that is not streamed: `complete_chat` of services/api/app/inference.py with the mapping
-- of its errors in services/api/app/main.py, and `check_ready`.
use eks_any_model_hosting.Common.{
  ℕ, ◌≤◌, map, leb, text_eq, ◌≡◌, refl, Bool, true, false, List, [], ◌∷◌, Option, none, some, Text,
  codes, if◌then◌else◌, arith,
}
use eks_any_model_hosting.Json.{Json, str, num, arr, obj, cons, Fields, end, find}
use eks_any_model_hosting.Service.Inference
use eks_any_model_hosting.Service.Inference.{
  Raised, connect_error, connect_timeout, read_timeout, timeout_error, other_http_error,
  other_error, Run, closed, escaped, on_raised, arrives, aread, stream_chat,
}
use eks_any_model_hosting.Service.Inference.Chunks.{truthy}
use eks_any_model_hosting.Service.Inference.Closing.{
  PublicError, model_unavailable, model_timeout, model_error, report,
}

-- The result's content and usage. The id, the finish reason and the total are passed on, and the
-- metrics left out.
pub record Result : Type 0 where
  pub model : Text
  pub content : Json
  pub prompt_tokens : Json
  pub completion_tokens : Json

-- A result, an UpstreamError, or another exception.
pub data Completion : Type 0 where
  completed : Result → Completion
  upstream_error : Text → Text → Completion
  failed : Completion

-- The server's answer to a request that is not streamed: what the client of httpx raises, or a status
-- and the body's JSON, `none` where it is none.
pub data Answer : Type 0 where
  refused : Raised → Answer
  responded : ℕ → Option Json → Answer

unfoldable pub upstream_error_of : Raised → Completion
upstream_error_of connect_error =
    upstream_error (codes "MODEL_UNAVAILABLE") (codes "The model is unavailable.")
upstream_error_of connect_timeout =
    upstream_error (codes "MODEL_UNAVAILABLE") (codes "The model is unavailable.")
upstream_error_of read_timeout =
    upstream_error (codes "MODEL_TIMEOUT") (codes "The model timed out.")
upstream_error_of timeout_error =
    upstream_error (codes "MODEL_TIMEOUT") (codes "The model timed out.")
upstream_error_of other_http_error =
    upstream_error (codes "MODEL_ERROR") (codes "The model returned an error.")
upstream_error_of other_error = failed

abbrev pub get_or : Json → Option Json → Json
get_or fallback none = fallback
get_or fallback (some v) = v

-- STATUS_FOR_CODE.get(code, 502), which `_upstream_handler` responds with.
unfoldable pub status_for : Text → ℕ
unfolding text_eq
status_for code =
    if text_eq code (codes "MODEL_UNAVAILABLE")
    then 503
    else if text_eq code (codes "MODEL_TIMEOUT")
    then 504
    else 502

module _ (is_zero : Text → Bool) where
  -- `d.get(k) or {}` and what the code goes on to read of it; `none` is an AttributeError.
  abbrev pub object_or_empty : Option Json → Option Fields
  object_or_empty (some (obj fs)) = some fs
  object_or_empty v = if truthy is_zero v then none else some end

  -- (body.get("choices") or [{}])[0]
  abbrev pub first_choice : Option Json → Option Fields
  first_choice (some (arr (cons (obj choice) rest))) = some choice
  first_choice v = if truthy is_zero v then none else some end

  abbrev pub result_of : Text → Fields → Option Fields → Option Fields → Completion
  result_of served_model_name choice (some message) (some usage) = completed (record {
    model = served_model_name;
    content = get_or (str []) (find (codes "content") message);
    prompt_tokens = get_or (num (codes "0")) (find (codes "prompt_tokens") usage);
    completion_tokens = get_or (num (codes "0")) (find (codes "completion_tokens") usage);
  })
  result_of served_model_name choice _ _ = failed

  abbrev pub on_choice : Text → Fields → Option Fields → Completion
  on_choice served_model_name body none = failed
  on_choice served_model_name body (some choice) =
      result_of served_model_name choice (object_or_empty (find (codes "message") choice))
        (object_or_empty (find (codes "usage") body))

  abbrev pub on_json : Text → Option Json → Completion
  on_json served_model_name (some (obj body)) =
      on_choice served_model_name body (first_choice (find (codes "choices") body))
  on_json served_model_name _ = failed

  unfoldable pub complete_chat : Text → Answer → Completion
  unfolding find upstream_error_of
  complete_chat served_model_name (refused e) = upstream_error_of e
  complete_chat served_model_name (responded status body) =
      let read = on_json served_model_name body in
      if leb 400 status
      then upstream_error (codes "MODEL_ERROR") (codes "The model returned an error.")
      else read

-- The code, the message and the status of a public error.
abbrev pub as_upstream_error : PublicError → Completion
as_upstream_error model_unavailable =
    upstream_error (codes "MODEL_UNAVAILABLE") (codes "The model is unavailable.")
as_upstream_error model_timeout =
    upstream_error (codes "MODEL_TIMEOUT") (codes "The model timed out.")
as_upstream_error model_error =
    upstream_error (codes "MODEL_ERROR") (codes "The model returned an error.")

abbrev pub status_of : Completion → Option ℕ
status_of (upstream_error code message) = some (status_for code)
status_of _ = none

abbrev pub http_status : PublicError → ℕ
http_status model_unavailable = 503
http_status model_timeout = 504
http_status model_error = 502

-- Both ways to answer tell the same public error, or both let the exception escape.
pub data Alike (r : Run) (c : Completion) : Type 0 where
  reports :
      (e : PublicError)
      → r.frames ≡ report e ∷ []
      → r.ending ≡ closed
      → c ≡ as_upstream_error e
      → status_of c ≡ some (http_status e)
      → Alike r c
  lets_escape : r.frames ≡ [] → r.ending ≡ escaped → c ≡ failed → Alike r c

aread-arrives : (lines : List Text) → aread (map (λ line. arrives line false) lines) ≡ none
aread-arrives [] = refl
aread-arrives (line ∷ lines) = aread-arrives lines

raised-Alike : (e : Raised) → Alike (on_raised e) (upstream_error_of e)
unfolding on_raised upstream_error_of status_for
raised-Alike connect_error = reports model_unavailable refl refl refl refl
raised-Alike connect_timeout = reports model_unavailable refl refl refl refl
raised-Alike read_timeout = reports model_timeout refl refl refl refl
raised-Alike timeout_error = reports model_timeout refl refl refl refl
raised-Alike other_http_error = reports model_error refl refl refl refl
raised-Alike other_error = lets_escape refl refl refl

-- The streamed and the plain answer fail alike, before the model has answered: for each exception of
-- the connection, and for each status from 400 on with whatever body, both tell the same one of the
-- three public errors, the plain answer with the status 503, 504 or 502 for it; only an exception
-- that is not of the HTTP client escapes from both.
pub complete_chat-Alike :
    (json_loads : Text → Option Json) (is_zero : Text → Bool) (served_model_name : Text)
    (e : Raised) (status : ℕ) (lines : List Text) (body : Option Json)
    → 400 ≤ status
    → Alike
        (stream_chat json_loads is_zero (Inference.refused e))
        (complete_chat is_zero served_model_name (refused e))
      × Alike
          (stream_chat json_loads is_zero
            (Inference.answered status (map (λ line. arrives line false) lines)))
          (complete_chat is_zero served_model_name (responded status body))
unfolding stream_chat complete_chat status_for
complete_chat-Alike json_loads is_zero served_model_name e status lines body h =
    let large : leb 400 status ≡ true = ground (arith, h) in
    (raised-Alike e, rw (large, aread-arrives lines) (reports model_error refl refl refl refl))
