-- ===== src/Tests/Serving.antt =====
-- An answer of the model server with two chunks, of which the second has an empty delta, and the turn
-- that it gives.
use eks_any_model_hosting.Common.{
  ℕ, ◌<◌, ◌≡◌, ◌↔◌, refl, Bool, false, List, [], ◌∷◌, ◌++◌, map, Option, none, some, Text, codes,
  text_eq, length, if◌then◌else◌, arith,
}
use eks_any_model_hosting.Json.{Json, null, num, str, arr, obj, cons, nil, field, end}
use eks_any_model_hosting.Sse.Reader.{parse_sse_stream}
use eks_any_model_hosting.Sse.Reader.Chunks.{brings}
use eks_any_model_hosting.Sse.Server.{sse, sse_all}
use eks_any_model_hosting.Chat.Requests.{sendable}
use eks_any_model_hosting.Chat.View.{user_message, assistant_message, history_of, stream_request}
use eks_any_model_hosting.Sessions.{limits_of, cleaned, window, context}
use eks_any_model_hosting.Service.Turn.{to_message, joined, parts_of, frames_of}
use eks_any_model_hosting.Service.Limiter.{remember, synced_store}
use eks_any_model_hosting.Service.Body.{
  receive_body, receive_body-too_large, too_large, max_body_bytes, is_capped,
}
use eks_any_model_hosting.Service.Completion
use eks_any_model_hosting.Service.Completion.{complete_chat, complete_chat-Alike, Alike}
use eks_any_model_hosting.Service.Inference
use eks_any_model_hosting.Service.Inference.{
  arrives, answered, closed, Upstream, Round, connect_error, stream_chat,
}
use eks_any_model_hosting.Service.Inference.Chunks.{line_of, extract_delta}
use eks_any_model_hosting.Service.Inference.Closing.{IsRun, stream_chat-IsRun}
use eks_any_model_hosting.Service.Inference.Heard.{IsHeard, stream_chat-IsHeard}
use eks_any_model_hosting.Service.Inference.Delivery.{
  IsAnswer, IsChunk, no_usage, null_usage, no_content, content, says, skips, done,
}
use eks_any_model_hosting.Service.Inference.Agreement.{answered_turn-agrees}
use eks_any_model_hosting.Tests.Stream.{
  print_two, parse_two, as_text, greeting_chunks, hi-IsCarried, done-IsCarried,
}
use eks_any_model_hosting.Tests.Turn.{first, view, contents, limits, shown}

abbrev chunk_with : Text → Json
chunk_with text = obj (
    field (codes "choices")
      (arr
        (cons (obj (field (codes "delta") (obj (field (codes "content") (str text) end)) end)) nil))
      end)

abbrev is_zero : Text → Bool
is_zero n = text_eq n (codes "0")

chunk_with-IsChunk :
    (text : Text) {counts : Json × Json} → IsChunk is_zero (chunk_with text) counts counts text
unfolding extract_delta
chunk_with-IsChunk text = record {
  fields = _;
  object = refl;
  usage = no_usage;
  value = some (str text);
  delta = refl;
  valued = content text;
}

-- The last chunk of an answer: an empty delta, and no usage.
abbrev empty_chunk : Json
empty_chunk = obj (
    field (codes "usage") null
      (field (codes "choices") (arr (cons (obj (field (codes "delta") (obj end) end)) nil)) end))

-- It reads the two chunks, by their first letters.
abbrev json_loads : Text → Option Json
json_loads text =
    if text_eq text (codes "hi")
    then some (chunk_with (codes "Hi"))
    else if text_eq text (codes "no")
    then some empty_chunk
    else none

abbrev lines : List Text
lines = codes "data: hi" ∷ codes ": ping" ∷ codes "data: no" ∷ codes "data: [DONE]" ∷ []

abbrev upstream : Upstream
upstream = answered 200 (map (λ line. arrives line false) lines)

upstream-IsAnswer : IsAnswer json_loads is_zero upstream contents none
unfolding line_of extract_delta text_eq
upstream-IsAnswer = record {
  status = 200;
  rounds = map (λ line. arrives line false) lines;
  after = (num (codes "0"), num (codes "0"));
  answer = refl;
  success = omega arith;
  said = says (chunk_with (codes "Hi")) refl (chunk_with-IsChunk (codes "Hi")) (
      skips refl (
        says empty_chunk refl
          (record {
            fields = _;
            object = refl;
            usage = null_usage;
            value = none;
            delta = refl;
            valued = no_content;
          })
          (done refl refl)));
  taken = (refl, refl);
  counted = refl;
}

stream_chat-IsRun_example : IsRun is_zero (stream_chat json_loads is_zero upstream)
stream_chat-IsRun_example = stream_chat-IsRun json_loads is_zero upstream

stream_chat-IsHeard_example :
    IsHeard
      (stream_chat json_loads is_zero upstream)
      (parse_sse_stream parse_two as_text 0 (map brings greeting_chunks ++ []))
unfolding stream_chat sse_all sse text_eq
stream_chat-IsHeard_example =
    stream_chat-IsHeard print_two parse_two as_text 0 greeting_chunks [] json_loads is_zero upstream
      refl (hi-IsCarried, (done-IsCarried, tt)) refl

complete_chat-Alike_example :
    Alike
      (stream_chat json_loads is_zero (Inference.refused connect_error))
      (complete_chat is_zero (codes "llama-pilot") (Completion.refused connect_error))
    × Alike
        (stream_chat json_loads is_zero (answered 500 (map (λ line. arrives line false) lines)))
        (complete_chat is_zero (codes "llama-pilot") (Completion.responded 500 none))
complete_chat-Alike_example =
    complete_chat-Alike json_loads is_zero (codes "llama-pilot") connect_error 500 lines none
      (omega arith)

abbrev parse_int : Text → Option ℕ
parse_int header = some (length header)

receive_body-too_large_example :
    ((receive_body parse_int (some (codes "11")) (codes "POST") (codes "a" ∷ codes "b" ∷ [])
        ≡ too_large)
      ↔ (max_body_bytes < 2))
    × ((receive_body parse_int none (codes "POST") (codes "a" ∷ codes "b" ∷ []) ≡ too_large)
        ↔ (max_body_bytes < 1))
unfolding text_eq is_capped
receive_body-too_large_example =
    receive_body-too_large parse_int (codes "11") (codes "POST") (codes "a" ∷ codes "b" ∷ []) refl
      refl

answered_turn-agrees_example :
    (shown.messages
      ≡ (view.messages ++ user_message (codes "u") (codes "Hello") ∷ [])
        ++ assistant_message (codes "a") (joined (parts_of contents)) false ∷ [])
    × (context limits (codes "s") 60 (
          remember limits
            (codes "s")
            (stream_chat json_loads is_zero upstream).completed
            20
            (synced_store limits
              (codes "s")
              (map to_message (sendable (stream_request (codes "at") (codes "u") first).messages))
              10
              []).0)
        ≡ window (cleaned (map to_message (history_of shown.messages))) limits.max_messages)
unfolding stream_chat sse_all sse frames_of text_eq joined limits_of
answered_turn-agrees_example =
    answered_turn-agrees json_loads is_zero print_two parse_two as_text 0 greeting_chunks [] 12 1800
      1000 [] 10 20 60 (codes "at") (codes "u") (codes "a") 1 first view upstream-IsAnswer
      (hi-IsCarried, (done-IsCarried, tt)) refl refl refl (refl, tt) refl (omega arith)
