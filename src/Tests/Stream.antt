-- ===== src/Tests/Stream.antt =====
-- Runs of the chat client: frames, chunks, requests and errors.
use eks_any_model_hosting.Common.{
  ℕ, ◌≡◌, refl, true, false, List, [], ◌∷◌, ◌++◌, Option, none, some, Text, codes, text_eq,
  starts_with, trim, map, ◌⊎◌, arith, if◌then◌else◌,
}
use mathlib.Core.Option
use eks_any_model_hosting.Json.{Json, str, obj, field, end}
use eks_any_model_hosting.Sse.{token, done, returned}
use eks_any_model_hosting.Sse.Boundary.{index_of_frame_boundary, strip_boundary}
use eks_any_model_hosting.Sse.Boundary.Cut.{cut, cut-index, frame_at}
use eks_any_model_hosting.Sse.Frame.{handle_frame}
use eks_any_model_hosting.Sse.Reader
use eks_any_model_hosting.Sse.Reader.{Round, value, drain, drain_from, flush, parse_sse_stream}
use eks_any_model_hosting.Sse.Reader.Chunks.{brings, parse_sse_stream_chunking}
use eks_any_model_hosting.Sse.Reader.Drain.{drain-index_of_frame_boundary}
use eks_any_model_hosting.Sse.Reader.Endings.{OutcomeShape, parse_sse_stream-OutcomeShape}
use eks_any_model_hosting.Sse.Server.{Sent, token_sent, done_sent, sse, sse_all, IsCarried}
use eks_any_model_hosting.Sse.Server.RoundTrip.{received_all, parse_sse_stream-sse_all}
use eks_any_model_hosting.Sse.Server.Frames.{received}
use eks_any_model_hosting.Chat.Requests.{ChatMessage, StreamRequest}
use eks_any_model_hosting.Chat.Respond.{Fetched, responded, on_fetched, stream_chat_completion}
use eks_any_model_hosting.Chat.Respond.Outcomes.{IsSettled, stream_chat_completion-IsSettled}
use eks_any_model_hosting.Chat.Respond.Refusals.{Reports, Streams, on_fetched-Reports}

-- A JSON.parse that knows two texts, and the printer of the same values.
abbrev hi_json : Json
hi_json = obj (field (codes "text") (str (codes "Hi")) end)

abbrev pub parse_two : Text → Option Json
parse_two t =
    if text_eq t (codes "{\"text\":\"Hi\"}")
    then some hi_json
    else if text_eq t (codes "{}")
    then some (obj end)
    else none

abbrev pub print_two : Json → Text
print_two (obj end) = codes "{}"
print_two (obj (field k (str v) end)) = codes "{\"" ++ (k ++ (codes "\":\"" ++ (v ++ codes "\"}")))
print_two _ = []

-- Chunks that are texts already.
abbrev pub as_text : ℕ → Text → Text × ℕ
as_text st chunk = (chunk, st)

abbrev ended : Round Text
ended = record { aborted = false; read = Reader.end }

frame_test :
    handle_frame parse_two (codes "event: token\r\ndata: {\"text\":\"Hi\"}")
    ≡ record { events = token (codes "Hi") ∷ []; finished = false }
unfolding handle_frame
frame_test = refl

sentinel_test :
    handle_frame parse_two (codes ": ping\ndata: [DONE]")
    ≡ record { events = done ∷ []; finished = true }
unfolding handle_frame
sentinel_test = refl

boundary_test :
    (index_of_frame_boundary (codes "ab\r\n\r\ncd\n\n") ≡ some 2)
    × (strip_boundary (codes "\r\n\r\ncd") ≡ codes "cd")
unfolding index_of_frame_boundary strip_boundary
boundary_test = (refl, refl)

-- A blank line written with two kinds of line ends is no boundary.
mixed_test : index_of_frame_boundary (codes "data: a\n\r\ndata: b") ≡ none
unfolding index_of_frame_boundary
mixed_test = refl

cut-index_example :
    cut (codes "ab\n\ncd")
    ≡ Option.map (frame_at (codes "ab\n\ncd")) (index_of_frame_boundary (codes "ab\n\ncd"))
cut-index_example = cut-index (codes "ab\n\ncd")

drain-index_of_frame_boundary_example :
    ((drain parse_two (codes "data: a\n\ndata")).finished ≡ true)
    ⊎ (index_of_frame_boundary (drain parse_two (codes "data: a\n\ndata")).buffer ≡ none)
drain-index_of_frame_boundary_example =
    drain-index_of_frame_boundary parse_two (codes "data: a\n\ndata")

abbrev split_chunks : List Text
split_chunks = codes "data: a\r" ∷ codes "\n\r\nda" ∷ codes "ta: b\n\n" ∷ []

abbrev whole_chunk : List Text
whole_chunk = codes "data: a\r\n\r\ndata: b\n\n" ∷ []

parse_sse_stream_chunking_example :
    parse_sse_stream parse_two as_text 0 (map brings split_chunks ++ ended ∷ [])
    ≡ parse_sse_stream parse_two as_text 0 (map brings whole_chunk ++ ended ∷ [])
parse_sse_stream_chunking_example =
    parse_sse_stream_chunking parse_two as_text 0 split_chunks whole_chunk (ended ∷ []) refl

stream_test :
    parse_sse_stream parse_two as_text 0 (map brings split_chunks ++ ended ∷ [])
    ≡ record { events = token (codes "a") ∷ token (codes "b") ∷ done ∷ []; ending = returned }
unfolding parse_sse_stream drain drain_from flush index_of_frame_boundary strip_boundary
    handle_frame
stream_test = refl

parse_sse_stream-OutcomeShape_example :
    OutcomeShape
      (parse_sse_stream parse_two as_text 0 (map brings split_chunks ++ ended ∷ [])).ending
      (parse_sse_stream parse_two as_text 0 (map brings split_chunks ++ ended ∷ [])).events
parse_sse_stream-OutcomeShape_example =
    parse_sse_stream-OutcomeShape parse_two as_text 0 (map brings split_chunks ++ ended ∷ [])

pub hi-IsCarried : IsCarried print_two parse_two (token_sent (codes "Hi"))
unfolding starts_with trim text_eq
hi-IsCarried = record { opens = refl; plain = omega arith; trimmed = refl; parsed = refl }

pub done-IsCarried : IsCarried print_two parse_two done_sent
unfolding starts_with trim text_eq
done-IsCarried = record { opens = refl; plain = omega arith; trimmed = refl; parsed = refl }

abbrev greeting : List Sent
greeting = token_sent (codes "Hi") ∷ []

abbrev pub greeting_chunks : List Text
greeting_chunks =
    codes "event: token\nda"
    ∷ codes "ta: {\"text\":\"Hi\"}\n"
    ∷ codes "\nevent: done\ndata: {}\n\n"
    ∷ []

parse_sse_stream-sse_all_example :
    parse_sse_stream parse_two as_text 0 (map brings greeting_chunks ++ [])
    ≡ record { events = received_all greeting ++ received done_sent; ending = returned }
unfolding sse_all sse
parse_sse_stream-sse_all_example =
    parse_sse_stream-sse_all print_two parse_two as_text 0 greeting done_sent [] greeting_chunks []
      (hi-IsCarried, tt) (refl, tt) done-IsCarried refl refl

abbrev history : List ChatMessage
history =
    record { role = codes "system"; content = codes "obey" }
    ∷ record { role = codes "user"; content = codes "Hello" }
    ∷ []

abbrev hello_request : StreamRequest
hello_request = record {
  messages = history;
  access_token = codes "at";
  session_id = none;
  temperature = none;
  max_output_tokens = none;
}

abbrev throttled_reply : Fetched Text
throttled_reply =
    responded
      (record { ok = false; status = 429; body = none; body_text = some (codes "slow down") })

abbrev show_429 : ℕ → Text
show_429 n = codes "429"

on_fetched-Reports_example :
    Reports throttled_reply (on_fetched parse_two show_429 as_text 0 throttled_reply)
    ⊎ Streams throttled_reply
on_fetched-Reports_example = on_fetched-Reports parse_two show_429 as_text 0 throttled_reply

stream_chat_completion-IsSettled_example : IsSettled (
    stream_chat_completion parse_two show_429 as_text 0
      (codes "https://api")
      print_two
      (λ _. throttled_reply)
      hello_request)
stream_chat_completion-IsSettled_example =
    stream_chat_completion-IsSettled parse_two show_429 as_text 0 (codes "https://api") print_two
      (λ _. throttled_reply) hello_request
