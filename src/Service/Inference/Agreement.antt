-- ===== src/Service/Inference/Agreement.antt =====
-- A streamed turn from the model server's lines to the screen and to the service's memory.
use eks_any_model_hosting.Common.{
  ℕ, ◌+◌, ◌≤◌, ◌≡◌, ap, ◌∙◌, subst, Bool, false, List, [], ◌∷◌, ◌++◌, map, Option, Text, is_nil,
  All,
}
use eks_any_model_hosting.Json.{Json}
use eks_any_model_hosting.Sse.Reader.{Round, parse_sse_stream}
use eks_any_model_hosting.Sse.Reader.Chunks.{brings, decode_all}
use eks_any_model_hosting.Sse.Server.{done_sent, sse_all, IsCarried}
use eks_any_model_hosting.Chat.Requests.{sendable}
use eks_any_model_hosting.Chat.View.{
  View, Submission, user_message, assistant_message, history_of, stream_request, open_stream,
  on_events,
}
use eks_any_model_hosting.Chat.View.Exchange.{IsFresh}
use eks_any_model_hosting.Sessions.{limits_of, Sessions, cleaned, window, context}
use eks_any_model_hosting.Service.Turn.{to_message, joined, parts_of, frames_of}
use eks_any_model_hosting.Service.Turn.Agreement.{stream_turn-agrees}
use eks_any_model_hosting.Service.Limiter.{remember, synced_store}
use eks_any_model_hosting.Service.Inference.{Upstream, stream_chat}
use eks_any_model_hosting.Service.Inference.Heard.{sse_all-last, All-last}
use eks_any_model_hosting.Service.Inference.Delivery.{IsAnswer, stream_chat-Delivers}

-- A streamed turn, from a submission that has captured the messages on the screen and that the
-- limiter admits. The model server answers as its API documents, with some text, and the client stays.
-- However the frames of `stream_chat` are split into chunks, the screen ends with the user's text and
-- the whole answer; and until the session expires, the context that the handler's two uses of the store
-- leave is the window of exactly what is on the screen. The submission has a session, the answer's id
-- is new, and JSON carries the frames' payloads.
pub answered_turn-agrees :
    (json_loads : Text → Option Json) (is_zero : Text → Bool) (dumps : Json → Text)
    (json_parse : Text → Option Json) {Chunk State : Type 0} (decode : State → Chunk → Text × State)
    (start : State) (cs : List Chunk) (rs : List (Round Chunk))
    (max_turns ttl_seconds max_sessions : ℕ) (store : Sessions) (now ended later : ℕ) {u : Upstream}
    {contents : List Text} {counts : Option (Json × Json)}
    (access_token user_id assistant_id : Text) (controller : ℕ) (s : Submission) (v : View)
    → IsAnswer json_loads is_zero u contents counts
    → let r = stream_chat json_loads is_zero u in
      All (IsCarried dumps json_parse) r.frames
      → (decode_all decode start cs).0 ≡ sse_all dumps r.frames
      → is_nil s.session_id ≡ false
      → s.transcript ≡ v.messages
      → IsFresh assistant_id (v.messages ++ user_message user_id s.trimmed ∷ [])
      → is_nil (joined (parts_of contents)) ≡ false
      → later ≤ ended + (limits_of max_turns ttl_seconds max_sessions).ttl
      → let limits = limits_of max_turns ttl_seconds max_sessions in
        let read = parse_sse_stream json_parse decode start (map brings cs ++ rs) in
        let after =
          on_events assistant_id read.events (open_stream user_id assistant_id controller s v) in
        let sent = map to_message (sendable (stream_request access_token user_id s).messages) in
        let synced = (synced_store limits s.session_id sent now store).0 in
        (after.messages
          ≡ (v.messages ++ user_message user_id s.trimmed ∷ [])
            ++ assistant_message assistant_id (joined (parts_of contents)) false ∷ [])
        × (context limits s.session_id later (remember limits s.session_id r.completed ended synced)
            ≡ window (cleaned (map to_message (history_of after.messages))) limits.max_messages)
answered_turn-agrees json_loads is_zero dumps json_parse decode start cs rs max_turns ttl_seconds
      max_sessions store now ended later {u} {contents} {counts} access_token user_id assistant_id
      controller s v answer carried bytes named same fresh full soon =
    let limits = limits_of max_turns ttl_seconds max_sessions in
    let messages = sendable (stream_request access_token user_id s).messages in
    let (sent, closes, stored) =
      stream_chat-Delivers json_loads is_zero limits s.session_id messages now ended store answer in
    let (each, last) =
      All-last (IsCarried dumps json_parse) (frames_of contents counts) done_sent
        (subst (All (IsCarried dumps json_parse)) sent carried) in
    let (shown, kept) =
      stream_turn-agrees dumps json_parse decode start cs rs max_turns ttl_seconds max_sessions
        store now ended later contents counts access_token user_id assistant_id controller s v each
        last
        (bytes ∙ ap (sse_all dumps) sent ∙ sse_all-last dumps (frames_of contents counts) done_sent)
        named same fresh full soon in
    (shown, ap (context limits s.session_id later) stored ∙ kept)
