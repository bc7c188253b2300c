-- ===== src/Service/Turn/Agreement.antt =====
-- The transcript on the screen and the conversation in the store agree after a streamed turn.
use eks_any_model_hosting.Common.{
  ℕ, ◌+◌, ◌≤◌, ◌≡◌, refl, subst, false, List, [], ◌∷◌, ◌++◌, map, Option, Text, is_nil, All, arith,
}
use eks_any_model_hosting.Json.{Json}
use eks_any_model_hosting.Sse.{done, returned, Outcome}
use eks_any_model_hosting.Sse.Reader.{Round, parse_sse_stream}
use eks_any_model_hosting.Sse.Reader.Chunks.{brings, decode_all}
use eks_any_model_hosting.Sse.Reader.Endings.{OutcomeShape, parse_sse_stream-OutcomeShape}
use eks_any_model_hosting.Sse.Server.{done_sent, sse, sse_all, IsCarried}
use eks_any_model_hosting.Sse.Server.RoundTrip.{received_all, parse_sse_stream-sse_all}
use eks_any_model_hosting.Chat.Requests.{sendable}
use eks_any_model_hosting.Chat.Respond.Outcomes.{IsSettled}
use eks_any_model_hosting.Chat.View.{
  View, Submission, user_message, assistant_message, history_of, stream_request, open_stream,
  on_events,
}
use eks_any_model_hosting.Chat.View.Exchange.{IsFresh, on_events-IsSettled}
use eks_any_model_hosting.Sessions.{limits_of, Sessions, cleaned, window, context}
use eks_any_model_hosting.Service.Turn.{to_message, joined, parts_of, frames_of, stream_turn}
use eks_any_model_hosting.Service.Turn.Received.{texts_of-frames, frames-live}
use eks_any_model_hosting.Service.Turn.Recall.{stream_turn-context}

-- A streamed turn, from a submission that has captured the messages on the screen. However the
-- service's frames are split into chunks, the screen ends with the user's text and the whole answer,
-- and until the session expires, the store's context of it is the window of exactly what is on the
-- screen. The submission has a session, the answer's id is new, JSON carries the frames' payloads, and
-- the model answers with some text and without an error.
pub stream_turn-agrees :
    (dumps : Json → Text) (json_parse : Text → Option Json) {Chunk State : Type 0}
    (decode : State → Chunk → Text × State) (start : State) (cs : List Chunk)
    (rs : List (Round Chunk)) (max_turns ttl_seconds max_sessions : ℕ) (store : Sessions)
    (now ended later : ℕ) (contents : List Text) (counts : Option (Json × Json))
    (access_token user_id assistant_id : Text) (controller : ℕ) (s : Submission) (v : View)
    → All (IsCarried dumps json_parse) (frames_of contents counts)
    → IsCarried dumps json_parse done_sent
    → (decode_all decode start cs).0
      ≡ sse_all dumps (frames_of contents counts) ++ (sse dumps done_sent ++ [])
    → is_nil s.session_id ≡ false
    → s.transcript ≡ v.messages
    → IsFresh assistant_id (v.messages ++ user_message user_id s.trimmed ∷ [])
    → is_nil (joined (parts_of contents)) ≡ false
    → later ≤ ended + (limits_of max_turns ttl_seconds max_sessions).ttl
    → let limits = limits_of max_turns ttl_seconds max_sessions in
      let read = parse_sse_stream json_parse decode start (map brings cs ++ rs) in
      let after =
        on_events assistant_id read.events (open_stream user_id assistant_id controller s v) in
      let sent = sendable (stream_request access_token user_id s).messages in
      (after.messages
        ≡ (v.messages ++ user_message user_id s.trimmed ∷ [])
          ++ assistant_message assistant_id (joined (parts_of contents)) false ∷ [])
      × (context limits s.session_id later
            (stream_turn limits s.session_id sent contents now ended store)
          ≡ window (cleaned (map to_message (history_of after.messages))) limits.max_messages)
unfolding limits_of stream_request stream_turn
stream_turn-agrees dumps json_parse decode start cs rs max_turns ttl_seconds max_sessions store now
      ended later contents counts access_token user_id assistant_id controller s v carried closes
      bytes named same fresh full soon =
    let limits = limits_of max_turns ttl_seconds max_sessions in
    let answer = joined (parts_of contents) in
    let before = v.messages ++ user_message user_id s.trimmed ∷ [] in
    let frames = frames_of contents counts in
    let one : 1 ≤ limits.max_sessions = ground arith in
    let read =
      parse_sse_stream-sse_all dumps json_parse decode start frames done_sent [] cs rs carried
        (frames-live contents counts) closes refl bytes in
    let o : Outcome = record { events = received_all frames ++ done ∷ []; ending = returned } in
    let settled : IsSettled o = record {
      shape =
          subst (λ p. OutcomeShape p.ending p.events) read
            (parse_sse_stream-OutcomeShape json_parse decode start (map brings cs ++ rs));
    } in
    let answered = on_events-IsSettled o user_id assistant_id controller s v settled refl fresh in
    let after = on_events assistant_id o.events (open_stream user_id assistant_id controller s v) in
    let shown : after.messages ≡ before ++ assistant_message assistant_id answer false ∷ [] =
      subst (λ t. after.messages ≡ before ++ assistant_message assistant_id t false ∷ [])
        (texts_of-frames contents counts) answered.shown in
    rw read (
      shown,
      stream_turn-context limits s.session_id user_id assistant_id s.trimmed s.transcript v.messages
          after.messages contents now ended later store one named same full soon shown,
    )
