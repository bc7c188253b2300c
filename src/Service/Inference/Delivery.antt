-- ===== src/Service/Inference/Delivery.antt =====
-- A model server that answers as the OpenAI API documents, and the streamed turn that this gives.
use eks_any_model_hosting.Common.{
  ℕ, leb, ◌<◌, ◌≡◌, refl, ap, sym, ◌∙◌, Bool, true, false, Option-cases, inl, inr, List, [], ◌∷◌,
  ◌++◌, map, append_assoc, append-nil, Option, none, some, Text, codes, arith,
}
use mathlib.Core.List.{map-append}
use eks_any_model_hosting.Json.{Json, null, str, num, obj, Fields, end, field, find}
use eks_any_model_hosting.Sse.Server.{token_sent, done_sent}
use eks_any_model_hosting.Chat.Requests.{ChatMessage}
use eks_any_model_hosting.Sessions.{Limits, Sessions, sync}
use eks_any_model_hosting.Service.Turn.{
  to_message, parts_of, usage_frames, frames_of, remembered, stream_turn,
}
use eks_any_model_hosting.Service.Limiter.{remember, synced_store}
use eks_any_model_hosting.Service.Inference.{
  Round, arrives, Upstream, answered, closed, at_end, Reading, read_lines, is_refused, answer_of,
  counts_of, texts_in, on_end, stream_chat, yielding,
}
use eks_any_model_hosting.Service.Inference.Chunks.{
  skipped, sentinel, chunk, line_of, took, Progress, read_usage, extract_delta, add_content,
  on_chunk, truthy,
}

-- The `usage` of a chunk, from the counts so far to those behind it: it is missing, `null`, or has the
-- two counts as numbers.
pub data IsCounted : Option Json → Json × Json → Json × Json → Type 0 where
  no_usage : {counts : Json × Json} → IsCounted none counts counts
  null_usage : {counts : Json × Json} → IsCounted (some null) counts counts
  counted :
      {before : Json × Json} {fs : Fields} (prompt completion : Text)
      → find (codes "prompt_tokens") fs ≡ some (num prompt)
      → find (codes "completion_tokens") fs ≡ some (num completion)
      → IsCounted (some (obj fs)) before (num prompt, num completion)

-- The content of the delta, where there is a choice with a delta that has one: it is missing, `null`
-- or a string, which may be empty.
pub data IsContent : Option Json → Text → Type 0 where
  no_content : IsContent none []
  null_content : IsContent (some null) []
  content : (text : Text) → IsContent (some (str text)) text

pub record IsChunk (is_zero : Text → Bool) (v : Json) (before after : Json × Json) (text : Text)
    : Type 0 where
  pub fields : Fields
  pub object : v ≡ obj fields
  pub usage : IsCounted (find (codes "usage") fields) before after
  pub value : Option Json
  pub delta : extract_delta is_zero fields ≡ took value
  pub valued : IsContent value text

-- The rounds of a response to a client that stays, from the counts so far to these contents and last
-- counts. Any line may be one to skip, and the sentinel ends the response, or its end does.
pub data Says (json_loads : Text → Option Json) (is_zero : Text → Bool)
    : List Round → Json × Json → List Text → Json × Json → Type 0 where
  ends : {before after : Json × Json} → before ≡ after → Says json_loads is_zero [] before [] after
  done :
      {line : Text} {rounds : List Round} {before after : Json × Json}
      → line_of json_loads line ≡ sentinel
      → before ≡ after
      → Says json_loads is_zero (arrives line false ∷ rounds) before [] after
  skips :
      {line : Text} {rounds : List Round} {before after : Json × Json} {contents : List Text}
      → line_of json_loads line ≡ skipped
      → Says json_loads is_zero rounds before contents after
      → Says json_loads is_zero (arrives line false ∷ rounds) before contents after
  says :
      {line text : Text} {rounds : List Round} {before between after : Json × Json}
      {contents : List Text} (v : Json)
      → line_of json_loads line ≡ chunk v
      → IsChunk is_zero v before between text
      → Says json_loads is_zero rounds between contents after
      → Says json_loads is_zero (arrives line false ∷ rounds) before (text ∷ contents) after

abbrev progress : Json × Json → List Text → Progress
progress (prompt, completion) parts = record {
  prompt_tokens = prompt;
  completion_tokens = completion;
  assistant_parts = map str parts;
}

abbrev told : List Text → Json × Json → List Text → Reading
told contents after parts = record {
  frames = map token_sent (parts_of contents);
  stop = at_end (progress after (parts ++ parts_of contents));
}

-- What the API documents of a response to a client that stays: a status below 400, chunks with these
-- contents, and counts that are no negative numbers.
pub record IsAnswer (json_loads : Text → Option Json) (is_zero : Text → Bool) (u : Upstream)
    (contents : List Text) (counts : Option (Json × Json)) : Type 0 where
  pub status : ℕ
  pub rounds : List Round
  pub after : Json × Json
  pub answer : u ≡ answered status rounds
  pub success : status < 400
  pub said : Says json_loads is_zero rounds (num (codes "0"), num (codes "0")) contents after
  pub taken : (is_refused is_zero after.0 ≡ false) × (is_refused is_zero after.1 ≡ false)
  pub counted : counts_of is_zero (progress after []) ≡ counts

module _ (json_loads : Text → Option Json) (is_zero : Text → Bool) where
  truthy-found :
      (k : Text) (fs : Fields) {v : Json}
      → find k fs ≡ some v
      → truthy is_zero (some (obj fs)) ≡ true
  unfolding find
  truthy-found k end e = cc
  truthy-found k (field j v fs) e = refl

  read_usage-counted :
      {usage : Option Json} {before after : Json × Json} (parts : List Text)
      → IsCounted usage before after
      → read_usage is_zero usage (progress before parts) ≡ took (progress after parts)
  unfolding read_usage
  read_usage-counted parts no_usage = refl
  read_usage-counted parts null_usage = refl
  read_usage-counted parts (counted {fs = fs} prompt completion p c) =
      rw (truthy-found (codes "prompt_tokens") fs p, p, c) refl

  add_content-text :
      {value : Option Json} {text : Text} (p : Progress)
      → IsContent value text
      → add_content is_zero value p ≡ add_content is_zero (some (str text)) p
  unfolding add_content
  add_content-text p no_content = refl
  add_content-text p null_content = refl
  add_content-text p (content text) = refl

  on_chunk-content :
      {v : Json} {text : Text} {before after : Json × Json} (parts : List Text)
      → IsChunk is_zero v before after text
      → on_chunk is_zero v (progress before parts)
        ≡ took (add_content is_zero (some (str text)) (progress after parts))
  unfolding on_chunk
  on_chunk-content {after} parts h =
      rw (h.object, read_usage-counted parts h.usage, h.delta)
        (ap took (add_content-text (progress after parts) h.valued))

  read_lines-told :
      {rounds : List Round} {before after : Json × Json} {contents : List Text} (parts : List Text)
      → Says json_loads is_zero rounds before contents after
      → read_lines json_loads is_zero rounds (progress before parts) ≡ told contents after parts
  unfolding read_lines parts_of add_content
  read_lines-told parts (ends e) = rw (e, append-nil) refl
  read_lines-told parts (done l e) = rw (l, e, append-nil) refl
  read_lines-told parts (skips l h) = rw l (read_lines-told parts h)
  read_lines-told parts (says {text = []} v l d h) =
      rw (l, on_chunk-content parts d) (read_lines-told parts h)
  read_lines-told parts (says {text = c ∷ s} {contents} v l d h) =
      rw (l, on_chunk-content parts d, sym (map-append str parts ((c ∷ s) ∷ [])))
        (ap (yielding (token_sent (c ∷ s))) (read_lines-told (parts ++ (c ∷ s) ∷ []) h)
          ∙ rw (append_assoc parts ((c ∷ s) ∷ []) (parts_of contents)) refl)

  texts_in-strings : (texts : List Text) → texts_in (map str texts) ≡ some texts
  texts_in-strings [] = refl
  texts_in-strings (t ∷ texts) = rw (texts_in-strings texts) refl

  stream_chat-frames :
      {u : Upstream} {contents : List Text} {counts : Option (Json × Json)}
      → IsAnswer json_loads is_zero u contents counts
      → stream_chat json_loads is_zero u ≡ record {
        frames = frames_of contents counts ++ done_sent ∷ [];
        completed = answer_of (parts_of contents);
        ending = closed;
      }
  unfolding stream_chat on_end frames_of
  stream_chat-frames {contents} {counts} a =
      let small : leb 400 a.status ≡ false = ground (arith, a.success) in
      let parts = parts_of contents in
      rw
        (
          a.answer,
          small,
          read_lines-told [] a.said,
          texts_in-strings parts,
          a.taken.0,
          a.taken.1,
          a.counted,
        )
        (rw (append_assoc (map token_sent parts) (usage_frames counts) (done_sent ∷ [])) refl)

remembered-answer :
    (limits : Limits) (c : ℕ) (session_id : Text) (parts : List Text) (ended : ℕ) (ss : Sessions)
    → remember limits (c ∷ session_id) (answer_of parts) ended ss
      ≡ remembered limits (c ∷ session_id) parts ended ss
unfolding remember
remembered-answer limits c session_id [] ended ss = refl
remembered-answer limits c session_id (part ∷ parts) ended ss = refl

-- The store behind the handler, where the answer has these contents.
remember-turn :
    (limits : Limits) (session_id : Text) (messages : List ChatMessage) (contents : List Text)
    (now ended : ℕ) (ss : Sessions)
    → remember limits session_id
        (answer_of (parts_of contents))
        ended
        (synced_store limits session_id (map to_message messages) now ss).0
      ≡ stream_turn limits session_id messages contents now ended ss
unfolding remember synced_store stream_turn
remember-turn limits [] messages contents now ended ss =
    elim (Option-cases (answer_of (parts_of contents))) [
      | inl e ↦ rw e refl
      | inr (text, e) ↦ rw e refl
    ]
remember-turn limits (c ∷ session_id) messages contents now ended ss =
    remembered-answer limits c session_id (parts_of contents) ended
      (sync limits (c ∷ session_id) (map to_message messages) now ss).0

-- Where the model server answers as the API documents and the client stays, the streamed answer is the
-- specification's: one token for each content that is not empty, the counts unless both are zero, and
-- `done`; and the request's handler leaves the store as the specification of the turn does.
pub stream_chat-Delivers :
    (json_loads : Text → Option Json) (is_zero : Text → Bool) (limits : Limits) (session_id : Text)
    (messages : List ChatMessage) (now ended : ℕ) (ss : Sessions) {u : Upstream}
    {contents : List Text} {counts : Option (Json × Json)}
    → IsAnswer json_loads is_zero u contents counts
    → let r = stream_chat json_loads is_zero u in
      (r.frames ≡ frames_of contents counts ++ done_sent ∷ [])
      × (r.ending ≡ closed)
      × (remember limits session_id r.completed ended
            (synced_store limits session_id (map to_message messages) now ss).0
          ≡ stream_turn limits session_id messages contents now ended ss)
stream_chat-Delivers json_loads is_zero limits session_id messages now ended ss {contents} a =
    let e = stream_chat-frames json_loads is_zero a in
    rw e (refl, refl, remember-turn limits session_id messages contents now ended ss)
