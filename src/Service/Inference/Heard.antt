-- ===== src/Service/Inference/Heard.antt =====
-- What the client hears of a streamed answer, against what the service remembers of it.
use eks_any_model_hosting.Common.{
  ◌≡◌, Bool, refl, ap, sym, ◌∙◌, subst, true, false, List, [], ◌∷◌, ◌++◌, map, append_assoc,
  append-nil, Option, Option-cases, inl, inr, none, some, Text, codes, All, arith,
}
use eks_any_model_hosting.Json.{Json, null, bool, num, str, arr, obj}
use eks_any_model_hosting.Sse.{Event, done, error, returned, Outcome}
use eks_any_model_hosting.Sse.Frame.{server_error}
use eks_any_model_hosting.Sse.Reader.{Round, parse_sse_stream}
use eks_any_model_hosting.Sse.Reader.Chunks.{brings, decode_all}
use eks_any_model_hosting.Sse.Server.{Sent, token_sent, done_sent, is_last, sse, sse_all, IsCarried}
use eks_any_model_hosting.Sse.Server.Frames.{received}
use eks_any_model_hosting.Sse.Server.RoundTrip.{received_all, parse_sse_stream-sse_all}
use eks_any_model_hosting.Chat.View.Exchange.{texts_of, texts_of-append}
use eks_any_model_hosting.Service.Turn.{joined, usage_frames}
use eks_any_model_hosting.Service.Turn.Received.{texts_of-answer, answer-live}
use eks_any_model_hosting.Service.Inference.{
  Upstream, Run, closed, answer_of, token_of, texts_in, stream_chat,
}
use eks_any_model_hosting.Service.Inference.Closing.{
  PublicError, model_unavailable, model_timeout, model_error, report, Closes, answers, fails,
  leaves, escapes, stream_chat-IsRun,
}

-- The message that the client shows for an error.
abbrev pub shown_error : PublicError → Text
shown_error model_unavailable = codes "The model is unavailable."
shown_error model_timeout = codes "The model timed out."
shown_error model_error = codes "The model returned an error."

-- The client's callbacks of a run that has closed: the texts are the parts, and behind the live calls
-- there is one closing call, `done` exactly where the service has remembered the texts.
pub data IsHeard (r : Run) (o : Outcome) : Type 0 where
  hears_answer :
      (parts : List Text) (live : List Event)
      → o ≡ record { events = live ++ done ∷ []; ending = returned }
      → texts_of o.events ≡ joined parts
      → r.completed ≡ answer_of parts
      → IsHeard r o
  hears_error :
      (parts : List Text) (live : List Event) (e : PublicError)
      → o ≡ record { events = live ++ error (server_error (shown_error e)) ∷ []; ending = returned }
      → texts_of o.events ≡ joined parts
      → r.completed ≡ none
      → IsHeard r o

-- The strings among the parts: another value in a token has no call.
abbrev strings_in : List Json → List Text
strings_in [] = []
strings_in (str text ∷ parts) = text ∷ strings_in parts
strings_in (_ ∷ parts) = strings_in parts

-- Parts that are joined are sent as texts.
tokens-texts_in :
    (parts : List Json) {texts : List Text}
    → texts_in parts ≡ some texts
    → map token_of parts ≡ map token_sent texts
tokens-texts_in [] {texts = []} e = refl
tokens-texts_in [] {texts = t ∷ texts} e = cc
tokens-texts_in (str s ∷ parts) {texts} e = elim (Option-cases (texts_in parts)) [
  | inl n ↦ ground (arith, e, n)
  | inr (ts, h) ↦
      let same : s ∷ ts ≡ texts = ground (arith, e, h) in
      ap (◌∷◌ (token_sent s)) (tokens-texts_in parts h) ∙ ap (map token_sent) same
]
tokens-texts_in (null ∷ parts) e = cc
tokens-texts_in (bool b ∷ parts) e = cc
tokens-texts_in (num n ∷ parts) e = cc
tokens-texts_in (arr vs ∷ parts) e = cc
tokens-texts_in (obj fs ∷ parts) e = cc

texts_of-parts :
    (parts : List Json) → texts_of (received_all (map token_of parts)) ≡ joined (strings_in parts)
unfolding joined
texts_of-parts [] = refl
texts_of-parts (str [] ∷ parts) = texts_of-parts parts
texts_of-parts (str (c ∷ s) ∷ parts) = ap (◌++◌ (c ∷ s)) (texts_of-parts parts)
texts_of-parts (null ∷ parts) = texts_of-parts parts
texts_of-parts (bool b ∷ parts) = texts_of-parts parts
texts_of-parts (num n ∷ parts) = texts_of-parts parts
texts_of-parts (arr vs ∷ parts) = texts_of-parts parts
texts_of-parts (obj fs ∷ parts) = texts_of-parts parts

token_of-live : (v : Json) → is_last (token_of v) ≡ false
token_of-live null = refl
token_of-live (bool b) = refl
token_of-live (num n) = refl
token_of-live (str s) = refl
token_of-live (arr vs) = refl
token_of-live (obj fs) = refl

parts-live : (parts : List Json) → All (λ e. is_last e ≡ false) (map token_of parts)
parts-live [] = tt
parts-live (part ∷ parts) = (token_of-live part, parts-live parts)

report-is_last : (e : PublicError) → is_last (report e) ≡ true
report-is_last model_unavailable = refl
report-is_last model_timeout = refl
report-is_last model_error = refl

received-report :
    (e : PublicError) → received (report e) ≡ error (server_error (shown_error e)) ∷ []
received-report model_unavailable = refl
received-report model_timeout = refl
received-report model_error = refl

pub sse_all-last :
    (dumps : Json → Text) (es : List Sent) (last : Sent)
    → sse_all dumps (es ++ last ∷ []) ≡ sse_all dumps es ++ (sse dumps last ++ [])
unfolding sse_all
sse_all-last dumps [] last = refl
sse_all-last dumps (e ∷ es) last =
    ap (λ t. sse dumps e ++ t) (sse_all-last dumps es last)
    ∙ sym (append_assoc (sse dumps e) (sse_all dumps es) (sse dumps last ++ []))

pub All-last :
    {A : Type 0} (P : A → Type 0) (xs : List A) (x : A) → All P (xs ++ x ∷ []) → All P xs × P x
All-last P [] x (p, _) = (tt, p)
All-last P (y ∷ xs) x (p, h) = let (all, last) = All-last P xs x h in ((p, all), last)

module _ (dumps : Json → Text) (json_parse : Text → Option Json) {Chunk State : Type 0}
    (decode : State → Chunk → Text × State) (start : State) (cs : List Chunk)
    (rs : List (Round Chunk)) where
  abbrev hearing : Outcome
  hearing = parse_sse_stream json_parse decode start (map brings cs ++ rs)

  heard_frames :
      (es : List Sent) (last : Sent)
      → All (λ e. is_last e ≡ false) es
      → is_last last ≡ true
      → All (IsCarried dumps json_parse) (es ++ last ∷ [])
      → (decode_all decode start cs).0 ≡ sse_all dumps (es ++ last ∷ [])
      → hearing ≡ record { events = received_all es ++ received last; ending = returned }
  heard_frames es last live ends carried bytes =
      let (each, closing) = All-last (IsCarried dumps json_parse) es last carried in
      parse_sse_stream-sse_all dumps json_parse decode start es last [] cs rs each live closing ends
        (bytes ∙ sse_all-last dumps es last)

  heard_answer :
      (r : Run) (es : List Sent) (last : Sent)
      → r.frames ≡ es ++ last ∷ []
      → All (λ e. is_last e ≡ false) es
      → is_last last ≡ true
      → All (IsCarried dumps json_parse) r.frames
      → (decode_all decode start cs).0 ≡ sse_all dumps r.frames
      → hearing ≡ record { events = received_all es ++ received last; ending = returned }
  heard_answer r es last sent live ends carried bytes =
      heard_frames es last live ends (subst (All (IsCarried dumps json_parse)) sent carried)
        (bytes ∙ ap (sse_all dumps) sent)

  run-IsHeard :
      (r : Run) (parts : List Json)
      → Closes parts r
      → r.ending ≡ closed
      → All (IsCarried dumps json_parse) r.frames
      → (decode_all decode start cs).0 ≡ sse_all dumps r.frames
      → IsHeard r hearing
  run-IsHeard r parts (answers texts counts strings sent remembered _) ends carried bytes =
      let es = map token_sent texts ++ usage_frames counts in
      let closing = usage_frames counts ++ done_sent ∷ [] in
      let heard =
        heard_answer r es done_sent
          (sent
            ∙ ap (λ tokens. tokens ++ closing) (tokens-texts_in parts strings)
            ∙ sym (append_assoc (map token_sent texts) (usage_frames counts) (done_sent ∷ [])))
          (answer-live texts counts) refl carried bytes in
      hears_answer texts (received_all es) heard
        (ap (λ (o : Outcome). texts_of o.events) heard ∙ texts_of-answer texts counts) remembered
  run-IsHeard r parts (fails e sent remembered _) ends carried bytes =
      let es = map token_of parts in
      let closing = error (server_error (shown_error e)) ∷ [] in
      let heard =
        heard_answer r es (report e) sent (parts-live parts) (report-is_last e) carried bytes
        ∙ ap (λ (c : List Event). record { events = received_all es ++ c; ending = returned })
            (received-report e) in
      hears_error (strings_in parts) (received_all es) e heard
        (ap (λ (o : Outcome). texts_of o.events) heard
          ∙ texts_of-append (received_all es) closing
          ∙ append-nil (texts_of (received_all es))
          ∙ texts_of-parts parts)
        remembered
  run-IsHeard r parts (leaves _ _ e) ends carried bytes = cc
  run-IsHeard r parts (escapes _ _ e) ends carried bytes = cc

  -- A streamed answer that the service closes, in any chunks, and whatever the model server did. The
  -- client's reader returns; its texts are the strings among the parts of the answer, and its last call is either `done`,
  -- and the service then remembers exactly these texts (or nothing, where there are none), or
  -- the error with one of the three public messages, and the service then remembers nothing.
  -- JSON carries the payloads of the frames.
  pub stream_chat-IsHeard :
      (json_loads : Text → Option Json) (is_zero : Text → Bool) (u : Upstream)
      → let r = stream_chat json_loads is_zero u in
        r.ending ≡ closed
        → All (IsCarried dumps json_parse) r.frames
        → (decode_all decode start cs).0 ≡ sse_all dumps r.frames
        → IsHeard r (parse_sse_stream json_parse decode start (map brings cs ++ rs))
  stream_chat-IsHeard json_loads is_zero u ends carried bytes =
      let run = stream_chat-IsRun json_loads is_zero u in
      run-IsHeard (stream_chat json_loads is_zero u) run.parts run.closes ends carried bytes
