-- ===== src/Service/Inference/Closing.antt =====
-- How the streams of the API service close, for every answer of the model server.
use eks_any_model_hosting.Common.{
  leb, ◌≡◌, refl, ap, sym, subst, ◌∙◌, Bool, Bool-cases, true, ◌⊎◌, inl, inr, List, [], ◌∷◌, ◌++◌,
  map, append-nil, append_assoc, Option, none, some, Text, codes, All, if_both, ◌||◌,
}
use eks_any_model_hosting.Json.{Json, obj, find}
use eks_any_model_hosting.Sse.Server.{Sent, done_sent, error_sent}
use eks_any_model_hosting.Service.Turn.{usage_frames}
use eks_any_model_hosting.Service.Inference.{
  Raised, connect_error, connect_timeout, read_timeout, timeout_error, other_http_error,
  other_error, Round, arrives, breaks, Upstream, refused, answered, closed, left, escaped, Run,
  on_raised, Stop, at_end, at_departure, at_exception, Reading, stopped, on_taken, on_line,
  read_lines, is_refused, answer_of, counts_of, token_of, texts_in, on_texts, on_end, on_stop,
  on_reading, aread, on_refusal, stream_chat,
}
use eks_any_model_hosting.Service.Inference.Chunks.{
  Line, skipped, sentinel, chunk, line_of, Taken, took, raised, Progress, no_progress, truthy,
  read_counts, read_usage, extract_delta, add_content, on_chunk, ◌>>=◌,
}

abbrev Takes : {A : Type 0} → (A → Type 0) → Taken A → Type 0
Takes P (took a) = P a
Takes P raised = Unit

abbrev Keeps : Progress → Progress → Type 0
Keeps p p' = p'.assistant_parts ≡ p.assistant_parts

module _ (is_zero : Text → Bool) where
  -- A part is a content that is no empty value.
  abbrev pub IsPart : Json → Type 0
  IsPart part = truthy is_zero (some part) ≡ true

  -- What a reading adds to the parts.
  abbrev Adds : Progress → Progress × Option Json → Type 0
  Adds p (p', none) = Keeps p p'
  Adds p (p', some part) = (p'.assistant_parts ≡ p.assistant_parts ++ part ∷ []) × IsPart part

  read_counts-Keeps :
      (usage : Option Json) (p : Progress) → Takes (Keeps p) (read_counts is_zero usage p)
  read_counts-Keeps (some (obj fs)) p = refl
  read_counts-Keeps _ p = tt

  read_usage-Keeps :
      (usage : Option Json) (p : Progress) → Takes (Keeps p) (read_usage is_zero usage p)
  unfolding read_usage
  read_usage-Keeps usage p =
      if_both (Takes (Keeps p)) (truthy is_zero usage) (read_counts-Keeps usage p) refl

  add_content-Adds :
      (content : Option Json) (p p' : Progress)
      → Keeps p p'
      → Adds p (add_content is_zero content p')
  unfolding add_content
  add_content-Adds none p p' h = h
  add_content-Adds (some v) p p' h = elim (Bool-cases (truthy is_zero (some v))) [
    | inl e ↦ rw e (ap (λ parts. parts ++ v ∷ []) h, e)
    | inr e ↦ rw e h
  ]

  added-Adds :
      (p : Progress) (t : Taken Progress) (c : Taken (Option Json))
      → Takes (Keeps p) t
      → Takes (Adds p) (t >>= λ p'. c >>= λ content. took (add_content is_zero content p'))
  added-Adds p (took p') (took content) kept = add_content-Adds content p p' kept
  added-Adds p (took p') raised kept = tt
  added-Adds p raised c kept = tt

  on_chunk-Adds : (v : Json) (p : Progress) → Takes (Adds p) (on_chunk is_zero v p)
  unfolding on_chunk
  on_chunk-Adds (obj fs) p =
      let usage = find (codes "usage") fs in
      added-Adds p (read_usage is_zero usage p) (extract_delta is_zero fs)
        (read_usage-Keeps usage p)
  on_chunk-Adds _ p = tt

-- Where the loop ends by itself, its parts are those of the tokens behind the old ones.
abbrev StopsWith : Progress → List Json → Stop → Type 0
StopsWith p parts (at_end p') = p'.assistant_parts ≡ p.assistant_parts ++ parts
StopsWith p parts _ = Unit

record IsReading (is_zero : Text → Bool) (p : Progress) (r : Reading) : Type 0 where
  parts : List Json
  filled : All (IsPart is_zero) parts
  frames : r.frames ≡ map token_of parts
  stop : StopsWith p parts r.stop

stopped-IsReading :
    {is_zero : Text → Bool} (p : Progress) (s : Stop)
    → StopsWith p [] s
    → IsReading is_zero p (stopped s)
stopped-IsReading p s h = record { parts = []; filled = tt; frames = refl; stop = h }

-- The old parts are the same, so the reading may start from either.
StopsWith-kept :
    (p p' : Progress) (parts : List Json) (s : Stop)
    → Keeps p p'
    → StopsWith p' parts s
    → StopsWith p parts s
StopsWith-kept p p' parts (at_end q) e h = h ∙ ap (λ old. old ++ parts) e
StopsWith-kept p p' parts at_departure e h = tt
StopsWith-kept p p' parts (at_exception x) e h = tt

StopsWith-added :
    (p p' : Progress) (part : Json) (parts : List Json) (s : Stop)
    → p'.assistant_parts ≡ p.assistant_parts ++ part ∷ []
    → StopsWith p' parts s
    → StopsWith p (part ∷ parts) s
StopsWith-added p p' part parts (at_end q) e h =
    h ∙ ap (λ old. old ++ parts) e ∙ append_assoc p.assistant_parts (part ∷ []) parts
StopsWith-added p p' part parts at_departure e h = tt
StopsWith-added p p' part parts (at_exception x) e h = tt

on_taken-IsReading :
    {is_zero : Text → Bool} (p : Progress) (t : Taken (Progress × Option Json))
    (go_on : Progress → Reading)
    → Takes (Adds is_zero p) t
    → ((p' : Progress) → IsReading is_zero p' (go_on p'))
    → IsReading is_zero p (on_taken t go_on)
on_taken-IsReading p (took (p', none)) go_on h k =
    let r = k p' in
    record {
      parts = r.parts;
      filled = r.filled;
      frames = r.frames;
      stop = StopsWith-kept p p' r.parts (go_on p').stop h r.stop;
    }
on_taken-IsReading p (took (p', some part)) go_on (e, full) k =
    let r = k p' in
    record {
      parts = part ∷ r.parts;
      filled = (full, r.filled);
      frames = ap (◌∷◌ (token_of part)) r.frames;
      stop = StopsWith-added p p' part r.parts (go_on p').stop e r.stop;
    }
on_taken-IsReading p raised go_on h k = stopped-IsReading p (at_exception other_error) tt

module _ (json_loads : Text → Option Json) (is_zero : Text → Bool) where
  on_line-IsReading :
      (line : Line) (p : Progress) (go_on : Progress → Reading)
      → ((p' : Progress) → IsReading is_zero p' (go_on p'))
      → IsReading is_zero p (on_line json_loads is_zero line p go_on)
  on_line-IsReading skipped p go_on k = k p
  on_line-IsReading sentinel p go_on k =
      stopped-IsReading p (at_end p) (sym (append-nil p.assistant_parts))
  on_line-IsReading (chunk v) p go_on k =
      on_taken-IsReading p (on_chunk is_zero v p) go_on (on_chunk-Adds is_zero v p) k

  read_lines-IsReading :
      (rounds : List Round) (p : Progress)
      → IsReading is_zero p (read_lines json_loads is_zero rounds p)
  unfolding read_lines
  read_lines-IsReading [] p = stopped-IsReading p (at_end p) (sym (append-nil p.assistant_parts))
  read_lines-IsReading (breaks e ∷ rounds) p = stopped-IsReading p (at_exception e) tt
  read_lines-IsReading (arrives line gone ∷ rounds) p =
      if_both (IsReading is_zero p) gone (stopped-IsReading p at_departure tt) (
        on_line-IsReading (line_of json_loads line) p (read_lines json_loads is_zero rounds)
          (read_lines-IsReading rounds))

-- The errors that the service reports, and nothing of the server's own text.
pub data PublicError : Type 0 where
  model_unavailable model_timeout model_error : PublicError

abbrev pub report : PublicError → Sent
report model_unavailable =
    error_sent (codes "MODEL_UNAVAILABLE") (codes "The model is unavailable.")
report model_timeout = error_sent (codes "MODEL_TIMEOUT") (codes "The model timed out.")
report model_error = error_sent (codes "MODEL_ERROR") (codes "The model returned an error.")

-- What may follow the tokens of the parts, with what the store is to remember. Only parts that are
-- strings all are joined to an answer.
pub data Closes (parts : List Json) (r : Run) : Type 0 where
  answers :
      (texts : List Text) (counts : Option (Json × Json))
      → texts_in parts ≡ some texts
      → r.frames ≡ map token_of parts ++ (usage_frames counts ++ done_sent ∷ [])
      → r.completed ≡ answer_of texts
      → r.ending ≡ closed
      → Closes parts r
  fails :
      (e : PublicError)
      → r.frames ≡ map token_of parts ++ report e ∷ []
      → r.completed ≡ none
      → r.ending ≡ closed
      → Closes parts r
  leaves : r.frames ≡ map token_of parts → r.completed ≡ none → r.ending ≡ left → Closes parts r
  escapes :
      r.frames ≡ map token_of parts
      → (r.completed ≡ none)
        ⊎ ((texts : List Text) × (texts_in parts ≡ some texts) × (r.completed ≡ answer_of texts))
      → r.ending ≡ escaped
      → Closes parts r

-- The tokens carry the parts, of which none is an empty value, and the run closes behind them.
pub record IsRun (is_zero : Text → Bool) (r : Run) : Type 0 where
  pub parts : List Json
  pub filled : All (IsPart is_zero) parts
  pub closes : Closes parts r

abbrev behind : List Json → Run → Run
behind parts r = record r { frames = map token_of parts ++ r.frames }

on_raised-Closes : (parts : List Json) (e : Raised) → Closes parts (behind parts (on_raised e))
unfolding on_raised
on_raised-Closes parts connect_error = fails model_unavailable refl refl refl
on_raised-Closes parts connect_timeout = fails model_unavailable refl refl refl
on_raised-Closes parts read_timeout = fails model_timeout refl refl refl
on_raised-Closes parts timeout_error = fails model_timeout refl refl refl
on_raised-Closes parts other_http_error = fails model_error refl refl refl
on_raised-Closes parts other_error = escapes (append-nil _) (inl refl) refl

on_refusal-Closes :
    (parts : List Json) (e : Option Raised) → Closes parts (behind parts (on_refusal e))
on_refusal-Closes parts none = fails model_error refl refl refl
on_refusal-Closes parts (some e) = on_raised-Closes parts e

module _ (is_zero : Text → Bool) where
  on_texts-Closes :
      (p : Progress) (texts : Option (List Text))
      → texts_in p.assistant_parts ≡ texts
      → Closes p.assistant_parts (behind p.assistant_parts (on_texts is_zero p texts))
  on_texts-Closes p none e = on_raised-Closes p.assistant_parts other_error
  on_texts-Closes p (some texts) e =
      if_both (λ r. Closes p.assistant_parts (behind p.assistant_parts r))
        (is_refused is_zero p.prompt_tokens || is_refused is_zero p.completion_tokens)
        (escapes (append-nil _) (inr (texts, e, refl)) refl)
        (answers texts (counts_of is_zero p) e refl refl refl)

  on_end-Closes :
      (p : Progress) → Closes p.assistant_parts (behind p.assistant_parts (on_end is_zero p))
  unfolding on_end
  on_end-Closes p = on_texts-Closes p (texts_in p.assistant_parts) refl

  on_stop-Closes :
      (parts : List Json) (s : Stop)
      → StopsWith no_progress parts s
      → Closes parts (behind parts (on_stop is_zero s))
  on_stop-Closes parts (at_end p) h =
      subst (λ t. Closes t (behind t (on_end is_zero p))) h (on_end-Closes p)
  on_stop-Closes parts at_departure h = leaves (append-nil _) refl refl
  on_stop-Closes parts (at_exception e) h = on_raised-Closes parts e

  on_reading-IsRun :
      (r : Reading) → IsReading is_zero no_progress r → IsRun is_zero (on_reading is_zero r)
  on_reading-IsRun r h = record {
    parts = h.parts;
    filled = h.filled;
    closes =
        subst
          (λ fs.
            Closes h.parts
              (record (on_stop is_zero r.stop) { frames = fs ++ (on_stop is_zero r.stop).frames }))
          (sym h.frames) (on_stop-Closes h.parts r.stop h.stop);
  }

-- Whatever the model server sends, of whatever types, a streamed answer consists of one token for
-- each part, in order, of which none is an empty value, and of one of four closings behind them.
-- Either the parts are strings all, the usage follows, where one is told, and `done`, and the store is
-- to remember exactly the parts' text, or nothing where there are none; or one of the three public
-- errors follows, and nothing is remembered; or no frame more, where the client has left, or where an
-- exception escapes. `done` is thus sent at most once and last, never with an error, and only an
-- escaping exception can remember a text without it, and only that of all parts.
pub stream_chat-IsRun :
    (json_loads : Text → Option Json) (is_zero : Text → Bool) (u : Upstream)
    → IsRun is_zero (stream_chat json_loads is_zero u)
unfolding stream_chat
stream_chat-IsRun json_loads is_zero (refused e) = record {
  parts = [];
  filled = tt;
  closes = on_raised-Closes [] e;
}
stream_chat-IsRun json_loads is_zero (answered status rounds) =
    if_both (IsRun is_zero) (leb 400 status)
      (record { parts = []; filled = tt; closes = on_refusal-Closes [] (aread rounds) })
      (on_reading-IsRun is_zero (read_lines json_loads is_zero rounds no_progress)
        (read_lines-IsReading json_loads is_zero rounds no_progress))
