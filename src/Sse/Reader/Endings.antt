-- ===== src/Sse/Reader/Endings.antt =====
-- Which calls end a stream: `onDone` and `onError`, against `onToken` and `onUsage`.
use eks_any_model_hosting.Common.{
  ℕ, zero, suc, ◌<◌, ◌≡◌, refl, sym, Bool, true, false, List, [], ◌∷◌, ◌++◌, Option, Text, is_nil,
  text_eq, codes, join, ◌&&◌, All, All-append, length, trim, if_both, ◌⊎◌, inl, inr, Bool-cases,
  Option-cases, arith, append_assoc,
}
use eks_any_model_hosting.Json.{Json}
use eks_any_model_hosting.Sse.{
  Event, token, usage, done, error, Handled, Ending, returned, waiting, threw, Outcome,
}
use eks_any_model_hosting.Sse.Boundary.Cut.{cut}
use eks_any_model_hosting.Sse.Boundary.Stable.{cut-shorter}
use eks_any_model_hosting.Sse.Frame.{
  FrameFields, read_lines, empty_frame, split_lines, dispatch, dispatch_token, dispatch_usage,
  handle_fields, handle_frame, extract_token_text, extract_error_message, server_error,
}
use eks_any_model_hosting.Sse.Reader.{
  Read, end, on_round, Round, value, failed, drain, flush, read_stream, parse_sse_stream,
}
use eks_any_model_hosting.Sse.Reader.Drain.{drain-none, drain-some}

abbrev pub IsTerminal : Event → Type 0
IsTerminal (token text) = ⊥
IsTerminal (usage u) = ⊥
IsTerminal done = Unit
IsTerminal (error e) = Unit

abbrev pub IsLive : Event → Type 0
IsLive (token text) = Unit
IsLive (usage u) = Unit
IsLive done = ⊥
IsLive (error e) = ⊥

-- Live calls, and then one terminal call.
pub record ClosesOnce (es : List Event) : Type 0 where
  pub before : List Event
  pub closing : Event
  pub live : All IsLive before
  pub terminal : IsTerminal closing
  pub in_order : es ≡ before ++ closing ∷ []

abbrev Shape : List Event → Bool → Type 0
Shape es true = ClosesOnce es
Shape es false = All IsLive es

-- One terminal call, and then `onDone` once more.
pub record ClosesTwice (es : List Event) : Type 0 where
  pub before : List Event
  pub closing : Event
  pub live : All IsLive before
  pub terminal : IsTerminal closing
  pub in_order : es ≡ before ++ closing ∷ done ∷ []

abbrev pub OutcomeShape : Ending → List Event → Type 0
OutcomeShape returned es = ClosesOnce es ⊎ ClosesTwice es
OutcomeShape waiting es = All IsLive es
OutcomeShape (threw e) es = All IsLive es

-- A record, so that the checker sees which result is meant.
record HasShape (h : Handled) : Type 0 where
  shape : Shape h.events h.finished

live_only : {es : List Event} → All IsLive es → HasShape (record { events = es; finished = false })
live_only h = record { shape = h }

pub record HasOutcomeShape (o : Outcome) : Type 0 where
  pub ends : OutcomeShape o.ending o.events

pub closing_only : (t : Event) → IsTerminal t → ClosesOnce (t ∷ [])
closing_only t h = record { before = []; closing = t; live = tt; terminal = h; in_order = refl }

closes : (t : Event) → IsTerminal t → HasShape (record { events = t ∷ []; finished = true })
closes t h = record { shape = closing_only t h }

pub ClosesOnce-append : (xs ys : List Event) → All IsLive xs → ClosesOnce ys → ClosesOnce (xs ++ ys)
ClosesOnce-append xs ys h c = record {
  before = xs ++ c.before;
  closing = c.closing;
  live = All-append IsLive xs c.before h c.live;
  terminal = c.terminal;
  in_order = rw c.in_order (sym (append_assoc xs c.before (c.closing ∷ [])));
}

ClosesTwice-append : (xs ys : List Event) → All IsLive xs → ClosesTwice ys → ClosesTwice (xs ++ ys)
ClosesTwice-append xs ys h c = record {
  before = xs ++ c.before;
  closing = c.closing;
  live = All-append IsLive xs c.before h c.live;
  terminal = c.terminal;
  in_order = rw c.in_order (sym (append_assoc xs c.before (c.closing ∷ done ∷ [])));
}

ClosesTwice-done : (es : List Event) → ClosesOnce es → ClosesTwice (es ++ done ∷ [])
ClosesTwice-done es c = record {
  before = c.before;
  closing = c.closing;
  live = c.live;
  terminal = c.terminal;
  in_order = rw c.in_order (append_assoc c.before (c.closing ∷ []) (done ∷ []));
}

Shape-append : (xs ys : List Event) (b : Bool) → All IsLive xs → Shape ys b → Shape (xs ++ ys) b
Shape-append xs ys true h c = ClosesOnce-append xs ys h c
Shape-append xs ys false h c = All-append IsLive xs ys h c

module _ (json_parse : Text → Option Json) where
  dispatch_token-IsLive : (d : Text) → All IsLive (dispatch_token json_parse d)
  unfolding dispatch_token
  dispatch_token-IsLive d =
      if_both (All IsLive) (is_nil (extract_token_text json_parse d)) tt (tt, tt)

  dispatch_usage-IsLive : (d : Text) → All IsLive (dispatch_usage json_parse d)
  unfolding dispatch_usage
  dispatch_usage-IsLive d = elim (Option-cases (json_parse d)) [
    | inl e ↦ rw (e, All) tt
    | inr (v, e) ↦ rw (e, All) (tt, tt)
  ]

  dispatch-HasShape : (event_type d : Text) → HasShape (dispatch json_parse event_type d)
  unfolding dispatch
  dispatch-HasShape event_type d =
      if_both HasShape (text_eq event_type (codes "token")) (live_only (dispatch_token-IsLive d)) (
        if_both HasShape (text_eq event_type (codes "usage")) (live_only (dispatch_usage-IsLive d))
          (if_both HasShape (text_eq event_type (codes "done")) (closes done tt) (
            if_both HasShape (text_eq event_type (codes "error"))
              (closes (error (server_error (extract_error_message json_parse d))) tt)
              (live_only (dispatch_token-IsLive d)))))

  handle_fields-HasShape : (f : FrameFields) → HasShape (handle_fields json_parse f)
  unfolding handle_fields
  handle_fields-HasShape f =
      let d = join (codes "\n") f.data_parts in
      if_both HasShape (is_nil d && text_eq f.event_type (codes "message")) (live_only tt) (
        if_both HasShape (text_eq (trim d) (codes "[DONE]")) (closes done tt)
          (dispatch-HasShape f.event_type d))

  handle_frame-HasShape : (raw : Text) → HasShape (handle_frame json_parse raw)
  unfolding handle_frame
  handle_frame-HasShape raw = handle_fields-HasShape (read_lines empty_frame (split_lines raw))

  drain-Shape_below :
      (n : ℕ) (b : Text)
      → length b < n
      → Shape (drain json_parse b).events (drain json_parse b).finished
  drain-Shape_below zero b h = elim h [ ]
  drain-Shape_below (suc n) b h = elim (Option-cases (cut b)) [
    | inl e ↦ rw (drain-none json_parse b e) tt
    | inr ((f, r), e) ↦
        let shorter = cut-shorter b e in
        let frame = (handle_frame-HasShape f).shape in
        rw (drain-some json_parse b e) (elim (Bool-cases (handle_frame json_parse f).finished) [
          | inl fin ↦ rw fin (rw fin at frame)
          | inr going ↦
              rw going
                (Shape-append _ _ _ (rw going at frame) (drain-Shape_below n r (omega arith)))
        ])
  ]

  drain-Shape : (b : Text) → Shape (drain json_parse b).events (drain json_parse b).finished
  drain-Shape b = drain-Shape_below (suc (length b)) b (omega arith)

  flush_tail :
      (tail : Text) → OutcomeShape returned ((handle_frame json_parse tail).events ++ done ∷ [])
  flush_tail tail =
      let frame = (handle_frame-HasShape tail).shape in
      elim (Bool-cases (handle_frame json_parse tail).finished) [
        | inl fin ↦ inr (ClosesTwice-done _ (rw fin at frame))
        | inr going ↦
            inl (ClosesOnce-append _ (done ∷ []) (rw going at frame) (closing_only done tt))
      ]

  -- A stream that ends inside a frame which finishes it, with no blank line behind that frame, gets
  -- a second closing call: the frame's own, and then `onDone`.
  flush-ClosesTwice :
      (buffer : Text)
      → is_nil (trim buffer) ≡ false
      → (handle_frame json_parse (trim buffer)).finished ≡ true
      → ClosesTwice (flush json_parse buffer)
  unfolding flush
  flush-ClosesTwice buffer full fin =
      let frame = (handle_frame-HasShape (trim buffer)).shape in
      rw full (ClosesTwice-done _ (rw fin at frame))

  flush-OutcomeShape : (buffer : Text) → OutcomeShape returned (flush json_parse buffer)
  unfolding flush
  flush-OutcomeShape buffer =
      if_both (OutcomeShape returned) (is_nil (trim buffer)) (inl (closing_only done tt))
        (flush_tail (trim buffer))

  emitting-OutcomeShape :
      (xs : List Event) (e : Ending) (es : List Event)
      → All IsLive xs
      → OutcomeShape e es
      → OutcomeShape e (xs ++ es)
  emitting-OutcomeShape xs returned es h (inl c) = inl (ClosesOnce-append xs es h c)
  emitting-OutcomeShape xs returned es h (inr c) = inr (ClosesTwice-append xs es h c)
  emitting-OutcomeShape xs waiting es h c = All-append IsLive xs es h c
  emitting-OutcomeShape xs (threw e) es h c = All-append IsLive xs es h c

  module _ {Chunk State : Type 0} (decode : State → Chunk → Text × State) where
    on_round-HasOutcomeShape :
        (aborted : Bool) (read : Read Chunk) (st : State) (b : Text)
        (go_on : State → Text → Outcome)
        → ((st' : State) (b' : Text) → HasOutcomeShape (go_on st' b'))
        → HasOutcomeShape (on_round json_parse decode aborted read st b go_on)
    unfolding on_round
    on_round-HasOutcomeShape true read st b go_on later = record { ends = tt }
    on_round-HasOutcomeShape false (failed e) st b go_on later = record { ends = tt }
    on_round-HasOutcomeShape false end st b go_on later = record { ends = flush-OutcomeShape b }
    on_round-HasOutcomeShape false (value chunk) st b go_on later =
        let d = drain json_parse (b ++ (decode st chunk).0) in
        let o = go_on (decode st chunk).1 d.buffer in
        let shape = drain-Shape (b ++ (decode st chunk).0) in
        elim (Bool-cases d.finished) [
          | inl fin ↦ rw fin (record { ends = inl (rw fin at shape) })
          | inr going ↦ rw going (record {
            ends =
                emitting-OutcomeShape d.events o.ending o.events (rw going at shape)
                  (later (decode st chunk).1 d.buffer).ends;
          })
        ]

    read_stream-HasOutcomeShape :
        (st : State) (b : Text) (rs : List (Round Chunk))
        → HasOutcomeShape (read_stream json_parse decode st b rs)
    unfolding read_stream
    read_stream-HasOutcomeShape st b [] = record { ends = tt }
    read_stream-HasOutcomeShape st b (r ∷ rs) =
        on_round-HasOutcomeShape r.aborted r.read st b
          (λ st' b'. read_stream json_parse decode st' b' rs)
          (λ st' b'. read_stream-HasOutcomeShape st' b' rs)

    -- A stream that has not returned has only called `onToken` and `onUsage`. One that has
    -- returned has called them first, and then either one of `onDone` and `onError`, or one of
    -- these and `onDone` behind it.
    pub parse_sse_stream-OutcomeShape :
        (fresh : State) (rs : List (Round Chunk))
        → OutcomeShape
            (parse_sse_stream json_parse decode fresh rs).ending
            (parse_sse_stream json_parse decode fresh rs).events
    unfolding parse_sse_stream
    parse_sse_stream-OutcomeShape fresh rs = (read_stream-HasOutcomeShape fresh [] rs).ends
