-- ===== src/Sse/Reader/Drain.antt =====
-- The inner loop of `parseSseStream` by the frames that `cut` finds: its rounds, that it ends by
-- its own test, and its run over a buffer that grows.
use mathlib.Core.Option
use eks_any_model_hosting.Common.{
  ℕ, zero, suc, ◌<◌, ◌≡◌, refl, sym, ap, ◌∙◌, true, false, [], ◌++◌, Option, none, some, Text, take,
  drop, length, append_assoc, if◌then◌else◌, ◌⊎◌, inl, inr, Bool-cases, Option-cases, arith,
}
use eks_any_model_hosting.Json.{Json}
use eks_any_model_hosting.Sse.{Handled}
use eks_any_model_hosting.Sse.Boundary.{index_of_frame_boundary, strip_boundary}
use eks_any_model_hosting.Sse.Boundary.Cut.{cut, cut-index}
use eks_any_model_hosting.Sse.Boundary.Stable.{cut-append, cut-shorter}
use eks_any_model_hosting.Sse.Frame.{handle_frame}
use eks_any_model_hosting.Sse.Reader.{Drained, after_events, drain_from, drain}

abbrev pub idle : Text → Drained
idle buffer = record { events = []; buffer = buffer; finished = false }

-- One round, from the frame's result, the rest of the buffer and the later rounds.
abbrev pub one_round : Handled → Text → Drained → Drained
one_round h rest later =
    if h.finished
    then record { events = h.events; buffer = rest; finished = true }
    else after_events h.events later

index-of-cut-none : (b : Text) → cut b ≡ none → index_of_frame_boundary b ≡ none
index-of-cut-none b h = elim (Option-cases (index_of_frame_boundary b)) [
  | inl e ↦ e
  | inr (i, e) ↦ let f = sym (cut-index b) ∙ h in absurd (Option.some-ne-none _ (rw e at f))
]

index-of-cut-some :
    (b : Text) {f r : Text}
    → cut b ≡ some (f, r)
    → (i : ℕ) × (index_of_frame_boundary b ≡ some i)
      × (take i b ≡ f)
      × (strip_boundary (drop i b) ≡ r)
index-of-cut-some b h = elim (Option-cases (index_of_frame_boundary b)) [
  | inl e ↦ let g = sym (cut-index b) ∙ h in absurd (Option.none-ne-some _ (rw e at g))
  | inr (i, e) ↦ let g = rw e at (sym (cut-index b) ∙ h) in (i, e, ground arith, ground arith)
]

module _ (json_parse : Text → Option Json) where
  drain_from-none : (n : ℕ) (b : Text) → cut b ≡ none → drain_from json_parse n b ≡ idle b
  unfolding drain_from
  drain_from-none zero b h = refl
  drain_from-none (suc n) b h = rw (index-of-cut-none b h, drain_from)

  drain_from-some :
      (n : ℕ) (b : Text) {f r : Text}
      → cut b ≡ some (f, r)
      → drain_from json_parse (suc n) b
        ≡ one_round (handle_frame json_parse f) r (drain_from json_parse n r)
  unfolding drain_from
  drain_from-some n b h =
      let (i, at, frame, rest) = index-of-cut-some b h in rw (at, drain_from) (rw (frame, rest))

  drain_from-fuel :
      (m n : ℕ) (b : Text)
      → length b < m
      → length b < n
      → drain_from json_parse m b ≡ drain_from json_parse n b
  drain_from-fuel zero n b p q = elim p [ ]
  drain_from-fuel (suc m) zero b p q = elim q [ ]
  drain_from-fuel (suc m) (suc n) b p q = elim (Option-cases (cut b)) [
    | inl e ↦ drain_from-none _ b e ∙ sym (drain_from-none _ b e)
    | inr ((f, r), e) ↦
        let shorter = cut-shorter b e in
        rw (drain_from-some m b e, drain_from-some n b e)
          (ap (one_round (handle_frame json_parse f) r)
            (drain_from-fuel m n r (omega arith) (omega arith)))
  ]

  pub drain-none : (b : Text) → cut b ≡ none → drain json_parse b ≡ idle b
  unfolding drain
  drain-none b h = drain_from-none _ b h

  pub drain-some :
      (b : Text) {f r : Text}
      → cut b ≡ some (f, r)
      → drain json_parse b ≡ one_round (handle_frame json_parse f) r (drain json_parse r)
  unfolding drain
  drain-some b {f} {r} h =
      let shorter = cut-shorter b h in
      drain_from-some _ b h
      ∙ ap (one_round (handle_frame json_parse f) r)
          (drain_from-fuel (length b) (suc (length r)) r (omega arith) (omega arith))

  -- The loop goes on with `more` behind what it left.
  abbrev pub go_on : Drained → Text → Drained
  go_on d more =
      if d.finished
      then record d { buffer = d.buffer ++ more }
      else after_events d.events (drain json_parse (d.buffer ++ more))

  go_on-one_round :
      (h : Handled) (r more : Text)
      → one_round h (r ++ more) (go_on (drain json_parse r) more)
        ≡ go_on (one_round h r (drain json_parse r)) more
  go_on-one_round h r more = elim (Bool-cases h.finished) [
    | inl fin ↦ rw fin
    | inr live ↦ elim (Bool-cases (drain json_parse r).finished) [
      | inl fin ↦ rw (live, fin)
      | inr more_left ↦ rw (live, more_left) (rw append_assoc)
    ]
  ]

  drain-append_below :
      (n : ℕ) (b more : Text)
      → length b < n
      → drain json_parse (b ++ more) ≡ go_on (drain json_parse b) more
  drain-append_below zero b more h = elim h [ ]
  drain-append_below (suc n) b more h = elim (Option-cases (cut b)) [
    | inl e ↦ rw (drain-none b e)
    | inr ((f, r), e) ↦
        let shorter = cut-shorter b e in
        rw (drain-some (b ++ more) (cut-append b more e), drain-some b e)
          (rw (drain-append_below n r more (omega arith))
            (go_on-one_round (handle_frame json_parse f) r more))
  ]

  pub drain-append :
      (b more : Text) → drain json_parse (b ++ more) ≡ go_on (drain json_parse b) more
  drain-append b more = drain-append_below (suc (length b)) b more (omega arith)

  drain-cut_below :
      (n : ℕ) (b : Text)
      → length b < n
      → (drain json_parse b).finished ≡ false
      → cut (drain json_parse b).buffer ≡ none
  drain-cut_below zero b h live = elim h [ ]
  drain-cut_below (suc n) b h live = elim (Option-cases (cut b)) [
    | inl e ↦ rw (drain-none b e) e
    | inr ((f, r), e) ↦
        let shorter = cut-shorter b e in
        let ended = rw (drain-some b e) at live in
        rw (drain-some b e) (elim (Bool-cases (handle_frame json_parse f).finished) [
          | inl fin ↦ absurd (ground arith)
          | inr going ↦ rw going (drain-cut_below n r (omega arith) (rw going at ended))
        ])
  ]

  pub drain-cut :
      (b : Text) → (drain json_parse b).finished ≡ false → cut (drain json_parse b).buffer ≡ none
  drain-cut b = drain-cut_below (suc (length b)) b (omega arith)

  -- With the fuel of `drain` the inner loop ends by its own test, or at a frame that finishes the
  -- stream: it never stops for want of fuel with a boundary still in the buffer.
  pub drain-index_of_frame_boundary :
      (b : Text)
      → ((drain json_parse b).finished ≡ true)
        ⊎ (index_of_frame_boundary (drain json_parse b).buffer ≡ none)
  drain-index_of_frame_boundary b = elim (Bool-cases (drain json_parse b).finished) [
    | inl fin ↦ inl fin
    | inr going ↦ inr (index-of-cut-none _ (drain-cut b going))
  ]
