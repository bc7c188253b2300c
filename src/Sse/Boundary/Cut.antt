-- ===== src/Sse/Boundary/Cut.antt =====
-- The first frame of a buffer by recursion on the text, as a specification of the search by
-- `indexOf`, and its stability when more text arrives.
use mathlib.Core.Option
use eks_any_model_hosting.Common.{
  ℕ, suc, ◌≡◌, refl, true, false, ◌||◌, [], ◌∷◌, Option, none, some, Text, codes, starts_with,
  index_of, take, drop, if◌then◌else◌, inl, inr, Bool-cases, arith,
}
use eks_any_model_hosting.Sse.Boundary.{earlier, index_of_frame_boundary, strip_boundary}

abbrev pub in_front : ℕ → Text × Text → Text × Text
in_front c (frame, rest) = (c ∷ frame, rest)

-- The text up to the first "\n\n" or "\r\n\r\n", and the text behind that boundary.
unfoldable pub cut : Text → Option (Text × Text)
unfolding starts_with
cut [] = none
cut (c ∷ s) =
    let later = cut s in
    if starts_with (codes "\n\n") (c ∷ s)
    then some ([], drop 2 (c ∷ s))
    else if starts_with (codes "\r\n\r\n") (c ∷ s)
    then some ([], drop 4 (c ∷ s))
    else Option.map (in_front c) later

earlier-zero : (o : Option ℕ) → (earlier (some 0) o ≡ some 0) × (earlier o (some 0) ≡ some 0)
earlier-zero none = (refl, refl)
earlier-zero (some i) = (ground arith, ground arith)

earlier-suc :
    (a b : Option ℕ) → earlier (Option.map suc a) (Option.map suc b) ≡ Option.map suc (earlier a b)
earlier-suc none b = refl
earlier-suc (some i) none = refl
earlier-suc (some i) (some j) = ground arith

index_of_frame_boundary-cons :
    (c : ℕ) (s : Text)
    → index_of_frame_boundary (c ∷ s) ≡ (
        if starts_with (codes "\n\n") (c ∷ s) || starts_with (codes "\r\n\r\n") (c ∷ s)
        then some 0
        else Option.map suc (index_of_frame_boundary s))
unfolding index_of_frame_boundary
index_of_frame_boundary-cons c s = elim (Bool-cases (starts_with (codes "\n\n") (c ∷ s))) [
  | inl lf ↦ rw (lf, index_of) ((earlier-zero _).0)
  | inr not_lf ↦ elim (Bool-cases (starts_with (codes "\r\n\r\n") (c ∷ s))) [
    | inl crlf ↦ rw (not_lf, crlf, index_of) ((earlier-zero _).1)
    | inr not_crlf ↦ rw (not_lf, not_crlf, index_of) (earlier-suc _ _)
  ]
]

strip_boundary-lf : (s : Text) → starts_with (codes "\n\n") s ≡ true → strip_boundary s ≡ drop 2 s
unfolding strip_boundary starts_with
strip_boundary-lf [] h = ground arith
strip_boundary-lf (a ∷ []) h = ground arith
strip_boundary-lf (a ∷ b ∷ []) h = ground arith
strip_boundary-lf (a ∷ b ∷ c ∷ s) h = ground arith

strip_boundary-crlf :
    (s : Text) → starts_with (codes "\r\n\r\n") s ≡ true → strip_boundary s ≡ drop 4 s
unfolding strip_boundary starts_with
strip_boundary-crlf (a ∷ b ∷ c ∷ d ∷ s) h = ground arith
strip_boundary-crlf _ h = ground arith

abbrev pub frame_at : Text → ℕ → Text × Text
frame_at s i = (take i s, strip_boundary (drop i s))

in_front-frame_at :
    (c : ℕ) (s : Text) (o : Option ℕ)
    → Option.map (in_front c) (Option.map (frame_at s) o)
      ≡ Option.map (frame_at (c ∷ s)) (Option.map suc o)
in_front-frame_at c s none = refl
in_front-frame_at c s (some i) = refl

-- `cut` at a nonempty text, by which of the two boundaries it starts with.
module _ (c : ℕ) (s : Text) where
  pub cut-lf : starts_with (codes "\n\n") (c ∷ s) ≡ true → cut (c ∷ s) ≡ some ([], drop 2 (c ∷ s))
  unfolding cut
  cut-lf lf = rw lf

  pub cut-crlf :
      starts_with (codes "\n\n") (c ∷ s) ≡ false
      → starts_with (codes "\r\n\r\n") (c ∷ s) ≡ true
      → cut (c ∷ s) ≡ some ([], drop 4 (c ∷ s))
  unfolding cut
  cut-crlf not_lf crlf = rw (not_lf, crlf)

  pub cut-cons :
      starts_with (codes "\n\n") (c ∷ s) ≡ false
      → starts_with (codes "\r\n\r\n") (c ∷ s) ≡ false
      → cut (c ∷ s) ≡ Option.map (in_front c) (cut s)
  unfolding cut
  cut-cons not_lf not_crlf = rw (not_lf, not_crlf)

-- The search by `indexOf` and the removal of the boundary cut the buffer where `cut` does.
pub cut-index : (s : Text) → cut s ≡ Option.map (frame_at s) (index_of_frame_boundary s)
cut-index [] = unfold cut index_of_frame_boundary index_of starts_with in refl
cut-index (c ∷ s) = elim (Bool-cases (starts_with (codes "\n\n") (c ∷ s))) [
  | inl lf ↦
      rw (cut-lf c s lf, index_of_frame_boundary-cons, lf) (rw (strip_boundary-lf (c ∷ s) lf))
  | inr not_lf ↦ elim (Bool-cases (starts_with (codes "\r\n\r\n") (c ∷ s))) [
    | inl crlf ↦
        rw (cut-crlf c s not_lf crlf, index_of_frame_boundary-cons, not_lf, crlf)
          (rw (strip_boundary-crlf (c ∷ s) crlf))
    | inr not_crlf ↦
        rw (cut-cons c s not_lf not_crlf, index_of_frame_boundary-cons, not_lf, not_crlf)
          (rw (cut-index s) (in_front-frame_at c s (index_of_frame_boundary s)))
  ]
]
