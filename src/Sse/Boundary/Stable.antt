-- ===== src/Sse/Boundary/Stable.antt =====
-- The first frame of a buffer stays the first one when more text arrives, and what is left is
-- shorter.
use mathlib.Core.Option
use eks_any_model_hosting.Common.{
  ℕ, zero, suc, ◌<◌, ◌≡◌, refl, sym, ◌∙◌, true, false, [], ◌∷◌, ◌++◌, Option, some, Text, codes,
  starts_with, drop, length, inl, inr, Bool-cases, arith,
}
use eks_any_model_hosting.Sse.Boundary.Cut.{cut, in_front, cut-lf, cut-crlf, cut-cons}

starts_with-append : (p s more : Text) → starts_with p s ≡ true → starts_with p (s ++ more) ≡ true
unfolding starts_with
starts_with-append [] s more h = refl
starts_with-append (c ∷ p) [] more h = ground arith
starts_with-append (c ∷ p) (d ∷ s) more h = ground (arith, starts_with-append p s more)

drop_lf-append :
    (s more : Text) → starts_with (codes "\n\n") s ≡ true → drop 2 (s ++ more) ≡ drop 2 s ++ more
unfolding starts_with
drop_lf-append [] more h = ground arith
drop_lf-append (a ∷ []) more h = ground arith
drop_lf-append (a ∷ b ∷ s) more h = refl

drop_crlf-append :
    (s more : Text)
    → starts_with (codes "\r\n\r\n") s ≡ true
    → drop 4 (s ++ more) ≡ drop 4 s ++ more
unfolding starts_with
drop_crlf-append [] more h = ground arith
drop_crlf-append (a ∷ []) more h = ground arith
drop_crlf-append (a ∷ b ∷ []) more h = ground arith
drop_crlf-append (a ∷ b ∷ c ∷ []) more h = ground arith
drop_crlf-append (a ∷ b ∷ c ∷ d ∷ s) more h = refl

-- Where a later position holds a whole boundary, none that more text completes stands before it.
no_early_lf :
    (c : ℕ) (s more : Text) {f r : Text}
    → cut s ≡ some (f, r)
    → starts_with (codes "\n\n") (c ∷ s) ≡ false
    → starts_with (codes "\n\n") (c ∷ (s ++ more)) ≡ false
unfolding cut starts_with
no_early_lf c [] more found h = ground arith
no_early_lf c (d ∷ s) more found h = h

no_early_crlf :
    (c : ℕ) (s more : Text) {f r : Text}
    → cut s ≡ some (f, r)
    → starts_with (codes "\r\n\r\n") (c ∷ s) ≡ false
    → starts_with (codes "\r\n\r\n") (c ∷ (s ++ more)) ≡ false
unfolding cut starts_with
no_early_crlf c [] more found h = ground arith
no_early_crlf c (d ∷ []) more found h = ground arith
no_early_crlf c (d ∷ e ∷ []) more found h = ground arith
no_early_crlf c (d ∷ e ∷ g ∷ s) more found h = h

crlf-not-lf :
    (t : Text) → starts_with (codes "\r\n\r\n") t ≡ true → starts_with (codes "\n\n") t ≡ false
unfolding starts_with
crlf-not-lf [] h = refl
crlf-not-lf (a ∷ []) h = ground arith
crlf-not-lf (a ∷ b ∷ t) h = ground arith

length-drop-lt : (n c : ℕ) (s : Text) → length (drop (suc n) (c ∷ s)) < length (c ∷ s)
length-drop-lt zero c s = omega arith
length-drop-lt (suc n) c [] = omega arith
length-drop-lt (suc n) c (d ∷ s) = omega (arith, length-drop-lt n d s)

in_front-eq_some :
    (c : ℕ) (o : Option (Text × Text)) {f r : Text}
    → Option.map (in_front c) o ≡ some (f, r)
    → (f' : Text) × (o ≡ some (f', r)) × (f ≡ c ∷ f')
in_front-eq_some c (some (f', r')) h = (f', ground arith, ground arith)
in_front-eq_some c _ h = ground arith

-- A boundary that is found stays the first one, whatever text follows.
pub cut-append :
    (s more : Text) {f r : Text} → cut s ≡ some (f, r) → cut (s ++ more) ≡ some (f, r ++ more)
cut-append [] more h = unfold cut in ground arith
cut-append (c ∷ s) more {f} {r} h = elim (Bool-cases (starts_with (codes "\n\n") (c ∷ s))) [
  | inl lf ↦
      rw
        (
          cut-lf c (s ++ more) (starts_with-append _ (c ∷ s) more lf),
          drop_lf-append (c ∷ s) more lf,
        )
        (let e = sym (cut-lf c s lf) ∙ h in ground arith)
  | inr not_lf ↦ elim (Bool-cases (starts_with (codes "\r\n\r\n") (c ∷ s))) [
    | inl crlf ↦
        let crlf' = starts_with-append _ (c ∷ s) more crlf in
        rw (cut-crlf c (s ++ more) (crlf-not-lf _ crlf') crlf', drop_crlf-append (c ∷ s) more crlf)
          (let e = sym (cut-crlf c s not_lf crlf) ∙ h in ground arith)
    | inr not_crlf ↦
        let (f', found, front) =
          in_front-eq_some c (cut s) (sym (cut-cons c s not_lf not_crlf) ∙ h) in
        rw (
          cut-cons c (s ++ more) (no_early_lf c s more found not_lf)
              (no_early_crlf c s more found not_crlf),
          cut-append s more found,
          front,
        )
  ]
]

pub cut-shorter : (s : Text) {f r : Text} → cut s ≡ some (f, r) → length r < length s
cut-shorter [] h = unfold cut in ground arith
cut-shorter (c ∷ s) h = elim (Bool-cases (starts_with (codes "\n\n") (c ∷ s))) [
  | inl lf ↦ let e = sym (cut-lf c s lf) ∙ h in ground (arith, length-drop-lt 1 c s)
  | inr not_lf ↦ elim (Bool-cases (starts_with (codes "\r\n\r\n") (c ∷ s))) [
    | inl crlf ↦ let e = sym (cut-crlf c s not_lf crlf) ∙ h in ground (arith, length-drop-lt 3 c s)
    | inr not_crlf ↦
        let (f', found, front) =
          in_front-eq_some c (cut s) (sym (cut-cons c s not_lf not_crlf) ∙ h) in
        omega (arith, cut-shorter s found)
  ]
]
