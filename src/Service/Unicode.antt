-- ===== src/Service/Unicode.antt =====
-- What the count of a text's code points stands for.
use mathlib.Core.Option
use eks_any_model_hosting.Common.{
  ℕ, suc, ◌≡◌, ◌↔◌, refl, sym, ◌∙◌, true, false, Bool-cases, inl, inr, [], ◌∷◌, Option, none, some,
  Text, arith, subst,
}
use eks_any_model_hosting.Service.{is_high_surrogate, is_low_surrogate, points_behind, code_points}

-- A text in UTF-16 of so many code points: each is one code unit that is no surrogate, or a pair of a
-- high and a low one.
pub data IsUnicode : Text → ℕ → Type 0 where
  empty : IsUnicode [] 0
  single :
      {c : ℕ} {s : Text} {n : ℕ}
      → is_high_surrogate c ≡ false
      → is_low_surrogate c ≡ false
      → IsUnicode s n
      → IsUnicode (c ∷ s) (suc n)
  pair :
      {high low : ℕ} {s : Text} {n : ℕ}
      → is_high_surrogate high ≡ true
      → is_low_surrogate low ≡ true
      → IsUnicode s n
      → IsUnicode (high ∷ low ∷ s) (suc n)

-- No code unit is both.
low-high : (c : ℕ) → is_low_surrogate c ≡ true → is_high_surrogate c ≡ false
low-high c h = ground (arith, h)

high-low : (c : ℕ) → is_high_surrogate c ≡ true → is_low_surrogate c ≡ false
high-low c h = ground (arith, h)

points_behind-single :
    (c : ℕ) (s : Text)
    → is_high_surrogate c ≡ false
    → is_low_surrogate c ≡ false
    → points_behind false (c ∷ s) ≡ Option.map suc (points_behind false s)
unfolding points_behind
points_behind-single c s high low = rw (low, high) refl

points_behind-pair :
    (c d : ℕ) (s : Text)
    → is_high_surrogate c ≡ true
    → is_low_surrogate d ≡ true
    → points_behind false (c ∷ d ∷ s) ≡ Option.map suc (points_behind false s)
unfolding points_behind
points_behind-pair c d s high low = rw (high-low c high, high, low, low-high d low) refl

IsUnicode-code_points : {s : Text} {n : ℕ} → IsUnicode s n → points_behind false s ≡ some n
unfolding points_behind
IsUnicode-code_points empty = refl
IsUnicode-code_points (single {c = c} {s = s} high low h) =
    rw (points_behind-single c s high low, IsUnicode-code_points h) refl
IsUnicode-code_points (pair {high = c} {low = d} {s = s} high low h) =
    rw (points_behind-pair c d s high low, IsUnicode-code_points h) refl

-- A count that is one more.
counted :
    {t : Text} (o : Option ℕ) {n : ℕ}
    → ((m : ℕ) → o ≡ some m → IsUnicode t (suc m))
    → Option.map suc o ≡ some n
    → IsUnicode t n
counted none k e = cc
counted {t = t} (some m) {n} k e =
    let same : suc m ≡ n = ground (arith, e) in subst (IsUnicode t) same (k m refl)

code_points-IsUnicode : (s : Text) {n : ℕ} → points_behind false s ≡ some n → IsUnicode s n
unfolding points_behind
code_points-IsUnicode [] {n} e =
    let none_left : 0 ≡ n = ground (arith, e) in subst (IsUnicode []) none_left empty
code_points-IsUnicode (c ∷ []) e = elim (Bool-cases (is_low_surrogate c)) [
  | inl low ↦ ground (arith, low, e)
  | inr low ↦ elim (Bool-cases (is_high_surrogate c)) [
    | inl high ↦ ground (arith, low, high, e)
    | inr high ↦
        counted (points_behind false []) (λ m h. single high low (code_points-IsUnicode [] h))
          (sym (points_behind-single c [] high low) ∙ e)
  ]
]
code_points-IsUnicode (c ∷ d ∷ s) e = elim (Bool-cases (is_low_surrogate c)) [
  | inl low ↦ ground (arith, low, e)
  | inr low ↦ elim (Bool-cases (is_high_surrogate c)) [
    | inl high ↦ elim (Bool-cases (is_low_surrogate d)) [
      | inl paired ↦
          counted (points_behind false s) (λ m h. pair high paired (code_points-IsUnicode s h))
            (sym (points_behind-pair c d s high paired) ∙ e)
      | inr unpaired ↦ ground (arith, low, high, unpaired, e)
    ]
    | inr high ↦
        counted (points_behind false (d ∷ s))
          (λ m h. single high low (code_points-IsUnicode (d ∷ s) h))
          (sym (points_behind-single c (d ∷ s) high low) ∙ e)
  ]
]

-- The count is none exactly where the text is no Unicode text, and else the number of its code points.
pub code_points_iff : (s : Text) (n : ℕ) → (code_points s ≡ some n) ↔ IsUnicode s n
unfolding code_points
code_points_iff s n = (code_points-IsUnicode s, IsUnicode-code_points)
