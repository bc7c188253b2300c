-- ===== src/Sessions/Windows.antt =====
-- The window of a transcript that grows by one message.
use eks_any_model_hosting.Common.{
  ℕ, zero, suc, ◌+◌, ◌-◌, ◌≤◌, ltb, ◌≡◌, refl, ap, sym, ◌&&◌, not, Bool-cases, inl, inr, List, [],
  ◌∷◌, ◌++◌, length, length-append, drop, is_nil, arith,
}
use eks_any_model_hosting.Sessions.{Message, is_client_role, cleaned, window}
use eks_any_model_hosting.Sessions.Entries.{IsClean}

pub cleaned-append :
    (ms : List Message) (m : Message) → IsClean m → cleaned (ms ++ m ∷ []) ≡ cleaned ms ++ m ∷ []
unfolding cleaned
cleaned-append [] m c = rw (c.role, c.full) refl
cleaned-append (n ∷ ms) m c = elim (Bool-cases (is_client_role n.role && not (is_nil n.content))) [
  | inl e ↦ rw (e, cleaned) (ap (◌∷◌ n) (cleaned-append ms m c))
  | inr e ↦ rw (e, cleaned) (cleaned-append ms m c)
]

window-drop : (ms : List Message) (n : ℕ) → window ms n ≡ drop (length ms - n) ms
unfolding window
window-drop ms n = elim (Bool-cases (ltb n (length ms))) [
  | inl e ↦ rw (e, window) refl
  | inr e ↦ let all : length ms - n ≡ 0 = ground (arith, e) in rw (e, window, all) refl
]

drop-append : (k : ℕ) (ms ns : List Message) → k ≤ length ms → drop k (ms ++ ns) ≡ drop k ms ++ ns
drop-append zero ms ns h = refl
drop-append (suc k) [] ns h = ground (arith, h)
drop-append (suc k) (m ∷ ms) ns h = drop-append k ms ns (omega (arith, h))

drop-nil : (k : ℕ) → drop {A = Message} k [] ≡ []
drop-nil zero = refl
drop-nil (suc k) = refl

drop-drop : (j k : ℕ) (ms : List Message) → drop j (drop k ms) ≡ drop (k + j) ms
drop-drop j zero ms = let same : 0 + j ≡ j = omega arith in rw same refl
drop-drop j (suc k) [] = rw (drop-nil j, drop-nil (suc k + j)) refl
drop-drop j (suc k) (m ∷ ms) =
    let next : suc k + j ≡ suc (k + j) = omega arith in rw next (drop-drop j k ms)

length-drop : (k : ℕ) (ms : List Message) → length (drop k ms) ≡ length ms - k
length-drop zero ms = omega arith
length-drop (suc k) [] = omega arith
length-drop (suc k) (m ∷ ms) = omega (arith, length-drop k ms)

-- Windowing before the last message makes no difference.
pub window-window :
    (ms : List Message) (m : Message) (n : ℕ)
    → window (window ms n ++ m ∷ []) n ≡ window (ms ++ m ∷ []) n
window-window ms m n =
    let k = length ms - n in
    let all = ms ++ m ∷ [] in
    let whole : length all ≡ length ms + 1 = length-append ms (m ∷ []) in
    let cut : drop k ms ++ m ∷ [] ≡ drop k all = sym (drop-append k ms (m ∷ []) (omega arith)) in
    let count : k + (length (drop k all) - n) ≡ length all - n =
      omega (arith, whole, length-drop k all) in
    rw (window-drop ms n, cut, window-drop (drop k all) n, drop-drop, count)
      (sym (window-drop all n))
