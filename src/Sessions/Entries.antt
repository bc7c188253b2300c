-- ===== src/Sessions/Entries.antt =====
-- What the operations on the store's entries keep, drop and bound.
use eks_any_model_hosting.Common.{
  ℕ, zero, suc, ◌-◌, ◌≤◌, ltb, ◌≡◌, ◌≢◌, refl, ap, subst, true, false, ◌&&◌, not, Bool-cases, inl,
  inr, List, [], ◌∷◌, ◌++◌, Option, none, some, Text, text_eq, text_eq_iff, text_eq_refl, is_nil,
  length, drop, All, if_both, arith,
}
use eks_any_model_hosting.Sessions.{
  Message, Session, Limits, Sessions, get, removed, is_client_role, cleaned, window, unexpired,
  evicted, sweep,
}

abbrev pub Entry : Type 0
Entry = Text × Session

pub All-both :
    {A : Type 0} (P Q R : A → Type 0)
    → ((a : A) → P a → Q a → R a)
    → (xs : List A) → All P xs
    → All Q xs
    → All R xs
All-both P Q R f [] _ _ = tt
All-both P Q R f (x ∷ xs) (p, ps) (q, qs) = (f x p q, All-both P Q R f xs ps qs)

abbrev session_or : Session → Option Session → Session
session_or d none = d
session_or d (some s) = s

module _ (id : Text) where
  pub removed-others : (ss : Sessions) → All (λ e. e.0 ≢ id) (removed id ss)
  unfolding removed
  removed-others [] = tt
  removed-others ((k, s) ∷ ss) = elim (Bool-cases (text_eq k id)) [
    | inl e ↦ rw (e, removed) (removed-others ss)
    | inr e ↦ rw (e, removed) (λ same. ground (arith, e, same, text_eq_iff k id), removed-others ss)
  ]

  pub get-others : (ss : Sessions) → get id ss ≡ none → All (λ e. e.0 ≢ id) ss
  unfolding get
  get-others [] h = tt
  get-others ((k, s) ∷ ss) h = elim (Bool-cases (text_eq k id)) [
    | inl e ↦ let no : some s ≡ none = rw (← h, e, get) refl in ground (arith, no)
    | inr e ↦
        let later : get id ss ≡ none = rw (← h, e, get) refl in
        (λ same. ground (arith, e, same, text_eq_iff k id), get-others ss later)
  ]

  module _ (P : Entry → Type 0) where
    pub removed-All : (ss : Sessions) → All P ss → All P (removed id ss)
    unfolding removed
    removed-All [] h = tt
    removed-All ((k, s) ∷ ss) (p, h) =
        if_both (All P) (text_eq k id) (removed-All ss h) (p, removed-All ss h)

    pub get-All : (ss : Sessions) (s : Session) → All P ss → get id ss ≡ some s → P (id, s)
    unfolding get
    get-All [] s h e = ground (arith, e)
    get-All ((k, t) ∷ ss) s (p, h) found = elim (Bool-cases (text_eq k id)) [
      | inl e ↦
          let same : some t ≡ some s = rw (← found, e, get) refl in
          let key : k ≡ id = (text_eq_iff k id).0 e in
          subst (λ x. P (id, x)) (ap (session_or t) same) (subst (λ x. P (x, t)) key p)
      | inr e ↦ let later : get id ss ≡ some s = rw (← found, e, get) refl in get-All ss s h later
    ]

  pub length-removed : (ss : Sessions) → length (removed id ss) ≤ length ss
  unfolding removed
  length-removed [] = omega arith
  length-removed ((k, s) ∷ ss) =
      let later = length-removed ss in
      let fewer : length (removed id ss) ≤ suc (length ss) = omega (arith, later) in
      let same : suc (length (removed id ss)) ≤ suc (length ss) = omega (arith, later) in
      if_both (λ (rest : Sessions). length rest ≤ suc (length ss)) (text_eq k id) fewer same

  -- One entry less, where there is one.
  pub length-removed_found :
      (ss : Sessions) (s : Session) → get id ss ≡ some s → suc (length (removed id ss)) ≤ length ss
  unfolding get removed
  length-removed_found [] s e = ground (arith, e)
  length-removed_found ((k, t) ∷ ss) s found = elim (Bool-cases (text_eq k id)) [
    | inl e ↦ rw (e, removed) (omega (arith, length-removed ss))
    | inr e ↦
        let later : get id ss ≡ some s = rw (← found, e, get) refl in
        rw (e, removed) (omega (arith, length-removed_found ss s later))
  ]

  pub get-last :
      (ss : Sessions) (s : Session) → All (λ e. e.0 ≢ id) ss → get id (ss ++ (id, s) ∷ []) ≡ some s
  unfolding get
  get-last [] s h = rw (text_eq_refl id) refl
  get-last ((k, t) ∷ ss) s (other, h) = elim (Bool-cases (text_eq k id)) [
    | inl e ↦ elim (other ((text_eq_iff k id).0 e)) [ ]
    | inr e ↦ rw (e, get) (get-last ss s h)
  ]

module _ (limits : Limits) where
  module _ (P : Entry → Type 0) where
    pub unexpired-All : (now : ℕ) (ss : Sessions) → All P ss → All P (unexpired limits now ss)
    unfolding unexpired
    unexpired-All now [] h = tt
    unexpired-All now ((k, s) ∷ ss) (p, h) =
        if_both (All P) (ltb limits.ttl (now - s.last_seen)) (unexpired-All now ss h)
          (p, unexpired-All now ss h)

    pub evicted-All : (ss : Sessions) → All P ss → All P (evicted limits ss)
    unfolding evicted
    evicted-All [] h = tt
    evicted-All (e ∷ ss) (p, h) =
        if_both (All P) (ltb limits.max_sessions (suc (length ss))) (evicted-All ss h) (p, h)

    pub sweep-All : (now : ℕ) (ss : Sessions) → All P ss → All P (sweep limits now ss)
    unfolding sweep
    sweep-All now ss h = evicted-All (unexpired limits now ss) (unexpired-All now ss h)

  pub length-evicted : (ss : Sessions) → length (evicted limits ss) ≤ limits.max_sessions
  unfolding evicted
  length-evicted [] = omega arith
  length-evicted (e ∷ ss) = elim (Bool-cases (ltb limits.max_sessions (suc (length ss)))) [
    | inl more ↦ rw (more, evicted) (length-evicted ss)
    | inr fits ↦ rw (fits, evicted) (ground (arith, fits))
  ]

  pub length-sweep : (now : ℕ) (ss : Sessions) → length (sweep limits now ss) ≤ limits.max_sessions
  unfolding sweep
  length-sweep now ss = length-evicted (unexpired limits now ss)

  -- The last entry stays, behind others.
  pub unexpired-last :
      (now : ℕ) (ss : Sessions) (id : Text) (s : Session)
      → ltb limits.ttl (now - s.last_seen) ≡ false
      → unexpired limits now (ss ++ (id, s) ∷ []) ≡ unexpired limits now ss ++ (id, s) ∷ []
  unfolding unexpired
  unexpired-last now [] id s e = rw e refl
  unexpired-last now ((k, t) ∷ ss) id s e = elim (Bool-cases (ltb limits.ttl (now - t.last_seen))) [
    | inl gone ↦ rw (gone, unexpired) (unexpired-last now ss id s e)
    | inr stays ↦ rw (stays, unexpired) (ap (◌∷◌ (k, t)) (unexpired-last now ss id s e))
  ]

  pub evicted-last :
      (P : Entry → Type 0) (ss : Sessions) (e : Entry)
      → 1 ≤ limits.max_sessions
      → All P ss
      → (kept : Sessions) × (evicted limits (ss ++ e ∷ []) ≡ kept ++ e ∷ []) × All P kept
  unfolding evicted
  evicted-last P [] e one h =
      let fits : ltb limits.max_sessions 1 ≡ false = ground (arith, one) in ([], rw fits refl, tt)
  evicted-last P (d ∷ ss) e one (p, h) =
      elim (Bool-cases (ltb limits.max_sessions (suc (length (ss ++ e ∷ []))))) [
        | inl more ↦
            let (kept, same, rest) = evicted-last P ss e one h in
            (kept, rw (more, evicted) same, rest)
        | inr fits ↦ (d ∷ ss, rw (fits, evicted) refl, (p, h))
      ]

-- A message of the user or of the assistant, with some content.
pub record IsClean (m : Message) : Type 0 where
  pub role : is_client_role m.role ≡ true
  pub full : is_nil m.content ≡ false

pub cleaned-IsClean : (ms : List Message) → All IsClean (cleaned ms)
unfolding cleaned
cleaned-IsClean [] = tt
cleaned-IsClean (m ∷ ms) = elim (Bool-cases (is_client_role m.role && not (is_nil m.content))) [
  | inl e ↦
      rw (e, cleaned)
        (record { role = ground (arith, e); full = ground (arith, e) }, cleaned-IsClean ms)
  | inr e ↦ rw (e, cleaned) (cleaned-IsClean ms)
]

drop-All : (P : Message → Type 0) (n : ℕ) (ms : List Message) → All P ms → All P (drop n ms)
drop-All P zero ms h = h
drop-All P (suc n) [] h = tt
drop-All P (suc n) (m ∷ ms) (p, h) = drop-All P n ms h

length-drop : (n : ℕ) (ms : List Message) → length (drop n ms) ≡ length ms - n
length-drop zero ms = omega arith
length-drop (suc n) [] = omega arith
length-drop (suc n) (m ∷ ms) = omega (arith, length-drop n ms)

pub window-All : (P : Message → Type 0) (ms : List Message) (n : ℕ) → All P ms → All P (window ms n)
unfolding window
window-All P ms n h = if_both (All P) (ltb n (length ms)) (drop-All P (length ms - n) ms h) h

pub length-window : (ms : List Message) (n : ℕ) → length (window ms n) ≤ n
unfolding window
length-window ms n = elim (Bool-cases (ltb n (length ms))) [
  | inl e ↦ rw (e, window) (ground (arith, e, length-drop (length ms - n) ms))
  | inr e ↦ rw (e, window) (ground (arith, e))
]
