-- ===== src/Sessions/Memory.antt =====
-- Each entry of the store is what its session remembers, after any operations.
use eks_any_model_hosting.Common.{
  ℕ, ◌≡◌, ◌≢◌, refl, ◌∙◌, false, Bool-cases, Option-cases, inl, inr, List, [], ◌∷◌, Option, none,
  some, Text, text_eq, text_eq_iff, text_eq_refl, All, All-append,
}
use eks_any_model_hosting.Sessions.{
  Message, Session, Limits, Sessions, get, removed, put, cleaned, window, sweep, synced,
  session_or_new, replied, on_session, forget,
}
use eks_any_model_hosting.Sessions.Steps.{
  Operation, forgotten, counted, apply, run, with_reply, memory,
}
use eks_any_model_hosting.Sessions.Steps
use eks_any_model_hosting.Sessions.Entries.{
  Entry, All-both, removed-others, get-others, removed-All, get-All, sweep-All,
}

module _ (limits : Limits) where
  -- Each entry is what its session remembers.
  abbrev pub IsFaithful : List Operation → Entry → Type 0
  IsFaithful os e = memory limits e.0 os ≡ some e.1.messages

  -- An operation that leaves the memory of the other sessions leaves their entries faithful.
  others-IsFaithful :
      (os : List Operation) (o : Operation) (id : Text) (ss : Sessions)
      → ((k : Text) → k ≢ id → memory limits k (o ∷ os) ≡ memory limits k os)
      → All (λ e. e.0 ≢ id) ss
      → All (IsFaithful os) ss
      → All (IsFaithful (o ∷ os)) ss
  others-IsFaithful os o id ss others apart h =
      All-both (IsFaithful os) (λ e. e.0 ≢ id) (IsFaithful (o ∷ os))
        (λ e p other. others e.0 other ∙ p) ss h apart

  put-IsFaithful :
      (os : List Operation) (o : Operation) (id : Text) (s : Session) (ss : Sessions)
      → ((k : Text) → k ≢ id → memory limits k (o ∷ os) ≡ memory limits k os)
      → memory limits id (o ∷ os) ≡ some s.messages
      → All (IsFaithful os) ss
      → All (IsFaithful (o ∷ os)) (put id s ss)
  put-IsFaithful os o id s ss others here h =
      All-append (IsFaithful (o ∷ os)) (removed id ss) ((id, s) ∷ [])
        (others-IsFaithful os o id (removed id ss) others (removed-others id ss)
          (removed-All id (IsFaithful os) ss h))
        (here, tt)

  text_eq-other : (k id : Text) → k ≢ id → text_eq k id ≡ false
  text_eq-other k id other = elim (Bool-cases (text_eq k id)) [
    | inl e ↦ elim (other ((text_eq_iff k id).0 e)) [ ]
    | inr e ↦ e
  ]

  with_reply-empty : (before : Option (List Message)) → with_reply limits [] before ≡ before
  with_reply-empty none = refl
  with_reply-empty (some ms) = refl

  memory-empty :
      (id : Text) (now : ℕ) (os : List Operation) (k : Text)
      → memory limits k (Steps.replied id [] now ∷ os) ≡ memory limits k os
  unfolding memory
  memory-empty id now os k = elim (Bool-cases (text_eq k id)) [
    | inl e ↦ rw (e, memory) (with_reply-empty (memory limits k os))
    | inr e ↦ rw (e, memory) refl
  ]

  -- A reply to a session, where the store has one, and to one that it has forgotten.
  reply-IsFaithful :
      (id : Text) (c : ℕ) (content : Text) (now : ℕ) (os : List Operation) (ss : Sessions)
      → All (IsFaithful os) ss
      → All
          (IsFaithful (Steps.replied id (c ∷ content) now ∷ os))
          (on_session limits (get id ss) id (c ∷ content) now ss)
  unfolding memory
  reply-IsFaithful id c content now os ss h =
      let o = Steps.replied id (c ∷ content) now in
      let others : (k : Text) → k ≢ id → memory limits k (o ∷ os) ≡ memory limits k os =
        λ k other. rw (text_eq-other k id other) refl in
      elim (Option-cases (get id ss)) [
        | inl e ↦ rw e (others-IsFaithful os o id ss others (get-others id ss e) h)
        | inr (s, e) ↦ rw e (
            put-IsFaithful os o id (replied limits s (c ∷ content) now) ss others
              (rw (text_eq_refl id, get-All id (IsFaithful os) ss s h e) refl) h)
      ]

  forget-IsFaithful :
      (id : Text) (os : List Operation) (ss : Sessions)
      → All (IsFaithful os) ss
      → All (IsFaithful (forgotten id ∷ os)) (forget id ss).0
  unfolding memory forget
  forget-IsFaithful id os ss h =
      let others : (k : Text) → k ≢ id → memory limits k (forgotten id ∷ os) ≡ memory limits k os =
        λ k other. rw (text_eq-other k id other) refl in
      elim (Option-cases (get id ss)) [
        | inl e ↦ rw e (others-IsFaithful os (forgotten id) id ss others (get-others id ss e) h)
        | inr (s, e) ↦ rw e (
            others-IsFaithful os (forgotten id) id (removed id ss) others (removed-others id ss)
              (removed-All id (IsFaithful os) ss h))
      ]

  apply-IsFaithful :
      (o : Operation) (os : List Operation) (ss : Sessions)
      → All (IsFaithful os) ss
      → All (IsFaithful (o ∷ os)) (apply limits o ss)
  unfolding apply memory
  apply-IsFaithful (Steps.synced id transcript now) os ss h =
      let swept = sweep limits now ss in
      let s =
        synced limits (session_or_new (get id swept) now)
          (window (cleaned transcript) limits.max_messages) now in
      sweep-All limits (IsFaithful (Steps.synced id transcript now ∷ os)) now (put id s swept) (
        put-IsFaithful os (Steps.synced id transcript now) id s swept
          (λ k other. rw (text_eq-other k id other) refl) (rw (text_eq_refl id) refl)
          (sweep-All limits (IsFaithful os) now ss h))
  apply-IsFaithful (Steps.replied id [] now) os ss h =
      All-both (IsFaithful os) (IsFaithful os) (IsFaithful (Steps.replied id [] now ∷ os))
        (λ e p q. memory-empty id now os e.0 ∙ p) ss h h
  apply-IsFaithful (Steps.replied id (c ∷ content) now) os ss h =
      reply-IsFaithful id c content now os ss h
  apply-IsFaithful (forgotten id) os ss h = forget-IsFaithful id os ss h
  apply-IsFaithful (counted now) os ss h = sweep-All limits (IsFaithful os) now ss h

  pub run-IsFaithful : (os : List Operation) → All (IsFaithful os) (run limits os)
  unfolding run
  run-IsFaithful [] = tt
  run-IsFaithful (o ∷ os) = apply-IsFaithful o os (run limits os) (run-IsFaithful os)
