-- ===== src/Sessions/Refinement.antt =====
-- The store refines the memory of its sessions: it may forget one, and holds none of another.
use eks_any_model_hosting.Common.{
  ℕ, ◌+◌, ◌-◌, ◌≤◌, ltb, ◌≡◌, ◌≢◌, ◌⊎◌, refl, subst, sym, false, Bool-cases, Option-cases, inl, inr,
  List, [], some, Text, length, All, arith,
}
use eks_any_model_hosting.Sessions.{
  Message, Limits, limits_of, Sessions, get, removed, cleaned, window, sweep, synced,
  session_or_new, sync, context, unexpired,
}
use eks_any_model_hosting.Sessions.Steps.{Operation, run, memory}
use eks_any_model_hosting.Sessions.Entries.{
  removed-others, get-All, get-last, unexpired-All, unexpired-last, evicted-last,
}
use eks_any_model_hosting.Sessions.Memory.{IsFaithful, run-IsFaithful}
use eks_any_model_hosting.Sessions.Bounds.{IsWindow, IsWindowed, run-bounded, memory-IsWindowed}

module _ (limits : Limits) where
  -- The contents of a store after some operations, the last one first.
  pub record Refines (os : List Operation) (ss : Sessions) : Type 0 where
    pub bounded : length ss ≤ limits.max_sessions
    -- A session's context is what it remembers, or nothing.
    pub remembered :
        (k : Text) (now : ℕ)
        → (context limits k now ss ≡ []) ⊎ (some (context limits k now ss) ≡ memory limits k os)
    pub windowed : (k : Text) (now : ℕ) → IsWindow limits (context limits k now ss)
    -- A transcript stays until it expires.
    pub kept :
        (k : Text) (transcript : List Message) (now later : ℕ)
        → later ≤ now + limits.ttl
        → context limits k later (sync limits k transcript now ss).0
          ≡ window (cleaned transcript) limits.max_messages

  remembered_by :
      (os : List Operation) (ss : Sessions) (k : Text) (now : ℕ)
      → All (IsFaithful limits os) ss
      → (context limits k now ss ≡ []) ⊎ (some (context limits k now ss) ≡ memory limits k os)
  unfolding context
  remembered_by os ss k now h = elim (Option-cases (get k ss)) [
    | inl e ↦ inl (rw e refl)
    | inr (s, e) ↦ elim (Bool-cases (ltb limits.ttl (now - s.last_seen))) [
      | inl gone ↦ inl (rw (e, gone) refl)
      | inr stays ↦ inr (rw (e, stays) (sym (get-All k (IsFaithful limits os) ss s h e)))
    ]
  ]

  windowed_by :
      (os : List Operation) (k : Text) (ms : List Message)
      → (ms ≡ []) ⊎ (some ms ≡ memory limits k os)
      → IsWindow limits ms
  windowed_by os k ms (inl e) = rw e (omega arith, tt)
  windowed_by os k ms (inr e) = subst (IsWindowed limits) (sym e) (memory-IsWindowed limits k os)

  -- What a sync has put in is there, whatever the sweep behind it drops.
  pub get-sync :
      (k : Text) (transcript : List Message) (now : ℕ) (ss : Sessions)
      → 1 ≤ limits.max_sessions
      → get k (sync limits k transcript now ss).0
        ≡ some (
            synced limits
              (session_or_new (get k (sweep limits now ss)) now)
              (window (cleaned transcript) limits.max_messages)
              now)
  unfolding sync sweep
  get-sync k transcript now ss one =
      let swept = sweep limits now ss in
      let s =
        synced limits (session_or_new (get k swept) now)
          (window (cleaned transcript) limits.max_messages) now in
      let others = removed k swept in
      let live : ltb limits.ttl (now - now) ≡ false = ground arith in
      let (kept, same, apart) =
        evicted-last limits (λ e. e.0 ≢ k) (unexpired limits now others) (k, s) one
          (unexpired-All limits (λ e. e.0 ≢ k) now others (removed-others k swept)) in
      rw (unexpired-last limits now others k s live, same) (get-last k kept s apart)

  sync-kept :
      (k : Text) (transcript : List Message) (now later : ℕ) (ss : Sessions)
      → 1 ≤ limits.max_sessions
      → later ≤ now + limits.ttl
      → context limits k later (sync limits k transcript now ss).0
        ≡ window (cleaned transcript) limits.max_messages
  unfolding context
  sync-kept k transcript now later ss one soon =
      let stays : ltb limits.ttl (later - now) ≡ false = ground (arith, soon) in
      rw (get-sync k transcript now ss one, stays) refl

pub run-Refines :
    (max_turns ttl_seconds max_sessions : ℕ) (os : List Operation)
    → let limits = limits_of max_turns ttl_seconds max_sessions in Refines limits os (run limits os)
unfolding limits_of
run-Refines max_turns ttl_seconds max_sessions os =
    let limits = limits_of max_turns ttl_seconds max_sessions in
    let one : 1 ≤ limits.max_sessions = ground arith in
    let ss = run limits os in
    record {
      bounded = run-bounded limits os;
      remembered = λ k now. remembered_by limits os ss k now (run-IsFaithful limits os);
      windowed = λ k now.
          windowed_by limits os k _ (remembered_by limits os ss k now (run-IsFaithful limits os));
      kept = λ k transcript now later soon. sync-kept limits k transcript now later ss one soon;
    }
