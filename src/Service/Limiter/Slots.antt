-- ===== src/Service/Limiter/Slots.antt =====
-- The slots of the limiter are those of the requests that are being answered.
use eks_any_model_hosting.Common.{
  ℕ, suc, ◌+◌, ◌≤◌, ◌<◌, ltb, leb, ◌≡◌, ◌↔◌, refl, sym, subst, ap, ◌∙◌, true, Bool-cases, inl, inr,
  List, [], ◌∷◌, ◌++◌, map, Text, length, length-append, arith,
}
use eks_any_model_hosting.Chat.Requests.{ChatMessage}
use eks_any_model_hosting.Sessions.{Limits, limits_of, Sessions, larger}
use eks_any_model_hosting.Sessions.Steps.{Operation, synced, apply, run}
use eks_any_model_hosting.Sessions.Refinement.{Refines, run-Refines}
use eks_any_model_hosting.Service.Turn.{to_message}
use eks_any_model_hosting.Service.Limiter.{
  try_acquire, release, Server, synced_store, refused, ask, finish, new_server, Step, asks, ends,
  stores, Reachable, started, next,
}

-- Each slot that is taken belongs to one request, and the store is one of some operations.
record IsKept (limits : Limits) (max_concurrent : ℕ) (s : Server) : Type 0 where
  bound : s.limiter.max ≡ larger 1 max_concurrent
  counted : s.limiter.in_flight ≡ length s.held
  within : length s.held ≤ larger 1 max_concurrent
  operations : List Operation
  stored : s.sessions ≡ run limits operations

module _ (limits : Limits) (n : ℕ) where
  synced_store-run :
      (session_id : Text) (messages : List ChatMessage) (now : ℕ) (ss : Sessions)
      (os : List Operation)
      → ss ≡ run limits os
      → (more : List Operation) × ((synced_store limits session_id
            (map to_message messages)
            now
            ss).0
          ≡ run limits more)
  unfolding synced_store apply run
  synced_store-run [] messages now ss os e = (os, e)
  synced_store-run (c ∷ session_id) messages now ss os e = (
    synced (c ∷ session_id) (map to_message messages) now ∷ os,
    ap (apply limits (synced (c ∷ session_id) (map to_message messages) now)) e,
  )

  ask-IsKept :
      (s : Server) (session_id : Text) (messages : List ChatMessage) (now : ℕ)
      → IsKept limits n s
      → IsKept limits n (ask limits session_id messages now s).0
  unfolding ask try_acquire
  ask-IsKept s session_id messages now k =
      let (more, stored) =
        synced_store-run session_id messages now s.sessions k.operations k.stored in
      let longer = length-append s.held (session_id ∷ []) in
      elim (Bool-cases (leb s.limiter.max s.limiter.in_flight)) [
        | inl full ↦ simp full (record {
          bound = k.bound;
          counted = k.counted;
          within = k.within;
          operations = more;
          stored = stored;
        })
        | inr free ↦
            let below : length s.held < larger 1 n = ground (arith, free, k.bound, k.counted) in
            simp free (record {
              bound = k.bound;
              counted = omega (arith, longer, k.counted);
              within = omega (arith, longer, below);
              operations = more;
              stored = stored;
            })
      ]

  finish-IsKept :
      (s : Server) (earlier later : List Text) (session_id : Text)
      → s.held ≡ earlier ++ session_id ∷ later
      → IsKept limits n s
      → IsKept limits n (finish earlier later s)
  unfolding finish release
  finish-IsKept s earlier later session_id e k =
      let all : length s.held ≡ length earlier + suc (length later) =
        ap length e ∙ length-append earlier (session_id ∷ later) in
      let rest = length-append earlier later in
      let taken : ltb 0 s.limiter.in_flight ≡ true = ground (arith, k.counted, all) in
      simp taken (record {
        bound = k.bound;
        counted = omega (arith, k.counted, all, rest);
        within = omega (arith, k.within, all, rest);
        operations = k.operations;
        stored = k.stored;
      })

  Step-IsKept : {s t : Server} → Step limits s t → IsKept limits n s → IsKept limits n t
  unfolding run
  Step-IsKept (asks s session_id messages now) k = ask-IsKept s session_id messages now k
  Step-IsKept (ends s earlier later session_id e) k = finish-IsKept s earlier later session_id e k
  Step-IsKept (stores s o) k = record {
    bound = k.bound;
    counted = k.counted;
    within = k.within;
    operations = o ∷ k.operations;
    stored = ap (apply limits o) k.stored;
  }

  Reachable-IsKept : {s : Server} → Reachable limits n s → IsKept limits n s
  unfolding new_server run
  Reachable-IsKept started = record {
    bound = refl;
    counted = refl;
    within = omega arith;
    operations = [];
    stored = refl;
  }
  Reachable-IsKept (next r step) = Step-IsKept step (Reachable-IsKept r)

  -- Refused at the limit alone.
  ask-refused :
      (s : Server) (session_id : Text) (messages : List ChatMessage) (now : ℕ)
      → IsKept limits n s
      → ((ask limits session_id messages now s).1 ≡ refused) ↔ (length s.held ≡ larger 1 n)
  unfolding ask try_acquire
  ask-refused s session_id messages now k =
      elim (Bool-cases (leb s.limiter.max s.limiter.in_flight)) [
        | inl full ↦
            let at : length s.held ≡ larger 1 n =
              ground (arith, full, k.bound, k.counted, k.within) in
            simp full (λ _. at, λ _. refl)
        | inr free ↦
            let below : length s.held < larger 1 n = ground (arith, free, k.bound, k.counted) in
            simp free (λ h. absurd (ground (arith, h)), λ h. absurd (omega (arith, h, below)))
      ]

-- The slots, the load that is shed, and the store.
pub record IsAccounted (limits : Limits) (max_concurrent : ℕ) (s : Server) : Type 0 where
  pub counted : s.limiter.in_flight ≡ length s.held
  pub within : length s.held ≤ larger 1 max_concurrent
  pub shed :
      (session_id : Text) (messages : List ChatMessage) (now : ℕ)
      → ((ask limits session_id messages now s).1 ≡ refused)
        ↔ (length s.held ≡ larger 1 max_concurrent)
  pub operations : List Operation
  pub remembered : Refines limits operations s.sessions

-- However chat requests, ends of answers and other uses of the store follow each other, the limiter
-- counts exactly the requests that are being answered: no slot is lost or given back twice. They are
-- never more than the configured number, or one where that is 0; the next request is refused exactly
-- where they are that many; and the store is one that its own operations give, with all their bounds.
pub Reachable-IsAccounted :
    (max_turns ttl_seconds max_sessions max_concurrent : ℕ) {s : Server}
    → let limits = limits_of max_turns ttl_seconds max_sessions in
      Reachable limits max_concurrent s → IsAccounted limits max_concurrent s
Reachable-IsAccounted max_turns ttl_seconds max_sessions max_concurrent {s} r =
    let limits = limits_of max_turns ttl_seconds max_sessions in
    let k = Reachable-IsKept limits max_concurrent r in
    record {
      counted = k.counted;
      within = k.within;
      shed =
          λ session_id messages now. ask-refused limits max_concurrent s session_id messages now k;
      operations = k.operations;
      remembered =
          subst (Refines limits k.operations) (sym k.stored)
            (run-Refines max_turns ttl_seconds max_sessions k.operations);
    }
