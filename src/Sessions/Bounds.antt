-- ===== src/Sessions/Bounds.antt =====
-- How many sessions the store holds, and how much of each.
use eks_any_model_hosting.Common.{
  ◌≤◌, refl, Option-cases, inl, inr, List, [], ◌∷◌, ◌++◌, Option, none, some, Text, codes, text_eq,
  length, length-append, All, All-append, if_both, arith,
}
use eks_any_model_hosting.Sessions.{
  Message, Limits, Sessions, get, removed, cleaned, window, replied, forget,
}
use eks_any_model_hosting.Sessions.Steps.{
  Operation, forgotten, counted, apply, run, with_reply, memory,
}
use eks_any_model_hosting.Sessions.Steps
use eks_any_model_hosting.Sessions.Entries.{
  length-removed, length-removed_found, length-sweep, IsClean, cleaned-IsClean, window-All,
  length-window,
}

module _ (limits : Limits) where
  length-forget : (id : Text) (ss : Sessions) → length (forget id ss).0 ≤ length ss
  unfolding forget
  length-forget id ss = elim (Option-cases (get id ss)) [
    | inl e ↦ rw e (omega arith)
    | inr (s, e) ↦ rw e (length-removed id ss)
  ]

  -- The number of sessions.
  apply-bounded :
      (o : Operation) (ss : Sessions)
      → length ss ≤ limits.max_sessions
      → length (apply limits o ss) ≤ limits.max_sessions
  unfolding apply
  apply-bounded (Steps.synced id transcript now) ss h = length-sweep limits now _
  apply-bounded (Steps.replied id [] now) ss h = h
  apply-bounded (Steps.replied id (c ∷ content) now) ss h = elim (Option-cases (get id ss)) [
    | inl e ↦ rw e h
    | inr (s, e) ↦ rw e (
        omega (
          arith,
          h,
          length-append (removed id ss) ((id, replied limits s (c ∷ content) now) ∷ []),
          length-removed_found id ss s e,
        ))
  ]
  apply-bounded (forgotten id) ss h = omega (arith, h, length-forget id ss)
  apply-bounded (counted now) ss h = length-sweep limits now ss

  pub run-bounded : (os : List Operation) → length (run limits os) ≤ limits.max_sessions
  unfolding run
  run-bounded [] = omega arith
  run-bounded (o ∷ os) = apply-bounded o (run limits os) (run-bounded os)

  -- What is remembered is clean, and no longer than the window.
  abbrev pub IsWindow : List Message → Type 0
  IsWindow ms = (length ms ≤ limits.max_messages) × All IsClean ms

  abbrev pub IsWindowed : Option (List Message) → Type 0
  IsWindowed none = Unit
  IsWindowed (some ms) = IsWindow ms

  with_reply-IsWindowed :
      (content : Text) (before : Option (List Message))
      → IsWindowed before
      → IsWindowed (with_reply limits content before)
  unfolding text_eq
  with_reply-IsWindowed content none h = tt
  with_reply-IsWindowed [] (some ms) h = h
  with_reply-IsWindowed (c ∷ content) (some ms) (short, clean) =
      let m : Message = record { role = codes "assistant"; content = c ∷ content } in
      let all = ms ++ m ∷ [] in
      (
        length-window all limits.max_messages,
        window-All IsClean all limits.max_messages
            (All-append IsClean ms (m ∷ []) clean (record { role = refl; full = refl }, tt)),
      )

  pub memory-IsWindowed : (k : Text) (os : List Operation) → IsWindowed (memory limits k os)
  unfolding memory
  memory-IsWindowed k [] = tt
  memory-IsWindowed k (Steps.synced id transcript now ∷ os) =
      if_both IsWindowed (text_eq k id) {x = some (window (cleaned transcript) limits.max_messages)}
        (
          length-window (cleaned transcript) limits.max_messages,
          window-All IsClean (cleaned transcript) limits.max_messages (cleaned-IsClean transcript),
        )
        (memory-IsWindowed k os)
  memory-IsWindowed k (Steps.replied id content now ∷ os) =
      if_both IsWindowed (text_eq k id)
        (with_reply-IsWindowed content (memory limits k os) (memory-IsWindowed k os))
        (memory-IsWindowed k os)
  memory-IsWindowed k (forgotten id ∷ os) =
      if_both IsWindowed (text_eq k id) {x = none} tt (memory-IsWindowed k os)
  memory-IsWindowed k (counted now ∷ os) = memory-IsWindowed k os
