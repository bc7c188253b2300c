-- ===== src/Sessions/Steps.antt =====
-- The conversation store under its operations in any order, and the memory that it stands for.
use eks_any_model_hosting.Common.{
  ℕ, List, [], ◌∷◌, ◌++◌, Option, none, some, Text, codes, text_eq, if◌then◌else◌,
}
use eks_any_model_hosting.Sessions.{
  Message, Limits, Sessions, cleaned, window, sync, append_assistant, forget, stats,
}

-- Those that change the store.
pub data Operation : Type 0 where
  synced : Text → List Message → ℕ → Operation
  replied : Text → Text → ℕ → Operation
  forgotten : Text → Operation
  counted : ℕ → Operation

module _ (limits : Limits) where
  unfoldable pub apply : Operation → Sessions → Sessions
  unfolding sync append_assistant forget stats
  apply (synced session_id transcript now) sessions =
      (sync limits session_id transcript now sessions).0
  apply (replied session_id content now) sessions =
      append_assistant limits session_id content now sessions
  apply (forgotten session_id) sessions = (forget session_id sessions).0
  apply (counted now) sessions = (stats limits now sessions).0

  -- The last operation stands first.
  unfoldable pub run : List Operation → Sessions
  unfolding apply
  run [] = []
  run (o ∷ earlier) = apply o (run earlier)

  abbrev pub with_reply : Text → Option (List Message) → Option (List Message)
  with_reply content none = none
  with_reply [] (some messages) = some messages
  with_reply (c ∷ content) (some messages) = some (
      window (messages ++ record { role = codes "assistant"; content = c ∷ content } ∷ [])
        limits.max_messages)

  -- What one session remembers, if nothing is ever evicted: the window of its last transcript with
  -- the replies since. No other session and no time plays a part.
  unfoldable pub memory : Text → List Operation → Option (List Message)
  unfolding cleaned window text_eq
  memory k [] = none
  memory k (synced session_id transcript now ∷ earlier) =
      let before = memory k earlier in
      if text_eq k session_id
      then some (window (cleaned transcript) limits.max_messages)
      else before
  memory k (replied session_id content now ∷ earlier) =
      let before = memory k earlier in
      if text_eq k session_id then with_reply content before else before
  memory k (forgotten session_id ∷ earlier) =
      let before = memory k earlier in if text_eq k session_id then none else before
  memory k (counted now ∷ earlier) = memory k earlier
