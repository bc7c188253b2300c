-- ===== src/Chat/Requests/Roles.antt =====
-- Which messages of a history are sent.
use eks_any_model_hosting.Common.{
  ◌≡◌, true, List, [], ◌∷◌, Text, codes, text_eq_iff, ◌⊎◌, inl, inr, Bool-cases, arith,
}
use eks_any_model_hosting.Chat.Requests.{ChatMessage, is_sendable, sendable}

-- The roles that the client may send.
abbrev pub IsClientRole : Text → Type 0
IsClientRole role = (role ≡ codes "user") ⊎ (role ≡ codes "assistant")

is_sendable-role : (m : ChatMessage) → is_sendable m ≡ true → IsClientRole m.role
unfolding is_sendable
is_sendable-role m h =
    ground (arith, text_eq_iff m.role (codes "user"), text_eq_iff m.role (codes "assistant"))

is_sendable_of_role : (m : ChatMessage) → IsClientRole m.role → is_sendable m ≡ true
unfolding is_sendable
is_sendable_of_role m h =
    ground (arith, text_eq_iff m.role (codes "user"), text_eq_iff m.role (codes "assistant"))

-- What `sendable` keeps of a history, told without a test: each message is kept where its role is a
-- client's, and left out where it is another.
pub data Kept : List ChatMessage → List ChatMessage → Type 0 where
  none_left : Kept [] []
  kept :
      {m : ChatMessage} {ms ns : List ChatMessage}
      → IsClientRole m.role
      → Kept ms ns
      → Kept (m ∷ ms) (m ∷ ns)
  left_out :
      {m : ChatMessage} {ms ns : List ChatMessage}
      → ¬ IsClientRole m.role
      → Kept ms ns
      → Kept (m ∷ ms) ns

-- For every history, the messages that are sent are exactly those with the role "user" or
-- "assistant", in their order.
sendable-Kept : (ms : List ChatMessage) → Kept ms (sendable ms)
unfolding sendable
sendable-Kept [] = none_left
sendable-Kept (m ∷ ms) = elim (Bool-cases (is_sendable m)) [
  | inl e ↦ rw e (kept (is_sendable-role m e) (sendable-Kept ms))
  | inr e ↦ rw e (left_out (λ h. ground (arith, is_sendable_of_role m h)) (sendable-Kept ms))
]
