-- ===== src/Tests/Memory.antt =====
-- The conversation store on a chat of two sessions.
use eks_any_model_hosting.Common.{◌≡◌, refl, true, List, [], ◌∷◌, none, Text, codes, text_eq}
use eks_any_model_hosting.Sessions.{Message, limits_of, context, info, forget, window, cleaned}
use eks_any_model_hosting.Sessions.Steps.{Operation, synced, replied, run}

abbrev said : Text → Text → Message
said role content = record { role = role; content = content }

-- A window of one turn, and two sessions; the last operation stands first.
abbrev chat : List Operation
chat =
    replied (codes "a") (codes "Hello") 12
    ∷ synced (codes "b") (said (codes "user") (codes "x") ∷ []) 11
    ∷ synced (codes "a")
        (said (codes "system") (codes "leak")
          ∷ said (codes "user") (codes "one")
          ∷ said (codes "assistant") []
          ∷ said (codes "user") (codes "Hi")
          ∷ [])
        10
    ∷ []

context_test :
    context (limits_of 1 60 2) (codes "a") 72 (run (limits_of 1 60 2) chat)
    ≡ said (codes "user") (codes "Hi") ∷ said (codes "assistant") (codes "Hello") ∷ []
unfolding context run limits_of text_eq window cleaned
context_test = refl

expired_test : context (limits_of 1 60 2) (codes "a") 73 (run (limits_of 1 60 2) chat) ≡ []
unfolding context run limits_of text_eq window cleaned
expired_test = refl

-- A third session evicts the least recently used one, which the reply to the first has made "b".
evicted_test :
    info
      (limits_of 1 60 2)
      (codes "b")
      13
      (run (limits_of 1 60 2) (synced (codes "c") [] 13 ∷ chat))
    ≡ none
unfolding info run limits_of text_eq window cleaned
evicted_test = refl

forget_test : (forget (codes "a") (run (limits_of 1 60 2) chat)).1 ≡ true
unfolding forget run limits_of text_eq window cleaned
forget_test = refl
