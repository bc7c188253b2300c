-- ===== src/Service/Contract.antt =====
-- Which requests of the chat view the service accepts.
use eks_any_model_hosting.Common.{
  ℕ, suc, ◌+◌, ◌≤◌, leb, ◌≡◌, ◌↔◌, refl, ap, ◌∙◌, Bool, Bool-cases, Option, Option-cases, inl, inr,
  none, true, false, ◌&&◌, List, [], ◌∷◌, ◌++◌, and-eq-true_iff, some, Text, codes, text_eq, length,
  length-append, is_nil, all, All, arith,
}
use eks_any_model_hosting.Chat.Requests.{ChatMessage, is_sendable, sendable}
use eks_any_model_hosting.Chat.View.{
  DisplayMessage, Submission, user_message, history_of, stream_request,
}
use eks_any_model_hosting.Chat.View.Steps.{Room, Reachable, taken}
use eks_any_model_hosting.Chat.View.Steps.Transcript.{
  IsSent, IsWhole, Reachable-IsWhole, sendable-stream_request,
}
use eks_any_model_hosting.Service.Unicode.{IsUnicode, code_points_iff}
use eks_any_model_hosting.Service.{
  is_low_surrogate, is_high_surrogate, points_behind, code_points, is_valid_length, count_or_zero,
  is_valid_message, total_chars, last_is_user, is_accepted,
}

-- A text is Unicode, and not longer than the service takes, in code points.
abbrev pub IsShort : Text → Type 0
IsShort text = (n : ℕ) × IsUnicode text n × (n ≤ 8000)

-- A message of the view has some content besides.
abbrev pub IsSized : Text → Type 0
IsSized content = (is_nil content ≡ false) × IsShort content

abbrev pub points_of : Text → ℕ
points_of text = count_or_zero (code_points text)

abbrev pub chars_of : List DisplayMessage → ℕ
chars_of [] = 0
chars_of (m ∷ ms) = points_of m.content + chars_of ms

-- What a submission must be for its request to be accepted.
pub record IsAcceptable (s : Submission) : Type 0 where
  pub count : length s.transcript ≤ 19
  pub filled : All (λ m. IsSized m.content) s.transcript
  pub short : IsShort s.trimmed
  pub total : chars_of s.transcript + points_of s.trimmed ≤ 24000

abbrev asking : Text → Text → List DisplayMessage
asking user_id text = user_message user_id text ∷ []

length-history_of : (ms : List DisplayMessage) → length (history_of ms) ≡ length ms
unfolding history_of
length-history_of [] = refl
length-history_of (m ∷ ms) = ap suc (length-history_of ms)

module _ (user_id text : Text) where
  total_chars-history_of :
      (ms : List DisplayMessage)
      → total_chars (history_of (ms ++ asking user_id text)) ≡ chars_of ms + points_of text
  unfolding history_of total_chars code_points
  total_chars-history_of [] = omega arith
  total_chars-history_of (m ∷ ms) = omega (arith, total_chars-history_of ms)

  last_is_user-history_of :
      (ms : List DisplayMessage) → last_is_user (history_of (ms ++ asking user_id text)) ≡ true
  unfolding history_of last_is_user
  last_is_user-history_of [] = refl
  last_is_user-history_of (m ∷ []) = refl
  last_is_user-history_of (m ∷ n ∷ ms) = last_is_user-history_of (n ∷ ms)

-- A text with a code unit has a code point, if it is Unicode.
code_points-filled : (c : ℕ) (s : Text) {n : ℕ} → code_points (c ∷ s) ≡ some n → 1 ≤ n
unfolding code_points points_behind
code_points-filled c s e = elim (Bool-cases (is_low_surrogate c)) [
  | inl low ↦ ground (arith, low, e)
  | inr other ↦ elim (Option-cases (points_behind (is_high_surrogate c) s)) [
    | inl lost ↦ ground (arith, other, lost, e)
    | inr (m, kept) ↦ ground (arith, other, kept, e)
  ]
]

valid-IsShort : (o : Option ℕ) → (is_valid_length o ≡ true) → (n : ℕ) × (o ≡ some n) × (n ≤ 8000)
valid-IsShort none e = cc
valid-IsShort (some n) e = (n, refl, ground (arith, e))

valid_length-IsShort : (c : Text) → (is_valid_length (code_points c) ≡ true) → IsShort c
valid_length-IsShort c valid =
    let (n, e, short) = valid-IsShort (code_points c) valid in (n, (code_points_iff c n).0 e, short)

code_points_nil : (is_valid_length (code_points []) ≡ true) → (is_nil {A = ℕ} [] ≡ false)
unfolding code_points points_behind
code_points_nil e = ground (arith, e)

-- Both tests on a length.
length-IsSized : (c : Text) → (is_valid_length (code_points c) ≡ true) ↔ IsSized c
length-IsSized [] = (λ e. (code_points_nil e, valid_length-IsShort [] e), λ h. ground (arith, h.0))
length-IsSized (x ∷ c) = (
  λ e. (refl, valid_length-IsShort (x ∷ c) e),
  λ (_, (n, unicode, short)).
      let e = (code_points_iff (x ∷ c) n).1 unicode in
      let full = code_points-filled x c e in rw e (ground (arith, full, short)),
)

is_valid_message-IsSized :
    (m : DisplayMessage)
    → IsSent m
    → (is_valid_message (record { role = m.role; content = m.content }) ≡ true) ↔ IsSized m.content
unfolding is_valid_message is_sendable
is_valid_message-IsSized m sent = rw sent (length-IsSized m.content)

module _ (user_id text : Text) (full : is_nil text ≡ false) where
  asking-IsSized :
      (is_valid_message (record { role = codes "user"; content = text }) ≡ true) ↔ IsSized text
  unfolding is_sendable text_eq
  asking-IsSized = is_valid_message-IsSized (user_message user_id text) refl

  all-IsSized :
      (ms : List DisplayMessage)
      → All IsSent ms
      → (all is_valid_message (history_of (ms ++ asking user_id text)) ≡ true)
        ↔ (All (λ m. IsSized m.content) ms × IsShort text)
  unfolding history_of
  all-IsSized [] h = (
    λ e. (tt, (asking-IsSized.0 ((and-eq-true_iff _ _).0 e).0).1),
    λ k. (and-eq-true_iff _ _).1 (asking-IsSized.1 (full, k.1), refl),
  )
  all-IsSized (m ∷ ms) (h, hs) = (
    λ e.
        let (first, later) = (and-eq-true_iff _ _).0 e in
        let (sized, short) = (all-IsSized ms hs).0 later in
        (((is_valid_message-IsSized m h).0 first, sized), short),
    λ k.
        (and-eq-true_iff _ _).1
          ((is_valid_message-IsSized m h).1 k.0.0, (all-IsSized ms hs).1 (k.0.1, k.1)),
  )

abbrev is_counted : List ChatMessage → Bool
is_counted ms = leb 1 (length ms) && leb (length ms) 20

abbrev is_ended : List ChatMessage → Bool
is_ended ms = leb (total_chars ms) 24000 && last_is_user ms

-- The tests of the request, one by one.
accepted-IsAcceptable :
    (user_id : Text) (s : Submission)
    → IsWhole s
    → (is_accepted (history_of (s.transcript ++ asking user_id s.trimmed)) ≡ true) ↔ IsAcceptable s
unfolding is_accepted
accepted-IsAcceptable user_id s (sent, full) =
    let ms = history_of (s.transcript ++ asking user_id s.trimmed) in
    let sizes = all-IsSized user_id s.trimmed full s.transcript sent in
    let count : length ms ≡ length s.transcript + 1 =
      length-history_of (s.transcript ++ asking user_id s.trimmed)
      ∙ length-append s.transcript (asking user_id s.trimmed) in
    let total = total_chars-history_of user_id s.trimmed s.transcript in
    let last = last_is_user-history_of user_id s.trimmed s.transcript in
    (
      λ e.
          let (counts, rest) =
            (and-eq-true_iff (is_counted ms) (all is_valid_message ms && is_ended ms)).0 e in
          let (valid, ends) = (and-eq-true_iff (all is_valid_message ms) (is_ended ms)).0 rest in
          let (filled, short) = sizes.0 valid in
          record {
            count = ground (arith, count, counts);
            filled = filled;
            short = short;
            total = ground (arith, total, ends);
          },
      λ k.
          let counts : is_counted ms ≡ true = ground (arith, count, k.count) in
          let ends : is_ended ms ≡ true = ground (arith, total, last, k.total) in
          (and-eq-true_iff _ _).1
            (counts, (and-eq-true_iff _ _).1 (sizes.1 (k.filled, k.short), ends)),
    )

-- After any actions, the service accepts the messages of a submission's request exactly where the
-- transcript has at most 19 messages, none of them empty or longer than 8000 code points, the text is
-- not longer either, all are Unicode without an unpaired surrogate, and together they have at most
-- 24000 code points. The roles never refuse it.
pub is_accepted-stream_request :
    (session_id : Text) (r : Room) (n : ℕ) (s : Submission) (rest : List Submission)
    (access_token user_id : Text)
    → Reachable session_id r
    → taken n r.pending ≡ some (s, rest)
    → (is_accepted (sendable (stream_request access_token user_id s).messages) ≡ true)
      ↔ IsAcceptable s
unfolding stream_request
is_accepted-stream_request session_id r n s rest access_token user_id h e =
    rw (sendable-stream_request session_id r n s rest access_token user_id h e)
      (accepted-IsAcceptable user_id s (Reachable-IsWhole session_id r n s rest h e))
