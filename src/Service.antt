-- ===== src/Service.antt =====
-- services/api/app: how models.py validates the messages of a chat request, and in the modules below
-- the rest of the service. The other fields of a request are the session id, which `newSessionId`
-- makes, and the two numbers that the client always sends. Python counts the lengths in code points.
pub mod Unicode
pub mod Contract
pub mod Turn
pub mod Inference
pub mod Settings
pub mod Limiter
pub mod Body
pub mod Completion
pub mod Auth
use eks_any_model_hosting.Common.{
  ℕ, suc, ◌+◌, leb, Option, none, some, if◌then◌else◌, Bool, true, false, ◌&&◌, ◌||◌, List, [], ◌∷◌,
  Text, codes, text_eq, length, all,
}
use mathlib.Core.Option
use eks_any_model_hosting.Chat.Requests.{ChatMessage}

abbrev pub max_message_count : ℕ
max_message_count = 20

abbrev pub max_chars_per_message : ℕ
max_chars_per_message = 8000

abbrev pub max_total_chars : ℕ
max_total_chars = 24000

abbrev pub is_high_surrogate : ℕ → Bool
is_high_surrogate c = leb 0xd800 c && leb c 0xdbff

abbrev pub is_low_surrogate : ℕ → Bool
is_low_surrogate c = leb 0xdc00 c && leb c 0xdfff

-- The count of the code points, behind a high surrogate or not; `none` is an unpaired surrogate.
unfoldable pub points_behind : Bool → Text → Option ℕ
points_behind true [] = none
points_behind false [] = some 0
points_behind high (c ∷ s) =
    let rest = points_behind (is_high_surrogate c) s in
    if high
    then (if is_low_surrogate c then rest else none)
    else if is_low_surrogate c
    then none
    else Option.map suc rest

-- len of the Python string that the JSON of a text of JavaScript is read as: two code units that are
-- a pair are one code point.
unfoldable pub code_points : Text → Option ℕ
unfolding points_behind
code_points s = points_behind false s

-- 1 <= len(content) <= 8000. A string with an unpaired surrogate is no Unicode text to pydantic.
abbrev pub is_valid_length : Option ℕ → Bool
is_valid_length none = false
is_valid_length (some n) = leb 1 n && leb n max_chars_per_message

-- `ChatMessage` of the service.
unfoldable pub is_valid_message : ChatMessage → Bool
unfolding text_eq code_points
is_valid_message m =
    (text_eq m.role (codes "user") || text_eq m.role (codes "assistant"))
    && is_valid_length (code_points m.content)

abbrev pub count_or_zero : Option ℕ → ℕ
count_or_zero none = 0
count_or_zero (some n) = n

-- On messages that are valid.
unfoldable pub total_chars : List ChatMessage → ℕ
unfolding code_points
total_chars [] = 0
total_chars (m ∷ ms) = count_or_zero (code_points m.content) + total_chars ms

-- `_last_message_is_user`
unfoldable pub last_is_user : List ChatMessage → Bool
unfolding text_eq
last_is_user [] = true
last_is_user (m ∷ []) = text_eq m.role (codes "user")
last_is_user (m ∷ n ∷ ms) = last_is_user (n ∷ ms)

unfoldable pub is_accepted : List ChatMessage → Bool
unfolding is_valid_message total_chars last_is_user
is_accepted ms =
    (leb 1 (length ms) && leb (length ms) max_message_count)
    && (all is_valid_message ms && (leb (total_chars ms) max_total_chars && last_is_user ms))
