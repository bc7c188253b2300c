-- ===== src/Screen.antt =====
-- What spa/src/components/ChatView.tsx and MessageBubble.tsx show of the view's state, and how the
-- keys and buttons act on it. The elements' classes, their labels for assistive technology, the
-- avatars' drawings and the scrolling are left out. `toUpperCase`, and the text and the sum of JSON
-- values, are parameters.
pub mod Agreement
pub mod App
pub mod Page
use eks_any_model_hosting.Common.{
  Bool, true, false, ◌&&◌, ◌||◌, not, List, [], ◌∷◌, ◌++◌, map, Option, none, some, Text, codes,
  text_eq, trim, is_nil, if◌then◌else◌,
}
use eks_any_model_hosting.Json.{Json, null, num, optional_member, as_string}
use eks_any_model_hosting.Auth.Tokens.{truthy, or_text}
use eks_any_model_hosting.Chat.View.{DisplayMessage, View, Submission, begin_submit}

-- The text, with the caret where it is still growing.
pub data Shown : Type 0 where
  thinking : Shown
  written : Text → Bool → Shown

-- The initial is the user's avatar.
pub record Bubble : Type 0 where
  pub by_user : Bool
  pub user_initial : Text
  pub label : Text
  pub content : Shown

unfoldable pub bubble_of : Text → DisplayMessage → Bubble
unfolding text_eq
bubble_of user_initial m =
    let is_user = text_eq m.role (codes "user") in
    record {
      by_user = is_user;
      user_initial = user_initial;
      label = if is_user then codes "You" else codes "Agent";
      content = if m.streaming && is_nil m.content then thinking else written m.content m.streaming;
    }

-- A claim is a string, as the source's casts say, or missing.
abbrev pub claim : Text → Json → Option Text
claim name user = as_string (optional_member name (some user))

unfoldable pub display_name : Option Json → Text
unfolding optional_member
display_name none = []
display_name (some user) =
    or_text (claim (codes "email") user)
      (or_text (claim (codes "username") user) (or_text (claim (codes "sub") user) []))

-- `s[0] || 'U'`
abbrev pub first_letter : Text → Text
first_letter [] = codes "U"
first_letter (c ∷ s) = c ∷ []

unfoldable pub user_initial_of : (Text → Text) → Text → Text
unfolding trim
user_initial_of to_upper_case name = to_upper_case (first_letter (trim name))

abbrev pub suggestions : List (Text × Text)
suggestions =
    (codes "explain", codes "Explain how this agent keeps context between turns.")
    ∷ (codes "write", codes "Write a haiku about self-hosting a language model.")
    ∷ (codes "reason", codes "What are the trade-offs of running vLLM on a single GPU?")
    ∷ (codes "plan", codes "Give me a 3-step plan to load-test an inference endpoint.")
    ∷ []

-- The hero with its suggestions, or the messages.
pub data Stream : Type 0 where
  hero : List (Text × Text) → Stream
  bubbles : List Bubble → Stream

-- `disabled` of the button that sends, where it is shown.
pub data Button : Type 0 where
  stop_button : Button
  send_button : Bool → Button

pub record ChatScreen : Type 0 where
  pub model_chip : Text
  pub status : Text
  pub user_name : Option Text
  pub new_chat_disabled : Bool
  pub stream : Stream
  pub error_strip : Option Text
  pub usage_strip : Option Text
  pub input : Text
  pub button : Button

-- `v != null`
abbrev pub given : Option Json → Option Json
given none = none
given (some null) = none
given (some v) = some v

abbrev pub value_or : Option Json → Json → Json
value_or none d = d
value_or (some v) d = v

abbrev pub status_label : Bool → Text
status_label is_streaming = if is_streaming then codes "Thinking…" else codes "Online"

abbrev pub stream_of : Text → List DisplayMessage → Stream
stream_of user_initial [] = hero suggestions
stream_of user_initial (m ∷ ms) = bubbles (map (bubble_of user_initial) (m ∷ ms))

abbrev pub shown_name : Text → Option Text
shown_name [] = none
shown_name (c ∷ s) = some (c ∷ s)

unfoldable pub button_of : View → Button
unfolding trim
button_of v = if v.is_streaming then stop_button else send_button (is_nil (trim v.input))

-- How JavaScript writes a JSON value into a text, and how it adds two.
pub record Rendering : Type 0 where
  pub show : Json → Text
  pub plus : Json → Json → Json

module _ (js : Rendering) where
  abbrev pub count_text : Option Json → Text
  count_text none = codes "?"
  count_text (some v) = js.show v

  abbrev pub token_counts : Option Json → Option Json → Option Json → Text
  token_counts prompt completion total =
      count_text prompt
      ++ (codes " prompt · "
          ++ (count_text completion
              ++ (codes " completion · "
                  ++ (js.show (
                        value_or total (
                          js.plus (value_or prompt (num (codes "0")))
                            (value_or completion (num (codes "0")))))
                      ++ codes " total tokens"))))

  -- Nothing without both of the first two counts.
  abbrev pub usage_text : Option Json → Option Json → Option Json → Option Text
  usage_text none none total = none
  usage_text prompt completion total = some (token_counts prompt completion total)

  unfoldable pub usage_strip_of : Option Json → Option Text
  unfolding optional_member
  usage_strip_of usage =
      usage_text (given (optional_member (codes "prompt_tokens") usage))
        (given (optional_member (codes "completion_tokens") usage))
        (given (optional_member (codes "total_tokens") usage))

  unfoldable pub chat_screen : (Text → Text) → Text → Option Json → View → ChatScreen
  unfolding bubble_of display_name user_initial_of usage_strip_of button_of
  chat_screen to_upper_case model_name user v =
      let name = display_name user in
      record {
        model_chip = model_name;
        status = status_label v.is_streaming ++ codes " · self-hosted on EKS";
        user_name = shown_name name;
        new_chat_disabled = is_nil v.messages && not v.is_streaming;
        stream = stream_of (user_initial_of to_upper_case name) v.messages;
        error_strip = truthy v.error;
        usage_strip = usage_strip_of v.usage;
        input = v.input;
        button = button_of v;
      }

-- The form's `onSubmit`, up to the `await`.
unfoldable pub on_submit : View → Option Submission × View
unfolding begin_submit
on_submit v = begin_submit v.input v

-- On the key and whether Shift is down.
unfoldable pub on_key_down : Text → Bool → View → Option Submission × View
unfolding on_submit text_eq
on_key_down key shift_key v =
    if text_eq key (codes "Enter") && not shift_key then on_submit v else (none, v)
