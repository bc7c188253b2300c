-- ===== src/Screen/Agreement.antt =====
-- The buttons and messages on the screen agree with the view and with what its actions do.
use eks_any_model_hosting.Common.{
  ℕ, Bool, true, false, not, ◌&&◌, Bool-cases, Option-cases, inl, inr, ◌≡◌, refl, ap, sym, ◌∙◌,
  List, [], ◌∷◌, map, Option, none, some, Text, codes, text_eq, trim, is_nil, if◌then◌else◌, arith,
}
use eks_any_model_hosting.Json.{Json}
use eks_any_model_hosting.Chat.View.{DisplayMessage, View, stop}
use eks_any_model_hosting.Chat.View.Steps.{Room, Reachable}
use eks_any_model_hosting.Chat.View.Steps.Transcript.{is_some, Reachable-IsSoundRoom}
use eks_any_model_hosting.Screen.{
  Shown, thinking, written, bubble_of, Stream, hero, bubbles, Button, stop_button, send_button,
  Rendering, ChatScreen, chat_screen, button_of, stream_of, on_submit, on_key_down,
}

abbrev pub is_stop : Button → Bool
is_stop stop_button = true
is_stop (send_button disabled) = false

abbrev pub can_send : Button → Bool
can_send stop_button = false
can_send (send_button disabled) = not disabled

abbrev pub text_shown : Shown → Text
text_shown thinking = []
text_shown (written text caret) = text

abbrev pub is_growing : Shown → Bool
is_growing thinking = true
is_growing (written text caret) = caret

-- Whose each text is, the text, and whether it is still growing; the hero shows none.
abbrev pub turns_of : Stream → List (Bool × (Text × Bool))
turns_of (hero suggestions) = []
turns_of (bubbles bs) = map (λ b. (b.by_user, (text_shown b.content, is_growing b.content))) bs

abbrev pub turn : DisplayMessage → Bool × (Text × Bool)
turn m = (text_eq m.role (codes "user"), (m.content, m.streaming))

pub record Agrees (s : ChatScreen) (v : View) : Type 0 where
  pub stops : is_stop s.button ≡ v.is_streaming
  pub stopping :
      is_stop s.button ≡ true
      → (c : ℕ) × (v.abort_ref ≡ some c) × ((stop v).aborted ≡ c ∷ v.aborted)
  pub quiet : is_stop s.button ≡ false → stop v ≡ v
  pub sends : can_send s.button ≡ is_some (on_submit v).0
  pub enter : on_key_down (codes "Enter") false v ≡ on_submit v
  pub newline : on_key_down (codes "Enter") true v ≡ (none, v)
  pub turns : turns_of s.stream ≡ map turn v.messages

content-shown :
    (streaming : Bool) (content : Text)
    → let shown = if streaming && is_nil content then thinking else written content streaming in
      (text_shown shown ≡ content) × (is_growing shown ≡ streaming)
content-shown true [] = (refl, refl)
content-shown true (c ∷ s) = (refl, refl)
content-shown false content = (refl, refl)

bubble_of-turn :
    (initial : Text) (m : DisplayMessage)
    → let b = bubble_of initial m in
      (b.by_user, (text_shown b.content, is_growing b.content)) ≡ turn m
unfolding bubble_of
bubble_of-turn initial m =
    let (text, growing) = content-shown m.streaming m.content in rw (text, growing) refl

bubbles-turns :
    (initial : Text) (ms : List DisplayMessage)
    → turns_of (bubbles (map (bubble_of initial) ms)) ≡ map turn ms
bubbles-turns initial [] = refl
bubbles-turns initial (m ∷ ms) =
    rw (bubble_of-turn initial m) (ap (◌∷◌ (turn m)) (bubbles-turns initial ms))

stream_of-turns :
    (initial : Text) (ms : List DisplayMessage) → turns_of (stream_of initial ms) ≡ map turn ms
stream_of-turns initial [] = refl
stream_of-turns initial (m ∷ ms) = bubbles-turns initial (m ∷ ms)

is_stop-button_of : (v : View) → is_stop (button_of v) ≡ v.is_streaming
unfolding button_of
is_stop-button_of v = elim (Bool-cases v.is_streaming) [ inl e ↦ rw e refl | inr e ↦ rw e refl ]

can_send-button_of : (v : View) → can_send (button_of v) ≡ is_some (on_submit v).0
unfolding button_of on_submit
can_send-button_of v = elim (Bool-cases v.is_streaming) [
  | inl e ↦ elim (Bool-cases (is_nil (trim v.input))) [
    | inl n ↦ rw (e, n) refl
    | inr n ↦ rw (e, n) refl
  ]
  | inr e ↦ elim (Bool-cases (is_nil (trim v.input))) [
    | inl n ↦ rw (e, n) refl
    | inr n ↦ rw (e, n) refl
  ]
]

stop-aborts :
    (v : View)
    → is_some v.abort_ref ≡ true
    → (c : ℕ) × (v.abort_ref ≡ some c) × ((stop v).aborted ≡ c ∷ v.aborted)
unfolding stop
stop-aborts v h = elim (Option-cases v.abort_ref) [
  | inl e ↦ ground (arith, e, h)
  | inr (c, e) ↦ (c, e, rw (e, stop) refl)
]

stop-unchanged : (v : View) → is_some v.abort_ref ≡ false → stop v ≡ v
unfolding stop
stop-unchanged v h = elim (Option-cases v.abort_ref) [
  | inl e ↦ rw (e, stop) refl
  | inr (c, e) ↦ ground (arith, e, h)
]

-- In every room that actions lead to, the screen offers to stop exactly while the view's flag
-- `isStreaming` is set, stopping then aborts the controller of its ref, and would change nothing
-- otherwise; it offers to send exactly where submitting its text makes a submission; Enter submits,
-- Shift with Enter does not; and the stream shows every message with its whole text, in order, by whom
-- it is and whether it is still growing. Where submissions have overlapped, a message may be growing
-- without the flag.
pub Reachable-Agrees :
    (js : Rendering) (to_upper_case : Text → Text) (model_name : Text) (user : Option Json)
    (session_id : Text) (r : Room)
    → Reachable session_id r
    → Agrees (chat_screen js to_upper_case model_name user r.view) r.view
unfolding chat_screen on_key_down text_eq
Reachable-Agrees js to_upper_case model_name user session_id r h =
    let sound = (Reachable-IsSoundRoom session_id r h).view in
    record {
      stops = is_stop-button_of r.view;
      stopping =
          λ e. stop-aborts r.view (sym sound.stoppable ∙ (sym (is_stop-button_of r.view) ∙ e));
      quiet =
          λ e. stop-unchanged r.view (sym sound.stoppable ∙ (sym (is_stop-button_of r.view) ∙ e));
      sends = can_send-button_of r.view;
      enter = refl;
      newline = refl;
      turns = stream_of-turns _ r.view.messages;
    }
