-- ===== src/Screen/App.antt =====
-- Which screen spa/src/App.tsx shows, and spa/src/components/LoginScreen.tsx.
use eks_any_model_hosting.Common.{
  true, false, Bool-cases, Option-cases, inl, inr, ◌≡◌, refl, Option, none, Text, codes,
  if◌then◌else◌, arith,
}
use eks_any_model_hosting.Json.{Json}
use eks_any_model_hosting.Auth.Tokens.{truthy}
use eks_any_model_hosting.Auth.Hook.{Hook}
use eks_any_model_hosting.Auth.Hook.Bootstrap.{IsCoherent}

pub record LoginScreen : Type 0 where
  pub title : Text
  pub model_chip : Text
  pub error : Option Text
  pub button : Text

abbrev pub login_screen : Text → Option Text → LoginScreen
login_screen model_name error = record {
  title = codes "Llama Pilot";
  model_chip = model_name;
  error = truthy error;
  button = codes "Enter the console";
}

-- The chat is shown with its `user`.
pub data AppScreen : Type 0 where
  loading : Text → AppScreen
  login : LoginScreen → AppScreen
  chat : Option Json → AppScreen

unfoldable pub app_screen : Text → Hook → AppScreen
app_screen model_name h =
    if h.is_loading
    then loading (codes "Initializing agent…")
    else if h.is_authenticated
    then chat h.user
    else login (login_screen model_name h.error)

-- The user on the screen.
abbrev pub user_on : AppScreen → Option Json
user_on (loading text) = none
user_on (login s) = none
user_on (chat user) = user

-- Where the flags of the hook agree, its user is on the screen, with the chat, and nobody else.
user_on-app_screen :
    (model_name : Text) (h : Hook) → IsCoherent h → user_on (app_screen model_name h) ≡ h.user
unfolding app_screen
user_on-app_screen model_name h c = elim (Option-cases h.user) [
  | inl e ↦ elim (Bool-cases h.is_loading) [
    | inl l ↦ rw (l, e) refl
    | inr l ↦ rw (l, c.shown, e) refl
  ]
  | inr (u, e) ↦
      let signed : h.is_authenticated ≡ true = rw (c.shown, e) refl in
      let ready : h.is_loading ≡ false = ground (arith, c.awaited, signed) in
      rw (ready, signed) refl
]
