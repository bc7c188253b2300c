-- ===== src/Screen/Page/Answers.antt =====
-- What a submission of the page comes to once the hook's `getAccessToken` has answered.
use eks_any_model_hosting.Common.{
  ℕ, ◌+◌, ==-refl, ==-false, true, false, Bool-cases, inl, inr, ◌≡◌, refl, sym, ap, ◌∙◌, List, [],
  ◌∷◌, Option, none, some, Text, arith,
}
use eks_any_model_hosting.Json.{Json}
use eks_any_model_hosting.Auth.Pkce.{
  generate_code_verifier, generate_code_challenge, generate_state,
}
use eks_any_model_hosting.Auth.Tokens.{Tab, truthy, load_tokens, clear_tokens}
use eks_any_model_hosting.Auth.Tokens.Refresh.Valid.{Access}
use eks_any_model_hosting.Auth.Callback.{authorize_url, login_redirect}
use eks_any_model_hosting.Auth.Hook.{Hook}
use eks_any_model_hosting.Auth.Hook.Bootstrap.{is_some}
use eks_any_model_hosting.Auth.Hook.Tokens.{
  Answered, handed_out, signed_off, get_access_token-Answered,
}
use eks_any_model_hosting.Chat.Requests.{StreamRequest}
use eks_any_model_hosting.Chat.View.{
  Submission, resume_submit, open_stream, stream_request, require_login, stop,
}
use eks_any_model_hosting.Chat.View.Steps.{Room, taken}
use eks_any_model_hosting.Screen.Page.Mounting.{Reachable-IsPlaced}
use eks_any_model_hosting.Screen.App.{login, login_screen, app_screen}
use eks_any_model_hosting.Screen.Page.{
  Page, is_chat, LoginMaterial, render, after_logins, resumed_on, answered, Reachable,
}

-- Nobody is signed in, the login's page is being loaded with the material of a new login, and of the
-- old session nothing is stored.
pub record IsLoggingIn (model_name : Text) (btoa sha256 : Text → Text) (l : LoginMaterial)
    (h : Hook) : Type 0 where
  pub shown : app_screen model_name h ≡ login (login_screen model_name none)
  pub stored : h.tab.storage ≡ record {
    pkce_verifier = some (generate_code_verifier btoa l.verifier_bytes);
    oauth_state = some (generate_state btoa l.state_bytes);
    tokens = none;
  }
  pub sent_off :
      (earlier : List Text) × (h.tab.assigned
        ≡ authorize_url l.env
            (generate_state btoa l.state_bytes)
            (generate_code_challenge btoa sha256 (generate_code_verifier btoa l.verifier_bytes))
          ∷ earlier)

is_loading-is_chat :
    (model_name : Text) (h : Hook) → is_chat (app_screen model_name h) ≡ true → h.is_loading ≡ false
unfolding app_screen
is_loading-is_chat model_name h shows = elim (Bool-cases h.is_loading) [
  | inl e ↦ ground (arith, e, shows)
  | inr e ↦ e
]

-- The hook behind `clearTokens`, its two states and the login.
abbrev turned_off : (Text → Text) → (Text → Text) → LoginMaterial → Tab → Hook → Hook
turned_off btoa sha256 l tab h = record h {
  is_authenticated = false;
  user = none;
  error = none;
  tab = login_redirect l.env btoa sha256 l.verifier_bytes l.state_bytes (clear_tokens tab);
}

turned_off-IsLoggingIn :
    (model_name : Text) (btoa sha256 : Text → Text) (l : LoginMaterial) (tab : Tab) (h : Hook)
    → h.is_loading ≡ false
    → IsLoggingIn model_name btoa sha256 l (turned_off btoa sha256 l tab h)
unfolding app_screen login_redirect clear_tokens
turned_off-IsLoggingIn model_name btoa sha256 l tab h ready = record {
  shown = rw ready refl;
  stored = refl;
  sent_off = (tab.assigned, refl);
}

is_chat-turned_off :
    (model_name : Text) (btoa sha256 : Text → Text) (l : LoginMaterial) (tab : Tab) (h : Hook)
    → h.is_loading ≡ false
    → is_chat (app_screen model_name (turned_off btoa sha256 l tab h)) ≡ false
unfolding app_screen
is_chat-turned_off model_name btoa sha256 l tab h ready = rw ready refl

module _ (model_name : Text) (atob decode_uri_component : Text → Option Text)
    (json_parse : Text → Option Json) (btoa sha256 : Text → Text) (l : LoginMaterial)
    (user_id assistant_id : Text) (controller : ℕ) (session_id : Text) (p : Page) where
  -- A submission's request is sent, or the page is signed off.
  pub data Settles (s : Submission) (rest : List Submission) (r : Room)
      : Option StreamRequest × Page → Type 0 where
    sent :
        {t : Text} {tab : Tab}
        → truthy (some t) ≡ some t
        → Access l.env p.hook.tab (load_tokens l.env p.hook.tab) (some t, tab)
        → Settles s rest r (
          some (stream_request t user_id s),
          record p {
            hook = record p.hook { tab = tab };
            room = some (record {
              view = open_stream user_id assistant_id controller s r.view;
              pending = rest;
            });
          },
        )
    turned_away :
        {token : Option Text} {tab : Tab} {h : Hook}
        → truthy token ≡ none
        → Access l.env p.hook.tab (load_tokens l.env p.hook.tab) (token, tab)
        → IsLoggingIn model_name btoa sha256 l h
        → Settles s rest r
            (none, record { hook = h; room = none; left = stop (require_login r.view) ∷ p.left })

  resumed_on-Settles :
      (s : Submission) (rest : List Submission) (r : Room) {x : Option Text × Hook}
      → is_chat (app_screen model_name p.hook) ≡ true
      → Answered l.env p.hook x
      → Settles s rest r (
          resumed_on model_name atob decode_uri_component json_parse btoa sha256 l user_id
            assistant_id controller session_id s rest r p x)
  unfolding resumed_on render after_logins app_screen resume_submit open_stream clear_tokens
  resumed_on-Settles s rest r shows (handed_out {t = []} full a) = ground (arith, full)
  resumed_on-Settles s rest r shows (handed_out {t = c ∷ t} full a) =
      rw (==-refl r.view.logins, shows) (sent full a)
  resumed_on-Settles s rest r shows (signed_off {token = none} {tab = tab} empty a) =
      let ready = is_loading-is_chat model_name p.hook shows in
      rw
        (
          ==-false r.view.logins (r.view.logins + 1) (omega arith),
          is_chat-turned_off model_name btoa sha256 l tab p.hook ready,
        )
        (turned_away empty a (turned_off-IsLoggingIn model_name btoa sha256 l tab p.hook ready))
  resumed_on-Settles s rest r shows (signed_off {token = some []} {tab = tab} empty a) =
      let ready = is_loading-is_chat model_name p.hook shows in
      rw
        (
          ==-false r.view.logins (r.view.logins + 1) (omega arith),
          is_chat-turned_off model_name btoa sha256 l tab p.hook ready,
        )
        (turned_away empty a (turned_off-IsLoggingIn model_name btoa sha256 l tab p.hook ready))
  resumed_on-Settles s rest r shows (signed_off {token = some (c ∷ t)} empty a) =
      ground (arith, empty)

  -- In every page that can be reached, a submission that waits in its chat view sends its request
  -- with the token that the Cognito client hands out, which is not empty, and the view opens its
  -- stream; or the client hands out none, and then the page shows the login screen without an error,
  -- its storage holds the material of a new login and no tokens, the browser is sent to that login,
  -- and the chat view is gone, the controller of its ref aborted.
  pub answered-Settles :
      {tab : Tab} (n : ℕ) (r : Room) (s : Submission) (rest : List Submission)
      → Reachable model_name atob decode_uri_component json_parse btoa sha256 tab p
      → p.room ≡ some r
      → taken n r.pending ≡ some (s, rest)
      → Settles s rest r (
          answered model_name atob decode_uri_component json_parse btoa sha256 l user_id
            assistant_id controller session_id n p)
  unfolding answered
  answered-Settles n r s rest reached e waits =
      let placed =
        (Reachable-IsPlaced atob decode_uri_component json_parse btoa sha256 reached).placed in
      let shows = sym placed ∙ ap is_some e in
      simp (e, answered, waits)
        (resumed_on-Settles s rest r shows (get_access_token-Answered l.env p.hook))
