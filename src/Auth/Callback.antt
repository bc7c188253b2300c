-- ===== src/Auth/Callback.antt =====
-- The redirects and the redirect's callback of spa/src/auth/cognito.ts.
pub mod Exchange
pub mod Once
pub mod RoundTrip
use eks_any_model_hosting.Common.{
  Bool, true, false, [], ◌∷◌, ◌++◌, Option, none, some, Text, codes, text_eq, if◌then◌else◌,
}
use eks_any_model_hosting.Sse.{Thrown, js_error}
use eks_any_model_hosting.Auth.Pkce.{
  generate_code_verifier, generate_code_challenge, generate_state,
}
use eks_any_model_hosting.Auth.Tokens.{
  StoredTokens, Tab, Awaited, resolved, raised, TokenReply, lost, refused, granted, TokenForm,
  truthy, or_text, clear_tokens, to_stored_tokens, Cognito, save_tokens,
}

-- `stripAuthParamsFromUrl`
unfoldable pub strip_auth_params : Tab → Tab
strip_auth_params tab = record tab {
  query = record { code = none; state = none; error = none; error_description = none };
}

-- `removeItem` on the two keys of one login.
unfoldable pub remove_login_material : Tab → Tab
remove_login_material tab = record tab {
  storage = record tab.storage { pkce_verifier = none; oauth_state = none };
}

abbrev pub assign : Text → Tab → Tab
assign url tab = record tab { assigned = url ∷ tab.assigned }

-- `returnedState === expectedState`, where the parameter may be missing.
abbrev pub is_text : Option Text → Text → Bool
is_text none expected = false
is_text (some s) expected = text_eq s expected

abbrev pub rejecting : Text → Tab → Awaited (Option StoredTokens) × Tab
rejecting message tab = (raised (js_error message), strip_auth_params tab)

module _ (env : Cognito) where
  abbrev pub authorize_url : Text → Text → Text
  authorize_url state challenge =
      env.domain
      ++ (codes "/oauth2/authorize?"
          ++ env.encode_form (
              (codes "response_type", codes "code")
              ∷ (codes "client_id", env.client_id)
              ∷ (codes "redirect_uri", env.redirect_sign_in)
              ∷ (codes "scope", codes "openid email profile")
              ∷ (codes "state", state)
              ∷ (codes "code_challenge", challenge)
              ∷ (codes "code_challenge_method", codes "S256")
              ∷ []))

  -- On the random bytes of the verifier and of the state.
  unfoldable pub login_redirect : (Text → Text) → (Text → Text) → Text → Text → Tab → Tab
  login_redirect btoa sha256 verifier_bytes state_bytes tab =
      let verifier = generate_code_verifier btoa verifier_bytes in
      let challenge = generate_code_challenge btoa sha256 verifier in
      let state = generate_state btoa state_bytes in
      let stored = record tab.storage { pkce_verifier = some verifier; oauth_state = some state } in
      assign (authorize_url state challenge) (record tab { storage = stored })

  abbrev pub code_form : Text → Text → TokenForm
  code_form code verifier =
      (codes "grant_type", codes "authorization_code")
      ∷ (codes "client_id", env.client_id)
      ∷ (codes "code", code)
      ∷ (codes "redirect_uri", env.redirect_sign_in)
      ∷ (codes "code_verifier", verifier)
      ∷ []

  -- What follows the fetch of `handleRedirectCallback`.
  unfoldable pub on_code_reply : TokenReply → Tab → Awaited (Option StoredTokens) × Tab
  on_code_reply (lost e) tab = (raised e, tab)
  on_code_reply (refused status detail) tab =
      rejecting (codes "Token exchange failed (" ++ (env.show status ++ (codes "). " ++ detail)))
        tab
  on_code_reply (granted json) tab =
      let tokens = to_stored_tokens env.later json none in
      (
        resolved (some tokens),
        strip_auth_params (remove_login_material (save_tokens env tokens tab)),
      )

  -- The three guards of `handleRedirectCallback`, on the values that each one tests.
  unfoldable pub on_verifier : Option Text → Text → Tab → Awaited (Option StoredTokens) × Tab
  unfolding on_code_reply
  on_verifier none code tab =
      rejecting (codes "Missing PKCE verifier — please try signing in again.") tab
  on_verifier (some verifier) code tab =
      on_code_reply (env.token_endpoint (code_form code verifier)) tab

  abbrev pub mismatch : Tab → Awaited (Option StoredTokens) × Tab
  mismatch = rejecting (codes "OAuth state mismatch — possible CSRF, aborting login.")

  unfoldable pub on_state : Option Text → Text → Tab → Awaited (Option StoredTokens) × Tab
  unfolding on_verifier
  on_state none code tab = mismatch tab
  on_state (some expected) code tab =
      if is_text tab.query.state expected
      then on_verifier (truthy tab.storage.pkce_verifier) code tab
      else mismatch tab

  unfoldable pub on_code : Option Text → Tab → Awaited (Option StoredTokens) × Tab
  unfolding on_state
  on_code none tab = (resolved none, tab)
  on_code (some code) tab = on_state (truthy tab.storage.oauth_state) code tab

  unfoldable pub on_error_param : Option Text → Tab → Awaited (Option StoredTokens) × Tab
  unfolding on_code
  on_error_param none tab = on_code (truthy tab.query.code) tab
  on_error_param (some error) tab =
      rejecting (or_text tab.query.error_description (codes "Login failed: " ++ error)) tab

  unfoldable pub handle_redirect_callback : Tab → Awaited (Option StoredTokens) × Tab
  unfolding on_error_param
  handle_redirect_callback tab = on_error_param (truthy tab.query.error) tab

  unfoldable pub logout_redirect : Tab → Tab
  logout_redirect tab =
      assign
        (env.domain
          ++ (codes "/logout?"
              ++ env.encode_form (
                  (codes "client_id", env.client_id)
                  ∷ (codes "logout_uri", env.redirect_sign_out)
                  ∷ [])))
        (clear_tokens tab)
