-- ===== src/Auth/Tokens/Refresh.antt =====
-- `refreshTokens` and `getValidAccessToken` of spa/src/auth/cognito.ts.
pub mod Valid
pub mod Reuse
use eks_any_model_hosting.Common.{
  true, false, [], ◌∷◌, ◌++◌, Option, none, some, Text, codes, if◌then◌else◌, Bool,
}
use eks_any_model_hosting.Sse.{Thrown, js_error}
use eks_any_model_hosting.Auth.Tokens.{
  StoredTokens, Tab, Awaited, resolved, raised, TokenReply, lost, refused, granted, TokenForm,
  truthy, clear_tokens, to_stored_tokens, is_expiring_soon, Cognito, load_tokens, save_tokens,
}

module _ (env : Cognito) where
  abbrev pub refresh_form : Text → TokenForm
  refresh_form refresh_token =
      (codes "grant_type", codes "refresh_token")
      ∷ (codes "client_id", env.client_id)
      ∷ (codes "refresh_token", refresh_token)
      ∷ []

  -- What follows the fetch of `refreshTokens`.
  unfoldable pub on_refresh_reply : TokenReply → StoredTokens → Tab → Awaited StoredTokens × Tab
  on_refresh_reply (lost e) tokens tab = (raised e, tab)
  on_refresh_reply (refused status detail) tokens tab =
      (raised (js_error (codes "Token refresh failed (" ++ (env.show status ++ codes ")."))), tab)
  on_refresh_reply (granted json) tokens tab =
      let next = to_stored_tokens env.later json tokens.refresh_token in
      (resolved next, save_tokens env next tab)

  unfoldable pub refresh_tokens : StoredTokens → Tab → Awaited StoredTokens × Tab
  unfolding on_refresh_reply
  refresh_tokens tokens tab = elim (truthy tokens.refresh_token) [
    | none ↦ (raised (js_error (codes "No refresh token available.")), tab)
    | some r ↦ on_refresh_reply (env.token_endpoint (refresh_form r)) tokens tab
  ]

  -- The `try` of `getValidAccessToken`.
  unfoldable pub after_refresh : Awaited StoredTokens × Tab → Option Text × Tab
  after_refresh (resolved refreshed, tab) = (some refreshed.access_token, tab)
  after_refresh (raised e, tab) = (none, clear_tokens tab)

  -- `getValidAccessToken` on the tokens that were loaded.
  unfoldable pub valid_access_token : Option StoredTokens → Tab → Option Text × Tab
  unfolding after_refresh
  valid_access_token none tab = (none, tab)
  valid_access_token (some tokens) tab =
      if is_expiring_soon env.now tokens
      then elim (truthy tokens.refresh_token) [
        | none ↦ (none, tab)
        | some r ↦ after_refresh (refresh_tokens tokens tab)
      ]
      else (some tokens.access_token, tab)

  unfoldable pub get_valid_access_token : Tab → Option Text × Tab
  unfolding valid_access_token
  get_valid_access_token tab = valid_access_token (load_tokens env tab) tab
