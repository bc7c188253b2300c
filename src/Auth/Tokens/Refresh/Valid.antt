-- ===== src/Auth/Tokens/Refresh/Valid.antt =====
-- Which access token `getValidAccessToken` hands out, and what it leaves in the tab.
use eks_any_model_hosting.Common.{
  ℕ, ◌+◌, ◌*◌, ◌<◌, ◌≤◌, ◌≡◌, refl, true, false, Option, none, some, Text, inl, inr, Bool-cases,
  Option-cases, arith,
}
use eks_any_model_hosting.Auth.Tokens.{
  StoredTokens, CognitoTokenResponse, Tab, TokenReply, lost, refused, granted, truthy, clear_tokens,
  to_stored_tokens, is_expiring_soon, Cognito, load_tokens, save_tokens,
}
use eks_any_model_hosting.Auth.Tokens.Refresh.{
  refresh_form, on_refresh_reply, refresh_tokens, after_refresh, valid_access_token,
  get_valid_access_token,
}

module _ (env : Cognito) where
  -- The five ways that the call goes.
  pub data Access (tab : Tab) : Option StoredTokens → Option Text × Tab → Type 0 where
    signed_out : Access tab none (none, tab)
    current :
        {t : StoredTokens}
        → env.now + 60 * 1000 < t.expires_at
        → Access tab (some t) (some t.access_token, tab)
    unrenewable :
        {t : StoredTokens}
        → t.expires_at ≤ env.now + 60 * 1000
        → truthy t.refresh_token ≡ none
        → Access tab (some t) (none, tab)
    renewed :
        {t : StoredTokens} {r : Text} {json : CognitoTokenResponse}
        → t.expires_at ≤ env.now + 60 * 1000
        → truthy t.refresh_token ≡ some r
        → env.token_endpoint (refresh_form env r) ≡ granted json
        → Access tab (some t) (
          some json.access_token,
          save_tokens env (to_stored_tokens env.later json t.refresh_token) tab,
        )
    lapsed :
        {t : StoredTokens} {r : Text}
        → t.expires_at ≤ env.now + 60 * 1000
        → truthy t.refresh_token ≡ some r
        → ((json : CognitoTokenResponse)
            → ¬ (env.token_endpoint (refresh_form env r) ≡ granted json))
        → Access tab (some t) (none, clear_tokens tab)

  refresh_tokens_lem :
      (t : StoredTokens) (tab : Tab) {r : Text}
      → truthy t.refresh_token ≡ some r
      → refresh_tokens env t tab
        ≡ on_refresh_reply env (env.token_endpoint (refresh_form env r)) t tab
  unfolding refresh_tokens
  refresh_tokens_lem t tab e = rw (e, refresh_tokens)

  renewal :
      (t : StoredTokens) (tab : Tab) (r : Text) (reply : TokenReply)
      → t.expires_at ≤ env.now + 60 * 1000
      → truthy t.refresh_token ≡ some r
      → env.token_endpoint (refresh_form env r) ≡ reply
      → Access tab (some t) (after_refresh env (on_refresh_reply env reply t tab))
  unfolding after_refresh on_refresh_reply to_stored_tokens
  renewal t tab r (lost e) due has_token replied = lapsed due has_token (λ json g. cc)
  renewal t tab r (refused status detail) due has_token replied =
      lapsed due has_token (λ json g. cc)
  renewal t tab r (granted json) due has_token replied = renewed due has_token replied

  is_expiring_soon-false :
      (now : ℕ) (t : StoredTokens) → is_expiring_soon now t ≡ false → now + 60 * 1000 < t.expires_at
  unfolding is_expiring_soon
  is_expiring_soon-false now t h = ground arith

  is_expiring_soon-true :
      (now : ℕ) (t : StoredTokens) → is_expiring_soon now t ≡ true → t.expires_at ≤ now + 60 * 1000
  unfolding is_expiring_soon
  is_expiring_soon-true now t h = ground arith

  valid_access_token-Access :
      (loaded : Option StoredTokens) (tab : Tab)
      → Access tab loaded (valid_access_token env loaded tab)
  unfolding valid_access_token
  valid_access_token-Access none tab = signed_out
  valid_access_token-Access (some t) tab = elim (Bool-cases (is_expiring_soon env.now t)) [
    | inr fresh ↦ rw fresh (current (is_expiring_soon-false env.now t fresh))
    | inl due ↦
        let late = is_expiring_soon-true env.now t due in
        elim (Option-cases (truthy t.refresh_token)) [
          | inl e ↦ rw (due, e) (unrenewable late e)
          | inr (r, e) ↦ rw (due, e, refresh_tokens_lem t tab e) (renewal t tab r _ late e refl)
        ]
  ]

  -- A token is handed out only if it is the stored one with more than a minute left, and then the
  -- tab is as it was, or if the endpoint has just granted it for the stored refresh token, and then
  -- the new tokens are stored. Without tokens, or without a refresh token for expiring ones, there
  -- is none and the tab is as it was; if the endpoint does not grant the refresh, there is none and
  -- the storage is cleared.
  pub get_valid_access_token-Access :
      (tab : Tab) → Access tab (load_tokens env tab) (get_valid_access_token env tab)
  unfolding get_valid_access_token
  get_valid_access_token-Access tab = valid_access_token-Access (load_tokens env tab) tab
