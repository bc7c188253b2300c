-- ===== src/Auth/Hook/Session.antt =====
-- The session that the hook shows: from the redirect of a login to an access token.
use eks_any_model_hosting.Common.{◌≡◌, refl, true, false, Option, none, some, Text, is_nil}
use eks_any_model_hosting.Json.{Json}
use eks_any_model_hosting.Auth.Pkce.{generate_code_verifier, generate_state}
use eks_any_model_hosting.Auth.Pkce.Alphabet.{IsBtoa}
use eks_any_model_hosting.Auth.Tokens.{
  StoredTokens, CognitoTokenResponse, Tab, resolved, Cognito, granted, to_stored_tokens,
  load_tokens, save_tokens,
}
use eks_any_model_hosting.Auth.Tokens.Refresh.Reuse.{IsStorable, load_tokens-save_tokens}
use eks_any_model_hosting.Auth.Callback.{
  login_redirect, on_code_reply, code_form, strip_auth_params, remove_login_material,
}
use eks_any_model_hosting.Auth.Callback.RoundTrip.{
  redirected, handle_redirect_callback-login_redirect,
}
use eks_any_model_hosting.Auth.Hook.{
  Hook, mounted, run_effect, derive_user, settle, end_callback, claims,
}

-- What the hook shows of a session.
pub record Shows (h : Hook) (user : Json) : Type 0 where
  pub authenticated : h.is_authenticated ≡ true
  pub claimed : h.user ≡ some user
  pub quiet : h.error ≡ none
  pub loaded : h.is_loading ≡ false

load_tokens-granted :
    (env : Cognito) (t : StoredTokens) (tab : Tab)
    → IsStorable env env t
    → load_tokens env (strip_auth_params (remove_login_material (save_tokens env t tab))) ≡ some t
unfolding load_tokens save_tokens strip_auth_params remove_login_material
load_tokens-granted env t tab s = load_tokens-save_tokens env env t tab s

module _ (atob decode_uri_component : Text → Option Text) (json_parse : Text → Option Json)
    (btoa sha256 : Text → Text) (env : Cognito) where
  settle-Shows :
      (t : StoredTokens) (tab : Tab) (h : Hook)
      → load_tokens env tab ≡ some t
      → h.error ≡ none
      → Shows
          (settle atob decode_uri_component json_parse env (resolved (some t), tab) h)
          (claims atob decode_uri_component json_parse t)
  unfolding settle derive_user
  settle-Shows t tab h loaded quiet =
      rw loaded (record { authenticated = refl; claimed = refl; quiet = quiet; loaded = refl })

  -- The page that a login's redirect loads shows the user of the tokens that the endpoint grants for
  -- it, without an error, once the effect has run and its callback has ended.
  pub end_callback-login_redirect :
      (tab : Tab) (verifier_bytes state_bytes code : Text) (json : CognitoTokenResponse)
      → is_nil code ≡ false
      → IsBtoa btoa verifier_bytes
      → IsBtoa btoa state_bytes
      → is_nil verifier_bytes ≡ false
      → is_nil state_bytes ≡ false
      → env.token_endpoint (code_form env code (generate_code_verifier btoa verifier_bytes))
        ≡ granted json
      → IsStorable env env (to_stored_tokens env.later json none)
      → Shows
          (end_callback atob decode_uri_component json_parse env (
            run_effect (
              mounted (
                redirected code
                  (generate_state btoa state_bytes)
                  (login_redirect env btoa sha256 verifier_bytes state_bytes tab)))))
          (claims atob decode_uri_component json_parse (to_stored_tokens env.later json none))
  unfolding end_callback run_effect on_code_reply
  end_callback-login_redirect tab vb sb code json full bv bs fv fs reply s =
      let gone = login_redirect env btoa sha256 vb sb tab in
      let back = redirected code (generate_state btoa sb) gone in
      let exchanged =
        (handle_redirect_callback-login_redirect env btoa sha256 vb sb tab code full bv bs fv
          fs).1 in
      rw (exchanged, reply)
        (settle-Shows (to_stored_tokens env.later json none) _ (run_effect (mounted back))
          (load_tokens-granted env (to_stored_tokens env.later json none) back s) refl)
