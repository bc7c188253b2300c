-- ===== src/Auth/Callback/RoundTrip.antt =====
-- From `loginRedirect` to the exchange of the code that the redirect brings back.
use eks_any_model_hosting.Common.{
  ◌≡◌, refl, ap, ◌∙◌, true, false, ◌∷◌, Option, none, some, Text, is_nil, text_eq_refl, arith,
}
use eks_any_model_hosting.Auth.Pkce.{
  generate_code_verifier, generate_code_challenge, generate_state, base64_url_encode,
}
use eks_any_model_hosting.Auth.Pkce.Alphabet.{IsBtoa, base64_url_encode-IsUrlSafe}
use eks_any_model_hosting.Auth.Tokens.{Tab, truthy, Cognito}
use eks_any_model_hosting.Auth.Callback.{
  authorize_url, login_redirect, code_form, on_code_reply, on_verifier, on_state, on_code,
  on_error_param, handle_redirect_callback, is_text,
}

-- The address after the redirect.
abbrev pub redirected : Text → Text → Tab → Tab
redirected code state tab = record tab {
  query = record { code = some code; state = some state; error = none; error_description = none };
}

-- Material made of some bytes is not the empty string.
material_full :
    (btoa : Text → Text) (bytes : Text)
    → IsBtoa btoa bytes
    → is_nil bytes ≡ false
    → is_nil (base64_url_encode btoa bytes) ≡ false
material_full btoa bytes b full = grind (arith, (base64_url_encode-IsUrlSafe btoa bytes b).1)

truthy_full : (s : Text) → is_nil s ≡ false → truthy (some s) ≡ some s
truthy_full s h = rw h

is_text_of_eq : (o : Option Text) (s : Text) → o ≡ some s → is_text o s ≡ true
is_text_of_eq o s e = rw e (text_eq_refl s)

module _ (env : Cognito) (tab : Tab) {code expected verifier : Text} where
  -- Every guard passes on stored material and the stored state.
  passes_guards :
      truthy tab.query.error ≡ none
      → truthy tab.query.code ≡ some code
      → truthy tab.storage.oauth_state ≡ some expected
      → tab.query.state ≡ some expected
      → truthy tab.storage.pkce_verifier ≡ some verifier
      → handle_redirect_callback env tab
        ≡ on_code_reply env (env.token_endpoint (code_form env code verifier)) tab
  unfolding handle_redirect_callback
  passes_guards no_error has_code stored returned material =
      ap (λ o. on_error_param env o tab) no_error
      ∙ ap (λ o. on_code env o tab) has_code
      ∙ ap (λ o. on_state env o code tab) stored
      ∙ rw (is_text_of_eq _ expected returned) (ap (λ o. on_verifier env o code tab) material)

module _ (env : Cognito) (btoa sha256 : Text → Text) (verifier_bytes state_bytes : Text) where
  -- Where the redirect brings back a code with the state of `loginRedirect`, the callback passes all
  -- its guards and sends the code with the verifier whose challenge the authorize URL carried; the
  -- rest follows from the endpoint's reply.
  pub handle_redirect_callback-login_redirect :
      (tab : Tab) (code : Text)
      → is_nil code ≡ false
      → IsBtoa btoa verifier_bytes
      → IsBtoa btoa state_bytes
      → is_nil verifier_bytes ≡ false
      → is_nil state_bytes ≡ false
      → let verifier = generate_code_verifier btoa verifier_bytes in
        let state = generate_state btoa state_bytes in
        let gone = login_redirect env btoa sha256 verifier_bytes state_bytes tab in
        let back = redirected code state gone in
        (gone.assigned
          ≡ authorize_url env state (generate_code_challenge btoa sha256 verifier) ∷ tab.assigned)
        × (handle_redirect_callback env back
            ≡ on_code_reply env (env.token_endpoint (code_form env code verifier)) back)
  unfolding login_redirect handle_redirect_callback generate_code_verifier generate_state
  handle_redirect_callback-login_redirect tab code full bv bs fv fs = (
    refl,
    passes_guards env _ refl (truthy_full code full)
        (truthy_full _ (material_full btoa state_bytes bs fs)) refl
        (truthy_full _ (material_full btoa verifier_bytes bv fv)),
  )
