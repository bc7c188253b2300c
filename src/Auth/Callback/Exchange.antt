-- ===== src/Auth/Callback/Exchange.antt =====
-- When `handleRedirectCallback` signs in, and that it does not exchange a code twice.
use eks_any_model_hosting.Common.{
  ◌≡◌, refl, ap, true, Option, none, some, Text, text_eq_iff, inl, inr, Bool-cases,
}
use eks_any_model_hosting.Auth.Tokens.{
  StoredTokens, CognitoTokenResponse, Tab, Awaited, resolved, raised, TokenReply, lost, refused,
  granted, truthy, to_stored_tokens, Cognito, save_tokens,
}
use eks_any_model_hosting.Auth.Callback.{
  strip_auth_params, remove_login_material, is_text, rejecting, code_form, on_code_reply,
  on_verifier, on_state, on_code, on_error_param, handle_redirect_callback,
}

module _ (env : Cognito) where
  -- A sign-in: the address has no error, a code, and the state that this tab had stored; the
  -- endpoint granted the code with the verifier that this tab had stored; and the tokens are in the
  -- storage, the login's material is gone from it, and the parameters from the address.
  pub record SignsIn (tab : Tab) (tokens : StoredTokens) (after : Tab) : Type 0 where
    pub code : Text
    pub expected : Text
    pub verifier : Text
    pub json : CognitoTokenResponse
    pub no_error : truthy tab.query.error ≡ none
    pub has_code : truthy tab.query.code ≡ some code
    pub stored_state : truthy tab.storage.oauth_state ≡ some expected
    pub returned_state : tab.query.state ≡ some expected
    pub stored_verifier : truthy tab.storage.pkce_verifier ≡ some verifier
    pub exchanged : env.token_endpoint (code_form env code verifier) ≡ granted json
    pub tokens_are : tokens ≡ to_stored_tokens env.later json none
    pub tokens_in : after.storage.tokens ≡ some (env.stringify tokens)
    pub state_gone : after.storage.oauth_state ≡ none
    pub verifier_gone : after.storage.pkce_verifier ≡ none
    pub code_gone : after.query.code ≡ none

  -- Either a sign-in, or no tokens and an untouched storage.
  abbrev pub CallbackResult : Tab → Awaited (Option StoredTokens) × Tab → Type 0
  CallbackResult tab (resolved (some tokens), after) = SignsIn tab tokens after
  CallbackResult tab (resolved none, after) = after ≡ tab
  CallbackResult tab (raised e, after) = after.storage ≡ tab.storage

  pub record HasCallbackResult (tab : Tab) (r : Awaited (Option StoredTokens) × Tab) : Type 0 where
    pub result : CallbackResult tab r

  rejecting-HasCallbackResult :
      (message : Text) (tab : Tab) → HasCallbackResult tab (rejecting message tab)
  unfolding strip_auth_params
  rejecting-HasCallbackResult message tab = record { result = refl }

  is_text-eq : (o : Option Text) (expected : Text) → is_text o expected ≡ true → o ≡ some expected
  is_text-eq none expected h = cc
  is_text-eq (some s) expected h = ap some ((text_eq_iff s expected).0 h)

  module _ (tab : Tab) (code : Text) (no_error : truthy tab.query.error ≡ none)
      (has_code : truthy tab.query.code ≡ some code) where
    on_code_reply-HasCallbackResult :
        (expected verifier : Text) (reply : TokenReply)
        → truthy tab.storage.oauth_state ≡ some expected
        → tab.query.state ≡ some expected
        → truthy tab.storage.pkce_verifier ≡ some verifier
        → env.token_endpoint (code_form env code verifier) ≡ reply
        → HasCallbackResult tab (on_code_reply env reply tab)
    unfolding on_code_reply
    on_code_reply-HasCallbackResult expected verifier (lost e) s r v x = record { result = refl }
    on_code_reply-HasCallbackResult expected verifier (refused status detail) s r v x =
        rejecting-HasCallbackResult _ tab
    on_code_reply-HasCallbackResult expected verifier (granted json) s r v x = record {
      result =
          unfold save_tokens remove_login_material strip_auth_params in
          record {
            code = code;
            expected = expected;
            verifier = verifier;
            json = json;
            no_error = no_error;
            has_code = has_code;
            stored_state = s;
            returned_state = r;
            stored_verifier = v;
            exchanged = x;
            tokens_are = refl;
            tokens_in = refl;
            state_gone = refl;
            verifier_gone = refl;
            code_gone = refl;
          };
    }

    on_verifier-HasCallbackResult :
        (expected : Text) (v : Option Text)
        → truthy tab.storage.oauth_state ≡ some expected
        → tab.query.state ≡ some expected
        → truthy tab.storage.pkce_verifier ≡ v
        → HasCallbackResult tab (on_verifier env v code tab)
    unfolding on_verifier
    on_verifier-HasCallbackResult expected none s r e = rejecting-HasCallbackResult _ tab
    on_verifier-HasCallbackResult expected (some verifier) s r e =
        on_code_reply-HasCallbackResult expected verifier _ s r e refl

    on_state-HasCallbackResult :
        (o : Option Text)
        → truthy tab.storage.oauth_state ≡ o
        → HasCallbackResult tab (on_state env o code tab)
    unfolding on_state
    on_state-HasCallbackResult none s = rejecting-HasCallbackResult _ tab
    on_state-HasCallbackResult (some expected) s =
        elim (Bool-cases (is_text tab.query.state expected)) [
          | inl same ↦
              rw same (on_verifier-HasCallbackResult expected _ s (is_text-eq _ expected same) refl)
          | inr other ↦ rw other (rejecting-HasCallbackResult _ tab)
        ]

  on_code-HasCallbackResult :
      (tab : Tab) (o : Option Text)
      → truthy tab.query.error ≡ none
      → truthy tab.query.code ≡ o
      → HasCallbackResult tab (on_code env o tab)
  unfolding on_code
  on_code-HasCallbackResult tab none no_error e = record { result = refl }
  on_code-HasCallbackResult tab (some code) no_error e =
      on_state-HasCallbackResult tab code no_error e _ refl

  on_error_param-HasCallbackResult :
      (tab : Tab) (o : Option Text)
      → truthy tab.query.error ≡ o
      → HasCallbackResult tab (on_error_param env o tab)
  unfolding on_error_param
  on_error_param-HasCallbackResult tab none e = on_code-HasCallbackResult tab _ e refl
  on_error_param-HasCallbackResult tab (some error) e = rejecting-HasCallbackResult _ tab

  -- Tokens are returned and stored only by a sign-in with the state and the verifier that this tab
  -- had stored; every other end leaves the storage as it was, and one with no exception the address
  -- too.
  pub handle_redirect_callback-HasCallbackResult :
      (tab : Tab) → HasCallbackResult tab (handle_redirect_callback env tab)
  unfolding handle_redirect_callback
  handle_redirect_callback-HasCallbackResult tab = on_error_param-HasCallbackResult tab _ refl
