-- ===== src/Auth/Callback/Once.antt =====
-- A code is not exchanged twice.
use eks_any_model_hosting.Common.{◌≡◌, ◌≢◌, refl, Option, none, some, Text, if_both}
use eks_any_model_hosting.Sse.{Thrown}
use eks_any_model_hosting.Auth.Tokens.{
  StoredTokens, Tab, Awaited, resolved, TokenReply, lost, refused, granted, TokenForm, truthy,
  Cognito,
}
use eks_any_model_hosting.Auth.Callback.{
  strip_auth_params, remove_login_material, is_text, code_form, on_code_reply, on_verifier,
  on_state, on_code, on_error_param, handle_redirect_callback,
}

module _ (env : Cognito) where
  -- A second call on what the first one left does nothing.
  abbrev IsOver : Tab → Type 0
  IsOver tab = handle_redirect_callback env tab ≡ (resolved none, tab)

  -- So the first call is over with what it left.
  record IsFinal (r : Awaited (Option StoredTokens) × Tab) : Type 0 where
    over : IsOver r.1

  stripped-IsFinal :
      {a : Awaited (Option StoredTokens)} (tab : Tab) → IsFinal (a, strip_auth_params tab)
  unfolding handle_redirect_callback strip_auth_params
  stripped-IsFinal tab = record { over = refl }

  module _ (answers : (form : TokenForm) (e : Thrown) → env.token_endpoint form ≢ lost e) where
    on_code_reply-IsFinal :
        (tab : Tab) (reply : TokenReply)
        → ((e : Thrown) → reply ≢ lost e)
        → IsFinal (on_code_reply env reply tab)
    unfolding on_code_reply
    on_code_reply-IsFinal tab (lost e) h = absurd (h e refl)
    on_code_reply-IsFinal tab (refused status detail) h = stripped-IsFinal tab
    on_code_reply-IsFinal tab (granted json) h = stripped-IsFinal (remove_login_material _)

    on_verifier-IsFinal :
        (o : Option Text) (code : Text) (tab : Tab) → IsFinal (on_verifier env o code tab)
    unfolding on_verifier
    on_verifier-IsFinal none code tab = stripped-IsFinal tab
    on_verifier-IsFinal (some v) code tab =
        on_code_reply-IsFinal tab _ (answers (code_form env code v))

    on_state-IsFinal :
        (o : Option Text) (code : Text) (tab : Tab) → IsFinal (on_state env o code tab)
    unfolding on_state
    on_state-IsFinal none code tab = stripped-IsFinal tab
    on_state-IsFinal (some expected) code tab =
        if_both IsFinal (is_text tab.query.state expected) (on_verifier-IsFinal _ code tab)
          (stripped-IsFinal tab)

    on_code-IsFinal :
        (tab : Tab) (o : Option Text)
        → truthy tab.query.error ≡ none
        → truthy tab.query.code ≡ o
        → IsFinal (on_code env o tab)
    unfolding on_code handle_redirect_callback
    on_code-IsFinal tab none e f = record { over = rw (e, on_error_param) (rw (f, on_code)) }
    on_code-IsFinal tab (some code) e f = on_state-IsFinal _ code tab

    on_error_param-IsFinal :
        (tab : Tab) (o : Option Text)
        → truthy tab.query.error ≡ o
        → IsFinal (on_error_param env o tab)
    unfolding on_error_param
    on_error_param-IsFinal tab none e = on_code-IsFinal tab _ e refl
    on_error_param-IsFinal tab (some error) e = stripped-IsFinal tab

    -- Where the endpoint always answers, a second call of the callback finds no code in the address:
    -- it returns null and changes nothing, whatever the first call did.
    handle_redirect_callback_twice :
        (tab : Tab)
        → let after = (handle_redirect_callback env tab).1 in
          handle_redirect_callback env after ≡ (resolved none, after)
    unfolding handle_redirect_callback
    handle_redirect_callback_twice tab = (on_error_param-IsFinal tab _ refl).over
