-- ===== src/Tests/Page.antt =====
-- Runs of the page: the display claims and the hook.
use eks_any_model_hosting.Common.{
  ◌≡◌, refl, [], ◌∷◌, ◌++◌, Option, none, some, Text, codes, text_eq, if◌then◌else◌, repeat,
}
use eks_any_model_hosting.Json.{Json, obj, field, end, str}
use eks_any_model_hosting.Auth.Pkce.{generate_state}
use eks_any_model_hosting.Auth.Claims.{percent_encoded}
use eks_any_model_hosting.Auth.Tokens.{Cognito, to_stored_tokens}
use eks_any_model_hosting.Auth.Tokens.Refresh.Reuse.{IsStorable}
use eks_any_model_hosting.Auth.Callback.{login_redirect, handle_redirect_callback}
use eks_any_model_hosting.Auth.Callback.RoundTrip.{redirected}
use eks_any_model_hosting.Auth.Hook.{
  mounted, effect, callback_ended, token_wanted, run_effect, settle, end_callback, claims, run,
}
use eks_any_model_hosting.Auth.Hook.StrictMode.{run-StrictMode}
use eks_any_model_hosting.Auth.Hook.Session.{Shows, end_callback-login_redirect}
use eks_any_model_hosting.Tests.Login.{
  base64, state_bytes, verifier_bytes, state_IsBtoa, verifier_IsBtoa, response, env, tab, sha256,
}

-- The bytes of a small JSON text.
abbrev claims_text : Text
claims_text = codes "{\"sub\":\"a?>\"}"

abbrev claims_json : Json
claims_json = obj (field (codes "sub") (str (codes "a?>")) end)

-- Decoders of one text each.
abbrev atob_one : Text → Option Text
atob_one s = if text_eq s (base64 claims_text) then some claims_text else none

abbrev decode_one : Text → Option Text
decode_one s = if text_eq s (percent_encoded claims_text) then some claims_text else none

abbrev parse_one : Text → Option Json
parse_one s = if text_eq s claims_text then some claims_json else none

-- The storage of one session's tokens.
abbrev page_env : Cognito
page_env = record env { parse = λ t. some (to_stored_tokens 50000 response none) }

run-StrictMode_example :
    run atob_one decode_one parse_one base64 sha256
      (effect ∷ (repeat 1 effect ++ callback_ended page_env ∷ effect ∷ token_wanted page_env ∷ []))
      (mounted tab)
    ≡ run atob_one decode_one parse_one base64 sha256 (token_wanted page_env ∷ []) (
        settle atob_one decode_one parse_one page_env
          (handle_redirect_callback page_env tab)
          (run_effect (mounted tab)))
run-StrictMode_example =
    run-StrictMode atob_one decode_one parse_one base64 sha256 page_env tab 1
      (effect ∷ token_wanted page_env ∷ [])

page_IsStorable : IsStorable page_env page_env (to_stored_tokens page_env.later response none)
unfolding to_stored_tokens
page_IsStorable = record { parsed = refl; full = refl }

end_callback-login_redirect_example :
    Shows
      (end_callback atob_one decode_one parse_one page_env (
        run_effect (
          mounted (
            redirected
              (codes "code")
              (generate_state base64 state_bytes)
              (login_redirect page_env base64 sha256 verifier_bytes state_bytes tab)))))
      (claims atob_one decode_one parse_one (to_stored_tokens page_env.later response none))
end_callback-login_redirect_example =
    end_callback-login_redirect atob_one decode_one parse_one base64 sha256 page_env tab
      verifier_bytes state_bytes (codes "code") response refl verifier_IsBtoa state_IsBtoa refl refl
      refl page_IsStorable
