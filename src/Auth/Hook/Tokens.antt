-- ===== src/Auth/Hook/Tokens.antt =====
-- `getAccessToken` of the hook.
use eks_any_model_hosting.Common.{◌≡◌, refl, false, [], ◌∷◌, Option, none, some, Text}
use eks_any_model_hosting.Auth.Tokens.{Cognito, truthy, load_tokens, clear_tokens, Tab}
use eks_any_model_hosting.Auth.Tokens.Refresh.{get_valid_access_token}
use eks_any_model_hosting.Auth.Tokens.Refresh.Valid.{Access, get_valid_access_token-Access}
use eks_any_model_hosting.Auth.Hook.{Hook, on_token, get_access_token}

module _ (env : Cognito) (h : Hook) where
  -- The ends of `getAccessToken`.
  pub data Answered : Option Text × Hook → Type 0 where
    handed_out :
        {t : Text} {tab : Tab}
        → truthy (some t) ≡ some t
        → Access env h.tab (load_tokens env h.tab) (some t, tab)
        → Answered (some t, record h { tab = tab })
    signed_off :
        {token : Option Text} {tab : Tab}
        → truthy token ≡ none
        → Access env h.tab (load_tokens env h.tab) (token, tab)
        → Answered (
          token,
          record h {
            is_authenticated = false;
            user = none;
            tab = record tab {
              storage = record { pkce_verifier = none; oauth_state = none; tokens = none };
            };
          },
        )

  on_token-Answered :
      (token : Option Text) (tab : Tab)
      → Access env h.tab (load_tokens env h.tab) (token, tab)
      → Answered (on_token token (record h { tab = tab }))
  unfolding on_token clear_tokens
  on_token-Answered none tab a = signed_off refl a
  on_token-Answered (some []) tab a = signed_off refl a
  on_token-Answered (some (c ∷ t)) tab a = handed_out refl a

  -- The hook's `getAccessToken` hands out a token that is not empty exactly as the Cognito client
  -- gives it, and the hook then shows what it showed. In every other case nobody is signed in any
  -- more, and the session storage is empty.
  pub get_access_token-Answered : Answered (get_access_token env h)
  unfolding get_access_token
  get_access_token-Answered =
      let (token, tab) = get_valid_access_token env h.tab in
      on_token-Answered token tab (get_valid_access_token-Access env h.tab)
