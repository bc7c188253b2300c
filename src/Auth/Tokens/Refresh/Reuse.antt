-- ===== src/Auth/Tokens/Refresh/Reuse.antt =====
-- A refreshed session is stored so that it is loaded again, and serves until a minute before it
-- expires.
use eks_any_model_hosting.Common.{
  ◌+◌, ◌*◌, ◌<◌, ◌≡◌, ap, ◌∙◌, false, Option, some, Text, is_nil, arith,
}
use eks_any_model_hosting.Auth.Tokens.{
  StoredTokens, CognitoTokenResponse, Tab, to_stored_tokens, is_expiring_soon, Cognito, load_tokens,
  save_tokens,
}
use eks_any_model_hosting.Auth.Tokens.Refresh.{get_valid_access_token, valid_access_token}

-- JSON.parse, when the tokens are read, reads back what JSON.stringify wrote, which is not empty.
pub record IsStorable (saving reading : Cognito) (t : StoredTokens) : Type 0 where
  pub parsed : reading.parse (saving.stringify t) ≡ some t
  pub full : is_nil (saving.stringify t) ≡ false

pub load_tokens-save_tokens :
    (saving reading : Cognito) (t : StoredTokens) (tab : Tab)
    → IsStorable saving reading t
    → load_tokens reading (save_tokens saving t tab) ≡ some t
unfolding load_tokens save_tokens
load_tokens-save_tokens saving reading t tab s = rw (s.full, load_tokens) s.parsed

valid_access_token-early :
    (env : Cognito) (t : StoredTokens) (tab : Tab)
    → env.now + 60 * 1000 < t.expires_at
    → valid_access_token env (some t) tab ≡ (some t.access_token, tab)
unfolding valid_access_token is_expiring_soon
valid_access_token-early env t tab early =
    let fresh : is_expiring_soon env.now t ≡ false = ground arith in rw fresh

-- Tokens that a response brought and that were saved in any tab are handed out again, without the
-- endpoint, at every time up to a minute before the response's lifetime has passed.
pub get_valid_access_token-save_tokens :
    (saving reading : Cognito) (json : CognitoTokenResponse) (previous : Option Text) (tab : Tab)
    → IsStorable saving reading (to_stored_tokens saving.later json previous)
    → reading.now + 60 * 1000 < saving.later + json.expires_in * 1000
    → get_valid_access_token reading
        (save_tokens saving (to_stored_tokens saving.later json previous) tab)
      ≡ (
        some json.access_token,
        save_tokens saving (to_stored_tokens saving.later json previous) tab,
      )
unfolding get_valid_access_token to_stored_tokens
get_valid_access_token-save_tokens saving reading json previous tab s early =
    let t = to_stored_tokens saving.later json previous in
    let stored = save_tokens saving t tab in
    ap (λ loaded. valid_access_token reading loaded stored)
      (load_tokens-save_tokens saving reading t tab s)
    ∙ valid_access_token-early reading t stored early
