-- ===== src/Tests/Login.antt =====
-- Runs of the login: PKCE material, the redirect's callback and the refresh of tokens.
use eks_any_model_hosting.Common.{
  ℕ, ◌+◌, ◌-◌, ◌*◌, ◌/◌, ◌%◌, ◌≡◌, ◌≢◌, refl, [], ◌∷◌, Option, none, some, Text, codes, text_eq,
  All, length, take, arith, if◌then◌else◌, ltb, ◌==◌,
}
use eks_any_model_hosting.Sse.{Thrown}
use eks_any_model_hosting.Auth.Pkce.{
  base64_url_encode, generate_code_verifier, generate_code_challenge, generate_state,
}
use eks_any_model_hosting.Auth.Pkce.Alphabet.{IsBtoa, IsUrlSafe, base64_url_encode-IsUrlSafe}
use eks_any_model_hosting.Auth.Tokens.{
  StoredTokens, CognitoTokenResponse, Tab, granted, lost, TokenForm, Cognito, load_tokens,
  save_tokens, to_stored_tokens, is_expiring_soon,
}
use eks_any_model_hosting.Auth.Tokens.Refresh.{get_valid_access_token, refresh_tokens}
use eks_any_model_hosting.Auth.Tokens.Refresh.Valid.{Access, get_valid_access_token-Access}
use eks_any_model_hosting.Auth.Tokens.Refresh.Reuse.{IsStorable, get_valid_access_token-save_tokens}
use eks_any_model_hosting.Auth.Callback.{
  authorize_url, login_redirect, code_form, on_code_reply, handle_redirect_callback,
}
use eks_any_model_hosting.Auth.Callback.Exchange.{
  HasCallbackResult, handle_redirect_callback-HasCallbackResult,
}
use eks_any_model_hosting.Auth.Callback.RoundTrip.{
  redirected, handle_redirect_callback-login_redirect,
}

-- Base64 of a binary string.
abbrev digit : ℕ → ℕ
digit n =
    if ltb n 26
    then n + b'A'
    else if ltb n 52
    then n - 26 + b'a'
    else if ltb n 62
    then n - 52 + b'0'
    else if n == 62
    then b'+'
    else b'/'

abbrev pub base64 : Text → Text
base64 [] = []
base64 (a ∷ []) = digit (a / 4) ∷ digit (a % 4 * 16) ∷ codes "=="
base64 (a ∷ b ∷ []) = digit (a / 4) ∷ digit (a % 4 * 16 + b / 16) ∷ digit (b % 16 * 4) ∷ codes "="
base64 (a ∷ b ∷ c ∷ s) =
    digit (a / 4)
    ∷ digit (a % 4 * 16 + b / 16)
    ∷ digit (b % 16 * 4 + c / 64)
    ∷ digit (c % 64)
    ∷ base64 s

base64_test : base64 (codes "Pilot?>") ≡ codes "UGlsb3Q/Pg=="
base64_test = refl

abbrev pub state_bytes : Text
state_bytes = codes "sixteen?>> bytes"

abbrev pub verifier_bytes : Text
verifier_bytes = codes "thirty-two bytes of entropy? >>>"

pub state_IsBtoa : IsBtoa base64 state_bytes
state_IsBtoa = record {
  digits = take 22 (base64 state_bytes);
  padding = 2;
  encoded = refl;
  alphabet = omega arith;
  count = refl;
  whole = refl;
  short = omega arith;
}

pub verifier_IsBtoa : IsBtoa base64 verifier_bytes
verifier_IsBtoa = record {
  digits = take 43 (base64 verifier_bytes);
  padding = 1;
  encoded = refl;
  alphabet = omega arith;
  count = refl;
  whole = refl;
  short = omega arith;
}

base64_url_encode-IsUrlSafe_example :
    All IsUrlSafe (base64_url_encode base64 verifier_bytes)
    × (length (base64_url_encode base64 verifier_bytes) ≡ (4 * length verifier_bytes + 2) / 3)
base64_url_encode-IsUrlSafe_example =
    base64_url_encode-IsUrlSafe base64 verifier_bytes verifier_IsBtoa

verifier_length : length (generate_code_verifier base64 verifier_bytes) ≡ 43
unfolding generate_code_verifier
verifier_length = refl

abbrev pub response : CognitoTokenResponse
response = record {
  access_token = codes "new-at";
  id_token = codes "new-id";
  refresh_token = none;
  expires_in = 3600;
  token_type = none;
}

abbrev old_tokens : StoredTokens
old_tokens = record {
  access_token = codes "old-at";
  id_token = codes "old-id";
  refresh_token = some (codes "rt");
  expires_at = 100000;
  token_type = codes "Bearer";
}

abbrev new_tokens : StoredTokens
new_tokens = record {
  access_token = codes "new-at";
  id_token = codes "new-id";
  refresh_token = some (codes "rt");
  expires_at = 3650000;
  token_type = codes "Bearer";
}

-- A stringifier of two values by their access tokens, and its inverse.
abbrev parse_two : Text → Option StoredTokens
parse_two t =
    if text_eq t (codes "old-at")
    then some old_tokens
    else if text_eq t (codes "new-at")
    then some new_tokens
    else none

abbrev pub env : Cognito
env = record {
  client_id = codes "client";
  domain = codes "https://login";
  redirect_sign_in = codes "https://app/";
  redirect_sign_out = codes "https://app/";
  stringify = λ t. t.access_token;
  parse = parse_two;
  encode_form = λ form. codes "form";
  show = λ n. codes "400";
  now = 50000;
  later = 50000;
  token_endpoint = λ form. granted response;
}

abbrev pub tab : Tab
tab = record {
  storage = record {
    pkce_verifier = some (codes "verifier");
    oauth_state = some (codes "state");
    tokens = some (codes "old-at");
  };
  query = record {
    code = some (codes "code");
    state = some (codes "state");
    error = none;
    error_description = none;
  };
  assigned = [];
}

get_valid_access_token-Access_example :
    Access env tab (load_tokens env tab) (get_valid_access_token env tab)
get_valid_access_token-Access_example = get_valid_access_token-Access env tab

refresh_test : (get_valid_access_token env tab).0 ≡ some (codes "new-at")
unfolding get_valid_access_token load_tokens text_eq is_expiring_soon refresh_tokens
    to_stored_tokens
refresh_test = refl

new_IsStorable : IsStorable env env (to_stored_tokens env.later response (some (codes "rt")))
unfolding to_stored_tokens text_eq
new_IsStorable = record { parsed = refl; full = refl }

get_valid_access_token-save_tokens_example :
    get_valid_access_token env
      (save_tokens env (to_stored_tokens env.later response (some (codes "rt"))) tab)
    ≡ (
      some (codes "new-at"),
      save_tokens env (to_stored_tokens env.later response (some (codes "rt"))) tab,
    )
get_valid_access_token-save_tokens_example =
    get_valid_access_token-save_tokens env env response (some (codes "rt")) tab new_IsStorable
      (omega arith)

handle_redirect_callback-HasCallbackResult_example :
    HasCallbackResult env tab (handle_redirect_callback env tab)
handle_redirect_callback-HasCallbackResult_example =
    handle_redirect_callback-HasCallbackResult env tab

endpoint_answers : (form : TokenForm) (e : Thrown) → env.token_endpoint form ≢ lost e
endpoint_answers form e h = cc

abbrev pub sha256 : Text → Text
sha256 t = verifier_bytes

handle_redirect_callback-login_redirect_example :
    ((login_redirect env base64 sha256 verifier_bytes state_bytes tab).assigned
      ≡ authorize_url env
          (generate_state base64 state_bytes)
          (generate_code_challenge base64 sha256 (generate_code_verifier base64 verifier_bytes))
        ∷ [])
    × (handle_redirect_callback env (
          redirected
            (codes "code")
            (generate_state base64 state_bytes)
            (login_redirect env base64 sha256 verifier_bytes state_bytes tab))
        ≡ on_code_reply env
            (env.token_endpoint
              (code_form env (codes "code") (generate_code_verifier base64 verifier_bytes)))
            (redirected
              (codes "code")
              (generate_state base64 state_bytes)
              (login_redirect env base64 sha256 verifier_bytes state_bytes tab)))
handle_redirect_callback-login_redirect_example =
    handle_redirect_callback-login_redirect env base64 sha256 verifier_bytes state_bytes tab
      (codes "code") refl verifier_IsBtoa state_IsBtoa refl refl
