-- ===== src/Service/Auth.antt =====
-- The identity checks of services/api/app/auth.py. The keys of the JWKS and the checks of PyJWT are a
-- parameter; the cache of JWKS clients and the metrics are left out.
pub mod Granted
pub mod Deployed
use eks_any_model_hosting.Common.{
  Bool, true, false, Option, none, some, [], ◌∷◌, Text, codes, text_eq, is_nil, if◌then◌else◌,
}
use eks_any_model_hosting.Json.{Json, str, null, Fields, end, field, find}
use eks_any_model_hosting.Service.Settings.{Settings, issuer, jwks_url}

-- get_signing_key_from_jwt: a key, or one of the two exceptions that are told apart.
pub data SigningKey : Type 0 where
  signing_key : Text → SigningKey
  jwks_client_error : SigningKey
  decode_error : SigningKey

-- jwt.decode: the claims, or the exception.
pub data Decoded : Type 0 where
  claims : Fields → Decoded
  expired_signature invalid_issuer invalid_token : Decoded

-- PyJWT. A key is fetched from a JWKS URL for a token; a token is decoded with a key for an issuer,
-- by RS256 alone, without its audience, and with `exp` and `iss` required.
pub record Jwt : Type 0 where
  pub get_signing_key : Text → Text → SigningKey
  pub decode : Text → Text → Text → Decoded

pub record Principal : Type 0 where
  pub sub : Json
  pub token_use : Json
  pub client_id : Json
  pub scope : Option Json
  pub username : Option Json
  pub claims : Fields

-- A principal, or an AuthError with its reason and message.
pub data Verdict : Type 0 where
  granted : Principal → Verdict
  denied : Text → Text → Verdict

-- claims.get(k) == text
abbrev pub is_text : Option Json → Text → Bool
is_text (some (str s)) text = text_eq s text
is_text _ text = false

abbrev pub or_empty : Option Json → Json
or_empty none = str []
or_empty (some v) = v

-- Behind the checks of `token_use` and `client_id`, which are these texts.
abbrev pub principal_of : Text → Fields → Principal
principal_of client_id fs = record {
  sub = or_empty (find (codes "sub") fs);
  token_use = str (codes "access");
  client_id = str client_id;
  scope = find (codes "scope") fs;
  username = find (codes "username") fs;
  claims = fs;
}

unfoldable pub synthetic_principal : Principal
synthetic_principal = record {
  sub = str (codes "dev-user");
  token_use = str (codes "access");
  client_id = str (codes "dev-client");
  scope = some (str (codes "openid"));
  username = some (str (codes "dev"));
  claims =
      field (codes "sub") (str (codes "dev-user"))
        (field (codes "token_use") (str (codes "access")) end);
}

module _ (s : Settings) where
  unfoldable pub check_claims : Fields → Verdict
  unfolding find text_eq
  check_claims fs =
      if is_text (find (codes "token_use") fs) (codes "access")
      then if is_text (find (codes "client_id") fs) s.cognito_app_client_id
        then granted (principal_of s.cognito_app_client_id fs)
        else denied (codes "client_id") (codes "Token was not issued for this client")
      else denied (codes "token_use") (codes "Expected an access token")

  abbrev pub on_decoded : Decoded → Verdict
  on_decoded (claims fs) = check_claims fs
  on_decoded expired_signature = denied (codes "expired") (codes "Token expired")
  on_decoded invalid_issuer = denied (codes "issuer") (codes "Invalid issuer")
  on_decoded invalid_token = denied (codes "invalid") (codes "Invalid token")

  module _ (jwt : Jwt) where
    abbrev pub on_key : Text → SigningKey → Verdict
    on_key token (signing_key key) = on_decoded (jwt.decode token key (issuer s))
    on_key token jwks_client_error =
        denied (codes "jwks_error") (codes "Unable to resolve signing key")
    on_key token decode_error = denied (codes "malformed") (codes "Malformed token")

    unfoldable pub validate_token : Text → Verdict
    unfolding issuer jwks_url check_claims
    validate_token token = on_key token (jwt.get_signing_key (jwks_url s) token)

    abbrev pub on_credentials : Option Text → Verdict
    on_credentials none = denied (codes "missing") (codes "Missing bearer token")
    on_credentials (some []) = denied (codes "missing") (codes "Missing bearer token")
    on_credentials (some (c ∷ token)) = validate_token (c ∷ token)

    -- The dependency, with the bearer token of the request.
    unfoldable pub require_auth : Option Text → Verdict
    unfolding synthetic_principal validate_token
    require_auth credentials =
        if s.auth_disabled then granted synthetic_principal else on_credentials credentials
