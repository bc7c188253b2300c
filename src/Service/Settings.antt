-- ===== src/Service/Settings.antt =====
-- The settings of services/api/app/config.py that the API service's identity checks and its CORS
-- read, from the environment of its container. The parsing of a Boolean is a parameter; `none` is the
-- ValidationError of pydantic.
use eks_any_model_hosting.Common.{
  Bool, false, List, [], ◌∷◌, ◌++◌, Option, none, some, ◌>>=◌, Text, codes, text_eq, is_nil, split,
  if◌then◌else◌,
}
use eks_any_model_hosting.Service.Inference.Chunks.{strip}

pub record Settings : Type 0 where
  pub cognito_region : Text
  pub cognito_user_pool_id : Text
  pub cognito_app_client_id : Text
  pub cognito_issuer : Text
  pub cognito_jwks_url : Text
  pub auth_disabled : Bool
  pub cors_allow_origins : Text

-- A variable of the environment.
unfoldable pub variable : Text → List (Text × Text) → Option Text
unfolding text_eq
variable name [] = none
variable name ((n, v) ∷ env) =
    let rest = variable name env in if text_eq n name then some v else rest

abbrev pub or_default : Text → Option Text → Text
or_default fallback none = fallback
or_default fallback (some v) = v

abbrev pub bool_or_false : (Text → Option Bool) → Option Text → Option Bool
bool_or_false parse_bool none = some false
bool_or_false parse_bool (some v) = parse_bool v

unfoldable pub settings_of : (Text → Option Bool) → List (Text × Text) → Option Settings
unfolding variable
settings_of parse_bool env = do
  auth_disabled ← bool_or_false parse_bool (variable (codes "AUTH_DISABLED") env)
  some (record {
    cognito_region = or_default (codes "us-east-1") (variable (codes "COGNITO_REGION") env);
    cognito_user_pool_id =
        or_default (codes "us-east-1_example") (variable (codes "COGNITO_USER_POOL_ID") env);
    cognito_app_client_id =
        or_default (codes "example-client-id") (variable (codes "COGNITO_APP_CLIENT_ID") env);
    cognito_issuer = or_default [] (variable (codes "COGNITO_ISSUER") env);
    cognito_jwks_url = or_default [] (variable (codes "COGNITO_JWKS_URL") env);
    auth_disabled = auth_disabled;
    cors_allow_origins = or_default [] (variable (codes "CORS_ALLOW_ORIGINS") env);
  })

unfoldable pub issuer : Settings → Text
issuer s =
    if is_nil s.cognito_issuer
    then codes "https://cognito-idp."
      ++ (s.cognito_region ++ (codes ".amazonaws.com/" ++ s.cognito_user_pool_id))
    else s.cognito_issuer

unfoldable pub jwks_url : Settings → Text
unfolding issuer
jwks_url s =
    if is_nil s.cognito_jwks_url
    then issuer s ++ codes "/.well-known/jwks.json"
    else s.cognito_jwks_url

-- The stripped parts that are not empty.
unfoldable pub stripped_parts : List Text → List Text
unfolding strip
stripped_parts [] = []
stripped_parts (o ∷ parts) =
    let rest = stripped_parts parts in if is_nil (strip o) then rest else strip o ∷ rest

unfoldable pub cors_origins : Settings → List Text
unfolding strip split stripped_parts
cors_origins s =
    if is_nil (strip s.cors_allow_origins)
    then []
    else stripped_parts (split b',' s.cors_allow_origins)
