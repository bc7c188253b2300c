-- ===== src/Config/Spa.antt =====
-- spa/src/config.ts. `import.meta.env` is the parameter `env`; `none` stands for a value that is
-- missing or no string.
pub mod Load
use eks_any_model_hosting.Common.{
  Bool, List, [], ◌∷◌, ◌++◌, Option, none, some, Text, codes, trim, join, is_nil, ◌&&◌, ◌==◌,
  if◌then◌else◌,
}

pub record AppConfig : Type 0 where
  pub aws_region : Text
  pub cognito_user_pool_id : Text
  pub cognito_app_client_id : Text
  pub cognito_domain : Text
  pub redirect_sign_in : Text
  pub redirect_sign_out : Text
  pub api_base_url : Text
  pub model_name : Text

-- value.replace(/\/+$/, '')
unfoldable pub strip_trailing_slash : Text → Text
strip_trailing_slash [] = []
strip_trailing_slash (c ∷ s) =
    let rest = strip_trailing_slash s in if c == b'/' && is_nil rest then [] else c ∷ rest

abbrev pub required_vars : List Text
required_vars =
    codes "VITE_AWS_REGION"
    ∷ codes "VITE_COGNITO_USER_POOL_ID"
    ∷ codes "VITE_COGNITO_APP_CLIENT_ID"
    ∷ codes "VITE_COGNITO_DOMAIN"
    ∷ codes "VITE_COGNITO_REDIRECT_SIGN_IN"
    ∷ codes "VITE_COGNITO_REDIRECT_SIGN_OUT"
    ∷ codes "VITE_API_BASE_URL"
    ∷ codes "VITE_MODEL_NAME"
    ∷ []

-- The exception by its message, or the configuration.
pub data Loaded : Type 0 where
  failed : Text → Loaded
  loaded : AppConfig → Loaded

abbrev pub missing_message : List Text → Text
missing_message missing =
    codes "Missing required environment variables: "
    ++ (join (codes ", ") missing ++ codes ". Copy .env.example to .env and fill in the values.")

module _ (env : Text → Option Text) where
  abbrev pub trimmed : Option Text → Text
  trimmed none = []
  trimmed (some raw) = trim raw

  unfoldable pub read_env : Text → Text
  read_env name = trimmed (env name)

  -- names.filter((name) => readEnv(name) === '')
  unfoldable pub missing_of : List Text → List Text
  missing_of [] = []
  missing_of (name ∷ names) =
      let rest = missing_of names in if is_nil (read_env name) then name ∷ rest else rest

  unfoldable pub app_config : AppConfig
  unfolding strip_trailing_slash
  app_config = record {
    aws_region = read_env (codes "VITE_AWS_REGION");
    cognito_user_pool_id = read_env (codes "VITE_COGNITO_USER_POOL_ID");
    cognito_app_client_id = read_env (codes "VITE_COGNITO_APP_CLIENT_ID");
    cognito_domain = strip_trailing_slash (read_env (codes "VITE_COGNITO_DOMAIN"));
    redirect_sign_in = read_env (codes "VITE_COGNITO_REDIRECT_SIGN_IN");
    redirect_sign_out = read_env (codes "VITE_COGNITO_REDIRECT_SIGN_OUT");
    api_base_url = strip_trailing_slash (read_env (codes "VITE_API_BASE_URL"));
    model_name = read_env (codes "VITE_MODEL_NAME");
  }

  abbrev pub on_missing : List Text → Loaded
  on_missing [] = loaded app_config
  on_missing (name ∷ names) = failed (missing_message (name ∷ names))

  unfoldable pub load_config : Loaded
  unfolding missing_of app_config
  load_config = on_missing (missing_of required_vars)
