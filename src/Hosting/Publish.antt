-- ===== src/Hosting/Publish.antt =====
-- How scripts/deploy-spa.sh reads the stacks' outputs and what it builds the application with.
-- CloudFormation describes the outputs by their logical ids: those of a stack itself are their
-- construct ids, those of a nested construct are a parameter.
pub mod Deployment
use eks_any_model_hosting.Common.{
  Bool, true, false, ◌||◌, not, List, [], ◌∷◌, ◌++◌, map, Option, none, some, ◌>>=◌, Text, codes,
  text_eq, is_nil, starts_with, if◌then◌else◌,
}

-- contains(OutputKey, '…')
unfoldable pub contains : Text → Text → Bool
unfolding starts_with
contains part [] = is_nil part
contains part (c ∷ s) =
    let later = contains part s in if starts_with part (c ∷ s) then true else later

-- The first output whose key contains the text; `none` is the script's `None`.
unfoldable pub out : List (Text × Text) → Text → Option Text
unfolding contains
out [] part = none
out ((key, value) ∷ outputs) part =
    let rest = out outputs part in if contains part key then some value else rest

-- The values of the loop that stops the script, where one is empty or `None`.
abbrev pub required : Option Text → Option Text
required none = none
required (some v) = if is_nil v || text_eq v (codes "None") then none else some v

abbrev pub as_printed : Option Text → Text
as_printed none = codes "None"
as_printed (some v) = v

-- The outputs of the three stacks that the script reads.
pub record Described : Type 0 where
  pub amplify : List (Text × Text)
  pub eks : List (Text × Text)
  pub auth : List (Text × Text)

-- The variables of the build, or `none` where the script stops for an output that is missing.
unfoldable pub published : Text → Described → Option (List (Text × Text))
unfolding out text_eq
published region described = do
  app_id ← required (out described.amplify (codes "AmplifyAppId"))
  api_base_url ← required (out described.eks (codes "ApiBaseUrl"))
  user_pool_id ← required (out described.auth (codes "CognitoUserPoolId"))
  app_client_id ← required (out described.auth (codes "CognitoAppClientId"))
  cognito_domain ← required (out described.auth (codes "CognitoDomain"))
  let redirect = as_printed (out described.amplify (codes "AmplifyBranchUrl")) ++ codes "/"
  some (
      (codes "VITE_AWS_REGION", region)
      ∷ (codes "VITE_COGNITO_USER_POOL_ID", user_pool_id)
      ∷ (codes "VITE_COGNITO_APP_CLIENT_ID", app_client_id)
      ∷ (codes "VITE_COGNITO_DOMAIN", cognito_domain)
      ∷ (codes "VITE_COGNITO_REDIRECT_SIGN_IN", redirect)
      ∷ (codes "VITE_COGNITO_REDIRECT_SIGN_OUT", redirect)
      ∷ (codes "VITE_API_BASE_URL", api_base_url)
      ∷ (codes "VITE_MODEL_NAME", as_printed (out described.eks (codes "ServedModelName")))
      ∷ [])
