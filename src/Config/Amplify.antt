-- ===== src/Config/Amplify.antt =====
-- What lib/stacks/amplify-stack.ts hands to the hosting of the application. The CDK creates the
-- resources.
pub mod Contract
use eks_any_model_hosting.Common.{
  Bool, false, List, [], ◌∷◌, ◌++◌, Text, codes, join, ◌==◌, if◌then◌else◌,
}
use eks_any_model_hosting.Config.Pilot.{PilotEnvironmentConfig}
use eks_any_model_hosting.Config.Pilot.Load.{resource_name}

pub record FastapiCognitoConfig : Type 0 where
  pub region : Text
  pub user_pool_id : Text
  pub app_client_id : Text
  pub issuer : Text
  pub jwks_url : Text

pub record AmplifyStackProps (Number : Type 0) : Type 0 where
  pub config : PilotEnvironmentConfig Number
  pub cognito : FastapiCognitoConfig
  pub cognito_domain : Text
  pub api_base_url : Text
  pub initial_redirect_origin : Text

-- origin.replace(/\/$/, '')
unfoldable pub without_slash : Text → Text
without_slash [] = []
without_slash (c ∷ []) = if c == b'/' then [] else c ∷ []
without_slash (c ∷ d ∷ s) = c ∷ without_slash (d ∷ s)

unfoldable pub redirect_of : Text → Text
unfolding without_slash
redirect_of origin = without_slash origin ++ codes "/"

abbrev pub build_spec : Text
build_spec = join (codes "\n") (
    codes "version: 1"
    ∷ codes "applications:"
    ∷ codes "  - appRoot: spa"
    ∷ codes "    frontend:"
    ∷ codes "      phases:"
    ∷ codes "        preBuild:"
    ∷ codes "          commands:"
    ∷ codes "            - npm ci"
    ∷ codes "        build:"
    ∷ codes "          commands:"
    ∷ codes "            - npm run build"
    ∷ codes "      artifacts:"
    ∷ codes "        baseDirectory: dist"
    ∷ codes "        files:"
    ∷ codes "          - '**/*'"
    ∷ codes "      cache:"
    ∷ codes "        paths:"
    ∷ codes "          - node_modules/**/*"
    ∷ [])

pub record CustomRule : Type 0 where
  pub source : Text
  pub target : Text
  pub status : Text

-- The properties of the CfnApp.
pub record SpaApp : Type 0 where
  pub name : Text
  pub platform : Text
  pub build_spec : Text
  pub custom_rules : List CustomRule
  pub environment_variables : List (Text × Text)

-- What the pages of the application answer that are no files.
abbrev custom_rules : List CustomRule
custom_rules =
    record {
      source =
          codes
            "</^[^.]+$|\\.(?!(css|gif|ico|jpg|js|png|txt|svg|woff|woff2|ttf|map|json)$)([^.]+$)/>";
      target = codes "/index.html";
      status = codes "200";
    }
    ∷ []

-- The properties of the CfnBranch.
pub record MainBranch : Type 0 where
  pub app_id : Text
  pub branch_name : Text
  pub enable_auto_build : Bool
  pub stage : Text

abbrev pub branch_name : Text
branch_name = codes "main"

abbrev pub main_branch : Text → MainBranch
main_branch app_id = record {
  app_id = app_id;
  branch_name = branch_name;
  enable_auto_build = false;
  stage = codes "PRODUCTION";
}

module _ {Number : Type 0} where
  abbrev pub variables_of : AmplifyStackProps Number → List (Text × Text)
  variables_of props =
      let redirect = redirect_of props.initial_redirect_origin in
      (codes "VITE_AWS_REGION", props.cognito.region)
      ∷ (codes "VITE_COGNITO_USER_POOL_ID", props.cognito.user_pool_id)
      ∷ (codes "VITE_COGNITO_APP_CLIENT_ID", props.cognito.app_client_id)
      ∷ (codes "VITE_COGNITO_DOMAIN", props.cognito_domain)
      ∷ (codes "VITE_COGNITO_REDIRECT_SIGN_IN", redirect)
      ∷ (codes "VITE_COGNITO_REDIRECT_SIGN_OUT", redirect)
      ∷ (codes "VITE_API_BASE_URL", props.api_base_url)
      ∷ (codes "VITE_MODEL_NAME", props.config.served_model_name)
      ∷ []

  unfoldable pub spa_app : AmplifyStackProps Number → SpaApp
  unfolding redirect_of resource_name
  spa_app props = record {
    name = resource_name props.config (codes "spa");
    platform = codes "WEB";
    build_spec = build_spec;
    custom_rules = custom_rules;
    environment_variables = variables_of props;
  }
