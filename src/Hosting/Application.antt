-- ===== src/Hosting/Application.antt =====
-- lib/application-stage.ts: the stacks with what they hand to each other. The ids, the name of the
-- domain and the URLs that AWS assigns at the deployment are the record `Deployed`; `sha256_hex` is
-- the hexadecimal SHA-256 of a text.
pub mod SignIn
use eks_any_model_hosting.Common.{List, [], ◌∷◌, ◌++◌, Option, none, some, Text, codes, take}
use eks_any_model_hosting.Config.Pilot.{PilotEnvironmentConfig}
use eks_any_model_hosting.Config.Pilot.Load.{common_tags}
use eks_any_model_hosting.Config.Amplify.{FastapiCognitoConfig, AmplifyStackProps}
use eks_any_model_hosting.Cluster.Vllm.{vllm_internal_url}
use eks_any_model_hosting.Cluster.Fastapi.{FastapiWorkloadProps}
use eks_any_model_hosting.Cluster.Api.{Edge}
use eks_any_model_hosting.Cluster.Edge.{
  first_url, origin_of, edge_of, fastapi_props, api_base_url_of,
}
use eks_any_model_hosting.Hosting.Cognito.{
  UserPoolClient, user_pool_client, domain_prefix, issuer_url, jwks_url_of, domain_base_url,
}

pub record Deployed : Type 0 where
  pub user_pool_id : Text
  pub user_pool_client_id : Text
  pub domain_name : Text
  pub repository_uri : Text
  pub stage_url : Text

-- What the stacks make of the configuration, and hand on.
pub record Application (Number : Type 0) : Type 0 where
  pub domain_prefix : Text
  pub client : UserPoolClient
  pub fastapi : FastapiWorkloadProps Number
  pub edge : Edge
  pub amplify : AmplifyStackProps Number
  pub tags : List (Text × Text)

module _ {Number : Type 0} (config : PilotEnvironmentConfig Number) where
  -- sha256 of the account, the region and the environment, cut to eight digits.
  unfoldable pub domain_suffix : (Text → Text) → Text
  domain_suffix sha256_hex = take 8 (
      sha256_hex (
        config.account ++ (codes "-" ++ (config.region ++ (codes "-" ++ config.environment_name)))))

  abbrev pub cognito_of : Deployed → FastapiCognitoConfig
  cognito_of d = record {
    region = config.region;
    user_pool_id = d.user_pool_id;
    app_client_id = d.user_pool_client_id;
    issuer = issuer_url config.region d.user_pool_id;
    jwks_url = jwks_url_of (issuer_url config.region d.user_pool_id);
  }

  module _ (sha256_hex to_lower_case : Text → Text) (parse_url : Text → Option (Text × Text))
      (api_image_tag : Option Text) where
    -- On the origin of the first callback URL, which the workloads and the hosting both compute.
    unfoldable pub application_on : Text → Deployed → Application Number
    unfolding domain_suffix user_pool_client edge_of api_base_url_of
    application_on origin d =
        let edge = edge_of config (cognito_of d) d.repository_uri api_image_tag origin in
        record {
          domain_prefix = domain_prefix to_lower_case config (domain_suffix sha256_hex);
          client = user_pool_client config;
          fastapi = fastapi_props config (cognito_of d) edge.image_uri origin;
          edge = edge;
          amplify = record {
            config = config;
            cognito = cognito_of d;
            cognito_domain = domain_base_url config.region d.domain_name;
            api_base_url = api_base_url_of d.stage_url;
            initial_redirect_origin = origin;
          };
          tags = common_tags config;
        }

    -- `none` is the TypeError where the configuration has no callback URL.
    abbrev pub application_of : Option Text → Deployed → Option (Application Number)
    application_of none d = none
    application_of (some url) d = some (application_on (origin_of parse_url url) d)

    unfoldable pub application : Deployed → Option (Application Number)
    unfolding origin_of application_on
    application d = application_of (first_url config.cognito_callback_urls) d
