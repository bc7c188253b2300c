-- ===== src/Cluster/Edge.antt =====
-- The private path and the public edge of lib/stacks/workload-stack.ts. The CDK creates the
-- resources. `new URL` is the parameter `parse_url`, with the protocol and the host of the result;
-- `none` is its exception.
pub mod Served
pub mod Hops
use eks_any_model_hosting.Common.{
  ℕ, true, false, Bool, List, [], ◌∷◌, ◌++◌, Option, none, some, Text, codes,
}
use mathlib.Core.Option
use eks_any_model_hosting.Config.Pilot.{PilotEnvironmentConfig}
use eks_any_model_hosting.Config.Pilot.Load.{resource_name, or_default}
use eks_any_model_hosting.Config.Amplify.{FastapiCognitoConfig, without_slash}
use eks_any_model_hosting.Cluster.Api.{
  IngressRule, TargetGroup, Listener, TargetGroupBinding, Route, Authorizer, Cors, Stage, Edge,
}
use eks_any_model_hosting.Cluster.Names.{app_namespace}
use eks_any_model_hosting.Cluster.Vllm.{vllm_internal_url}
use eks_any_model_hosting.Cluster.Fastapi.{
  FastapiWorkloadProps, fastapi_service_name, fastapi_service_port, fastapi_container_port,
}

-- The same function stands in lib/application-stage.ts.
unfoldable pub origin_of : (Text → Option (Text × Text)) → Text → Text
unfolding without_slash
origin_of parse_url url = elim (parse_url url) [
  | none ↦ without_slash url
  | some (protocol, host) ↦ protocol ++ (codes "//" ++ host)
]

-- `urls[0]`; `none` is `undefined`, with which the source's `originOf` throws.
abbrev pub first_url : List Text → Option Text
first_url [] = none
first_url (url ∷ urls) = some url

abbrev pub app_routes : List Route
app_routes =
    record { method = codes "POST"; path = codes "/api/v1/chat/completions"; authorized = true }
    ∷ record { method = codes "GET"; path = codes "/api/v1/models"; authorized = true }
    ∷ record { method = codes "GET"; path = codes "/api/v1/me"; authorized = true }
    ∷ record {
      method = codes "GET";
      path = codes "/api/v1/sessions/{session_id}";
      authorized = true;
    }
    ∷ record {
      method = codes "DELETE";
      path = codes "/api/v1/sessions/{session_id}";
      authorized = true;
    }
    ∷ []

abbrev pub health_routes : List Route
health_routes =
    record { method = codes "GET"; path = codes "/health/live"; authorized = false }
    ∷ record { method = codes "GET"; path = codes "/health/ready"; authorized = false }
    ∷ []

abbrev pub access_log_format : List (Text × Text)
access_log_format =
    (codes "requestId", codes "$context.requestId")
    ∷ (codes "ip", codes "$context.identity.sourceIp")
    ∷ (codes "requestTime", codes "$context.requestTime")
    ∷ (codes "httpMethod", codes "$context.httpMethod")
    ∷ (codes "routeKey", codes "$context.routeKey")
    ∷ (codes "status", codes "$context.status")
    ∷ (codes "protocol", codes "$context.protocol")
    ∷ (codes "responseLength", codes "$context.responseLength")
    ∷ (codes "integrationLatency", codes "$context.integrationLatency")
    ∷ (codes "authError", codes "$context.authorizer.error")
    ∷ []

abbrev pub cors_of : Text → Cors
cors_of spa_origin = record {
  origins = spa_origin ∷ [];
  headers = codes "Authorization" ∷ codes "Content-Type" ∷ codes "X-Request-ID" ∷ [];
  methods = codes "GET" ∷ codes "POST" ∷ codes "DELETE" ∷ codes "OPTIONS" ∷ [];
  max_age_hours = 1;
}

-- The security groups of the load balancer, of the VPC link and of the cluster.
abbrev pub ingress_rules : List IngressRule
ingress_rules =
    record {
      group = codes "cluster";
      source = codes "InternalAlbSg";
      protocol = codes "tcp";
      port = fastapi_container_port;
    }
    ∷ record {
      group = codes "InternalAlbSg";
      source = codes "VpcLinkSg";
      protocol = codes "tcp";
      port = 80;
    }
    ∷ []

abbrev pub default_stage : Stage
default_stage = record {
  name = codes "$default";
  auto_deploy = true;
  rate_limit = 5;
  burst_limit = 10;
  log_format = access_log_format;
}

abbrev pub image_uri_of : Text → Option Text → Text
image_uri_of repository_uri api_image_tag =
    repository_uri ++ (codes ":" ++ or_default api_image_tag (codes "latest"))

-- The workload gets the model's address and the page's origin.
abbrev pub fastapi_props :
    {Number : Type 0}
    → PilotEnvironmentConfig Number
    → FastapiCognitoConfig
    → Text
    → Text
    → FastapiWorkloadProps Number
fastapi_props config cognito image_uri spa_origin = record {
  config = config;
  image_uri = image_uri;
  cognito = cognito;
  vllm_base_url = vllm_internal_url;
  cors_allow_origin = spa_origin;
}

module _ {Number : Type 0} where
  unfoldable pub edge_of :
      PilotEnvironmentConfig Number → FastapiCognitoConfig → Text → Option Text → Text → Edge
  unfolding resource_name
  edge_of config cognito repository_uri api_image_tag spa_origin = record {
    image_uri = image_uri_of repository_uri api_image_tag;
    alb_name = resource_name config (codes "api-alb");
    internet_facing = false;
    listener = record {
      port = 80;
      protocol = codes "HTTP";
      targets = record {
        name = resource_name config (codes "api-tg");
        port = fastapi_container_port;
        protocol = codes "HTTP";
        target_type = codes "ip";
        health_path = codes "/health/ready";
        healthy_codes = codes "200";
        interval_seconds = 15;
        timeout_seconds = 5;
        deregistration_seconds = 10;
      };
    };
    ingress = ingress_rules;
    binding = record {
      name = codes "fastapi";
      namespace = app_namespace;
      service_name = fastapi_service_name;
      service_port = fastapi_service_port;
      target_type = codes "ip";
    };
    vpc_link_name = resource_name config (codes "vpc-link");
    integration_timeout_seconds = 29;
    authorizer = record {
      name = resource_name config (codes "cognito-jwt");
      issuer = cognito.issuer;
      audience = cognito.app_client_id ∷ [];
      identity_source = codes "$request.header.Authorization" ∷ [];
    };
    api_name = resource_name config (codes "api");
    create_default_stage = false;
    cors = cors_of spa_origin;
    routes = app_routes ++ health_routes;
    stage = default_stage;
  }

  -- On the origin of the first callback URL; `none` is the TypeError where there is none.
  unfoldable pub workloads_edge :
      (Text → Option (Text × Text))
      → PilotEnvironmentConfig Number
      → FastapiCognitoConfig
      → Text
      → Option Text
      → Option Edge
  unfolding origin_of edge_of
  workloads_edge parse_url config cognito repository_uri api_image_tag =
      Option.map
        (λ url. edge_of config cognito repository_uri api_image_tag (origin_of parse_url url))
        (first_url config.cognito_callback_urls)

-- `stage.url` without the slash at its end.
unfoldable pub api_base_url_of : Text → Text
unfolding without_slash
api_base_url_of stage_url = without_slash stage_url
