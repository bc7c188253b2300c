-- ===== src/Cluster/Fastapi.antt =====
-- The manifests of lib/constructs/fastapi-workload.ts. The CDK applies them.
use eks_any_model_hosting.Common.{ℕ, true, false, List, [], ◌∷◌, none, some, Text, codes}
use eks_any_model_hosting.Config.Pilot.{Numbers, PilotEnvironmentConfig}
use eks_any_model_hosting.Config.Amplify.{FastapiCognitoConfig}
use eks_any_model_hosting.Cluster.Names.{app_namespace}
use eks_any_model_hosting.Cluster.Workload.{Container, Deployment, ServiceAccount, Service}

abbrev pub fastapi_labels : List (Text × Text)
fastapi_labels =
    (codes "app", codes "fastapi") ∷ (codes "app.kubernetes.io/part-of", codes "llama-pilot") ∷ []

-- The public fields of the construct.
abbrev pub fastapi_service_name : Text
fastapi_service_name = codes "fastapi"

abbrev pub fastapi_service_port : ℕ
fastapi_service_port = 80

abbrev pub fastapi_container_port : ℕ
fastapi_container_port = 8080

pub record FastapiWorkloadProps (Number : Type 0) : Type 0 where
  pub config : PilotEnvironmentConfig Number
  pub image_uri : Text
  pub cognito : FastapiCognitoConfig
  pub vllm_base_url : Text
  pub cors_allow_origin : Text

abbrev pub system_prompt : Text
system_prompt =
    codes
      "You are a helpful, concise assistant hosted for an internal pilot. Answer clearly and refuse unsafe requests."

module _ {Number : Type 0} (numbers : Numbers Number) where
  -- The data of the configuration map, which the container takes as its environment.
  unfoldable pub fastapi_config : FastapiWorkloadProps Number → List (Text × Text)
  fastapi_config props =
      (codes "SYSTEM_PROMPT", system_prompt)
      ∷ (codes "COGNITO_REGION", props.cognito.region)
      ∷ (codes "COGNITO_USER_POOL_ID", props.cognito.user_pool_id)
      ∷ (codes "COGNITO_APP_CLIENT_ID", props.cognito.app_client_id)
      ∷ (codes "COGNITO_ISSUER", props.cognito.issuer)
      ∷ (codes "COGNITO_JWKS_URL", props.cognito.jwks_url)
      ∷ (codes "VLLM_BASE_URL", props.vllm_base_url)
      ∷ (codes "SERVED_MODEL_NAME", props.config.served_model_name)
      ∷ (codes "MAX_MODEL_LENGTH", numbers.show props.config.max_model_length)
      ∷ (codes "MAX_OUTPUT_TOKENS", numbers.show props.config.max_output_tokens)
      ∷ (codes "MAX_CONCURRENT_INFERENCE", codes "4")
      ∷ (codes "REQUEST_TIMEOUT_SECONDS", codes "120")
      ∷ (codes "GENERATION_TIMEOUT_SECONDS", codes "300")
      ∷ (codes "SESSION_MAX_TURNS", codes "12")
      ∷ (codes "SESSION_TTL_SECONDS", codes "1800")
      ∷ (codes "SESSION_MAX_SESSIONS", codes "1000")
      ∷ (codes "LOG_LEVEL", codes "INFO")
      ∷ (codes "LOG_PROMPTS", codes "false")
      ∷ (codes "CORS_ALLOW_ORIGINS", props.cors_allow_origin)
      ∷ []

module _ {Number : Type 0} where
  abbrev pub fastapi_container : FastapiWorkloadProps Number → Container
  fastapi_container props = record {
    name = codes "fastapi";
    image = props.image_uri;
    image_pull_policy = codes "IfNotPresent";
    command = [];
    args = [];
    container_ports = (codes "http", fastapi_container_port) ∷ [];
    env = [];
    env_from = codes "fastapi-config" ∷ [];
    limits = (codes "cpu", codes "1") ∷ (codes "memory", codes "1Gi") ∷ [];
    requests = (codes "cpu", codes "250m") ∷ (codes "memory", codes "512Mi") ∷ [];
    security = record {
      run_as_non_root = some true;
      allow_privilege_escalation = false;
      read_only_root_filesystem = true;
      dropped_capabilities = codes "ALL" ∷ [];
    };
    volume_mounts = (codes "tmp", codes "/tmp") ∷ [];
    startup_probe = record {
      path = codes "/health/live";
      port = fastapi_container_port;
      period_seconds = 3;
      timeout_seconds = none;
      failure_threshold = 20;
    };
    readiness_probe = record {
      path = codes "/health/ready";
      port = fastapi_container_port;
      period_seconds = 10;
      timeout_seconds = some 3;
      failure_threshold = 3;
    };
    liveness_probe = record {
      path = codes "/health/live";
      port = fastapi_container_port;
      period_seconds = 15;
      timeout_seconds = some 3;
      failure_threshold = 3;
    };
  }

  unfoldable pub fastapi_deployment : FastapiWorkloadProps Number → Deployment
  fastapi_deployment props = record {
    name = codes "fastapi";
    namespace = app_namespace;
    labels = fastapi_labels;
    replicas = 2;
    strategy = codes "RollingUpdate";
    max_unavailable = some 0;
    max_surge = some 1;
    match_labels = (codes "app", codes "fastapi") ∷ [];
    pod_labels = fastapi_labels;
    service_account_name = codes "fastapi";
    enable_service_links = false;
    node_selector = (codes "workload-type", codes "general") ∷ [];
    tolerations = [];
    termination_grace_period_seconds = some 30;
    pod_anti_affinity = some (record {
      weight = 100;
      match_labels = (codes "app", codes "fastapi") ∷ [];
      topology_key = codes "kubernetes.io/hostname";
    });
    security = record {
      run_as_non_root = true;
      run_as_user = some 1000;
      fs_group = some 1000;
      seccomp_profile = codes "RuntimeDefault";
    };
    containers = fastapi_container props ∷ [];
    volumes = record { name = codes "tmp"; medium = none; size_limit = none } ∷ [];
  }

abbrev fastapi_service_account : ServiceAccount
fastapi_service_account = record { name = codes "fastapi"; namespace = app_namespace }

abbrev pub fastapi_service : Service
fastapi_service = record {
  name = fastapi_service_name;
  namespace = app_namespace;
  labels = fastapi_labels;
  service_type = codes "ClusterIP";
  selector = (codes "app", codes "fastapi") ∷ [];
  ports =
      record {
        name = codes "http";
        port = fastapi_service_port;
        target_port = fastapi_container_port;
        protocol = codes "TCP";
      }
      ∷ [];
}
