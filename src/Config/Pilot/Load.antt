-- ===== src/Config/Pilot/Load.antt =====
-- `loadPilotConfig`, `resourceName` and `commonTags` of lib/config/environment-config.ts.
pub mod Results
use eks_any_model_hosting.Common.{
  Bool, true, false, List, [], ◌∷◌, ◌++◌, Option, none, some, Text, codes, is_nil, if◌then◌else◌,
}
use eks_any_model_hosting.Config.Pilot.{
  Numbers, Value, undefined, Raw, ProcessEnv, PilotEnvironmentConfig,
}
use eks_any_model_hosting.Config.Pilot.Coercion.{number_or, bool_or, string_array_or}
use eks_any_model_hosting.Config.Pilot.Validation.{Validated, validate_pilot_config}

-- `v ?? d`
abbrev pub or_default : Option Text → Text → Text
or_default none d = d
or_default (some s) d = s

-- `v ?? w`
abbrev pub first_given : Option Text → Option Text → Option Text
first_given none w = w
first_given (some s) w = some s

-- `{}`, where the context has no `llamaPilot`.
abbrev pub empty_raw : {Number : Type 0} → Raw Number
empty_raw = record {
  account = none;
  region = none;
  environment_name = none;
  vpc_cidr = none;
  nat_gateway_count = undefined;
  kubernetes_version = none;
  cpu_node_instance_types = undefined;
  gpu_node_instance_types = undefined;
  cpu_node_disk_size_gib = undefined;
  gpu_node_disk_size_gib = undefined;
  cluster_public_access_cidrs = undefined;
  model_id = none;
  model_revision = none;
  served_model_name = none;
  max_model_length = undefined;
  max_output_tokens = undefined;
  gpu_memory_utilization = undefined;
  vllm_image = none;
  enable_hugging_face_token_secret = undefined;
  hugging_face_secret_name = none;
  cognito_callback_urls = undefined;
  cognito_logout_urls = undefined;
  deletion_protection = undefined;
  log_retention_days = undefined;
}

abbrev pub raw_or_empty : {Number : Type 0} → Option (Raw Number) → Raw Number
raw_or_empty none = empty_raw
raw_or_empty (some raw) = raw

-- The conversions of JavaScript that the coercions call.
pub record Conversions (Number : Type 0) : Type 0 where
  pub numbers : Numbers Number
  pub to_number : Value Number → Number
  pub to_string : Value Number → Text
  pub to_lower_case : Text → Text

abbrev pub local_urls : List Text
local_urls = codes "http://localhost:5173/" ∷ []

module _ {Number : Type 0} (js : Conversions Number) where
  abbrev pub number_at : Value Number → Text → Number
  number_at v literal = number_or js.numbers js.to_number v (js.numbers.from_text literal)

  unfoldable pub coerced : ProcessEnv → Raw Number → PilotEnvironmentConfig Number
  unfolding number_or bool_or string_array_or
  coerced process raw = record {
    account =
        or_default
          (first_given raw.account (first_given process.cdk_default_account process.aws_account_id))
          [];
    region =
        or_default
          (first_given raw.region (first_given process.cdk_default_region process.aws_region))
          (codes "us-east-1");
    environment_name = or_default raw.environment_name (codes "dev");
    vpc_cidr = or_default raw.vpc_cidr (codes "10.20.0.0/16");
    nat_gateway_count = number_at raw.nat_gateway_count (codes "1");
    kubernetes_version = or_default raw.kubernetes_version (codes "1.33");
    cpu_node_instance_types =
        string_array_or js.to_string raw.cpu_node_instance_types (codes "m6i.large" ∷ []);
    gpu_node_instance_types =
        string_array_or js.to_string raw.gpu_node_instance_types (codes "g5.xlarge" ∷ []);
    cpu_node_disk_size_gib = number_at raw.cpu_node_disk_size_gib (codes "50");
    gpu_node_disk_size_gib = number_at raw.gpu_node_disk_size_gib (codes "200");
    cluster_public_access_cidrs = string_array_or js.to_string raw.cluster_public_access_cidrs [];
    model_id = or_default raw.model_id (codes "unsloth/Llama-3.2-1B-Instruct");
    model_revision =
        or_default raw.model_revision (codes "5a8abab4a5d6f164389b1079fb721cfab8d7126c");
    served_model_name = or_default raw.served_model_name (codes "llama-pilot");
    max_model_length = number_at raw.max_model_length (codes "8192");
    max_output_tokens = number_at raw.max_output_tokens (codes "512");
    gpu_memory_utilization = number_at raw.gpu_memory_utilization (codes "0.85");
    vllm_image = or_default raw.vllm_image (codes "vllm/vllm-openai:v0.6.6");
    enable_hugging_face_token_secret =
        bool_or js.to_lower_case raw.enable_hugging_face_token_secret false;
    hugging_face_secret_name = raw.hugging_face_secret_name;
    cognito_callback_urls = string_array_or js.to_string raw.cognito_callback_urls local_urls;
    cognito_logout_urls = string_array_or js.to_string raw.cognito_logout_urls local_urls;
    deletion_protection = bool_or js.to_lower_case raw.deletion_protection false;
    log_retention_days = number_at raw.log_retention_days (codes "14");
  }

  -- The override by `spaRedirectUrl`, where it is truthy.
  unfoldable pub redirected_to :
      Option Text → PilotEnvironmentConfig Number → PilotEnvironmentConfig Number
  redirected_to none c = c
  redirected_to (some url) c =
      if is_nil url
      then c
      else record c { cognito_callback_urls = url ∷ []; cognito_logout_urls = url ∷ [] }

  unfoldable pub resolved_config :
      ProcessEnv → Option (Raw Number) → Option Text → PilotEnvironmentConfig Number
  unfolding coerced redirected_to
  resolved_config process context spa_redirect_url =
      redirected_to spa_redirect_url (coerced process (raw_or_empty context))

  -- The configuration, or the message of the exception, behind the warnings.
  pub data LoadedPilot : Type 0 where
    failed : List Text → Text → LoadedPilot
    loaded : List Text → PilotEnvironmentConfig Number → LoadedPilot

  abbrev pub unless_thrown : Validated → PilotEnvironmentConfig Number → LoadedPilot
  unless_thrown v c = elim v.thrown [ none ↦ loaded v.warnings c | some m ↦ failed v.warnings m ]

  unfoldable pub load_pilot_config : ProcessEnv → Option (Raw Number) → Option Text → LoadedPilot
  unfolding resolved_config validate_pilot_config
  load_pilot_config process context spa_redirect_url =
      let c = resolved_config process context spa_redirect_url in
      unless_thrown (validate_pilot_config js.numbers c) c

module _ {Number : Type 0} where
  unfoldable pub resource_name : PilotEnvironmentConfig Number → Text → Text
  resource_name c resource = codes "llama-pilot-" ++ (c.environment_name ++ (codes "-" ++ resource))

  abbrev pub common_tags : PilotEnvironmentConfig Number → List (Text × Text)
  common_tags c =
      (codes "Application", codes "llama-pilot")
      ∷ (codes "Environment", c.environment_name)
      ∷ (codes "ManagedBy", codes "aws-cdk")
      ∷ (codes "Workload", codes "self-hosted-inference")
      ∷ (codes "CostCenter", codes "configurable")
      ∷ []
