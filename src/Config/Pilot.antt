-- ===== src/Config/Pilot.antt =====
-- The pilot's configuration of lib/config/environment-config.ts, and the values of the CDK context
-- that it is read from. JavaScript's numbers are the parameter `Number`.
pub mod Coercion
pub mod Validation
pub mod Load
use eks_any_model_hosting.Common.{Bool, List, Option, Text}

-- What the program uses of numbers: `Number` on a string, which also stands for the literals, the
-- comparisons `<` and `<=`, `Number.isFinite`, and the text in a template.
pub record Numbers (Number : Type 0) : Type 0 where
  pub from_text : Text → Number
  pub less : Number → Number → Bool
  pub less_eq : Number → Number → Bool
  pub is_finite : Number → Bool
  pub show : Number → Text

-- A value of the context.
mutual
  pub data Value (Number : Type 0) : Type 0 where
    undefined : Value Number
    null : Value Number
    boolean : Bool → Value Number
    number : Number → Value Number
    text : Text → Value Number
    array : Values Number → Value Number
    object : Value Number

  pub data Values (Number : Type 0) : Type 0 where
    nil : Values Number
    cons : Value Number → Values Number → Values Number

-- The members of `context.llamaPilot`. A member that the source casts to a string is one, or it is
-- missing (undefined or null).
pub record Raw (Number : Type 0) : Type 0 where
  pub account : Option Text
  pub region : Option Text
  pub environment_name : Option Text
  pub vpc_cidr : Option Text
  pub nat_gateway_count : Value Number
  pub kubernetes_version : Option Text
  pub cpu_node_instance_types : Value Number
  pub gpu_node_instance_types : Value Number
  pub cpu_node_disk_size_gib : Value Number
  pub gpu_node_disk_size_gib : Value Number
  pub cluster_public_access_cidrs : Value Number
  pub model_id : Option Text
  pub model_revision : Option Text
  pub served_model_name : Option Text
  pub max_model_length : Value Number
  pub max_output_tokens : Value Number
  pub gpu_memory_utilization : Value Number
  pub vllm_image : Option Text
  pub enable_hugging_face_token_secret : Value Number
  pub hugging_face_secret_name : Option Text
  pub cognito_callback_urls : Value Number
  pub cognito_logout_urls : Value Number
  pub deletion_protection : Value Number
  pub log_retention_days : Value Number

-- The variables of the process that the source reads.
pub record ProcessEnv : Type 0 where
  pub cdk_default_account : Option Text
  pub aws_account_id : Option Text
  pub cdk_default_region : Option Text
  pub aws_region : Option Text

pub record PilotEnvironmentConfig (Number : Type 0) : Type 0 where
  pub account : Text
  pub region : Text
  pub environment_name : Text
  pub vpc_cidr : Text
  pub nat_gateway_count : Number
  pub kubernetes_version : Text
  pub cpu_node_instance_types : List Text
  pub gpu_node_instance_types : List Text
  pub cpu_node_disk_size_gib : Number
  pub gpu_node_disk_size_gib : Number
  pub cluster_public_access_cidrs : List Text
  pub model_id : Text
  pub model_revision : Text
  pub served_model_name : Text
  pub max_model_length : Number
  pub max_output_tokens : Number
  pub gpu_memory_utilization : Number
  pub vllm_image : Text
  pub enable_hugging_face_token_secret : Bool
  pub hugging_face_secret_name : Option Text
  pub cognito_callback_urls : List Text
  pub cognito_logout_urls : List Text
  pub deletion_protection : Bool
  pub log_retention_days : Number
