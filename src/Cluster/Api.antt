-- ===== src/Cluster/Api.antt =====
-- The resources of the private path and of the public API that lib/stacks/workload-stack.ts creates,
-- with the properties that it sets.
use eks_any_model_hosting.Common.{ℕ, Bool, List, Text}

-- Who may open connections to a security group.
pub record IngressRule : Type 0 where
  pub group : Text
  pub source : Text
  pub protocol : Text
  pub port : ℕ

pub record TargetGroup : Type 0 where
  pub name : Text
  pub port : ℕ
  pub protocol : Text
  pub target_type : Text
  pub health_path : Text
  pub healthy_codes : Text
  pub interval_seconds : ℕ
  pub timeout_seconds : ℕ
  pub deregistration_seconds : ℕ

pub record Listener : Type 0 where
  pub port : ℕ
  pub protocol : Text
  pub targets : TargetGroup

pub record TargetGroupBinding : Type 0 where
  pub name : Text
  pub namespace : Text
  pub service_name : Text
  pub service_port : ℕ
  pub target_type : Text

pub record Route : Type 0 where
  pub method : Text
  pub path : Text
  pub authorized : Bool

pub record Authorizer : Type 0 where
  pub name : Text
  pub issuer : Text
  pub audience : List Text
  pub identity_source : List Text

pub record Cors : Type 0 where
  pub origins : List Text
  pub headers : List Text
  pub methods : List Text
  pub max_age_hours : ℕ

pub record Stage : Type 0 where
  pub name : Text
  pub auto_deploy : Bool
  pub rate_limit : ℕ
  pub burst_limit : ℕ
  pub log_format : List (Text × Text)

-- What the construct makes of the configuration, but for the handles of the resources.
pub record Edge : Type 0 where
  pub image_uri : Text
  pub alb_name : Text
  pub internet_facing : Bool
  pub listener : Listener
  pub ingress : List IngressRule
  pub binding : TargetGroupBinding
  pub vpc_link_name : Text
  pub integration_timeout_seconds : ℕ
  pub authorizer : Authorizer
  pub api_name : Text
  pub create_default_stage : Bool
  pub cors : Cors
  pub routes : List Route
  pub stage : Stage
