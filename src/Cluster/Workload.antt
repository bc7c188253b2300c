-- ===== src/Cluster/Workload.antt =====
-- The Kubernetes objects that lib/constructs/vllm-workload.ts and lib/constructs/fastapi-workload.ts
-- build.
use eks_any_model_hosting.Common.{ℕ, Bool, List, Option, Text}

pub record Toleration : Type 0 where
  pub key : Text
  pub operator : Text
  pub value : Option Text
  pub effect : Text

-- A field that the source leaves out is `none`.
pub record Probe : Type 0 where
  pub path : Text
  pub port : ℕ
  pub period_seconds : ℕ
  pub timeout_seconds : Option ℕ
  pub failure_threshold : ℕ

-- A variable of the container: a value, or the key of a secret, which may be optional.
pub data EnvVar : Type 0 where
  plain : Text → Text → EnvVar
  secret_key : Text → Text → Text → Bool → EnvVar

pub record PodSecurity : Type 0 where
  pub run_as_non_root : Bool
  pub run_as_user : Option ℕ
  pub fs_group : Option ℕ
  pub seccomp_profile : Text

pub record ContainerSecurity : Type 0 where
  pub run_as_non_root : Option Bool
  pub allow_privilege_escalation : Bool
  pub read_only_root_filesystem : Bool
  pub dropped_capabilities : List Text

pub record Container : Type 0 where
  pub name : Text
  pub image : Text
  pub image_pull_policy : Text
  pub command : List Text
  pub args : List Text
  pub container_ports : List (Text × ℕ)
  pub env : List EnvVar
  pub env_from : List Text
  pub limits : List (Text × Text)
  pub requests : List (Text × Text)
  pub security : ContainerSecurity
  pub volume_mounts : List (Text × Text)
  pub startup_probe : Probe
  pub readiness_probe : Probe
  pub liveness_probe : Probe

-- An `emptyDir`.
pub record Volume : Type 0 where
  pub name : Text
  pub medium : Option Text
  pub size_limit : Option Text

pub record AntiAffinity : Type 0 where
  pub weight : ℕ
  pub match_labels : List (Text × Text)
  pub topology_key : Text

-- The strategy's bounds are those of a rolling update.
pub record Deployment : Type 0 where
  pub name : Text
  pub namespace : Text
  pub labels : List (Text × Text)
  pub replicas : ℕ
  pub strategy : Text
  pub max_unavailable : Option ℕ
  pub max_surge : Option ℕ
  pub match_labels : List (Text × Text)
  pub pod_labels : List (Text × Text)
  pub service_account_name : Text
  pub enable_service_links : Bool
  pub node_selector : List (Text × Text)
  pub tolerations : List Toleration
  pub termination_grace_period_seconds : Option ℕ
  pub pod_anti_affinity : Option AntiAffinity
  pub security : PodSecurity
  pub containers : List Container
  pub volumes : List Volume

pub record ServicePort : Type 0 where
  pub name : Text
  pub port : ℕ
  pub target_port : ℕ
  pub protocol : Text

pub record ServiceAccount : Type 0 where
  pub name : Text
  pub namespace : Text

pub record Service : Type 0 where
  pub name : Text
  pub namespace : Text
  pub labels : List (Text × Text)
  pub service_type : Text
  pub selector : List (Text × Text)
  pub ports : List ServicePort
