-- ===== src/Cluster/Vllm.antt =====
-- The manifests of lib/constructs/vllm-workload.ts. The CDK applies them.
use eks_any_model_hosting.Common.{
  ℕ, Bool, true, false, List, [], ◌∷◌, ◌++◌, none, some, Text, codes, if◌then◌else◌,
}
use eks_any_model_hosting.Config.Pilot.{Numbers, PilotEnvironmentConfig}
use eks_any_model_hosting.Cluster.Names.{app_namespace}
use eks_any_model_hosting.Cluster.Workload.{
  Probe, EnvVar, plain, secret_key, Container, Deployment, ServiceAccount, Service,
}

abbrev pub vllm_internal_url : Text
vllm_internal_url = codes "http://vllm." ++ (app_namespace ++ codes ".svc.cluster.local:8000")

abbrev pub vllm_labels : List (Text × Text)
vllm_labels =
    (codes "app", codes "vllm") ∷ (codes "app.kubernetes.io/part-of", codes "llama-pilot") ∷ []

abbrev pub health_probe : ℕ → ℕ → ℕ → Probe
health_probe period timeout failures = record {
  path = codes "/health";
  port = 8000;
  period_seconds = period;
  timeout_seconds = some timeout;
  failure_threshold = failures;
}

abbrev pub token_env : Bool → List EnvVar
token_env enabled =
    if enabled
    then secret_key (codes "HUGGING_FACE_HUB_TOKEN") (codes "huggingface-token") (codes "token")
        true
      ∷ []
    else []

module _ {Number : Type 0} (numbers : Numbers Number) where
  abbrev pub vllm_container : PilotEnvironmentConfig Number → Container
  vllm_container config = record {
    name = codes "vllm";
    image = config.vllm_image;
    image_pull_policy = codes "IfNotPresent";
    command = codes "vllm" ∷ codes "serve" ∷ config.model_id ∷ [];
    args =
        codes "--served-model-name"
        ∷ config.served_model_name
        ∷ codes "--revision"
        ∷ config.model_revision
        ∷ codes "--host"
        ∷ codes "0.0.0.0"
        ∷ codes "--port"
        ∷ codes "8000"
        ∷ codes "--dtype"
        ∷ codes "auto"
        ∷ codes "--max-model-len"
        ∷ numbers.show config.max_model_length
        ∷ codes "--gpu-memory-utilization"
        ∷ numbers.show config.gpu_memory_utilization
        ∷ codes "--max-num-seqs"
        ∷ codes "4"
        ∷ codes "--enable-prefix-caching"
        ∷ [];
    container_ports = (codes "http", 8000) ∷ [];
    env =
        (plain (codes "HOME") (codes "/home/vllm") ∷ plain (codes "HF_HOME") (codes "/models") ∷ [])
        ++ token_env config.enable_hugging_face_token_secret;
    env_from = [];
    limits = (codes "nvidia.com/gpu", codes "1") ∷ [];
    requests = (codes "cpu", codes "2") ∷ (codes "memory", codes "8Gi") ∷ [];
    security = record {
      run_as_non_root = none;
      allow_privilege_escalation = false;
      read_only_root_filesystem = false;
      dropped_capabilities = codes "ALL" ∷ [];
    };
    volume_mounts =
        (codes "model-cache", codes "/models")
        ∷ (codes "dshm", codes "/dev/shm")
        ∷ (codes "home", codes "/home/vllm")
        ∷ [];
    startup_probe = health_probe 15 5 80;
    readiness_probe = health_probe 10 3 3;
    liveness_probe = health_probe 30 5 6;
  }

  unfoldable pub vllm_deployment : PilotEnvironmentConfig Number → Deployment
  vllm_deployment config = record {
    name = codes "vllm";
    namespace = app_namespace;
    labels = vllm_labels;
    replicas = 1;
    strategy = codes "Recreate";
    max_unavailable = none;
    max_surge = none;
    match_labels = (codes "app", codes "vllm") ∷ [];
    pod_labels = vllm_labels;
    service_account_name = codes "vllm";
    enable_service_links = false;
    node_selector = (codes "workload-type", codes "inference") ∷ [];
    tolerations =
        record {
          key = codes "dedicated";
          operator = codes "Equal";
          value = some (codes "inference");
          effect = codes "NoSchedule";
        }
        ∷ record {
          key = codes "nvidia.com/gpu";
          operator = codes "Exists";
          value = none;
          effect = codes "NoSchedule";
        }
        ∷ [];
    termination_grace_period_seconds = none;
    pod_anti_affinity = none;
    security = record {
      run_as_non_root = false;
      run_as_user = none;
      fs_group = none;
      seccomp_profile = codes "RuntimeDefault";
    };
    containers = vllm_container config ∷ [];
    volumes =
        record { name = codes "model-cache"; medium = none; size_limit = some (codes "100Gi") }
        ∷ record {
          name = codes "dshm";
          medium = some (codes "Memory");
          size_limit = some (codes "4Gi");
        }
        ∷ record { name = codes "home"; medium = none; size_limit = none }
        ∷ [];
  }

abbrev vllm_service_account : ServiceAccount
vllm_service_account = record { name = codes "vllm"; namespace = app_namespace }

abbrev pub vllm_service : Service
vllm_service = record {
  name = codes "vllm";
  namespace = app_namespace;
  labels = vllm_labels;
  service_type = codes "ClusterIP";
  selector = (codes "app", codes "vllm") ∷ [];
  ports =
      record { name = codes "http"; port = 8000; target_port = 8000; protocol = codes "TCP" } ∷ [];
}
