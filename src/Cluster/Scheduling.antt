-- ===== src/Cluster/Scheduling.antt =====
-- The inference pods fit the nodes, and their service reaches them.
use eks_any_model_hosting.Common.{
  ◌≡◌, refl, inl, inr, ◌↔◌, true, false, Bool, List, ◌∷◌, some, Text, codes, All, Any,
}
use eks_any_model_hosting.Config.Pilot.{Numbers, PilotEnvironmentConfig}
use eks_any_model_hosting.Cluster.GpuNodes.{Taint, NodegroupOptions, gpu_node_group}
use eks_any_model_hosting.Cluster.Workload.{
  Toleration, EnvVar, plain, secret_key, Deployment, Service,
}
use eks_any_model_hosting.Cluster.Vllm.{token_env, vllm_deployment, vllm_service}

-- Every entry of the selector is among the labels.
abbrev pub IsSelected : List (Text × Text) → List (Text × Text) → Type 0
IsSelected selector labels = All (λ s. Any (λ l. l ≡ s) labels) selector

-- A toleration for a NoSchedule taint: the same key, and the same value.
pub record Tolerates (taint : Taint) (t : Toleration) : Type 0 where
  pub key : t.key ≡ taint.key
  pub operator : t.operator ≡ codes "Equal"
  pub value : t.value ≡ some taint.value
  pub effect : t.effect ≡ codes "NoSchedule"
  pub tainted : taint.effect ≡ codes "NO_SCHEDULE"

-- Whether a container is given the token.
abbrev pub IsTokenEnv : EnvVar → Type 0
IsTokenEnv (secret_key name secret key optional) = name ≡ codes "HUGGING_FACE_HUB_TOKEN"
IsTokenEnv _ = ⊥

pub record Fits {Number : Type 0} (c : PilotEnvironmentConfig Number)
    (nodes : NodegroupOptions Number) (d : Deployment) (s : Service) : Type 0 where
  pub placed : IsSelected d.node_selector nodes.labels
  pub tolerated : All (λ taint. Any (Tolerates taint) d.tolerations) nodes.taints
  pub owned : IsSelected d.match_labels d.pod_labels
  pub reached : IsSelected s.selector d.pod_labels
  -- Every port of the service ends at a port of every container, on which it is probed.
  pub wired :
      All
        (λ p.
          All
            (λ k.
              Any (λ port. port.1 ≡ p.target_port) k.container_ports
              × (k.startup_probe.port ≡ p.target_port)
              × (k.readiness_probe.port ≡ p.target_port)
              × (k.liveness_probe.port ≡ p.target_port))
            d.containers)
        s.ports
  -- The token is wired exactly where the configuration wants it.
  pub token :
      All (λ k. (c.enable_hugging_face_token_secret ≡ true) ↔ Any IsTokenEnv k.env) d.containers

token_env-IsTokenEnv : (enabled : Bool) → (enabled ≡ true) ↔ Any IsTokenEnv (token_env enabled)
token_env-IsTokenEnv true = (λ h. inl refl, λ h. refl)
token_env-IsTokenEnv false = (λ h. cc, λ h. elim h [ ])

wanted :
    (enabled : Bool)
    → (enabled ≡ true)
      ↔ Any IsTokenEnv (
          plain (codes "HOME") (codes "/home/vllm")
          ∷ plain (codes "HF_HOME") (codes "/models")
          ∷ token_env enabled)
wanted enabled =
    let (to, from) = token_env-IsTokenEnv enabled in
    (
      λ h. inr (inr (to h)),
      λ h. elim h [ inl x ↦ elim x [ ] | inr (inl x) ↦ elim x [ ] | inr (inr k) ↦ from k ],
    )

-- For every configuration, the pods of the inference deployment are selected onto the GPU nodes and
-- tolerate their taint, the deployment and the service select these pods, each port of the service
-- ends at a container's port on which all its probes stand, and the containers are given the
-- Hugging Face token exactly where the configuration enables it.
vllm_deployment-Fits :
    {Number : Type 0} (numbers : Numbers Number) (c : PilotEnvironmentConfig Number)
    → Fits c (gpu_node_group c) (vllm_deployment numbers c) vllm_service
unfolding vllm_deployment
vllm_deployment-Fits numbers c = record {
  placed = (inl refl, tt);
  tolerated = (
    inl (record { key = refl; operator = refl; value = refl; effect = refl; tainted = refl }),
    tt,
  );
  owned = (inl refl, tt);
  reached = (inl refl, tt);
  wired = (((inl refl, refl, refl, refl), tt), tt);
  token = (wanted c.enable_hugging_face_token_secret, tt);
}
