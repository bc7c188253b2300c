-- ===== src/Cluster/Placement.antt =====
-- On which nodes the pods run, as Kubernetes documents the scheduling by node selectors and taints.
use eks_any_model_hosting.Common.{
  ◌≡◌, refl, Bool, true, false, ◌&&◌, ◌||◌, List, Option, none, some, Text, codes, text_eq, any,
  all,
}
use eks_any_model_hosting.Config.Pilot.{Numbers, PilotEnvironmentConfig}
use eks_any_model_hosting.Cluster.GpuNodes.{Taint, NodegroupOptions, gpu_node_group}
use eks_any_model_hosting.Cluster.Nodes.{cpu_node_group}
use eks_any_model_hosting.Cluster.Workload.{Toleration, Deployment}
use eks_any_model_hosting.Cluster.Vllm.{vllm_deployment}
use eks_any_model_hosting.Cluster.Fastapi.{FastapiWorkloadProps, fastapi_deployment}
use eks_any_model_hosting.Cluster.Addons.{device_plugin}

abbrev same_entry : Text × Text → Text × Text → Bool
same_entry (k, v) (k', v') = text_eq k k' && text_eq v v'

abbrev equals : Option Text → Text → Bool
equals none v = false
equals (some w) v = text_eq w v

-- `Exists` tolerates every value of the key, `Equal` one.
abbrev tolerates : Taint → Toleration → Bool
tolerates taint t =
    text_eq t.key taint.key && (text_eq t.operator (codes "Exists") || equals t.value taint.value)

-- Whether a pod with a node selector and tolerations may run on the nodes of a group.
abbrev pub can_run :
    {Number : Type 0} → NodegroupOptions Number → List (Text × Text) → List Toleration → Bool
can_run nodes selector tolerations =
    all (λ s. any (same_entry s) nodes.labels) selector
    && all (λ taint. any (tolerates taint) tolerations) nodes.taints

abbrev pub runs : {Number : Type 0} → NodegroupOptions Number → Deployment → Bool
runs nodes d = can_run nodes d.node_selector d.tolerations

-- Each workload has one group for itself.
pub record IsPlaced {Number : Type 0} (cpu gpu : NodegroupOptions Number)
    (service model : Deployment) : Type 0 where
  pub service_on_cpu : runs cpu service ≡ true
  pub service_off_gpu : runs gpu service ≡ false
  pub model_on_gpu : runs gpu model ≡ true
  pub model_off_cpu : runs cpu model ≡ false
  pub plugin_on_gpu : can_run gpu device_plugin.node_selector device_plugin.tolerations ≡ true
  pub plugin_off_cpu : can_run cpu device_plugin.node_selector device_plugin.tolerations ≡ false

-- For every configuration, the service's pods run on the CPU nodes and not on the GPU nodes, and the
-- model's pods and the device plugin on the GPU nodes and not on the CPU nodes.
pub deployments-IsPlaced :
    {Number : Type 0} (numbers : Numbers Number) (c : PilotEnvironmentConfig Number)
    (props : FastapiWorkloadProps Number)
    → IsPlaced
        (cpu_node_group c)
        (gpu_node_group c)
        (fastapi_deployment props)
        (vllm_deployment numbers c)
unfolding cpu_node_group fastapi_deployment vllm_deployment text_eq
deployments-IsPlaced numbers c props = record {
  service_on_cpu = refl;
  service_off_gpu = refl;
  model_on_gpu = refl;
  model_off_cpu = refl;
  plugin_on_gpu = refl;
  plugin_off_cpu = refl;
}
