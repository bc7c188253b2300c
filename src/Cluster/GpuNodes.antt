-- ===== src/Cluster/GpuNodes.antt =====
-- The node group of lib/constructs/gpu-node-group.ts. The CDK creates it.
use eks_any_model_hosting.Common.{ℕ, List, [], ◌∷◌, Text, codes}
use eks_any_model_hosting.Config.Pilot.{PilotEnvironmentConfig}
use eks_any_model_hosting.Config.Pilot.Load.{resource_name}

pub record Taint : Type 0 where
  pub effect : Text
  pub key : Text
  pub value : Text

-- The options of `addNodegroupCapacity`, with the AMI type that is set on its child.
pub record NodegroupOptions (Number : Type 0) : Type 0 where
  pub nodegroup_name : Text
  pub instance_types : List Text
  pub min_size : ℕ
  pub desired_size : ℕ
  pub max_size : ℕ
  pub capacity_type : Text
  pub ami_type : Text
  pub disk_size : Number
  pub subnet_type : Text
  pub labels : List (Text × Text)
  pub taints : List Taint
  pub tags : List (Text × Text)

abbrev pub gpu_node_group :
    {Number : Type 0} → PilotEnvironmentConfig Number → NodegroupOptions Number
gpu_node_group config = record {
  nodegroup_name = resource_name config (codes "gpu");
  instance_types = config.gpu_node_instance_types;
  min_size = 1;
  desired_size = 1;
  max_size = 1;
  capacity_type = codes "ON_DEMAND";
  ami_type = codes "AL2023_x86_64_NVIDIA";
  disk_size = config.gpu_node_disk_size_gib;
  subnet_type = codes "PRIVATE_WITH_EGRESS";
  labels =
      (codes "workload-type", codes "inference")
      ∷ (codes "accelerator", codes "nvidia")
      ∷ (codes "model-family", codes "llama")
      ∷ (codes "nvidia.com/gpu.present", codes "true")
      ∷ [];
  taints =
      record { effect = codes "NO_SCHEDULE"; key = codes "dedicated"; value = codes "inference" }
      ∷ [];
  tags = (codes "llama-pilot:node-role", codes "gpu-inference") ∷ [];
}
