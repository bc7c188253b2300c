-- ===== src/Cluster/Nodes.antt =====
-- The nodes, the namespaces and the access entries of lib/stacks/eks-stack.ts. The CDK creates them.
use eks_any_model_hosting.Common.{
  List, [], ◌∷◌, Option, none, some, Text, codes, is_nil, if◌then◌else◌,
}
use eks_any_model_hosting.Config.Pilot.{PilotEnvironmentConfig}
use eks_any_model_hosting.Config.Pilot.Load.{resource_name}
use eks_any_model_hosting.Cluster.Names.{app_namespace, observability_namespace}
use eks_any_model_hosting.Cluster.GpuNodes.{NodegroupOptions}

-- The API endpoint is public and private, from anywhere (`none`) or only from some CIDR blocks.
pub record EndpointAccess : Type 0 where
  pub only_from : Option (List Text)

pub record NamespaceManifest : Type 0 where
  pub name : Text
  pub labels : List (Text × Text)

-- An access policy for a role: the whole cluster (`none`), or some namespaces.
pub record AccessEntry : Type 0 where
  pub role_name : Text
  pub policy : Text
  pub namespaces : Option (List Text)

module _ {Number : Type 0} where
  unfoldable pub endpoint_access : PilotEnvironmentConfig Number → EndpointAccess
  endpoint_access config =
      if is_nil config.cluster_public_access_cidrs
      then record { only_from = none }
      else record { only_from = some config.cluster_public_access_cidrs }

  unfoldable pub cpu_node_group : PilotEnvironmentConfig Number → NodegroupOptions Number
  unfolding resource_name
  cpu_node_group config = record {
    nodegroup_name = resource_name config (codes "cpu");
    instance_types = config.cpu_node_instance_types;
    min_size = 2;
    desired_size = 2;
    max_size = 4;
    capacity_type = codes "ON_DEMAND";
    ami_type = codes "AL2023_X86_64_STANDARD";
    disk_size = config.cpu_node_disk_size_gib;
    subnet_type = codes "PRIVATE_WITH_EGRESS";
    labels =
        (codes "workload-type", codes "general") ∷ (codes "node-lifecycle", codes "on-demand") ∷ [];
    taints = [];
    tags = [];
  }

  -- The entries that are granted; the cluster-admin role is the cluster's `mastersRole`.
  unfoldable pub access_entries : PilotEnvironmentConfig Number → List AccessEntry
  unfolding resource_name
  access_entries config =
      record {
        role_name = resource_name config (codes "cicd-deploy");
        policy = codes "AmazonEKSEditPolicy";
        namespaces = some (app_namespace ∷ observability_namespace ∷ []);
      }
      ∷ record {
        role_name = resource_name config (codes "readonly");
        policy = codes "AmazonEKSViewPolicy";
        namespaces = none;
      }
      ∷ []

abbrev pub enforced : Text → Text × Text
enforced level = (codes "pod-security.kubernetes.io/enforce", level)

abbrev pub part_of : Text × Text
part_of = (codes "app.kubernetes.io/part-of", codes "llama-pilot")

abbrev pub app_namespace_manifest : NamespaceManifest
app_namespace_manifest = record {
  name = app_namespace;
  labels =
      enforced (codes "baseline")
      ∷ (codes "pod-security.kubernetes.io/warn", codes "restricted")
      ∷ (codes "pod-security.kubernetes.io/audit", codes "restricted")
      ∷ part_of
      ∷ [];
}

abbrev pub observability_namespace_manifest : NamespaceManifest
observability_namespace_manifest = record {
  name = observability_namespace;
  labels = enforced (codes "baseline") ∷ part_of ∷ [];
}
