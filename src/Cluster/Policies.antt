-- ===== src/Cluster/Policies.antt =====
-- `applyNetworkPolicies` of lib/stacks/workload-stack.ts. The VPC CNI enforces the policies.
pub mod Traffic
pub mod Matrix
use eks_any_model_hosting.Common.{ℕ, List, [], ◌∷◌, Option, none, some, Text, codes}
use eks_any_model_hosting.Cluster.Names.{app_namespace}

-- A peer of a rule: the pods of every namespace, or those of the policy's namespace with some
-- labels.
pub data Peer : Type 0 where
  any_namespace : Peer
  pods : List (Text × Text) → Peer

pub record PolicyPort : Type 0 where
  pub protocol : Text
  pub port : ℕ

-- An ingress or an egress rule; `peers` is `none` where the source has no `from` or `to`.
pub record Rule : Type 0 where
  pub peers : Option (List Peer)
  pub ports : List PolicyPort

pub record NetworkPolicy : Type 0 where
  pub name : Text
  pub namespace : Text
  pub pod_selector : List (Text × Text)
  pub policy_types : List Text
  pub ingress : List Rule
  pub egress : List Rule

abbrev pub tcp : ℕ → List PolicyPort
tcp n = record { protocol = codes "TCP"; port = n } ∷ []

abbrev pub app : Text → List (Text × Text)
app name = (codes "app", name) ∷ []

abbrev pub dns_egress : Rule
dns_egress = record {
  peers = some (any_namespace ∷ []);
  ports = record { protocol = codes "UDP"; port = 53 } ∷ tcp 53;
}

unfoldable pub network_policies : List NetworkPolicy
network_policies =
    record {
      name = codes "default-deny-ingress";
      namespace = app_namespace;
      pod_selector = [];
      policy_types = codes "Ingress" ∷ [];
      ingress = [];
      egress = [];
    }
    ∷ record {
      name = codes "vllm-allow-from-fastapi";
      namespace = app_namespace;
      pod_selector = app (codes "vllm");
      policy_types = codes "Ingress" ∷ [];
      ingress = record { peers = some (pods (app (codes "fastapi")) ∷ []); ports = tcp 8000 } ∷ [];
      egress = [];
    }
    ∷ record {
      name = codes "fastapi-ingress";
      namespace = app_namespace;
      pod_selector = app (codes "fastapi");
      policy_types = codes "Ingress" ∷ [];
      ingress = record { peers = none; ports = tcp 8080 } ∷ [];
      egress = [];
    }
    ∷ record {
      name = codes "fastapi-egress";
      namespace = app_namespace;
      pod_selector = app (codes "fastapi");
      policy_types = codes "Egress" ∷ [];
      ingress = [];
      egress =
          dns_egress
          ∷ record { peers = some (pods (app (codes "vllm")) ∷ []); ports = tcp 8000 }
          ∷ record { peers = none; ports = tcp 443 }
          ∷ [];
    }
    ∷ record {
      name = codes "vllm-egress";
      namespace = app_namespace;
      pod_selector = app (codes "vllm");
      policy_types = codes "Egress" ∷ [];
      ingress = [];
      egress = dns_egress ∷ record { peers = none; ports = tcp 443 } ∷ [];
    }
    ∷ []
