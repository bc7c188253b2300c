-- ===== src/Cluster/Addons.antt =====
-- lib/constructs/eks-addons.ts. The CDK and Helm install the add-ons; JSON.stringify is a parameter.
use eks_any_model_hosting.Common.{
  Bool, false, List, [], ◌∷◌, ◌++◌, Option, none, some, Text, codes, text_eq, if◌then◌else◌,
}
use eks_any_model_hosting.Json.{Json, str, obj, field, end}
use eks_any_model_hosting.Cluster.Workload.{Toleration}

-- The role that a service account assumes: the provider, and the conditions on the token.
pub record IrsaRole : Type 0 where
  pub id : Text
  pub provider_arn : Text
  pub conditions : List (Text × Text)
  pub managed_policies : List Text

pub record Addon : Type 0 where
  pub id : Text
  pub addon_name : Text
  pub addon_version : Option Text
  pub resolve_conflicts : Text
  pub role : Option IrsaRole
  pub configuration_values : Option Text

pub record HelmChart : Type 0 where
  pub chart : Text
  pub repository : Text
  pub release : Text
  pub namespace : Text
  pub version : Text
  pub wait : Bool
  pub node_selector : List (Text × Text)
  pub tolerations : List Toleration

-- `versions[addonName]`
abbrev pub version_of : Text → List (Text × Text) → Option Text
version_of name [] = none
version_of name ((n, v) ∷ versions) =
    let rest = version_of name versions in if text_eq n name then some v else rest

module _ (stringify : Json → Text) (oidc_arn oidc_issuer : Text)
    (versions : List (Text × Text)) where
  abbrev pub irsa_role : Text → Text → Text → List Text → IrsaRole
  irsa_role id namespace service_account managed_policies = record {
    id = id;
    provider_arn = oidc_arn;
    conditions =
        (oidc_issuer ++ codes ":aud", codes "sts.amazonaws.com")
        ∷ (
          oidc_issuer ++ codes ":sub",
          codes "system:serviceaccount:" ++ (namespace ++ (codes ":" ++ service_account)),
        )
        ∷ [];
    managed_policies = managed_policies;
  }

  abbrev pub addon : Text → Text → Option IrsaRole → Option Text → Addon
  addon id name role configuration = record {
    id = id;
    addon_name = name;
    addon_version = version_of name versions;
    resolve_conflicts = codes "OVERWRITE";
    role = role;
    configuration_values = configuration;
  }

  unfoldable pub addons : List Addon
  unfolding text_eq
  addons =
      addon (codes "VpcCni") (codes "vpc-cni") none
        (some (stringify (obj (field (codes "enableNetworkPolicy") (str (codes "true")) end))))
      ∷ addon (codes "CoreDns") (codes "coredns") none none
      ∷ addon (codes "KubeProxy") (codes "kube-proxy") none none
      ∷ addon (codes "PodIdentityAgent") (codes "eks-pod-identity-agent") none none
      ∷ addon (codes "MetricsServer") (codes "metrics-server") none none
      ∷ addon (codes "EbsCsiDriver") (codes "aws-ebs-csi-driver")
          (some (
            irsa_role (codes "EbsCsiRole") (codes "kube-system") (codes "ebs-csi-controller-sa")
              (codes "service-role/AmazonEBSCSIDriverPolicy" ∷ [])))
          none
      ∷ addon (codes "CloudWatchObservability") (codes "amazon-cloudwatch-observability")
          (some (
            irsa_role (codes "CloudWatchObservabilityRole") (codes "amazon-cloudwatch")
              (codes "cloudwatch-agent") (codes "CloudWatchAgentServerPolicy" ∷ [])))
          none
      ∷ []

abbrev pub device_plugin : HelmChart
device_plugin = record {
  chart = codes "nvidia-device-plugin";
  repository = codes "https://nvidia.github.io/k8s-device-plugin";
  release = codes "nvidia-device-plugin";
  namespace = codes "kube-system";
  version = codes "0.16.2";
  wait = false;
  node_selector = (codes "workload-type", codes "inference") ∷ [];
  tolerations =
      record {
        key = codes "dedicated";
        operator = codes "Equal";
        value = some (codes "inference");
        effect = codes "NoSchedule";
      }
      ∷ record {
        key = codes "nvidia.com/gpu";
        operator = codes "Exists";
        value = none;
        effect = codes "NoSchedule";
      }
      ∷ [];
}
