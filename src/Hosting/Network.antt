-- ===== src/Hosting/Network.antt =====
-- The VPC of lib/stacks/network-stack.ts, the repositories of lib/stacks/container-stack.ts and the
-- cluster of lib/stacks/eks-stack.ts. The CDK creates them.
use eks_any_model_hosting.Common.{ℕ, true, Bool, not, List, [], ◌∷◌, Text, codes}
use eks_any_model_hosting.Config.Pilot.{PilotEnvironmentConfig}
use eks_any_model_hosting.Config.Pilot.Load.{resource_name}
use eks_any_model_hosting.Cluster.Nodes.{EndpointAccess, endpoint_access}
use eks_any_model_hosting.Hosting.Cognito.{removal_policy_of}

-- With the tags that the load balancer controller finds the subnets by.
pub record Subnets : Type 0 where
  pub name : Text
  pub subnet_type : Text
  pub cidr_mask : ℕ
  pub tags : List (Text × Text)

pub record Vpc (Number : Type 0) : Type 0 where
  pub vpc_name : Text
  pub max_azs : ℕ
  pub cidr : Text
  pub nat_gateways : Number
  pub subnets : List Subnets
  pub gateway_endpoints : List (Text × Text)
  pub interface_endpoints : List (Text × Text)
  pub endpoint_subnets : Text

-- The endpoints of AWS services by their ids.
abbrev pub interface_endpoints_of : List (Text × Text)
interface_endpoints_of =
    (codes "EcrApi", codes "ECR")
    ∷ (codes "EcrDocker", codes "ECR_DOCKER")
    ∷ (codes "CloudWatchLogs", codes "CLOUDWATCH_LOGS")
    ∷ (codes "Sts", codes "STS")
    ∷ (codes "SecretsManager", codes "SECRETS_MANAGER")
    ∷ []

pub record Repository : Type 0 where
  pub repository_name : Text
  pub image_scan_on_push : Bool
  pub encryption : Text
  pub image_tag_mutability : Text
  pub removal_policy : Text
  pub empty_on_delete : Bool
  pub max_image_count : ℕ

pub record ClusterProps : Type 0 where
  pub cluster_name : Text
  pub version : Text
  pub subnet_type : Text
  pub default_capacity : ℕ
  pub endpoint_access : EndpointAccess
  pub authentication_mode : Text
  pub masters_role : Text
  pub alb_controller_version : Text
  pub cluster_logging : List Text

module _ {Number : Type 0} where
  unfoldable pub vpc_of : PilotEnvironmentConfig Number → Vpc Number
  unfolding resource_name
  vpc_of config = record {
    vpc_name = resource_name config (codes "vpc");
    max_azs = 2;
    cidr = config.vpc_cidr;
    nat_gateways = config.nat_gateway_count;
    subnets =
        record {
          name = codes "public";
          subnet_type = codes "PUBLIC";
          cidr_mask = 24;
          tags = (codes "kubernetes.io/role/elb", codes "1") ∷ [];
        }
        ∷ record {
          name = codes "private";
          subnet_type = codes "PRIVATE_WITH_EGRESS";
          cidr_mask = 20;
          tags = (codes "kubernetes.io/role/internal-elb", codes "1") ∷ [];
        }
        ∷ [];
    gateway_endpoints = (codes "S3Endpoint", codes "S3") ∷ [];
    interface_endpoints = interface_endpoints_of;
    endpoint_subnets = codes "PRIVATE_WITH_EGRESS";
  }

  -- The FastAPI repository.
  unfoldable pub fastapi_repository : PilotEnvironmentConfig Number → Repository
  unfolding resource_name
  fastapi_repository config = record {
    repository_name = resource_name config (codes "api");
    image_scan_on_push = true;
    encryption = codes "AES_256";
    image_tag_mutability = codes "IMMUTABLE";
    removal_policy = removal_policy_of config.deletion_protection;
    empty_on_delete = not config.deletion_protection;
    max_image_count = 15;
  }

  unfoldable pub vllm_mirror_repository : PilotEnvironmentConfig Number → Repository
  unfolding resource_name
  vllm_mirror_repository config = record {
    repository_name = resource_name config (codes "vllm-mirror");
    image_scan_on_push = true;
    encryption = codes "AES_256";
    image_tag_mutability = codes "MUTABLE";
    removal_policy = removal_policy_of config.deletion_protection;
    empty_on_delete = not config.deletion_protection;
    max_image_count = 5;
  }

  unfoldable pub cluster_props : PilotEnvironmentConfig Number → ClusterProps
  unfolding resource_name endpoint_access
  cluster_props config = record {
    cluster_name = resource_name config (codes "cluster");
    version = config.kubernetes_version;
    subnet_type = codes "PRIVATE_WITH_EGRESS";
    default_capacity = 0;
    endpoint_access = endpoint_access config;
    authentication_mode = codes "API_AND_CONFIG_MAP";
    masters_role = resource_name config (codes "cluster-admin");
    alb_controller_version = codes "V2_8_2";
    cluster_logging =
        codes "API"
        ∷ codes "AUDIT"
        ∷ codes "AUTHENTICATOR"
        ∷ codes "CONTROLLER_MANAGER"
        ∷ codes "SCHEDULER"
        ∷ [];
  }
