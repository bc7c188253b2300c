-- ===== src/Hosting/Outputs.antt =====
-- The outputs of the stacks of lib/stacks, by their construct ids, and the names of the stage in
-- bin/app.ts. What AWS and the CDK assign are arguments.
use eks_any_model_hosting.Common.{List, [], ◌∷◌, ◌++◌, Text, codes, join}
use eks_any_model_hosting.Config.Pilot.{PilotEnvironmentConfig}
use eks_any_model_hosting.Config.Amplify.{branch_name, main_branch}
use eks_any_model_hosting.Cluster.Vllm.{vllm_internal_url}

module _ {Number : Type 0} where
  -- The id of the stage, which prefixes the names of its stacks.
  unfoldable pub stage_id : PilotEnvironmentConfig Number → Text
  stage_id config = codes "LlamaPilot-" ++ config.environment_name

unfoldable pub branch_url : Text → Text
branch_url default_domain = codes "https://" ++ (branch_name ++ (codes "." ++ default_domain))

unfoldable pub amplify_outputs : Text → Text → List (Text × Text)
unfolding branch_url
amplify_outputs app_id default_domain =
    (codes "AmplifyAppId", app_id)
    ∷ (codes "AmplifyDefaultDomain", default_domain)
    ∷ (codes "AmplifyBranchName", (main_branch app_id).branch_name)
    ∷ (codes "AmplifyBranchUrl", branch_url default_domain)
    ∷ []

abbrev pub container_outputs : Text → Text → List (Text × Text)
container_outputs fastapi_repository_uri vllm_mirror_repository_uri =
    (codes "FastApiRepositoryUri", fastapi_repository_uri)
    ∷ (codes "VllmMirrorRepositoryUri", vllm_mirror_repository_uri)
    ∷ []

abbrev pub network_outputs : Text → List Text → List Text → List (Text × Text)
network_outputs vpc_id public_subnet_ids private_subnet_ids =
    (codes "VpcId", vpc_id)
    ∷ (codes "PublicSubnetIds", join (codes ",") public_subnet_ids)
    ∷ (codes "PrivateSubnetIds", join (codes ",") private_subnet_ids)
    ∷ []

-- What the cluster's stack is told of its resources.
pub record ClusterNames : Type 0 where
  pub cluster_name : Text
  pub cluster_arn : Text
  pub gpu_nodegroup_name : Text
  pub cpu_nodegroup_name : Text
  pub cluster_admin_role_arn : Text

pub record WorkloadNames : Type 0 where
  pub load_balancer_dns_name : Text
  pub http_api_id : Text
  pub alarm_topic_arn : Text
  pub dashboard_name : Text

unfoldable pub eks_outputs : Text → ClusterNames → List (Text × Text)
eks_outputs region n =
    (codes "EksClusterName", n.cluster_name)
    ∷ (codes "EksClusterArn", n.cluster_arn)
    ∷ (codes "GpuNodeGroupName", n.gpu_nodegroup_name)
    ∷ (codes "CpuNodeGroupName", n.cpu_nodegroup_name)
    ∷ (codes "ClusterAdminRoleArn", n.cluster_admin_role_arn)
    ∷ (
      codes "KubeconfigCommand",
      codes "aws eks update-kubeconfig --name "
          ++ (n.cluster_name
              ++ (codes " --region "
                  ++ (region ++ (codes " --role-arn " ++ n.cluster_admin_role_arn)))),
    )
    ∷ []

-- Those of the `Workloads` inside of that stack.
unfoldable pub workloads_outputs : Text → Text → WorkloadNames → List (Text × Text)
workloads_outputs api_base_url served_model_name n =
    (codes "ApiBaseUrl", api_base_url)
    ∷ (codes "InternalAlbDnsName", n.load_balancer_dns_name)
    ∷ (codes "HttpApiId", n.http_api_id)
    ∷ (codes "ServedModelName", served_model_name)
    ∷ (codes "VllmInternalUrl", vllm_internal_url)
    ∷ (codes "AlarmTopicArn", n.alarm_topic_arn)
    ∷ (codes "DashboardName", n.dashboard_name)
    ∷ []
