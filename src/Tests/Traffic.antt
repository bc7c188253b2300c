-- ===== src/Tests/Traffic.antt =====
-- The traffic of the default configuration's cluster.
use eks_any_model_hosting.Common.{ℕ, ◌≡◌, refl, [], none, Text, codes, text_eq, arith}
use eks_any_model_hosting.Json.{Json}
use eks_any_model_hosting.Chat.Requests.{StreamRequest, chat_request, forget_session_request}
use eks_any_model_hosting.Config.Pilot.{PilotEnvironmentConfig}
use eks_any_model_hosting.Config.Pilot.Load.{resolved_config}
use eks_any_model_hosting.Config.Amplify.{FastapiCognitoConfig}
use eks_any_model_hosting.Cluster.GpuNodes.{gpu_node_group}
use eks_any_model_hosting.Cluster.Nodes.{cpu_node_group}
use eks_any_model_hosting.Cluster.Vllm.{vllm_deployment}
use eks_any_model_hosting.Cluster.Fastapi.{FastapiWorkloadProps, fastapi_deployment, fastapi_config}
use eks_any_model_hosting.Cluster.Policies.{network_policies}
use eks_any_model_hosting.Cluster.Policies.Traffic.{pod, outbound, is_permitted}
use eks_any_model_hosting.Cluster.Policies.Matrix.{matrix, is_permitted-matrix}
use eks_any_model_hosting.Cluster.Addons.{addons}
use eks_any_model_hosting.Cluster.Edge.{edge_of, fastapi_props, image_uri_of}
use eks_any_model_hosting.Cluster.Edge.Served.{IsServed, edge-IsServed}
use eks_any_model_hosting.Cluster.Edge.Hops.{IsConnected, pod_of, edge-IsConnected}
use eks_any_model_hosting.Tests.Settings.{hundredths, js, process}

abbrev config : PilotEnvironmentConfig ℕ
config = resolved_config js process none none

abbrev cognito : FastapiCognitoConfig
cognito = record {
  region = codes "us-east-1";
  user_pool_id = codes "pool";
  app_client_id = codes "client";
  issuer = codes "https://issuer";
  jwks_url = codes "https://issuer/.well-known/jwks.json";
}

abbrev spa_origin : Text
spa_origin = codes "http://localhost:5173"

abbrev workload : FastapiWorkloadProps ℕ
workload = fastapi_props config cognito (image_uri_of (codes "repository") none) spa_origin

abbrev text_of_json : Json → Text
text_of_json j = codes "{}"

abbrev asked : StreamRequest
asked = record {
  access_token = codes "at";
  messages = [];
  temperature = none;
  max_output_tokens = none;
  session_id = none;
}

-- From the service to the model.
is_permitted-matrix_example :
    is_permitted network_policies outbound
      (pod_of (fastapi_deployment workload))
      (pod (pod_of (vllm_deployment hundredths config)))
      (codes "TCP")
      8000
    ≡ matrix outbound
        (pod_of (fastapi_deployment workload))
        (pod (pod_of (vllm_deployment hundredths config)))
        (codes "TCP")
        8000
unfolding text_eq fastapi_deployment
is_permitted-matrix_example =
    is_permitted-matrix (pod_of (fastapi_deployment workload))
      (pod (pod_of (vllm_deployment hundredths config))) (codes "TCP") 8000 refl outbound

edge-IsServed_example :
    IsServed
      (edge_of config cognito (codes "repository") none spa_origin)
      spa_origin
      (codes "https://api")
      (chat_request (codes "https://api") text_of_json asked)
    × IsServed
        (edge_of config cognito (codes "repository") none spa_origin)
        spa_origin
        (codes "https://api")
        (forget_session_request (codes "https://api") (λ s. s) (codes "s-1") (codes "at"))
edge-IsServed_example =
    edge-IsServed config cognito (codes "repository") none spa_origin (codes "https://api")
      text_of_json asked (λ s. s) (codes "s-1") (codes "at") refl
      (ground arith, (ground arith, (ground arith, tt)))

edge-IsConnected_example :
    IsConnected
      (cpu_node_group config)
      (gpu_node_group config)
      (edge_of config cognito (codes "repository") none spa_origin)
      (fastapi_deployment workload)
      (vllm_deployment hundredths config)
      (fastapi_config hundredths workload)
      (addons text_of_json (codes "arn") (codes "issuer") [])
      text_of_json
edge-IsConnected_example =
    edge-IsConnected hundredths config cognito (codes "repository") none spa_origin text_of_json
      (codes "arn") (codes "issuer") []
