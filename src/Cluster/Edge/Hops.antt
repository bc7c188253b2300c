-- ===== src/Cluster/Edge/Hops.antt =====
-- The connections of one chat request, from the VPC link to the model.
use eks_any_model_hosting.Common.{
  ℕ, ◌≡◌, refl, inl, inr, true, false, List, ◌++◌, Option, some, Text, codes, text_eq, Any, All,
}
use eks_any_model_hosting.Json.{Json, str, obj, field, end}
use eks_any_model_hosting.Config.Pilot.{Numbers, PilotEnvironmentConfig}
use eks_any_model_hosting.Config.Amplify.{FastapiCognitoConfig}
use eks_any_model_hosting.Cluster.Workload.{Deployment, Service}
use eks_any_model_hosting.Cluster.Vllm.{vllm_deployment, vllm_service}
use eks_any_model_hosting.Cluster.Fastapi.{
  FastapiWorkloadProps, fastapi_deployment, fastapi_service, fastapi_config,
}
use eks_any_model_hosting.Cluster.Policies.{network_policies}
use eks_any_model_hosting.Cluster.Policies.Traffic.{
  Pod, pod, outside, inbound, outbound, is_permitted,
}
use eks_any_model_hosting.Cluster.Scheduling.{IsSelected}
use eks_any_model_hosting.Cluster.Addons.{Addon, addons}
use eks_any_model_hosting.Cluster.GpuNodes.{NodegroupOptions, gpu_node_group}
use eks_any_model_hosting.Cluster.Nodes.{cpu_node_group}
use eks_any_model_hosting.Cluster.Placement.{IsPlaced, deployments-IsPlaced}
use eks_any_model_hosting.Cluster.Api.{Edge, IngressRule}
use eks_any_model_hosting.Cluster.Edge.{edge_of, fastapi_props, image_uri_of}
use eks_any_model_hosting.Cluster.Edge.Served.{service_routes}

abbrev pub pod_of : Deployment → Pod
pod_of d = record { namespace = d.namespace; labels = d.pod_labels }

-- A security group lets another one in on a port.
abbrev pub Admits : List IngressRule → Text → Text → ℕ → Type 0
Admits rules group source port =
    Any (λ r. (r.group ≡ group) × (r.source ≡ source) × (r.port ≡ port)) rules

-- A service's port ends at a port of the deployment's containers.
pub record Reaches (s : Service) (port : ℕ) (d : Deployment) (target : ℕ) : Type 0 where
  pub namespace : s.namespace ≡ d.namespace
  pub selected : IsSelected s.selector d.pod_labels
  pub forwarded : Any (λ p. (p.port ≡ port) × (p.target_port ≡ target)) s.ports
  pub listening : All (λ k. Any (λ p. p.1 ≡ target) k.container_ports) d.containers

-- Each hop, for the edge, the two workloads, and the environment of the service.
pub record IsConnected {Number : Type 0} (cpu gpu : NodegroupOptions Number) (e : Edge)
    (service model : Deployment) (env : List (Text × Text)) (installed : List Addon)
    (stringify : Json → Text) : Type 0 where
  -- each workload runs on nodes of its own
  pub placed : IsPlaced cpu gpu service model
  -- from the VPC link to the load balancer, and from there to the pods
  pub link : Admits e.ingress (codes "InternalAlbSg") (codes "VpcLinkSg") e.listener.port
  pub balancer : Admits e.ingress (codes "cluster") (codes "InternalAlbSg") e.listener.targets.port
  pub bound :
      (e.binding.service_name ≡ fastapi_service.name)
      × (e.binding.namespace ≡ fastapi_service.namespace)
  pub service_reached :
      Reaches fastapi_service e.binding.service_port service e.listener.targets.port
  pub health :
      Any (λ r. (r.path ≡ e.listener.targets.health_path) × (r.authorized ≡ false)) service_routes
  -- from the service to the model
  pub addressed :
      Any
        (λ v. v ≡ (
          codes "VLLM_BASE_URL",
          codes "http://"
              ++ (vllm_service.name
                  ++ (codes "." ++ (vllm_service.namespace ++ codes ".svc.cluster.local:8000"))),
        ))
        env
  pub model_reached : Reaches vllm_service 8000 model 8000
  -- what the policies permit, which the VPC CNI enforces
  pub enforced :
      Any
        (λ a.
          (a.addon_name ≡ codes "vpc-cni")
          × (a.configuration_values
              ≡ some
                  (stringify (obj (field (codes "enableNetworkPolicy") (str (codes "true")) end)))))
        installed
  pub entered :
      is_permitted network_policies inbound
        (pod_of service)
        outside
        (codes "TCP")
        e.listener.targets.port
      ≡ true
  pub left :
      is_permitted network_policies outbound
        (pod_of service)
        (pod (pod_of model))
        (codes "TCP")
        8000
      ≡ true
  pub arrived :
      is_permitted network_policies inbound (pod_of model) (pod (pod_of service)) (codes "TCP") 8000
      ≡ true
  pub hidden :
      (protocol : Text) (port : ℕ)
      → is_permitted network_policies inbound (pod_of model) outside protocol port ≡ false

-- For every configuration, a chat request has its whole way: the security groups admit it from the
-- VPC link to the service's pods, the binding, the service and the container agree on their ports,
-- the service is given the address of the model's service, and the policies permit both hops. No
-- connection from outside the cluster reaches the model. The service's pods run on the CPU nodes
-- only, the model's pods and the device plugin on the GPU nodes only.
pub edge-IsConnected :
    {Number : Type 0} (numbers : Numbers Number) (c : PilotEnvironmentConfig Number)
    (cognito : FastapiCognitoConfig) (repository_uri : Text) (api_image_tag : Option Text)
    (spa_origin : Text) (stringify : Json → Text) (oidc_arn oidc_issuer : Text)
    (versions : List (Text × Text))
    → let props : FastapiWorkloadProps Number =
        fastapi_props c cognito (image_uri_of repository_uri api_image_tag) spa_origin in
      IsConnected
        (cpu_node_group c)
        (gpu_node_group c)
        (edge_of c cognito repository_uri api_image_tag spa_origin)
        (fastapi_deployment props)
        (vllm_deployment numbers c)
        (fastapi_config numbers props)
        (addons stringify oidc_arn oidc_issuer versions)
        stringify
unfolding edge_of fastapi_deployment vllm_deployment fastapi_config addons network_policies text_eq
edge-IsConnected numbers c cognito repository_uri api_image_tag spa_origin stringify oidc_arn
      oidc_issuer versions =
    record {
      placed =
          deployments-IsPlaced numbers c
            (fastapi_props c cognito (image_uri_of repository_uri api_image_tag) spa_origin);
      link = inr (inl (refl, refl, refl));
      balancer = inl (refl, refl, refl);
      bound = (refl, refl);
      service_reached = record {
        namespace = refl;
        selected = (inl refl, tt);
        forwarded = inl (refl, refl);
        listening = (inl refl, tt);
      };
      health = inr (inl (refl, refl));
      addressed = inr (inr (inr (inr (inr (inr (inl refl))))));
      model_reached = record {
        namespace = refl;
        selected = (inl refl, tt);
        forwarded = inl (refl, refl);
        listening = (inl refl, tt);
      };
      enforced = inl (refl, refl);
      entered = refl;
      left = refl;
      arrived = refl;
      hidden = λ protocol port. refl;
    }
