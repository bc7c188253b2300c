-- ===== src/Hosting/Monitoring/Alarms.antt =====
-- The alarms watch what the other stacks deploy.
use eks_any_model_hosting.Common.{
  map, All, ◌⊎◌, ℕ, ◌*◌, ◌<◌, ◌≡◌, refl, inl, inr, List, [], ◌∷◌, Option, Text, codes, Any, arith,
}
use eks_any_model_hosting.Config.Pilot.{Numbers, PilotEnvironmentConfig}
use eks_any_model_hosting.Cluster.Workload.{Deployment}
use eks_any_model_hosting.Cluster.Vllm.{vllm_deployment}
use eks_any_model_hosting.Cluster.Fastapi.{FastapiWorkloadProps, fastapi_deployment}
use eks_any_model_hosting.Cluster.Api.{Edge}
use eks_any_model_hosting.Cluster.Edge.{edge_of}
use eks_any_model_hosting.Hosting.Network.{cluster_props}
use eks_any_model_hosting.Hosting.Monitoring.{
  observability_props, Metric, Watched, metric, math_expression, Alarm, alarms,
}

-- The metrics that an alarm is computed from.
abbrev pub metrics_of : Watched → List Metric
metrics_of (metric m) = m ∷ []
metrics_of (math_expression e named label period) = map (λ p. p.1) named

abbrev pub period_of : Watched → ℕ
period_of (metric m) = m.period_minutes
period_of (math_expression e named label period) = period

-- The minutes that a condition lasts before the alarm.
abbrev pub minutes_of : Alarm → ℕ
minutes_of a = a.evaluation_periods * period_of a.watched

abbrev pub IsOfStage : Text → Text → Metric → Type 0
IsOfStage api stage m = m.dimensions_map ≡ (codes "ApiId", api) ∷ (codes "Stage", stage) ∷ []

-- The alarms fit an API with its edge, a cluster and its two workloads.
pub record IsMatched (installed : List Alarm) (api cluster : Text) (e : Edge)
    (service model : Deployment) : Type 0 where
  pub errors :
      Any
        (λ a.
          (a.id ≡ codes "Api5xxAlarm")
          × All (IsOfStage api e.stage.name) (metrics_of a.watched)
          × (minutes_of a ≡ 15))
        installed
  -- In milliseconds; the edge cuts a request off at its timeout.
  pub latency :
      Any
        (λ a.
          (a.id ≡ codes "ApiIntegrationLatencyAlarm")
          × All (IsOfStage api e.stage.name) (metrics_of a.watched)
          × (a.threshold < 1000 * e.integration_timeout_seconds))
        installed
  pub restarts :
      (d : Deployment)
      → (d ≡ service) ⊎ (d ≡ model)
      → Any
          (λ a.
            (a.id ≡ codes "PodRestartAlarm")
            × All
                (λ m.
                  m.dimensions_map
                  ≡ (codes "ClusterName", cluster) ∷ (codes "Namespace", d.namespace) ∷ [])
                (metrics_of a.watched))
          installed

-- For every configuration, the alarms on the API watch the stage that the edge deploys: the one on
-- errors takes 15 minutes, as its description says, and the one on latency is raised before the
-- integration times out. The alarm on restarts watches the namespace of both workloads.
alarms-IsMatched :
    {Number : Type 0} (numbers : Numbers Number) (c : PilotEnvironmentConfig Number)
    (props : FastapiWorkloadProps Number) (http_api_id repository_uri : Text)
    (api_image_tag : Option Text) (spa_origin : Text)
    → let cluster = (cluster_props c).cluster_name in
      IsMatched
        (alarms (observability_props c cluster http_api_id))
        http_api_id
        cluster
        (edge_of c props.cognito repository_uri api_image_tag spa_origin)
        (fastapi_deployment props)
        (vllm_deployment numbers c)
unfolding alarms edge_of fastapi_deployment vllm_deployment
alarms-IsMatched numbers c props http_api_id repository_uri api_image_tag spa_origin = record {
  errors = inl (refl, (refl, (refl, tt)), refl);
  latency = inr (inl (refl, (refl, tt), ground arith));
  restarts = λ d h. elim h [
    | inl e ↦ rw e (inr (inr (inl (refl, (refl, tt)))))
    | inr e ↦ rw e (inr (inr (inl (refl, (refl, tt)))))
  ];
}
