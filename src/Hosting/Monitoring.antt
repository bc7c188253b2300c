-- ===== src/Hosting/Monitoring.antt =====
-- The log groups, metrics, alarms and dashboard of lib/constructs/observability.ts. The CDK creates
-- them.
pub mod Retention
pub mod Alarms
use eks_any_model_hosting.Common.{ℕ, List, [], ◌∷◌, ◌++◌, Text, codes}
use eks_any_model_hosting.Config.Pilot.{Numbers, PilotEnvironmentConfig}
use eks_any_model_hosting.Config.Pilot.Load.{resource_name}
use eks_any_model_hosting.Hosting.Monitoring.Retention.{RetentionDays, map_retention}

pub record ObservabilityProps (Number : Type 0) : Type 0 where
  pub config : PilotEnvironmentConfig Number
  pub cluster_name : Text
  pub http_api_id : Text
  pub api_stage_name : Text

-- Of the construct in lib/stacks/workload-stack.ts.
abbrev pub observability_props :
    {Number : Type 0} → PilotEnvironmentConfig Number → Text → Text → ObservabilityProps Number
observability_props config cluster_name http_api_id = record {
  config = config;
  cluster_name = cluster_name;
  http_api_id = http_api_id;
  api_stage_name = codes "$default";
}

pub record LogGroup : Type 0 where
  pub log_group_name : Text
  pub retention : RetentionDays
  pub removal_policy : Text

record Topic : Type 0 where
  pub topic_name : Text
  pub display_name : Text

module _ {Number : Type 0} where
  -- What the alarms notify.
  unfoldable alarm_topic : PilotEnvironmentConfig Number → Topic
  unfolding resource_name
  alarm_topic config = record {
    topic_name = resource_name config (codes "alarms");
    display_name = codes "llama-pilot alarms";
  }

pub record Metric : Type 0 where
  pub namespace : Text
  pub metric_name : Text
  pub dimensions_map : List (Text × Text)
  pub statistic : Text
  pub period_minutes : ℕ

-- A metric, or an expression of CloudWatch over metrics that it names.
pub data Watched : Type 0 where
  metric : Metric → Watched
  math_expression : Text → List (Text × Metric) → Text → ℕ → Watched

pub record Alarm : Type 0 where
  pub id : Text
  pub alarm_name : Text
  pub watched : Watched
  pub threshold : ℕ
  pub evaluation_periods : ℕ
  pub comparison_operator : Text
  pub treat_missing_data : Text
  pub alarm_description : Text

pub data Widget : Type 0 where
  text_widget : Text → ℕ → ℕ → Widget
  graph_widget : Text → List Metric → List Metric → ℕ → Widget

abbrev container_insights : Text
container_insights = codes "ContainerInsights"

-- Every alarm is raised above its threshold, and missing data does not raise it.
abbrev pub above : Text → Text → Watched → ℕ → ℕ → Text → Alarm
above id alarm_name watched threshold evaluation_periods alarm_description = record {
  id = id;
  alarm_name = alarm_name;
  watched = watched;
  threshold = threshold;
  evaluation_periods = evaluation_periods;
  comparison_operator = codes "GREATER_THAN_THRESHOLD";
  treat_missing_data = codes "NOT_BREACHING";
  alarm_description = alarm_description;
}

module _ {Number : Type 0} (props : ObservabilityProps Number) where
  abbrev pub api_metric : Text → Text → Metric
  api_metric name stat = record {
    namespace = codes "AWS/ApiGateway";
    metric_name = name;
    dimensions_map =
        (codes "ApiId", props.http_api_id) ∷ (codes "Stage", props.api_stage_name) ∷ [];
    statistic = stat;
    period_minutes = 1;
  }

  abbrev pub err_5xx_rate : Watched
  err_5xx_rate =
      math_expression (codes "IF(requests > 0, 100 * errors / requests, 0)")
        ((codes "errors", api_metric (codes "5xx") (codes "Sum"))
          ∷ (codes "requests", api_metric (codes "Count") (codes "Sum"))
          ∷ [])
        (codes "API 5xx error rate (%)") 5

  abbrev pub pod_restarts : Metric
  pod_restarts = record {
    namespace = container_insights;
    metric_name = codes "pod_number_of_container_restarts";
    dimensions_map =
        (codes "ClusterName", props.cluster_name) ∷ (codes "Namespace", codes "llama-pilot") ∷ [];
    statistic = codes "Sum";
    period_minutes = 5;
  }

  abbrev pub cluster_metric : Text → Text → Metric
  cluster_metric name stat = record {
    namespace = container_insights;
    metric_name = name;
    dimensions_map = (codes "ClusterName", props.cluster_name) ∷ [];
    statistic = stat;
    period_minutes = 1;
  }

  abbrev pub gpu_util : Metric
  gpu_util = cluster_metric (codes "container_gpu_utilization") (codes "Average")

  abbrev pub gpu_mem_util : Metric
  gpu_mem_util = cluster_metric (codes "container_gpu_memory_utilization") (codes "Average")

  abbrev pub node_count : Metric
  node_count = cluster_metric (codes "cluster_failed_node_count") (codes "Maximum")

  -- Each has the alarm topic as its action, and as its action on recovery.
  unfoldable pub alarms : List Alarm
  unfolding resource_name
  alarms =
      above (codes "Api5xxAlarm") (resource_name props.config (codes "api-5xx")) err_5xx_rate 5 3
        (codes "API Gateway 5xx error rate above 5% for 15 minutes")
      ∷ above (codes "ApiIntegrationLatencyAlarm")
          (resource_name props.config (codes "api-integration-latency"))
          (metric (api_metric (codes "IntegrationLatency") (codes "p95"))) 28000 3
          (codes "Backend integration latency approaching the API Gateway timeout")
      ∷ above (codes "PodRestartAlarm") (resource_name props.config (codes "pod-restarts"))
          (metric pod_restarts) 5 1
          (codes "Repeated container restarts in the llama-pilot namespace")
      ∷ above (codes "GpuMemoryAlarm") (resource_name props.config (codes "gpu-memory-high"))
          (metric gpu_mem_util) 95 3 (codes "GPU memory utilization sustained above 95%")
      ∷ above (codes "FailedNodeAlarm") (resource_name props.config (codes "failed-nodes"))
          (metric node_count) 0 1 (codes "One or more EKS nodes reported as failed")
      ∷ []

  -- The rows of the dashboard.
  unfoldable pub dashboard : List (List Widget)
  dashboard =
      (text_widget
          (codes "# llama-pilot ("
            ++ (props.config.environment_name
                ++ codes
                    ")\nAPI, model, GPU, pod and node health for the self-hosted Llama pilot."))
          24 2
        ∷ [])
      ∷ (graph_widget (codes "API requests & errors")
            (api_metric (codes "Count") (codes "Sum") ∷ [])
            (api_metric (codes "4xx") (codes "Sum") ∷ api_metric (codes "5xx") (codes "Sum") ∷ [])
            12
          ∷ graph_widget (codes "API latency (p95)")
              (api_metric (codes "Latency") (codes "p95")
                ∷ api_metric (codes "IntegrationLatency") (codes "p95")
                ∷ [])
              [] 12
          ∷ [])
      ∷ (graph_widget (codes "GPU utilization / memory") (gpu_util ∷ gpu_mem_util ∷ []) [] 12
          ∷ graph_widget (codes "Pod restarts & failed nodes") (pod_restarts ∷ []) (node_count ∷ [])
              12
          ∷ [])
      ∷ []

  -- Of the API's accesses, and of the application.
  unfoldable pub log_groups : Numbers Number → List LogGroup
  unfolding map_retention
  log_groups numbers =
      record {
        log_group_name =
            codes "/llama-pilot/" ++ (props.config.environment_name ++ codes "/api-gateway/access");
        retention = map_retention numbers props.config.log_retention_days;
        removal_policy = codes "DESTROY";
      }
      ∷ record {
        log_group_name =
            codes "/aws/containerinsights/" ++ (props.cluster_name ++ codes "/application");
        retention = map_retention numbers props.config.log_retention_days;
        removal_policy = codes "DESTROY";
      }
      ∷ []
