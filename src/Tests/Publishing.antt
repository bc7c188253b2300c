-- ===== src/Tests/Publishing.antt =====
-- The default configuration, deployed in two phases and published.
use eks_any_model_hosting.Common.{
  ℕ, ◌≡◌, refl, [], ◌∷◌, ◌++◌, Option, none, some, Text, codes, text_eq, trim, starts_with,
}
use eks_any_model_hosting.Config.Spa.{load_config, loaded, strip_trailing_slash}
use eks_any_model_hosting.Config.Spa.Load.{strip_trailing_slash-Stripped}
use eks_any_model_hosting.Config.Pilot.{PilotEnvironmentConfig}
use eks_any_model_hosting.Config.Pilot.Load.{resolved_config}
use eks_any_model_hosting.Config.Amplify.{variables_of}
use eks_any_model_hosting.Config.Amplify.Contract.{IsInlined, IsFilled, configured}
use eks_any_model_hosting.Cluster.Edge.{api_base_url_of}
use eks_any_model_hosting.Hosting.Application.{Application, application, application_on}
use eks_any_model_hosting.Hosting.Application.SignIn.{IsRoot, origin, IsSignInReady, deployed}
use eks_any_model_hosting.Hosting.Outputs.{branch_url}
use eks_any_model_hosting.Hosting.Publish.{contains, published}
use eks_any_model_hosting.Hosting.Publish.Deployment.{
  Assigned, IsLogical, IsAssigned, described, rewired, application-IsPublished,
}
use eks_any_model_hosting.Tests.Settings.{js, process}
use eks_any_model_hosting.Tests.SignIn.{assigned, identity, lookup, client-trimmed}

abbrev hosted : Text
hosted = codes "https://main.d1.amplifyapp.com/"

abbrev parse_hosted : Text → Option (Text × Text)
parse_hosted url = some (codes "https:", codes "main.d1.amplifyapp.com")

hosted-IsRoot : IsRoot parse_hosted hosted
unfolding trim strip_trailing_slash
hosted-IsRoot = record {
  protocol = codes "https:";
  host = codes "main.d1.amplifyapp.com";
  parsed = refl;
  whole = refl;
  plain = (strip_trailing_slash-Stripped (codes "https://main.d1.amplifyapp.com")).plain;
  trimmed = refl;
}

abbrev names : Assigned
names = record {
  app_id = codes "d1";
  default_domain = codes "d1.amplifyapp.com";
  cluster = record {
    cluster_name = codes "cluster";
    cluster_arn = codes "arn";
    gpu_nodegroup_name = codes "gpu";
    cpu_nodegroup_name = codes "cpu";
    cluster_admin_role_arn = codes "role";
  };
  workloads = record {
    load_balancer_dns_name = codes "alb";
    http_api_id = codes "api";
    alarm_topic_arn = codes "topic";
    dashboard_name = codes "dashboard";
  };
}

-- The CDK puts the construct before the id, and eight digits of a hash behind it.
abbrev nested : Text → Text
nested id = codes "Workloads" ++ (id ++ codes "B23D3DDF")

nested-IsLogical : IsLogical nested
unfolding contains starts_with text_eq
nested-IsLogical = record {
  api = (refl, (refl, (refl, (refl, (refl, (refl, (refl, tt)))))));
  model = (refl, (refl, (refl, (refl, (refl, (refl, (refl, tt)))))));
}

names-IsAssigned : IsAssigned assigned names
unfolding text_eq api_base_url_of
names-IsAssigned = record { app = refl; api = refl; pool = refl; client = refl }

abbrev config : PilotEnvironmentConfig ℕ
config = rewired js process none names

abbrev staged : Application ℕ
staged = deployed config identity identity parse_hosted none assigned hosted hosted-IsRoot

abbrev inlined : Text → Option Text
inlined name = lookup name (variables_of staged.amplify)

staged-IsFilled : IsFilled staged.amplify
unfolding trim resolved_config application_on branch_url
staged-IsFilled = record {
  region = refl;
  pool = refl;
  client = refl;
  domain = refl;
  api = refl;
  model = refl;
}

inlined-IsInlined : IsInlined inlined (variables_of staged.amplify)
unfolding text_eq
inlined-IsInlined = record {
  given = (refl, (refl, (refl, (refl, (refl, (refl, (refl, (refl, tt))))))));
}

application-IsPublished_example :
    (published config.region (described nested config assigned names)
      ≡ some (variables_of staged.amplify))
    × (application config identity identity parse_hosted none assigned ≡ some staged)
    × (load_config inlined ≡ loaded (configured staged.amplify))
    × IsSignInReady js.numbers config.region assigned staged
        (configured staged.amplify)
        (origin parse_hosted hosted hosted-IsRoot)
    × (staged.client.callback_urls ≡ hosted ∷ [])
unfolding branch_url
application-IsPublished_example =
    application-IsPublished js process none identity identity parse_hosted none assigned names
      hosted-IsRoot nested inlined nested-IsLogical names-IsAssigned staged-IsFilled client-trimmed
      inlined-IsInlined
