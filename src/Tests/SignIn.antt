-- ===== src/Tests/SignIn.antt =====
-- The stage of the default configuration, from the first callback URL to the sign-in.
use eks_any_model_hosting.Common.{
  ℕ, ◌≡◌, refl, [], ◌∷◌, List, Option, none, some, Text, codes, text_eq, trim, if◌then◌else◌,
}
use eks_any_model_hosting.Config.Spa.{load_config, loaded, strip_trailing_slash}
use eks_any_model_hosting.Config.Spa.Load.{strip_trailing_slash-Stripped}
use eks_any_model_hosting.Config.Pilot.{PilotEnvironmentConfig}
use eks_any_model_hosting.Config.Pilot.Load.{resolved_config}
use eks_any_model_hosting.Config.Amplify.{variables_of, spa_app}
use eks_any_model_hosting.Config.Amplify.Contract.{IsInlined, IsFilled, configured}
use eks_any_model_hosting.Cluster.Edge.{first_url}
use eks_any_model_hosting.Hosting.Application.{Deployed, Application, application, application_on}
use eks_any_model_hosting.Hosting.Application.SignIn.{
  IsRoot, origin, IsSignInReady, deployed, application-IsSignInReady,
}
use eks_any_model_hosting.Hosting.Monitoring.Retention.{two_weeks, map_retention}
use eks_any_model_hosting.Tests.Settings.{hundredths, js, process}

abbrev pub config : PilotEnvironmentConfig ℕ
config = resolved_config js process none none

abbrev local : Text
local = codes "http://localhost:5173/"

abbrev pub parse_url : Text → Option (Text × Text)
parse_url url = some (codes "http:", codes "localhost:5173")

local-IsRoot : IsRoot parse_url local
unfolding trim strip_trailing_slash
local-IsRoot = record {
  protocol = codes "http:";
  host = codes "localhost:5173";
  parsed = refl;
  whole = refl;
  plain = (strip_trailing_slash-Stripped (codes "http://localhost:5173")).plain;
  trimmed = refl;
}

abbrev pub assigned : Deployed
assigned = record {
  user_pool_id = codes "us-east-1_Pool";
  user_pool_client_id = codes "client";
  domain_name = codes "llama-pilot-dev-0";
  repository_uri = codes "repository";
  stage_url = codes "https://api/";
}

abbrev pub identity : Text → Text
identity s = s

abbrev staged : Application ℕ
staged = deployed config identity identity parse_url none assigned local local-IsRoot

abbrev pub lookup : Text → List (Text × Text) → Option Text
lookup name [] = none
lookup name ((n, v) ∷ variables) = if text_eq n name then some v else lookup name variables

abbrev inlined : Text → Option Text
inlined name = lookup name (variables_of staged.amplify)

staged-IsFilled : IsFilled staged.amplify
unfolding trim resolved_config application_on
staged-IsFilled = record {
  region = refl;
  pool = refl;
  client = refl;
  domain = refl;
  api = refl;
  model = refl;
}

inlined-IsInlined : IsInlined inlined (variables_of staged.amplify)
unfolding text_eq
inlined-IsInlined = record {
  given = (refl, (refl, (refl, (refl, (refl, (refl, (refl, (refl, tt))))))));
}

first-local : first_url config.cognito_callback_urls ≡ some local
unfolding resolved_config
first-local = refl

pub client-trimmed : trim (codes "client") ≡ codes "client"
unfolding trim
client-trimmed = refl

application-IsSignInReady_example :
    (application config identity identity parse_url none assigned ≡ some staged)
    × (load_config inlined ≡ loaded (configured staged.amplify))
    × IsSignInReady hundredths config.region assigned staged
        (configured staged.amplify)
        (origin parse_url local local-IsRoot)
unfolding spa_app
application-IsSignInReady_example =
    application-IsSignInReady config identity identity parse_url none assigned local local-IsRoot
      hundredths inlined first-local staged-IsFilled client-trimmed inlined-IsInlined

-- Every other number of days.
retention_test : map_retention hundredths config.log_retention_days ≡ two_weeks
unfolding map_retention text_eq
retention_test = refl
