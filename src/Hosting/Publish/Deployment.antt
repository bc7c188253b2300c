-- ===== src/Hosting/Publish/Deployment.antt =====
-- The deployment in two phases of scripts/deploy.sh: the stage is deployed again with the hosting's
-- URL as its redirect, and the application is then built with the stacks' outputs.
use eks_any_model_hosting.Common.{
  ◌≡◌, refl, List, [], ◌∷◌, ◌++◌, map, Option, some, Text, codes, text_eq, trim, All, starts_with,
}
use eks_any_model_hosting.Config.Spa.{load_config, loaded}
use eks_any_model_hosting.Config.Pilot.{PilotEnvironmentConfig, ProcessEnv, Raw}
use eks_any_model_hosting.Config.Pilot.Load.{Conversions, resolved_config}
use eks_any_model_hosting.Config.Amplify.{variables_of, redirect_of, spa_app}
use eks_any_model_hosting.Config.Amplify.Contract.{IsInlined, IsFilled, configured}
use eks_any_model_hosting.Cluster.Edge.{api_base_url_of}
use eks_any_model_hosting.Hosting.Cognito.{user_pool_client, domain_base_url, auth_outputs}
use eks_any_model_hosting.Hosting.Application.{Deployed, cognito_of, application, application_on}
use eks_any_model_hosting.Hosting.Application.SignIn.{
  IsRoot, origin, IsSignInReady, deployed, redirect_of-root, application-IsSignInReady,
}
use eks_any_model_hosting.Hosting.Outputs.{
  branch_url, amplify_outputs, ClusterNames, WorkloadNames, eks_outputs, workloads_outputs,
}
use eks_any_model_hosting.Hosting.Publish.{contains, out, required, Described, published}

-- -c "spaRedirectUrl=${AMPLIFY_URL}/"
abbrev pub spa_redirect_url : Text → Text
spa_redirect_url amplify_url = amplify_url ++ codes "/"

-- What AWS assigns besides.
pub record Assigned : Type 0 where
  pub app_id : Text
  pub default_domain : Text
  pub cluster : ClusterNames
  pub workloads : WorkloadNames

abbrev pub key_of : (Text → Text) → Text × Text → Text × Text
key_of logical_id (id, value) = (logical_id id, value)

module _ {Number : Type 0} where
  -- The outputs of an application.
  abbrev pub described :
      (Text → Text) → PilotEnvironmentConfig Number → Deployed → Assigned → Described
  described logical_id config d a = record {
    amplify = amplify_outputs a.app_id a.default_domain;
    eks =
        map (key_of logical_id)
          (workloads_outputs (api_base_url_of d.stage_url) config.served_model_name a.workloads)
        ++ eks_outputs config.region a.cluster;
    auth = auth_outputs config config.region d.user_pool_id d.user_pool_client_id d.domain_name;
  }

abbrev pub workload_ids : List Text
workload_ids =
    codes "ApiBaseUrl"
    ∷ codes "InternalAlbDnsName"
    ∷ codes "HttpApiId"
    ∷ codes "ServedModelName"
    ∷ codes "VllmInternalUrl"
    ∷ codes "AlarmTopicArn"
    ∷ codes "DashboardName"
    ∷ []

-- What the CDK documents of the logical id of a nested output: it has the construct's id in it. Of
-- the ids of these outputs, it has no other one that the script looks for.
pub record IsLogical (logical_id : Text → Text) : Type 0 where
  pub api :
      All
        (λ id. contains (codes "ApiBaseUrl") (logical_id id) ≡ text_eq id (codes "ApiBaseUrl"))
        workload_ids
  pub model :
      All
        (λ id.
          contains (codes "ServedModelName") (logical_id id) ≡ text_eq id (codes "ServedModelName"))
        workload_ids

-- The outputs that the script requires are there.
pub record IsAssigned (d : Deployed) (a : Assigned) : Type 0 where
  pub app : required (some a.app_id) ≡ some a.app_id
  pub api : required (some (api_base_url_of d.stage_url)) ≡ some (api_base_url_of d.stage_url)
  pub pool : required (some d.user_pool_id) ≡ some d.user_pool_id
  pub client : required (some d.user_pool_client_id) ≡ some d.user_pool_client_id

module _ {Number : Type 0} (config : PilotEnvironmentConfig Number) (logical_id : Text → Text)
    (d : Deployed) (a : Assigned) (h : IsLogical logical_id) where
  out-api :
      out (described logical_id config d a).eks (codes "ApiBaseUrl")
      ≡ some (api_base_url_of d.stage_url)
  unfolding out workloads_outputs text_eq
  out-api = rw h.api.0 refl

  out-model :
      out (described logical_id config d a).eks (codes "ServedModelName")
      ≡ some config.served_model_name
  unfolding out workloads_outputs text_eq
  out-model = let (api, (alb, (http, (model, _)))) = h.model in rw (api, alb, http, model) refl

  -- What the script builds with, on the application's URL.
  published-variables :
      (origin : Text)
      → IsAssigned d a
      → redirect_of origin ≡ spa_redirect_url (branch_url a.default_domain)
      → published config.region (described logical_id config d a)
        ≡ some (
            variables_of (record {
              config = config;
              cognito = cognito_of config d;
              cognito_domain = domain_base_url config.region d.domain_name;
              api_base_url = api_base_url_of d.stage_url;
              initial_redirect_origin = origin;
            }))
  unfolding published contains starts_with amplify_outputs auth_outputs text_eq
  published-variables origin given redirect =
      rw (given.app, out-api, given.api, given.pool, given.client, out-model, redirect) refl

abbrev pub amplify_url : Assigned → Text
amplify_url a = branch_url a.default_domain

-- The configuration of the second phase.
abbrev pub rewired :
    {Number : Type 0}
    → Conversions Number
    → ProcessEnv
    → Option (Raw Number)
    → Assigned
    → PilotEnvironmentConfig Number
rewired js process context a =
    resolved_config js process context (some (spa_redirect_url (amplify_url a)))

module _ {Number : Type 0} (js : Conversions Number) (process : ProcessEnv)
    (context : Option (Raw Number)) (sha256_hex to_lower_case : Text → Text)
    (parse_url : Text → Option (Text × Text)) (api_image_tag : Option Text) (d : Deployed)
    (a : Assigned) where
  -- Behind both phases of a deployment, where the hosting's URL with its slash is read as an origin's
  -- root, the script builds the application with exactly the variables that the stage gives to its
  -- hosting, from the stacks' outputs, however nested ones are named. The stage deploys with the
  -- configuration of the second phase, and the published application loads its own and is ready to sign
  -- in: it returns to the one callback URL that the client of the user pool allows, and its origin is
  -- the one that the edge and the service allow. The values that AWS assigns are given and not blank,
  -- the client's id has no spaces around it, and the build inlines its variables.
  pub application-IsPublished :
      (root : IsRoot parse_url (spa_redirect_url (amplify_url a))) (logical_id : Text → Text)
      (env : Text → Option Text)
      → let config = rewired js process context a in
        let app =
          deployed config sha256_hex to_lower_case parse_url api_image_tag d
            (spa_redirect_url (amplify_url a))
            root in
        IsLogical logical_id
        → IsAssigned d a
        → IsFilled app.amplify
        → trim d.user_pool_client_id ≡ d.user_pool_client_id
        → IsInlined env (variables_of app.amplify)
        → (published config.region (described logical_id config d a)
            ≡ some (variables_of app.amplify))
          × (application config sha256_hex to_lower_case parse_url api_image_tag d ≡ some app)
          × (load_config env ≡ loaded (configured app.amplify))
          × IsSignInReady js.numbers config.region d app
              (configured app.amplify)
              (origin parse_url (spa_redirect_url (amplify_url a)) root)
          × (app.client.callback_urls ≡ spa_redirect_url (amplify_url a) ∷ [])
  unfolding spa_app application_on user_pool_client resolved_config branch_url
  application-IsPublished root logical_id env h given filled id inlined =
      let url = spa_redirect_url (amplify_url a) in
      let config = rewired js process context a in
      let (staged, loads, ready) =
        application-IsSignInReady config sha256_hex to_lower_case parse_url api_image_tag d url root
          js.numbers env refl filled id inlined in
      (
        published-variables config logical_id d a h (origin parse_url url root) given
            (redirect_of-root parse_url url root),
        staged,
        loads,
        ready,
        refl,
      )
