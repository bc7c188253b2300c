-- ===== src/Service/Auth/Deployed.antt =====
-- The settings that the API service has in the deployment of lib/application-stage.ts, and whom it
-- lets in there.
use eks_any_model_hosting.Common.{
  ◌≡◌, refl, Bool, false, [], ◌∷◌, Option, some, Text, codes, is_nil, split_plain, All, ◌≢◌,
}
use eks_any_model_hosting.Json.{Fields, str, find}
use eks_any_model_hosting.Config.Pilot.{Numbers, PilotEnvironmentConfig}
use eks_any_model_hosting.Cluster.Fastapi.{fastapi_config}
use eks_any_model_hosting.Cluster.Edge.{edge_of}
use eks_any_model_hosting.Hosting.Cognito.{user_pool_client, issuer_url, jwks_url_of}
use eks_any_model_hosting.Hosting.Application.{Deployed, Application, application_on}
use eks_any_model_hosting.Service.Inference.Chunks.{strip}
use eks_any_model_hosting.Service.Settings.{
  Settings, settings_of, issuer, jwks_url, cors_origins, stripped_parts,
}
use eks_any_model_hosting.Service.Auth.{Jwt, claims, Principal, granted, require_auth}
use eks_any_model_hosting.Service.Auth.Granted.{require_auth-IsAccess}

-- What PyJWT promises: it gives out only claims of the issuer that it is told.
pub record IsVerifying (jwt : Jwt) : Type 0 where
  pub issued :
      (token key expected : Text) (fs : Fields)
      → jwt.decode token key expected ≡ claims fs
      → find (codes "iss") fs ≡ some (str expected)

-- An origin for the list of allowed origins: not blank, without a comma and outer space.
pub record IsOrigin (origin : Text) : Type 0 where
  pub full : is_nil origin ≡ false
  pub stripped : strip origin ≡ origin
  pub single : All (λ c. c ≢ b',') origin

module _ {Number : Type 0} (config : PilotEnvironmentConfig Number)
    (sha256_hex to_lower_case : Text → Text) (parse_url : Text → Option (Text × Text))
    (api_image_tag : Option Text) (origin : Text) (d : Deployed) (numbers : Numbers Number)
    (parse_bool : Text → Option Bool) where
  abbrev pub staged : Application Number
  staged = application_on config sha256_hex to_lower_case parse_url api_image_tag origin d

  abbrev pub api_settings : Settings
  api_settings = record {
    cognito_region = config.region;
    cognito_user_pool_id = d.user_pool_id;
    cognito_app_client_id = d.user_pool_client_id;
    cognito_issuer = issuer_url config.region d.user_pool_id;
    cognito_jwks_url = jwks_url_of (issuer_url config.region d.user_pool_id);
    auth_disabled = false;
    cors_allow_origins = origin;
  }

  -- The container of the deployment has these settings; they are checked for the issuer of the
  -- edge's authorizer, with its public keys, and allow the one origin that the edge allows.
  pub record IsConfigured : Type 0 where
    pub configured :
        settings_of parse_bool (fastapi_config numbers staged.fastapi) ≡ some api_settings
    pub issued : issuer api_settings ≡ staged.edge.authorizer.issuer
    pub keys : jwks_url api_settings ≡ jwks_url_of staged.edge.authorizer.issuer
    pub origins : cors_origins api_settings ≡ staged.edge.cors.origins

  cors_origins-one : IsOrigin origin → cors_origins api_settings ≡ origin ∷ []
  unfolding cors_origins stripped_parts
  cors_origins-one o =
      rw (o.stripped, o.full, split_plain b',' origin o.single, o.stripped, o.full) refl

  -- The claims that the edge's authorizer asks for, of an access token.
  pub record IsPassedBy (p : Principal) : Type 0 where
    pub issued : find (codes "iss") p.claims ≡ some (str staged.edge.authorizer.issuer)
    pub client : Text
    pub client_id : find (codes "client_id") p.claims ≡ some (str client)
    pub audience : staged.edge.authorizer.audience ≡ client ∷ []
    pub token_use : find (codes "token_use") p.claims ≡ some (str (codes "access"))

  -- In the stage's deployment the service's container has its settings, which check tokens for the
  -- issuer of the edge's authorizer, with that issuer's public keys, and allow the one origin that the
  -- edge allows. A request that the service lets in as a principal has claims of that issuer, for the
  -- one client that the authorizer has as its audience, and of an access token. PyJWT gives out only
  -- claims of the issuer that it is told, and the origin is fit for a list with commas.
  pub application-IsGuarded :
      (jwt : Jwt) (credentials : Option Text) (p : Principal)
      → IsOrigin origin
      → IsVerifying jwt
      → require_auth api_settings jwt credentials ≡ granted p
      → IsConfigured × IsPassedBy p
  unfolding settings_of fastapi_config application_on edge_of user_pool_client issuer jwks_url
  application-IsGuarded jwt credentials p o verifying let_in =
      let a = (require_auth-IsAccess api_settings jwt credentials p refl).0 let_in in
      (
        record { configured = refl; issued = refl; keys = refl; origins = cors_origins-one o },
        record {
          issued = verifying.issued a.token a.key (issuer api_settings) p.claims a.verified;
          client = d.user_pool_client_id;
          client_id = a.client_id;
          audience = refl;
          token_use = a.token_use;
        },
      )
