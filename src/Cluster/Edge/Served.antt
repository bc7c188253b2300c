-- ===== src/Cluster/Edge/Served.antt =====
-- Which requests the public edge passes on to the service.
use eks_any_model_hosting.Common.{
  ◌≡◌, ◌≢◌, refl, ◌⊎◌, inl, inr, true, false, List, [], ◌∷◌, ◌++◌, Option, Text, codes, All, Any,
  is_nil,
}
use eks_any_model_hosting.Json.{Json}
use eks_any_model_hosting.Chat.Requests.{
  StreamRequest, HttpRequest, chat_request, forget_session_request,
}
use eks_any_model_hosting.Config.Pilot.{PilotEnvironmentConfig}
use eks_any_model_hosting.Config.Amplify.{FastapiCognitoConfig}
use eks_any_model_hosting.Cluster.Api.{Route, Cors, Edge}
use eks_any_model_hosting.Cluster.Edge.{edge_of}

-- The routes of services/api/app/main.py, with whether they require a token.
abbrev pub service_routes : List Route
service_routes =
    record { method = codes "GET"; path = codes "/health/live"; authorized = false }
    ∷ record { method = codes "GET"; path = codes "/health/ready"; authorized = false }
    ∷ record { method = codes "GET"; path = codes "/metrics"; authorized = false }
    ∷ record { method = codes "GET"; path = codes "/api/v1/me"; authorized = true }
    ∷ record { method = codes "GET"; path = codes "/api/v1/models"; authorized = true }
    ∷ record { method = codes "POST"; path = codes "/api/v1/chat/completions"; authorized = true }
    ∷ record {
      method = codes "GET";
      path = codes "/api/v1/sessions/{session_id}";
      authorized = true;
    }
    ∷ record {
      method = codes "DELETE";
      path = codes "/api/v1/sessions/{session_id}";
      authorized = true;
    }
    ∷ []

-- A path is one of a route's: its text, or with one segment for the parameter at its end.
pub data Fills : Text → Text → Type 0 where
  exact : {path : Text} → Fills path path
  segment :
      (before name value : Text)
      → is_nil value ≡ false
      → All (λ c. c ≢ b'/') value
      → Fills (before ++ (codes "{" ++ (name ++ codes "}"))) (before ++ value)

-- A header that a preflight need not allow, or one that it allows.
abbrev pub IsAllowedHeader : Cors → Text → Type 0
IsAllowedHeader cors name = (name ≡ codes "Accept") ⊎ Any (λ h. h ≡ name) cors.headers

-- A request goes from the SPA's origin through one route, with a token, to the same route of the
-- service.
pub record IsServed (e : Edge) (origin api_base_url : Text) (r : HttpRequest) : Type 0 where
  pub route : Route
  pub path : Text
  pub routed : Any (λ x. x ≡ route) e.routes
  pub implemented : Any (λ x. x ≡ route) service_routes
  pub authorized : route.authorized ≡ true
  pub method : route.method ≡ r.method
  pub url : r.url ≡ api_base_url ++ path
  pub fills : Fills route.path path
  pub same_origin : Any (λ o. o ≡ origin) e.cors.origins
  pub methods : Any (λ m. m ≡ r.method) e.cors.methods
  pub headers : All (λ h. IsAllowedHeader e.cors h.0) r.headers
  pub token : Any (λ h. h.0 ≡ codes "Authorization") r.headers

module _ {Number : Type 0} (config : PilotEnvironmentConfig Number) (cognito : FastapiCognitoConfig)
    (repository_uri : Text) (api_image_tag : Option Text) (spa_origin api_base_url : Text) where
  -- Both requests of the chat client, from the SPA's origin, pass the edge: the preflight allows
  -- their method and headers, a route with the JWT authorizer matches them, and the service has the
  -- same route, where the encoded session id is one path segment.
  pub edge-IsServed :
      (stringify : Json → Text) (req : StreamRequest) (encode_uri_component : Text → Text)
      (session_id access_token : Text)
      → is_nil (encode_uri_component session_id) ≡ false
      → All (λ c. c ≢ b'/') (encode_uri_component session_id)
      → IsServed
          (edge_of config cognito repository_uri api_image_tag spa_origin)
          spa_origin
          api_base_url
          (chat_request api_base_url stringify req)
        × IsServed
            (edge_of config cognito repository_uri api_image_tag spa_origin)
            spa_origin
            api_base_url
            (forget_session_request api_base_url encode_uri_component session_id access_token)
  unfolding edge_of chat_request forget_session_request
  edge-IsServed stringify req encode_uri_component session_id access_token full one_segment = (
    record {
      route = record {
        method = codes "POST";
        path = codes "/api/v1/chat/completions";
        authorized = true;
      };
      path = codes "/api/v1/chat/completions";
      routed = inl refl;
      implemented = inr (inr (inr (inr (inr (inl refl)))));
      authorized = refl;
      method = refl;
      url = refl;
      fills = exact;
      same_origin = inl refl;
      methods = inr (inl refl);
      headers = (inr (inr (inl refl)), (inl refl, (inr (inl refl), tt)));
      token = inr (inr (inl refl));
    },
    record {
      route = record {
        method = codes "DELETE";
        path = codes "/api/v1/sessions/{session_id}";
        authorized = true;
      };
      path = codes "/api/v1/sessions/" ++ encode_uri_component session_id;
      routed = inr (inr (inr (inr (inl refl))));
      implemented = inr (inr (inr (inr (inr (inr (inr (inl refl)))))));
      authorized = refl;
      method = refl;
      url = refl;
      fills = segment (codes "/api/v1/sessions/") (codes "session_id") _ full one_segment;
      same_origin = inl refl;
      methods = inr (inr (inl refl));
      headers = (inr (inl refl), tt);
      token = inl refl;
    },
  )
