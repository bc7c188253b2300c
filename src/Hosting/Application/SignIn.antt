-- ===== src/Hosting/Application/SignIn.antt =====
-- The application of the stage signs in with the client of the stage, and its tokens are accepted.
use eks_any_model_hosting.Common.{
  ◌≡◌, refl, sym, ap, ◌∙◌, inl, inr, true, false, List, [], ◌∷◌, ◌++◌, Option, some, Text, codes,
  join, trim, Any, arith,
}
use eks_any_model_hosting.Config.Spa.{AppConfig, load_config, loaded}
use eks_any_model_hosting.Config.Spa.Load.{EndsPlain, empty, last, more}
use eks_any_model_hosting.Config.Pilot.{Numbers, PilotEnvironmentConfig}
use eks_any_model_hosting.Config.Amplify.{without_slash, redirect_of, spa_app}
use eks_any_model_hosting.Config.Amplify.Contract.{
  IsInlined, IsFilled, configured, load_config-spa_app,
}
use eks_any_model_hosting.Auth.Tokens.{Cognito}
use eks_any_model_hosting.Auth.Callback.{authorize_url}
use eks_any_model_hosting.Cluster.Fastapi.{fastapi_config}
use eks_any_model_hosting.Cluster.Edge.{first_url, origin_of}
use eks_any_model_hosting.Cluster.Edge.{edge_of}
use eks_any_model_hosting.Hosting.Cognito.{user_pool_client}
use eks_any_model_hosting.Hosting.Application.{Deployed, Application, application, application_on}

without_slash-plain : {s : Text} → EndsPlain s → without_slash s ≡ s
unfolding without_slash
without_slash-plain empty = refl
without_slash-plain (last other) = ground (arith, other)
without_slash-plain (more {c} h) = ap (◌∷◌ c) (without_slash-plain h)

-- A URL is the one of an origin's root, with the slash at its end, and has no spaces around it.
pub record IsRoot (parse_url : Text → Option (Text × Text)) (url : Text) : Type 0 where
  pub protocol : Text
  pub host : Text
  pub parsed : parse_url url ≡ some (protocol, host)
  pub whole : url ≡ (protocol ++ (codes "//" ++ host)) ++ codes "/"
  pub plain : EndsPlain (protocol ++ (codes "//" ++ host))
  pub trimmed : trim url ≡ url

module _ (parse_url : Text → Option (Text × Text)) (url : Text) (root : IsRoot parse_url url) where
  abbrev pub origin : Text
  origin = root.protocol ++ (codes "//" ++ root.host)

  origin_of-root : origin_of parse_url url ≡ origin
  unfolding origin_of
  origin_of-root = rw (root.parsed, origin_of) refl

  pub redirect_of-root : redirect_of origin ≡ url
  unfolding redirect_of
  redirect_of-root = ap (λ s. s ++ codes "/") (without_slash-plain root.plain) ∙ sym root.whole

-- What the client of `spa/src/auth/cognito.ts` takes from the configuration.
pub record IsSignedInBy (cognito : Cognito) (spa : AppConfig) : Type 0 where
  pub domain : cognito.domain ≡ spa.cognito_domain
  pub client_id : cognito.client_id ≡ spa.cognito_app_client_id
  pub redirect : cognito.redirect_sign_in ≡ spa.redirect_sign_in

-- What Cognito documents as the issuer of the tokens of a pool.
abbrev pub issuer_of : Text → Text → Text
issuer_of region user_pool_id =
    codes "https://cognito-idp." ++ (region ++ (codes ".amazonaws.com/" ++ user_pool_id))

-- A page of an origin signs in to the deployed pool of the region, with the deployed client, and the
-- pool's tokens and the page's requests are accepted.
pub record IsSignInReady {Number : Type 0} (numbers : Numbers Number) (region : Text) (d : Deployed)
    (a : Application Number) (spa : AppConfig) (origin : Text) : Type 0 where
  -- the page has the pool, the client and the domain
  pub pool : spa.cognito_user_pool_id ≡ trim d.user_pool_id
  pub client : spa.cognito_app_client_id ≡ d.user_pool_client_id
  pub domain :
      a.amplify.cognito_domain
      ≡ codes "https://"
        ++ (d.domain_name ++ (codes ".auth." ++ (region ++ codes ".amazoncognito.com")))
  -- the user pool's client lets the page in, without a secret
  pub allowed : Any (λ url. url ≡ spa.redirect_sign_in) a.client.callback_urls
  pub returns : spa.redirect_sign_in ≡ origin ++ codes "/"
  pub same : spa.redirect_sign_out ≡ spa.redirect_sign_in
  pub without_secret : a.client.generate_secret ≡ false
  -- the client has the flow of a code, which the page asks for, and no other one
  pub code_grant : a.client.flows.authorization_code_grant ≡ true
  pub no_implicit_grant : a.client.flows.implicit_code_grant ≡ false
  pub requested :
      (cognito : Cognito) (state challenge : Text)
      → IsSignedInBy cognito spa
      → authorize_url cognito state challenge
        ≡ spa.cognito_domain
          ++ (codes "/oauth2/authorize?"
              ++ cognito.encode_form (
                  (codes "response_type", codes "code")
                  ∷ (codes "client_id", spa.cognito_app_client_id)
                  ∷ (codes "redirect_uri", origin ++ codes "/")
                  ∷ (codes "scope", join (codes " ") a.client.scopes)
                  ∷ (codes "state", state)
                  ∷ (codes "code_challenge", challenge)
                  ∷ (codes "code_challenge_method", codes "S256")
                  ∷ []))
  -- the edge and the service accept the pool's tokens for that client
  pub audience : a.edge.authorizer.audience ≡ spa.cognito_app_client_id ∷ []
  pub client_checked :
      Any
        (λ v. v ≡ (codes "COGNITO_APP_CLIENT_ID", spa.cognito_app_client_id))
        (fastapi_config numbers a.fastapi)
  pub issuer : a.edge.authorizer.issuer ≡ issuer_of region d.user_pool_id
  pub issuer_checked :
      Any
        (λ v. v ≡ (codes "COGNITO_ISSUER", issuer_of region d.user_pool_id))
        (fastapi_config numbers a.fastapi)
  pub keys_checked :
      Any
        (λ v. v ≡ (
          codes "COGNITO_JWKS_URL",
          issuer_of region d.user_pool_id ++ codes "/.well-known/jwks.json",
        ))
        (fastapi_config numbers a.fastapi)
  pub pool_checked :
      Any
        (λ v. v ≡ (codes "COGNITO_USER_POOL_ID", d.user_pool_id))
        (fastapi_config numbers a.fastapi)
  -- both let the page's origin make requests
  pub origins : a.edge.cors.origins ≡ origin ∷ []
  pub origin_allowed :
      Any (λ v. v ≡ (codes "CORS_ALLOW_ORIGINS", origin)) (fastapi_config numbers a.fastapi)

module _ {Number : Type 0} (config : PilotEnvironmentConfig Number)
    (sha256_hex to_lower_case : Text → Text) (parse_url : Text → Option (Text × Text))
    (api_image_tag : Option Text) (d : Deployed) (url : Text) (root : IsRoot parse_url url) where
  -- The application on the root's origin.
  abbrev pub deployed : Application Number
  deployed =
      application_on config sha256_hex to_lower_case parse_url api_image_tag
        (origin parse_url url root) d

  application-root :
      first_url config.cognito_callback_urls ≡ some url
      → application config sha256_hex to_lower_case parse_url api_image_tag d ≡ some deployed
  unfolding application
  application-root e = rw (e, origin_of-root parse_url url root) refl

  redirected : (configured deployed.amplify).redirect_sign_in ≡ url
  unfolding application_on
  redirected = rw (redirect_of-root parse_url url root) root.trimmed

  -- The first callback URL is allowed.
  allowed-first :
      (urls : List Text) (r : Text) → first_url urls ≡ some url → r ≡ url → Any (λ u. u ≡ r) urls
  allowed-first [] r e same = ground (arith, e)
  allowed-first (u ∷ urls) r e same = inl (ground (arith, e, same))

  -- Where the first callback URL is an origin with a slash, the stage deploys an application that
  -- loads its configuration, if the build inlines the hosting's variables, and that is ready to
  -- sign in: it has the deployed pool and client; the client allows the flow of a code, the redirect
  -- and the scopes that it asks for, without a secret; the edge and the service check tokens for the
  -- issuer of this pool and for this client, the service with this pool's keys; and both allow the
  -- requests of the redirect's origin. The ids and URLs that AWS assigns are not blank, the client's
  -- id has no spaces around it.
  pub application-IsSignInReady :
      (numbers : Numbers Number) (env : Text → Option Text)
      → first_url config.cognito_callback_urls ≡ some url
      → IsFilled deployed.amplify
      → trim d.user_pool_client_id ≡ d.user_pool_client_id
      → IsInlined env (spa_app deployed.amplify).environment_variables
      → (application config sha256_hex to_lower_case parse_url api_image_tag d ≡ some deployed)
        × (load_config env ≡ loaded (configured deployed.amplify))
        × IsSignInReady numbers config.region d deployed
            (configured deployed.amplify)
            (origin parse_url url root)
  unfolding application_on user_pool_client edge_of fastapi_config join
  application-IsSignInReady numbers env e filled id inlined = (
    application-root e,
    load_config-spa_app env deployed.amplify inlined filled,
    record {
      pool = refl;
      client = id;
      domain = refl;
      code_grant = refl;
      no_implicit_grant = refl;
      issuer = refl;
      keys_checked = inr (inr (inr (inr (inr (inl refl)))));
      pool_checked = inr (inr (inl refl));
      allowed = allowed-first config.cognito_callback_urls _ e redirected;
      returns = redirected ∙ root.whole;
      same = refl;
      without_secret = refl;
      requested = λ cognito state challenge h.
          rw (h.domain, h.client_id, h.redirect, redirected, root.whole) refl;
      audience = rw id refl;
      client_checked = inr (inr (inr (inl (rw id refl))));
      issuer_checked = inr (inr (inr (inr (inl refl))));
      origins = refl;
      origin_allowed = inr (
          inr (
            inr (
              inr (
                inr (
                  inr (
                    inr (
                      inr (
                        inr
                          (inr (inr (inr (inr (inr (inr (inr (inr (inr (inl refl))))))))))))))))));
    },
  )
