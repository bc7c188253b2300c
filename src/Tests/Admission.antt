-- ===== src/Tests/Admission.antt =====
-- Whom the service of the default configuration lets in, and its limiter under three requests.
use eks_any_model_hosting.Common.{
  ◌≡◌, ◌↔◌, refl, subst, Bool, [], Option, none, some, Text, codes, text_eq, arith,
}
use eks_any_model_hosting.Json.{str, Fields, field, end, find}
use eks_any_model_hosting.Service.Inference.Chunks.{strip}
use eks_any_model_hosting.Service.Auth.{
  Jwt, claims, signing_key, Principal, principal_of, granted, require_auth,
}
use eks_any_model_hosting.Service.Auth.Granted.{IsAccess, require_auth-IsAccess}
use eks_any_model_hosting.Service.Auth.Deployed.{
  IsVerifying, IsOrigin, api_settings, IsConfigured, IsPassedBy, application-IsGuarded,
}
use eks_any_model_hosting.Sessions.{Limits, limits_of}
use eks_any_model_hosting.Service.Limiter.{
  Server, new_server, ask, asks, ends, started, next, finish,
}
use eks_any_model_hosting.Service.Limiter.Slots.{IsAccounted, Reachable-IsAccounted}
use eks_any_model_hosting.Config.Pilot.Load.{resolved_config}
use eks_any_model_hosting.Tests.Settings.{hundredths}
use eks_any_model_hosting.Tests.SignIn.{config, parse_url, assigned, identity}

abbrev origin : Text
origin = codes "http://localhost:5173"

-- A PyJWT that verifies every token, with claims of the issuer that it is told.
abbrev claims_of : Text → Fields
claims_of issued = field (codes "iss") (str issued) (
    field (codes "token_use") (str (codes "access"))
      (field (codes "client_id") (str (codes "client")) end))

abbrev trusting : Jwt
trusting = record {
  get_signing_key = λ url token. signing_key (codes "key");
  decode = λ token key issued. claims (claims_of issued);
}

trusting-IsVerifying : IsVerifying trusting
unfolding find text_eq
trusting-IsVerifying = record {
  issued = λ token key expected fs e.
      let same : claims_of expected ≡ fs = cc in
      subst (λ g. find (codes "iss") g ≡ some (str expected)) same refl;
}

origin-IsOrigin : IsOrigin origin
unfolding strip
origin-IsOrigin = record { full = refl; stripped = refl; single = omega arith }

abbrev never : Text → Option Bool
never text = none

abbrev let_in : Principal
let_in =
    principal_of (codes "client")
      (claims_of (codes "https://cognito-idp.us-east-1.amazonaws.com/us-east-1_Pool"))

require_auth-IsAccess_example :
    let s = api_settings config identity identity parse_url none origin assigned hundredths never in
    (require_auth s trusting (some (codes "token")) ≡ granted let_in)
    ↔ IsAccess s trusting (some (codes "token")) let_in
require_auth-IsAccess_example =
    require_auth-IsAccess
      (api_settings config identity identity parse_url none origin assigned hundredths never)
      trusting (some (codes "token")) let_in refl

application-IsGuarded_example :
    IsConfigured config identity identity parse_url none origin assigned hundredths never
    × IsPassedBy config identity identity parse_url none origin assigned hundredths never let_in
unfolding require_auth find text_eq resolved_config
application-IsGuarded_example =
    application-IsGuarded config identity identity parse_url none origin assigned hundredths never
      trusting (some (codes "token")) let_in origin-IsOrigin trusting-IsVerifying refl

-- One request asks and is answered, and another asks.
abbrev limits : Limits
limits = limits_of 12 1800 1000

abbrev asked : Server
asked = (ask limits (codes "s") [] 10 (new_server 1)).0

abbrev answered : Server
answered = finish [] [] asked

Reachable-IsAccounted_example : IsAccounted limits 1 (ask limits (codes "t") [] 20 answered).0
unfolding ask new_server
Reachable-IsAccounted_example = Reachable-IsAccounted 12 1800 1000 1 (
    next
      (next (next started (asks (new_server 1) (codes "s") [] 10))
        (ends asked [] [] (codes "s") refl))
      (asks answered (codes "t") [] 20))
