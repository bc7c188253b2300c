-- ===== src/Service/Auth/Granted.antt =====
-- Which tokens the API service takes.
use eks_any_model_hosting.Common.{
  ◌≡◌, ◌↔◌, refl, sym, ◌∙◌, true, false, ap, Option, none, some, [], ◌∷◌, Text, codes, text_eq_iff,
  is_nil, arith,
}
use eks_any_model_hosting.Json.{Json, str, Fields, find}
use eks_any_model_hosting.Service.Settings.{Settings, issuer, jwks_url}
use eks_any_model_hosting.Service.Auth.{
  SigningKey, signing_key, jwks_client_error, decode_error, Decoded, claims, expired_signature,
  invalid_issuer, invalid_token, Jwt, Principal, granted, is_text, principal_of, check_claims,
  on_decoded, on_key, validate_token, on_credentials, require_auth,
}

-- An access token for the client, whose claims PyJWT has verified for the issuer.
pub record IsAccess (s : Settings) (jwt : Jwt) (credentials : Option Text) (p : Principal)
    : Type 0 where
  pub token : Text
  pub key : Text
  pub sent : credentials ≡ some token
  pub full : is_nil token ≡ false
  pub resolved : jwt.get_signing_key (jwks_url s) token ≡ signing_key key
  pub verified : jwt.decode token key (issuer s) ≡ claims p.claims
  pub token_use : find (codes "token_use") p.claims ≡ some (str (codes "access"))
  pub client_id : find (codes "client_id") p.claims ≡ some (str s.cognito_app_client_id)
  pub principal : p ≡ principal_of s.cognito_app_client_id p.claims

is_text_iff : (v : Option Json) (text : Text) → (is_text v text ≡ true) ↔ (v ≡ some (str text))
is_text_iff none text = ground arith
is_text_iff (some (str s)) text = ground (arith, text_eq_iff s text)
is_text_iff (some _) text = ground arith

module _ (s : Settings) where
  record IsClaimed (fs : Fields) (p : Principal) : Type 0 where
    token_use : find (codes "token_use") fs ≡ some (str (codes "access"))
    client_id : find (codes "client_id") fs ≡ some (str s.cognito_app_client_id)
    principal : p ≡ principal_of s.cognito_app_client_id fs

  check_claims-IsClaimed :
      (fs : Fields) (p : Principal) → (check_claims s fs ≡ granted p) ↔ IsClaimed fs p
  unfolding check_claims
  check_claims-IsClaimed fs p = ground (
    arith,
    is_text_iff (find (codes "token_use") fs) (codes "access"),
    is_text_iff (find (codes "client_id") fs) s.cognito_app_client_id,
  )

  on_decoded-claims :
      (d : Decoded) (p : Principal)
      → on_decoded s d ≡ granted p
      → (fs : Fields) × (d ≡ claims fs) × IsClaimed fs p
  on_decoded-claims (claims fs) p h = (fs, refl, (check_claims-IsClaimed fs p).0 h)
  on_decoded-claims expired_signature p h = cc
  on_decoded-claims invalid_issuer p h = cc
  on_decoded-claims invalid_token p h = cc

  on_key-claims :
      (jwt : Jwt) (token : Text) (k : SigningKey) (p : Principal)
      → on_key s jwt token k ≡ granted p
      → (key : Text) × (fs : Fields) × (k ≡ signing_key key)
        × (jwt.decode token key (issuer s) ≡ claims fs)
        × IsClaimed fs p
  on_key-claims jwt token (signing_key key) p h =
      let (fs, e, claimed) = on_decoded-claims (jwt.decode token key (issuer s)) p h in
      (key, fs, refl, e, claimed)
  on_key-claims jwt token jwks_client_error p h = cc
  on_key-claims jwt token decode_error p h = cc

  on_credentials-IsAccess :
      (jwt : Jwt) (credentials : Option Text) (p : Principal)
      → on_credentials s jwt credentials ≡ granted p
      → IsAccess s jwt credentials p
  unfolding validate_token
  on_credentials-IsAccess jwt none p h = cc
  on_credentials-IsAccess jwt (some []) p h = cc
  on_credentials-IsAccess jwt (some (c ∷ token)) p h =
      let (key, fs, resolved, verified, claimed) =
        on_key-claims jwt (c ∷ token) (jwt.get_signing_key (jwks_url s) (c ∷ token)) p h in
      let same : p.claims ≡ fs = ap (λ (q : Principal). q.claims) claimed.principal in
      record {
        token = c ∷ token;
        key = key;
        sent = refl;
        full = refl;
        resolved = resolved;
        verified = rw same verified;
        token_use = rw same claimed.token_use;
        client_id = rw same claimed.client_id;
        principal = claimed.principal ∙ ap (principal_of s.cognito_app_client_id) (sym same);
      }

  IsAccess-on_credentials :
      (jwt : Jwt) (credentials : Option Text) (p : Principal)
      → IsAccess s jwt credentials p
      → on_credentials s jwt credentials ≡ granted p
  unfolding validate_token
  IsAccess-on_credentials jwt none p a = absurd (ground (arith, a.sent))
  IsAccess-on_credentials jwt (some []) p a = absurd (ground (arith, a.sent, a.full))
  IsAccess-on_credentials jwt (some (c ∷ token)) p a =
      let same : a.token ≡ c ∷ token = ground (arith, a.sent) in
      let resolved : jwt.get_signing_key (jwks_url s) (c ∷ token) ≡ signing_key a.key =
        rw (← same) a.resolved in
      let verified : jwt.decode (c ∷ token) a.key (issuer s) ≡ claims p.claims =
        rw (← same) a.verified in
      rw (resolved, verified)
        ((check_claims-IsClaimed p.claims p).1
          (record { token_use = a.token_use; client_id = a.client_id; principal = a.principal }))

  -- With the checks enabled, a request is let in as a principal exactly where its bearer token is
  -- not empty, has a key in the JWKS, is verified with it for the issuer, and its claims name an
  -- access token and the service's client; the principal is that of the claims.
  pub require_auth-IsAccess :
      (jwt : Jwt) (credentials : Option Text) (p : Principal)
      → s.auth_disabled ≡ false
      → (require_auth s jwt credentials ≡ granted p) ↔ IsAccess s jwt credentials p
  unfolding require_auth
  require_auth-IsAccess jwt credentials p enabled =
      let checked : require_auth s jwt credentials ≡ on_credentials s jwt credentials =
        simp enabled in
      (
        λ h. on_credentials-IsAccess jwt credentials p (sym checked ∙ h),
        λ a. checked ∙ IsAccess-on_credentials jwt credentials p a,
      )
