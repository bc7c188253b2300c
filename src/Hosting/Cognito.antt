-- ===== src/Hosting/Cognito.antt =====
-- The user pool, its client and its domain of lib/constructs/cognito-auth.ts, with the outputs of
-- lib/stacks/auth-stack.ts. The CDK creates them. The id of the pool and the name of the domain are
-- known at the deployment. `toLowerCase` is a parameter.
use eks_any_model_hosting.Common.{
  ℕ, true, false, Bool, List, [], ◌∷◌, ◌++◌, Text, codes, join, if◌then◌else◌,
}
use eks_any_model_hosting.Config.Pilot.{PilotEnvironmentConfig}
use eks_any_model_hosting.Config.Pilot.Load.{resource_name}

pub record PasswordPolicy : Type 0 where
  pub min_length : ℕ
  pub require_lowercase : Bool
  pub require_uppercase : Bool
  pub require_digits : Bool
  pub require_symbols : Bool
  pub temp_password_validity_days : ℕ

pub record UserPool : Type 0 where
  pub user_pool_name : Text
  pub self_sign_up_enabled : Bool
  pub sign_in_by_email : Bool
  pub sign_in_case_sensitive : Bool
  pub email_required : Bool
  pub email_mutable : Bool
  pub auto_verify_email : Bool
  pub account_recovery : Text
  pub password_policy : PasswordPolicy
  pub mfa : Text
  pub mfa_sms : Bool
  pub mfa_otp : Bool
  pub deletion_protection : Bool
  pub removal_policy : Text

pub record AuthFlows : Type 0 where
  pub user_srp : Bool
  pub user_password : Bool
  pub admin_user_password : Bool
  pub custom : Bool

pub record OauthFlows : Type 0 where
  pub authorization_code_grant : Bool
  pub implicit_code_grant : Bool
  pub client_credentials : Bool

pub record UserPoolClient : Type 0 where
  pub user_pool_client_name : Text
  pub generate_secret : Bool
  pub auth_flows : AuthFlows
  pub flows : OauthFlows
  pub scopes : List Text
  pub callback_urls : List Text
  pub logout_urls : List Text
  pub prevent_user_existence_errors : Bool
  pub enable_token_revocation : Bool
  pub access_token_validity_minutes : ℕ
  pub id_token_validity_minutes : ℕ
  pub refresh_token_validity_days : ℕ
  pub supported_identity_providers : List Text

-- `config.deletionProtection ? RETAIN : DESTROY`
abbrev pub removal_policy_of : Bool → Text
removal_policy_of protected = if protected then codes "RETAIN" else codes "DESTROY"

abbrev pub scopes : List Text
scopes = codes "openid" ∷ codes "email" ∷ codes "profile" ∷ []

module _ {Number : Type 0} where
  unfoldable pub user_pool : PilotEnvironmentConfig Number → UserPool
  unfolding resource_name
  user_pool config = record {
    user_pool_name = resource_name config (codes "user-pool");
    self_sign_up_enabled = false;
    sign_in_by_email = true;
    sign_in_case_sensitive = false;
    email_required = true;
    email_mutable = true;
    auto_verify_email = true;
    account_recovery = codes "EMAIL_ONLY";
    password_policy = record {
      min_length = 12;
      require_lowercase = true;
      require_uppercase = true;
      require_digits = true;
      require_symbols = true;
      temp_password_validity_days = 7;
    };
    mfa = codes "OPTIONAL";
    mfa_sms = false;
    mfa_otp = true;
    deletion_protection = config.deletion_protection;
    removal_policy = removal_policy_of config.deletion_protection;
  }

  unfoldable pub user_pool_client : PilotEnvironmentConfig Number → UserPoolClient
  unfolding resource_name
  user_pool_client config = record {
    user_pool_client_name = resource_name config (codes "spa-client");
    generate_secret = false;
    auth_flows = record {
      user_srp = false;
      user_password = false;
      admin_user_password = false;
      custom = false;
    };
    flows = record {
      authorization_code_grant = true;
      implicit_code_grant = false;
      client_credentials = false;
    };
    scopes = scopes;
    callback_urls = config.cognito_callback_urls;
    logout_urls = config.cognito_logout_urls;
    prevent_user_existence_errors = true;
    enable_token_revocation = true;
    access_token_validity_minutes = 60;
    id_token_validity_minutes = 60;
    refresh_token_validity_days = 30;
    supported_identity_providers = codes "COGNITO" ∷ [];
  }

  abbrev pub domain_prefix : (Text → Text) → PilotEnvironmentConfig Number → Text → Text
  domain_prefix to_lower_case config domain_suffix =
      to_lower_case
        (codes "llama-pilot-" ++ (config.environment_name ++ (codes "-" ++ domain_suffix)))

-- The group that the administrators of the pool's users may join.
record UserPoolGroup : Type 0 where
  pub user_pool_id : Text
  pub group_name : Text
  pub description : Text
  pub precedence : ℕ

abbrev admin_group : Text → UserPoolGroup
admin_group user_pool_id = record {
  user_pool_id = user_pool_id;
  group_name = codes "pilot-admins";
  description = codes "Administrators of the llama pilot";
  precedence = 0;
}

-- On the stack's region.
abbrev pub issuer_url : Text → Text → Text
issuer_url region user_pool_id =
    codes "https://cognito-idp." ++ (region ++ (codes ".amazonaws.com/" ++ user_pool_id))

abbrev pub jwks_url_of : Text → Text
jwks_url_of issuer = issuer ++ codes "/.well-known/jwks.json"

abbrev pub domain_base_url : Text → Text → Text
domain_base_url region domain_name =
    codes "https://" ++ (domain_name ++ (codes ".auth." ++ (region ++ codes ".amazoncognito.com")))

module _ {Number : Type 0} where
  -- The outputs of the stack, on the region, the ids of the pool and of the client, and the name of
  -- the domain.
  unfoldable pub auth_outputs :
      PilotEnvironmentConfig Number → Text → Text → Text → Text → List (Text × Text)
  auth_outputs config region user_pool_id client_id domain_name =
      (codes "CognitoUserPoolId", user_pool_id)
      ∷ (codes "CognitoAppClientId", client_id)
      ∷ (codes "CognitoDomain", domain_base_url region domain_name)
      ∷ (codes "CognitoIssuerUrl", issuer_url region user_pool_id)
      ∷ (codes "CognitoJwksUrl", jwks_url_of (issuer_url region user_pool_id))
      ∷ (codes "CognitoRegion", region)
      ∷ (codes "CognitoScopes", join (codes " ") scopes)
      ∷ (codes "CognitoCallbackUrls", join (codes ",") config.cognito_callback_urls)
      ∷ (codes "CognitoLogoutUrls", join (codes ",") config.cognito_logout_urls)
      ∷ []
