-- ===== src/Config/Pilot/Validation.antt =====
-- lib/config/validation.ts. Each regular expression is a test on the characters.
pub mod Patterns
pub mod Valid
use eks_any_model_hosting.Common.{
  ℕ, ◌-◌, Bool, true, false, not, ◌&&◌, ◌||◌, List, [], ◌∷◌, ◌++◌, Option, none, some, Text, codes,
  text_eq, split, join, drop, length, is_nil, any, all, leb, ◌==◌, if◌then◌else◌,
}
use eks_any_model_hosting.Config.Pilot.{Numbers, PilotEnvironmentConfig}

abbrev pub is_digit : ℕ → Bool
is_digit c = leb b'0' c && leb c b'9'

-- \d{1,most}
abbrev pub is_number : ℕ → Text → Bool
is_number most s = all is_digit s && (leb 1 (length s) && leb (length s) most)

-- [a-z0-9-]
abbrev pub is_name_char : ℕ → Bool
is_name_char c = (leb b'a' c && leb c b'z') || (is_digit c || c == b'-')

-- /^[a-z0-9-]{1,20}$/
unfoldable pub is_environment_name : Text → Bool
is_environment_name s = all is_name_char s && (leb 1 (length s) && leb (length s) 20)

-- \d{1,3}(\.\d{1,3}){3}, on the parts between the dots.
abbrev pub are_octets : List Text → Bool
are_octets (a ∷ b ∷ c ∷ d ∷ []) =
    is_number 3 a && (is_number 3 b && (is_number 3 c && is_number 3 d))
are_octets _ = false

-- /^\d{1,3}(\.\d{1,3}){3}\/\d{1,2}$/, on the parts between the slashes.
abbrev pub are_cidr_parts : List Text → Bool
are_cidr_parts (address ∷ bits ∷ []) = are_octets (split b'.' address) && is_number 2 bits
are_cidr_parts _ = false

unfoldable pub is_cidr : Text → Bool
unfolding split
is_cidr s = are_cidr_parts (split b'/' s)

-- 2[5-9]|3\d
abbrev pub is_minor : ℕ → ℕ → Bool
is_minor c d = (c == b'2' && (leb b'5' d && leb d b'9')) || (c == b'3' && is_digit d)

-- /^1\.(2[5-9]|3\d)$/
unfoldable pub is_eks_version : Text → Bool
is_eks_version (a ∷ b ∷ c ∷ d ∷ []) = (a == b'1' && b == b'.') && is_minor c d
is_eks_version _ = false

-- s.endsWith(p)
abbrev pub ends_with : Text → Text → Bool
ends_with p s = text_eq (drop (length s - length p) s) p

-- image.endsWith(':latest') || !image.includes(':')
unfoldable pub is_unpinned : Text → Bool
unfolding text_eq
is_unpinned image = ends_with (codes ":latest") image || not (any (λ c. c == b':') image)

-- The messages that the `if`s push, each with its test, in order.
unfoldable pub complaints : List (Bool × Text) → List Text
complaints [] = []
complaints ((wrong, message) ∷ checks) =
    let rest = complaints checks in if wrong then message ∷ rest else rest

abbrev pub quoted : Text → Text → Text → Text
quoted name value rest = name ++ (codes " \"" ++ (value ++ (codes "\"" ++ rest)))

abbrev pub is_absent : Option Text → Bool
is_absent none = true
is_absent (some s) = is_nil s

abbrev pub config_error : List Text → Text
config_error errors =
    codes "Invalid llama-pilot configuration:\n  - "
    ++ (join (codes "\n  - ") errors
        ++ (codes "\nFix the values under context.llamaPilot in cdk.json (or -c overrides)."))

abbrev pub open_endpoint_warning : Text
open_endpoint_warning =
    codes
      "[llama-pilot] WARNING: clusterPublicAccessCidrs includes 0.0.0.0/0 — the EKS public API endpoint will be reachable from anywhere."

-- `console.warn`'s calls, and the message of the exception, if one is thrown.
pub record Validated : Type 0 where
  pub warnings : List Text
  pub thrown : Option Text

module _ {Number : Type 0} (numbers : Numbers Number) where
  abbrev pub outside : Number → Text → Text → Bool
  outside n lo hi = numbers.less n (numbers.from_text lo) || numbers.less (numbers.from_text hi) n

  abbrev pub checks_of : PilotEnvironmentConfig Number → List (Bool × Text)
  checks_of c =
      (
        not (is_environment_name c.environment_name),
        quoted (codes "environmentName") c.environment_name
            (codes " must be lowercase alphanumeric/dash, <= 20 chars"),
      )
      ∷ (
        not (is_cidr c.vpc_cidr),
        quoted (codes "vpcCidr") c.vpc_cidr (codes " is not a valid CIDR block"),
      )
      ∷ (
        outside c.nat_gateway_count (codes "1") (codes "3"),
        codes "natGatewayCount "
            ++ (numbers.show c.nat_gateway_count ++ codes " should be between 1 and 3"),
      )
      ∷ (
        not (is_eks_version c.kubernetes_version),
        quoted (codes "kubernetesVersion") c.kubernetes_version
            (codes " is not a recognised EKS minor version (expected e.g. 1.29-1.33)"),
      )
      ∷ (
        is_nil c.cpu_node_instance_types,
        codes "cpuNodeInstanceTypes must contain at least one instance type",
      )
      ∷ (
        is_nil c.gpu_node_instance_types,
        codes "gpuNodeInstanceTypes must contain at least one instance type",
      )
      ∷ (
        outside c.max_output_tokens (codes "1") (codes "4096"),
        codes "maxOutputTokens "
            ++ (numbers.show c.max_output_tokens ++ codes " out of sane range 1..4096"),
      )
      ∷ (
        numbers.less c.max_model_length c.max_output_tokens,
        codes "maxModelLength "
            ++ (numbers.show c.max_model_length
                ++ (codes " must be >= maxOutputTokens " ++ numbers.show c.max_output_tokens)),
      )
      ∷ (
        numbers.less_eq c.gpu_memory_utilization (numbers.from_text (codes "0"))
            || numbers.less (numbers.from_text (codes "1")) c.gpu_memory_utilization,
        codes "gpuMemoryUtilization "
            ++ (numbers.show c.gpu_memory_utilization ++ codes " must be in (0, 1]"),
      )
      ∷ (
        is_unpinned c.vllm_image,
        quoted (codes "vllmImage") c.vllm_image
            (codes " must be pinned to an explicit tag (never :latest)"),
      )
      ∷ (
        c.enable_hugging_face_token_secret && is_absent c.hugging_face_secret_name,
        codes "huggingFaceSecretName is required when enableHuggingFaceTokenSecret is true",
      )
      ∷ (is_nil c.cognito_callback_urls, codes "cognitoCallbackUrls must contain at least one URL")
      ∷ (
        numbers.less c.log_retention_days (numbers.from_text (codes "1")),
        codes "logRetentionDays must be >= 1",
      )
      ∷ []

  unfoldable pub errors_of : PilotEnvironmentConfig Number → List Text
  unfolding complaints
  errors_of c = complaints (checks_of c)

  abbrev pub thrown_of : List Text → Option Text
  thrown_of [] = none
  thrown_of (e ∷ es) = some (config_error (e ∷ es))

  unfoldable pub validate_pilot_config : PilotEnvironmentConfig Number → Validated
  unfolding errors_of
  validate_pilot_config c = record {
    warnings =
        if any (λ cidr. text_eq cidr (codes "0.0.0.0/0")) c.cluster_public_access_cidrs
        then open_endpoint_warning ∷ []
        else [];
    thrown = thrown_of (errors_of c);
  }
