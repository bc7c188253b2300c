-- ===== src/Auth/Claims.antt =====
-- `decodeJwt` of spa/src/auth/cognito.ts. `atob`, `decodeURIComponent` and JSON.parse are
-- parameters; `none` is the exception of each.
pub mod Decode
use eks_any_model_hosting.Common.{
  ℕ, ◌+◌, ◌-◌, ◌%◌, ◌/◌, List, [], ◌∷◌, ◌++◌, Option, none, some, Text, split, repeat, length, ltb,
  ◌>>=◌, ◌==◌, if◌then◌else◌,
}
use eks_any_model_hosting.Json.{Json, obj, end}
use eks_any_model_hosting.Auth.Tokens.{truthy}

-- .split('.')[1]
abbrev pub second : List Text → Option Text
second (_ ∷ t ∷ _) = some t
second _ = none

-- .replace(/-/g, '+').replace(/_/g, '/')
unfoldable pub from_url_safe : Text → Text
from_url_safe [] = []
from_url_safe (c ∷ s) =
    (if c == b'-' then b'+' else if c == b'_' then b'/' else c) ∷ from_url_safe s

-- s.padEnd(target, c) for one character c.
abbrev pub pad_end : ℕ → ℕ → Text → Text
pad_end target c s = s ++ repeat (target - length s) c

unfoldable pub padded : Text → Text
padded normalized = pad_end (length normalized + (4 - length normalized % 4) % 4) b'=' normalized

abbrev pub hex_digit : ℕ → ℕ
hex_digit n = if ltb n 10 then b'0' + n else b'a' + (n - 10)

-- '%' and the two hexadecimal digits; the characters that `atob` gives are below 256.
unfoldable pub percent_encoded : Text → Text
percent_encoded [] = []
percent_encoded (c ∷ s) = b'%' ∷ hex_digit (c / 16) ∷ hex_digit (c % 16) ∷ percent_encoded s

abbrev pub no_claims : Json
no_claims = obj end

abbrev pub claims_or_none : Option Json → Json
claims_or_none none = no_claims
claims_or_none (some claims) = claims

module _ (atob decode_uri_component : Text → Option Text) (json_parse : Text → Option Json) where
  -- The `try` behind the guard: the claims, or the exception.
  unfoldable pub read_payload : Text → Option Json
  unfolding from_url_safe padded percent_encoded
  read_payload payload = do
    binary ← atob (padded (from_url_safe payload))
    json ← decode_uri_component (percent_encoded binary)
    json_parse json

  -- `{}` where there is no payload, or where reading it throws.
  abbrev pub on_payload : Option Text → Json
  on_payload none = no_claims
  on_payload (some payload) = claims_or_none (read_payload payload)

  unfoldable pub decode_jwt : Text → Json
  unfolding split
  decode_jwt token = on_payload (truthy (second (split b'.' token)))
