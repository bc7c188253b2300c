-- ===== src/Auth/Pkce.antt =====
-- spa/src/auth/pkce.ts. `btoa`, SHA-256 and the random bytes are parameters.
pub mod Alphabet
use eks_any_model_hosting.Common.{ℕ, [], ◌∷◌, ◌&&◌, Text, is_nil, ◌==◌, if◌then◌else◌}

-- .replace(/\+/g, '-').replace(/\//g, '_')
unfoldable pub url_safe : Text → Text
url_safe [] = []
url_safe (c ∷ s) = (if c == b'+' then b'-' else if c == b'/' then b'_' else c) ∷ url_safe s

-- .replace(/=+$/, '')
unfoldable pub strip_padding : Text → Text
strip_padding [] = []
strip_padding (c ∷ s) =
    let rest = strip_padding s in if c == b'=' && is_nil rest then [] else c ∷ rest

module _ (btoa : Text → Text) where
  -- The binary string has one code unit for each byte, so it is the list of bytes.
  unfoldable pub base64_url_encode : Text → Text
  unfolding url_safe strip_padding
  base64_url_encode bytes = strip_padding (url_safe (btoa bytes))

  -- On the 32 bytes that `getRandomValues` fills in.
  unfoldable pub generate_code_verifier : Text → Text
  unfolding base64_url_encode
  generate_code_verifier random_bytes = base64_url_encode random_bytes

  unfoldable pub generate_code_challenge : (Text → Text) → Text → Text
  unfolding base64_url_encode
  generate_code_challenge sha256 verifier = base64_url_encode (sha256 verifier)

  -- On 16 random bytes.
  unfoldable pub generate_state : Text → Text
  unfolding base64_url_encode
  generate_state random_bytes = base64_url_encode random_bytes
