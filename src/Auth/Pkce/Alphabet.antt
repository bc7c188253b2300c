-- ===== src/Auth/Pkce/Alphabet.antt =====
-- The alphabet and the length of the encoded material.
use eks_any_model_hosting.Common.{
  ℕ, zero, suc, ◌+◌, ◌*◌, ◌/◌, ◌≤◌, ◌≡◌, refl, ap, ◌∙◌, ◌⊎◌, [], ◌∷◌, ◌++◌, Text, All, length,
  repeat, ◌%◌, ◌<◌, arith,
}
use eks_any_model_hosting.Auth.Pkce.{url_safe, strip_padding, base64_url_encode}

abbrev pub IsBetween : ℕ → ℕ → ℕ → Type 0
IsBetween lo hi c = (lo ≤ c) × (c ≤ hi)

abbrev pub IsAlphanumeric : ℕ → Type 0
IsAlphanumeric c = IsBetween b'A' b'Z' c ⊎ IsBetween b'a' b'z' c ⊎ IsBetween b'0' b'9' c

-- The alphabet of base64, and the unreserved characters that base64url uses.
abbrev pub IsBase64 : ℕ → Type 0
IsBase64 c = IsAlphanumeric c ⊎ ((c ≡ b'+') ⊎ (c ≡ b'/'))

abbrev pub IsUrlSafe : ℕ → Type 0
IsUrlSafe c = IsAlphanumeric c ⊎ ((c ≡ b'-') ⊎ (c ≡ b'_'))

abbrev pub equals_signs : ℕ → Text
equals_signs n = repeat n b'='

-- What `btoa` promises of n bytes: four characters for each group of three, of which the last ones
-- are padding where the last group is not full.
pub record IsBtoa (btoa : Text → Text) (bytes : Text) : Type 0 where
  pub digits : Text
  pub padding : ℕ
  pub encoded : btoa bytes ≡ digits ++ equals_signs padding
  pub alphabet : All IsBase64 digits
  -- ⌈8n/6⌉ digits
  pub count : length digits ≡ (4 * length bytes + 2) / 3
  pub whole : (length digits + padding) % 4 ≡ 0
  pub short : padding < 4

url_safe-append : (s t : Text) → url_safe (s ++ t) ≡ url_safe s ++ url_safe t
unfolding url_safe
url_safe-append [] t = refl
url_safe-append (c ∷ s) t = rw (url_safe-append s t)

url_safe-equals_signs : (n : ℕ) → url_safe (equals_signs n) ≡ equals_signs n
unfolding url_safe
url_safe-equals_signs zero = refl
url_safe-equals_signs (suc n) = ap (◌∷◌ b'=') (url_safe-equals_signs n)

pub url_safe-IsUrlSafe : (s : Text) → All IsBase64 s → All IsUrlSafe (url_safe s)
unfolding url_safe
url_safe-IsUrlSafe [] h = tt
url_safe-IsUrlSafe (c ∷ s) (k, h) = (ground arith, url_safe-IsUrlSafe s h)

length-url_safe : (s : Text) → length (url_safe s) ≡ length s
unfolding url_safe
length-url_safe [] = refl
length-url_safe (c ∷ s) = ap suc (length-url_safe s)

strip_padding-equals_signs : (n : ℕ) → strip_padding (equals_signs n) ≡ []
unfolding strip_padding
strip_padding-equals_signs zero = refl
strip_padding-equals_signs (suc n) = rw (strip_padding-equals_signs n)

strip_padding-append :
    (s : Text) (n : ℕ) → All IsUrlSafe s → strip_padding (s ++ equals_signs n) ≡ s
unfolding strip_padding
strip_padding-append [] n h = strip_padding-equals_signs n
strip_padding-append (c ∷ s) n (k, h) = rw (strip_padding-append s n h) (ground arith)

module _ (btoa : Text → Text) (bytes : Text) (b : IsBtoa btoa bytes) where
  pub base64_url_encode-digits : base64_url_encode btoa bytes ≡ url_safe b.digits
  unfolding base64_url_encode
  base64_url_encode-digits =
      rw (b.encoded, url_safe-append, url_safe-equals_signs)
        (strip_padding-append (url_safe b.digits) b.padding
          (url_safe-IsUrlSafe b.digits b.alphabet))

  -- The encoded text holds only letters, digits, "-" and "_", and has ⌈8n/6⌉ of them for n bytes.
  pub base64_url_encode-IsUrlSafe :
      All IsUrlSafe (base64_url_encode btoa bytes)
      × (length (base64_url_encode btoa bytes) ≡ (4 * length bytes + 2) / 3)
  base64_url_encode-IsUrlSafe =
      rw base64_url_encode-digits
        (url_safe-IsUrlSafe b.digits b.alphabet, length-url_safe b.digits ∙ b.count)
