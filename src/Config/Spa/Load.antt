-- ===== src/Config/Spa/Load.antt =====
-- When the configuration of the application loads, and what it holds.
use eks_any_model_hosting.Common.{
  ◌≡◌, refl, ap, ◌≢◌, inl, inr, Bool, true, false, List, [], ◌∷◌, ◌++◌, Option, Text, codes, is_nil,
  Bool-cases, arith, ◌==◌, ◌&&◌, ◌↔◌, if◌then◌else◌, ℕ, suc, repeat,
}
use eks_any_model_hosting.Config.Spa.{
  AppConfig, strip_trailing_slash, required_vars, Loaded, failed, loaded, missing_message, read_env,
  missing_of, app_config, on_missing, load_config,
}

-- A text without a slash at its end.
pub data EndsPlain : Text → Type 0 where
  empty : EndsPlain []
  last : {c : ℕ} → c ≢ b'/' → EndsPlain (c ∷ [])
  more : {c d : ℕ} {s : Text} → EndsPlain (d ∷ s) → EndsPlain (c ∷ d ∷ s)

-- The text is the stripped one and slashes behind it, and the stripped one ends in none.
pub record Stripped (s t : Text) : Type 0 where
  pub slashes : ℕ
  pub whole : s ≡ t ++ repeat slashes b'/'
  pub plain : EndsPlain t

and_false : (b : Bool) → (b && false) ≡ false
and_false true = refl
and_false false = refl

-- The step of the recursion, on what it has stripped.
cons-Stripped :
    (c : ℕ) (s t : Text)
    → Stripped s t
    → is_nil t ≡ false
    → Stripped (c ∷ s) (if c == b'/' && is_nil t then [] else c ∷ t)
cons-Stripped c s [] h full = ground (arith, full)
cons-Stripped c s (d ∷ t) h full =
    rw (and_false (c == b'/'))
      (record { slashes = h.slashes; whole = ap (◌∷◌ c) h.whole; plain = more h.plain })

cons-Stripped_nil :
    (c : ℕ) (s t : Text)
    → Stripped s t
    → is_nil t ≡ true
    → Stripped (c ∷ s) (if c == b'/' && is_nil t then [] else c ∷ t)
cons-Stripped_nil c s (d ∷ t) h e = ground (arith, e)
cons-Stripped_nil c s [] h e = elim (Bool-cases (c == b'/')) [
  | inl slash ↦
      let is_slash : c ≡ b'/' = ground (arith, slash) in
      rw slash
        (record { slashes = suc h.slashes; whole = rw (is_slash, ← h.whole) refl; plain = empty })
  | inr other ↦ rw other (record {
    slashes = h.slashes;
    whole = ap (◌∷◌ c) h.whole;
    plain = last (ground (arith, other));
  })
]

pub strip_trailing_slash-Stripped : (s : Text) → Stripped s (strip_trailing_slash s)
unfolding strip_trailing_slash
strip_trailing_slash-Stripped [] = record { slashes = 0; whole = refl; plain = empty }
strip_trailing_slash-Stripped (c ∷ s) =
    let rest = strip_trailing_slash s in
    let h = strip_trailing_slash-Stripped s in
    elim (Bool-cases (is_nil rest)) [
      | inr full ↦ cons-Stripped c s rest h full
      | inl e ↦ cons-Stripped_nil c s rest h e
    ]

module _ (env : Text → Option Text) where
  -- The names that are missing among some names, in their order.
  pub data Missing : List Text → List Text → Type 0 where
    none_left : Missing [] []
    absent :
        {n : Text} {ns ms : List Text}
        → read_env env n ≡ []
        → Missing ns ms
        → Missing (n ∷ ns) (n ∷ ms)
    present :
        {n : Text} {ns ms : List Text} → read_env env n ≢ [] → Missing ns ms → Missing (n ∷ ns) ms

  -- What a configuration takes from the environment.
  pub record IsConfigured (c : AppConfig) : Type 0 where
    pub region : c.aws_region ≡ read_env env (codes "VITE_AWS_REGION")
    pub pool : c.cognito_user_pool_id ≡ read_env env (codes "VITE_COGNITO_USER_POOL_ID")
    pub client : c.cognito_app_client_id ≡ read_env env (codes "VITE_COGNITO_APP_CLIENT_ID")
    pub domain : Stripped (read_env env (codes "VITE_COGNITO_DOMAIN")) c.cognito_domain
    pub sign_in : c.redirect_sign_in ≡ read_env env (codes "VITE_COGNITO_REDIRECT_SIGN_IN")
    pub sign_out : c.redirect_sign_out ≡ read_env env (codes "VITE_COGNITO_REDIRECT_SIGN_OUT")
    pub api : Stripped (read_env env (codes "VITE_API_BASE_URL")) c.api_base_url
    pub model : c.model_name ≡ read_env env (codes "VITE_MODEL_NAME")

  pub data LoadsTo : Loaded → Type 0 where
    configured : {c : AppConfig} → Missing required_vars [] → IsConfigured c → LoadsTo (loaded c)
    refused :
        {m : Text} {ms : List Text}
        → Missing required_vars (m ∷ ms)
        → LoadsTo (failed (missing_message (m ∷ ms)))

  is_nil_iff : (s : Text) → (is_nil s ≡ true) ↔ (s ≡ [])
  is_nil_iff [] = ground arith
  is_nil_iff (c ∷ s) = ground arith

  missing_of-Missing : (names : List Text) → Missing names (missing_of env names)
  unfolding missing_of
  missing_of-Missing [] = none_left
  missing_of-Missing (n ∷ names) = elim (Bool-cases (is_nil (read_env env n))) [
    | inl e ↦ rw (e, missing_of) (absent ((is_nil_iff _).0 e) (missing_of-Missing names))
    | inr e ↦
        rw (e, missing_of)
          (present (λ z. ground (arith, e, (is_nil_iff (read_env env n)).1 z))
            (missing_of-Missing names))
  ]

  app_config-IsConfigured : IsConfigured (app_config env)
  unfolding app_config
  app_config-IsConfigured = record {
    region = refl;
    pool = refl;
    client = refl;
    domain = strip_trailing_slash-Stripped _;
    sign_in = refl;
    sign_out = refl;
    api = strip_trailing_slash-Stripped _;
    model = refl;
  }

  on_missing-LoadsTo :
      (missing : List Text) → Missing required_vars missing → LoadsTo (on_missing env missing)
  on_missing-LoadsTo [] h = configured h app_config-IsConfigured
  on_missing-LoadsTo (m ∷ ms) h = refused h

  -- The configuration loads exactly where no required variable is missing or blank, and then holds
  -- their trimmed values, the two URLs without the slashes at their ends. Else it fails with a
  -- message that lists the missing ones, all of them and in order.
  pub load_config-LoadsTo : LoadsTo (load_config env)
  unfolding load_config
  load_config-LoadsTo = on_missing-LoadsTo _ (missing_of-Missing required_vars)
