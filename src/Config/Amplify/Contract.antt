-- ===== src/Config/Amplify/Contract.antt =====
-- The hosting's variables are the ones that the application requires.
use eks_any_model_hosting.Common.{
  ℕ, ◌&&◌, if◌then◌else◌, ◌≡◌, refl, ap, ◌∙◌, Bool, true, false, Bool-cases, inl, inr, List, [],
  ◌∷◌, ◌++◌, Option, some, Text, codes, All, is_nil, is_space, trim, trim_start, trim_end,
}
use eks_any_model_hosting.Config.Spa.{
  AppConfig, strip_trailing_slash, read_env, missing_of, app_config, on_missing, required_vars,
  load_config, loaded,
}
use eks_any_model_hosting.Config.Amplify.{
  AmplifyStackProps, redirect_of, variables_of, spa_app, without_slash,
}

trim_start-slash : (s : Text) → (t : Text) × (trim_start (s ++ codes "/") ≡ t ++ codes "/")
unfolding trim_start is_space
trim_start-slash [] = ([], refl)
trim_start-slash (c ∷ s) = elim (Bool-cases (is_space c)) [
  | inl e ↦ rw e (trim_start-slash s)
  | inr e ↦ rw e (c ∷ s, refl)
]

filled : (s : Text) → is_nil (s ++ codes "/") ≡ false
filled [] = refl
filled (c ∷ s) = refl

and-false : (b : Bool) → (b && false) ≡ false
and-false true = refl
and-false false = refl

-- A character stays before what is not empty.
kept :
    (c : ℕ) (s : Text)
    → (if is_space c && is_nil (s ++ codes "/") then [] else c ∷ (s ++ codes "/"))
      ≡ c ∷ (s ++ codes "/")
kept c s = rw (filled s, and-false (is_space c)) refl

trim_end-slash : (s : Text) → trim_end (s ++ codes "/") ≡ s ++ codes "/"
unfolding trim_end is_space
trim_end-slash [] = refl
trim_end-slash (c ∷ s) = rw (trim_end-slash s) (kept c s)

-- A text that ends in a slash is not blank.
trim-slash : (s : Text) → is_nil (trim (s ++ codes "/")) ≡ false
unfolding trim
trim-slash s = let (t, e) = trim_start-slash s in rw (e, trim_end-slash t) (filled t)

-- The build puts each of the hosting's variables into `import.meta.env`.
pub record IsInlined (env : Text → Option Text) (variables : List (Text × Text)) : Type 0 where
  pub given : All (λ p. env p.0 ≡ some p.1) variables

-- The values that the other stacks give are not blank.
pub record IsFilled {Number : Type 0} (props : AmplifyStackProps Number) : Type 0 where
  pub region : is_nil (trim props.cognito.region) ≡ false
  pub pool : is_nil (trim props.cognito.user_pool_id) ≡ false
  pub client : is_nil (trim props.cognito.app_client_id) ≡ false
  pub domain : is_nil (trim props.cognito_domain) ≡ false
  pub api : is_nil (trim props.api_base_url) ≡ false
  pub model : is_nil (trim props.config.served_model_name) ≡ false

abbrev names_of : List (Text × Text) → List Text
names_of [] = []
names_of ((name, v) ∷ variables) = name ∷ names_of variables

module _ (env : Text → Option Text) where
  read_env-given : (name v : Text) → env name ≡ some v → read_env env name ≡ trim v
  unfolding read_env
  read_env-given name v e = rw e refl

  missing_of-given :
      (variables : List (Text × Text))
      → All (λ p. env p.0 ≡ some p.1) variables
      → All (λ p. is_nil (trim p.1) ≡ false) variables
      → missing_of env (names_of variables) ≡ []
  unfolding missing_of
  missing_of-given [] _ _ = refl
  missing_of-given ((name, v) ∷ variables) (e, es) (full, fulls) =
      rw (read_env-given name v e, full) (missing_of-given variables es fulls)

-- What the application is configured with.
abbrev pub configured : {Number : Type 0} → AmplifyStackProps Number → AppConfig
configured props =
    let redirect = trim (redirect_of props.initial_redirect_origin) in
    record {
      aws_region = trim props.cognito.region;
      cognito_user_pool_id = trim props.cognito.user_pool_id;
      cognito_app_client_id = trim props.cognito.app_client_id;
      cognito_domain = strip_trailing_slash (trim props.cognito_domain);
      redirect_sign_in = redirect;
      redirect_sign_out = redirect;
      api_base_url = strip_trailing_slash (trim props.api_base_url);
      model_name = trim props.config.served_model_name;
    }

module _ {Number : Type 0} (env : Text → Option Text) (props : AmplifyStackProps Number) where
  none_missing :
      IsInlined env (variables_of props) → IsFilled props → missing_of env required_vars ≡ []
  unfolding redirect_of
  none_missing g f =
      let slash = trim-slash (without_slash props.initial_redirect_origin) in
      missing_of-given env (variables_of props) g.given
        (f.region, (f.pool, (f.client, (f.domain, (slash, (slash, (f.api, (f.model, tt))))))))

  app_config-configured : IsInlined env (variables_of props) → app_config env ≡ configured props
  unfolding app_config read_env
  app_config-configured g =
      let (e1, (e2, (e3, (e4, (e5, (e6, (e7, (e8, _)))))))) = g.given in
      rw (e1, e2, e3, e4, e5, e6, e7, e8) refl

  -- The application loads with the variables of its hosting, where the build inlines them and the
  -- values of the other stacks are not blank: none of the required ones is missing, and the two
  -- redirects are the same URL.
  pub load_config-spa_app :
      IsInlined env (spa_app props).environment_variables
      → IsFilled props
      → load_config env ≡ loaded (configured props)
  unfolding spa_app load_config
  load_config-spa_app g f =
      ap (on_missing env) (none_missing g f) ∙ ap loaded (app_config-configured g)
