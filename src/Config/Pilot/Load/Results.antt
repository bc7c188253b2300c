-- ===== src/Config/Pilot/Load/Results.antt =====
-- What `loadPilotConfig` returns.
use eks_any_model_hosting.Common.{
  ◌≡◌, refl, true, Bool-cases, inl, inr, List, [], ◌∷◌, Option, none, some, Text, codes,
}
use eks_any_model_hosting.Config.Pilot.{
  Value, undefined, null, boolean, number, text, array, object, Raw, ProcessEnv,
  PilotEnvironmentConfig,
}
use eks_any_model_hosting.Config.Pilot.Coercion.{finite_or, number_or}
use eks_any_model_hosting.Config.Pilot.Validation.{
  errors_of, config_error, thrown_of, validate_pilot_config,
}
use eks_any_model_hosting.Config.Pilot.Validation.Valid.{IsValid, errors_of-IsValid}
use eks_any_model_hosting.Config.Pilot.Load.{
  Conversions, coerced, redirected_to, resolved_config, raw_or_empty, LoadedPilot, failed, loaded,
  unless_thrown, load_pilot_config,
}

module _ {Number : Type 0} (js : Conversions Number) where
  -- The two ends of the load, for the resolved configuration.
  pub data LoadsTo (c : PilotEnvironmentConfig Number) : LoadedPilot js → Type 0 where
    accepted : {warnings : List Text} → IsValid js.numbers c → LoadsTo c (loaded warnings c)
    rejected :
        {warnings : List Text} {error : Text} {errors : List Text}
        → ¬ IsValid js.numbers c
        → errors_of js.numbers c ≡ error ∷ errors
        → LoadsTo c (failed warnings (config_error (error ∷ errors)))

  unless_thrown-LoadsTo :
      (c : PilotEnvironmentConfig Number) (warnings errors : List Text)
      → errors_of js.numbers c ≡ errors
      → LoadsTo c (
          unless_thrown js (record { warnings = warnings; thrown = thrown_of js.numbers errors }) c)
  unless_thrown-LoadsTo c warnings [] e = accepted ((errors_of-IsValid js.numbers c).0 e)
  unless_thrown-LoadsTo c warnings (error ∷ errors) e =
      rejected (λ v. let no_errors = (errors_of-IsValid js.numbers c).1 v in cc) e

  -- `loadPilotConfig` returns the resolved configuration exactly where it is valid; else it throws
  -- the message that lists all the errors of the validation.
  pub load_pilot_config-LoadsTo :
      (process : ProcessEnv) (context : Option (Raw Number)) (spa_redirect_url : Option Text)
      → LoadsTo
          (resolved_config js process context spa_redirect_url)
          (load_pilot_config js process context spa_redirect_url)
  unfolding load_pilot_config validate_pilot_config
  load_pilot_config-LoadsTo process context spa_redirect_url =
      unless_thrown-LoadsTo (resolved_config js process context spa_redirect_url) _ _ refl

  abbrev pub IsFinite : Number → Type 0
  IsFinite n = js.numbers.is_finite n ≡ true

  -- The defaults are finite numbers.
  pub record HasFiniteDefaults : Type 0 where
    pub one : IsFinite (js.numbers.from_text (codes "1"))
    pub fifty : IsFinite (js.numbers.from_text (codes "50"))
    pub two_hundred : IsFinite (js.numbers.from_text (codes "200"))
    pub context : IsFinite (js.numbers.from_text (codes "8192"))
    pub output : IsFinite (js.numbers.from_text (codes "512"))
    pub memory : IsFinite (js.numbers.from_text (codes "0.85"))
    pub retention : IsFinite (js.numbers.from_text (codes "14"))

  pub record HasFiniteNumbers (c : PilotEnvironmentConfig Number) : Type 0 where
    pub gateways : IsFinite c.nat_gateway_count
    pub cpu_disk : IsFinite c.cpu_node_disk_size_gib
    pub gpu_disk : IsFinite c.gpu_node_disk_size_gib
    pub context : IsFinite c.max_model_length
    pub output : IsFinite c.max_output_tokens
    pub memory : IsFinite c.gpu_memory_utilization
    pub retention : IsFinite c.log_retention_days

  finite_or-IsFinite :
      (n fallback : Number) → IsFinite fallback → IsFinite (finite_or js.numbers n fallback)
  finite_or-IsFinite n fallback h = elim (Bool-cases (js.numbers.is_finite n)) [
    | inl e ↦ simp e
    | inr e ↦ simp e h
  ]

  number_or-IsFinite :
      (v : Value Number) (fallback : Number)
      → IsFinite fallback
      → IsFinite (number_or js.numbers js.to_number v fallback)
  unfolding number_or
  number_or-IsFinite undefined fallback h = h
  number_or-IsFinite null fallback h = h
  number_or-IsFinite (text []) fallback h = h
  number_or-IsFinite (text (c ∷ s)) fallback h = finite_or-IsFinite _ fallback h
  number_or-IsFinite (number n) fallback h = finite_or-IsFinite n fallback h
  number_or-IsFinite (boolean b) fallback h = finite_or-IsFinite _ fallback h
  number_or-IsFinite (array vs) fallback h = finite_or-IsFinite _ fallback h
  number_or-IsFinite object fallback h = finite_or-IsFinite _ fallback h

  coerced-HasFiniteNumbers :
      (process : ProcessEnv) (raw : Raw Number)
      → HasFiniteDefaults
      → HasFiniteNumbers (coerced js process raw)
  unfolding coerced
  coerced-HasFiniteNumbers process raw d = record {
    gateways = number_or-IsFinite raw.nat_gateway_count _ d.one;
    cpu_disk = number_or-IsFinite raw.cpu_node_disk_size_gib _ d.fifty;
    gpu_disk = number_or-IsFinite raw.gpu_node_disk_size_gib _ d.two_hundred;
    context = number_or-IsFinite raw.max_model_length _ d.context;
    output = number_or-IsFinite raw.max_output_tokens _ d.output;
    memory = number_or-IsFinite raw.gpu_memory_utilization _ d.memory;
    retention = number_or-IsFinite raw.log_retention_days _ d.retention;
  }

  redirected_to-HasFiniteNumbers :
      (url : Option Text) (c : PilotEnvironmentConfig Number)
      → HasFiniteNumbers c
      → HasFiniteNumbers (redirected_to js url c)
  unfolding redirected_to
  redirected_to-HasFiniteNumbers none c h = h
  redirected_to-HasFiniteNumbers (some []) c h = h
  redirected_to-HasFiniteNumbers (some (x ∷ url)) c h = record {
    gateways = h.gateways;
    cpu_disk = h.cpu_disk;
    gpu_disk = h.gpu_disk;
    context = h.context;
    output = h.output;
    memory = h.memory;
    retention = h.retention;
  }

  -- Whatever the context holds, every number of the resolved configuration is finite, so that the
  -- comparisons of the validation never see a NaN, where the literals of the defaults are finite.
  resolved_config-HasFiniteNumbers :
      (process : ProcessEnv) (context : Option (Raw Number)) (spa_redirect_url : Option Text)
      → HasFiniteDefaults
      → HasFiniteNumbers (resolved_config js process context spa_redirect_url)
  unfolding resolved_config
  resolved_config-HasFiniteNumbers process context url d =
      redirected_to-HasFiniteNumbers url _
        (coerced-HasFiniteNumbers process (raw_or_empty context) d)
