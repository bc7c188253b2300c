-- ===== src/Tests/Settings.antt =====
-- Runs of the two configurations.
use eks_any_model_hosting.Common.{
  ℕ, ◌+◌, ◌-◌, ◌*◌, ◌≡◌, ◌↔◌, refl, true, [], ◌∷◌, Option, none, some, Text, codes, text_eq, ltb,
  leb, ◌==◌, if◌then◌else◌,
}
use eks_any_model_hosting.Config.Spa.{load_config}
use eks_any_model_hosting.Config.Spa.Load
use eks_any_model_hosting.Config.Spa.Load.{load_config-LoadsTo}
use eks_any_model_hosting.Config.Pilot.{Numbers, text, Raw, ProcessEnv}
use eks_any_model_hosting.Config.Pilot.Validation.{
  errors_of, is_cidr, is_environment_name, is_eks_version, is_unpinned,
}
use eks_any_model_hosting.Config.Pilot.Validation.Patterns.{IsCidr, is_cidr-IsCidr}
use eks_any_model_hosting.Config.Pilot.Validation.Valid.{IsValid, errors_of-IsValid}
use eks_any_model_hosting.Config.Pilot.Load.{
  Conversions, resolved_config, load_pilot_config, empty_raw,
}
use eks_any_model_hosting.Config.Pilot.Load.Results
use eks_any_model_hosting.Config.Pilot.Load.Results.{
  HasFiniteDefaults, HasFiniteNumbers, load_pilot_config-LoadsTo,
}

abbrev spa_env : Text → Option Text
spa_env name =
    if text_eq name (codes "VITE_API_BASE_URL")
    then some (codes " https://api/ ")
    else if text_eq name (codes "VITE_MODEL_NAME")
    then none
    else some (codes "value")

load_config-LoadsTo_example : Load.LoadsTo spa_env (load_config spa_env)
load_config-LoadsTo_example = load_config-LoadsTo spa_env

-- Numbers in hundredths.
abbrev fraction : Text → ℕ
fraction (d ∷ e ∷ _) = (d - b'0') * 10 + (e - b'0')
fraction _ = 0

abbrev decimal : ℕ → Text → ℕ
decimal acc [] = acc * 100
decimal acc (c ∷ s) =
    let whole = decimal (acc * 10 + (c - b'0')) s in
    if c == b'.' then acc * 100 + fraction s else whole

abbrev pub hundredths : Numbers ℕ
hundredths = record {
  from_text = decimal 0;
  less = ltb;
  less_eq = leb;
  is_finite = λ n. true;
  show = λ n. codes "n";
}

abbrev pub js : Conversions ℕ
js = record {
  numbers = hundredths;
  to_number = λ v. 0;
  to_string = λ v. codes "v";
  to_lower_case = λ s. s;
}

abbrev pub process : ProcessEnv
process = record {
  cdk_default_account = some (codes "111122223333");
  aws_account_id = none;
  cdk_default_region = none;
  aws_region = none;
}

abbrev context : Option (Raw ℕ)
context = some (record empty_raw {
  nat_gateway_count = text (codes "2");
  cognito_callback_urls = text (codes "https://a/, https://b/");
})

load_pilot_config-LoadsTo_example :
    Results.LoadsTo js
      (resolved_config js process context none)
      (load_pilot_config js process context none)
load_pilot_config-LoadsTo_example = load_pilot_config-LoadsTo js process context none

errors_of-IsValid_example :
    (errors_of hundredths (resolved_config js process context none) ≡ [])
    ↔ IsValid hundredths (resolved_config js process context none)
errors_of-IsValid_example = errors_of-IsValid hundredths (resolved_config js process context none)

callback_urls_test :
    (resolved_config js process context none).cognito_callback_urls
    ≡ codes "https://a/" ∷ codes "https://b/" ∷ []
unfolding resolved_config
callback_urls_test = refl

finite_defaults : HasFiniteDefaults js
finite_defaults = record {
  one = refl;
  fifty = refl;
  two_hundred = refl;
  context = refl;
  output = refl;
  memory = refl;
  retention = refl;
}

is_cidr-IsCidr_example : (is_cidr (codes "10.20.0.0/16") ≡ true) ↔ IsCidr (codes "10.20.0.0/16")
is_cidr-IsCidr_example = is_cidr-IsCidr (codes "10.20.0.0/16")

-- The pattern has no bounds on its numbers.
wide_cidr_test : is_cidr (codes "999.999.999.999/99") ≡ true
unfolding is_cidr
wide_cidr_test = refl

defaults_test : errors_of hundredths (resolved_config js process none none) ≡ []
unfolding errors_of resolved_config is_environment_name is_cidr is_eks_version is_unpinned
defaults_test = refl
