-- ===== src/Auth/Hook/StrictMode.antt =====
-- StrictMode runs the effect of the hook twice; the guard keeps the bootstrap single.
use eks_any_model_hosting.Common.{
  ℕ, zero, suc, ◌≡◌, refl, ◌∙◌, ap, true, List, ◌∷◌, ◌++◌, Option, none, some, Text, repeat,
}
use eks_any_model_hosting.Json.{Json}
use eks_any_model_hosting.Auth.Tokens.{StoredTokens, Tab, Cognito}
use eks_any_model_hosting.Auth.Callback.{handle_redirect_callback}
use eks_any_model_hosting.Auth.Hook.{
  Hook, mounted, Action, effect, callback_ended, run_effect, derive_user, settle, end_callback, run,
}
use eks_any_model_hosting.Auth.Hook.Bootstrap.{
  IsSettled, run_effect_again, run-without_bootstrap, without_bootstrap,
}

module _ (atob decode_uri_component : Text → Option Text) (json_parse : Text → Option Json)
    (btoa sha256 : Text → Text) where
  derive_user-IsSettled :
      (o : Option StoredTokens) (h : Hook)
      → IsSettled h
      → IsSettled (derive_user atob decode_uri_component json_parse o h)
  unfolding derive_user
  derive_user-IsSettled none h c = record { began = c.began; ended = c.ended }
  derive_user-IsSettled (some t) h c = record { began = c.began; ended = c.ended }

  end_callback-IsSettled :
      (env : Cognito) (tab : Tab)
      → IsSettled (
          settle atob decode_uri_component json_parse env
            (handle_redirect_callback env tab)
            (run_effect (mounted tab)))
  unfolding settle run_effect
  end_callback-IsSettled env tab = derive_user-IsSettled _ _ (record { began = refl; ended = refl })

  run-effects :
      (n : ℕ) (later : List Action) (h : Hook)
      → h.bootstrapped ≡ true
      → run atob decode_uri_component json_parse btoa sha256 (repeat n effect ++ later) h
        ≡ run atob decode_uri_component json_parse btoa sha256 later h
  unfolding run
  run-effects zero later h e = refl
  run-effects (suc n) later h e =
      ap (run atob decode_uri_component json_parse btoa sha256 (repeat n effect ++ later))
        (run_effect_again h e)
      ∙ run-effects n later h e

  -- However often the effect of a mounted hook runs again before the redirect's callback has ended,
  -- and whenever it runs later, and whatever else happens then, the callback runs once, and the
  -- hook ends in the state in which only that one run and the other actions leave it.
  pub run-StrictMode :
      (env : Cognito) (tab : Tab) (n : ℕ) (later : List Action)
      → run atob decode_uri_component json_parse btoa sha256
          (effect ∷ (repeat n effect ++ callback_ended env ∷ later))
          (mounted tab)
        ≡ run atob decode_uri_component json_parse btoa sha256 (without_bootstrap later) (
            settle atob decode_uri_component json_parse env
              (handle_redirect_callback env tab)
              (run_effect (mounted tab)))
  unfolding run end_callback run_effect
  run-StrictMode env tab n later =
      run-effects n (callback_ended env ∷ later) (run_effect (mounted tab)) refl
      ∙ run-without_bootstrap atob decode_uri_component json_parse btoa sha256 later _
          (end_callback-IsSettled env tab)
