-- ===== src/Auth/Hook/Bootstrap.antt =====
-- The flags of the hook, and its single bootstrap.
use eks_any_model_hosting.Common.{
  ◌≡◌, refl, Bool, true, false, ◌&&◌, ◌||◌, not, List, [], ◌∷◌, Option, none, some, Text,
  Option-cases, Bool-cases, inl, inr, arith,
}
use eks_any_model_hosting.Json.{Json}
use eks_any_model_hosting.Auth.Tokens.{StoredTokens, Tab, Cognito, load_tokens, truthy}
use eks_any_model_hosting.Auth.Tokens.Refresh.{get_valid_access_token}
use eks_any_model_hosting.Auth.Callback.{handle_redirect_callback}
use eks_any_model_hosting.Auth.Hook.{
  Hook, Action, effect, callback_ended, login, logout, token_wanted, run_effect, on_token,
  get_access_token, derive_user, settle, end_callback, act, Reachable, start, next, run,
}

abbrev pub is_some : {A : Type 0} → Option A → Bool
is_some none = false
is_some (some a) = true

-- What the flags of the hook say of each other.
pub record IsCoherent (h : Hook) : Type 0 where
  -- A user is shown exactly while somebody is signed in.
  pub shown : h.is_authenticated ≡ is_some h.user
  pub loading : h.is_loading ≡ (not h.bootstrapped || h.pending)
  pub guarded : h.pending && not h.bootstrapped ≡ false
  pub awaited : h.is_loading && h.is_authenticated ≡ false

run_effect-IsCoherent : (h : Hook) → IsCoherent h → IsCoherent (run_effect h)
unfolding run_effect
run_effect-IsCoherent h c = elim (Bool-cases h.bootstrapped) [
  | inl e ↦ simp e c
  | inr e ↦ simp e (record {
    shown = c.shown;
    loading = ground (arith, c.loading, e);
    guarded = refl;
    awaited = c.awaited;
  })
]

on_token-IsCoherent :
    (token : Option Text) (h : Hook) → IsCoherent h → IsCoherent (on_token token h).1
unfolding on_token
on_token-IsCoherent token h c = elim (Option-cases (truthy token)) [
  | inl e ↦
      rw (e, on_token)
        (record { shown = refl; loading = c.loading; guarded = c.guarded; awaited = ground arith })
  | inr (t, e) ↦ rw (e, on_token) c
]

pub get_access_token-IsCoherent :
    (env : Cognito) (h : Hook) → IsCoherent h → IsCoherent (get_access_token env h).1
unfolding get_access_token
get_access_token-IsCoherent env h c =
    let (token, tab) = get_valid_access_token env h.tab in
    on_token-IsCoherent token (record h { tab = tab })
      (record { shown = c.shown; loading = c.loading; guarded = c.guarded; awaited = c.awaited })

-- The actions but the two of the bootstrap.
abbrev pub without_bootstrap : List Action → List Action
without_bootstrap [] = []
without_bootstrap (effect ∷ later) = without_bootstrap later
without_bootstrap (callback_ended env ∷ later) = without_bootstrap later
without_bootstrap (login env v s ∷ later) = login env v s ∷ without_bootstrap later
without_bootstrap (logout env ∷ later) = logout env ∷ without_bootstrap later
without_bootstrap (token_wanted env ∷ later) = token_wanted env ∷ without_bootstrap later

-- The bootstrap has run to its end.
pub record IsSettled (h : Hook) : Type 0 where
  pub began : h.bootstrapped ≡ true
  pub ended : h.pending ≡ false

on_token-IsSettled : (token : Option Text) (h : Hook) → IsSettled h → IsSettled (on_token token h).1
unfolding on_token
on_token-IsSettled token h c = elim (Option-cases (truthy token)) [
  | inl e ↦ rw (e, on_token) (record { began = c.began; ended = c.ended })
  | inr (t, e) ↦ rw (e, on_token) c
]

get_access_token-IsSettled :
    (env : Cognito) (h : Hook) → IsSettled h → IsSettled (get_access_token env h).1
unfolding get_access_token
get_access_token-IsSettled env h c =
    let (token, tab) = get_valid_access_token env h.tab in
    on_token-IsSettled token (record h { tab = tab }) (record { began = c.began; ended = c.ended })

pub run_effect_again : (h : Hook) → h.bootstrapped ≡ true → run_effect h ≡ h
unfolding run_effect
run_effect_again h e = simp e

module _ (atob decode_uri_component : Text → Option Text) (json_parse : Text → Option Json)
    (btoa sha256 : Text → Text) where
  derive_user-IsCoherent :
      (o : Option StoredTokens) (h : Hook)
      → h.is_loading ≡ false
      → h.pending ≡ false
      → h.bootstrapped ≡ true
      → IsCoherent (derive_user atob decode_uri_component json_parse o h)
  unfolding derive_user
  derive_user-IsCoherent none h l p b = record {
    shown = refl;
    loading = ground arith;
    guarded = ground arith;
    awaited = ground arith;
  }
  derive_user-IsCoherent (some t) h l p b = record {
    shown = refl;
    loading = ground arith;
    guarded = ground arith;
    awaited = ground arith;
  }

  end_callback-IsCoherent :
      (env : Cognito) (h : Hook)
      → IsCoherent h
      → IsCoherent (end_callback atob decode_uri_component json_parse env h)
  unfolding end_callback settle
  end_callback-IsCoherent env h c = elim (Bool-cases h.pending) [
    | inl e ↦
        let began : h.bootstrapped ≡ true = ground (arith, c.guarded) in
        let (reply, tab) = handle_redirect_callback env h.tab in
        simp e (derive_user-IsCoherent (load_tokens env tab) _ refl refl began)
    | inr e ↦ simp e c
  ]

  pub act-IsCoherent :
      (a : Action) (h : Hook)
      → IsCoherent h
      → IsCoherent (act atob decode_uri_component json_parse btoa sha256 a h)
  unfolding act
  act-IsCoherent effect h c = run_effect-IsCoherent h c
  act-IsCoherent (callback_ended env) h c = end_callback-IsCoherent env h c
  act-IsCoherent (login env v s) h c = record {
    shown = c.shown;
    loading = c.loading;
    guarded = c.guarded;
    awaited = c.awaited;
  }
  act-IsCoherent (logout env) h c = record {
    shown = c.shown;
    loading = c.loading;
    guarded = c.guarded;
    awaited = c.awaited;
  }
  act-IsCoherent (token_wanted env) h c = get_access_token-IsCoherent env h c

  -- In every state that the hook can reach, a user is shown exactly while somebody is signed in, it
  -- is loading exactly until the redirect's callback has ended, a callback only runs behind the
  -- effect's guard, and nobody is signed in while it loads.
  Reachable-IsCoherent :
      {tab : Tab} {h : Hook}
      → Reachable atob decode_uri_component json_parse btoa sha256 tab h
      → IsCoherent h
  Reachable-IsCoherent start = record {
    shown = refl;
    loading = refl;
    guarded = refl;
    awaited = refl;
  }
  Reachable-IsCoherent (next {h = h} a r) = act-IsCoherent a h (Reachable-IsCoherent r)

  end_callback_again :
      (env : Cognito) (h : Hook)
      → h.pending ≡ false
      → end_callback atob decode_uri_component json_parse env h ≡ h
  unfolding end_callback
  end_callback_again env h e = simp e

  -- Once settled, the hook does not run its bootstrap again.
  pub run-without_bootstrap :
      (later : List Action) (h : Hook)
      → IsSettled h
      → run atob decode_uri_component json_parse btoa sha256 later h
        ≡ run atob decode_uri_component json_parse btoa sha256 (without_bootstrap later) h
  unfolding run
  run-without_bootstrap [] h c = refl
  run-without_bootstrap (effect ∷ later) h c =
      rw (run_effect_again h c.began) (run-without_bootstrap later h c)
  run-without_bootstrap (callback_ended env ∷ later) h c =
      rw (end_callback_again env h c.ended) (run-without_bootstrap later h c)
  run-without_bootstrap (login env v s ∷ later) h c =
      run-without_bootstrap later _ (record { began = c.began; ended = c.ended })
  run-without_bootstrap (logout env ∷ later) h c =
      run-without_bootstrap later _ (record { began = c.began; ended = c.ended })
  run-without_bootstrap (token_wanted env ∷ later) h c =
      run-without_bootstrap later _ (get_access_token-IsSettled env h c)
