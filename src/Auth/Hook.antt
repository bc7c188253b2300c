-- ===== src/Auth/Hook.antt =====
-- spa/src/auth/useAuth.ts: the hook's state and its actions over the Cognito client. The callback's
-- run is in two actions, its start in the effect and its end; the code between the two is taken at
-- the end. The environment of each action is its own.
pub mod Bootstrap
pub mod StrictMode
pub mod Session
pub mod Tokens
use eks_any_model_hosting.Common.{
  Bool, true, false, List, [], ◌∷◌, Option, none, some, Text, codes, is_nil, if◌then◌else◌, ◌||◌,
  not,
}
use eks_any_model_hosting.Json.{Json}
use eks_any_model_hosting.Sse.{Thrown, message_or}
use eks_any_model_hosting.Auth.Claims.{decode_jwt}
use eks_any_model_hosting.Auth.Tokens.{
  StoredTokens, Tab, Awaited, resolved, raised, truthy, clear_tokens, Cognito, load_tokens,
}
use eks_any_model_hosting.Auth.Tokens.Refresh.{get_valid_access_token}
use eks_any_model_hosting.Auth.Callback.{login_redirect, handle_redirect_callback, logout_redirect}

-- The states and the ref of the hook, the tab it works on, and whether the effect's asynchronous
-- function is still running.
pub record Hook : Type 0 where
  pub is_authenticated : Bool
  pub is_loading : Bool
  pub user : Option Json
  pub error : Option Text
  pub bootstrapped : Bool
  pub pending : Bool
  pub tab : Tab

-- The first render.
abbrev pub mounted : Tab → Hook
mounted tab = record {
  is_authenticated = false;
  is_loading = true;
  user = none;
  error = none;
  bootstrapped = false;
  pending = false;
  tab = tab;
}

pub data Action : Type 0 where
  effect : Action
  callback_ended : Cognito → Action
  login : Cognito → Text → Text → Action
  logout : Cognito → Action
  token_wanted : Cognito → Action

abbrev pub signed_out : Hook → Hook
signed_out h = record h { is_authenticated = false; user = none }

-- `tokens.idToken || tokens.accessToken`
abbrev pub display_token : StoredTokens → Text
display_token tokens = if is_nil tokens.id_token then tokens.access_token else tokens.id_token

-- The `catch` of the effect.
abbrev pub callback_error : Option Text → Awaited (Option StoredTokens) → Option Text
callback_error error (resolved tokens) = error
callback_error error (raised e) = some (message_or (codes "Login failed.") e)

-- What `getAccessToken` does with the token: an empty one is falsy, too.
unfoldable pub on_token : Option Text → Hook → Option Text × Hook
on_token token h = elim (truthy token) [
  | none ↦ (token, signed_out (record h { tab = clear_tokens h.tab }))
  | some t ↦ (token, h)
]

-- The body of the effect; its second call, by StrictMode, ends at the guard.
unfoldable pub run_effect : Hook → Hook
run_effect h = if h.bootstrapped then h else record h { bootstrapped = true; pending = true }

unfoldable pub get_access_token : Cognito → Hook → Option Text × Hook
unfolding on_token
get_access_token env h =
    let (token, tab) = get_valid_access_token env h.tab in on_token token (record h { tab = tab })

module _ (atob decode_uri_component : Text → Option Text) (json_parse : Text → Option Json) where
  abbrev pub claims : StoredTokens → Json
  claims tokens = decode_jwt atob decode_uri_component json_parse (display_token tokens)

  -- `deriveUserFromSession`, on the tokens that were loaded.
  unfoldable pub derive_user : Option StoredTokens → Hook → Hook
  derive_user none h = signed_out h
  derive_user (some tokens) h = record h { is_authenticated = true; user = some (claims tokens) }

  -- The `catch` and the `finally` of the effect.
  unfoldable pub settle : Cognito → Awaited (Option StoredTokens) × Tab → Hook → Hook
  unfolding derive_user
  settle env (reply, tab) h = derive_user (load_tokens env tab) (record h {
    error = callback_error h.error reply;
    is_loading = false;
    pending = false;
    tab = tab;
  })

  unfoldable pub end_callback : Cognito → Hook → Hook
  unfolding settle
  end_callback env h = if h.pending then settle env (handle_redirect_callback env h.tab) h else h

  module _ (btoa sha256 : Text → Text) where
    unfoldable pub act : Action → Hook → Hook
    unfolding run_effect end_callback get_access_token
    act effect h = run_effect h
    act (callback_ended env) h = end_callback env h
    act (login env verifier_bytes state_bytes) h = record h {
      error = none;
      tab = login_redirect env btoa sha256 verifier_bytes state_bytes h.tab;
    }
    act (logout env) h = record h { tab = logout_redirect env h.tab }
    act (token_wanted env) h = (get_access_token env h).1

    -- The states that the hook can reach from its first render.
    pub data Reachable (tab : Tab) : Hook → Type 0 where
      start : Reachable tab (mounted tab)
      next : {h : Hook} (a : Action) → Reachable tab h → Reachable tab (act a h)

    unfoldable pub run : List Action → Hook → Hook
    unfolding act
    run [] h = h
    run (a ∷ later) h = run later (act a h)
