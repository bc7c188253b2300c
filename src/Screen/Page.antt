-- ===== src/Screen/Page.antt =====
-- The page of spa/src/App.tsx: the hook of useAuth.ts, and the chat view that React mounts while the
-- hook says that somebody is signed in. A view that React unmounts runs its cleanup and its state is
-- gone; what its closures still do then is not followed. Renders follow each action at once; the ids,
-- the random bytes and the controllers are arguments. The token that `newChat` awaits is an action of
-- the hook of its own, and any token is then taken.
pub mod Answers
pub mod Mounting
use eks_any_model_hosting.Common.{
  ℕ, ◌≡◌, ◌==◌, Bool, true, false, List, [], ◌∷◌, Option, none, some, Text, if◌then◌else◌,
}
use eks_any_model_hosting.Json.{Json}
use eks_any_model_hosting.Auth.Tokens.{Tab, Cognito}
use eks_any_model_hosting.Auth.Hook.{Hook, Action, login, mounted, get_access_token, act}
use eks_any_model_hosting.Chat.Requests.{StreamRequest}
use eks_any_model_hosting.Chat.View.{View, Submission, resume_submit, stop}
use eks_any_model_hosting.Chat.View.Steps
use eks_any_model_hosting.Chat.View.Steps.{
  Room, empty_room, taken, step, typed, submitted, token_arrived, called, stopped, new_chat_ended,
}
use eks_any_model_hosting.Screen.App.{AppScreen, loading, chat, app_screen}

-- The mounted chat view with its submissions, and the views that were unmounted.
pub record Page : Type 0 where
  pub hook : Hook
  pub room : Option Room
  pub left : List View

abbrev pub opened_page : Tab → Page
opened_page tab = record { hook = mounted tab; room = none; left = [] }

abbrev pub is_chat : AppScreen → Bool
is_chat (loading text) = false
is_chat (AppScreen.login s) = false
is_chat (chat user) = true

-- The chat view stays, is mounted in the session that its `newSessionId` makes, or is unmounted.
abbrev pub mounted_room : Bool → Text → Option Room → Option Room
mounted_room true session_id none = some (empty_room session_id)
mounted_room true session_id (some r) = some r
mounted_room false session_id room = none

-- `abortRef.current?.abort()` when it unmounts.
abbrev pub left_views : Bool → Option Room → List View → List View
left_views false (some r) left = stop r.view ∷ left
left_views false none left = left
left_views true room left = left

-- What `loginRedirect` takes.
pub record LoginMaterial : Type 0 where
  pub env : Cognito
  pub verifier_bytes : Text
  pub state_bytes : Text

module _ (model_name : Text) where
  unfoldable pub render : Text → Page → Page
  unfolding app_screen stop
  render session_id p =
      let shows = is_chat (app_screen model_name p.hook) in
      record p {
        room = mounted_room shows session_id p.room;
        left = left_views shows p.room p.left;
      }

module _ (atob decode_uri_component : Text → Option Text) (json_parse : Text → Option Json)
    (btoa sha256 : Text → Text) where
  abbrev pub act_on : Action → Hook → Hook
  act_on a h = act atob decode_uri_component json_parse btoa sha256 a h

  -- `onRequireLogin` is the hook's `login`, where an action of the view calls it.
  unfoldable pub after_logins : LoginMaterial → View → View → Hook → Hook
  unfolding act
  after_logins l before after h =
      if before.logins == after.logins
      then h
      else act_on (login l.env l.verifier_bytes l.state_bytes) h

module _ (model_name : Text) (atob decode_uri_component : Text → Option Text)
    (json_parse : Text → Option Json) (btoa sha256 : Text → Text) where
  abbrev pub hook_acted : Action → Text → Page → Page
  hook_acted a session_id p =
      render model_name session_id
        (record p { hook = act_on atob decode_uri_component json_parse btoa sha256 a p.hook })

  -- An action of the view that awaits no token.
  unfoldable pub chatted : LoginMaterial → Steps.Action → Text → Page → Page
  unfolding render after_logins step
  chatted l a session_id p = elim p.room [
    | none ↦ p
    | some r ↦
        let next = step a r in
        render model_name session_id (record p {
          hook =
              after_logins atob decode_uri_component json_parse btoa sha256 l r.view next.view
                p.hook;
          room = some next;
        })
  ]

  module _ (l : LoginMaterial) (user_id assistant_id : Text) (controller : ℕ)
      (session_id : Text) where
    -- What is behind the `await` of a submission, with the token and the hook that it left.
    unfoldable pub resumed_on :
        Submission
        → List Submission
        → Room
        → Page
        → Option Text × Hook
        → Option StreamRequest × Page
    unfolding render after_logins resume_submit
    resumed_on s rest r p (access_token, hook) =
        let (request, view) = resume_submit access_token user_id assistant_id controller s r.view in
        (
          request,
          render model_name session_id (record p {
            hook = after_logins atob decode_uri_component json_parse btoa sha256 l r.view view hook;
            room = some (record { view = view; pending = rest });
          }),
        )

    abbrev pub answered_with :
        Option (Submission × List Submission) → Room → Page → Option StreamRequest × Page
    answered_with none r p = (none, p)
    answered_with (some (s, rest)) r p = resumed_on s rest r p (get_access_token l.env p.hook)

    -- A waiting submission of the view gets what the hook's `getAccessToken` hands out.
    unfoldable pub answered : ℕ → Page → Option StreamRequest × Page
    unfolding resumed_on get_access_token
    answered n p = elim p.room [ none ↦ (none, p) | some r ↦ answered_with (taken n r.pending) r p ]

  -- The actions of the view but the one that a token answers.
  abbrev pub awaits_no_token : Steps.Action → Bool
  awaits_no_token (typed text) = true
  awaits_no_token (submitted raw) = true
  awaits_no_token (token_arrived n access_token user_id assistant_id controller) = false
  awaits_no_token (called assistant_id e) = true
  awaits_no_token stopped = true
  awaits_no_token (new_chat_ended old_id access_token new_id) = true

  pub data Reachable (tab : Tab) : Page → Type 0 where
    opened : Reachable tab (opened_page tab)
    acting :
        {p : Page} (a : Action) (session_id : Text)
        → Reachable tab p
        → Reachable tab (hook_acted a session_id p)
    chatting :
        {p : Page} (l : LoginMaterial) (a : Steps.Action) (session_id : Text)
        → awaits_no_token a ≡ true
        → Reachable tab p
        → Reachable tab (chatted l a session_id p)
    answering :
        {p : Page} (l : LoginMaterial) (user_id assistant_id : Text) (controller : ℕ)
        (session_id : Text) (n : ℕ)
        → Reachable tab p
        → Reachable tab (answered l user_id assistant_id controller session_id n p).1
