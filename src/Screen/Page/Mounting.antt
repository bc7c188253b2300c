-- ===== src/Screen/Page/Mounting.antt =====
-- When the chat view is mounted, and what it leaves when it is unmounted.
use eks_any_model_hosting.Common.{
  ℕ, ◌∙◌, arith, ◌==◌, Bool, true, false, Bool-cases, Option-cases, inl, inr, ◌≡◌, refl, sym, subst,
  List, ◌∷◌, Option, none, some, Text, All, if_both,
}
use eks_any_model_hosting.Json.{Json}
use eks_any_model_hosting.Auth.Tokens.{Tab}
use eks_any_model_hosting.Auth.Hook.{Hook, Action, login, get_access_token}
use eks_any_model_hosting.Auth.Hook.Bootstrap.{
  IsCoherent, is_some, act-IsCoherent, get_access_token-IsCoherent,
}
use eks_any_model_hosting.Chat.View.{View, resume_submit, stop}
use eks_any_model_hosting.Chat.View.Steps
use eks_any_model_hosting.Chat.View.Steps.{
  Room, empty_room, taken, resumed, step, start, next, token_arrived,
}
use eks_any_model_hosting.Screen.App.{app_screen}
use eks_any_model_hosting.Screen.Page.{
  Page, is_chat, mounted_room, left_views, LoginMaterial, render, after_logins, act_on, chatted,
  resumed_on, answered_with, answered, Reachable, opened, acting, chatting, answering,
}

-- There is no controller, or it was aborted last.
abbrev pub IsAborted : Option ℕ → List ℕ → Type 0
IsAborted none aborted = Unit
IsAborted (some c) aborted = (earlier : List ℕ) × (aborted ≡ c ∷ earlier)

-- A mounted view is in a state that its own actions lead to.
abbrev pub IsRoom : Option Room → Type 0
IsRoom none = Unit
IsRoom (some r) = (session_id : Text) × Steps.Reachable session_id r

pub record IsPlaced (model_name : Text) (p : Page) : Type 0 where
  pub coherent : IsCoherent p.hook
  pub placed : is_some p.room ≡ is_chat (app_screen model_name p.hook)
  pub signed : is_some p.room ≡ is_some p.hook.user
  pub own : IsRoom p.room
  pub stopped : All (λ v. IsAborted v.abort_ref v.aborted) p.left

is_some-mounted_room :
    (shows : Bool) (session_id : Text) (room : Option Room)
    → is_some (mounted_room shows session_id room) ≡ shows
is_some-mounted_room true session_id none = refl
is_some-mounted_room true session_id (some r) = refl
is_some-mounted_room false session_id room = refl

mounted_room-IsRoom :
    (shows : Bool) (session_id : Text) (room : Option Room)
    → IsRoom room
    → IsRoom (mounted_room shows session_id room)
mounted_room-IsRoom true session_id none h = (session_id, start)
mounted_room-IsRoom true session_id (some r) h = h
mounted_room-IsRoom false session_id room h = tt

stop-IsAborted : (v : View) → IsAborted (stop v).abort_ref (stop v).aborted
unfolding stop
stop-IsAborted v = elim (Option-cases v.abort_ref) [
  | inl e ↦ rw (e, stop) tt
  | inr (c, e) ↦ rw (e, stop) (v.aborted, refl)
]

left_views-stopped :
    (shows : Bool) (room : Option Room) (left : List View)
    → All (λ v. IsAborted v.abort_ref v.aborted) left
    → All (λ v. IsAborted v.abort_ref v.aborted) (left_views shows room left)
left_views-stopped false (some r) left h = (stop-IsAborted r.view, h)
left_views-stopped false none left h = h
left_views-stopped true room left h = h

-- The chat is on the screen exactly while there is a user.
is_chat-user :
    (model_name : Text) (h : Hook)
    → IsCoherent h
    → is_chat (app_screen model_name h) ≡ is_some h.user
unfolding app_screen
is_chat-user model_name h c = elim (Bool-cases h.is_loading) [
  | inl e ↦
      let nobody : h.is_authenticated ≡ false = ground (arith, c.awaited, e) in
      rw e (sym nobody ∙ c.shown)
  | inr e ↦ elim (Bool-cases h.is_authenticated) [
    | inl a ↦ rw (e, a) (sym a ∙ c.shown)
    | inr a ↦ rw (e, a) (sym a ∙ c.shown)
  ]
]

render-IsPlaced :
    (model_name session_id : Text) (p : Page)
    → IsCoherent p.hook
    → IsRoom p.room
    → All (λ v. IsAborted v.abort_ref v.aborted) p.left
    → IsPlaced model_name (render model_name session_id p)
unfolding render
render-IsPlaced model_name session_id p c own stopped =
    let shows = is_chat (app_screen model_name p.hook) in
    record {
      coherent = c;
      placed = is_some-mounted_room shows session_id p.room;
      signed = is_some-mounted_room shows session_id p.room ∙ is_chat-user model_name p.hook c;
      own = mounted_room-IsRoom shows session_id p.room own;
      stopped = left_views-stopped shows p.room p.left stopped;
    }

module _ (atob decode_uri_component : Text → Option Text) (json_parse : Text → Option Json)
    (btoa sha256 : Text → Text) where
  abbrev acts : Action → Hook → Hook
  acts a h = act_on atob decode_uri_component json_parse btoa sha256 a h

  after_logins-IsCoherent :
      (l : LoginMaterial) (before after : View) (h : Hook)
      → IsCoherent h
      → IsCoherent (after_logins atob decode_uri_component json_parse btoa sha256 l before after h)
  unfolding after_logins
  after_logins-IsCoherent l before after h c =
      if_both IsCoherent (before.logins == after.logins) c (
        act-IsCoherent atob decode_uri_component json_parse btoa sha256
          (login l.env l.verifier_bytes l.state_bytes) h c)

  module _ (model_name : Text) where
    chatted-IsPlaced :
        (l : LoginMaterial) (a : Steps.Action) (session_id : Text) (p : Page)
        → IsPlaced model_name p
        → IsPlaced model_name
            (chatted model_name atob decode_uri_component json_parse btoa sha256 l a session_id p)
    unfolding chatted
    chatted-IsPlaced l a session_id p h = elim (Option-cases p.room) [
      | inl e ↦ rw (e, chatted) h
      | inr (r, e) ↦
          let (old_id, reached) : IsRoom (some r) = subst IsRoom e h.own in
          rw (e, chatted)
            (render-IsPlaced model_name session_id _
              (after_logins-IsCoherent l r.view (step a r).view p.hook h.coherent)
              (old_id, next a reached) h.stopped)
    ]

    answered_with-IsPlaced :
        (l : LoginMaterial) (user_id assistant_id : Text) (controller : ℕ) (session_id : Text)
        (n : ℕ) (r : Room) (p : Page)
        → IsPlaced model_name p
        → IsRoom (some r)
        → IsPlaced model_name
            (answered_with model_name atob decode_uri_component json_parse btoa sha256 l user_id
              assistant_id controller session_id
              (taken n r.pending)
              r
              p).1
    unfolding resumed_on step
    answered_with-IsPlaced l user_id assistant_id controller session_id n r p h (old_id, reached) =
        let (token, hook) = get_access_token l.env p.hook in
        let resumes = next (token_arrived n token user_id assistant_id controller) reached in
        elim (Option-cases (taken n r.pending)) [
          | inl e ↦ rw e h
          | inr ((s, rest), e) ↦ rw e (
              render-IsPlaced model_name session_id _
                (after_logins-IsCoherent l r.view
                  (resume_submit token user_id assistant_id controller s r.view).1 hook
                  (get_access_token-IsCoherent l.env p.hook h.coherent))
                (
                  old_id,
                  subst
                      (λ o.
                        Steps.Reachable old_id (resumed o token user_id assistant_id controller r))
                      e resumes,
                )
                h.stopped)
        ]

  pub Reachable-IsPlaced :
      {model_name : Text} {tab : Tab} {p : Page}
      → Reachable model_name atob decode_uri_component json_parse btoa sha256 tab p
      → IsPlaced model_name p
  unfolding answered app_screen
  Reachable-IsPlaced opened = record {
    coherent = record { shown = refl; loading = refl; guarded = refl; awaited = refl };
    placed = refl;
    signed = refl;
    own = tt;
    stopped = tt;
  }
  Reachable-IsPlaced {model_name = model_name} (acting {p = p} a session_id r) =
      let h = Reachable-IsPlaced r in
      render-IsPlaced model_name session_id _
        (act-IsCoherent atob decode_uri_component json_parse btoa sha256 a p.hook h.coherent) h.own
        h.stopped
  Reachable-IsPlaced {model_name = model_name} (chatting {p = p} l a session_id own r) =
      chatted-IsPlaced model_name l a session_id p (Reachable-IsPlaced r)
  Reachable-IsPlaced {model_name = model_name}
        (answering {p = p} l user_id assistant_id controller session_id n r) =
      let h = Reachable-IsPlaced r in
      elim (Option-cases p.room) [
        | inl e ↦ rw (e, answered) h
        | inr (room, e) ↦
            rw (e, answered)
              (answered_with-IsPlaced model_name l user_id assistant_id controller session_id n room
                p h (subst IsRoom e h.own))
      ]
