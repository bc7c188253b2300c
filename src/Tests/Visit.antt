-- ===== src/Tests/Visit.antt =====
-- Runs of the page: a stored session, a message that waits for its token, and the token's answers.
use eks_any_model_hosting.Common.{◌≡◌, refl, [], Option, none, some, Text, codes}
use eks_any_model_hosting.Json.{Json}
use eks_any_model_hosting.Auth.Tokens.{Tab, load_tokens}
use eks_any_model_hosting.Auth.Callback.{handle_redirect_callback}
use eks_any_model_hosting.Auth.Hook.{
  effect, callback_ended, act, run_effect, end_callback, settle, derive_user,
}
use eks_any_model_hosting.Chat.View.{Submission, begin_submit}
use eks_any_model_hosting.Chat.View.Steps.{Room, empty_room, step, submitted}
use eks_any_model_hosting.Screen.App.{app_screen}
use eks_any_model_hosting.Screen.Page.{
  Page, opened_page, hook_acted, chatted, render, after_logins, answered, LoginMaterial, Reachable,
  opened, acting, chatting,
}
use eks_any_model_hosting.Screen.Page.Answers.{Settles, answered-Settles}
use eks_any_model_hosting.Tests.Login.{base64, state_bytes, verifier_bytes, env, tab, sha256}

abbrev no_text : Text → Option Text
no_text s = none

abbrev no_json : Text → Option Json
no_json s = none

-- A reload behind a login.
abbrev reloaded : Tab
reloaded = record tab {
  query = record { code = none; state = none; error = none; error_description = none };
}

abbrev material : LoginMaterial
material = record { env = env; verifier_bytes = verifier_bytes; state_bytes = state_bytes }

abbrev signed_in : Page
signed_in =
    hook_acted (codes "llama") no_text no_text no_json base64 sha256 (callback_ended env)
      (codes "session")
      (hook_acted (codes "llama") no_text no_text no_json base64 sha256 effect (codes "session")
        (opened_page reloaded))

abbrev waiting : Page
waiting =
    chatted (codes "llama") no_text no_text no_json base64 sha256 material
      (submitted (codes "Hello")) (codes "session") signed_in

waiting-Reachable : Reachable (codes "llama") no_text no_text no_json base64 sha256 reloaded waiting
waiting-Reachable =
    chatting material (submitted (codes "Hello")) (codes "session") refl
      (acting (callback_ended env) (codes "session") (acting effect (codes "session") opened))

abbrev hello : Submission
hello = record { trimmed = codes "Hello"; transcript = []; session_id = codes "session" }

abbrev hello_room : Room
hello_room = step (submitted (codes "Hello")) (empty_room (codes "session"))

waiting_room : waiting.room ≡ some hello_room
unfolding chatted render after_logins act run_effect end_callback settle derive_user
    handle_redirect_callback load_tokens app_screen step begin_submit
waiting_room = refl

answered-Settles_example :
    Settles
      (codes "llama")
      no_text
      no_text
      no_json
      base64
      sha256
      material
      (codes "u")
      (codes "a")
      7
      (codes "session")
      waiting
      hello
      []
      hello_room
      (answered
        (codes "llama")
        no_text
        no_text
        no_json
        base64
        sha256
        material
        (codes "u")
        (codes "a")
        7
        (codes "session")
        0
        waiting)
unfolding step begin_submit
answered-Settles_example =
    answered-Settles (codes "llama") no_text no_text no_json base64 sha256 material (codes "u")
      (codes "a") 7 (codes "session") waiting 0 hello_room hello [] waiting-Reachable waiting_room
      refl
