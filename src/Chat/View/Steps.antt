-- ===== src/Chat/View/Steps.antt =====
-- The chat view of spa/src/components/ChatView.tsx under its users' and its streams' actions, in any
-- order. Submissions wait for their tokens in `pending`, and each is taken up on its own.
pub mod Transcript
pub mod Orderly
use eks_any_model_hosting.Common.{ℕ, zero, suc, false, List, [], ◌∷◌, Option, none, some, Text}
use eks_any_model_hosting.Sse.{Event}
use eks_any_model_hosting.Chat.View.{
  View, Submission, on_event, begin_submit, resume_submit, stop, end_new_chat,
}

pub record Room : Type 0 where
  pub view : View
  pub pending : List Submission

-- The first render, with the session that `newSessionId` made.
abbrev pub empty_room : Text → Room
empty_room session_id = record {
  view = record {
    messages = [];
    input = [];
    is_streaming = false;
    error = none;
    usage = none;
    session_id = session_id;
    abort_ref = none;
    aborted = [];
    logins = 0;
    forgotten = [];
  };
  pending = [];
}

-- `token_arrived` takes up the pending submission of its number, with the token, the two ids of the
-- messages and the controller. `called` is one call of a stream's callbacks.
pub data Action : Type 0 where
  typed : Text → Action
  submitted : Text → Action
  token_arrived : ℕ → Option Text → Text → Text → ℕ → Action
  called : Text → Event → Action
  stopped : Action
  new_chat_ended : Text → Option Text → Text → Action

abbrev pub queue : Option Submission → List Submission → List Submission
queue none pending = pending
queue (some s) pending = s ∷ pending

-- A pending submission, and the others.
abbrev pub taken : ℕ → List Submission → Option (Submission × List Submission)
taken n [] = none
taken zero (s ∷ pending) = some (s, pending)
taken (suc n) (s ∷ pending) = elim (taken n pending) [
  | none ↦ none
  | some (t, rest) ↦ some (t, s ∷ rest)
]

abbrev pub resumed :
    Option (Submission × List Submission) → Option Text → Text → Text → ℕ → Room → Room
resumed none access_token user_id assistant_id controller r = r
resumed (some (s, rest)) access_token user_id assistant_id controller r = record {
  view = (resume_submit access_token user_id assistant_id controller s r.view).1;
  pending = rest;
}

unfoldable pub step : Action → Room → Room
unfolding begin_submit resume_submit on_event stop end_new_chat
step (typed text) r = record r { view = record r.view { input = text } }
step (submitted raw) r =
    let (s, view) = begin_submit raw r.view in record { view = view; pending = queue s r.pending }
step (token_arrived n access_token user_id assistant_id controller) r =
    resumed (taken n r.pending) access_token user_id assistant_id controller r
step (called assistant_id e) r = record r { view = on_event assistant_id e r.view }
step stopped r = record r { view = stop r.view }
step (new_chat_ended session_id access_token new_id) r = record r {
  view = end_new_chat session_id access_token new_id r.view;
}

-- The rooms that some actions lead to.
pub data Reachable (session_id : Text) : Room → Type 0 where
  start : Reachable session_id (empty_room session_id)
  next : {r : Room} (a : Action) → Reachable session_id r → Reachable session_id (step a r)
