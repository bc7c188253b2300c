-- ===== src/Chat/View/Steps/Transcript.antt =====
-- What holds in the view after any actions, and what its requests send.
use eks_any_model_hosting.Common.{
  ℕ, zero, suc, ◌≡◌, refl, subst, Bool, true, false, List, [], ◌∷◌, ◌++◌, Option, none, some, Text,
  text_eq, All, All-append, trim, is_nil, if_both, Bool-cases, inl, inr,
}
use eks_any_model_hosting.Sse.{StreamErrorKind, Event, token, usage, done, error}
use eks_any_model_hosting.Chat.Requests.{is_sendable, sendable}
use eks_any_model_hosting.Chat.View.{
  DisplayMessage, View, Submission, update_message, on_event, append_to_assistant,
  finalize_assistant, close_stream, on_error_kind, begin_submit, history_of, user_message,
  open_stream, stream_request, resume_submit, abort, stop, end_new_chat,
}
use eks_any_model_hosting.Chat.View.Steps.{
  Room, Action, typed, submitted, token_arrived, called, stopped, new_chat_ended, queue, taken,
  resumed, step, Reachable, start, next,
}

abbrev pub is_some : {A : Type 0} → Option A → Bool
is_some none = false
is_some (some a) = true

-- A message of the user or of the assistant, which the client may send.
abbrev pub IsSent : DisplayMessage → Type 0
IsSent m = is_sendable (record { role = m.role; content = m.content }) ≡ true

pub record IsSound (v : View) : Type 0 where
  pub roles : All IsSent v.messages
  -- While the flag is set, `stop` has a controller to abort.
  pub stoppable : v.is_streaming ≡ is_some v.abort_ref

abbrev pub IsWhole : Submission → Type 0
IsWhole s = All IsSent s.transcript × (is_nil s.trimmed ≡ false)

pub record IsSoundRoom (r : Room) : Type 0 where
  pub view : IsSound r.view
  pub waiting : All IsWhole r.pending

update_message-All :
    (f : DisplayMessage → DisplayMessage) (id : Text)
    → ((m : DisplayMessage) → IsSent m → IsSent (f m))
    → (ms : List DisplayMessage) → All IsSent ms
    → All IsSent (update_message f id ms)
unfolding update_message
update_message-All f id k [] h = tt
update_message-All f id k (m ∷ ms) (h, hs) =
    (if_both IsSent (text_eq m.id id) (k m h) h, update_message-All f id k ms hs)

close_stream-IsSound : (id : Text) (v : View) → IsSound v → IsSound (close_stream id v)
unfolding close_stream finalize_assistant
close_stream-IsSound id v h = record {
  roles = update_message-All _ id (λ m k. k) v.messages h.roles;
  stoppable = refl;
}

on_error_kind-IsSound :
    (kind : StreamErrorKind) (message : Text) (v : View)
    → IsSound v
    → IsSound (on_error_kind kind message v)
on_error_kind-IsSound StreamErrorKind.aborted message v h = h
on_error_kind-IsSound StreamErrorKind.unauthorized message v h = record {
  roles = h.roles;
  stoppable = h.stoppable;
}
on_error_kind-IsSound StreamErrorKind.rate_limited message v h = record {
  roles = h.roles;
  stoppable = h.stoppable;
}
on_error_kind-IsSound StreamErrorKind.network message v h = record {
  roles = h.roles;
  stoppable = h.stoppable;
}
on_error_kind-IsSound StreamErrorKind.server message v h = record {
  roles = h.roles;
  stoppable = h.stoppable;
}

on_event-IsSound : (id : Text) (e : Event) (v : View) → IsSound v → IsSound (on_event id e v)
unfolding on_event append_to_assistant is_sendable
on_event-IsSound id (token t) v h = record {
  roles =
      update_message-All (λ m. record m { content = m.content ++ t }) id (λ m k. k) v.messages
        h.roles;
  stoppable = h.stoppable;
}
on_event-IsSound id (usage u) v h = record { roles = h.roles; stoppable = h.stoppable }
on_event-IsSound id done v h = close_stream-IsSound id v h
on_event-IsSound id (error e) v h =
    on_error_kind-IsSound e.kind e.message _ (close_stream-IsSound id v h)

resume_submit-IsSound :
    (access_token : Option Text) (user_id assistant_id : Text) (controller : ℕ) (s : Submission)
    (v : View)
    → IsSound v
    → IsSound (resume_submit access_token user_id assistant_id controller s v).1
unfolding resume_submit open_stream is_sendable text_eq
resume_submit-IsSound none user_id assistant_id controller s v h = record {
  roles = h.roles;
  stoppable = h.stoppable;
}
resume_submit-IsSound (some []) user_id assistant_id controller s v h = record {
  roles = h.roles;
  stoppable = h.stoppable;
}
resume_submit-IsSound (some (c ∷ t)) user_id assistant_id controller s v h = record {
  roles = All-append IsSent v.messages _ h.roles (refl, (refl, tt));
  stoppable = refl;
}

abort-IsSound : (controller : Option ℕ) (v : View) → IsSound v → IsSound (abort controller v)
abort-IsSound none v h = h
abort-IsSound (some k) v h = record { roles = h.roles; stoppable = h.stoppable }

end_new_chat-IsSound :
    (session_id : Text) (access_token : Option Text) (new_id : Text) (v : View)
    → IsSound v
    → IsSound (end_new_chat session_id access_token new_id v)
unfolding end_new_chat
end_new_chat-IsSound session_id none new_id v h = record { roles = tt; stoppable = h.stoppable }
end_new_chat-IsSound session_id (some []) new_id v h = record {
  roles = tt;
  stoppable = h.stoppable;
}
end_new_chat-IsSound session_id (some (c ∷ t)) new_id v h = record {
  roles = tt;
  stoppable = h.stoppable;
}

-- What `submit` leaves when it waits, for the room.
record IsBegun (pending : List Submission) (begun : Option Submission × View) : Type 0 where
  view : IsSound begun.1
  waiting : All IsWhole (queue begun.0 pending)

begin_submit-IsBegun :
    (raw : Text) (v : View) (pending : List Submission)
    → IsSound v
    → All IsWhole pending
    → IsBegun pending (begin_submit raw v)
unfolding begin_submit
begin_submit-IsBegun raw v pending h k = elim (Bool-cases (is_nil (trim raw))) [
  | inl e ↦ rw e (record { view = h; waiting = k })
  | inr e ↦ rw e (
      if_both (IsBegun pending) v.is_streaming (record { view = h; waiting = k })
        (record {
          view = record { roles = h.roles; stoppable = h.stoppable };
          waiting = ((h.roles, e), k);
        }))
]

-- Taking one out leaves the others.
record IsLeft (o : Option (Submission × List Submission)) : Type 0 where
  left : All (λ p. IsWhole p.0 × All IsWhole p.1) (elim o [ none ↦ [] | some p ↦ p ∷ [] ])

taken_later :
    (s : Submission) (o : Option (Submission × List Submission))
    → IsWhole s
    → IsLeft o
    → IsLeft (elim o [ none ↦ none | some (t, rest) ↦ some (t, s ∷ rest) ])
taken_later s none h k = record { left = tt }
taken_later s (some (t, rest)) h k = record { left = ((k.left.0.0, (h, k.left.0.1)), tt) }

taken-IsLeft : (n : ℕ) (pending : List Submission) → All IsWhole pending → IsLeft (taken n pending)
taken-IsLeft n [] h = record { left = tt }
taken-IsLeft zero (s ∷ pending) (h, hs) = record { left = ((h, hs), tt) }
taken-IsLeft (suc n) (s ∷ pending) (h, hs) =
    taken_later s (taken n pending) h (taken-IsLeft n pending hs)

resumed_part :
    (o : Option (Submission × List Submission)) (access_token : Option Text)
    (user_id assistant_id : Text) (controller : ℕ) (r : Room)
    → IsLeft o
    → IsSoundRoom r
    → IsSoundRoom (resumed o access_token user_id assistant_id controller r)
resumed_part none access_token user_id assistant_id controller r k h = h
resumed_part (some (s, rest)) access_token user_id assistant_id controller r k h = record {
  view = resume_submit-IsSound access_token user_id assistant_id controller s r.view h.view;
  waiting = k.left.0.1;
}

resumed-IsSoundRoom :
    (n : ℕ) (access_token : Option Text) (user_id assistant_id : Text) (controller : ℕ) (r : Room)
    → IsSoundRoom r
    → IsSoundRoom (resumed (taken n r.pending) access_token user_id assistant_id controller r)
resumed-IsSoundRoom n access_token user_id assistant_id controller r h =
    resumed_part (taken n r.pending) access_token user_id assistant_id controller r
      (taken-IsLeft n r.pending h.waiting) h

step-IsSoundRoom : (a : Action) (r : Room) → IsSoundRoom r → IsSoundRoom (step a r)
unfolding step stop
step-IsSoundRoom (typed text) r h = record {
  view = record { roles = h.view.roles; stoppable = h.view.stoppable };
  waiting = h.waiting;
}
step-IsSoundRoom (submitted raw) r h =
    let begun = begin_submit-IsBegun raw r.view r.pending h.view h.waiting in
    record { view = begun.view; waiting = begun.waiting }
step-IsSoundRoom (token_arrived n access_token user_id assistant_id controller) r h =
    resumed-IsSoundRoom n access_token user_id assistant_id controller r h
step-IsSoundRoom (called id e) r h = record {
  view = on_event-IsSound id e r.view h.view;
  waiting = h.waiting;
}
step-IsSoundRoom stopped r h = record {
  view = abort-IsSound r.view.abort_ref r.view h.view;
  waiting = h.waiting;
}
step-IsSoundRoom (new_chat_ended session_id access_token new_id) r h = record {
  view = end_new_chat-IsSound session_id access_token new_id r.view h.view;
  waiting = h.waiting;
}

-- After any actions, in any order, the view's ref holds a controller for `stop` to abort exactly while
-- its flag `isStreaming` is set, every message of the view has a role that the client may send, and so
-- has every message that a submission has captured, whose own text is not blank. It says nothing of
-- the streams of overlapping submissions, of which flag and ref know the last one only.
pub Reachable-IsSoundRoom : (session_id : Text) (r : Room) → Reachable session_id r → IsSoundRoom r
Reachable-IsSoundRoom session_id _ start = record {
  view = record { roles = tt; stoppable = refl };
  waiting = tt;
}
Reachable-IsSoundRoom session_id _ (next {r = r} a h) =
    step-IsSoundRoom a r (Reachable-IsSoundRoom session_id r h)

sendable-history_of :
    (ms : List DisplayMessage) → All IsSent ms → sendable (history_of ms) ≡ history_of ms
unfolding sendable history_of
sendable-history_of [] h = refl
sendable-history_of (m ∷ ms) (h, hs) = rw (h, sendable-history_of ms hs) refl

taken-IsWhole :
    (o : Option (Submission × List Submission)) (s : Submission) (rest : List Submission)
    → IsLeft o
    → o ≡ some (s, rest)
    → IsWhole s
taken-IsWhole o s rest k e = (subst IsLeft e k).left.0.0

pub Reachable-IsWhole :
    (session_id : Text) (r : Room) (n : ℕ) (s : Submission) (rest : List Submission)
    → Reachable session_id r
    → taken n r.pending ≡ some (s, rest)
    → IsWhole s
Reachable-IsWhole session_id r n s rest h e =
    let waiting = (Reachable-IsSoundRoom session_id r h).waiting in
    taken-IsWhole (taken n r.pending) s rest (taken-IsLeft n r.pending waiting) e

-- After any actions, the request of every submission that waits sends the whole transcript that the
-- user saw and the new text: the filter of `streamChatCompletion` leaves out no message.
pub sendable-stream_request :
    (session_id : Text) (r : Room) (n : ℕ) (s : Submission) (rest : List Submission)
    (access_token user_id : Text)
    → Reachable session_id r
    → taken n r.pending ≡ some (s, rest)
    → sendable (stream_request access_token user_id s).messages
      ≡ (stream_request access_token user_id s).messages
unfolding stream_request is_sendable text_eq
sendable-stream_request session_id r n s rest access_token user_id h e =
    let whole = Reachable-IsWhole session_id r n s rest h e in
    sendable-history_of (s.transcript ++ user_message user_id s.trimmed ∷ [])
      (All-append IsSent s.transcript _ whole.0 (refl, tt))
