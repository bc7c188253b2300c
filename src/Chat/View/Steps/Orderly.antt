-- ===== src/Chat/View/Steps/Orderly.antt =====
-- The chat view where submissions do not overlap: nothing is submitted while a submission waits for its
-- token, and only the open stream calls its callbacks.
use mathlib.Core.Option
use eks_any_model_hosting.Common.{
  ℕ, zero, suc, ◌||◌, ◌≡◌, refl, sym, Bool, true, false, Bool-cases, inl, inr, List, [], ◌∷◌,
  Option, none, some, Text, text_eq, text_eq_refl, All, All-append, trim, is_nil, arith,
  if◌then◌else◌,
}
use eks_any_model_hosting.Sse.{StreamErrorKind, Event, token, usage, done, error}
use eks_any_model_hosting.Chat.View.{
  DisplayMessage, View, Submission, update_message, on_event, append_to_assistant,
  finalize_assistant, close_stream, on_error_kind, begin_submit, open_stream, resume_submit, abort,
  stop, end_new_chat,
}
use eks_any_model_hosting.Chat.View.Steps.{
  Room, empty_room, typed, submitted, token_arrived, called, stopped, new_chat_ended, taken,
  resumed, step, queue,
}
use eks_any_model_hosting.Chat.View.Steps.Transcript.{is_some}

-- The open stream, by its answer's id and its controller.
abbrev pub OpenStream : Type 0
OpenStream = Option (Text × ℕ)

abbrev pub opened_by :
    Option (Submission × List Submission) → Option Text → Text → ℕ → OpenStream → OpenStream
opened_by none access_token assistant_id controller o = o
opened_by (some p) none assistant_id controller o = o
opened_by (some p) (some []) assistant_id controller o = o
opened_by (some p) (some (c ∷ t)) assistant_id controller o = some (assistant_id, controller)

-- `done` and `error` close it.
abbrev pub open_behind : Event → Text × ℕ → OpenStream
open_behind (token text) stream = some stream
open_behind (usage u) stream = some stream
open_behind done stream = none
open_behind (error e) stream = none

pub data Orderly (session_id : Text) : Room → OpenStream → Type 0 where
  start : Orderly session_id (empty_room session_id) none
  typing :
      {r : Room} {o : OpenStream} (text : Text)
      → Orderly session_id r o
      → Orderly session_id (step (typed text) r) o
  submitting :
      {r : Room} {o : OpenStream} (raw : Text)
      → r.pending ≡ []
      → Orderly session_id r o
      → Orderly session_id (step (submitted raw) r) o
  answering :
      {r : Room} {o : OpenStream} (n : ℕ) (access_token : Option Text) (user_id assistant_id : Text)
      (controller : ℕ)
      → Orderly session_id r o
      → Orderly session_id
          (step (token_arrived n access_token user_id assistant_id controller) r)
          (opened_by (taken n r.pending) access_token assistant_id controller o)
  telling :
      {r : Room} {stream : Text × ℕ} (e : Event)
      → Orderly session_id r (some stream)
      → Orderly session_id (step (called stream.0 e) r) (open_behind e stream)
  stopping :
      {r : Room} {o : OpenStream} → Orderly session_id r o → Orderly session_id (step stopped r) o
  renewing :
      {r : Room} {o : OpenStream} (old_id : Text) (access_token : Option Text) (new_id : Text)
      → Orderly session_id r o
      → Orderly session_id (step (new_chat_ended old_id access_token new_id) r) o

-- Only the open stream's answer may be growing.
abbrev pub Grows : OpenStream → DisplayMessage → Type 0
Grows none m = m.streaming ≡ false
Grows (some stream) m = (text_eq m.id stream.0 ≡ false) → (m.streaming ≡ false)

-- The view follows the open stream: its flag says that there is one, its ref holds that one's
-- controller, and no other message is growing.
pub record IsFollowing (o : OpenStream) (v : View) : Type 0 where
  pub flagged : v.is_streaming ≡ is_some o
  pub held : v.abort_ref ≡ Option.map (λ stream. stream.1) o
  pub growing : All (Grows o) v.messages

-- At most one submission waits, and none beside an open stream.
data IsWaiting : OpenStream → List Submission → Type 0 where
  nobody : {o : OpenStream} → IsWaiting o []
  alone : (s : Submission) → IsWaiting none (s ∷ [])

-- Any other part of the view may be another one.
kept :
    {o : OpenStream} {v w : View}
    → w.messages ≡ v.messages
    → w.is_streaming ≡ v.is_streaming
    → w.abort_ref ≡ v.abort_ref
    → IsFollowing o v
    → IsFollowing o w
kept m s a h = record { flagged = rw s h.flagged; held = rw a h.held; growing = rw m h.growing }

updated :
    (f : DisplayMessage → DisplayMessage) (id : Text) (o : OpenStream) (k : ℕ)
    → ((m : DisplayMessage) → text_eq m.id id ≡ true → Grows o (f m))
    → ((m : DisplayMessage) → Grows (some (id, k)) m → text_eq m.id id ≡ false → Grows o m)
    → (ms : List DisplayMessage) → All (Grows (some (id, k))) ms
    → All (Grows o) (update_message f id ms)
unfolding update_message
updated f id o k hit miss [] h = tt
updated f id o k hit miss (m ∷ ms) (h, hs) =
    let rest = updated f id o k hit miss ms hs in
    elim (Bool-cases (text_eq m.id id)) [
      | inl e ↦ rw e (hit m e, rest)
      | inr e ↦ rw e (miss m h e, rest)
    ]

close_stream-IsFollowing :
    (stream : Text × ℕ) (v : View)
    → IsFollowing (some stream) v
    → IsFollowing none (close_stream stream.0 v)
unfolding close_stream finalize_assistant
close_stream-IsFollowing (id, k) v h = record {
  flagged = refl;
  held = refl;
  growing = updated _ id none k (λ m e. refl) (λ m g e. g e) v.messages h.growing;
}

on_error_kind-IsFollowing :
    (kind : StreamErrorKind) (message : Text) (v : View)
    → IsFollowing none v
    → IsFollowing none (on_error_kind kind message v)
on_error_kind-IsFollowing StreamErrorKind.aborted message v h = h
on_error_kind-IsFollowing StreamErrorKind.unauthorized message v h = kept refl refl refl h
on_error_kind-IsFollowing StreamErrorKind.rate_limited message v h = kept refl refl refl h
on_error_kind-IsFollowing StreamErrorKind.network message v h = kept refl refl refl h
on_error_kind-IsFollowing StreamErrorKind.server message v h = kept refl refl refl h

on_event-IsFollowing :
    (e : Event) (stream : Text × ℕ) (v : View)
    → IsFollowing (some stream) v
    → IsFollowing (open_behind e stream) (on_event stream.0 e v)
unfolding on_event append_to_assistant
on_event-IsFollowing (token t) (id, k) v h = record {
  flagged = h.flagged;
  held = h.held;
  growing =
      updated _ id (some (id, k)) k (λ m e ne. ground (arith, e, ne)) (λ m g e. g) v.messages
        h.growing;
}
on_event-IsFollowing (usage u) stream v h = kept refl refl refl h
on_event-IsFollowing done stream v h = close_stream-IsFollowing stream v h
on_event-IsFollowing (error e) stream v h =
    on_error_kind-IsFollowing e.kind e.message _ (close_stream-IsFollowing stream v h)

record IsOrderly (o : OpenStream) (r : Room) : Type 0 where
  view : IsFollowing o r.view
  waiting : IsWaiting o r.pending

-- A submission only waits where no stream is open.
queued-IsWaiting :
    (o : OpenStream) (s : Submission) → is_some o ≡ false → IsWaiting o (queue (some s) [])
queued-IsWaiting none s e = alone s
queued-IsWaiting (some stream) s e = ground (arith, e)

abbrev IsBegun : OpenStream → Option Submission × View → Type 0
IsBegun o (s, v) = IsFollowing o v × IsWaiting o (queue s [])

unless-IsBegun :
    (blank streaming : Bool) (o : OpenStream) (v w : View) (s : Submission)
    → is_some o ≡ streaming
    → IsFollowing o v
    → IsFollowing o w
    → IsBegun o (if blank || streaming then (none, v) else (some s, w))
unless-IsBegun true streaming o v w s e h k = (h, nobody)
unless-IsBegun false true o v w s e h k = (h, nobody)
unless-IsBegun false false o v w s e h k = (k, queued-IsWaiting o s e)

begin_submit-IsOrderly :
    (raw : Text) (o : OpenStream) (v : View) → IsFollowing o v → IsBegun o (begin_submit raw v)
unfolding begin_submit
begin_submit-IsOrderly raw o v h =
    unless-IsBegun (is_nil (trim raw)) v.is_streaming o v (record v { error = none; usage = none })
      _ (sym h.flagged) h (kept refl refl refl h)

-- Where no stream is open, no message is growing.
finished :
    (id : Text) (k : ℕ) (ms : List DisplayMessage)
    → All (Grows none) ms
    → All (Grows (some (id, k))) ms
finished id k [] h = tt
finished id k (m ∷ ms) (h, hs) = (λ _. h, finished id k ms hs)

resumed-IsOrderly :
    {o : OpenStream} {pending : List Submission} (n : ℕ) (access_token : Option Text)
    (user_id assistant_id : Text) (controller : ℕ) (r : Room)
    → IsWaiting o pending
    → IsOrderly o r
    → IsOrderly
        (opened_by (taken n pending) access_token assistant_id controller o)
        (resumed (taken n pending) access_token user_id assistant_id controller r)
unfolding resume_submit open_stream
resumed-IsOrderly n access_token user_id assistant_id controller r nobody h = h
resumed-IsOrderly (suc n) access_token user_id assistant_id controller r (alone s) h = h
resumed-IsOrderly zero none user_id assistant_id controller r (alone s) h = record {
  view = kept refl refl refl h.view;
  waiting = nobody;
}
resumed-IsOrderly zero (some []) user_id assistant_id controller r (alone s) h = record {
  view = kept refl refl refl h.view;
  waiting = nobody;
}
resumed-IsOrderly zero (some (c ∷ t)) user_id assistant_id controller r (alone s) h = record {
  view = record {
    flagged = refl;
    held = refl;
    growing =
        All-append (Grows (some (assistant_id, controller))) r.view.messages _
          (finished assistant_id controller r.view.messages h.view.growing)
          (λ _. refl, (λ ne. ground (arith, text_eq_refl assistant_id, ne), tt));
  };
  waiting = nobody;
}

end_new_chat-IsFollowing :
    (old_id : Text) (access_token : Option Text) (new_id : Text) (o : OpenStream) (v : View)
    → IsFollowing o v
    → IsFollowing o (end_new_chat old_id access_token new_id v)
unfolding end_new_chat
end_new_chat-IsFollowing old_id none new_id o v h = record {
  flagged = h.flagged;
  held = h.held;
  growing = tt;
}
end_new_chat-IsFollowing old_id (some []) new_id o v h = record {
  flagged = h.flagged;
  held = h.held;
  growing = tt;
}
end_new_chat-IsFollowing old_id (some (c ∷ t)) new_id o v h = record {
  flagged = h.flagged;
  held = h.held;
  growing = tt;
}

abort-IsFollowing :
    (c : Option ℕ) (o : OpenStream) (v : View) → IsFollowing o v → IsFollowing o (abort c v)
abort-IsFollowing none o v h = h
abort-IsFollowing (some k) o v h = kept refl refl refl h

waiting-open :
    {o : OpenStream} {pending : List Submission}
    → is_some o ≡ true
    → IsWaiting o pending
    → (p : OpenStream) → IsWaiting p pending
waiting-open e nobody p = nobody
waiting-open e (alone s) p = ground (arith, e)

Orderly-IsOrderly :
    {session_id : Text} {r : Room} {o : OpenStream} → Orderly session_id r o → IsOrderly o r
unfolding step stop
Orderly-IsOrderly start = record {
  view = record { flagged = refl; held = refl; growing = tt };
  waiting = nobody;
}
Orderly-IsOrderly (typing text r) =
    let h = Orderly-IsOrderly r in record { view = kept refl refl refl h.view; waiting = h.waiting }
Orderly-IsOrderly (submitting {r = room} {o = o} raw e r) =
    let h = Orderly-IsOrderly r in
    let (view, waiting) = begin_submit-IsOrderly raw o room.view h.view in
    record { view = view; waiting = rw e waiting }
Orderly-IsOrderly (answering {r = room} n access_token user_id assistant_id controller r) =
    let h = Orderly-IsOrderly r in
    resumed-IsOrderly n access_token user_id assistant_id controller room h.waiting h
Orderly-IsOrderly (telling {r = room} {stream = stream} e r) =
    let h = Orderly-IsOrderly r in
    record {
      view = on_event-IsFollowing e stream room.view h.view;
      waiting = waiting-open refl h.waiting _;
    }
Orderly-IsOrderly (stopping {r = room} {o = o} r) =
    let h = Orderly-IsOrderly r in
    record { view = abort-IsFollowing room.view.abort_ref o room.view h.view; waiting = h.waiting }
Orderly-IsOrderly (renewing {r = room} {o = o} old_id access_token new_id r) =
    let h = Orderly-IsOrderly r in
    record {
      view = end_new_chat-IsFollowing old_id access_token new_id o room.view h.view;
      waiting = h.waiting;
    }

-- `stop` aborts the open stream, and does nothing without one.
abbrev pub Stops : OpenStream → View → Type 0
Stops none v = stop v ≡ v
Stops (some stream) v = (stop v).aborted ≡ stream.1 ∷ v.aborted

held-Stops : (o : OpenStream) (v : View) → IsFollowing o v → Stops o v
unfolding stop
held-Stops none v h = rw (h.held, stop) refl
held-Stops (some stream) v h = rw (h.held, stop) refl

-- Where submissions do not overlap, and only the open stream calls its callbacks, until it has closed,
-- the view follows that stream under all other orders of actions: its flag `isStreaming` is set exactly
-- while the stream is open, its ref then holds the stream's controller and else none, no message is
-- growing but the stream's answer, and `stop` aborts exactly this stream, or does nothing where none
-- is open.
pub Orderly-IsFollowing :
    (session_id : Text) (r : Room) (o : OpenStream)
    → Orderly session_id r o
    → IsFollowing o r.view × Stops o r.view
Orderly-IsFollowing session_id r o h =
    let view = (Orderly-IsOrderly h).view in (view, held-Stops o r.view view)
