-- ===== src/Chat/View/Interleaved.antt =====
-- Streams that call back into one chat view in any order: the concrete view refines a view of its
-- messages one by one.
use eks_any_model_hosting.Common.{
  ◌≡◌, refl, ap, ◌∙◌, sym, Bool, true, false, not, ◌&&◌, ◌||◌, Bool-cases, inl, inr, List, [], ◌∷◌,
  ◌++◌, Text, text_eq, append-nil, append_assoc, map, map-map, map-id, if◌then◌else◌, arith,
}
use eks_any_model_hosting.Sse.{StreamErrorKind, Event, token, usage, done, error}
use eks_any_model_hosting.Chat.View.{
  DisplayMessage, View, update_message, append_to_assistant, finalize_assistant, close_stream,
  on_error_kind, on_event,
}
use eks_any_model_hosting.Chat.View.Exchange.{text_of}

-- Calls of the callbacks, each with the message that its stream answers in.
unfoldable pub on_calls : List (Text × Event) → View → View
unfolding on_event
on_calls [] v = v
on_calls ((id, e) ∷ calls) v = on_calls calls (on_event id e v)

-- What one message makes of some calls, told without the others: the text of the tokens that are
-- for it, and whether a call for it has closed it.
abbrev pub text_for : Text → List (Text × Event) → Text
text_for id [] = []
text_for id ((to, e) ∷ calls) =
    let later = text_for id calls in if text_eq id to then text_of e ++ later else later

abbrev pub is_closing : Event → Bool
is_closing (token t) = false
is_closing (usage u) = false
is_closing done = true
is_closing (error e) = true

abbrev pub closed_for : Text → List (Text × Event) → Bool
closed_for id [] = false
closed_for id ((to, e) ∷ calls) = (text_eq id to && is_closing e) || closed_for id calls

abbrev pub answered_by : List (Text × Event) → DisplayMessage → DisplayMessage
answered_by calls m = record m {
  content = m.content ++ text_for m.id calls;
  streaming = m.streaming && not (closed_for m.id calls);
}

-- One call on one message.
abbrev change : Event → DisplayMessage → DisplayMessage
change (token t) m = record m { content = m.content ++ t }
change (usage u) m = m
change done m = record m { streaming = false }
change (error e) m = record m { streaming = false }

abbrev called : Text → Event → DisplayMessage → DisplayMessage
called id e m = if text_eq m.id id then change e m else m

update_message-map :
    (f : DisplayMessage → DisplayMessage) (id : Text) (ms : List DisplayMessage)
    → update_message f id ms ≡ map (λ m. if text_eq m.id id then f m else m) ms
unfolding update_message
update_message-map f id [] = refl
update_message-map f id (m ∷ ms) =
    ap (◌∷◌ (if text_eq m.id id then f m else m)) (update_message-map f id ms)

map_congr :
    (f g : DisplayMessage → DisplayMessage)
    → ((m : DisplayMessage) → f m ≡ g m)
    → (ms : List DisplayMessage) → map f ms ≡ map g ms
map_congr f g h [] = refl
map_congr f g h (m ∷ ms) = rw (h m, map_congr f g h ms) refl

on_error_kind-messages :
    (kind : StreamErrorKind) (message : Text) (v : View)
    → (on_error_kind kind message v).messages ≡ v.messages
on_error_kind-messages StreamErrorKind.aborted message v = refl
on_error_kind-messages StreamErrorKind.unauthorized message v = refl
on_error_kind-messages StreamErrorKind.rate_limited message v = refl
on_error_kind-messages StreamErrorKind.network message v = refl
on_error_kind-messages StreamErrorKind.server message v = refl

same : (b : Bool) (m : DisplayMessage) → m ≡ (if b then m else m)
same true m = refl
same false m = refl

map_same :
    (id : Text) (ms : List DisplayMessage) → ms ≡ map (λ m. if text_eq m.id id then m else m) ms
map_same id ms = sym (map-id ms) ∙ map_congr (λ m. m) _ (λ m. same (text_eq m.id id) m) ms

on_event-called :
    (id : Text) (e : Event) (v : View) → (on_event id e v).messages ≡ map (called id e) v.messages
unfolding on_event append_to_assistant close_stream finalize_assistant
on_event-called id (token t) v = update_message-map _ id v.messages
on_event-called id (usage u) v = map_same id v.messages
on_event-called id done v = update_message-map _ id v.messages
on_event-called id (error e) v =
    on_error_kind-messages e.kind e.message (close_stream id v) ∙ update_message-map _ id v.messages

answered-change :
    (calls : List (Text × Event)) (e : Event) (m : DisplayMessage)
    → answered_by calls (change e m) ≡ record m {
      content = m.content ++ (text_of e ++ text_for m.id calls);
      streaming = m.streaming && not (is_closing e || closed_for m.id calls);
    }
answered-change calls (token t) m = rw (append_assoc m.content t (text_for m.id calls)) refl
answered-change calls (usage u) m = refl
answered-change calls done m = ground arith
answered-change calls (error e) m = ground arith

answered-called :
    (calls : List (Text × Event)) (id : Text) (e : Event) (m : DisplayMessage)
    → answered_by calls (called id e m) ≡ answered_by ((id, e) ∷ calls) m
answered-called calls id e m = elim (Bool-cases (text_eq m.id id)) [
  | inl h ↦ simp h (answered-change calls e m)
  | inr h ↦ simp h
]

and_true : (b : Bool) → b ≡ (b && true)
and_true true = refl
and_true false = refl

unanswered : (m : DisplayMessage) → m ≡ answered_by [] m
unanswered m = rw (append-nil m.content, ← and_true m.streaming) refl

-- Whatever calls of whatever streams interleave, no message is added, moved or lost, and each one
-- has at its end the text of all the tokens that were for it, in their order, and streams no longer
-- once one of its own closing calls has come. Calls for the other messages leave it alone.
pub on_calls-answered_by :
    (calls : List (Text × Event)) (v : View)
    → (on_calls calls v).messages ≡ map (answered_by calls) v.messages
unfolding on_calls
on_calls-answered_by [] v = sym (map-id v.messages) ∙ map_congr (λ m. m) _ unanswered v.messages
on_calls-answered_by ((id, e) ∷ calls) v =
    on_calls-answered_by calls (on_event id e v)
    ∙ ap (map (answered_by calls)) (on_event-called id e v)
    ∙ map-map (answered_by calls) (called id e) v.messages
    ∙ map_congr _ _ (answered-called calls id e) v.messages
