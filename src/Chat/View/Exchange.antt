-- ===== src/Chat/View/Exchange.antt =====
-- One exchange in the chat view: from a submitted text to the finished answer.
use eks_any_model_hosting.Common.{
  ℕ, ◌≡◌, refl, subst, ap, ◌∙◌, sym, Bool, true, false, List, [], ◌∷◌, ◌++◌, none, Text, All,
  text_eq, text_eq_refl, append-nil, append_assoc, inl, inr,
}
use eks_any_model_hosting.Sse.{StreamErrorKind, Event, token, usage, done, error, returned, Outcome}
use eks_any_model_hosting.Sse.Reader.Endings.{IsLive, IsTerminal}
use eks_any_model_hosting.Chat.Respond.Outcomes.{IsSettled, SettledShape}
use eks_any_model_hosting.Chat.View.{
  DisplayMessage, View, Submission, update_message, on_event, on_events, close_stream,
  on_error_kind, assistant_message, user_message, open_stream, append_to_assistant,
  finalize_assistant,
}

-- The text that the tokens of some calls make.
abbrev pub text_of : Event → Text
text_of (token t) = t
text_of _ = []

abbrev pub texts_of : List Event → Text
texts_of [] = []
texts_of (e ∷ es) = text_of e ++ texts_of es

abbrev pub IsFresh : Text → List DisplayMessage → Type 0
IsFresh id ms = All (λ m. text_eq m.id id ≡ false) ms

-- The answer so far stands behind the earlier messages.
pub record IsAnswering (before : List DisplayMessage) (id answer : Text) (v : View) : Type 0 where
  pub shown : v.messages ≡ before ++ assistant_message id answer true ∷ []

-- The answer is complete, and the view takes the next submission.
pub record IsAnswered (before : List DisplayMessage) (id answer : Text) (v : View) : Type 0 where
  pub shown : v.messages ≡ before ++ assistant_message id answer false ∷ []
  pub idle : v.is_streaming ≡ false
  pub released : v.abort_ref ≡ none

update_message-last :
    (f : DisplayMessage → DisplayMessage) (before : List DisplayMessage) (m : DisplayMessage)
    → IsFresh m.id before
    → update_message f m.id (before ++ m ∷ []) ≡ before ++ f m ∷ []
unfolding update_message
update_message-last f [] m h = rw (text_eq_refl m.id) refl
update_message-last f (n ∷ before) m (k, h) = rw (k, update_message-last f before m h) refl

module _ (before : List DisplayMessage) (id : Text) (fresh : IsFresh id before) where
  append-IsAnswering :
      (answer : Text) (e : Event) (v : View)
      → IsLive e
      → IsAnswering before id answer v
      → IsAnswering before id (answer ++ text_of e) (on_event id e v)
  unfolding on_event append_to_assistant
  append-IsAnswering answer (token t) v live a = record {
    shown =
        ap (update_message (λ m. record m { content = m.content ++ t }) id) a.shown
        ∙ update_message-last _ before (assistant_message id answer true) fresh;
  }
  append-IsAnswering answer (usage u) v live a = record { shown = rw (append-nil answer) a.shown }
  append-IsAnswering answer done v live a = elim live [ ]
  append-IsAnswering answer (error e) v live a = elim live [ ]

  close_stream-IsAnswered :
      (answer : Text) (streaming : Bool) (v : View)
      → v.messages ≡ before ++ assistant_message id answer streaming ∷ []
      → IsAnswered before id answer (close_stream id v)
  unfolding close_stream finalize_assistant
  close_stream-IsAnswered answer streaming v shown = record {
    shown =
        ap (update_message (λ m. record m { streaming = false }) id) shown
        ∙ update_message-last _ before (assistant_message id answer streaming) fresh;
    idle = refl;
    released = refl;
  }

  on_error_kind-IsAnswered :
      (kind : StreamErrorKind) (message answer : Text) (v : View)
      → IsAnswered before id answer v
      → IsAnswered before id answer (on_error_kind kind message v)
  on_error_kind-IsAnswered StreamErrorKind.aborted message answer v a = a
  on_error_kind-IsAnswered StreamErrorKind.unauthorized message answer v a = record {
    shown = a.shown;
    idle = a.idle;
    released = a.released;
  }
  on_error_kind-IsAnswered StreamErrorKind.rate_limited message answer v a = record {
    shown = a.shown;
    idle = a.idle;
    released = a.released;
  }
  on_error_kind-IsAnswered StreamErrorKind.network message answer v a = record {
    shown = a.shown;
    idle = a.idle;
    released = a.released;
  }
  on_error_kind-IsAnswered StreamErrorKind.server message answer v a = record {
    shown = a.shown;
    idle = a.idle;
    released = a.released;
  }

  closing-IsAnswered :
      (answer : Text) (streaming : Bool) (e : Event) (v : View)
      → IsTerminal e
      → v.messages ≡ before ++ assistant_message id answer streaming ∷ []
      → IsAnswered before id answer (on_event id e v)
  unfolding on_event
  closing-IsAnswered answer streaming done v _ shown =
      close_stream-IsAnswered answer streaming v shown
  closing-IsAnswered answer streaming (error e) v _ shown =
      on_error_kind-IsAnswered e.kind e.message answer _
        (close_stream-IsAnswered answer streaming v shown)
  closing-IsAnswered answer streaming (token t) v h shown = elim h [ ]
  closing-IsAnswered answer streaming (usage u) v h shown = elim h [ ]

  on_events-IsAnswering :
      (live : List Event) (answer : Text) (v : View)
      → All IsLive live
      → IsAnswering before id answer v
      → IsAnswering before id (answer ++ texts_of live) (on_events id live v)
  unfolding on_events
  on_events-IsAnswering [] answer v _ a = record { shown = rw (append-nil answer) a.shown }
  on_events-IsAnswering (e ∷ live) answer v (l, ls) a =
      subst (λ t. IsAnswering before id t (on_events id (e ∷ live) v))
        (append_assoc answer (text_of e) (texts_of live))
        (on_events-IsAnswering live (answer ++ text_of e) (on_event id e v) ls
          (append-IsAnswering answer e v l a))

  on_events-append :
      (xs ys : List Event) (v : View)
      → on_events id (xs ++ ys) v ≡ on_events id ys (on_events id xs v)
  unfolding on_events
  on_events-append [] ys v = refl
  on_events-append (x ∷ xs) ys v = on_events-append xs ys (on_event id x v)

  closed_once :
      (live : List Event) (closing : Event) (v : View)
      → All IsLive live
      → IsTerminal closing
      → IsAnswering before id [] v
      → IsAnswered before id (texts_of live) (on_events id (live ++ closing ∷ []) v)
  unfolding on_events
  closed_once live closing v ls t a = rw (on_events-append live (closing ∷ []) v) (
      closing-IsAnswered (texts_of live) true closing _ t
        (on_events-IsAnswering live [] v ls a).shown)

  closed_twice :
      (live : List Event) (closing : Event) (v : View)
      → All IsLive live
      → IsTerminal closing
      → IsAnswering before id [] v
      → IsAnswered before id (texts_of live) (on_events id (live ++ closing ∷ done ∷ []) v)
  unfolding on_events
  closed_twice live closing v ls t a = rw (on_events-append live (closing ∷ done ∷ []) v) (
      closing-IsAnswered (texts_of live) false done (on_event id closing (on_events id live v)) tt
        (closing-IsAnswered (texts_of live) true closing _ t
          (on_events-IsAnswering live [] v ls a).shown).shown)

pub texts_of-append : (xs ys : List Event) → texts_of (xs ++ ys) ≡ texts_of xs ++ texts_of ys
texts_of-append [] ys = refl
texts_of-append (x ∷ xs) ys =
    ap (◌++◌ (text_of x)) (texts_of-append xs ys)
    ∙ sym (append_assoc (text_of x) (texts_of xs) (texts_of ys))

text_of-IsTerminal : (e : Event) → IsTerminal e → text_of e ≡ []
text_of-IsTerminal done t = refl
text_of-IsTerminal (error e) t = refl
text_of-IsTerminal (token s) t = elim t [ ]
text_of-IsTerminal (usage u) t = elim t [ ]

texts_of_closed :
    (live rest : List Event) → texts_of rest ≡ [] → texts_of (live ++ rest) ≡ texts_of live
texts_of_closed live rest e = texts_of-append live rest ∙ rw (e, append-nil (texts_of live)) refl

-- Whatever a settled call of `streamChatCompletion` calls back, the view that it opened ends with
-- the user's text and one answer behind the earlier messages. The answer holds the text of all the
-- tokens, in order, and the view is idle again.
pub on_events-IsSettled :
    (o : Outcome) (user_id assistant_id : Text) (controller : ℕ) (s : Submission) (v : View)
    → IsSettled o
    → o.ending ≡ returned
    → IsFresh assistant_id (v.messages ++ user_message user_id s.trimmed ∷ [])
    → IsAnswered
        (v.messages ++ user_message user_id s.trimmed ∷ [])
        assistant_id
        (texts_of o.events)
        (on_events assistant_id o.events (open_stream user_id assistant_id controller s v))
unfolding open_stream
on_events-IsSettled o user_id assistant_id controller s v settled ended fresh =
    let before = v.messages ++ user_message user_id s.trimmed ∷ [] in
    let opened = open_stream user_id assistant_id controller s v in
    let answering : IsAnswering before assistant_id [] opened = record {
      shown = sym (
          append_assoc v.messages (user_message user_id s.trimmed ∷ [])
            (assistant_message assistant_id [] true ∷ []));
    } in
    elim (subst (λ ending. SettledShape ending o.events) ended settled.shape) [
      | inl c ↦
          rw
            (
              c.in_order,
              texts_of_closed c.before (c.closing ∷ [])
                  (rw (text_of-IsTerminal c.closing c.terminal) refl),
            )
            (closed_once before assistant_id fresh c.before c.closing opened c.live c.terminal
              answering)
      | inr c ↦
          rw
            (
              c.in_order,
              texts_of_closed c.before (c.closing ∷ done ∷ [])
                  (rw (text_of-IsTerminal c.closing c.terminal) refl),
            )
            (closed_twice before assistant_id fresh c.before c.closing opened c.live c.terminal
              answering)
    ]
