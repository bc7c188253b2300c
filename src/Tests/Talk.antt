-- ===== src/Tests/Talk.antt =====
-- Runs of the chat view.
use eks_any_model_hosting.Common.{
  ◌≡◌, refl, true, false, List, map, Text, [], ◌∷◌, some, codes, none, repeat, ◌↔◌, text_eq, inl,
}
use eks_any_model_hosting.Sse.{Event, token, done, Outcome, returned}
use eks_any_model_hosting.Chat.Requests.{sendable}
use eks_any_model_hosting.Chat.Respond.Outcomes.{IsSettled}
use eks_any_model_hosting.Chat.View.{
  View, Submission, on_event, begin_submit, stop, history_of, user_message, assistant_message,
  open_stream, on_events, stream_request,
}
use eks_any_model_hosting.Chat.View.Exchange.{IsAnswered, on_events-IsSettled}
use eks_any_model_hosting.Chat.View.Interleaved.{on_calls, answered_by, on_calls-answered_by}
use eks_any_model_hosting.Json.{obj, field, end, num}
use eks_any_model_hosting.Service.{code_points, is_accepted}
use eks_any_model_hosting.Service.Contract.{IsAcceptable, is_accepted-stream_request}
use eks_any_model_hosting.Chat.View.Steps.Orderly
use eks_any_model_hosting.Chat.View.Steps.Orderly.{
  IsFollowing, telling, answering, submitting, Orderly-IsFollowing,
}
use eks_any_model_hosting.Screen.{Rendering, chat_screen, usage_strip_of}
use eks_any_model_hosting.Screen.Agreement.{Agrees, Reachable-Agrees}
use eks_any_model_hosting.Chat.View.Steps.{
  Room, empty_room, submitted, token_arrived, called, step, start, next,
}

abbrev asked : Submission
asked = record { trimmed = codes "Hello"; transcript = []; session_id = codes "s" }

abbrev answered : Outcome
answered = record { events = token (codes "Hi") ∷ token (codes "!") ∷ done ∷ []; ending = returned }

answered-IsSettled : IsSettled answered
answered-IsSettled = record {
  shape = inl (record {
    before = token (codes "Hi") ∷ token (codes "!") ∷ [];
    closing = done;
    live = (tt, (tt, tt));
    terminal = tt;
    in_order = refl;
  });
}

on_events-IsSettled_example :
    IsAnswered (user_message (codes "u") (codes "Hello") ∷ []) (codes "a") (codes "Hi!") (
      on_events
        (codes "a")
        answered.events
        (open_stream (codes "u") (codes "a") 1 asked (empty_room (codes "s")).view))
unfolding text_eq
on_events-IsSettled_example =
    on_events-IsSettled answered (codes "u") (codes "a") 1 asked (empty_room (codes "s")).view
      answered-IsSettled refl (refl, tt)

-- A text is submitted twice while the first submission waits for its token.
abbrev twice : Room
twice = step (submitted (codes "Hello")) (step (submitted (codes "Hello")) (empty_room (codes "s")))

-- Both are then sent, each with its answer: the guard on `isStreaming` has let both through.
twice_test :
    (step
      (token_arrived 0 (some (codes "at")) (codes "u2") (codes "a2") 2)
      (step (token_arrived 0 (some (codes "at")) (codes "u1") (codes "a1") 1) twice)).view.messages
    ≡ user_message (codes "u1") (codes "Hello")
      ∷ assistant_message (codes "a1") [] true
      ∷ user_message (codes "u2") (codes "Hello")
      ∷ assistant_message (codes "a2") [] true
      ∷ []
unfolding step
twice_test = refl

-- The calls of two streams, one after the other's turn.
abbrev mixed : List (Text × Event)
mixed =
    (codes "a1", token (codes "one"))
    ∷ (codes "a2", token (codes "two"))
    ∷ (codes "a1", done)
    ∷ (codes "a2", token (codes "!"))
    ∷ []

abbrev both : View
both = record (empty_room (codes "s")).view {
  messages = assistant_message (codes "a1") [] true ∷ assistant_message (codes "a2") [] true ∷ [];
}

on_calls-answered_by_example :
    (on_calls mixed both).messages ≡ map (answered_by mixed) both.messages
on_calls-answered_by_example = on_calls-answered_by mixed both

mixed_test :
    (on_calls mixed both).messages
    ≡ assistant_message (codes "a1") (codes "one") false
      ∷ assistant_message (codes "a2") (codes "two!") true
      ∷ []
unfolding on_calls text_eq
mixed_test = refl

-- The screen behind the two submissions.
abbrev js : Rendering
js = record { show = λ v. codes "n"; plus = λ a b. a }

Reachable-Agrees_example :
    Agrees (chat_screen js (λ s. s) (codes "llama") none twice.view) twice.view
Reachable-Agrees_example =
    Reachable-Agrees js (λ s. s) (codes "llama") none (codes "s") twice
      (next (submitted (codes "Hello")) (next (submitted (codes "Hello")) start))

count_test :
    usage_strip_of js (some (obj (field (codes "prompt_tokens") (num (codes "3")) end)))
    ≡ some (codes "n prompt · ? completion · n total tokens")
unfolding usage_strip_of text_eq
count_test = refl

is_accepted-stream_request_example :
    (is_accepted (sendable (stream_request (codes "at") (codes "u") asked).messages) ≡ true)
    ↔ IsAcceptable asked
unfolding step
is_accepted-stream_request_example =
    is_accepted-stream_request (codes "s") twice 0 asked (asked ∷ []) (codes "at") (codes "u")
      (next (submitted (codes "Hello")) (next (submitted (codes "Hello")) start)) refl

-- A smiling face is one code point, and two code units.
face_test : code_points (0xd83d ∷ 0xde00 ∷ []) ≡ some 1
unfolding code_points
face_test = refl

-- Behind an answer that was stopped before its first token, and behind ten exchanges.
stopped_test :
    is_accepted (
      history_of (
        user_message (codes "u1") (codes "Hi")
        ∷ assistant_message (codes "a1") [] false
        ∷ user_message (codes "u2") (codes "Hello")
        ∷ []))
    ≡ false
unfolding is_accepted history_of text_eq
stopped_test = refl

eleventh_test : is_accepted (history_of (repeat 21 (user_message (codes "u") (codes "Hi")))) ≡ false
unfolding is_accepted history_of text_eq
eleventh_test = refl

-- A text that is submitted, and an answer that streams.
abbrev streaming : Room
streaming = step (called (codes "a1") (token (codes "Hi"))) (
    step (token_arrived 0 (some (codes "at")) (codes "u1") (codes "a1") 1)
      (step (submitted (codes "Hello")) (empty_room (codes "s"))))

Orderly-IsFollowing_example :
    IsFollowing (some (codes "a1", 1)) streaming.view
    × ((stop streaming.view).aborted ≡ 1 ∷ streaming.view.aborted)
unfolding step begin_submit
Orderly-IsFollowing_example = Orderly-IsFollowing (codes "s") streaming (some (codes "a1", 1)) (
    telling (token (codes "Hi")) (
      answering 0 (some (codes "at")) (codes "u1") (codes "a1") 1
        (submitting (codes "Hello") refl Orderly.start)))

-- Of two submissions that have overlapped, the end of the first one's stream resets the flag and the
-- ref, while the second one's answer is still growing.
abbrev overlapped : View
overlapped =
    (step (called (codes "a1") done) (
      step (token_arrived 0 (some (codes "at")) (codes "u2") (codes "a2") 2)
        (step (token_arrived 0 (some (codes "at")) (codes "u1") (codes "a1") 1) twice))).view

overlapped_test :
    (overlapped.is_streaming ≡ false)
    × (overlapped.abort_ref ≡ none)
    × (map (λ m. m.streaming) overlapped.messages ≡ false ∷ false ∷ false ∷ true ∷ [])
unfolding step begin_submit on_event text_eq
overlapped_test = (refl, refl, refl)
