-- ===== src/Chat/Respond/Outcomes.antt =====
-- How a call of `streamChatCompletion` ends, for every way that `fetch` and the body can go.
use eks_any_model_hosting.Common.{ℕ, List, Option, none, some, Text, All, ◌⊎◌, inl, if_both}
use eks_any_model_hosting.Json.{Json}
use eks_any_model_hosting.Sse.{StreamError, Event, error, Ending, returned, waiting, threw, Outcome}
use eks_any_model_hosting.Sse.Reader.{Round, parse_sse_stream}
use eks_any_model_hosting.Sse.Reader.Endings.{
  IsLive, ClosesOnce, ClosesTwice, OutcomeShape, closing_only, ClosesOnce-append,
  parse_sse_stream-OutcomeShape,
}
use eks_any_model_hosting.Chat.Requests.{StreamRequest, HttpRequest}
use eks_any_model_hosting.Chat.Respond.{
  Fetched, rejected, responded, thrown_error, reporting, catch_read, on_body, on_fetched,
  stream_chat_completion,
}

-- The call resolves and never rejects; what it calls before it resolves.
abbrev pub SettledShape : Ending → List Event → Type 0
SettledShape returned es = ClosesOnce es ⊎ ClosesTwice es
SettledShape waiting es = All IsLive es
SettledShape (threw e) es = ⊥

pub record IsSettled (o : Outcome) : Type 0 where
  pub shape : SettledShape o.ending o.events

reporting-IsSettled : (e : StreamError) → IsSettled (reporting e)
reporting-IsSettled e = record { shape = inl (closing_only (error e) tt) }

catch_read-IsSettled :
    (events : List Event) (ending : Ending)
    → OutcomeShape ending events
    → IsSettled (catch_read (record { events = events; ending = ending }))
unfolding thrown_error
catch_read-IsSettled events returned shape = record { shape = shape }
catch_read-IsSettled events waiting shape = record { shape = shape }
catch_read-IsSettled events (threw e) shape = record {
  shape = inl (ClosesOnce-append events _ shape (closing_only (error _) tt));
}

module _ (json_parse : Text → Option Json) (show : ℕ → Text) {Chunk State : Type 0}
    (decode : State → Chunk → Text × State) (fresh : State) where
  on_body-IsSettled :
      (body : Option (List (Round Chunk))) → IsSettled (on_body json_parse show decode fresh body)
  unfolding on_body
  on_body-IsSettled none = reporting-IsSettled _
  on_body-IsSettled (some rounds) =
      let o = parse_sse_stream json_parse decode fresh rounds in
      catch_read-IsSettled o.events o.ending
        (parse_sse_stream-OutcomeShape json_parse decode fresh rounds)

  on_fetched-IsSettled : (f : Fetched Chunk) → IsSettled (on_fetched json_parse show decode fresh f)
  unfolding on_fetched
  on_fetched-IsSettled (rejected e) = reporting-IsSettled _
  on_fetched-IsSettled (responded res) =
      if_both IsSettled res.ok (on_body-IsSettled res.body) (reporting-IsSettled _)

  -- Whatever `fetch` and the body do, the call never rejects. While it waits, only `onToken` and
  -- `onUsage` have been called; when it has resolved, `onDone` or `onError` has been called behind
  -- these, once, or once with `onDone` behind it.
  pub stream_chat_completion-IsSettled :
      (api_base_url : Text) (stringify : Json → Text) (fetch : HttpRequest → Fetched Chunk)
      (req : StreamRequest)
      → IsSettled
          (stream_chat_completion json_parse show decode fresh api_base_url stringify fetch req)
  unfolding stream_chat_completion
  stream_chat_completion-IsSettled api_base_url stringify fetch req = on_fetched-IsSettled _
