-- ===== src/Sse/Server/RoundTrip.antt =====
-- What the client's callbacks receive when the service's frames arrive in any chunks.
use eks_any_model_hosting.Common.{
  ◌≡◌, refl, ◌∙◌, true, false, List, [], ◌∷◌, ◌++◌, Option, Text, map, append_assoc, All,
}
use eks_any_model_hosting.Json.{Json}
use eks_any_model_hosting.Sse.{Event, returned}
use eks_any_model_hosting.Sse.Reader.{Round, after_events, drain, parse_sse_stream}
use eks_any_model_hosting.Sse.Reader.Chunks.{brings, decode_all, parse_sse_stream-resume}
use eks_any_model_hosting.Sse.Reader.Drain.{drain-some}
use eks_any_model_hosting.Sse.Server.{Sent, is_last, sse, sse_all, IsCarried}
use eks_any_model_hosting.Sse.Server.Frames.{received, cut-sse, handle_frame-sent}

abbrev pub received_all : List Sent → List Event
received_all [] = []
received_all (e ∷ es) = received e ++ received_all es

module _ (dumps : Json → Text) (json_parse : Text → Option Json) where
  abbrev Carried : List Sent → Type 0
  Carried = All (IsCarried dumps json_parse)

  abbrev GoesOn : List Sent → Type 0
  GoesOn = All (λ e. is_last e ≡ false)

  drain-sse_last :
      (e : Sent) (rest : Text)
      → IsCarried dumps json_parse e
      → is_last e ≡ true
      → drain json_parse (sse dumps e ++ rest)
        ≡ record { events = received e; buffer = rest; finished = true }
  drain-sse_last e rest carried last = rw (
    drain-some json_parse _ (cut-sse dumps json_parse e carried rest),
    handle_frame-sent dumps json_parse e carried,
    last,
  )

  drain-sse_more :
      (e : Sent) (rest : Text)
      → IsCarried dumps json_parse e
      → is_last e ≡ false
      → drain json_parse (sse dumps e ++ rest) ≡ after_events (received e) (drain json_parse rest)
  drain-sse_more e rest carried more = rw (
    drain-some json_parse _ (cut-sse dumps json_parse e carried rest),
    handle_frame-sent dumps json_parse e carried,
    more,
  )

  drain-sse_all :
      (es : List Sent) (rest : Text)
      → Carried es
      → GoesOn es
      → drain json_parse (sse_all dumps es ++ rest)
        ≡ after_events (received_all es) (drain json_parse rest)
  unfolding sse_all
  drain-sse_all [] rest carried live = refl
  drain-sse_all (e ∷ es) rest (c, cs) (l, ls) =
      rw
        (append_assoc, drain-sse_more e (sse_all dumps es ++ rest) c l, drain-sse_all es rest cs ls)
        (rw append_assoc)

  -- However the service's frames are split into chunks, and whatever the stream brings after the
  -- frame that ends it, the callbacks are called once for each frame, in order, and the reader
  -- returns. The empty token is the one frame with no call.
  pub parse_sse_stream-sse_all :
      {Chunk State : Type 0} (decode : State → Chunk → Text × State) (fresh : State)
      (es : List Sent) (last : Sent) (rest : Text) (cs : List Chunk) (rs : List (Round Chunk))
      → Carried es
      → GoesOn es
      → IsCarried dumps json_parse last
      → is_last last ≡ true
      → (decode_all decode fresh cs).0 ≡ sse_all dumps es ++ (sse dumps last ++ rest)
      → parse_sse_stream json_parse decode fresh (map brings cs ++ rs)
        ≡ record { events = received_all es ++ received last; ending = returned }
  parse_sse_stream-sse_all decode fresh es last rest cs rs carried live c l sent =
      parse_sse_stream-resume json_parse decode fresh cs rs
      ∙ rw (
        sent,
        drain-sse_all es (sse dumps last ++ rest) carried live,
        drain-sse_last last rest c l,
      )
