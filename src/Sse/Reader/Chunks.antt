-- ===== src/Sse/Reader/Chunks.antt =====
-- `parseSseStream` does not depend on how the response was split into chunks.
use eks_any_model_hosting.Common.{
  ◌≡◌, refl, sym, ap, ◌∙◌, false, List, [], ◌∷◌, ◌++◌, Option, none, Text, map, append-nil,
  append_assoc, if◌then◌else◌, inl, inr, Bool-cases,
}
use eks_any_model_hosting.Json.{Json}
use eks_any_model_hosting.Sse.{Outcome, returned}
use eks_any_model_hosting.Sse.Boundary.Cut.{cut}
use eks_any_model_hosting.Sse.Reader.{
  Round, value, Drained, emitting, drain, read_stream, parse_sse_stream,
}
use eks_any_model_hosting.Sse.Reader.Drain.{drain-none, drain-append, drain-cut, go_on}

-- A round that brings a chunk, with the signal not aborted.
abbrev pub brings : {Chunk : Type 0} → Chunk → Round Chunk
brings c = record { aborted = false; read = value c }

-- The text that a decoder makes of some chunks, and the state that it is left in.
abbrev pub decode_all :
    {Chunk State : Type 0} → (State → Chunk → Text × State) → State → List Chunk → Text × State
decode_all decode st [] = ([], st)
decode_all decode st (c ∷ cs) =
    let later = decode_all decode (decode st c).1 cs in ((decode st c).0 ++ later.0, later.1)

cut-nil : cut [] ≡ none
unfolding cut
cut-nil = refl

module _ (json_parse : Text → Option Json) {Chunk State : Type 0}
    (decode : State → Chunk → Text × State) where
  -- The stream goes on after the buffer was drained.
  abbrev pub resume : State → Drained → List (Round Chunk) → Outcome
  resume st d rs =
      if d.finished
      then record { events = d.events; ending = returned }
      else emitting d.events (read_stream json_parse decode st d.buffer rs)

  resume-go_on :
      (st : State) (d : Drained) (more : Text) (rs : List (Round Chunk))
      → resume st (go_on json_parse d more) rs ≡ (
          if d.finished
          then record { events = d.events; ending = returned }
          else emitting d.events (resume st (drain json_parse (d.buffer ++ more)) rs))
  resume-go_on st d more rs = elim (Bool-cases d.finished) [
    | inl fin ↦ rw fin
    | inr live ↦ elim (Bool-cases (drain json_parse (d.buffer ++ more)).finished) [
      | inl fin ↦ rw (live, fin)
      | inr going ↦ rw (live, going) (rw append_assoc)
    ]
  ]

  -- Chunk by chunk the stream does what it does with all their text at once.
  read_stream-brings :
      (cs : List Chunk) (st : State) (b : Text) (rs : List (Round Chunk))
      → cut b ≡ none
      → read_stream json_parse decode st b (map brings cs ++ rs)
        ≡ resume
            (decode_all decode st cs).1
            (drain json_parse (b ++ (decode_all decode st cs).0))
            rs
  unfolding read_stream
  read_stream-brings [] st b rs h = rw append-nil (rw (drain-none json_parse b h))
  read_stream-brings (c ∷ cs) st b rs h =
      let decoded = (decode st c).0 in
      let st' = (decode st c).1 in
      let more = (decode_all decode st' cs).0 in
      let last = (decode_all decode st' cs).1 in
      let d = drain json_parse (b ++ decoded) in
      rw (sym (append_assoc b decoded more), drain-append json_parse (b ++ decoded) more)
        (rw (resume-go_on last d more rs) (elim (Bool-cases d.finished) [
          | inl fin ↦ rw (fin, read_stream)
          | inr going ↦
              rw (going, read_stream)
                (rw (
                  read_stream-brings cs st' d.buffer rs
                    (drain-cut json_parse (b ++ decoded) going)))
        ]))

  pub parse_sse_stream-resume :
      (fresh : State) (cs : List Chunk) (rs : List (Round Chunk))
      → parse_sse_stream json_parse decode fresh (map brings cs ++ rs)
        ≡ resume (decode_all decode fresh cs).1 (drain json_parse (decode_all decode fresh cs).0) rs
  unfolding parse_sse_stream
  parse_sse_stream-resume fresh cs rs = read_stream-brings cs fresh [] rs cut-nil

  -- Two ways to split a response into chunks that decode alike are handled alike, whatever comes
  -- after them: the same calls of the callbacks in the same order, and the same ending.
  pub parse_sse_stream_chunking :
      (fresh : State) (cs ds : List Chunk) (rs : List (Round Chunk))
      → decode_all decode fresh cs ≡ decode_all decode fresh ds
      → parse_sse_stream json_parse decode fresh (map brings cs ++ rs)
        ≡ parse_sse_stream json_parse decode fresh (map brings ds ++ rs)
  parse_sse_stream_chunking fresh cs ds rs e =
      parse_sse_stream-resume fresh cs rs
      ∙ ap (λ t. resume t.1 (drain json_parse t.0) rs) e
      ∙ sym (parse_sse_stream-resume fresh ds rs)
