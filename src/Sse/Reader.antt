-- ===== src/Sse/Reader.antt =====
-- `parseSseStream` of spa/src/api/chat.ts. The callbacks return normally. The stream's reader is a
-- list of rounds, each with the state of the abort signal at its start and what `read` settles
-- with; the list may end before the stream does. TextDecoder is the parameter `decode` over its
-- states, of which `fresh` is the first.
pub mod Drain
pub mod Chunks
pub mod Endings
use eks_any_model_hosting.Common.{
  ℕ, zero, suc, ◌+◌, Bool, true, false, List, [], ◌∷◌, ◌++◌, Option, none, some, Text, codes, trim,
  take, drop, length, is_nil, if◌then◌else◌,
}
use eks_any_model_hosting.Json.{Json}
use eks_any_model_hosting.Sse.{
  Event, done, Handled, Thrown, dom_exception, Ending, returned, threw, waiting, Outcome,
}
use eks_any_model_hosting.Sse.Boundary.{index_of_frame_boundary, strip_boundary}
use eks_any_model_hosting.Sse.Frame.{handle_frame}

pub data Read (Chunk : Type 0) : Type 0 where
  value : Chunk → Read Chunk
  end : Read Chunk
  failed : Thrown → Read Chunk

pub record Round (Chunk : Type 0) : Type 0 where
  pub aborted : Bool
  pub read : Read Chunk

-- What the inner loop leaves: the events so far, the rest of the buffer, and whether a frame
-- finished the stream.
pub record Drained : Type 0 where
  pub events : List Event
  pub buffer : Text
  pub finished : Bool

abbrev pub after_events : List Event → Drained → Drained
after_events es d = record d { events = es ++ d.events }

abbrev pub emitting : List Event → Outcome → Outcome
emitting es o = record o { events = es ++ o.events }

abbrev pub abort_exception : Thrown
abort_exception = dom_exception (codes "AbortError") (codes "Aborted")

module _ (json_parse : Text → Option Json) where
  -- The inner `while`, on fuel.
  unfoldable pub drain_from : ℕ → Text → Drained
  drain_from zero buffer = record { events = []; buffer = buffer; finished = false }
  drain_from (suc fuel) buffer = elim (index_of_frame_boundary buffer) [
    | none ↦ record { events = []; buffer = buffer; finished = false }
    | some sep_index ↦
        let rest = strip_boundary (drop sep_index buffer) in
        let handled = handle_frame json_parse (take sep_index buffer) in
        let later = drain_from fuel rest in
        if handled.finished
        then record { events = handled.events; buffer = rest; finished = true }
        else after_events handled.events later
  ]

  -- Each round shortens the buffer, so its length bounds the rounds.
  unfoldable pub drain : Text → Drained
  drain buffer = drain_from (suc (length buffer)) buffer

  -- What stands behind the loop: the trailing frame, and `onDone`.
  unfoldable pub flush : Text → List Event
  flush buffer =
      let tail = trim buffer in
      if is_nil tail then done ∷ [] else (handle_frame json_parse tail).events ++ done ∷ []

  module _ {Chunk State : Type 0} (decode : State → Chunk → Text × State) where
    -- One round of the outer loop; `go_on` stands for the later rounds.
    unfoldable pub on_round : Bool → Read Chunk → State → Text → (State → Text → Outcome) → Outcome
    on_round true read st buffer go_on = record { events = []; ending = threw abort_exception }
    on_round false (failed e) st buffer go_on = record { events = []; ending = threw e }
    on_round false end st buffer go_on = record { events = flush buffer; ending = returned }
    on_round false (value chunk) st buffer go_on =
        let (decoded, st') = decode st chunk in
        let d = drain (buffer ++ decoded) in
        let later = go_on st' d.buffer in
        if d.finished
        then record { events = d.events; ending = returned }
        else emitting d.events later

    unfoldable pub read_stream : State → Text → List (Round Chunk) → Outcome
    unfolding on_round
    read_stream st buffer [] = record { events = []; ending = waiting }
    read_stream st buffer (r ∷ rs) =
        on_round r.aborted r.read st buffer (λ st' buffer'. read_stream st' buffer' rs)

    unfoldable pub parse_sse_stream : State → List (Round Chunk) → Outcome
    unfolding read_stream
    parse_sse_stream fresh rs = read_stream fresh [] rs
