-- ===== src/Tests/Turn.antt =====
-- A chat's first turn, on the screen.
use eks_any_model_hosting.Common.{List, [], ◌∷◌, ◌++◌, map, Text, codes}
use eks_any_model_hosting.Sse.Reader.{parse_sse_stream}
use eks_any_model_hosting.Sse.Reader.Chunks.{brings}
use eks_any_model_hosting.Chat.View.{View, Submission, open_stream, on_events}
use eks_any_model_hosting.Chat.View.Steps.{empty_room}
use eks_any_model_hosting.Sessions.{Limits, limits_of}
use eks_any_model_hosting.Tests.Stream.{parse_two, as_text, greeting_chunks}

abbrev pub first : Submission
first = record { trimmed = codes "Hello"; transcript = []; session_id = codes "s" }

abbrev pub view : View
view = (empty_room (codes "s")).view

-- The model's second chunk has no content.
abbrev pub contents : List Text
contents = codes "Hi" ∷ [] ∷ []

abbrev pub limits : Limits
limits = limits_of 12 1800 1000

abbrev pub shown : View
shown =
    on_events (codes "a")
      (parse_sse_stream parse_two as_text 0 (map brings greeting_chunks ++ [])).events
      (open_stream (codes "u") (codes "a") 1 first view)
