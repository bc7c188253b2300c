-- ===== src/Sse/Frame.antt =====
-- `handleFrame` of spa/src/api/chat.ts and what it calls. JSON.parse is the parameter; `none` is
-- its SyntaxError.
use eks_any_model_hosting.Common.{
  true, false, ◌&&◌, ◌||◌, List, [], ◌∷◌, ◌++◌, Option, none, some, Text, codes, text_eq,
  starts_with, trim, join, cons_head, drop, is_nil, ◌==◌, if◌then◌else◌,
}
use eks_any_model_hosting.Json.{Json, member, as_string, first_item, optional_member}
use eks_any_model_hosting.Sse.{StreamError, server, Event, token, usage, done, error, Handled}

pub record FrameFields : Type 0 where
  pub event_type : Text
  pub data_parts : List Text

-- rawFrame.split(/\r?\n/): a carriage return before a line feed belongs to the separator.
unfoldable pub split_lines : Text → List Text
unfolding starts_with
split_lines [] = [] ∷ []
split_lines (c ∷ s) =
    let rest = split_lines s in
    if c == b'\n'
    then [] ∷ rest
    else if c == b'\r' && starts_with (codes "\n") s
    then rest
    else cons_head c rest

-- s.replace(/^ /, '')
unfoldable pub drop_space : Text → Text
drop_space [] = []
drop_space (c ∷ s) = if c == b' ' then s else c ∷ s

-- One round of the loop over the lines of a frame.
unfoldable pub read_line : FrameFields → Text → FrameFields
unfolding starts_with drop_space trim
read_line f line =
    if starts_with (codes ":") line
    then f
    else if starts_with (codes "event:") line
    then record f { event_type = trim (drop 6 line) }
    else if starts_with (codes "data:") line
    then record f { data_parts = f.data_parts ++ drop_space (drop 5 line) ∷ [] }
    else f

unfoldable pub read_lines : FrameFields → List Text → FrameFields
unfolding read_line
read_lines f [] = f
read_lines f (line ∷ lines) = read_lines (read_line f line) lines

abbrev pub empty_frame : FrameFields
empty_frame = record { event_type = codes "message"; data_parts = [] }

abbrev first_some : Option Text → Option Text → Option Text
first_some (some s) o = some s
first_some none o = o

abbrev text_or_empty : Option Text → Text
text_or_empty none = []
text_or_empty (some s) = s

-- The `try` body of `extractTokenText` on the parsed value; `none` where it throws.
unfoldable pub token_text_of : Json → Option Text
unfolding member first_item optional_member
token_text_of v = elim (member (codes "text") v) [
  | none ↦ none
  | some text ↦
      let get = λ (k : Text). as_string (optional_member k (some v)) in
      let choices = optional_member (codes "choices") (some v) in
      let delta = optional_member (codes "delta") (first_item choices) in
      some (
        text_or_empty (
          first_some (as_string text) (
            first_some (get (codes "token")) (
              first_some (get (codes "content")) (
                first_some (get (codes "delta"))
                  (as_string (optional_member (codes "content") delta)))))))
]

-- The `try` body of `extractErrorMessage` on the parsed value; `none` where it falls through.
unfoldable pub error_message_of : Json → Option Text
unfolding member optional_member
error_message_of v = elim (member (codes "message") v) [
  | none ↦ none
  | some message ↦
      first_some (as_string message) (as_string (optional_member (codes "error") (some v)))
]

abbrev pub server_error : Text → StreamError
server_error message = record { kind = server; message = message; status = none }

module _ (json_parse : Text → Option Json) where
  unfoldable pub extract_token_text : Text → Text
  unfolding trim starts_with token_text_of
  extract_token_text data_text =
      let trimmed = trim data_text in
      if starts_with (codes "{") trimmed || starts_with (codes "[") trimmed
      then elim (json_parse trimmed) [
        | none ↦ data_text
        | some v ↦ elim (token_text_of v) [ none ↦ data_text | some s ↦ s ]
      ]
      else data_text

  unfoldable pub extract_error_message : Text → Text
  unfolding error_message_of
  extract_error_message data_text =
      let fallback =
        if is_nil data_text then codes "The server reported an error." else data_text in
      elim (json_parse data_text) [
        | none ↦ fallback
        | some v ↦ elim (error_message_of v) [ none ↦ fallback | some s ↦ s ]
      ]

  unfoldable pub dispatch_token : Text → List Event
  unfolding extract_token_text
  dispatch_token data_text =
      let s = extract_token_text data_text in if is_nil s then [] else token s ∷ []

  unfoldable pub dispatch_usage : Text → List Event
  dispatch_usage data_text = elim (json_parse data_text) [ none ↦ [] | some v ↦ usage v ∷ [] ]

  -- The `switch` on the event's type.
  unfoldable pub dispatch : Text → Text → Handled
  unfolding dispatch_token dispatch_usage extract_error_message text_eq
  dispatch event_type data_text =
      if text_eq event_type (codes "token")
      then record { events = dispatch_token data_text; finished = false }
      else if text_eq event_type (codes "usage")
      then record { events = dispatch_usage data_text; finished = false }
      else if text_eq event_type (codes "done")
      then record { events = done ∷ []; finished = true }
      else if text_eq event_type (codes "error")
      then record {
        events = error (server_error (extract_error_message data_text)) ∷ [];
        finished = true;
      }
      else record { events = dispatch_token data_text; finished = false }

  -- What follows the loop over the lines.
  unfoldable pub handle_fields : FrameFields → Handled
  unfolding join trim text_eq dispatch
  handle_fields f =
      let data_text = join (codes "\n") f.data_parts in
      if is_nil data_text && text_eq f.event_type (codes "message")
      then record { events = []; finished = false }
      else if text_eq (trim data_text) (codes "[DONE]")
      then record { events = done ∷ []; finished = true }
      else dispatch f.event_type data_text

  unfoldable pub handle_frame : Text → Handled
  unfolding split_lines read_lines handle_fields
  handle_frame raw_frame = handle_fields (read_lines empty_frame (split_lines raw_frame))
