-- ===== src/Sse/Server/Frames.antt =====
-- How the client takes one frame of the service apart.
use eks_any_model_hosting.Common.{
  true, false, List, [], ◌∷◌, ◌++◌, ◌≡◌, refl, ap, ◌∙◌, Option, some, Text, codes, starts_with,
  trim, text_eq, All, All-append, append-nil, arith, if◌then◌else◌, is_nil, append_assoc,
}
use eks_any_model_hosting.Json.{Json, null, bool, num, str, arr, obj}
use eks_any_model_hosting.Sse.{Event, token, usage, done, error}
use eks_any_model_hosting.Sse.Boundary.Cut.{cut, cut-cons}
use eks_any_model_hosting.Sse.Frame.{
  split_lines, read_lines, empty_frame, handle_frame, handle_fields, dispatch, dispatch_token,
  dispatch_usage, extract_token_text, extract_error_message, server_error,
}
use eks_any_model_hosting.Sse.Server.{
  Sent, event_line, data_line, token_sent, odd_sent, usage_sent, done_sent, error_sent, event_name,
  payload, is_last, frame_text, sse, IsPlain, IsCarried,
}

-- What the callbacks receive for a frame.
abbrev pub received : Sent → List Event
received (token_sent text) = if is_nil text then [] else token text ∷ []
received (odd_sent (str [])) = []
received (odd_sent (str (c ∷ s))) = token (c ∷ s) ∷ []
received (odd_sent v) = []
received (usage_sent prompt completion) = usage (payload (usage_sent prompt completion)) ∷ []
received done_sent = done ∷ []
received (error_sent code message) = error (server_error message) ∷ []

abbrev prepend : Text → Text × Text → Text × Text
prepend p (f, r) = (p ++ f, r)

-- No boundary starts in a plain piece.
cut-plain :
    (p s : Text) {f r : Text}
    → All IsPlain p
    → cut s ≡ some (f, r)
    → cut (p ++ s) ≡ some (p ++ f, r)
cut-plain [] s h e = e
cut-plain (c ∷ p) s (k, h) e =
    rw
      (cut-cons c (p ++ s) (unfold starts_with in ground arith)
        (unfold starts_with in ground arith))
      (rw (cut-plain p s h e))

split_lines-plain : (p : Text) → All IsPlain p → split_lines p ≡ p ∷ []
unfolding split_lines
split_lines-plain [] h = refl
split_lines-plain (c ∷ p) (k, h) = ground (arith, split_lines-plain p h)

split_lines-append :
    (p q : Text) → All IsPlain p → split_lines (p ++ (b'\n' ∷ q)) ≡ p ∷ split_lines q
unfolding split_lines
split_lines-append [] q h = refl
split_lines-append (c ∷ []) q (k, h) = ground (arith, split_lines-append [] q h)
split_lines-append (c ∷ d ∷ p) q (k, h) = ground (arith, split_lines-append (d ∷ p) q h)

event_line-IsPlain : (e : Sent) → All IsPlain (event_line e)
event_line-IsPlain (token_sent t) = omega arith
event_line-IsPlain (odd_sent v) = omega arith
event_line-IsPlain (usage_sent p c) = omega arith
event_line-IsPlain done_sent = omega arith
event_line-IsPlain (error_sent c m) = omega arith

cut_end : (rest : Text) → cut (codes "\n\n" ++ rest) ≡ some ([], rest)
unfolding cut starts_with
cut_end rest = refl

cut_data :
    (d : Text) (s : Text) {f r : Text}
    → cut (codes "data: " ++ d ++ s) ≡ some (f, r)
    → cut (b'\n' ∷ (codes "data: " ++ d ++ s)) ≡ some (b'\n' ∷ f, r)
unfolding starts_with
cut_data d s e = rw (cut-cons b'\n' (codes "data: " ++ d ++ s) refl refl) (rw e)

handle_frame_lem :
    (json_parse : Text → Option Json) (raw_frame : Text)
    → handle_frame json_parse raw_frame
      ≡ handle_fields json_parse (read_lines empty_frame (split_lines raw_frame))
unfolding handle_frame
handle_frame_lem json_parse raw_frame = refl

trim-event_name : (e : Sent) → trim (b' ' ∷ event_name e) ≡ event_name e
unfolding trim
trim-event_name (token_sent t) = refl
trim-event_name (odd_sent v) = refl
trim-event_name (usage_sent p c) = refl
trim-event_name done_sent = refl
trim-event_name (error_sent c m) = refl

-- A payload's text is not empty, and is not the sentinel of OpenAI.
opens-cases :
    (d : Text)
    → starts_with (codes "{") d ≡ true
    → (is_nil d ≡ false) × (text_eq d (codes "[DONE]") ≡ false)
unfolding starts_with text_eq
opens-cases [] h = ground arith
opens-cases (c ∷ d) h = ground arith

module _ (dumps : Json → Text) (json_parse : Text → Option Json) where
  handle_fields-dispatch :
      (e : Sent)
      → IsCarried dumps json_parse e
      → handle_fields json_parse
          (record { event_type = event_name e; data_parts = dumps (payload e) ∷ [] })
        ≡ dispatch json_parse (event_name e) (dumps (payload e))
  unfolding handle_fields
  handle_fields-dispatch e carried =
      let (full, no_sentinel) = opens-cases (dumps (payload e)) carried.opens in
      rw (full, carried.trimmed) (rw no_sentinel)

  extract_token_text-sent :
      (t : Text)
      → IsCarried dumps json_parse (token_sent t)
      → extract_token_text json_parse (dumps (payload (token_sent t))) ≡ t
  unfolding extract_token_text
  extract_token_text-sent t carried = rw (carried.trimmed, carried.opens, carried.parsed)

  -- A token without a string has no call.
  dispatch_token-odd :
      (v : Json)
      → IsCarried dumps json_parse (odd_sent v)
      → dispatch_token json_parse (dumps (payload (odd_sent v))) ≡ received (odd_sent v)
  unfolding dispatch_token extract_token_text
  dispatch_token-odd null carried = rw (carried.trimmed, carried.opens, carried.parsed) refl
  dispatch_token-odd (bool b) carried = rw (carried.trimmed, carried.opens, carried.parsed) refl
  dispatch_token-odd (num n) carried = rw (carried.trimmed, carried.opens, carried.parsed) refl
  dispatch_token-odd (str []) carried = rw (carried.trimmed, carried.opens, carried.parsed) refl
  dispatch_token-odd (str (c ∷ s)) carried =
      rw (carried.trimmed, carried.opens, carried.parsed) refl
  dispatch_token-odd (arr vs) carried = rw (carried.trimmed, carried.opens, carried.parsed) refl
  dispatch_token-odd (obj fs) carried = rw (carried.trimmed, carried.opens, carried.parsed) refl

  dispatch-sent :
      (e : Sent)
      → IsCarried dumps json_parse e
      → dispatch json_parse (event_name e) (dumps (payload e))
        ≡ record { events = received e; finished = is_last e }
  unfolding dispatch
  dispatch-sent (token_sent t) carried = rw (extract_token_text-sent t carried, dispatch_token)
  dispatch-sent (odd_sent v) carried = rw (dispatch_token-odd v carried) refl
  dispatch-sent (usage_sent p c) carried = rw (carried.parsed, dispatch_usage)
  dispatch-sent done_sent carried = refl
  dispatch-sent (error_sent c m) carried = rw (carried.parsed, extract_error_message)

  handle_fields-sent :
      (e : Sent)
      → IsCarried dumps json_parse e
      → handle_fields json_parse
          (record { event_type = event_name e; data_parts = dumps (payload e) ∷ [] })
        ≡ record { events = received e; finished = is_last e }
  handle_fields-sent e carried = handle_fields-dispatch e carried ∙ dispatch-sent e carried

module _ (dumps : Json → Text) (json_parse : Text → Option Json) (e : Sent)
    (carried : IsCarried dumps json_parse e) where
  data_line-IsPlain : All IsPlain (data_line dumps e)
  data_line-IsPlain = All-append IsPlain (codes "data: ") _ (omega arith) carried.plain

  pub cut-sse : (rest : Text) → cut (sse dumps e ++ rest) ≡ some (frame_text dumps e, rest)
  unfolding sse
  cut-sse rest =
      let p = event_line e in
      let q = data_line dumps e in
      let in_data = cut-plain q (codes "\n\n" ++ rest) data_line-IsPlain (cut_end rest) in
      let in_event =
        cut-plain p _ (event_line-IsPlain e) (cut_data (dumps (payload e)) _ in_data) in
      rw (append_assoc, append_assoc) (rw append-nil at in_event)

  split_lines-frame : split_lines (frame_text dumps e) ≡ event_line e ∷ data_line dumps e ∷ []
  split_lines-frame =
      split_lines-append (event_line e) (data_line dumps e) (event_line-IsPlain e)
      ∙ ap (◌∷◌ (event_line e)) (split_lines-plain (data_line dumps e) data_line-IsPlain)

  read_lines-frame :
      read_lines empty_frame (event_line e ∷ data_line dumps e ∷ [])
      ≡ record { event_type = event_name e; data_parts = dumps (payload e) ∷ [] }
  unfolding read_lines
  read_lines-frame =
      ap (λ n. record { event_type = n; data_parts = dumps (payload e) ∷ [] }) (trim-event_name e)

  pub handle_frame-sent :
      handle_frame json_parse (frame_text dumps e)
      ≡ record { events = received e; finished = is_last e }
  handle_frame-sent =
      handle_frame_lem json_parse (frame_text dumps e)
      ∙ ap (λ ls. handle_fields json_parse (read_lines empty_frame ls)) split_lines-frame
      ∙ ap (handle_fields json_parse) read_lines-frame
      ∙ handle_fields-sent dumps json_parse e carried
