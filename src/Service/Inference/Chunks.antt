-- ===== src/Service/Inference/Chunks.antt =====
-- How services/api/app/inference.py reads one line of the model server's stream: `_parse_sse_data`,
-- `_extract_delta` and the body of the loop of `stream_chat`, on Python's values of JSON. Number
-- literals keep their text; that one of them is zero is a parameter.
use eks_any_model_hosting.Common.{
  ℕ, leb, ◌==◌, Bool, true, false, ◌&&◌, ◌||◌, not, List, [], ◌∷◌, ◌++◌, Option, none, some, Text,
  codes, text_eq, starts_with, is_nil, length, drop, if◌then◌else◌,
}
use eks_any_model_hosting.Json.{
  Json, null, bool, num, str, arr, obj, nil, cons, Fields, end, field, find,
}

-- The white space of str.strip.
unfoldable pub is_white : ℕ → Bool
is_white c =
    leb 9 c && leb c 13
    || leb 28 c && leb c 32
    || c == 0x85
    || c == 0xa0
    || c == 0x1680
    || leb 0x2000 c && leb c 0x200a
    || c == 0x2028
    || c == 0x2029
    || c == 0x202f
    || c == 0x205f
    || c == 0x3000

unfoldable pub lstrip : Text → Text
unfolding is_white
lstrip [] = []
lstrip (c ∷ s) = let rest = lstrip s in if is_white c then rest else c ∷ s

unfoldable pub rstrip : Text → Text
unfolding is_white
rstrip [] = []
rstrip (c ∷ s) = let rest = rstrip s in if is_white c && is_nil rest then [] else c ∷ rest

-- s.strip()
unfoldable pub strip : Text → Text
unfolding lstrip rstrip
strip s = rstrip (lstrip s)

unfoldable pub parse_sse_data : Text → Option Text
unfolding starts_with strip
parse_sse_data raw_line =
    if starts_with (codes "data:") raw_line
    then some (strip (drop (length (codes "data:")) raw_line))
    else none

-- What a line is read as: a line to skip, the sentinel, or a chunk.
pub data Line : Type 0 where
  skipped : Line
  sentinel : Line
  chunk : Json → Line

-- `none` is the JSONDecodeError of json.loads.
abbrev pub chunk_or_skipped : Option Json → Line
chunk_or_skipped none = skipped
chunk_or_skipped (some v) = chunk v

abbrev pub line_of_data : (Text → Option Json) → Option Text → Line
line_of_data json_loads none = skipped
line_of_data json_loads (some []) = skipped
line_of_data json_loads (some (c ∷ s)) =
    if text_eq (c ∷ s) (codes "[DONE]") then sentinel else chunk_or_skipped (json_loads (c ∷ s))

unfoldable pub line_of : (Text → Option Json) → Text → Line
unfolding text_eq parse_sse_data
line_of json_loads raw_line = line_of_data json_loads (parse_sse_data raw_line)

-- A reading of a chunk. It `raised` where a value is not of the type that the code takes for granted
-- (AttributeError, KeyError or TypeError).
pub data Taken (A : Type 0) : Type 0 where
  took : A → Taken A
  raised : Taken A

infixl 5 ◌>>=◌
abbrev pub ◌>>=◌ : {A B : Type 0} → Taken A → (A → Taken B) → Taken B
took a >>= f = f a
raised >>= f = raised

-- The variables of the loop. Counts and parts are the values that the server sends, of any type.
pub record Progress : Type 0 where
  pub prompt_tokens : Json
  pub completion_tokens : Json
  pub assistant_parts : List Json

abbrev pub no_progress : Progress
no_progress = record {
  prompt_tokens = num (codes "0");
  completion_tokens = num (codes "0");
  assistant_parts = [];
}

-- usage.get(k, old)
abbrev pub count_of : Option Json → Json → Json
count_of none old = old
count_of (some v) old = v

module _ (is_zero : Text → Bool) where
  -- The truth value of `d.get(k)`.
  abbrev pub truthy : Option Json → Bool
  truthy none = false
  truthy (some null) = false
  truthy (some (bool b)) = b
  truthy (some (num n)) = not (is_zero n)
  truthy (some (str s)) = not (is_nil s)
  truthy (some (arr nil)) = false
  truthy (some (arr (cons v vs))) = true
  truthy (some (obj end)) = false
  truthy (some (obj (field k v fs))) = true

  -- What stands under `if usage:`.
  abbrev pub read_counts : Option Json → Progress → Taken Progress
  read_counts (some (obj fs)) p = took (record p {
    prompt_tokens = count_of (find (codes "prompt_tokens") fs) p.prompt_tokens;
    completion_tokens = count_of (find (codes "completion_tokens") fs) p.completion_tokens;
  })
  read_counts _ p = raised

  unfoldable pub read_usage : Option Json → Progress → Taken Progress
  unfolding find
  read_usage usage p = if truthy usage then read_counts usage p else took p

  abbrev pub content_of_delta : Option Json → Taken (Option Json)
  content_of_delta (some (obj delta)) = took (find (codes "content") delta)
  content_of_delta _ = raised

  -- The first of `choices`, where that is a list.
  abbrev pub content_of_choices : Option Json → Taken (Option Json)
  content_of_choices (some (arr (cons (obj choice) rest))) =
      let delta = find (codes "delta") choice in
      if truthy delta then content_of_delta delta else took none
  content_of_choices _ = raised

  -- The content of `_extract_delta`; the loop does not use the finish reason.
  unfoldable pub extract_delta : Fields → Taken (Option Json)
  unfolding find
  extract_delta chunk_fields =
      let choices = find (codes "choices") chunk_fields in
      if truthy choices then content_of_choices choices else took none

  -- What stands under `if content:`, with the content of the token to send.
  abbrev pub add_part : Option Json → Progress → Progress × Option Json
  add_part none p = (p, none)
  add_part (some v) p = (record p { assistant_parts = p.assistant_parts ++ v ∷ [] }, some v)

  unfoldable pub add_content : Option Json → Progress → Progress × Option Json
  add_content content p = if truthy content then add_part content p else (p, none)

  unfoldable pub on_chunk : Json → Progress → Taken (Progress × Option Json)
  unfolding find read_usage extract_delta add_content
  on_chunk (obj fs) p = do
    p' ← read_usage (find (codes "usage") fs) p
    content ← extract_delta fs
    took (add_content content p')
  on_chunk _ p = raised
