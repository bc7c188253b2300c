-- ===== src/Config/Pilot/Coercion.antt =====
-- `numberOr`, `boolOr` and `stringArrayOr` of lib/config/environment-config.ts. `Number` and
-- `String` on a value, and `toLowerCase`, are parameters.
pub mod Lists
use eks_any_model_hosting.Common.{
  Bool, true, false, List, [], ◌∷◌, Option, none, some, Text, codes, text_eq, trim, split, is_nil,
  if◌then◌else◌,
}
use eks_any_model_hosting.Config.Pilot.{
  Numbers, Value, undefined, null, boolean, number, text, array, object, Values, nil, cons,
}

-- parts.map((s) => s.trim()).filter(Boolean)
unfoldable pub trimmed_parts : List Text → List Text
unfolding trim
trimmed_parts [] = []
trimmed_parts (s ∷ parts) =
    let rest = trimmed_parts parts in let t = trim s in if is_nil t then rest else t ∷ rest

module _ {Number : Type 0} (numbers : Numbers Number) where
  abbrev pub finite_or : Number → Number → Number
  finite_or n fallback = if numbers.is_finite n then n else fallback

  unfoldable pub number_or : (Value Number → Number) → Value Number → Number → Number
  number_or to_number undefined fallback = fallback
  number_or to_number null fallback = fallback
  number_or to_number (text []) fallback = fallback
  number_or to_number (text (c ∷ s)) fallback = finite_or (numbers.from_text (c ∷ s)) fallback
  number_or to_number (number n) fallback = finite_or n fallback
  number_or to_number value fallback = finite_or (to_number value) fallback

module _ {Number : Type 0} where
  unfoldable pub bool_or : (Text → Text) → Value Number → Bool → Bool
  unfolding text_eq
  bool_or to_lower_case (boolean b) fallback = b
  bool_or to_lower_case (text s) fallback = text_eq (to_lower_case s) (codes "true")
  bool_or to_lower_case _ fallback = fallback

  unfoldable pub to_strings : (Value Number → Text) → Values Number → List Text
  to_strings to_string nil = []
  to_strings to_string (cons v vs) = to_string v ∷ to_strings to_string vs

  unfoldable pub string_array_or : (Value Number → Text) → Value Number → List Text → List Text
  unfolding split trimmed_parts to_strings
  string_array_or to_string (array vs) fallback = to_strings to_string vs
  string_array_or to_string (text (c ∷ s)) fallback = trimmed_parts (split b',' (c ∷ s))
  string_array_or to_string _ fallback = fallback
