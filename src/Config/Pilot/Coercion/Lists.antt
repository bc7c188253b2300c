-- ===== src/Config/Pilot/Coercion/Lists.antt =====
-- Lists that the context gives as one text.
use eks_any_model_hosting.Common.{
  ◌≡◌, ◌≢◌, refl, ap, ◌∙◌, false, List, [], ◌∷◌, Text, codes, All, is_nil, trim, split, join,
  split-append, split_plain, arith,
}
use eks_any_model_hosting.Config.Pilot.{Value, text}
use eks_any_model_hosting.Config.Pilot.Coercion.{trimmed_parts, string_array_or}

-- An entry that a text with commas can carry.
pub record IsEntry (s : Text) : Type 0 where
  pub plain : All (λ c. c ≢ b',') s
  pub tight : trim s ≡ s
  pub full : is_nil s ≡ false

split-join :
    (s : Text) (ss : List Text)
    → All IsEntry (s ∷ ss)
    → split b',' (join (codes ",") (s ∷ ss)) ≡ s ∷ ss
unfolding join
split-join s [] (h, _) = split_plain b',' s h.plain
split-join s (t ∷ ss) (h, k) =
    split-append b',' s (join (codes ",") (t ∷ ss)) h.plain ∙ ap (◌∷◌ s) (split-join t ss k)

trimmed_parts-entries : (ss : List Text) → All IsEntry ss → trimmed_parts ss ≡ ss
unfolding trimmed_parts
trimmed_parts-entries [] h = refl
trimmed_parts-entries (s ∷ ss) (h, k) = rw (h.tight, h.full, trimmed_parts-entries ss k) refl

join_full : (s : Text) (ss : List Text) → IsEntry s → is_nil (join (codes ",") (s ∷ ss)) ≡ false
unfolding join
join_full s [] h = h.full
join_full [] (t ∷ ss) h = ground (arith, h.full)
join_full (c ∷ s) (t ∷ ss) h = refl

module _ {Number : Type 0} (to_string : Value Number → Text) where
  string_array_or_text :
      (s : Text) (fallback : List Text)
      → is_nil s ≡ false
      → string_array_or to_string (text s) fallback ≡ trimmed_parts (split b',' s)
  unfolding string_array_or
  string_array_or_text [] fallback h = ground (arith, h)
  string_array_or_text (c ∷ s) fallback h = refl

  -- A list of entries without commas, blanks at their ends or empty ones, given as one text with
  -- commas between them, is read as that list.
  string_array_or-join :
      (s : Text) (ss fallback : List Text)
      → All IsEntry (s ∷ ss)
      → string_array_or to_string (text (join (codes ",") (s ∷ ss))) fallback ≡ s ∷ ss
  string_array_or-join s ss fallback h =
      string_array_or_text (join (codes ",") (s ∷ ss)) fallback (join_full s ss h.0)
      ∙ ap trimmed_parts (split-join s ss h)
      ∙ trimmed_parts-entries (s ∷ ss) h
