-- ===== src/Json.antt =====
-- The JavaScript values that JSON.parse gives, and how spa/src/api/chat.ts reads their members.
use eks_any_model_hosting.Common.{
  Bool, [], ◌∷◌, Option, none, some, Text, codes, text_eq, if◌then◌else◌,
}

-- A number is kept as its literal: the program only passes numbers on.
mutual
  pub data Json : Type 0 where
    null : Json
    bool : Bool → Json
    num : Text → Json
    str : Text → Json
    arr : Items → Json
    obj : Fields → Json

  pub data Items : Type 0 where
    nil : Items
    cons : Json → Items → Items

  pub data Fields : Type 0 where
    end : Fields
    field : Text → Json → Fields → Fields

-- An own property of a parsed object; `none` is `undefined`.
unfoldable pub find : Text → Fields → Option Json
unfolding text_eq
find k end = none
find k (field j v fs) = if text_eq j k then some v else find k fs

-- `v.k`: `none` is the TypeError on null, `some none` is `undefined`. Strings, numbers, Booleans
-- and arrays have no property of the names that the program reads.
unfoldable pub member : Text → Json → Option (Option Json)
unfolding find
member k null = none
member k (obj fs) = some (find k fs)
member k _ = some none

-- `typeof v === 'string'`, with the string.
abbrev pub as_string : Option Json → Option Text
as_string none = none
as_string (some (str s)) = some s
as_string (some _) = none

-- `v?.[0]`
unfoldable pub first_item : Option Json → Option Json
unfolding find
first_item none = none
first_item (some (arr (cons v vs))) = some v
first_item (some (obj fs)) = find (codes "0") fs
first_item (some (str (c ∷ s))) = some (str (c ∷ []))
first_item (some _) = none

-- `v?.k`
unfoldable pub optional_member : Text → Option Json → Option Json
unfolding find
optional_member k (some (obj fs)) = find k fs
optional_member k (some _) = none
optional_member k none = none
