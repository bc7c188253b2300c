-- ===== src/Sse/Boundary.antt =====
-- `indexOfFrameBoundary` of spa/src/api/chat.ts, and the removal of the boundary that it found.
pub mod Cut
pub mod Stable
use eks_any_model_hosting.Common.{
  ℕ, min, [], ◌∷◌, Option, none, some, Text, codes, index_of, ◌==◌, if◌then◌else◌,
}

-- The three returns of `indexOfFrameBoundary`; `none` stands for -1.
abbrev pub earlier : Option ℕ → Option ℕ → Option ℕ
earlier none crlf = crlf
earlier (some i) none = some i
earlier (some i) (some j) = some (min i j)

unfoldable pub index_of_frame_boundary : Text → Option ℕ
unfolding index_of
index_of_frame_boundary buffer =
    earlier (index_of (codes "\n\n") buffer) (index_of (codes "\r\n\r\n") buffer)

-- What follows one match of \r?\n at the start.
unfoldable pub after_newline : Text → Option Text
after_newline [] = none
after_newline (c ∷ []) = if c == b'\n' then some [] else none
after_newline (c ∷ d ∷ s) =
    if c == b'\n'
    then some (d ∷ s)
    else if c == b'\r'
    then (if d == b'\n' then some s else none)
    else none

-- s.replace(/^(\r?\n){2}/, '')
unfoldable pub strip_boundary : Text → Text
unfolding after_newline
strip_boundary s = elim (after_newline s) [
  | none ↦ s
  | some t ↦ elim (after_newline t) [ none ↦ s | some u ↦ u ]
]
