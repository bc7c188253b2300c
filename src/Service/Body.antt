-- ===== src/Service/Body.antt =====
-- The caps on a request's body in services/api/app/middleware.py: the declared length in
-- `RequestContextMiddleware`, and `BodySizeLimitMiddleware`. A body arrives in chunks; int() of a
-- header is a parameter, `none` its ValueError or a negative number.
use eks_any_model_hosting.Common.{
  ℕ, ◌+◌, ◌<◌, ◌≤◌, ltb, ◌≡◌, ◌↔◌, Bool, true, false, ◌||◌, List, [], ◌∷◌, Option, none, some, Text,
  codes, text_eq, length, arith, if◌then◌else◌,
}

abbrev pub max_body_bytes : ℕ
max_body_bytes = 262144

-- What the routes receive: the response 413 in their place, or all chunks of the body.
pub data Delivery : Type 0 where
  too_large : Delivery
  delivered : List Text → Delivery

abbrev pub is_over : Option ℕ → Bool
is_over none = false
is_over (some n) = ltb max_body_bytes n

abbrev pub declares_over : (Text → Option ℕ) → Option Text → Bool
declares_over parse_int none = false
declares_over parse_int (some content_length) = is_over (parse_int content_length)

abbrev pub first_size : List Text → ℕ
first_size [] = 0
first_size (chunk ∷ chunks) = length chunk

abbrev pub body_size : List Text → ℕ
body_size [] = 0
body_size (chunk ∷ chunks) = length chunk + body_size chunks

unfoldable pub is_capped : Text → Bool
unfolding text_eq
is_capped method =
    text_eq method (codes "POST") || text_eq method (codes "PUT") || text_eq method (codes "PATCH")

-- `BodySizeLimitMiddleware`: the chunks behind the first are counted, and delivered all the same.
unfoldable pub limit_body : Text → List Text → Delivery
unfolding is_capped
limit_body method chunks =
    if is_capped method
    then if ltb max_body_bytes (first_size chunks) then too_large else delivered chunks
    else delivered chunks

unfoldable pub receive_body : (Text → Option ℕ) → Option Text → Text → List Text → Delivery
unfolding limit_body
receive_body parse_int content_length method chunks =
    if declares_over parse_int content_length then too_large else limit_body method chunks

first_size-le : (chunks : List Text) → first_size chunks ≤ body_size chunks
first_size-le [] = omega arith
first_size-le (chunk ∷ chunks) = omega arith

-- Of a request that the middleware caps, a body with its true length declared is answered by 413
-- exactly where it is larger than 256 KiB. Without a declared length that depends on the size of the
-- first chunk alone.
pub receive_body-too_large :
    (parse_int : Text → Option ℕ) (content_length method : Text) (chunks : List Text)
    → is_capped method ≡ true
    → parse_int content_length ≡ some (body_size chunks)
    → ((receive_body parse_int (some content_length) method chunks ≡ too_large)
        ↔ (max_body_bytes < body_size chunks))
      × ((receive_body parse_int none method chunks ≡ too_large)
          ↔ (max_body_bytes < first_size chunks))
unfolding receive_body
receive_body-too_large parse_int content_length method chunks capped honest =
    rw (honest, capped) (ground (arith, first_size-le chunks), ground arith)
