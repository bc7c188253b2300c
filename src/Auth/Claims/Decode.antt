-- ===== src/Auth/Claims/Decode.antt =====
-- What `decodeJwt` reads from a token that an issuer wrote.
use eks_any_model_hosting.Json.{Json}
