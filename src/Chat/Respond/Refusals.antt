-- ===== src/Chat/Respond/Refusals.antt =====
-- Which failures before the stream `onError` tells apart.
use eks_any_model_hosting.Common.{
  ℕ, ◌≡◌, ◌≢◌, refl, true, false, Option, none, some, Text, codes, ◌⊎◌, inl, inr, Bool-cases,
  Option-cases, arith, ◌==◌, List,
}
use eks_any_model_hosting.Json.{Json}
use eks_any_model_hosting.Sse.{
  StreamErrorKind, unauthorized, rate_limited, network, server, aborted, StreamError, Thrown,
  Outcome,
}
use eks_any_model_hosting.Sse.Reader.{Round}
use eks_any_model_hosting.Chat.Respond.{
  Response, Fetched, rejected, responded, is_abort, thrown_error, to_http_error, reporting,
  stream_error, on_body, on_fetched,
}

-- Why no stream is read, with the kind and the status that `onError` is told.
pub data Refuses {Chunk : Type 0} : Fetched Chunk → StreamErrorKind → Option ℕ → Type 0 where
  cancelled : {e : Thrown} → is_abort e ≡ true → Refuses (rejected e) aborted none
  unreachable : {e : Thrown} → is_abort e ≡ false → Refuses (rejected e) network none
  expired :
      {res : Response Chunk}
      → res.ok ≡ false
      → res.status ≡ 401
      → Refuses (responded res) unauthorized (some 401)
  throttled :
      {res : Response Chunk}
      → res.ok ≡ false
      → res.status ≡ 429
      → Refuses (responded res) rate_limited (some 429)
  failed :
      {res : Response Chunk}
      → res.ok ≡ false
      → res.status ≢ 401
      → res.status ≢ 429
      → Refuses (responded res) server (some res.status)
  empty :
      {res : Response Chunk} → res.ok ≡ true → res.body ≡ none → Refuses (responded res) server none

-- `onError` is called with one error, of the right kind.
pub record Reports {Chunk : Type 0} (f : Fetched Chunk) (o : Outcome) : Type 0 where
  pub problem : StreamError
  pub refuses : Refuses f problem.kind problem.status
  pub reported : o ≡ reporting problem

pub record Streams {Chunk : Type 0} (f : Fetched Chunk) : Type 0 where
  pub response : Response Chunk
  pub rounds : List (Round Chunk)
  pub fetched : f ≡ responded response
  pub is_ok : response.ok ≡ true
  pub has_body : response.body ≡ some rounds

module _ {Chunk : Type 0} where
  thrown_error-Refuses :
      (fallback : Text) (e : Thrown)
      → Refuses {Chunk = Chunk}
          (rejected e)
          (thrown_error fallback e).kind
          (thrown_error fallback e).status
  unfolding thrown_error
  thrown_error-Refuses fallback e = elim (Bool-cases (is_abort e)) [
    | inl yes_abort ↦ rw yes_abort (cancelled yes_abort)
    | inr other ↦ rw other (unreachable other)
  ]

  to_http_error-Refuses :
      (show : ℕ → Text) (res : Response Chunk)
      → res.ok ≡ false
      → Refuses (responded res) (to_http_error show res).kind (to_http_error show res).status
  unfolding to_http_error
  to_http_error-Refuses show res not_ok = elim (Bool-cases (res.status == 401)) [
    | inl e ↦ rw e (expired not_ok (ground arith))
    | inr n ↦ elim (Bool-cases (res.status == 429)) [
      | inl e ↦ rw (n, e) (throttled not_ok (ground arith))
      | inr m ↦ rw (n, m) (failed not_ok (ground arith) (ground arith))
    ]
  ]

module _ (json_parse : Text → Option Json) (show : ℕ → Text) {Chunk State : Type 0}
    (decode : State → Chunk → Text × State) (fresh : State) where
  on_response-Reports :
      (res : Response Chunk)
      → Reports (responded res) (on_fetched json_parse show decode fresh (responded res))
        ⊎ Streams (responded res)
  unfolding on_fetched
  on_response-Reports res = elim (Bool-cases res.ok) [
    | inr not_ok ↦ inl (record {
      problem = to_http_error show res;
      refuses = to_http_error-Refuses show res not_ok;
      reported = simp not_ok;
    })
    | inl ok ↦ elim (Option-cases res.body) [
      | inl e ↦ inl (record {
        problem = stream_error server (codes "Empty response body from server.");
        refuses = empty ok e;
        reported = simp (ok, e) (unfold on_body in refl);
      })
      | inr (rounds, e) ↦
          inr (record { response = res; rounds = rounds; fetched = refl; is_ok = ok; has_body = e })
    ]
  ]

  -- Unless the response is a success with a body, `onError` is called exactly once, nothing else is
  -- called, and its error's kind and status say why: an abort, a rejected fetch, 401, 429, any other
  -- status, or a missing body.
  pub on_fetched-Reports :
      (f : Fetched Chunk) → Reports f (on_fetched json_parse show decode fresh f) ⊎ Streams f
  unfolding on_fetched
  on_fetched-Reports (rejected e) =
      inl (record { problem = _; refuses = thrown_error-Refuses _ e; reported = refl })
  on_fetched-Reports (responded res) = on_response-Reports res
