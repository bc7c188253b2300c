-- ===== src/Auth/Tokens.antt =====
-- The tab's state that spa/src/auth/cognito.ts works on, and its token storage. JSON.stringify and
-- JSON.parse on stored tokens, `Date.now` and the token endpoint are parameters.
pub mod Refresh
use eks_any_model_hosting.Common.{
  ℕ, ◌+◌, ◌-◌, ◌*◌, Bool, List, [], ◌∷◌, Option, none, some, Text, codes, is_nil, leb,
  if◌then◌else◌,
}
use eks_any_model_hosting.Sse.{Thrown}

pub record StoredTokens : Type 0 where
  pub access_token : Text
  pub id_token : Text
  pub refresh_token : Option Text
  pub expires_at : ℕ
  pub token_type : Text

pub record CognitoTokenResponse : Type 0 where
  pub access_token : Text
  pub id_token : Text
  pub refresh_token : Option Text
  pub expires_in : ℕ
  pub token_type : Option Text

-- sessionStorage under the three keys of the source.
pub record SessionStorage : Type 0 where
  pub pkce_verifier : Option Text
  pub oauth_state : Option Text
  pub tokens : Option Text

-- The query parameters of the address bar that the source reads and deletes; it leaves the path,
-- the hash and the other parameters alone.
pub record Query : Type 0 where
  pub code : Option Text
  pub state : Option Text
  pub error : Option Text
  pub error_description : Option Text

-- `assigned` holds the URLs given to `location.assign`, the last one first.
pub record Tab : Type 0 where
  pub storage : SessionStorage
  pub query : Query
  pub assigned : List Text

-- An awaited function's value or its exception.
pub data Awaited (A : Type 0) : Type 0 where
  resolved : A → Awaited A
  raised : Thrown → Awaited A

-- What the token endpoint answers: the fetch or `json()` rejects, a status that is not ok with the
-- text read from its body, or a success.
pub data TokenReply : Type 0 where
  lost : Thrown → TokenReply
  refused : ℕ → Text → TokenReply
  granted : CognitoTokenResponse → TokenReply

abbrev pub TokenForm : Type 0
TokenForm = List (Text × Text)

-- `v && …` on a string that may be missing: an empty string is falsy, too.
abbrev pub truthy : Option Text → Option Text
truthy none = none
truthy (some s) = if is_nil s then none else some s

abbrev pub or_text : Option Text → Text → Text
or_text o d = elim (truthy o) [ none ↦ d | some s ↦ s ]

unfoldable pub clear_tokens : Tab → Tab
clear_tokens tab = record tab {
  storage = record { pkce_verifier = none; oauth_state = none; tokens = none };
}

-- `toStoredTokens`, with the time of `Date.now()` in milliseconds.
unfoldable pub to_stored_tokens : ℕ → CognitoTokenResponse → Option Text → StoredTokens
to_stored_tokens now res previous_refresh = record {
  access_token = res.access_token;
  id_token = res.id_token;
  refresh_token = elim res.refresh_token [ none ↦ previous_refresh | some r ↦ some r ];
  expires_at = now + res.expires_in * 1000;
  token_type = or_text res.token_type (codes "Bearer");
}

abbrev pub expiry_skew_seconds : ℕ
expiry_skew_seconds = 60

-- `Date.now() >= expiresAt - skew`; where the difference is negative both sides of the test hold.
unfoldable pub is_expiring_soon : ℕ → StoredTokens → Bool
is_expiring_soon now tokens = leb (tokens.expires_at - expiry_skew_seconds * 1000) now

-- What a call of the client depends on besides the tab: the configuration, the clock when a reply
-- is stored, and the endpoint.
pub record Cognito : Type 0 where
  pub client_id : Text
  pub domain : Text
  pub redirect_sign_in : Text
  pub redirect_sign_out : Text
  pub stringify : StoredTokens → Text
  pub parse : Text → Option StoredTokens
  pub encode_form : TokenForm → Text
  pub show : ℕ → Text
  pub now : ℕ
  pub later : ℕ
  pub token_endpoint : TokenForm → TokenReply

module _ (env : Cognito) where
  -- `parse` is `none` where JSON.parse throws or gives null.
  unfoldable pub load_tokens : Tab → Option StoredTokens
  load_tokens tab = elim (truthy tab.storage.tokens) [ none ↦ none | some raw ↦ env.parse raw ]

  unfoldable pub save_tokens : StoredTokens → Tab → Tab
  save_tokens tokens tab = record tab {
    storage = record tab.storage { tokens = some (env.stringify tokens) };
  }
