-- ===== src/Cluster/Policies/Matrix.antt =====
-- The traffic that the policies of the application's namespace permit.
use eks_any_model_hosting.Common.{
  ℕ, ◌≡◌, refl, Bool, true, false, ◌&&◌, ◌||◌, Bool-cases, inl, inr, Option, none, some, Text,
  codes, text_eq, text_eq_iff, ◌==◌, if◌then◌else◌,
}
use eks_any_model_hosting.Cluster.Policies.{any_namespace, pods, network_policies, app}
use eks_any_model_hosting.Cluster.Names.{app_namespace}
use eks_any_model_hosting.Cluster.Policies.Traffic.{
  is_peer, Pod, End, pod, outside, Direction, inbound, outbound, is_permitted, label, has_value,
}

-- The pod carries the label of an application, in the application's namespace.
abbrev pub is_app : Text → Pod → Bool
is_app name p = has_value name (label (codes "app") p.labels)

abbrev pub is_app_end : Text → End → Bool
is_app_end name outside = false
is_app_end name (pod p) = text_eq p.namespace app_namespace && is_app name p

abbrev pub is_pod : End → Bool
is_pod (pod p) = true
is_pod outside = false

abbrev pub is_tcp : Text → ℕ → ℕ → Bool
is_tcp protocol port wanted = text_eq (codes "TCP") protocol && wanted == port

abbrev pub is_dns : End → Text → ℕ → Bool
is_dns other protocol port =
    is_pod other && ((text_eq (codes "UDP") protocol && 53 == port) || is_tcp protocol port 53)

-- The matrix that the comment on `applyNetworkPolicies` describes.
abbrev pub matrix : Direction → Pod → End → Text → ℕ → Bool
matrix inbound p other protocol port =
    if is_app (codes "vllm") p
    then is_app_end (codes "fastapi") other && is_tcp protocol port 8000
    else is_app (codes "fastapi") p && is_tcp protocol port 8080
matrix outbound p other protocol port =
    if is_app (codes "vllm") p
    then is_dns other protocol port || is_tcp protocol port 443
    else if is_app (codes "fastapi") p
    then is_dns other protocol port
      || ((is_app_end (codes "vllm") other && is_tcp protocol port 8000)
          || is_tcp protocol port 443)
    else true

one_value :
    (o : Option Text) → has_value (codes "vllm") o ≡ true → has_value (codes "fastapi") o ≡ false
unfolding text_eq
one_value none h = refl
one_value (some s) h =
    let named : s ≡ codes "vllm" = (text_eq_iff s (codes "vllm")).0 h in rw named refl

exclusive : (p : Pod) → is_app (codes "vllm") p ≡ true → is_app (codes "fastapi") p ≡ false
exclusive p h = one_value (label (codes "app") p.labels) h

ii : text_eq (codes "Ingress") (codes "Ingress") ≡ true
unfolding text_eq
ii = refl

ee : text_eq (codes "Egress") (codes "Egress") ≡ true
unfolding text_eq
ee = refl

ie : text_eq (codes "Ingress") (codes "Egress") ≡ false
unfolding text_eq
ie = refl

ei : text_eq (codes "Egress") (codes "Ingress") ≡ false
unfolding text_eq
ei = refl

or_nothing : (b : Bool) → (b || false) ≡ b
or_nothing true = refl
or_nothing false = refl

and_nothing : (b : Bool) → (b && true) ≡ b
and_nothing true = refl
and_nothing false = refl

is_peer-app :
    (name : Text) (other : End)
    → is_peer app_namespace other (pods (app name)) ≡ is_app_end name other
is_peer-app name (pod q) = simp (and_nothing (is_app name q))
is_peer-app name outside = refl

is_peer-any : (other : End) → is_peer app_namespace other any_namespace ≡ is_pod other
is_peer-any (pod q) = refl
is_peer-any outside = refl

ruleset closed = (ii, ee, ie, ei, or_nothing, is_peer-app, is_peer-any)

module _ (p : Pod) (other : End) (protocol : Text) (port : ℕ)
    (inside : text_eq p.namespace app_namespace ≡ true) where
  abbrev permitted : Direction → Bool
  permitted d = is_permitted network_policies d p other protocol port

  inbound-vllm :
      is_app (codes "vllm") p ≡ true
      → permitted inbound ≡ (is_app_end (codes "fastapi") other && is_tcp protocol port 8000)
  unfolding network_policies
  inbound-vllm v = simp (inside, v, exclusive p v, closed)

  inbound-fastapi :
      is_app (codes "vllm") p ≡ false
      → is_app (codes "fastapi") p ≡ true
      → permitted inbound ≡ is_tcp protocol port 8080
  unfolding network_policies
  inbound-fastapi v f = simp (inside, v, f, closed)

  inbound-other :
      is_app (codes "vllm") p ≡ false
      → is_app (codes "fastapi") p ≡ false
      → permitted inbound ≡ false
  unfolding network_policies
  inbound-other v f = simp (inside, v, f, closed)

  outbound-vllm :
      is_app (codes "vllm") p ≡ true
      → permitted outbound ≡ (is_dns other protocol port || is_tcp protocol port 443)
  unfolding network_policies
  outbound-vllm v = simp (inside, v, exclusive p v, closed)

  outbound-fastapi :
      is_app (codes "vllm") p ≡ false
      → is_app (codes "fastapi") p ≡ true
      → permitted outbound ≡ (
          is_dns other protocol port
          || ((is_app_end (codes "vllm") other && is_tcp protocol port 8000)
              || is_tcp protocol port 443))
  unfolding network_policies
  outbound-fastapi v f = simp (inside, v, f, closed)

  outbound-other :
      is_app (codes "vllm") p ≡ false
      → is_app (codes "fastapi") p ≡ false
      → permitted outbound ≡ true
  unfolding network_policies
  outbound-other v f = simp (inside, v, f, closed)

  -- In the application's namespace, the model's pods take connections only from the service's pods,
  -- on TCP port 8000, the service's pods only on TCP port 8080, and every other pod none. The
  -- model's pods may only resolve names and open HTTPS connections, the service's pods these and
  -- the model's port; other pods may connect to anything.
  pub is_permitted-matrix :
      (d : Direction)
      → is_permitted network_policies d p other protocol port ≡ matrix d p other protocol port
  is_permitted-matrix inbound = elim (Bool-cases (is_app (codes "vllm") p)) [
    | inl v ↦ simp (v, inbound-vllm v)
    | inr v ↦ elim (Bool-cases (is_app (codes "fastapi") p)) [
      | inl f ↦ simp (v, f, inbound-fastapi v f)
      | inr f ↦ simp (v, f, inbound-other v f)
    ]
  ]
  is_permitted-matrix outbound = elim (Bool-cases (is_app (codes "vllm") p)) [
    | inl v ↦ simp (v, outbound-vllm v)
    | inr v ↦ elim (Bool-cases (is_app (codes "fastapi") p)) [
      | inl f ↦ simp (v, f, outbound-fastapi v f)
      | inr f ↦ simp (v, f, outbound-other v f)
    ]
  ]
