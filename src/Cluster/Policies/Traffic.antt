-- ===== src/Cluster/Policies/Traffic.antt =====
-- What network policies mean, as Kubernetes documents it: a pod that no policy of a direction
-- selects takes all traffic of that direction; another one takes what a rule of a policy that
-- selects it allows.
use eks_any_model_hosting.Common.{
  ℕ, Bool, true, false, ◌&&◌, List, [], ◌∷◌, Option, none, some, Text, codes, text_eq, any, all,
  ◌==◌, if◌then◌else◌,
}
use eks_any_model_hosting.Cluster.Policies.{Peer, any_namespace, pods, Rule, NetworkPolicy}

pub record Pod : Type 0 where
  pub namespace : Text
  pub labels : List (Text × Text)

-- The other end of a connection.
pub data End : Type 0 where
  pod : Pod → End
  outside : End

pub data Direction : Type 0 where
  inbound outbound : Direction

abbrev pub label : Text → List (Text × Text) → Option Text
label key [] = none
label key ((k, v) ∷ labels) = if text_eq k key then some v else label key labels

abbrev pub has_value : Text → Option Text → Bool
has_value value none = false
has_value value (some v) = text_eq v value

abbrev pub is_selected : List (Text × Text) → Pod → Bool
is_selected selector p = all (λ s. has_value s.1 (label s.0 p.labels)) selector

abbrev pub is_peer : Text → End → Peer → Bool
is_peer namespace (pod p) any_namespace = true
is_peer namespace (pod p) (pods selector) = text_eq p.namespace namespace && is_selected selector p
is_peer namespace outside _ = false

abbrev pub allows_peers : Text → End → Option (List Peer) → Bool
allows_peers namespace other none = true
allows_peers namespace other (some peers) = any (is_peer namespace other) peers

abbrev pub allows : Text → End → Text → ℕ → Rule → Bool
allows namespace other protocol port rule =
    allows_peers namespace other rule.peers
    && any (λ p. text_eq p.protocol protocol && p.port == port) rule.ports

abbrev pub rules_of : Direction → NetworkPolicy → List Rule
rules_of inbound policy = policy.ingress
rules_of outbound policy = policy.egress

abbrev pub type_of : Direction → Text
type_of inbound = codes "Ingress"
type_of outbound = codes "Egress"

abbrev pub applies : Direction → Pod → NetworkPolicy → Bool
applies d p policy =
    text_eq p.namespace policy.namespace
    && is_selected policy.pod_selector p
    && any (λ t. text_eq t (type_of d)) policy.policy_types

-- Whether the policies let a pod take a connection to or from the other end, on a port.
abbrev pub is_permitted : List NetworkPolicy → Direction → Pod → End → Text → ℕ → Bool
is_permitted policies d p other protocol port =
    if any (applies d p) policies
    then any
        (λ policy.
          applies d p policy
          && any (allows policy.namespace other protocol port) (rules_of d policy))
        policies
    else true
