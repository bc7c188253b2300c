-- ===== src/Hosting/Monitoring/Retention.antt =====
-- `mapRetention` of lib/constructs/observability.ts: how long the log groups keep their events.
use eks_any_model_hosting.Common.{
  ◌≡◌, ◌≢◌, refl, sym, ◌∙◌, inl, inr, Bool-cases, arith, List, [], ◌∷◌, Option, none, some, Text,
  codes, text_eq, text_eq_iff, if◌then◌else◌, All,
}
use eks_any_model_hosting.Config.Pilot.{Numbers}

pub data RetentionDays : Type 0 where
  one_day : RetentionDays
  three_days : RetentionDays
  five_days : RetentionDays
  one_week : RetentionDays
  two_weeks : RetentionDays
  one_month : RetentionDays
  two_months : RetentionDays
  three_months : RetentionDays

-- The members of `known`, by their keys.
abbrev pub known : List (Text × RetentionDays)
known =
    (codes "1", one_day)
    ∷ (codes "3", three_days)
    ∷ (codes "5", five_days)
    ∷ (codes "7", one_week)
    ∷ (codes "14", two_weeks)
    ∷ (codes "30", one_month)
    ∷ (codes "60", two_months)
    ∷ (codes "90", three_months)
    ∷ []

abbrev pub member : Text → List (Text × RetentionDays) → Option RetentionDays
member key [] = none
member key ((k, v) ∷ members) = if text_eq k key then some v else member key members

abbrev pub or_two_weeks : Option RetentionDays → RetentionDays
or_two_weeks none = two_weeks
or_two_weeks (some v) = v

module _ {Number : Type 0} (numbers : Numbers Number) where
  -- An object's key is the text of the number.
  unfoldable pub map_retention : Number → RetentionDays
  map_retention days = or_two_weeks (member (numbers.show days) known)

-- The number of days that a constant of the CDK stands for, as a number's text.
abbrev pub days_of : RetentionDays → Text
days_of one_day = codes "1"
days_of three_days = codes "3"
days_of five_days = codes "5"
days_of one_week = codes "7"
days_of two_weeks = codes "14"
days_of one_month = codes "30"
days_of two_months = codes "60"
days_of three_months = codes "90"

-- Some days are kept as they are, or the key is none of the members' and two weeks are kept.
pub data Retained (key : Text) (members : List (Text × RetentionDays))
    : RetentionDays → Type 0 where
  kept : {r : RetentionDays} → key ≡ days_of r → Retained key members r
  defaulted : All (λ m. m.0 ≢ key) members → Retained key members two_weeks

cons-Retained :
    {key k : Text} {v r : RetentionDays} {members : List (Text × RetentionDays)}
    → k ≢ key
    → Retained key members r
    → Retained key ((k, v) ∷ members) r
cons-Retained other (kept e) = kept e
cons-Retained other (defaulted others) = defaulted (other, others)

member-Retained :
    (key : Text) (members : List (Text × RetentionDays))
    → All (λ m. m.0 ≡ days_of m.1) members
    → Retained key members (or_two_weeks (member key members))
member-Retained key [] _ = defaulted tt
member-Retained key ((k, v) ∷ members) (e, es) = elim (Bool-cases (text_eq k key)) [
  | inl same ↦ rw same (kept (sym ((text_eq_iff k key).0 same) ∙ e))
  | inr other ↦ rw other (
      cons-Retained (λ same. ground (arith, same, other, text_eq_iff k key))
        (member-Retained key members es))
]

module _ {Number : Type 0} (numbers : Numbers Number) where
  -- The log groups keep their events for the configured number of days, where it is one of 1, 3, 5,
  -- 7, 14, 30, 60 and 90, and for 14 days with every other number.
  map_retention-Retained :
      (days : Number) → Retained (numbers.show days) known (map_retention numbers days)
  unfolding map_retention
  map_retention-Retained days =
      member-Retained (numbers.show days) known
        (refl, (refl, (refl, (refl, (refl, (refl, (refl, (refl, tt))))))))
