-- ===== src/Config/Pilot/Validation/Valid.antt =====
-- Which configurations pass the validation.
use eks_any_model_hosting.Common.{
  ℕ, zero, suc, ◌-◌, ◌≡◌, ==-refl, text_eq_refl, ◌||◌, ◌&&◌, ◌≢◌, ◌↔◌, inl, inr, refl, ap, sym, ◌∙◌,
  Bool, true, false, not, List, [], ◌∷◌, ◌++◌, Text, codes, All, any, length, drop, take,
  length-append, text_eq_iff, is_nil, ◌==◌, arith, Bool-cases,
}
use eks_any_model_hosting.Config.Pilot.{Numbers, PilotEnvironmentConfig}
use eks_any_model_hosting.Config.Pilot.Validation.{
  complaints, checks_of, errors_of, ends_with, is_unpinned, is_absent,
}
use eks_any_model_hosting.Config.Pilot.Validation.Patterns.{
  IsCidr, is_cidr-IsCidr, IsEnvironmentName, is_environment_name-IsEnvironmentName, IsEksVersion,
  is_eks_version-IsEksVersion,
}

-- What stands behind the last colon of an image, which is a tag where it has no slash, and else the
-- path behind the port of a registry, and the image has no tag.
pub data IsMarked (image : Text) : Type 0 where
  tagged :
      (name tag : Text)
      → image ≡ name ++ b':' ∷ tag
      → any (λ c. c == b':') tag ≡ false
      → any (λ c. c == b'/') tag ≡ false
      → IsMarked image
  untagged_with_port :
      (host path : Text)
      → image ≡ host ++ b':' ∷ path
      → any (λ c. c == b':') path ≡ false
      → any (λ c. c == b'/') path ≡ true
      → IsMarked image

-- The validation takes an image with a tag but `latest`, and an untagged image of a registry with a
-- port.
pub record IsTaken (image : Text) : Type 0 where
  pub marked : IsMarked image
  pub fixed : (s : Text) → image ≢ s ++ codes ":latest"

pub record IsBetween {Number : Type 0} (numbers : Numbers Number) (lo hi : Text) (n : Number)
    : Type 0 where
  pub above : numbers.less n (numbers.from_text lo) ≡ false
  pub below : numbers.less (numbers.from_text hi) n ≡ false

pub record IsValid {Number : Type 0} (numbers : Numbers Number) (c : PilotEnvironmentConfig Number)
    : Type 0 where
  pub environment : IsEnvironmentName c.environment_name
  pub network : IsCidr c.vpc_cidr
  pub gateways : IsBetween numbers (codes "1") (codes "3") c.nat_gateway_count
  pub version : IsEksVersion c.kubernetes_version
  pub cpu_types : c.cpu_node_instance_types ≢ []
  pub gpu_types : c.gpu_node_instance_types ≢ []
  pub output : IsBetween numbers (codes "1") (codes "4096") c.max_output_tokens
  pub context : numbers.less c.max_model_length c.max_output_tokens ≡ false
  pub memory_above :
      numbers.less_eq c.gpu_memory_utilization (numbers.from_text (codes "0")) ≡ false
  pub memory_below : numbers.less (numbers.from_text (codes "1")) c.gpu_memory_utilization ≡ false
  pub image : IsTaken c.vllm_image
  pub secret :
      c.enable_hugging_face_token_secret ≡ true → is_absent c.hugging_face_secret_name ≡ false
  pub callbacks : c.cognito_callback_urls ≢ []
  pub retention : numbers.less c.log_retention_days (numbers.from_text (codes "1")) ≡ false

complaints_iff :
    (checks : List (Bool × Text)) → (complaints checks ≡ []) ↔ All (λ check. check.0 ≡ false) checks
unfolding complaints
complaints_iff [] = (λ h. tt, λ h. refl)
complaints_iff ((true, m) ∷ checks) = ground arith
complaints_iff ((false, m) ∷ checks) =
    (λ h. (refl, (complaints_iff checks).0 h), λ h. (complaints_iff checks).1 h.1)

take-drop : (n : ℕ) (s : Text) → take n s ++ drop n s ≡ s
take-drop zero s = refl
take-drop (suc n) [] = refl
take-drop (suc n) (c ∷ s) = ap (◌∷◌ c) (take-drop n s)

drop-length : (s t : Text) → drop (length s) (s ++ t) ≡ t
drop-length [] t = refl
drop-length (c ∷ s) t = drop-length s t

ends_with-append : (s p : Text) → ends_with p (s ++ p) ≡ true
ends_with-append s p =
    let start : length (s ++ p) - length p ≡ length s = omega (arith, length-append s p) in
    rw (start, drop-length s p) (text_eq_refl p)

ends_with-split : (p s : Text) → ends_with p s ≡ true → s ≡ take (length s - length p) s ++ p
ends_with-split p s h =
    let n = length s - length p in
    sym (take-drop n s) ∙ ap (◌++◌ (take n s)) ((text_eq_iff (drop n s) p).0 h)

-- Where a character stands in a text.
any-append : (c : ℕ) (s t : Text) → any (λ d. d == c) (s ++ c ∷ t) ≡ true
any-append c [] t = ground (arith, ==-refl c)
any-append c (d ∷ s) t = ground (arith, any-append c s t)

-- Where it stands for the last time.
any-split :
    (c : ℕ) (s : Text)
    → any (λ d. d == c) s ≡ true
    → (t : Text) × (u : Text) × (s ≡ t ++ c ∷ u) × (any (λ d. d == c) u ≡ false)
any-split c [] h = ground (arith, h)
any-split c (d ∷ s) h = elim (Bool-cases (any (λ x. x == c) s)) [
  | inl e ↦ let (t, u, whole, last) = any-split c s e in (d ∷ t, u, ap (◌∷◌ d) whole, last)
  | inr e ↦ let here : d ≡ c = ground (arith, h, e) in ([], s, ap (λ x. x ∷ s) here, e)
]

any-IsMarked : (image : Text) → (any (λ c. c == b':') image ≡ true) ↔ IsMarked image
any-IsMarked image = (
  λ h.
      let (t, u, whole, last) = any-split b':' image h in
      elim (Bool-cases (any (λ c. c == b'/') u)) [
        | inl e ↦ untagged_with_port t u whole last e
        | inr e ↦ tagged t u whole last e
      ],
  λ m. elim m [
    | tagged name tag e last plain ↦ rw e (any-append b':' name tag)
    | untagged_with_port host path e last plain ↦ rw e (any-append b':' host path)
  ],
)

is_unpinned-IsTaken : (image : Text) → (is_unpinned image ≡ false) ↔ IsTaken image
unfolding is_unpinned
is_unpinned-IsTaken image = (
  λ h. record {
    marked = (any-IsMarked image).0 (ground (arith, h));
    fixed = λ s e.
        let ends : ends_with (codes ":latest") image ≡ true =
          rw e (ends_with-append s (codes ":latest")) in
        ground (arith, h, ends);
  },
  λ p.
      let has : any (λ c. c == b':') image ≡ true = (any-IsMarked image).1 p.marked in
      elim (Bool-cases (ends_with (codes ":latest") image)) [
        | inl e ↦ absurd (p.fixed _ (ends_with-split (codes ":latest") image e))
        | inr e ↦ rw (e, has) refl
      ],
)

is_nil-filled : (xs : List Text) → (is_nil xs ≡ false) ↔ (xs ≢ [])
is_nil-filled [] = ground arith
is_nil-filled (x ∷ xs) = (λ h e. cc, λ h. refl)

not-false : (b : Bool) → (not b ≡ false) ↔ (b ≡ true)
not-false true = ground arith
not-false false = ground arith

or_false : (a b : Bool) → ((a || b) ≡ false) ↔ ((a ≡ false) × (b ≡ false))
or_false a b = ground arith

and_false : (a b : Bool) → ((a && b) ≡ false) ↔ (a ≡ true → b ≡ false)
and_false true b = (λ h _. h, λ h. h refl)
and_false false b = (λ h e. ground (arith, e), λ h. refl)

module _ {Number : Type 0} (numbers : Numbers Number) (c : PilotEnvironmentConfig Number) where
  checks-IsValid : All (λ check. check.0 ≡ false) (checks_of numbers c) → IsValid numbers c
  checks-IsValid
        (h1, (h2, (h3, (h4, (h5, (h6, (h7, (h8, (h9, (h10, (h11, (h12, (h13, _))))))))))))) =
      let gateways = (or_false _ _).0 h3 in
      let output = (or_false _ _).0 h7 in
      let memory = (or_false _ _).0 h9 in
      record {
        environment = (is_environment_name-IsEnvironmentName _).0 ((not-false _).0 h1);
        network = (is_cidr-IsCidr _).0 ((not-false _).0 h2);
        gateways = record { above = gateways.0; below = gateways.1 };
        version = (is_eks_version-IsEksVersion _).0 ((not-false _).0 h4);
        cpu_types = (is_nil-filled _).0 h5;
        gpu_types = (is_nil-filled _).0 h6;
        output = record { above = output.0; below = output.1 };
        context = h8;
        memory_above = memory.0;
        memory_below = memory.1;
        image = (is_unpinned-IsTaken _).0 h10;
        secret = (and_false _ _).0 h11;
        callbacks = (is_nil-filled _).0 h12;
        retention = h13;
      }

  IsValid-checks : IsValid numbers c → All (λ check. check.0 ≡ false) (checks_of numbers c)
  IsValid-checks v = (
    (not-false _).1 ((is_environment_name-IsEnvironmentName _).1 v.environment),
    (
      (not-false _).1 ((is_cidr-IsCidr _).1 v.network),
      (
        (or_false _ _).1 (v.gateways.above, v.gateways.below),
        (
          (not-false _).1 ((is_eks_version-IsEksVersion _).1 v.version),
          (
            (is_nil-filled _).1 v.cpu_types,
            (
              (is_nil-filled _).1 v.gpu_types,
              (
                (or_false _ _).1 (v.output.above, v.output.below),
                (
                  v.context,
                  (
                    (or_false _ _).1 (v.memory_above, v.memory_below),
                    (
                      (is_unpinned-IsTaken _).1 v.image,
                      (
                        (and_false _ _).1 v.secret,
                        ((is_nil-filled _).1 v.callbacks, (v.retention, tt)),
                      ),
                    ),
                  ),
                ),
              ),
            ),
          ),
        ),
      ),
    ),
  )

  -- The validation finds no error exactly in the configurations whose environment name, CIDR block,
  -- cluster version and image have the described form, whose numbers lie in their bounds, whose
  -- lists of instance types and of callback URLs are not empty, that name a secret where one is
  -- wanted, and whose image has a tag but `latest`, or no tag behind a registry with a port.
  pub errors_of-IsValid : (errors_of numbers c ≡ []) ↔ IsValid numbers c
  unfolding errors_of
  errors_of-IsValid =
      let none_wrong = complaints_iff (checks_of numbers c) in
      (λ h. checks-IsValid (none_wrong.0 h), λ v. none_wrong.1 (IsValid-checks v))
