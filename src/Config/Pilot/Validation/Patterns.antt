-- ===== src/Config/Pilot/Validation/Patterns.antt =====
-- The languages of the regular expressions in lib/config/validation.ts.
use eks_any_model_hosting.Common.{
  ℕ, ◌≤◌, ◌≡◌, ◌≢◌, ◌↔◌, ◌⊎◌, inl, inr, refl, ap, ◌∙◌, subst, Bool, true, List, [], ◌∷◌, ◌++◌, Text,
  codes, All, all, length, split, join, cons_head, split-append, split_plain, All-append,
  and-eq-true_iff, Bool-cases, arith, ◌==◌,
}
use eks_any_model_hosting.Config.Pilot.Validation.{
  is_digit, is_number, is_name_char, is_environment_name, are_octets, are_cidr_parts, is_cidr,
  is_eks_version,
}

abbrev pub IsBetween : ℕ → ℕ → ℕ → Type 0
IsBetween lo hi c = (lo ≤ c) × (c ≤ hi)

abbrev pub IsDigit : ℕ → Type 0
IsDigit c = IsBetween b'0' b'9' c

-- \d{1,most}
pub record IsNumber (most : ℕ) (s : Text) : Type 0 where
  pub digits : All IsDigit s
  pub some : 1 ≤ length s
  pub few : length s ≤ most

pub record IsAddress (s : Text) : Type 0 where
  pub a : Text
  pub b : Text
  pub c : Text
  pub d : Text
  pub first : IsNumber 3 a
  pub second : IsNumber 3 b
  pub third : IsNumber 3 c
  pub fourth : IsNumber 3 d
  pub whole : s ≡ a ++ b'.' ∷ (b ++ b'.' ∷ (c ++ b'.' ∷ d))

pub record IsCidr (s : Text) : Type 0 where
  pub address : Text
  pub bits : Text
  pub host : IsAddress address
  pub prefix : IsNumber 2 bits
  pub whole : s ≡ address ++ b'/' ∷ bits

all-All :
    (P : ℕ → Type 0) (p : ℕ → Bool)
    → ((c : ℕ) → (p c ≡ true) ↔ P c)
    → (s : Text) → (all p s ≡ true) ↔ All P s
all-All P p r [] = (λ h. tt, λ h. refl)
all-All P p r (c ∷ s) =
    let (to, from) = and-eq-true_iff (p c) (all p s) in
    (
      λ h. let (k, l) = to h in ((r c).0 k, (all-All P p r s).0 l),
      λ h. from ((r c).1 h.0, (all-All P p r s).1 h.1),
    )

is_digit_iff : (c : ℕ) → (is_digit c ≡ true) ↔ IsDigit c
is_digit_iff c = ground arith

is_number-IsNumber : (most : ℕ) (s : Text) → is_number most s ≡ true → IsNumber most s
is_number-IsNumber most s h = record {
  digits = (all-All IsDigit is_digit is_digit_iff s).0 (ground (arith, h));
  some = ground (arith, h);
  few = ground (arith, h);
}

IsNumber-is_number : (most : ℕ) (s : Text) → IsNumber most s → is_number most s ≡ true
IsNumber-is_number most s n =
    let digits = (all-All IsDigit is_digit is_digit_iff s).1 n.digits in
    ground (arith, digits, n.some, n.few)

join-cons_head :
    (sep : Text) (c : ℕ) (l : Text) (ls : List Text)
    → join sep (cons_head c (l ∷ ls)) ≡ c ∷ join sep (l ∷ ls)
unfolding join
join-cons_head sep c l [] = refl
join-cons_head sep c l (k ∷ ls) = refl

split_nonempty : (sep : ℕ) (s : Text) → (l : Text) × (ls : List Text) × (split sep s ≡ l ∷ ls)
unfolding split
split_nonempty sep [] = ([], [], refl)
split_nonempty sep (c ∷ s) =
    let (l, ls, e) = split_nonempty sep s in
    elim (Bool-cases (c == sep)) [
      | inl h ↦ rw (h, e) ([], l ∷ ls, refl)
      | inr h ↦ rw (h, e) (c ∷ l, ls, refl)
    ]

-- The parts between the separators, with the separators between them.
join-split : (sep : ℕ) (s : Text) → join (sep ∷ []) (split sep s) ≡ s
unfolding split join
join-split sep [] = refl
join-split sep (c ∷ s) =
    let (l, ls, e) = split_nonempty sep s in
    let rest : join (sep ∷ []) (l ∷ ls) ≡ s = rw (← e) (join-split sep s) in
    elim (Bool-cases (c == sep)) [
      | inl h ↦ rw (h, e) (ground (arith, h, rest))
      | inr h ↦ rw (h, e) (join-cons_head (sep ∷ []) c l ls ∙ ap (◌∷◌ c) rest)
    ]

All-mono : (P Q : ℕ → Type 0) → ((c : ℕ) → P c → Q c) → (s : Text) → All P s → All Q s
All-mono P Q f [] h = tt
All-mono P Q f (c ∷ s) (k, h) = (f c k, All-mono P Q f s h)

digits_no_dot : (s : Text) → All IsDigit s → All (λ c. c ≢ b'.') s
digits_no_dot = All-mono IsDigit (λ c. c ≢ b'.') (λ c h. omega (arith, h))

digits_no_slash : (s : Text) → All IsDigit s → All (λ c. c ≢ b'/') s
digits_no_slash = All-mono IsDigit (λ c. c ≢ b'/') (λ c h. omega (arith, h))

are_octets-IsAddress :
    (parts : List Text) → are_octets parts ≡ true → IsAddress (join (codes ".") parts)
unfolding join
are_octets-IsAddress (a ∷ b ∷ c ∷ d ∷ []) h =
    let (ha, h') = (and-eq-true_iff (is_number 3 a) _).0 h in
    let (hb, h'') = (and-eq-true_iff (is_number 3 b) _).0 h' in
    let (hc, hd) = (and-eq-true_iff (is_number 3 c) _).0 h'' in
    record {
      a = a;
      b = b;
      c = c;
      d = d;
      first = is_number-IsNumber 3 a ha;
      second = is_number-IsNumber 3 b hb;
      third = is_number-IsNumber 3 c hc;
      fourth = is_number-IsNumber 3 d hd;
      whole = refl;
    }
are_octets-IsAddress [] h = ground (arith, h)
are_octets-IsAddress (a ∷ []) h = ground (arith, h)
are_octets-IsAddress (a ∷ b ∷ []) h = ground (arith, h)
are_octets-IsAddress (a ∷ b ∷ c ∷ []) h = ground (arith, h)
are_octets-IsAddress (a ∷ b ∷ c ∷ d ∷ e ∷ parts) h = ground (arith, h)

are_cidr_parts-IsCidr :
    (parts : List Text) → are_cidr_parts parts ≡ true → IsCidr (join (codes "/") parts)
unfolding join
are_cidr_parts-IsCidr (address ∷ bits ∷ []) h =
    let (octets, prefix) = (and-eq-true_iff (are_octets (split b'.' address)) _).0 h in
    record {
      address = address;
      bits = bits;
      host =
          subst IsAddress (join-split b'.' address)
            (are_octets-IsAddress (split b'.' address) octets);
      prefix = is_number-IsNumber 2 bits prefix;
      whole = refl;
    }
are_cidr_parts-IsCidr [] h = ground (arith, h)
are_cidr_parts-IsCidr (a ∷ []) h = ground (arith, h)
are_cidr_parts-IsCidr (a ∷ b ∷ c ∷ parts) h = ground (arith, h)

split-IsAddress : (s : Text) (h : IsAddress s) → split b'.' s ≡ h.a ∷ h.b ∷ h.c ∷ h.d ∷ []
split-IsAddress s h =
    rw
      (
        h.whole,
        split-append b'.' h.a (h.b ++ b'.' ∷ (h.c ++ b'.' ∷ h.d))
            (digits_no_dot h.a h.first.digits),
        split-append b'.' h.b (h.c ++ b'.' ∷ h.d) (digits_no_dot h.b h.second.digits),
        split-append b'.' h.c h.d (digits_no_dot h.c h.third.digits),
        split_plain b'.' h.d (digits_no_dot h.d h.fourth.digits),
      )
      refl

address_no_slash : (s : Text) → IsAddress s → All (λ c. c ≢ b'/') s
address_no_slash s h =
    let P : ℕ → Type 0 = λ c. c ≢ b'/' in
    let dotted : (t u : Text) → All IsDigit t → All P u → All P (t ++ b'.' ∷ u) =
      λ t u k l. All-append P t (b'.' ∷ u) (digits_no_slash t k) (omega arith, l) in
    rw h.whole (
      dotted h.a _ h.first.digits (
        dotted h.b _ h.second.digits
          (dotted h.c h.d h.third.digits (digits_no_slash h.d h.fourth.digits))))

IsCidr-is_cidr : (s : Text) → IsCidr s → is_cidr s ≡ true
unfolding is_cidr
IsCidr-is_cidr s h =
    let octets = split-IsAddress h.address h.host in
    let parts : split b'/' s ≡ h.address ∷ h.bits ∷ [] =
      rw
        (
          h.whole,
          split-append b'/' h.address h.bits (address_no_slash h.address h.host),
          split_plain b'/' h.bits (digits_no_slash h.bits h.prefix.digits),
        )
        refl in
    ap are_cidr_parts parts
    ∙ rw
        (
          octets,
          IsNumber-is_number 3 h.host.a h.host.first,
          IsNumber-is_number 3 h.host.b h.host.second,
          IsNumber-is_number 3 h.host.c h.host.third,
          IsNumber-is_number 3 h.host.d h.host.fourth,
          IsNumber-is_number 2 h.bits h.prefix,
        )
        refl

-- The test of `vpcCidr` accepts exactly four groups of one to three digits between dots, a slash,
-- and one or two digits.
pub is_cidr-IsCidr : (s : Text) → (is_cidr s ≡ true) ↔ IsCidr s
unfolding is_cidr
is_cidr-IsCidr s = (
  λ h. subst IsCidr (join-split b'/' s) (are_cidr_parts-IsCidr (split b'/' s) h),
  IsCidr-is_cidr s,
)

pub record IsEnvironmentName (s : Text) : Type 0 where
  pub letters : All (λ c. IsBetween b'a' b'z' c ⊎ (IsDigit c ⊎ (c ≡ b'-'))) s
  pub some : 1 ≤ length s
  pub few : length s ≤ 20

is_name_char_iff :
    (c : ℕ) → (is_name_char c ≡ true) ↔ (IsBetween b'a' b'z' c ⊎ (IsDigit c ⊎ (c ≡ b'-')))
is_name_char_iff c = ground arith

pub is_environment_name-IsEnvironmentName :
    (s : Text) → (is_environment_name s ≡ true) ↔ IsEnvironmentName s
unfolding is_environment_name
is_environment_name-IsEnvironmentName s =
    let letters = all-All _ is_name_char is_name_char_iff s in
    (
      λ h. record {
        letters = letters.0 (ground (arith, h));
        some = ground (arith, h);
        few = ground (arith, h);
      },
      λ n. let all_letters = letters.1 n.letters in ground (arith, all_letters, n.some, n.few),
    )

-- 1.25 to 1.39
pub data IsEksVersion : Text → Type 0 where
  twenties : {d : ℕ} → IsBetween b'5' b'9' d → IsEksVersion (b'1' ∷ b'.' ∷ b'2' ∷ d ∷ [])
  thirties : {d : ℕ} → IsDigit d → IsEksVersion (b'1' ∷ b'.' ∷ b'3' ∷ d ∷ [])

eks_version : (s : Text) → is_eks_version s ≡ true → IsEksVersion s
unfolding is_eks_version
eks_version (a ∷ b ∷ c ∷ d ∷ []) h =
    let one : a ≡ b'1' = ground (arith, h) in
    let dot : b ≡ b'.' = ground (arith, h) in
    elim (Bool-cases (c == b'2')) [
      | inl two ↦
          let is_two : c ≡ b'2' = ground (arith, two) in
          rw (one, dot, is_two) (twenties (ground (arith, h)))
      | inr other ↦
          let is_three : c ≡ b'3' = ground (arith, h) in
          rw (one, dot, is_three) (thirties (ground (arith, h)))
    ]
eks_version [] h = ground (arith, h)
eks_version (a ∷ []) h = ground (arith, h)
eks_version (a ∷ b ∷ []) h = ground (arith, h)
eks_version (a ∷ b ∷ c ∷ []) h = ground (arith, h)
eks_version (a ∷ b ∷ c ∷ d ∷ e ∷ s) h = ground (arith, h)

from_version : {s : Text} → IsEksVersion s → is_eks_version s ≡ true
unfolding is_eks_version
from_version (twenties h) = ground (arith, h)
from_version (thirties h) = ground (arith, h)

-- The test of `kubernetesVersion` accepts exactly 1.25 to 1.39.
pub is_eks_version-IsEksVersion : (s : Text) → (is_eks_version s ≡ true) ↔ IsEksVersion s
unfolding is_eks_version
is_eks_version-IsEksVersion s = (eks_version s, λ v. from_version v)
