-- ===== src/Versions/Totals.antt =====
-- The comparators of analyzer/src/analyzer/detect do not raise on versions of at most 4300 characters.
pub mod Apk
use kcatta.Prelude.{
  ℕ, ◌≤◌, ◌≡◌, refl, Bool, true, false, not, ◌&&◌, ◌||◌, inl, inr, Option, some, none, List, [],
  ◌∷◌, arith, Text, ltb, if◌then◌else◌, length, length-reverse, max, reverse, is_empty, is_digit,
  is_letter, all_digits, partition, rpartition_pair, split, keep, strip, Bool-cases, Option-cases,
}
use kcatta.Versions.Compare.{
  Comparison, older, same, newer, both, or_next, by_int, by_number, by_text, int_of,
}
use kcatta.Versions.Semver.{
  bare, release_number, release_numbers, semver_parts, split_semver, by_identifier, by_identifiers,
  by_release, compare_prerelease, by_semver, semver_compare, Packaging, pep440_compare,
}
use kcatta.Versions.Debian.{Parts, upstream_of, split_version, by_parts, dpkg_compare}
use kcatta.Versions.Rpm.{Evr, split_evr, by_evr, rpm_compare}
use kcatta.Versions.Order.{by_parts-total}
use kcatta.Versions.Swap.Rpm.{by_evr-total}
use kcatta.Versions.Short.{
  AllShort, AllShort-le, split-AllShort, int_of-total, partition-length, strip-length, bare-length,
  keep-length, rpartition_pair-length, cut_letter-length,
}

-- A version in ASCII that is too short for `int` to raise on a part of it.
abbrev pub is_ascii : Text → Bool
is_ascii [] = true
is_ascii (c ∷ s) = ltb c 128 && is_ascii s

abbrev pub IsPlain : Text → Type 0
IsPlain s = (is_ascii s ≡ true) × (length s ≤ 4300)

-- A comparison ends with a result.
abbrev pub Ends : Option Comparison → Type 0
Ends r = (c : Comparison) × (r ≡ some c)

pub both-Ends {ℓ} :
    {A : Type ℓ} (x y : Option A) (f : A → A → Option Comparison) {m n : A}
    → x ≡ some m
    → y ≡ some n
    → Ends (f m n)
    → Ends (both x y f)
unfolding both
both-Ends x y f p q (c, e) = (c, rw (p, q, both) e)

pub or_next-Ends : (a b : Option Comparison) → Ends a → Ends b → Ends (or_next a b)
unfolding or_next
or_next-Ends a b (older, p) (d, q) = (older, rw p refl)
or_next-Ends a b (same, p) (d, q) = (d, rw p q)
or_next-Ends a b (newer, p) (d, q) = (newer, rw p refl)

pub by_int-Ends : (x y : Text) → length x ≤ 4300 → length y ≤ 4300 → Ends (by_int x y)
unfolding by_int
by_int-Ends x y h k =
    let (m, p) = int_of-total x h in
    let (n, q) = int_of-total y k in
    both-Ends (int_of x) (int_of y) (λ m n. some (by_number m n)) p q (by_number m n, refl)

release_number-total : (part : Text) → length part ≤ 4300 → (n : ℕ) × (release_number part ≡ some n)
release_number-total part h = elim (Bool-cases (all_digits part)) [
  | inl e ↦ let (n, q) = int_of-total part h in (n, rw e q)
  | inr e ↦ (0, rw e refl)
]

release_numbers-total :
    (parts : List Text) → AllShort 4300 parts → (ns : List ℕ) × (release_numbers parts ≡ some ns)
unfolding release_numbers
release_numbers-total [] h = ([], refl)
release_numbers-total (part ∷ parts) h =
    let (n, p) = release_number-total part h.0 in
    let (ns, q) = release_numbers-total parts h.1 in (n ∷ ns, rw (release_numbers, p, q) refl)

by_identifier-Ends : (x y : Text) → length x ≤ 4300 → length y ≤ 4300 → Ends (by_identifier x y)
unfolding by_identifier
by_identifier-Ends x y h k = elim (Bool-cases (all_digits x)) [
  | inl e ↦ elim (Bool-cases (all_digits y)) [
    | inl f ↦ let (c, q) = by_int-Ends x y h k in (c, rw (e, f) q)
    | inr f ↦ (older, rw (e, f) refl)
  ]
  | inr e ↦ elim (Bool-cases (all_digits y)) [
    | inl f ↦ (newer, rw (e, f) refl)
    | inr f ↦ (by_text x y, rw (e, f) refl)
  ]
]

by_identifiers-Ends :
    (a b : List Text) → AllShort 4300 a → AllShort 4300 b → Ends (by_identifiers a b)
unfolding by_identifiers
by_identifiers-Ends [] [] h k = (same, refl)
by_identifiers-Ends [] (y ∷ ys) h k = (older, refl)
by_identifiers-Ends (x ∷ xs) [] h k = (newer, refl)
by_identifiers-Ends (x ∷ xs) (y ∷ ys) h k =
    or_next-Ends _ _ (by_identifier-Ends x y h.0 k.0) (by_identifiers-Ends xs ys h.1 k.1)

compare_prerelease-Ends :
    (a b : List Text) → AllShort 4300 a → AllShort 4300 b → Ends (compare_prerelease a b)
unfolding compare_prerelease
compare_prerelease-Ends [] [] h k = (same, refl)
compare_prerelease-Ends [] (y ∷ ys) h k = (newer, refl)
compare_prerelease-Ends (x ∷ xs) [] h k = (older, refl)
compare_prerelease-Ends (x ∷ xs) (y ∷ ys) h k = by_identifiers-Ends (x ∷ xs) (y ∷ ys) h k

pub split_short : (c : ℕ) (s : Text) → length s ≤ 4300 → AllShort 4300 (split c s)
split_short c s h = AllShort-le (length s) 4300 (split c s) h (split-AllShort c s)

split_semver-total :
    (v : Text)
    → length v ≤ 4300
    → (parts : List ℕ × List Text) × (split_semver v ≡ some parts) × AllShort 4300 parts.1
unfolding split_semver
split_semver-total v h =
    let (main, pre) = semver_parts v in
    let text = (partition 43 (bare (strip v))).0 in
    let (p, q) = partition-length 45 text in
    let (t, _) = partition-length 43 (bare (strip v)) in
    let b = bare-length (strip v) in
    let s = strip-length v in
    let (ns, e) =
      release_numbers-total (split 46 main) (split_short 46 main (omega (arith, p, t, b, s, h))) in
    (
      (ns, if is_empty pre then [] else split 46 pre),
      rw (split_semver, e) refl,
      chosen (is_empty pre) (split 46 pre) (split_short 46 pre (omega (arith, q, t, b, s, h))),
    )
  where
    chosen : (b : Bool) (xs : List Text) → AllShort 4300 xs → AllShort 4300 (if b then [] else xs)
    chosen true xs h = tt
    chosen false xs h = h

pub semver_compare-Ends :
    (a b : Text) → length a ≤ 4300 → length b ≤ 4300 → Ends (semver_compare a b)
unfolding semver_compare by_semver
semver_compare-Ends a b h k =
    let (x, p, s) = split_semver-total a h in
    let (y, q, t) = split_semver-total b k in
    both-Ends (split_semver a) (split_semver b) by_semver p q (
      or_next-Ends (some (by_release x.0 y.0)) _ (by_release x.0 y.0, refl)
        (compare_prerelease-Ends x.1 y.1 s t))

pub pep440_compare-Ends :
    (p : Packaging) (a b : Text) → length a ≤ 4300 → length b ≤ 4300 → Ends (pep440_compare p a b)
unfolding pep440_compare
pep440_compare-Ends p a b h k = elim (Option-cases (p.parse a)) [
  | inl e ↦ rw (pep440_compare, e) (semver_compare-Ends a b h k)
  | inr (v, e) ↦ elim (Option-cases (p.parse b)) [
    | inl f ↦ rw (pep440_compare, e, f) (semver_compare-Ends a b h k)
    | inr (w, f) ↦ rw (pep440_compare, e, f) (_, refl)
  ]
]

pub given-total {ℓ} :
    {A : Type ℓ} (b : Bool) (x y : Option A)
    → (m : A) × (x ≡ some m)
    → (n : A) × (y ≡ some n)
    → (k : A) × ((if b then x else y) ≡ some k)
given-total true x y p q = p
given-total false x y p q = q

split_version-total :
    (v : Text) → length v ≤ 4300 → (parts : Parts) × (split_version v ≡ some parts)
unfolding split_version
split_version-total v h =
    let (head, found, tail) = partition 58 v in
    let (p, _) = partition-length 58 v in
    elim (Bool-cases (found && all_digits head)) [
      | inl e ↦
          let (n, q) = int_of-total head (omega (arith, p, h)) in
          (upstream_of n tail, rw (split_version, e, q) refl)
      | inr e ↦ (upstream_of 0 v, rw (split_version, e) refl)
    ]

pub dpkg_compare-Ends : (a b : Text) → length a ≤ 4300 → length b ≤ 4300 → Ends (dpkg_compare a b)
unfolding dpkg_compare
dpkg_compare-Ends a b h k =
    let (x, p) = split_version-total a h in
    let (y, q) = split_version-total b k in
    both-Ends (split_version a) (split_version b) by_parts p q (by_parts-total x y)

split_evr-total : (v : Text) → length v ≤ 4300 → (parts : Evr) × (split_evr v ≡ some parts)
unfolding split_evr
split_evr-total v h =
    let (head, found, tail) = partition 58 v in
    let (p, _) = partition-length 58 v in
    let with_epoch = found && all_digits head in
    let (version, _, release) = partition 45 (if with_epoch then tail else v) in
    let (n, q) = int_of-total head (omega (arith, p, h)) in
    given-total with_epoch (with_number version release (int_of head)) (some (0, version, release))
      ((n, version, release), rw q refl) ((0, version, release), refl)
  where
    with_number : Text → Text → Option ℕ → Option Evr
    with_number version release number = elim number [
      | none ↦ none
      | some epoch ↦ some (epoch, version, release)
    ]

pub rpm_compare-Ends : (a b : Text) → length a ≤ 4300 → length b ≤ 4300 → Ends (rpm_compare a b)
unfolding rpm_compare
rpm_compare-Ends a b h k =
    let (x, p) = split_evr-total a h in
    let (y, q) = split_evr-total b k in
    both-Ends (split_evr a) (split_evr b) by_evr p q (by_evr-total x y)
