-- ===== src/Versions/Swap/Language.antt =====
-- Exchanging the two versions turns the results of the language and Alpine comparators of
-- analyzer/src/analyzer/detect/versioning.py round.
use kcatta.Prelude.{
  ℕ, ◌≡◌, refl, sym, ap, Option, some, Bool, true, false, not, ◌&&◌, ◌||◌, inl, inr, List, [], ◌∷◌,
  arith, Text, if◌then◌else◌, all_digits, Bool-cases, Option-cases, max, length,
}
use kcatta.Versions.Compare.{
  Comparison, older, same, newer, flip, or_then, or_next, by_int, int_of, by_number, flip-or_then,
  flip-by_number, flip-by_text,
}
use kcatta.Versions.Semver.{
  split_semver, by_identifier, by_identifiers, compare_prerelease, by_release, by_semver,
  semver_compare, Packaging, pep440_compare,
}
use kcatta.Versions.Apk.{
  Apk, by_tail, by_apk, Suffix, split_apk, starts_with_zero, pad, is_int, compare_part, by_suffix,
  compare_suffixes, compare_parts, apk_compare,
}
use kcatta.Versions.Swap.{or_comm, flipped, flipped-or_next, both-flipped}

-- A combination turns round where its parts do.
turned :
    (a b : Comparison) {a' b' : Comparison}
    → flip a ≡ a'
    → flip b ≡ b'
    → flip (or_then a b) ≡ or_then a' b'
turned a b p q = rw (flip-or_then a b, p, q) refl

turned_next :
    (a b : Option Comparison) {a' b' : Option Comparison}
    → flipped a ≡ a'
    → flipped b ≡ b'
    → flipped (or_next a b) ≡ or_next a' b'
turned_next a b p q = rw (flipped-or_next a b, p, q) refl

by_int-flip : (x y : Text) → flipped (by_int x y) ≡ by_int y x
unfolding by_int
by_int-flip x y = sym (
    both-flipped (int_of x) (int_of y) (λ m n. some (by_number m n))
      (λ m n. ap some (sym (flip-by_number m n))))

by_identifier-flip : (x y : Text) → flipped (by_identifier x y) ≡ by_identifier y x
unfolding by_identifier flip
by_identifier-flip x y = elim (Bool-cases (all_digits x)) [
  | inl e ↦ elim (Bool-cases (all_digits y)) [
    | inl f ↦ rw (e, f) (by_int-flip x y)
    | inr f ↦ rw (e, f) refl
  ]
  | inr e ↦ elim (Bool-cases (all_digits y)) [
    | inl f ↦ rw (e, f) refl
    | inr f ↦ rw (e, f) (ap some (flip-by_text x y))
  ]
]

by_identifiers-flip : (a b : List Text) → flipped (by_identifiers a b) ≡ by_identifiers b a
unfolding by_identifiers flip
by_identifiers-flip [] [] = refl
by_identifiers-flip [] (y ∷ ys) = refl
by_identifiers-flip (x ∷ xs) [] = refl
by_identifiers-flip (x ∷ xs) (y ∷ ys) =
    turned_next _ _ (by_identifier-flip x y) (by_identifiers-flip xs ys)

compare_prerelease-flip :
    (a b : List Text) → flipped (compare_prerelease a b) ≡ compare_prerelease b a
unfolding compare_prerelease flip
compare_prerelease-flip [] [] = refl
compare_prerelease-flip [] (y ∷ ys) = refl
compare_prerelease-flip (x ∷ xs) [] = refl
compare_prerelease-flip (x ∷ xs) (y ∷ ys) = by_identifiers-flip (x ∷ xs) (y ∷ ys)

by_release-flip : (a b : List ℕ) → flip (by_release a b) ≡ by_release b a
unfolding by_release flip
by_release-flip [] [] = refl
by_release-flip [] (y ∷ ys) = turned _ _ (flip-by_number 0 y) (by_release-flip [] ys)
by_release-flip (x ∷ xs) [] = turned _ _ (flip-by_number x 0) (by_release-flip xs [])
by_release-flip (x ∷ xs) (y ∷ ys) = turned _ _ (flip-by_number x y) (by_release-flip xs ys)

by_semver-swap : (a b : List ℕ × List Text) → by_semver b a ≡ flipped (by_semver a b)
unfolding by_semver
by_semver-swap a b = sym (
    turned_next (some (by_release a.0 b.0)) _ (ap some (by_release-flip a.0 b.0))
      (compare_prerelease-flip a.1 b.1))

pub semver_compare-swap : (a b : Text) → semver_compare b a ≡ flipped (semver_compare a b)
unfolding semver_compare
semver_compare-swap a b = both-flipped (split_semver a) (split_semver b) by_semver by_semver-swap

-- The order of `packaging` is asymmetric.
abbrev pub IsAsymmetric : Packaging → Type 0
IsAsymmetric p = (v w : p.Version) → p.less v w ≡ true → p.less w v ≡ false

ordered :
    (p : Packaging)
    → IsAsymmetric p
    → (v w : p.Version)
    → (if p.less w v then older else if p.less v w then newer else same)
      ≡ flip (if p.less v w then older else if p.less w v then newer else same)
unfolding flip
ordered p asym v w = elim (Bool-cases (p.less v w)) [
  | inl e ↦ rw (e, asym v w e) refl
  | inr e ↦ elim (Bool-cases (p.less w v)) [ inl f ↦ rw (e, f) refl | inr f ↦ rw (e, f) refl ]
]

pub pep440_compare-swap :
    (p : Packaging)
    → IsAsymmetric p
    → (a b : Text) → pep440_compare p b a ≡ flipped (pep440_compare p a b)
unfolding pep440_compare
pep440_compare-swap p asym a b = elim (Option-cases (p.parse a)) [
  | inl e ↦ elim (Option-cases (p.parse b)) [
    | inl f ↦ rw (e, f, pep440_compare) (semver_compare-swap a b)
    | inr (w, f) ↦ rw (f, e, pep440_compare) (semver_compare-swap a b)
  ]
  | inr (v, e) ↦ elim (Option-cases (p.parse b)) [
    | inl f ↦ rw (e, f, pep440_compare) (semver_compare-swap a b)
    | inr (w, f) ↦ rw (e, f, e, pep440_compare) (ap some (ordered p asym v w))
  ]
]

max_comm : (m n : ℕ) → max m n ≡ max n m
max_comm m n = omega arith

compare_part-flip :
    (a b : Text) (first : Bool) → flipped (compare_part a b first) ≡ compare_part b a first
unfolding compare_part
compare_part-flip a b first =
    let zeros = or_comm (starts_with_zero b) (starts_with_zero a) in
    let words = or_comm (not (is_int b)) (not (is_int a)) in
    let width = max (length a) (length b) in
    let widths = max_comm (length b) (length a) in
    elim (Bool-cases (not first && (starts_with_zero a || starts_with_zero b))) [
      | inl e ↦ rw (zeros, widths, e) (ap some (flip-by_text (pad width a) (pad width b)))
      | inr e ↦ elim (Bool-cases (not (is_int a) || not (is_int b))) [
        | inl f ↦ rw (zeros, e, words, f) (ap some (flip-by_text a b))
        | inr f ↦ rw (zeros, e, words, f) (by_int-flip a b)
      ]
    ]

by_suffix-flip : (a b : Suffix) → flip (by_suffix a b) ≡ by_suffix b a
unfolding by_suffix
by_suffix-flip a b = turned _ _ (flip-by_number a.0 b.0) (flip-by_number a.1 b.1)

compare_suffixes-flip : (a b : List Suffix) → flip (compare_suffixes a b) ≡ compare_suffixes b a
unfolding compare_suffixes flip
compare_suffixes-flip [] [] = refl
compare_suffixes-flip [] (y ∷ ys) =
    turned _ _ (by_suffix-flip (100, 0) y) (compare_suffixes-flip [] ys)
compare_suffixes-flip (x ∷ xs) [] =
    turned _ _ (by_suffix-flip x (100, 0)) (compare_suffixes-flip xs [])
compare_suffixes-flip (x ∷ xs) (y ∷ ys) =
    turned _ _ (by_suffix-flip x y) (compare_suffixes-flip xs ys)

compare_parts-flip :
    (first : Bool) (a b : List Text) → flipped (compare_parts first a b) ≡ compare_parts first b a
unfolding compare_parts flip
compare_parts-flip first [] [] = refl
compare_parts-flip first [] (y ∷ ys) = refl
compare_parts-flip first (x ∷ xs) [] = refl
compare_parts-flip first (x ∷ xs) (y ∷ ys) =
    turned_next _ _ (compare_part-flip x y first) (compare_parts-flip false xs ys)

by_apk-swap : (a b : Apk) → by_apk b a ≡ flipped (by_apk a b)
unfolding by_apk
by_apk-swap a b = sym (
    turned_next _ (some (by_tail a b)) (compare_parts-flip true a.parts b.parts) (
      ap some (
        turned _ _ (flip-by_text a.letter b.letter) (
          turned _ _ (compare_suffixes-flip a.suffixes b.suffixes)
            (flip-by_number a.revision b.revision)))))

pub apk_compare-swap : (a b : Text) → apk_compare b a ≡ flipped (apk_compare a b)
unfolding apk_compare
apk_compare-swap a b = both-flipped (split_apk a) (split_apk b) by_apk by_apk-swap
