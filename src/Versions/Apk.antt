-- ===== src/Versions/Apk.antt =====
-- Alpine's order: `_split_apk`, `_apk_cmp_numpart`, `_apk_cmp_suffixes` and `apk_compare` of
-- analyzer/src/analyzer/detect/versioning.py. Versions are ASCII texts.
use kcatta.Prelude.{
  ℕ, suc, zero, max, Bool, true, false, not, ◌&&◌, ◌||◌, List, [], ◌∷◌, Text, ◌≟◌, codes, ◌==◌,
  if◌then◌else◌, length, is_empty, is_letter, is_digit, all_digits, partition, rpartition_pair,
  split, keep, strip, reverse, Option, none, some,
}
use kcatta.Versions.Compare.{
  Comparison, older, same, newer, or_then, or_next, both, int_of, by_int, by_number, by_text,
}

-- _APK_SUFFIX_ORDER, with _APK_RELEASE_ORDER for a suffix that it does not hold.
unfoldable pub suffix_order : Text → ℕ
unfolding ◌≟◌
suffix_order s =
    if s ≟ codes "alpha"
    then 0
    else if s ≟ codes "beta"
    then 1
    else if s ≟ codes "pre"
    then 2
    else if s ≟ codes "rc"
    then 3
    else if s ≟ codes "cvs"
    then 101
    else if s ≟ codes "svn"
    then 102
    else if s ≟ codes "git"
    then 103
    else if s ≟ codes "hg"
    then 104
    else if s ≟ codes "p"
    then 105
    else 100

abbrev pub Suffix : Type 0
Suffix = ℕ × ℕ

-- None where `int` raises, as in all that follows.
abbrev pub suffix_of : Text → Option Suffix
suffix_of chunk =
    let digits = keep is_digit chunk in
    elim (if is_empty digits then some 0 else int_of digits) [
      | none ↦ none
      | some n ↦ some (suffix_order (keep is_letter chunk), n)
    ]

-- The loop over the suffixes.
unfoldable pub suffixes_of : List Text → Option (List Suffix)
unfolding int_of keep suffix_order is_letter is_digit
suffixes_of [] = some []
suffixes_of (chunk ∷ chunks) = elim (suffix_of chunk) [
  | none ↦ none
  | some s ↦ elim (suffixes_of chunks) [ none ↦ none | some ss ↦ some (s ∷ ss) ]
]

-- The last character, where it is a letter, and the text without it.
abbrev pub cut_letter : Text → Text × Text
cut_letter [] = ([], [])
cut_letter (c ∷ s) = if is_letter c then (c ∷ [], reverse s) else ([], reverse (c ∷ s))

-- Numeric parts, trailing letter, suffixes, revision.
pub record Apk : Type 0 where
  pub parts : List Text
  pub letter : Text
  pub suffixes : List Suffix
  pub revision : ℕ

unfoldable pub split_apk : Text → Option Apk
unfolding strip rpartition_pair partition split suffixes_of all_digits int_of is_letter
split_apk value =
    let stripped = strip value in
    let (dash, found, tail) = rpartition_pair 45 114 stripped in
    let revised = found && all_digits tail in
    let (core, _, suffix_text) = partition 95 (if revised then dash else stripped) in
    let (letter, numeric) = cut_letter (reverse core) in
    elim (if revised then int_of tail else some 0) [
      | none ↦ none
      | some revision ↦
          elim (if is_empty suffix_text then some [] else suffixes_of (split 95 suffix_text)) [
            | none ↦ none
            | some suffixes ↦ some (record {
              parts = if is_empty numeric then [] else split 46 numeric;
              letter = letter;
              suffixes = suffixes;
              revision = revision;
            })
          ]
    ]

abbrev pub starts_with_zero : Text → Bool
starts_with_zero [] = false
starts_with_zero (c ∷ s) = c == 48

-- `s.ljust(width, "0")`
unfoldable pub pad : ℕ → Text → Text
pad zero s = s
pad (suc width) [] = 48 ∷ pad width []
pad (suc width) (c ∷ s) = c ∷ pad width s

-- `_is_int`
abbrev pub is_int : Text → Bool
is_int s = is_empty s || all_digits s

unfoldable pub compare_part : Text → Text → Bool → Option Comparison
unfolding pad by_text by_int all_digits
compare_part a b first =
    let width = max (length a) (length b) in
    if not first && (starts_with_zero a || starts_with_zero b)
    then some (by_text (pad width a) (pad width b))
    else if not (is_int a) || not (is_int b)
    then some (by_text a b)
    else by_int a b

unfoldable pub by_suffix : Suffix → Suffix → Comparison
unfolding or_then by_number
by_suffix a b = or_then (by_number a.0 b.0) (by_number a.1 b.1)

-- A missing suffix is the release marker.
unfoldable pub compare_suffixes : List Suffix → List Suffix → Comparison
unfolding or_then by_suffix
compare_suffixes [] [] = same
compare_suffixes [] (y ∷ ys) = or_then (by_suffix (100, 0) y) (compare_suffixes [] ys)
compare_suffixes (x ∷ xs) [] = or_then (by_suffix x (100, 0)) (compare_suffixes xs [])
compare_suffixes (x ∷ xs) (y ∷ ys) = or_then (by_suffix x y) (compare_suffixes xs ys)

-- The loop over the numeric parts of `apk_compare`.
unfoldable pub compare_parts : Bool → List Text → List Text → Option Comparison
unfolding or_next compare_part
compare_parts first [] [] = some same
compare_parts first [] (y ∷ ys) = some older
compare_parts first (x ∷ xs) [] = some newer
compare_parts first (x ∷ xs) (y ∷ ys) = or_next (compare_part x y first) (compare_parts false xs ys)

-- The letter, the suffixes, the revision.
abbrev pub by_tail : Apk → Apk → Comparison
by_tail a b =
    or_then (by_text a.letter b.letter)
      (or_then (compare_suffixes a.suffixes b.suffixes) (by_number a.revision b.revision))

unfoldable pub by_apk : Apk → Apk → Option Comparison
unfolding compare_parts by_text compare_suffixes by_number or_then or_next
by_apk a b = or_next (compare_parts true a.parts b.parts) (some (by_tail a b))

unfoldable pub apk_compare : Text → Text → Option Comparison
unfolding split_apk by_apk both
apk_compare a b = both (split_apk a) (split_apk b) by_apk
