-- ===== src/Versions/Semver.antt =====
-- SemVer and PEP 440 precedence: `_split_semver`, `_compare_prerelease`, `semver_compare` and
-- `pep440_compare` of analyzer/src/analyzer/detect/versioning.py. Versions are ASCII texts.
use kcatta.Prelude.{
  ℕ, Bool, ◌&&◌, ◌||◌, Option, none, some, List, [], ◌∷◌, Text, strip, ◌==◌, if◌then◌else◌,
  is_empty, all_digits, partition, split,
}
use kcatta.Versions.Compare.{
  Comparison, older, same, newer, or_then, or_next, both, int_of, by_int, by_number, by_text,
}

-- A leading `v` is dropped.
abbrev pub bare : Text → Text
bare [] = []
bare (c ∷ s) = if (c == 118) || (c == 86) then s else c ∷ s

-- A comparison answers none where `int` raises.
abbrev pub release_number : Text → Option ℕ
release_number part = if all_digits part then int_of part else some 0

-- The numbers of the parts, in order, unless `int` raises on one.
unfoldable pub release_numbers : List Text → Option (List ℕ)
unfolding int_of all_digits
release_numbers [] = some []
release_numbers (part ∷ parts) = elim (release_number part) [
  | none ↦ none
  | some n ↦ elim (release_numbers parts) [ none ↦ none | some ns ↦ some (n ∷ ns) ]
]

abbrev pub semver_parts : Text → Text × Text
semver_parts version =
    let text = (partition 43 (bare (strip version))).0 in
    let (main, _, pre) = partition 45 text in (main, pre)

-- Release numbers and prerelease identifiers.
unfoldable pub split_semver : Text → Option (List ℕ × List Text)
unfolding strip partition split release_numbers
split_semver version =
    let (main, pre) = semver_parts version in
    elim (release_numbers (split 46 main)) [
      | none ↦ none
      | some release ↦ some (release, if is_empty pre then [] else split 46 pre)
    ]

-- Two identifiers: numeric ones by number and below the others.
unfoldable pub by_identifier : Text → Text → Option Comparison
unfolding by_int by_text all_digits
by_identifier x y =
    if all_digits x && all_digits y
    then by_int x y
    else if all_digits x
    then some older
    else if all_digits y
    then some newer
    else some (by_text x y)

-- The loop over `zip_longest` of the identifiers.
unfoldable pub by_identifiers : List Text → List Text → Option Comparison
unfolding or_next by_identifier
by_identifiers [] [] = some same
by_identifiers [] (y ∷ ys) = some older
by_identifiers (x ∷ xs) [] = some newer
by_identifiers (x ∷ xs) (y ∷ ys) = or_next (by_identifier x y) (by_identifiers xs ys)

unfoldable pub compare_prerelease : List Text → List Text → Option Comparison
unfolding by_identifiers
compare_prerelease [] [] = some same
compare_prerelease [] (y ∷ ys) = some newer
compare_prerelease (x ∷ xs) [] = some older
compare_prerelease (x ∷ xs) (y ∷ ys) = by_identifiers (x ∷ xs) (y ∷ ys)

-- The loop over `zip_longest(…, fillvalue=0)` of the release numbers.
unfoldable pub by_release : List ℕ → List ℕ → Comparison
unfolding or_then by_number
by_release [] [] = same
by_release [] (y ∷ ys) = or_then (by_number 0 y) (by_release [] ys)
by_release (x ∷ xs) [] = or_then (by_number x 0) (by_release xs [])
by_release (x ∷ xs) (y ∷ ys) = or_then (by_number x y) (by_release xs ys)

-- The releases, then the prereleases.
unfoldable pub by_semver : List ℕ × List Text → List ℕ × List Text → Option Comparison
unfolding by_release compare_prerelease or_next
by_semver a b = or_next (some (by_release a.0 b.0)) (compare_prerelease a.1 b.1)

unfoldable pub semver_compare : Text → Text → Option Comparison
unfolding split_semver by_semver both
semver_compare a b = both (split_semver a) (split_semver b) by_semver

-- `packaging.version`: the parser, with none for InvalidVersion, and the order on its versions.
pub record Packaging : Type 1 where
  pub Version : Type 0
  pub parse : Text → Option Version
  pub less : Version → Version → Bool

unfoldable pub pep440_compare : Packaging → Text → Text → Option Comparison
unfolding semver_compare
pep440_compare p a b = elim (p.parse a) [
  | none ↦ semver_compare a b
  | some va ↦ elim (p.parse b) [
    | none ↦ semver_compare a b
    | some vb ↦ some (if p.less va vb then older else if p.less vb va then newer else same)
  ]
]
