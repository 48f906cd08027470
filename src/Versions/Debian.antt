-- ===== src/Versions/Debian.antt =====
-- Debian's version order: analyzer/src/analyzer/detect/debversion.py. Versions are ASCII texts.
use kcatta.Prelude.{
  ℕ, suc, zero, ◌+◌, Bool, true, false, ◌&&◌, ◌||◌, Option, none, some, [], ◌∷◌, Text, ◌==◌,
  if◌then◌else◌, length, is_empty, is_digit, is_letter, all_digits, partition, rpartition, span,
  lstrip_of,
}
use kcatta.Versions.Compare.{
  Comparison, older, same, newer, or_then, both, int_of, by_number, by_text,
}

-- `_order`, above by one: 0 for `~`, 1 for the end of the run, then letters, then the rest.
unfoldable pub order : Option ℕ → ℕ
unfolding is_letter
order none = 1
order (some c) = if c == 126 then 0 else if is_letter c then c + 1 else c + 257

-- `_split`: epoch, upstream version, Debian revision; none where `int` raises.
abbrev pub Parts : Type 0
Parts = ℕ × Text × Text

abbrev pub upstream_of : ℕ → Text → Parts
upstream_of epoch rest =
    let (upstream, found, revision) = rpartition 45 rest in
    if found then (epoch, upstream, revision) else (epoch, rest, [])

unfoldable pub split_version : Text → Option Parts
unfolding partition rpartition all_digits int_of
split_version version =
    let (head, found, tail) = partition 58 version in
    if found && all_digits head
    then elim (int_of head) [ none ↦ none | some epoch ↦ some (upstream_of epoch tail) ]
    else some (upstream_of 0 version)

-- The character of a run without digits that a text starts with.
unfoldable pub run_char : Text → Option ℕ
unfolding is_digit
run_char [] = none
run_char (c ∷ s) = if is_digit c then none else some c

-- `i += 1` where there was such a character.
unfoldable pub past : Text → Text
unfolding is_digit
past [] = []
past (c ∷ s) = if is_digit c then c ∷ s else s

abbrev pub in_run : Text → Bool
in_run s = elim (run_char s) [ none ↦ false | some _ ↦ true ]

-- The inner loop: the comparison that it returns with, or what is left of the two texts.
pub data Run : Type 0 where
  decided : Comparison → Run
  left_over : Text → Text → Run

-- `fuel` is a number of rounds that the loop does not exceed.
unfoldable pub compare_run : ℕ → Text → Text → Run
unfolding run_char past order by_number
compare_run zero a b = left_over a b
compare_run (suc fuel) a b =
    let rest = compare_run fuel (past a) (past b) in
    if in_run a || in_run b
    then elim (by_number (order (run_char a)) (order (run_char b))) [
      | same ↦ rest
      | older ↦ decided older
      | newer ↦ decided newer
    ]
    else left_over a b

-- The digit runs without their leading zeros: by length, then as texts.
unfoldable pub compare_digits : Text → Text → Comparison
unfolding or_then by_number by_text
compare_digits da db = or_then (by_number (length da) (length db)) (by_text da db)

-- One round of the outer loop of `_compare_segment`, before the rounds that follow it.
unfoldable pub round : (Text → Text → Option Comparison) → Text → Text → Option Comparison
unfolding compare_run compare_digits lstrip_of span is_digit
round rest a b = elim (compare_run (length a + length b) a b) [
  | decided c ↦ some c
  | left_over a' b' ↦
      let (da, ra) = span is_digit (lstrip_of 48 a') in
      let (db, rb) = span is_digit (lstrip_of 48 b') in
      elim (compare_digits da db) [ same ↦ rest ra rb | older ↦ some older | newer ↦ some newer ]
]

-- The outer loop; none where the fuel runs out.
unfoldable pub segments : ℕ → Text → Text → Option Comparison
unfolding round
segments zero a b = if is_empty a && is_empty b then some same else none
segments (suc fuel) a b = if is_empty a && is_empty b then some same else round (segments fuel) a b

unfoldable pub compare_segment : Text → Text → Option Comparison
unfolding segments
compare_segment a b = segments (length a + length b) a b

-- The parts of two versions.
unfoldable pub by_parts : Parts → Parts → Option Comparison
unfolding compare_segment by_number
by_parts a b =
    let (ea, ua, ra) = a in
    let (eb, ub, rb) = b in
    let revisions = compare_segment ra rb in
    elim (by_number ea eb) [
      | same ↦ elim (compare_segment ua ub) [ some same ↦ revisions | c ↦ c ]
      | older ↦ some older
      | newer ↦ some newer
    ]

unfoldable pub dpkg_compare : Text → Text → Option Comparison
unfolding split_version by_parts both
dpkg_compare a b = both (split_version a) (split_version b) by_parts
