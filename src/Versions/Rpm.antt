-- ===== src/Versions/Rpm.antt =====
-- RPM's order: `_rpmvercmp`, `_split_evr` and `rpm_compare` of
-- analyzer/src/analyzer/detect/versioning.py. Versions are ASCII texts.
use kcatta.Prelude.{
  ℕ, suc, zero, ◌+◌, Bool, true, false, not, ◌&&◌, ◌||◌, Option, none, some, [], ◌∷◌, Text, ◌≟◌,
  ◌==◌, if◌then◌else◌, length, is_empty, is_digit, is_letter, all_digits, partition, span,
  lstrip_of,
}
use kcatta.Versions.Compare.{
  Comparison, older, same, newer, or_then, both, int_of, by_number, by_text,
}

-- Not a separator: `c.isalnum() or c in "~^"`.
abbrev is_part : ℕ → Bool
is_part c = is_digit c || is_letter c || (c == 126) || (c == 94)

-- The loops that skip separators.
unfoldable pub skip : Text → Text
unfolding is_digit is_letter
skip [] = []
skip (c ∷ s) = let rest = skip s in if is_part c then c ∷ s else rest

abbrev pub starts : ℕ → Text → Bool
starts c [] = false
starts c (x ∷ s) = x == c

abbrev pub after_first : Text → Text
after_first [] = []
after_first (c ∷ s) = s

abbrev pub first_digit : Text → Bool
first_digit [] = false
first_digit (c ∷ s) = is_digit c

-- Two runs of digits: by length without leading zeros, then as texts; two runs of letters as texts.
unfoldable pub by_segment : Bool → Text → Text → Comparison
unfolding by_number by_text or_then lstrip_of
by_segment true a b =
    or_then (by_number (length (lstrip_of 48 a)) (length (lstrip_of 48 b)))
      (by_text (lstrip_of 48 a) (lstrip_of 48 b))
by_segment false a b = by_text a b

-- A round returns, leaves the loop, or goes on with what is left.
pub data Step : Type 0 where
  answer : Comparison → Step
  next : Text → Text → Step

-- After the loop: the side with something left is newer.
unfoldable pub by_rest : Text → Text → Comparison
by_rest [] [] = same
by_rest [] (y ∷ b) = older
by_rest (x ∷ a) b = newer

abbrev pub run_test : Bool → ℕ → Bool
run_test true = is_digit
run_test false = is_letter

-- The segments of a round, digits or letters, where neither side is at its end.
unfoldable pub step_runs : Bool → Text → Text → Step
unfolding span by_segment
step_runs numeric a b =
    let (seg_a, rest_a) = span (run_test numeric) a in
    let (seg_b, rest_b) = span (run_test numeric) b in
    if is_empty seg_b
    then answer (if numeric then newer else older)
    else elim (by_segment numeric seg_a seg_b) [
      | same ↦ next rest_a rest_b
      | older ↦ answer older
      | newer ↦ answer newer
    ]

-- The side `a` says which.
unfoldable pub step_segment : Text → Text → Step
unfolding step_runs is_digit
step_segment a b = step_runs (first_digit a) a b

-- One round, after the separators were skipped.
unfoldable pub step : Text → Text → Step
unfolding step_segment by_rest
step a b =
    if starts 126 a || starts 126 b
    then if not (starts 126 a)
      then answer newer
      else if not (starts 126 b)
      then answer older
      else next (after_first a) (after_first b)
    else if starts 94 a || starts 94 b
    then if is_empty a
      then answer older
      else if is_empty b
      then answer newer
      else if not (starts 94 a)
      then answer newer
      else if not (starts 94 b)
      then answer older
      else next (after_first a) (after_first b)
    else if is_empty a || is_empty b
    then answer (by_rest a b)
    else step_segment a b

-- The loop; none where the fuel runs out.
unfoldable pub rpm_loop : ℕ → Text → Text → Option Comparison
unfolding step skip by_rest
rpm_loop zero a b = if is_empty a && is_empty b then some same else none
rpm_loop (suc fuel) a b =
    if is_empty a && is_empty b
    then some same
    else elim (step (skip a) (skip b)) [ answer c ↦ some c | next a' b' ↦ rpm_loop fuel a' b' ]

unfoldable pub rpmvercmp : Text → Text → Option Comparison
unfolding rpm_loop ◌≟◌
rpmvercmp a b = if a ≟ b then some same else rpm_loop (length a + length b) a b

-- Epoch, version and release.
abbrev pub Evr : Type 0
Evr = ℕ × Text × Text

-- None where `int` raises.
unfoldable pub split_evr : Text → Option Evr
unfolding partition all_digits int_of
split_evr value =
    let (head, found, tail) = partition 58 value in
    let with_epoch = found && all_digits head in
    let (version, _, release) = partition 45 (if with_epoch then tail else value) in
    if with_epoch
    then elim (int_of head) [ none ↦ none | some epoch ↦ some (epoch, version, release) ]
    else some (0, version, release)

-- The parts of two versions.
unfoldable pub by_evr : Evr → Evr → Option Comparison
unfolding rpmvercmp by_number
by_evr a b =
    let (ea, va, ra) = a in
    let (eb, vb, rb) = b in
    let releases = rpmvercmp ra rb in
    elim (by_number ea eb) [
      | same ↦ elim (rpmvercmp va vb) [ some same ↦ releases | c ↦ c ]
      | older ↦ some older
      | newer ↦ some newer
    ]

unfoldable pub rpm_compare : Text → Text → Option Comparison
unfolding split_evr by_evr both
rpm_compare a b = both (split_evr a) (split_evr b) by_evr
