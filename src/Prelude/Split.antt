-- ===== src/Prelude/Split.antt =====
-- Cutting texts: digits, letters, `partition`, `rpartition`, `split` of Python's `str`, on ASCII texts.
use Prim.Native.Nat.{ℕ, ◌+◌, ◌-◌, ◌*◌}
use mathlib.Core.Bool.{Bool, true, false, ◌&&◌, ◌||◌}
use mathlib.Core.List.{List, [], ◌∷◌, reverse}
use kcatta.Prelude.Tests.{leb, ◌==◌, if◌then◌else◌}
use kcatta.Prelude.Texts.{Text}

-- `c.isdigit()` and `c.isalpha()` of an ASCII character.
unfoldable pub is_digit : ℕ → Bool
is_digit c = leb 48 c && leb c 57

unfoldable pub is_letter : ℕ → Bool
is_letter c = (leb 65 c && leb c 90) || (leb 97 c && leb c 122)

abbrev every_digit : Text → Bool
every_digit [] = true
every_digit (c ∷ s) = is_digit c && every_digit s

-- `s.isdigit()`
unfoldable pub all_digits : Text → Bool
unfolding is_digit
all_digits [] = false
all_digits (c ∷ s) = every_digit (c ∷ s)

abbrev number_from : ℕ → Text → ℕ
number_from n [] = n
number_from n (c ∷ s) = number_from (n * 10 + (c - 48)) s

-- `int(s)` of a text of digits.
unfoldable pub number : Text → ℕ
number s = number_from 0 s

-- `s.partition(c)`: what is before the first `c`, whether there is one, and what is after it.
unfoldable pub partition : ℕ → Text → Text × Bool × Text
partition c [] = ([], false, [])
partition c (x ∷ s) =
    let (before, found, after) = partition c s in
    if x == c then ([], true, s) else (x ∷ before, found, after)

-- `s.rpartition(c)`: before the last `c`, whether there is one, after it. Without one, all is after.
unfoldable pub rpartition : ℕ → Text → Text × Bool × Text
unfolding partition
rpartition c s =
    let (after, found, before) = partition c (reverse s) in
    if found then (reverse before, true, reverse after) else ([], false, s)

-- `s.split(c)`
unfoldable pub split : ℕ → Text → List Text
split c [] = [] ∷ []
split c (x ∷ s) = elim (split c s) [
  | [] ↦ [] ∷ []
  | part ∷ parts ↦ if x == c then [] ∷ part ∷ parts else (x ∷ part) ∷ parts
]

-- `s.lower()` of an ASCII text.
unfoldable pub lower : Text → Text
lower [] = []
lower (c ∷ s) = (if leb 65 c && leb c 90 then c + 32 else c) ∷ lower s

-- The longest prefix of digits, or of letters, and the rest.
unfoldable pub span : (ℕ → Bool) → Text → Text × Text
span p [] = ([], [])
span p (c ∷ s) = let (run, rest) = span p s in if p c then (c ∷ run, rest) else ([], c ∷ s)

-- `s.lstrip(c)`
unfoldable pub lstrip_of : ℕ → Text → Text
lstrip_of c [] = []
lstrip_of c (x ∷ s) = let rest = lstrip_of c s in if x == c then rest else x ∷ s

-- `s.partition(cd)` at two characters.
unfoldable pub partition_pair : ℕ → ℕ → Text → Text × Bool × Text
partition_pair c d [] = ([], false, [])
partition_pair c d (x ∷ []) = (x ∷ [], false, [])
partition_pair c d (x ∷ y ∷ s) =
    let (before, found, after) = partition_pair c d (y ∷ s) in
    if (x == c) && (y == d) then ([], true, s) else (x ∷ before, found, after)

-- `s.rpartition(cd)`
unfoldable pub rpartition_pair : ℕ → ℕ → Text → Text × Bool × Text
unfolding partition_pair
rpartition_pair c d s =
    let (after, found, before) = partition_pair d c (reverse s) in
    if found then (reverse before, true, reverse after) else ([], false, s)

-- The characters that pass a test.
unfoldable pub keep : (ℕ → Bool) → Text → Text
keep p [] = []
keep p (c ∷ s) = let rest = keep p s in if p c then c ∷ rest else rest
