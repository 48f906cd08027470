-- ===== src/Versions/Short.antt =====
-- The pieces that the comparators of analyzer/src/analyzer/detect cut a version into are no longer than it.
use kcatta.Prelude.{
  ℕ, suc, ◌≤◌, ◌≡◌, refl, Bool, true, false, some, List, [], ◌∷◌, arith, Text, ltb, ◌==◌,
  if◌then◌else◌, number, length, length-reverse, reverse, partition, rpartition_pair,
  partition_pair, split, keep, strip, lstrip,
}
use kcatta.Versions.Compare.{int_of}
use kcatta.Versions.Semver.{bare}
use kcatta.Versions.Apk.{cut_letter}

pub partition-length :
    (c : ℕ) (s : Text)
    → (length (partition c s).0 ≤ length s) × (length (partition c s).2 ≤ length s)
unfolding partition
partition-length c [] = (omega arith, omega arith)
partition-length c (x ∷ s) = ground (arith, partition-length c s)

pub partition_pair-length :
    (c d : ℕ) (s : Text)
    → (length (partition_pair c d s).0 ≤ length s) × (length (partition_pair c d s).2 ≤ length s)
unfolding partition_pair
partition_pair-length c d [] = (omega arith, omega arith)
partition_pair-length c d (x ∷ []) = (omega arith, omega arith)
partition_pair-length c d (x ∷ y ∷ s) = ground (arith, partition_pair-length c d (y ∷ s))

pub rpartition_pair-length :
    (c d : ℕ) (s : Text)
    → (length (rpartition_pair c d s).0 ≤ length s) × (length (rpartition_pair c d s).2 ≤ length s)
unfolding rpartition_pair
rpartition_pair-length c d s =
    let (after, found, before) = partition_pair d c (reverse s) in
    let (p, q) = partition_pair-length d c (reverse s) in
    ground (arith, p, q, length-reverse s, length-reverse before, length-reverse after)

lstrip-length : (s : Text) → length (lstrip s) ≤ length s
unfolding lstrip
lstrip-length [] = omega arith
lstrip-length (c ∷ s) = ground (arith, lstrip-length s)

pub strip-length : (s : Text) → length (strip s) ≤ length s
unfolding strip
strip-length s = omega (
  arith,
  lstrip-length s,
  lstrip-length (reverse (lstrip s)),
  length-reverse (lstrip s),
  length-reverse (lstrip (reverse (lstrip s))),
)

pub bare-length : (s : Text) → length (bare s) ≤ length s
bare-length [] = omega arith
bare-length (c ∷ s) = ground arith

pub keep-length : (p : ℕ → Bool) (s : Text) → length (keep p s) ≤ length s
unfolding keep
keep-length p [] = omega arith
keep-length p (c ∷ s) = ground (arith, keep-length p s)

pub cut_letter-length : (s : Text) → length (cut_letter s).1 ≤ length s
cut_letter-length [] = omega arith
cut_letter-length (c ∷ s) = ground (arith, length-reverse s, length-reverse (c ∷ s))

-- Every text of a list has at most `n` characters.
abbrev pub AllShort : ℕ → List Text → Type 0
AllShort n [] = Unit
AllShort n (x ∷ xs) = (length x ≤ n) × AllShort n xs

pub AllShort-le : (m n : ℕ) (xs : List Text) → m ≤ n → AllShort m xs → AllShort n xs
AllShort-le m n [] le h = tt
AllShort-le m n (x ∷ xs) le h = let p = h.0 in (omega (arith, le, p), AllShort-le m n xs le h.1)

pub split-AllShort : (c : ℕ) (s : Text) → AllShort (length s) (split c s)
unfolding split
split-AllShort c [] = (omega arith, tt)
split-AllShort c (x ∷ s) = longer (split c s) (split-AllShort c s)
  where
    apart :
        (b : Bool) (part : Text) (parts : List Text)
        → length part ≤ length s
        → AllShort (suc (length s)) parts
        → AllShort (suc (length s)) (if b then [] ∷ part ∷ parts else (x ∷ part) ∷ parts)
    apart true part parts p h = (omega arith, (omega (arith, p), h))
    apart false part parts p h = (omega (arith, p), h)

    longer :
        (parts : List Text)
        → AllShort (length s) parts
        → AllShort (suc (length s)) (elim parts [
          | [] ↦ [] ∷ []
          | part ∷ parts ↦ if x == c then [] ∷ part ∷ parts else (x ∷ part) ∷ parts
        ])
    longer [] h = (omega arith, tt)
    longer (part ∷ parts) h =
        let p = h.0 in
        let rest = AllShort-le (length s) (suc (length s)) parts (omega arith) h.1 in
        apart (x == c) part parts (omega (arith, p)) rest

-- `int` does not raise on a text of at most 4300 digits.
pub int_of-total : (s : Text) → length s ≤ 4300 → (n : ℕ) × (int_of s ≡ some n)
unfolding int_of
int_of-total s h =
    let short : ltb 4300 (length s) ≡ false = ground arith in (number s, rw short refl)
