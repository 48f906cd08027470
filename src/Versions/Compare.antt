-- ===== src/Versions/Compare.antt =====
-- The results of the comparators of analyzer/src/analyzer/detect/versioning.py and debversion.py, and
-- how they combine.
use kcatta.Prelude.{
  ℕ, ◌≡◌, refl, Option, none, some, [], ◌∷◌, arith, Text, ltb, ◌==◌, if◌then◌else◌, length, number,
}

-- -1, 0 and 1.
pub data Comparison : Type 0 where
  older same newer : Comparison

unfoldable pub flip : Comparison → Comparison
flip older = newer
flip same = same
flip newer = older

-- `if (c := first) != 0: return c`, and what follows.
unfoldable pub or_then : Comparison → Comparison → Comparison
or_then same rest = rest
or_then c rest = c

-- `if x != y: return -1 if x < y else 1`, or 0.
unfoldable pub by_number : ℕ → ℕ → Comparison
by_number x y = if x == y then same else if ltb x y then older else newer

-- Python's order on `str`, by code points.
unfoldable pub by_text : Text → Text → Comparison
unfolding by_number or_then
by_text [] [] = same
by_text [] (y ∷ ys) = older
by_text (x ∷ xs) [] = newer
by_text (x ∷ xs) (y ∷ ys) = or_then (by_number x y) (by_text xs ys)

-- `int(s)` of ASCII digits: none for the ValueError that Python raises over 4300 of them, its default.
unfoldable pub int_of : Text → Option ℕ
unfolding number
int_of s = if ltb 4300 (length s) then none else some (number s)

-- What two calls return goes on to `f`; none where one of them raised.
unfoldable pub both {ℓ} :
    {A : Type ℓ} → Option A → Option A → (A → A → Option Comparison) → Option Comparison
both none y f = none
both (some x) none f = none
both (some x) (some y) f = f x y

-- `or_then`, where each of the two may raise.
unfoldable pub or_next : Option Comparison → Option Comparison → Option Comparison
or_next none rest = none
or_next (some same) rest = rest
or_next (some c) rest = some c

-- Two texts of digits by their numbers.
unfoldable pub by_int : Text → Text → Option Comparison
unfolding int_of both by_number
by_int x y = both (int_of x) (int_of y) (λ m n. some (by_number m n))

pub flip-flip : (c : Comparison) → flip (flip c) ≡ c
unfolding flip
flip-flip older = refl
flip-flip same = refl
flip-flip newer = refl

pub flip-or_then : (a b : Comparison) → flip (or_then a b) ≡ or_then (flip a) (flip b)
unfolding flip or_then
flip-or_then older b = refl
flip-or_then same b = refl
flip-or_then newer b = refl

pub flip-by_number : (x y : ℕ) → flip (by_number x y) ≡ by_number y x
unfolding flip by_number
flip-by_number x y = ground arith

pub by_number_refl : (x : ℕ) → by_number x x ≡ same
unfolding by_number
by_number_refl x = ground arith

pub flip-by_text : (a b : Text) → flip (by_text a b) ≡ by_text b a
unfolding by_text flip
flip-by_text [] [] = refl
flip-by_text [] (y ∷ ys) = refl
flip-by_text (x ∷ xs) [] = refl
flip-by_text (x ∷ xs) (y ∷ ys) =
    rw (flip-or_then (by_number x y) (by_text xs ys), flip-by_number x y, flip-by_text xs ys) refl

pub by_text_refl : (a : Text) → by_text a a ≡ same
unfolding by_text or_then
by_text_refl [] = refl
by_text_refl (x ∷ xs) = rw (by_number_refl x) (by_text_refl xs)
