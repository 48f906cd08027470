-- ===== src/Prelude/Texts.antt =====
-- Texts as lists of code points: equality, and what the code uses of Python's `str`.
use Prim.Native.Char.{code}
use Prim.Native.String.{String}
use Prim.Native.Nat.{ℕ}
use mathlib.Core.Bool.{Bool, true, false, ◌&&◌, ◌||◌}
use mathlib.Core.Logic.{◌↔◌}
use mathlib.Core.Option.{Option, none, some}
use mathlib.Core.Path.{◌≡◌, refl}
use mathlib.Core.List.{List, [], ◌∷◌, reverse}
use native.Mathlib.Omega.{arith}
use kcatta.Prelude.Tests.{◌==◌, leb, if◌then◌else◌}

abbrev pub Text : Type 0
Text = List ℕ

abbrev pub codes : String → Text
codes String.[] = []
codes (String.◌∷◌ c s) = code c ∷ codes s

infix 50 ◌≟◌
unfoldable pub ◌≟◌ : Text → Text → Bool
[] ≟ [] = true
[] ≟ (y ∷ ys) = false
(x ∷ xs) ≟ [] = false
(x ∷ xs) ≟ (y ∷ ys) = (x == y) && (xs ≟ ys)

pub ≟_iff : (a b : Text) → ((a ≟ b) ≡ true) ↔ (a ≡ b)
unfolding ◌≟◌
≟_iff [] [] = ground arith
≟_iff [] (y ∷ ys) = ground arith
≟_iff (x ∷ xs) [] = ground arith
≟_iff (x ∷ xs) (y ∷ ys) = ground (arith, ≟_iff xs ys)

pub ≟_refl : (a : Text) → (a ≟ a) ≡ true
≟_refl a = (≟_iff a a).1 refl

-- A nullable column against a value: NULL equals nothing.
abbrev pub is_text : Option Text → Text → Bool
is_text none b = false
is_text (some a) b = a ≟ b

-- `==` of Python on `str | None`.
abbrev pub same_text? : Option Text → Option Text → Bool
same_text? none none = true
same_text? none (some b) = false
same_text? (some a) none = false
same_text? (some a) (some b) = a ≟ b

-- Membership in a list of texts.
unfoldable pub text_in : Text → List Text → Bool
unfolding ◌≟◌
text_in a [] = false
text_in a (b ∷ bs) = (a ≟ b) || text_in a bs

abbrev pub is_empty {ℓ} : {A : Type ℓ} → List A → Bool
is_empty [] = true
is_empty (x ∷ xs) = false

-- The white space of `str.strip()`.
unfoldable pub is_space : ℕ → Bool
is_space c =
    (leb 9 c && leb c 13)
    || (leb 28 c && leb c 32)
    || (c == 133)
    || (c == 160)
    || (c == 5760)
    || (leb 8192 c && leb c 8202)
    || (c == 8232)
    || (c == 8233)
    || (c == 8239)
    || (c == 8287)
    || (c == 12288)

unfoldable pub lstrip : Text → Text
unfolding is_space
lstrip [] = []
lstrip (c ∷ s) = let rest = lstrip s in if is_space c then rest else c ∷ s

unfoldable pub strip : Text → Text
unfolding lstrip
strip s = reverse (lstrip (reverse (lstrip s)))
