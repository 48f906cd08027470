-- ===== src/Prelude/Lists.antt =====
-- Lists measured by native numbers, under the library's names.
use Prim.Native.Nat.{ℕ, zero, suc, ◌+◌, ◌-◌, min}
use mathlib.Core.Path.{◌≡◌}
use mathlib.Core.Logic.{◌⊎◌, inl, inr}
use mathlib.Core.List.{reverse, reverse_aux, List, [], ◌∷◌, ◌++◌, Memᴰ}
use mathlib.Core.List.Memᴰ.{head, tail}
use native.Mathlib.Omega.{arith}

module _ {ℓ} {A : Type ℓ} where
  abbrev pub length : List A → ℕ
  length [] = 0
  length (x ∷ xs) = suc (length xs)

  abbrev pub take : ℕ → List A → List A
  take zero xs = []
  take (suc n) [] = []
  take (suc n) (x ∷ xs) = x ∷ take n xs

  abbrev pub drop : ℕ → List A → List A
  drop zero xs = xs
  drop (suc n) [] = []
  drop (suc n) (x ∷ xs) = drop n xs

  pub length-append : (xs ys : List A) → length (xs ++ ys) ≡ length xs + length ys
  length-append [] ys = omega arith
  length-append (x ∷ xs) ys = omega (arith, length-append xs ys)

  pub length-take : (n : ℕ) (xs : List A) → length (take n xs) ≡ min n (length xs)
  length-take zero xs = omega arith
  length-take (suc n) [] = omega arith
  length-take (suc n) (x ∷ xs) = omega (arith, length-take n xs)

  pub length-drop : (n : ℕ) (xs : List A) → length (drop n xs) ≡ length xs - n
  length-drop zero xs = omega arith
  length-drop (suc n) [] = omega arith
  length-drop (suc n) (x ∷ xs) = omega (arith, length-drop n xs)

  pub Memᴰ-take : (n : ℕ) (xs : List A) {x : A} → Memᴰ x (take n xs) → Memᴰ x xs
  Memᴰ-take zero xs m = elim m [ ]
  Memᴰ-take (suc n) [] m = elim m [ ]
  Memᴰ-take (suc n) (y ∷ xs) (head e) = head e
  Memᴰ-take (suc n) (y ∷ xs) (tail m) = tail (Memᴰ-take n xs m)

  pub Memᴰ-drop : (n : ℕ) (xs : List A) {x : A} → Memᴰ x (drop n xs) → Memᴰ x xs
  Memᴰ-drop zero xs m = m
  Memᴰ-drop (suc n) [] m = elim m [ ]
  Memᴰ-drop (suc n) (y ∷ xs) m = tail (Memᴰ-drop n xs m)

  Memᴰ-reverse_aux : (xs ys : List A) {x : A} → Memᴰ x (reverse_aux xs ys) → Memᴰ x xs ⊎ Memᴰ x ys
  Memᴰ-reverse_aux [] ys m = inr m
  Memᴰ-reverse_aux (y ∷ xs) ys m = elim (Memᴰ-reverse_aux xs (y ∷ ys) m) [
    | inl k ↦ inl (tail k)
    | inr (head e) ↦ inl (head e)
    | inr (tail k) ↦ inr k
  ]

  length-reverse_aux : (xs ys : List A) → length (reverse_aux xs ys) ≡ length xs + length ys
  length-reverse_aux [] ys = omega arith
  length-reverse_aux (x ∷ xs) ys = omega (arith, length-reverse_aux xs (x ∷ ys))

  pub length-reverse : (xs : List A) → length (reverse xs) ≡ length xs
  length-reverse xs = omega (arith, length-reverse_aux xs [])

  pub Memᴰ-reverse : (xs : List A) {x : A} → Memᴰ x (reverse xs) → Memᴰ x xs
  Memᴰ-reverse xs m = elim (Memᴰ-reverse_aux xs [] m) [ inl k ↦ k | inr k ↦ elim k [ ] ]
