-- ===== src/Prelude/Sort.antt =====
-- ORDER BY over keys that are texts or tuples of numbers: the lexicographic order, and a stable sort.
use mathlib.Core.Bool.{Bool, true, false, ◌&&◌, ◌||◌}
use mathlib.Core.Path.{◌≡◌, refl}
use mathlib.Core.Logic.{◌⊎◌, inl, inr}
use mathlib.Core.List.{List, [], ◌∷◌, Memᴰ}
use mathlib.Core.List.Memᴰ.{head, tail}
use native.Mathlib.Omega.{arith}
use kcatta.Prelude.Tests.{◌==◌, ltb, if◌then◌else◌, Bool-cases}
use kcatta.Prelude.Texts.{Text}

-- The order of tuples and of texts.
unfoldable pub text_le : Text → Text → Bool
text_le [] ys = true
text_le (x ∷ xs) [] = false
text_le (x ∷ xs) (y ∷ ys) = ltb x y || ((x == y) && text_le xs ys)

pub text_le_refl : (a : Text) → text_le a a ≡ true
unfolding text_le
text_le_refl [] = refl
text_le_refl (x ∷ xs) = ground (arith, text_le_refl xs)

pub text_le-total : (a b : Text) → (text_le a b ≡ true) ⊎ (text_le b a ≡ true)
unfolding text_le
text_le-total [] b = inl refl
text_le-total (x ∷ xs) [] = inr refl
text_le-total (x ∷ xs) (y ∷ ys) = ground (arith, text_le-total xs ys)

pub text_le_trans : (a b c : Text) → text_le a b ≡ true → text_le b c ≡ true → text_le a c ≡ true
unfolding text_le
text_le_trans [] b c p q = refl
text_le_trans (x ∷ xs) [] c p q = cc
text_le_trans (x ∷ xs) (y ∷ ys) [] p q = cc
text_le_trans (x ∷ xs) (y ∷ ys) (z ∷ zs) p q = ground (arith, text_le_trans xs ys zs)

pub text_le_antisymm : (a b : Text) → text_le a b ≡ true → text_le b a ≡ true → a ≡ b
unfolding text_le
text_le_antisymm [] [] p q = refl
text_le_antisymm [] (y ∷ ys) p q = cc
text_le_antisymm (x ∷ xs) [] p q = cc
text_le_antisymm (x ∷ xs) (y ∷ ys) p q = ground (arith, text_le_antisymm xs ys)

module _ {ℓ} {A : Type ℓ} (key : A → Text) where
  insert_on : A → List A → List A
  insert_on x [] = x ∷ []
  insert_on x (y ∷ ys) =
      let rest = insert_on x ys in if text_le (key x) (key y) then x ∷ y ∷ ys else y ∷ rest

  -- SELECT … ORDER BY key
  unfoldable pub sort_on : List A → List A
  unfolding insert_on text_le
  sort_on [] = []
  sort_on (x ∷ xs) = insert_on x (sort_on xs)

  abbrev pub IsSortedOn : List A → Type ℓ
  IsSortedOn [] = Unit
  IsSortedOn (x ∷ xs) = ((y : A) → Memᴰ y xs → text_le (key x) (key y) ≡ true) × IsSortedOn xs

  Memᴰ-insert_on : (x : A) (ys : List A) {z : A} → Memᴰ z (insert_on x ys) → (z ≡ x) ⊎ Memᴰ z ys
  unfolding insert_on
  Memᴰ-insert_on x [] (head e) = inl e
  Memᴰ-insert_on x [] (tail m) = elim m [ ]
  Memᴰ-insert_on x (y ∷ ys) {z} m = elim (Bool-cases (text_le (key x) (key y))) [
    | inl e ↦ front (rw e at m)
    | inr e ↦ back (λ k. Memᴰ-insert_on x ys k) (rw e at m)
  ]
    where
      front : Memᴰ z (x ∷ y ∷ ys) → (z ≡ x) ⊎ Memᴰ z (y ∷ ys)
      front (head q) = inl q
      front (tail k) = inr k

      later : (z ≡ x) ⊎ Memᴰ z ys → (z ≡ x) ⊎ Memᴰ z (y ∷ ys)
      later (inl q) = inl q
      later (inr k) = inr (tail k)

      back :
          (Memᴰ z (insert_on x ys) → (z ≡ x) ⊎ Memᴰ z ys)
          → Memᴰ z (y ∷ insert_on x ys)
          → (z ≡ x) ⊎ Memᴰ z (y ∷ ys)
      back ih (head q) = inr (head q)
      back ih (tail k) = later (ih k)

  insert_on-Memᴰ_self : (x : A) (ys : List A) → Memᴰ x (insert_on x ys)
  unfolding insert_on
  insert_on-Memᴰ_self x [] = head refl
  insert_on-Memᴰ_self x (y ∷ ys) = elim (Bool-cases (text_le (key x) (key y))) [
    | inl e ↦ rw e (head refl)
    | inr e ↦ rw e (tail (insert_on-Memᴰ_self x ys))
  ]

  insert_on-Memᴰ : (x : A) (ys : List A) {z : A} → Memᴰ z ys → Memᴰ z (insert_on x ys)
  unfolding insert_on
  insert_on-Memᴰ x [] m = elim m [ ]
  insert_on-Memᴰ x (y ∷ ys) m = elim (Bool-cases (text_le (key x) (key y))) [
    | inl e ↦ rw e (tail m)
    | inr e ↦ rw e (elim m [ head q ↦ head q | tail k ↦ tail (insert_on-Memᴰ x ys k) ])
  ]

  pub Memᴰ-sort_on : (xs : List A) {z : A} → Memᴰ z (sort_on xs) → Memᴰ z xs
  unfolding sort_on insert_on
  Memᴰ-sort_on [] m = m
  Memᴰ-sort_on (x ∷ xs) m = elim (Memᴰ-insert_on x (sort_on xs) m) [
    | inl e ↦ head e
    | inr k ↦ tail (Memᴰ-sort_on xs k)
  ]

  pub sort_on-Memᴰ : {z : A} {xs : List A} → Memᴰ z xs → Memᴰ z (sort_on xs)
  unfolding sort_on insert_on
  sort_on-Memᴰ {xs = []} m = elim m [ ]
  sort_on-Memᴰ {xs = x ∷ xs} (head e) = rw e (insert_on-Memᴰ_self x (sort_on xs))
  sort_on-Memᴰ {xs = x ∷ xs} (tail m) = insert_on-Memᴰ x (sort_on xs) (sort_on-Memᴰ m)

  insert_on-IsSortedOn : (x : A) (ys : List A) → IsSortedOn ys → IsSortedOn (insert_on x ys)
  unfolding insert_on
  insert_on-IsSortedOn x [] s = (λ y m. elim m [ ], tt)
  insert_on-IsSortedOn x (y ∷ ys) s = elim (Bool-cases (text_le (key x) (key y))) [
    | inl e ↦ rw e (before e, s)
    | inr e ↦ rw e (above e, insert_on-IsSortedOn x ys s.1)
  ]
    where
      before :
          text_le (key x) (key y) ≡ true
          → (z : A) → Memᴰ z (y ∷ ys)
          → text_le (key x) (key z) ≡ true
      before e z (head q) = rw q e
      before e z (tail m) = text_le_trans (key x) (key y) (key z) e (s.0 z m)

      least : text_le (key x) (key y) ≡ false → text_le (key y) (key x) ≡ true
      least e = elim (text_le-total (key x) (key y)) [ inl p ↦ cc | inr p ↦ p ]

      above :
          text_le (key x) (key y) ≡ false
          → (z : A) → Memᴰ z (insert_on x ys)
          → text_le (key y) (key z) ≡ true
      above e z m = elim (Memᴰ-insert_on x ys m) [ inl q ↦ rw q (least e) | inr k ↦ s.0 z k ]

  -- The sort is in order.
  pub sort_on-IsSortedOn : (xs : List A) → IsSortedOn (sort_on xs)
  unfolding sort_on insert_on
  sort_on-IsSortedOn [] = tt
  sort_on-IsSortedOn (x ∷ xs) = insert_on-IsSortedOn x (sort_on xs) (sort_on-IsSortedOn xs)
