-- ===== src/Prelude/Table.antt =====
-- A table of the database as the list of its rows: the queries and updates that the stores use.
use Prim.Native.Nat.{ℕ, suc, ◌+◌, ◌≤◌, ◌<◌}
use mathlib.Core.Bool.{Bool, true, false, ◌||◌}
use mathlib.Core.Path.{◌≡◌, refl, ap}
use mathlib.Core.Logic.{◌⊎◌, inl, inr}
use mathlib.Core.List.{List, [], ◌∷◌, Memᴰ}
use mathlib.Core.List.Memᴰ.{head, tail}
use mathlib.Core.Option.{Option, none, some}
use native.Mathlib.Omega.{arith}
use kcatta.Prelude.Tests.{if◌then◌else◌, Bool-cases}
use kcatta.Prelude.Lists.{length}

module _ {ℓ} {A : Type ℓ} where
  -- SELECT … WHERE p
  unfoldable pub select : (A → Bool) → List A → List A
  select p [] = []
  select p (x ∷ xs) = let rest = select p xs in if p x then x ∷ rest else rest

  -- UPDATE … WHERE p
  unfoldable pub update_where : (A → Bool) → (A → A) → List A → List A
  update_where p f [] = []
  update_where p f (x ∷ xs) = (if p x then f x else x) ∷ update_where p f xs

  -- SELECT COUNT(*) … WHERE p, and the row count of an update
  unfoldable pub count_where : (A → Bool) → List A → ℕ
  count_where p [] = 0
  count_where p (x ∷ xs) = let rest = count_where p xs in if p x then suc rest else rest

  -- SELECT … WHERE p, of which the code fetches one row
  unfoldable pub find_where : (A → Bool) → List A → Option A
  find_where p [] = none
  find_where p (x ∷ xs) = let rest = find_where p xs in if p x then some x else rest

  -- EXISTS (SELECT 1 … WHERE p)
  unfoldable pub exists_where : (A → Bool) → List A → Bool
  exists_where p [] = false
  exists_where p (x ∷ xs) = p x || exists_where p xs

  Memᴰ-if :
      (b : Bool) {x y : A} (rest : List A)
      → Memᴰ x (if b then y ∷ rest else rest)
      → ((x ≡ y) × (b ≡ true)) ⊎ Memᴰ x rest
  Memᴰ-if true rest (head e) = inl (e, refl)
  Memᴰ-if true rest (tail m) = inr m
  Memᴰ-if false rest m = inr m

  if-Memᴰ-head :
      (b : Bool) {x y : A} (rest : List A)
      → b ≡ true
      → x ≡ y
      → Memᴰ x (if b then y ∷ rest else rest)
  if-Memᴰ-head true rest b e = head e
  if-Memᴰ-head false rest b e = cc

  if-Memᴰ-tail :
      (b : Bool) {x : A} (y : A) (rest : List A)
      → Memᴰ x rest
      → Memᴰ x (if b then y ∷ rest else rest)
  if-Memᴰ-tail true y rest m = tail m
  if-Memᴰ-tail false y rest m = m

  -- A selected row is a row, and passes the test.
  pub Memᴰ-select :
      (p : A → Bool) (xs : List A) {x : A} → Memᴰ x (select p xs) → Memᴰ x xs × (p x ≡ true)
  unfolding select
  Memᴰ-select p [] m = elim m [ ]
  Memᴰ-select p (y ∷ xs) m = elim (Memᴰ-if (p y) (select p xs) m) [
    | inl (e, q) ↦ (head e, rw e q)
    | inr k ↦ let (j, q) = Memᴰ-select p xs k in (tail j, q)
  ]

  pub select-Memᴰ :
      (p : A → Bool) {x : A} {xs : List A} → Memᴰ x xs → p x ≡ true → Memᴰ x (select p xs)
  unfolding select
  select-Memᴰ p {xs = []} m q = elim m [ ]
  select-Memᴰ p {xs = y ∷ xs} (head e) q = if-Memᴰ-head (p y) (select p xs) (rw e at q) e
  select-Memᴰ p {xs = y ∷ xs} (tail m) q = if-Memᴰ-tail (p y) y (select p xs) (select-Memᴰ p m q)

  -- A row of an updated table is a row of the table, changed if it passes the test.
  pub Memᴰ-update_where :
      (p : A → Bool) (f : A → A) (xs : List A) {y : A}
      → Memᴰ y (update_where p f xs)
      → (x : A) × Memᴰ x xs × (y ≡ (if p x then f x else x))
  unfolding update_where
  Memᴰ-update_where p f [] m = elim m [ ]
  Memᴰ-update_where p f (x ∷ xs) (head e) = (x, head refl, e)
  Memᴰ-update_where p f (x ∷ xs) (tail m) =
      let (z, k, e) = Memᴰ-update_where p f xs m in (z, tail k, e)

  pub update_where-Memᴰ :
      (p : A → Bool) (f : A → A) {x : A} {xs : List A}
      → Memᴰ x xs
      → Memᴰ (if p x then f x else x) (update_where p f xs)
  unfolding update_where
  update_where-Memᴰ p f (head e) = head (ap (λ z. if p z then f z else z) e)
  update_where-Memᴰ p f (tail m) = tail (update_where-Memᴰ p f m)

  pub update_where_hit :
      (p : A → Bool) (f : A → A) {x : A} {xs : List A}
      → Memᴰ x xs
      → p x ≡ true
      → Memᴰ (f x) (update_where p f xs)
  update_where_hit p f {x} {xs} m q =
      let k : Memᴰ (if p x then f x else x) (update_where p f xs) = update_where-Memᴰ p f m in
      rw q at k

  pub length-update_where :
      (p : A → Bool) (f : A → A) (xs : List A) → length (update_where p f xs) ≡ length xs
  unfolding update_where
  length-update_where p f [] = refl
  length-update_where p f (x ∷ xs) = ap suc (length-update_where p f xs)

  -- `find_where` finds a row that passes the test, or there is none.
  pub find_where-some :
      (p : A → Bool) (xs : List A) {x : A} → find_where p xs ≡ some x → Memᴰ x xs × (p x ≡ true)
  unfolding find_where
  find_where-some p [] h = cc
  find_where-some p (y ∷ xs) {x} h = elim (Bool-cases (p y)) [
    | inl e ↦ let q : x ≡ y = ground arith in (head q, rw q e)
    | inr e ↦ let (k, q) = find_where-some p xs {x = x} (ground arith) in (tail k, q)
  ]

  pub find_where-none :
      (p : A → Bool) {xs : List A} → find_where p xs ≡ none → {x : A} → Memᴰ x xs → p x ≡ false
  unfolding find_where
  find_where-none p {xs = []} h m = elim m [ ]
  find_where-none p {xs = y ∷ xs} h (head e) = rw e (ground arith)
  find_where-none p {xs = y ∷ xs} h (tail m) = find_where-none p {xs = xs} (ground arith) m

  pub exists_where-false :
      (p : A → Bool) {xs : List A} → exists_where p xs ≡ false → {x : A} → Memᴰ x xs → p x ≡ false
  unfolding exists_where
  exists_where-false p {xs = []} h m = elim m [ ]
  exists_where-false p {xs = y ∷ xs} h (head e) = rw e (ground arith)
  exists_where-false p {xs = y ∷ xs} h (tail m) = exists_where-false p {xs = xs} (ground arith) m

  pub exists_where_zero :
      (p : A → Bool) (xs : List A) → ((x : A) → Memᴰ x xs → p x ≡ false) → exists_where p xs ≡ false
  unfolding exists_where
  exists_where_zero p [] h = refl
  exists_where_zero p (x ∷ xs) h =
      rw (h x (head refl)) (exists_where_zero p xs (λ b m. h b (tail m)))

  pub exists_where_of_Memᴰ :
      (p : A → Bool) {xs : List A} {x : A} → Memᴰ x xs → p x ≡ true → exists_where p xs ≡ true
  exists_where_of_Memᴰ p {xs} {x} m q = elim (Bool-cases (exists_where p xs)) [
    | inl e ↦ e
    | inr e ↦ absurd (let r : p x ≡ false = exists_where-false p e m in cc)
  ]

  pub length-select : (p : A → Bool) (xs : List A) → length (select p xs) ≡ count_where p xs
  unfolding select count_where
  length-select p [] = refl
  length-select p (x ∷ xs) = ground (arith, length-select p xs)

  pub count_where-le-length : (p : A → Bool) (xs : List A) → count_where p xs ≤ length xs
  unfolding count_where
  count_where-le-length p [] = omega arith
  count_where-le-length p (x ∷ xs) = ground (arith, count_where-le-length p xs)

  pub count_where-update_where :
      (q p : A → Bool) (f : A → A) (xs : List A)
      → count_where q (update_where p f xs) ≤ count_where q xs + count_where p xs
  unfolding count_where update_where
  count_where-update_where q p f [] = omega arith
  count_where-update_where q p f (x ∷ xs) = ground (arith, count_where-update_where q p f xs)

  pub exists_where_of_find_where :
      (p : A → Bool) (xs : List A) → find_where p xs ≡ none → exists_where p xs ≡ false
  unfolding find_where exists_where
  exists_where_of_find_where p [] h = refl
  exists_where_of_find_where p (x ∷ xs) h = ground (arith, exists_where_of_find_where p xs)

  pub count_where-lt-length :
      (p : A → Bool) {x : A} {xs : List A} → Memᴰ x xs → p x ≡ false → count_where p xs < length xs
  unfolding count_where
  count_where-lt-length p {xs = []} m e = elim m [ ]
  count_where-lt-length p {xs = y ∷ xs} (head q) e =
      rw (← q, e) (omega (arith, count_where-le-length p xs))
  count_where-lt-length p {xs = y ∷ xs} (tail m) e = ground (arith, count_where-lt-length p m e)

  pub count_where_zero :
      (p : A → Bool) (xs : List A) → ((x : A) → Memᴰ x xs → p x ≡ false) → count_where p xs ≡ 0
  unfolding count_where
  count_where_zero p [] h = refl
  count_where_zero p (x ∷ xs) h = rw (h x (head refl)) (count_where_zero p xs (λ b m. h b (tail m)))

  pub select_nil :
      (p : A → Bool) (xs : List A) → ((x : A) → Memᴰ x xs → p x ≡ false) → select p xs ≡ []
  unfolding select
  select_nil p [] h = refl
  select_nil p (x ∷ xs) h = rw (h x (head refl)) (select_nil p xs (λ b m. h b (tail m)))
