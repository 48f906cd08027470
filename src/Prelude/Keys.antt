-- ===== src/Prelude/Keys.antt =====
-- A table whose rows have different keys, and what updates and selections do to it.
use Prim.Native.Nat.{suc}
use mathlib.Core.Bool.{Bool, true, false}
use mathlib.Core.Path.{◌≡◌, refl, sym, ap, ◌∙◌}
use mathlib.Core.Logic.{◌≢◌, ◌⊎◌, inl, inr}
use mathlib.Core.List.{List, [], ◌∷◌, Memᴰ}
use mathlib.Core.List.Memᴰ.{head, tail}
use mathlib.Core.List.Memᴰ as Members
use kcatta.Prelude.Tests.{if◌then◌else◌, Bool-cases}
use kcatta.Prelude.Table.{select, update_where, count_where, Memᴰ-select, Memᴰ-update_where}

module _ {ℓ} {A K : Type ℓ} (key : A → K) where
  -- PRIMARY KEY
  abbrev pub IsKeyed : List A → Type ℓ
  IsKeyed [] = Unit
  IsKeyed (x ∷ xs) = ((y : A) → Memᴰ y xs → key y ≢ key x) × IsKeyed xs

  pub IsKeyed-unique :
      (xs : List A) → IsKeyed xs → (a b : A) → Memᴰ a xs → Memᴰ b xs → key a ≡ key b → a ≡ b
  IsKeyed-unique [] h a b m n e = absurd (Members.not-nil m)
  IsKeyed-unique (x ∷ xs) h a b (head p) (head q) e = p ∙ sym q
  IsKeyed-unique (x ∷ xs) h a b (head p) (tail n) e = absurd (h.0 b n (sym e ∙ ap key p))
  IsKeyed-unique (x ∷ xs) h a b (tail m) (head q) e = absurd (h.0 a m (e ∙ ap key q))
  IsKeyed-unique (x ∷ xs) h a b (tail m) (tail n) e = IsKeyed-unique xs h.1 a b m n e

  module _ (p : A → Bool) where
    pub IsKeyed-select : (xs : List A) → IsKeyed xs → IsKeyed (select p xs)
    unfolding select
    IsKeyed-select [] h = tt
    IsKeyed-select (x ∷ xs) h = elim (Bool-cases (p x)) [
      | inl e ↦ rw e (λ y m. h.0 y (Memᴰ-select p xs m).0, IsKeyed-select xs h.1)
      | inr e ↦ rw e (IsKeyed-select xs h.1)
    ]

    module _ (f : A → A) (keeps : (a : A) → p a ≡ true → key (f a) ≡ key a) where
      key_if : (b : Bool) (a : A) → p a ≡ b → key (if b then f a else a) ≡ key a
      key_if true a e = keeps a e
      key_if false a e = refl

      pub IsKeyed-update_where : (xs : List A) → IsKeyed xs → IsKeyed (update_where p f xs)
      unfolding update_where
      IsKeyed-update_where [] h = tt
      IsKeyed-update_where (x ∷ xs) h = (
        λ y m e.
            let (z, k, q) = Memᴰ-update_where p f xs m in
            h.0 z k (sym (key_if (p z) z refl) ∙ (ap key (sym q) ∙ (e ∙ key_if (p x) x refl))),
        IsKeyed-update_where xs h.1,
      )

      -- The rows after an update: the old ones that fail the test, and the new ones of the others.
      pub update_where-cases :
          {b : A} (xs : List A)
          → Memᴰ b (update_where p f xs)
          → (Memᴰ b xs × (p b ≡ false)) ⊎ ((a : A) × Memᴰ a xs × (p a ≡ true) × (b ≡ f a))
      update_where-cases xs m =
          let (a, k, q) = Memᴰ-update_where p f xs m in
          elim (Bool-cases (p a)) [
            | inl e ↦ inr (a, k, e, rw e at q)
            | inr e ↦ let same = rw e at q in inl (Members.cast same k, ap p same ∙ e)
          ]

    count_where_none : (xs : List A) → ((b : A) → Memᴰ b xs → p b ≡ false) → count_where p xs ≡ 0
    unfolding count_where
    count_where_none [] h = refl
    count_where_none (x ∷ xs) h = rw (h x (head refl)) (count_where_none xs (λ b m. h b (tail m)))

    -- A test that only rows of one key pass counts one row.
    pub count_where_unique :
        (xs : List A) (a : A)
        → IsKeyed xs
        → Memᴰ a xs
        → p a ≡ true
        → ((b : A) → p b ≡ true → key b ≡ key a)
        → count_where p xs ≡ 1
    unfolding count_where
    count_where_unique [] a k m e only = absurd (Members.not-nil m)
    count_where_unique (x ∷ xs) a k (head q) e only =
        rw (← q, e)
          (ap suc (
            count_where_none xs (λ b n. elim (Bool-cases (p b)) [
              | inl y ↦ absurd (k.0 b n (only b y ∙ ap key q))
              | inr z ↦ z
            ])))
    count_where_unique (x ∷ xs) a k (tail m) e only = elim (Bool-cases (p x)) [
      | inl y ↦ absurd (k.0 a m (sym (only x y)))
      | inr z ↦ rw z (count_where_unique xs a k.1 m e only)
    ]
