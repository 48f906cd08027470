-- ===== src/Telemetry/Bounded.antt =====
-- The packing of form/src/kcatta_form/telemetry_chunks.py keeps to its budgets, and fails only for an
-- item that fits in no envelope.
use kcatta.Prelude.{
  ℕ, ◌+◌, ◌≡◌, ◌≤◌, ◌<◌, refl, Bool, true, false, ◌&&◌, ◌||◌, List, [], ◌∷◌, ◌++◌, ◌⊎◌, inl, inr,
  arith, Memᴰ, head, tail, ltb, leb, lt→ltb, leb→le, Bool-cases, ok, err,
}
use kcatta.Telemetry.Pack.{
  value_error, max_envelope_items, Stream, Budget, Packing, flush, separator, exceeds, place,
  add_item, add,
}

Memᴰ-snoc :
    {A : Type 0} (xs : List A) (y : A) {x : A} → Memᴰ x (xs ++ (y ∷ [])) → Memᴰ x xs ⊎ (x ≡ y)
Memᴰ-snoc [] y (head e) = inr e
Memᴰ-snoc [] y (tail m) = elim m [ ]
Memᴰ-snoc (z ∷ xs) y (head e) = inl (head e)
Memᴰ-snoc (z ∷ xs) y (tail m) = elim (Memᴰ-snoc xs y m) [ inl k ↦ inl (tail k) | inr e ↦ inr e ]

-- An item that fits in an envelope of its own.
abbrev pub fits_alone : {Chunk Item : Type 0} → Budget Chunk → Stream Chunk Item → Item → Bool
fits_alone b s item = leb (b.empty_bytes + s.item_size item) b.max_bytes

abbrev pub all_fit : {Chunk Item : Type 0} → Budget Chunk → Stream Chunk Item → List Item → Bool
all_fit b s [] = true
all_fit b s (item ∷ items) = fits_alone b s item && all_fit b s items

module _ {Chunk : Type 0} (b : Budget Chunk) (weight : Chunk → ℕ) (Fits : Chunk → Type 0) where
  -- A chunk within both budgets: `weight` is the bytes of its items and the separators.
  pub record IsWithin (c : Chunk) : Type 0 where
    pub bytes : b.empty_bytes + weight c ≤ b.max_bytes
    pub items : Fits c

  pub record IsGood (p : Packing Chunk) : Type 0 where
    pub size : p.current_bytes ≡ b.empty_bytes + weight p.chunk
    pub bytes : p.current_bytes ≤ b.max_bytes
    pub items : Fits p.chunk
    pub packed : (c : Chunk) → Memᴰ c p.packed → IsWithin c

  -- What the weight and the number of items of a new and of a blank chunk are.
  pub record IsMeasure : Type 0 where
    pub fresh : weight b.fresh ≡ 0
    pub fresh_fits : Fits b.fresh
    pub blank : (c : Chunk) → b.is_blank c ≡ true → weight c ≡ 0

  pub record IsCounted {Item : Type 0} (s : Stream Chunk Item) : Type 0 where
    pub grows :
        (x : Item) (c : Chunk) → weight (s.append x c) ≡ weight c + (separator s c + s.item_size x)
    pub fits :
        (x : Item) (c : Chunk) → s.count c < max_envelope_items → Fits c → Fits (s.append x c)
    pub fresh : s.count b.fresh ≡ 0
    pub blank : (c : Chunk) → b.is_blank c ≡ true → s.count c ≡ 0

  module _ (m : IsMeasure) where
    -- After `flush` the open chunk has nothing in it.
    pub flush-IsGood :
        (p : Packing Chunk)
        → IsGood p
        → b.empty_bytes ≤ b.max_bytes
        → IsGood (flush b p) × ((flush b p).current_bytes ≡ b.empty_bytes)
    unfolding flush
    flush-IsGood p g room = elim (Bool-cases (b.is_blank p.chunk)) [
      | inl e ↦ rw e (g, omega (arith, g.size, m.blank p.chunk e))
      | inr e ↦ rw e (
        record {
          size = omega (arith, m.fresh);
          bytes = room;
          items = m.fresh_fits;
          packed = λ c k. elim (Memᴰ-snoc p.packed p.chunk k) [
            | inl old ↦ g.packed c old
            | inr same ↦
                rw same (record { bytes = omega (arith, g.size, g.bytes); items = g.items })
          ];
        },
        refl,
      )
    ]

    module _ {Item : Type 0} (s : Stream Chunk Item) (counted : IsCounted s) where
      flush-count : (p : Packing Chunk) → s.count (flush b p).chunk ≡ 0
      unfolding flush
      flush-count p = elim (Bool-cases (b.is_blank p.chunk)) [
        | inl e ↦ rw e (counted.blank p.chunk e)
        | inr e ↦ rw e counted.fresh
      ]

      place-IsGood :
          (item : Item) (n : ℕ) (p : Packing Chunk)
          → IsGood p
          → n ≡ separator s p.chunk
          → s.count p.chunk < max_envelope_items
          → p.current_bytes + n + s.item_size item ≤ b.max_bytes
          → (p' : Packing Chunk) × (place b s item n p ≡ ok p') × IsGood p'
      unfolding place
      place-IsGood item n p g is_n few room =
          let off : ltb b.max_bytes (p.current_bytes + n + s.item_size item) ≡ false =
            ground arith in
          (
            record p {
              chunk = s.append item p.chunk;
              current_bytes = p.current_bytes + (n + s.item_size item);
            },
            rw off refl,
            record {
              size = omega (arith, g.size, is_n, counted.grows item p.chunk);
              bytes = omega (arith, room);
              items = counted.fits item p.chunk few g.items;
              packed = g.packed;
            },
          )

      zero_separator : (c : Chunk) → s.count c ≡ 0 → 0 ≡ separator s c
      unfolding separator
      zero_separator c e = ground arith

      add_item-IsGood :
          (item : Item) (p : Packing Chunk)
          → IsGood p
          → fits_alone b s item ≡ true
          → (p' : Packing Chunk) × (add_item b s item p ≡ ok p') × IsGood p'
      unfolding add_item exceeds
      add_item-IsGood item p g fit =
          let room : b.empty_bytes + s.item_size item ≤ b.max_bytes =
            leb→le (b.empty_bytes + s.item_size item) b.max_bytes fit in
          elim (Bool-cases (
            leb max_envelope_items (s.count p.chunk)
            || ltb b.max_bytes (p.current_bytes + separator s p.chunk + s.item_size item))) [
              | inl e ↦
                  let (flushed, start) = flush-IsGood p g (omega (arith, room)) in
                  let none = flush-count p in
                  rw e (
                    place-IsGood item 0 (flush b p) flushed (zero_separator (flush b p).chunk none)
                      (omega (arith, none)) (omega (arith, start, room)))
              | inr e ↦
                  rw e
                    (place-IsGood item (separator s p.chunk) p g refl (ground arith) (ground arith))
            ]

      -- An item that fits alone nowhere is refused.
      place-refuses :
          (item : Item) (n : ℕ) (p : Packing Chunk)
          → b.max_bytes < p.current_bytes + n + s.item_size item
          → place b s item n p ≡ err value_error
      unfolding place
      place-refuses item n p over =
          rw (lt→ltb b.max_bytes (p.current_bytes + n + s.item_size item) over) refl

      add_item-refuses :
          (item : Item) (p : Packing Chunk)
          → IsGood p
          → b.empty_bytes ≤ b.max_bytes
          → fits_alone b s item ≡ false
          → add_item b s item p ≡ err value_error
      unfolding add_item
      add_item-refuses item p g room over =
          let too_big : b.max_bytes < b.empty_bytes + s.item_size item = ground arith in
          elim (Bool-cases (exceeds b s item p)) [
            | inl e ↦
                let (_, start) = flush-IsGood p g room in
                rw e (place-refuses item 0 (flush b p) (omega (arith, start, too_big)))
            | inr e ↦
                rw e (place-refuses item (separator s p.chunk) p (omega (arith, g.size, too_big)))
          ]

      -- `add` from a good packing succeeds with one if each item fits alone, and raises ValueError if
      -- some item does not.
      pub add-outcome :
          (items : List Item) (p : Packing Chunk)
          → IsGood p
          → b.empty_bytes ≤ b.max_bytes
          → ((all_fit b s items ≡ true)
              × ((p' : Packing Chunk) × (add b s items p ≡ ok p') × IsGood p'))
            ⊎ ((all_fit b s items ≡ false) × (add b s items p ≡ err value_error))
      unfolding add
      add-outcome [] p g room = inl (refl, (p, refl, g))
      add-outcome (item ∷ items) p g room = elim (Bool-cases (fits_alone b s item)) [
        | inr e ↦ inr (rw e refl, rw (add_item-refuses item p g room e) refl)
        | inl e ↦
            let (q, made, good) = add_item-IsGood item p g e in
            elim (add-outcome items q good room) [
              | inl (all, (r, rest, last)) ↦ inl (rw (e, all) refl, (r, rw (made, rest) refl, last))
              | inr (some_not, rest) ↦ inr (rw (e, some_not) refl, rw (made, rest) refl)
            ]
      ]
