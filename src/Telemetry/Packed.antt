-- ===== src/Telemetry/Packed.antt =====
-- What the packing of form/src/kcatta_form/telemetry_chunks.py keeps, and when it succeeds.
use kcatta.Prelude.{
  ℕ, ◌+◌, ◌≡◌, ◌≤◌, refl, sym, ap, ◌∙◌, true, List, [], ◌∷◌, ◌++◌, inl, inr, arith, ltb, Bool-cases,
  ok, ok_elim, >>-eq-ok, ok-injective, length, length-append,
}
use kcatta.Telemetry.Pack.{
  value_error, Stream, Budget, Packing, flush, separator, exceeds, place, add_item, add, or_one,
  packed_chunks,
}

append_assoc : {A : Type 0} (xs ys zs : List A) → (xs ++ ys) ++ zs ≡ xs ++ (ys ++ zs)
append_assoc [] ys zs = refl
append_assoc (x ∷ xs) ys zs = ap (λ rest. x ∷ rest) (append_assoc xs ys zs)

pub append_nil : {A : Type 0} (xs : List A) → xs ++ [] ≡ xs
append_nil [] = refl
append_nil (x ∷ xs) = ap (λ rest. x ∷ rest) (append_nil xs)

-- The parts of the elements, one behind the other.
abbrev pub flat : {A B : Type 0} → (A → List B) → List A → List B
flat f [] = []
flat f (x ∷ xs) = f x ++ flat f xs

flat-append :
    {A B : Type 0} (f : A → List B) (xs ys : List A) → flat f (xs ++ ys) ≡ flat f xs ++ flat f ys
flat-append f [] ys = refl
flat-append f (x ∷ xs) ys =
    ap (λ rest. f x ++ rest) (flat-append f xs ys)
    ∙ sym (append_assoc (f x) (flat f xs) (flat f ys))

module _ {Chunk Y : Type 0} (b : Budget Chunk) (view : Chunk → List Y) where
  -- What the chunks of a packing hold of a stream, in order.
  abbrev pub contents : Packing Chunk → List Y
  contents p = flat view p.packed ++ view p.chunk

  -- A view of chunks that blank and new chunks have nothing in.
  pub record IsView : Type 0 where
    pub blank : (c : Chunk) → b.is_blank c ≡ true → view c ≡ []
    pub fresh : view b.fresh ≡ []

  module _ (v : IsView) where
    pub flush-contents : (p : Packing Chunk) → contents (flush b p) ≡ contents p
    unfolding flush
    flush-contents p = elim (Bool-cases (b.is_blank p.chunk)) [
      | inl e ↦ rw e refl
      | inr e ↦
          rw
            (
              e,
              v.fresh,
              append_nil (flat view (p.packed ++ (p.chunk ∷ []))),
              flat-append view p.packed (p.chunk ∷ []),
              append_nil (view p.chunk),
            )
            refl
    ]

    pub flush-packed : (p : Packing Chunk) → flat view (flush b p).packed ≡ contents p
    unfolding flush
    flush-packed p = elim (Bool-cases (b.is_blank p.chunk)) [
      | inl e ↦ rw (e, v.blank p.chunk e, append_nil (flat view p.packed)) refl
      | inr e ↦ rw (e, flat-append view p.packed (p.chunk ∷ []), append_nil (view p.chunk)) refl
    ]

    module _ {Item : Type 0} (s : Stream Chunk Item) (emit : Item → List Y)
        (appends : (x : Item) (c : Chunk) → view (s.append x c) ≡ view c ++ emit x) where
      place-contents :
          (item : Item) (separators : ℕ) (p : Packing Chunk) {p' : Packing Chunk}
          → place b s item separators p ≡ ok p'
          → contents p' ≡ contents p ++ emit item
      unfolding place
      place-contents item separators p h =
          let (_, h1) =
            >>-eq-ok (ltb b.max_bytes (p.current_bytes + separators + s.item_size item)) value_error
              _ h in
          let back : view (s.append item p.chunk) ≡ view p.chunk ++ emit item =
            appends item p.chunk in
          rw
            (
              sym (ok-injective h1),
              back,
              append_assoc (flat view p.packed) (view p.chunk) (emit item),
            )
            refl

      pub add-contents :
          (items : List Item) (p : Packing Chunk) {p' : Packing Chunk}
          → add b s items p ≡ ok p'
          → contents p' ≡ contents p ++ flat emit items
      unfolding add add_item
      add-contents [] p h = rw (sym (ok-injective h)) (sym (append_nil (contents p)))
      add-contents (item ∷ items) p h = ok_elim (add_item b s item p) _ h λ q made h1.
          let step : contents q ≡ contents p ++ emit item = elim (Bool-cases (exceeds b s item p)) [
            | inl e ↦
                place-contents item 0 (flush b p) (rw e at made)
                ∙ ap (λ z. z ++ emit item) (flush-contents p)
            | inr e ↦ place-contents item (separator s p.chunk) p (rw e at made)
          ] in
          add-contents items q h1
          ∙ (ap (λ z. z ++ flat emit items) step
              ∙ append_assoc (contents p) (emit item) (flat emit items))

length-flush :
    {Chunk : Type 0} (b : Budget Chunk) (p : Packing Chunk)
    → length (flush b p).packed ≤ length p.packed + 1
unfolding flush
length-flush b p = elim (Bool-cases (b.is_blank p.chunk)) [
  | inl e ↦ rw e (omega arith)
  | inr e ↦ rw e (omega (arith, length-append p.packed (p.chunk ∷ [])))
]

place-packed :
    {Chunk Item : Type 0} (b : Budget Chunk) (s : Stream Chunk Item) (item : Item) (n : ℕ)
    (p : Packing Chunk) {p' : Packing Chunk}
    → place b s item n p ≡ ok p'
    → p'.packed ≡ p.packed
unfolding place
place-packed b s item n p h =
    let (_, h1) =
      >>-eq-ok (ltb b.max_bytes (p.current_bytes + n + s.item_size item)) value_error _ h in
    ap (λ q. q.packed) (sym (ok-injective h1))

-- Each item closes one chunk at most.
pub add-length :
    {Chunk Item : Type 0} (b : Budget Chunk) (s : Stream Chunk Item) (items : List Item)
    (p : Packing Chunk) {p' : Packing Chunk}
    → add b s items p ≡ ok p'
    → length p'.packed ≤ length p.packed + length items
unfolding add add_item
add-length b s [] p h = rw (sym (ok-injective h)) (omega arith)
add-length b s (item ∷ items) p h = ok_elim (add_item b s item p) _ h λ q made h1.
    let step : length q.packed ≤ length p.packed + 1 = elim (Bool-cases (exceeds b s item p)) [
      | inl e ↦ rw (place-packed b s item 0 (flush b p) (rw e at made)) (length-flush b p)
      | inr e ↦ rw (place-packed b s item (separator s p.chunk) p (rw e at made)) (omega arith)
    ] in
    omega (arith, step, add-length b s items q h1)

pub packed_chunks-length :
    {Chunk : Type 0} (b : Budget Chunk) (p : Packing Chunk)
    → (1 ≤ length (packed_chunks b p)) × (length (packed_chunks b p) ≤ length p.packed + 1)
unfolding packed_chunks
packed_chunks-length b p = one_or_more (flush b p).packed (length-flush b p)
  where
    one_or_more :
        (chunks : List _)
        → length chunks ≤ length p.packed + 1
        → (1 ≤ length (or_one b.fresh chunks))
          × (length (or_one b.fresh chunks) ≤ length p.packed + 1)
    one_or_more [] le = (omega arith, omega arith)
    one_or_more (c ∷ chunks) le = (omega arith, le)

-- The chunks hold what the packing holds.
pub packed_chunks-contents :
    {Chunk Y : Type 0} (b : Budget Chunk) (view : Chunk → List Y) (v : IsView b view)
    (p : Packing Chunk)
    → flat view (packed_chunks b p) ≡ contents b view p
unfolding packed_chunks
packed_chunks-contents b view v p = at_least_one (flush b p).packed ∙ flush-packed b view v p
  where
    at_least_one : (chunks : List _) → flat view (or_one b.fresh chunks) ≡ flat view chunks
    at_least_one [] = append_nil (view b.fresh) ∙ v.fresh
    at_least_one (c ∷ chunks) = refl
