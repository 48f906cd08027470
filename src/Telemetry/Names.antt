-- ===== src/Telemetry/Names.antt =====
-- The identifiers of chunks (form/src/kcatta_form/telemetry_chunks.py) are within the limit.
use kcatta.Prelude.{
  ℕ, zero, suc, ◌+◌, ◌-◌, ◌*◌, ◌/◌, ◌%◌, ◌≡◌, ◌≤◌, ◌<◌, refl, Bool, true, false, not, ◌&&◌, [], ◌∷◌,
  ◌++◌, inl, inr, arith, Text, codes, ltb, leb, ◌==◌, Bool-cases, length, length-append,
  length-take, take, ok,
}
use kcatta.Telemetry.Lineage.{
  max_correlation_id_chars, hash_label, decimal_on, decimal, shortened, sibling, lineage_root,
  lineage_child,
}
use kcatta.Telemetry.Split.{chunk_id, root_id}

-- A character that JSON writes as one byte.
abbrev pub one_byte : ℕ → Bool
one_byte c = leb 32 c && leb c 126 && not (c == 34) && not (c == 92)

abbrev pub is_narrow : Text → Bool
is_narrow [] = true
is_narrow (c ∷ s) = one_byte c && is_narrow s

-- 10 to the power of `k`.
abbrev pub tens : ℕ → ℕ
tens zero = 1
tens (suc k) = 10 * tens k

narrow-append : (s t : Text) → is_narrow s ≡ true → is_narrow t ≡ true → is_narrow (s ++ t) ≡ true
narrow-append [] t p q = q
narrow-append (c ∷ s) t p q = ground (arith, narrow-append s t)

narrow-take : (n : ℕ) (s : Text) → is_narrow s ≡ true → is_narrow (take n s) ≡ true
narrow-take zero s p = refl
narrow-take (suc n) [] p = refl
narrow-take (suc n) (c ∷ s) p = ground (arith, narrow-take n s)

length-decimal_on : (k fuel n : ℕ) → n < tens (suc k) → length (decimal_on fuel n) ≤ suc k
unfolding decimal_on
length-decimal_on k zero n lt = omega arith
length-decimal_on k (suc fuel) n lt = elim (Bool-cases (ltb n 10)) [
  | inl e ↦ rw e (omega arith)
  | inr e ↦ rw e (longer k lt (ground arith) (λ j below. length-decimal_on j fuel (n / 10) below))
]
  where
    longer :
        (k : ℕ)
        → n < tens (suc k)
        → 10 ≤ n
        → ((j : ℕ) → n / 10 < tens (suc j) → length (decimal_on fuel (n / 10)) ≤ suc j)
        → length (decimal_on fuel (n / 10) ++ ((48 + n % 10) ∷ [])) ≤ suc k
    longer zero below above shorter = absurd (omega (arith, below, above))
    longer (suc j) below above shorter =
        let ih = shorter j (omega (arith, below)) in
        omega (arith, ih, length-append (decimal_on fuel (n / 10)) ((48 + n % 10) ∷ []))

narrow-decimal_on : (fuel n : ℕ) → is_narrow (decimal_on fuel n) ≡ true
unfolding decimal_on
narrow-decimal_on zero n = refl
narrow-decimal_on (suc fuel) n = elim (Bool-cases (ltb n 10)) [
  | inl e ↦ rw e (ground arith)
  | inr e ↦ rw e (
      narrow-append (decimal_on fuel (n / 10)) ((48 + n % 10) ∷ [])
        (narrow-decimal_on fuel (n / 10)) (ground arith))
]

-- A digest as hashlib writes it, and a text that JSON writes with one byte for each character.
pub record IsDigest (sha256 : Text → Text) : Type 0 where
  pub size : (s : Text) → length (sha256 s) ≡ 64
  pub narrow : (s : Text) → is_narrow (sha256 s) ≡ true

module _ (sha256 : Text → Text) (digest : IsDigest sha256) where
  length-shortened : (limit : ℕ) (s : Text) → 72 ≤ limit → length (shortened sha256 limit s) ≤ limit
  unfolding shortened
  length-shortened limit s le = elim (Bool-cases (leb (length s) limit)) [
    | inl e ↦ rw e (ground arith)
    | inr e ↦
        let cut = take (limit - length hash_label - length (sha256 s)) s in
        let fits : length (cut ++ hash_label ++ sha256 s) ≤ limit = omega (
          arith,
          le,
          digest.size s,
          length-append (cut ++ hash_label) (sha256 s),
          length-append cut hash_label,
          length-take (limit - length hash_label - length (sha256 s)) s,
        ) in
        rw e fits
  ]

  narrow-shortened :
      (limit : ℕ) (s : Text) → is_narrow s ≡ true → is_narrow (shortened sha256 limit s) ≡ true
  unfolding shortened
  narrow-shortened limit s p = elim (Bool-cases (leb (length s) limit)) [
    | inl e ↦ rw e p
    | inr e ↦
        let cut = limit - length hash_label - length (sha256 s) in
        rw e (
          narrow-append (take cut s ++ hash_label) (sha256 s)
            (narrow-append (take cut s) hash_label (narrow-take cut s p) refl) (digest.narrow s))
  ]

  length-sibling :
      (root : Text) (index total : ℕ)
      → length root ≤ 216
      → index < tens 14
      → total < tens 14
      → length (sibling root (codes "chunk") index total) ≤ max_correlation_id_chars
  length-sibling root index total le i t =
      let a = length-decimal_on 13 (suc index) index i in
      let z = length-decimal_on 13 (suc total) total t in
      let start = root ++ codes "::" ++ codes "chunk" ++ codes "-" in
      omega (
        arith,
        le,
        a,
        z,
        length-append (start ++ decimal index ++ codes "-of-") (decimal total),
        length-append (start ++ decimal index) (codes "-of-"),
        length-append start (decimal index),
        length-append (root ++ codes "::" ++ codes "chunk") (codes "-"),
        length-append (root ++ codes "::") (codes "chunk"),
        length-append root (codes "::"),
      )

  narrow-sibling :
      (root : Text) (index total : ℕ)
      → is_narrow root ≡ true
      → is_narrow (sibling root (codes "chunk") index total) ≡ true
  narrow-sibling root index total p =
      let start = root ++ codes "::" ++ codes "chunk" ++ codes "-" in
      let begun : is_narrow start ≡ true =
        narrow-append (root ++ codes "::" ++ codes "chunk") (codes "-")
          (narrow-append (root ++ codes "::") (codes "chunk")
            (narrow-append root (codes "::") p refl) refl)
          refl in
      narrow-append (start ++ decimal index ++ codes "-of-") (decimal total)
        (narrow-append (start ++ decimal index) (codes "-of-")
          (narrow-append start (decimal index) begun (narrow-decimal_on (suc index) index)) refl)
        (narrow-decimal_on (suc total) total)

  -- Every chunk has an identifier within the limit, and a narrow one if the report's is narrow.
  pub chunk_id-ok :
      (original : Text) (index total : ℕ)
      → length original ≤ max_correlation_id_chars
      → is_narrow original ≡ true
      → 1 ≤ index
      → index ≤ total
      → total < tens 14
      → (id : Text) × (chunk_id (root_id sha256 original total) index total ≡ ok id)
        × (length id ≤ max_correlation_id_chars)
        × (is_narrow id ≡ true)
  unfolding chunk_id root_id lineage_root lineage_child
  chunk_id-ok original index total le narrow first last few = elim (Bool-cases (index == 1)) [
    | inl e ↦ elim (Bool-cases (ltb 1 total)) [
      | inl many ↦
          let short = length-shortened 216 original (omega arith) in
          rw (e, many)
            (
              shortened sha256 216 original,
              refl,
              omega (arith, short),
              narrow-shortened 216 original narrow,
            )
      | inr one ↦ rw (e, one) (original, refl, le, narrow)
    ]
    | inr e ↦
        let many : ltb 1 total ≡ true = ground arith in
        let root = shortened sha256 216 original in
        let short = length-shortened 216 original (omega arith) in
        let fits = length-sibling root index total short (omega (arith, last, few)) few in
        let off : ltb max_correlation_id_chars (length (sibling root (codes "chunk") index total))
            ≡ false =
          ground arith in
        rw (e, many, off)
          (
            sibling root (codes "chunk") index total,
            refl,
            fits,
            narrow-sibling root index total (narrow-shortened 216 original narrow),
          )
  ]
