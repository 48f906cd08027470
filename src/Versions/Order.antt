-- ===== src/Versions/Order.antt =====
-- The comparison of analyzer/src/analyzer/detect/debversion.py ends, and turns round with its arguments.
use kcatta.Prelude.{
  ℕ, suc, zero, ◌+◌, ◌≤◌, ◌<◌, ◌≡◌, refl, Bool, true, false, ◌&&◌, ◌||◌, ◌⊎◌, inl, inr, Option,
  some, [], ◌∷◌, arith, Text, ◌==◌, length, is_empty, is_digit, span, lstrip_of, Bool-cases,
}
use kcatta.Versions.Compare.{Comparison, older, same, newer, by_number}
use kcatta.Versions.Debian.{
  Parts, run_char, past, in_run, Run, decided, left_over, compare_run, compare_digits, round,
  segments, compare_segment, by_parts,
}

past-length : (a : Text) → length (past a) ≤ length a
unfolding past
past-length [] = omega arith
past-length (c ∷ s) = ground arith

past-shorter : (a : Text) → in_run a ≡ true → length (past a) < length a
unfolding past run_char
past-shorter [] h = absurd (cc)
past-shorter (c ∷ s) h = ground arith

-- What a finished inner loop has left: no more than there was, less if there was a run, and, with fuel
-- for every character, no run.
record Left (fuel : ℕ) (a b a' b' : Text) : Type 0 where
  shorter : length a' + length b' ≤ length a + length b
  moved : (in_run a || in_run b) ≡ true → 1 ≤ fuel → length a' + length b' < length a + length b
  stays : (in_run a || in_run b) ≡ false → (a' ≡ a) × (b' ≡ b)
  no_run : length a + length b ≤ fuel → (in_run a' || in_run b') ≡ false

run_nonempty : (a b : Text) → (in_run a || in_run b) ≡ true → 1 ≤ length a + length b
unfolding run_char
run_nonempty [] [] h = absurd (cc)
run_nonempty (c ∷ s) b h = omega arith
run_nonempty [] (c ∷ s) h = omega arith

left_over-injective : {a b a' b' : Text} → left_over a b ≡ left_over a' b' → (a ≡ a') × (b ≡ b')
left_over-injective h = (cc, cc)

fewer :
    (a b : Text)
    → (in_run a || in_run b) ≡ true
    → length (past a) + length (past b) < length a + length b
fewer a b h = elim (Bool-cases (in_run a)) [
  | inl e ↦ omega (arith, past-shorter a e, past-length b)
  | inr e ↦ let e' : in_run b ≡ true = rw e at h in omega (arith, past-length a, past-shorter b e')
]

compare_run-Left :
    (fuel : ℕ) (a b a' b' : Text) → compare_run fuel a b ≡ left_over a' b' → Left fuel a b a' b'
unfolding compare_run
compare_run-Left zero a b a' b' h =
    let (p, q) = left_over-injective h in
    rw (← p, ← q)
      (record {
        shorter = omega arith;
        moved = λ _ n. absurd (omega (arith, n));
        stays = λ _. (refl, refl);
        no_run = λ n. elim (Bool-cases (in_run a || in_run b)) [
          | inl e ↦ absurd (let k = run_nonempty a b e in omega (arith, k, n))
          | inr e ↦ e
        ];
      })
compare_run-Left (suc fuel) a b a' b' h = elim (Bool-cases (in_run a || in_run b)) [
  | inr e ↦
      let (p, q) = left_over-injective (rw e at h) in
      rw (← p, ← q)
        (record {
          shorter = omega arith;
          moved = λ t _. absurd (cc);
          stays = λ _. (refl, refl);
          no_run = λ _. e;
        })
  | inl e ↦
      let h' : compare_run fuel (past a) (past b) ≡ left_over a' b' = ground arith in
      let k = compare_run-Left fuel (past a) (past b) a' b' h' in
      let less = fewer a b e in
      let s = k.shorter in
      record {
        shorter = omega arith;
        moved = λ _ _. omega (arith, less, s);
        stays = λ f. absurd (cc);
        no_run = λ n. k.no_run (omega (arith, less, n));
      }
]

abbrev rest_of : Text → Text
rest_of a = (span is_digit (lstrip_of 48 a)).1

span-length : (p : ℕ → Bool) (s : Text) → length (span p s).1 ≤ length s
unfolding span
span-length p [] = omega arith
span-length p (c ∷ s) = ground (arith, span-length p s)

lstrip-length : (c : ℕ) (s : Text) → length (lstrip_of c s) ≤ length s
unfolding lstrip_of
lstrip-length c [] = omega arith
lstrip-length c (x ∷ s) = ground (arith, lstrip-length c s)

rest_of-length : (a : Text) → length (rest_of a) ≤ length a
rest_of-length a = omega (arith, span-length is_digit (lstrip_of 48 a), lstrip-length 48 a)

rest_of-shorter :
    (c : ℕ) (s : Text) → in_run (c ∷ s) ≡ false → length (rest_of (c ∷ s)) < length (c ∷ s)
unfolding run_char lstrip_of span
rest_of-shorter c s h = elim (Bool-cases (c == 48)) [
  | inl e ↦
      rw (e, length) (omega (arith, span-length is_digit (lstrip_of 48 s), lstrip-length 48 s))
  | inr e ↦
      let digit : is_digit c ≡ true = ground arith in
      rw (e, digit, length) (omega (arith, span-length is_digit s))
]

rests_shorter :
    (a b : Text)
    → (in_run a || in_run b) ≡ false
    → 1 ≤ length a + length b
    → length (rest_of a) + length (rest_of b) < length a + length b
rests_shorter [] [] h n = absurd (omega (arith, n))
rests_shorter [] (c ∷ s) h n =
    let f : in_run (c ∷ s) ≡ false = ground arith in
    omega (arith, rest_of-length [], rest_of-shorter c s f)
rests_shorter (c ∷ s) b h n =
    let f : in_run (c ∷ s) ≡ false = ground arith in
    omega (arith, rest_of-length b, rest_of-shorter c s f)

-- Each round of the outer loop takes something off.
round_shorter :
    (a b a' b' : Text)
    → 1 ≤ length a + length b
    → compare_run (length a + length b) a b ≡ left_over a' b'
    → length (rest_of a') + length (rest_of b') < length a + length b
round_shorter a b a' b' n h =
    let k = compare_run-Left (length a + length b) a b a' b' h in
    let clean = k.no_run (omega arith) in
    elim (Bool-cases (in_run a || in_run b)) [
      | inl e ↦ omega (arith, k.moved e n, rest_of-length a', rest_of-length b')
      | inr e ↦ let (p, q) = k.stays e in rw (p, q) (rests_shorter a b e n)
    ]

pub Run-cases :
    (x : Run)
    → ((c : Comparison) × (x ≡ decided c)) ⊎ ((a : Text) × (b : Text) × (x ≡ left_over a b))
Run-cases (decided c) = inl (c, refl)
Run-cases (left_over a b) = inr (a, b, refl)

pub Comparison-cases : (c : Comparison) → (c ≡ same) ⊎ ((c ≡ older) ⊎ (c ≡ newer))
Comparison-cases older = inr (inl refl)
Comparison-cases same = inl refl
Comparison-cases newer = inr (inr refl)

round-total :
    (rest : Text → Text → Option Comparison) (a b : Text)
    → 1 ≤ length a + length b
    → ((a' b' : Text)
        → length a' + length b' < length a + length b
        → (c : Comparison) × (rest a' b' ≡ some c))
    → (c : Comparison) × (round rest a b ≡ some c)
unfolding round
round-total rest a b n k = elim (Run-cases (compare_run (length a + length b) a b)) [
  | inl (c, e) ↦ (c, rw (e, round) refl)
  | inr (a', b', e) ↦
      let da = (span is_digit (lstrip_of 48 a')).0 in
      let db = (span is_digit (lstrip_of 48 b')).0 in
      let (c, q) = k (rest_of a') (rest_of b') (round_shorter a b a' b' n e) in
      elim (Comparison-cases (compare_digits da db)) [
        | inl equal ↦ (c, rw (e, equal, round) q)
        | inr (inl less) ↦ (older, rw (e, less, round) refl)
        | inr (inr more) ↦ (newer, rw (e, more, round) refl)
      ]
]

both_empty : (a b : Text) → (is_empty a && is_empty b) ≡ false → 1 ≤ length a + length b
both_empty [] [] h = absurd (cc)
both_empty [] (y ∷ b) h = omega arith
both_empty (x ∷ a) b h = omega arith

segments-total :
    (fuel : ℕ) (a b : Text)
    → length a + length b ≤ fuel
    → (c : Comparison) × (segments fuel a b ≡ some c)
unfolding segments
segments-total zero a b n = elim (Bool-cases (is_empty a && is_empty b)) [
  | inl e ↦ (same, rw e refl)
  | inr e ↦ absurd (let k = both_empty a b e in omega (arith, n, k))
]
segments-total (suc fuel) a b n = elim (Bool-cases (is_empty a && is_empty b)) [
  | inl e ↦ (same, rw e refl)
  | inr e ↦
      let (c, q) =
        round-total (segments fuel) a b (both_empty a b e)
          (λ a' b' less. segments-total fuel a' b' (omega (arith, n, less))) in
      (c, rw e q)
]

segment-total : (a b : Text) → (c : Comparison) × (compare_segment a b ≡ some c)
unfolding compare_segment
segment-total a b = segments-total (length a + length b) a b (omega arith)

-- The comparison of the parts of two Debian versions ends with a result: its loops make no more rounds
-- than the texts have characters.
pub by_parts-total : (a b : Parts) → (c : Comparison) × (by_parts a b ≡ some c)
unfolding by_parts
by_parts-total a b =
    let (ea, ua, ra) = a in
    let (eb, ub, rb) = b in
    let (c, p) = segment-total ua ub in
    let (d, q) = segment-total ra rb in
    elim (Comparison-cases (by_number ea eb)) [
      | inl equal ↦ elim (Comparison-cases c) [
        | inl s ↦ (d, rw (equal, p, s, by_parts) q)
        | inr (inl s) ↦ (older, rw (equal, p, s, by_parts) refl)
        | inr (inr s) ↦ (newer, rw (equal, p, s, by_parts) refl)
      ]
      | inr (inl less) ↦ (older, rw (less, by_parts) refl)
      | inr (inr more) ↦ (newer, rw (more, by_parts) refl)
    ]
