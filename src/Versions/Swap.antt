-- ===== src/Versions/Swap.antt =====
-- Exchanging the two versions turns the result of analyzer/src/analyzer/detect/debversion.py round.
pub mod Language
pub mod Rpm
pub mod Rounds
pub mod All
use kcatta.Prelude.{
  ℕ, suc, zero, ◌+◌, ◌≡◌, refl, ap, sym, ◌∙◌, Bool, true, false, ◌&&◌, ◌||◌, inl, inr, Option, none,
  some, List, [], ◌∷◌, arith, Text, ltb, ◌==◌, if◌then◌else◌, length, is_empty, is_digit, span,
  lstrip_of, Bool-cases, Option-cases,
}
use kcatta.Versions.Compare.{
  Comparison, older, same, newer, flip, or_then, or_next, both, by_number, by_text, flip-or_then,
  flip-by_number, flip-by_text,
}
use kcatta.Versions.Debian.{
  Parts, by_parts, split_version, run_char, past, in_run, order, Run, decided, left_over,
  compare_run, compare_digits, round, segments, compare_segment, dpkg_compare,
}
use kcatta.Versions.Order.{Run-cases, Comparison-cases}

abbrev pub flipped : Option Comparison → Option Comparison
flipped none = none
flipped (some c) = some (flip c)

pub flipped-or_next :
    (a b : Option Comparison) → flipped (or_next a b) ≡ or_next (flipped a) (flipped b)
unfolding or_next flip
flipped-or_next none b = refl
flipped-or_next (some older) b = refl
flipped-or_next (some same) b = refl
flipped-or_next (some newer) b = refl

pub both-flipped {ℓ} :
    {A : Type ℓ} (x y : Option A) (f : A → A → Option Comparison)
    → ((m n : A) → f n m ≡ flipped (f m n))
    → both y x f ≡ flipped (both x y f)
unfolding both
both-flipped none none f h = refl
both-flipped none (some n) f h = refl
both-flipped (some m) none f h = refl
both-flipped (some m) (some n) f h = h m n

abbrev flipped_run : Run → Run
flipped_run (decided c) = decided (flip c)
flipped_run (left_over a b) = left_over b a

pub or_comm : (p q : Bool) → (p || q) ≡ (q || p)
or_comm p q = ground arith

pub and_comm : (p q : Bool) → (p && q) ≡ (q && p)
and_comm p q = ground arith

pub add_comm : (m n : ℕ) → m + n ≡ n + m
add_comm m n = omega arith

compare_run-flip :
    (fuel : ℕ) (a b : Text) → compare_run fuel b a ≡ flipped_run (compare_run fuel a b)
unfolding compare_run flip
compare_run-flip zero a b = refl
compare_run-flip (suc fuel) a b =
    let turned = flip-by_number (order (run_char a)) (order (run_char b)) in
    let rest = compare_run-flip fuel (past a) (past b) in
    let both = or_comm (in_run a) (in_run b) in
    elim (Bool-cases (in_run a || in_run b)) [
      | inr e ↦ let e' : (in_run b || in_run a) ≡ false = ground arith in rw (e, e') refl
      | inl e ↦
          let e' : (in_run b || in_run a) ≡ true = ground arith in
          elim (Comparison-cases (by_number (order (run_char a)) (order (run_char b)))) [
            | inl c ↦ rw (e, e', ← turned, c, compare_run) rest
            | inr (inl c) ↦ rw (e, e', ← turned, c, compare_run) refl
            | inr (inr c) ↦ rw (e, e', ← turned, c, compare_run) refl
          ]
    ]

compare_digits-flip : (a b : Text) → flip (compare_digits a b) ≡ compare_digits b a
unfolding compare_digits
compare_digits-flip a b =
    rw
      (
        flip-or_then (by_number (length a) (length b)) (by_text a b),
        flip-by_number (length a) (length b),
        flip-by_text a b,
      )
      refl

round-flip :
    (rest : Text → Text → Option Comparison)
    → ((a b : Text) → rest b a ≡ flipped (rest a b))
    → (a b : Text) → round rest b a ≡ flipped (round rest a b)
unfolding round flip
round-flip rest k a b =
    let run = compare_run-flip (length a + length b) a b in
    let fuels = add_comm (length b) (length a) in
    elim (Run-cases (compare_run (length a + length b) a b)) [
      | inl (c, e) ↦ rw (fuels, run, e, round) refl
      | inr (a', b', e) ↦
          let da = (span is_digit (lstrip_of 48 a')).0 in
          let db = (span is_digit (lstrip_of 48 b')).0 in
          let turned = compare_digits-flip da db in
          elim (Comparison-cases (compare_digits da db)) [
            | inl c ↦ rw (fuels, run, e, ← turned, c, round) (k _ _)
            | inr (inl c) ↦ rw (fuels, run, e, ← turned, c, round) refl
            | inr (inr c) ↦ rw (fuels, run, e, ← turned, c, round) refl
          ]
    ]

segments-flip : (fuel : ℕ) (a b : Text) → segments fuel b a ≡ flipped (segments fuel a b)
unfolding segments flip
segments-flip zero a b =
    let both = and_comm (is_empty b) (is_empty a) in
    elim (Bool-cases (is_empty a && is_empty b)) [
      | inl e ↦ rw (both, e) refl
      | inr e ↦ rw (both, e) refl
    ]
segments-flip (suc fuel) a b =
    let both = and_comm (is_empty b) (is_empty a) in
    elim (Bool-cases (is_empty a && is_empty b)) [
      | inl e ↦ rw (both, e) refl
      | inr e ↦ rw (both, e) (round-flip (segments fuel) (λ x y. segments-flip fuel x y) a b)
    ]

segment-flip : (a b : Text) → compare_segment b a ≡ flipped (compare_segment a b)
unfolding compare_segment
segment-flip a b = rw (add_comm (length b) (length a)) (segments-flip (length a + length b) a b)

by_parts-swap : (a b : Parts) → by_parts b a ≡ flipped (by_parts a b)
unfolding by_parts flip
by_parts-swap a b =
    let (ea, ua, ra) = a in
    let (eb, ub, rb) = b in
    let epochs = flip-by_number ea eb in
    let upstream = segment-flip ua ub in
    elim (Comparison-cases (by_number ea eb)) [
      | inr (inl c) ↦ rw (← epochs, c, by_parts) refl
      | inr (inr c) ↦ rw (← epochs, c, by_parts) refl
      | inl c ↦ elim (Option-cases (compare_segment ua ub)) [
        | inl e ↦ rw (← epochs, c, upstream, e, by_parts) refl
        | inr (d, e) ↦ elim (Comparison-cases d) [
          | inl s ↦ rw (← epochs, c, upstream, e, s, by_parts) (segment-flip ra rb)
          | inr (inl s) ↦ rw (← epochs, c, upstream, e, s, by_parts) refl
          | inr (inr s) ↦ rw (← epochs, c, upstream, e, s, by_parts) refl
        ]
      ]
    ]

-- Exchanging the two Debian versions turns the result round: older becomes newer, the same stays.
pub dpkg_compare-swap : (a b : Text) → dpkg_compare b a ≡ flipped (dpkg_compare a b)
unfolding dpkg_compare
dpkg_compare-swap a b = both-flipped (split_version a) (split_version b) by_parts by_parts-swap
