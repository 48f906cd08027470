-- ===== src/Versions/Swap/Rounds.antt =====
-- Exchanging the two versions turns RPM's comparison in analyzer/src/analyzer/detect/versioning.py
-- round.
use kcatta.Prelude.{
  ℕ, suc, zero, ◌+◌, ◌≡◌, refl, sym, ap, ◌∙◌, Bool, true, false, ◌&&◌, ◌||◌, inl, inr, [], ◌∷◌,
  arith, Text, ≟_iff, ◌≟◌, ◌==◌, if◌then◌else◌, length, is_empty, is_digit, is_letter, span,
  lstrip_of, Bool-cases, Option-cases,
}
use kcatta.Versions.Compare.{
  older, newer, flip, flip-flip, by_number, by_text, flip-or_then, flip-by_number, flip-by_text,
}
use kcatta.Versions.Rpm.{
  skip, by_segment, Step, answer, next, by_rest, run_test, step_runs, step_segment, step, rpm_loop,
  rpmvercmp, split_evr, Evr, by_evr, rpm_compare,
}
use kcatta.Versions.Order.{Comparison-cases}
use kcatta.Versions.Swap.{both-flipped, flipped, and_comm, add_comm}
use kcatta.Versions.Swap.Rpm.{Step-cases}

abbrev flipped_step : Step → Step
flipped_step (answer c) = answer (flip c)
flipped_step (next a b) = next b a

-- A text at its end, at a mark, or at a digit or a letter.
abbrev Ready : Text → Type 0
Ready [] = Unit
Ready (c ∷ s) = (is_digit c || is_letter c || (c == 126) || (c == 94)) ≡ true

skip-Ready : (s : Text) → Ready (skip s)
unfolding skip
skip-Ready [] = tt
skip-Ready (c ∷ s) = elim (Bool-cases (is_digit c || is_letter c || (c == 126) || (c == 94))) [
  | inl e ↦ rw (e, skip) e
  | inr e ↦ rw (e, skip) (skip-Ready s)
]

by_segment-flip :
    (numeric : Bool) (a b : Text) → flip (by_segment numeric a b) ≡ by_segment numeric b a
unfolding by_segment
by_segment-flip true a b =
    rw
      (
        flip-or_then (by_number (length (lstrip_of 48 a)) (length (lstrip_of 48 b)))
            (by_text (lstrip_of 48 a) (lstrip_of 48 b)),
        flip-by_number (length (lstrip_of 48 a)) (length (lstrip_of 48 b)),
        flip-by_text (lstrip_of 48 a) (lstrip_of 48 b),
      )
      refl
by_segment-flip false a b = flip-by_text a b

span_hit : (p : ℕ → Bool) (c : ℕ) (s : Text) → p c ≡ true → is_empty (span p (c ∷ s)).0 ≡ false
unfolding span
span_hit p c s e = rw e refl

span_miss : (p : ℕ → Bool) (c : ℕ) (s : Text) → p c ≡ false → is_empty (span p (c ∷ s)).0 ≡ true
unfolding span
span_miss p c s e = rw e refl

digit_no_letter : (c : ℕ) → is_digit c ≡ true → is_letter c ≡ false
unfolding is_digit is_letter
digit_no_letter c h = ground arith

-- Two sides of one kind, and of two.
step_runs-flip :
    (numeric : Bool) (a b : Text)
    → is_empty (span (run_test numeric) a).0 ≡ false
    → is_empty (span (run_test numeric) b).0 ≡ false
    → step_runs numeric b a ≡ flipped_step (step_runs numeric a b)
unfolding step_runs flip
step_runs-flip numeric a b ha hb =
    let p = run_test numeric in
    let turned = by_segment-flip numeric (span p a).0 (span p b).0 in
    elim (Comparison-cases (by_segment numeric (span p a).0 (span p b).0)) [
      | inl c ↦ rw (ha, hb, ← turned, c, step_runs) refl
      | inr (inl c) ↦ rw (ha, hb, ← turned, c, step_runs) refl
      | inr (inr c) ↦ rw (ha, hb, ← turned, c, step_runs) refl
    ]

step_runs_unlike :
    (numeric : Bool) (a b : Text)
    → is_empty (span (run_test numeric) b).0 ≡ true
    → step_runs numeric a b ≡ answer (if numeric then newer else older)
unfolding step_runs
step_runs_unlike numeric a b h = rw h refl

step_segment_of :
    (numeric : Bool) (x : ℕ) (a b : Text)
    → is_digit x ≡ numeric
    → step_segment (x ∷ a) b ≡ step_runs numeric (x ∷ a) b
unfolding step_segment
step_segment_of numeric x a b e = ap (λ n. step_runs n (x ∷ a) b) e

step_segment-flip :
    (x y : ℕ) (a b : Text)
    → (is_digit x || is_letter x) ≡ true
    → (is_digit y || is_letter y) ≡ true
    → step_segment (y ∷ b) (x ∷ a) ≡ flipped_step (step_segment (x ∷ a) (y ∷ b))
unfolding flip
step_segment-flip x y a b hx hy = elim (Bool-cases (is_digit x)) [
  | inl dx ↦ elim (Bool-cases (is_digit y)) [
    | inl dy ↦
        step_segment_of true y b (x ∷ a) dy
        ∙ (step_runs-flip true (x ∷ a) (y ∷ b) (span_hit is_digit x a dx) (span_hit is_digit y b dy)
            ∙ ap flipped_step (sym (step_segment_of true x a (y ∷ b) dx)))
    | inr dy ↦
        (step_segment_of false y b (x ∷ a) dy
          ∙ step_runs_unlike false (y ∷ b) (x ∷ a) (span_miss is_letter x a (digit_no_letter x dx)))
        ∙ ap flipped_step (
            sym (
              step_segment_of true x a (y ∷ b) dx
              ∙ step_runs_unlike true (x ∷ a) (y ∷ b) (span_miss is_digit y b dy)))
  ]
  | inr dx ↦ elim (Bool-cases (is_digit y)) [
    | inl dy ↦
        (step_segment_of true y b (x ∷ a) dy
          ∙ step_runs_unlike true (y ∷ b) (x ∷ a) (span_miss is_digit x a dx))
        ∙ ap flipped_step (
            sym (
              step_segment_of false x a (y ∷ b) dx
              ∙ step_runs_unlike false (x ∷ a) (y ∷ b)
                  (span_miss is_letter y b (digit_no_letter y dy))))
    | inr dy ↦
        let lx : is_letter x ≡ true = rw dx at hx in
        let ly : is_letter y ≡ true = rw dy at hy in
        step_segment_of false y b (x ∷ a) dy
        ∙ (step_runs-flip false (x ∷ a) (y ∷ b) (span_hit is_letter x a lx)
              (span_hit is_letter y b ly)
            ∙ ap flipped_step (sym (step_segment_of false x a (y ∷ b) dx)))
  ]
]

of_ready :
    (c : ℕ)
    → (is_digit c || is_letter c || (c == 126) || (c == 94)) ≡ true
    → (c == 126) ≡ false
    → (c == 94) ≡ false
    → (is_digit c || is_letter c) ≡ true
of_ready c h t k = ground arith

-- One side at its end.
step_end : (y : ℕ) (b : Text) → step (y ∷ b) [] ≡ flipped_step (step [] (y ∷ b))
unfolding step by_rest flip
step_end y b = elim (Bool-cases (y == 126)) [
  | inl e ↦ rw e refl
  | inr e ↦ elim (Bool-cases (y == 94)) [ inl f ↦ rw (e, f) refl | inr f ↦ rw (e, f) refl ]
]

flip-flip_step : (x : Step) → flipped_step (flipped_step x) ≡ x
unfolding flip
flip-flip_step (answer c) = ap answer (flip-flip c)
flip-flip_step (next a b) = refl

step-flip : (a b : Text) → Ready a → Ready b → step b a ≡ flipped_step (step a b)
unfolding step flip
step-flip [] [] ra rb = end_same
  where
    end_same : step [] [] ≡ flipped_step (step [] [])
    end_same = refl
step-flip [] (y ∷ b) ra rb = step_end y b
step-flip (x ∷ a) [] ra rb = sym (ap flipped_step (step_end x a) ∙ flip-flip_step (step [] (x ∷ a)))
step-flip (x ∷ a) (y ∷ b) ra rb = elim (Bool-cases (x == 126)) [
  | inl tx ↦ elim (Bool-cases (y == 126)) [ inl ty ↦ rw (tx, ty) refl | inr ty ↦ rw (tx, ty) refl ]
  | inr tx ↦ elim (Bool-cases (y == 126)) [
    | inl ty ↦ rw (tx, ty) refl
    | inr ty ↦ elim (Bool-cases (x == 94)) [
      | inl cx ↦ elim (Bool-cases (y == 94)) [
        | inl cy ↦ rw (tx, ty, cx, cy) refl
        | inr cy ↦ rw (tx, ty, cx, cy) refl
      ]
      | inr cx ↦ elim (Bool-cases (y == 94)) [
        | inl cy ↦ rw (tx, ty, cx, cy) refl
        | inr cy ↦
            rw (tx, ty, cx, cy)
              (step_segment-flip x y a b (of_ready x ra tx cx) (of_ready y rb ty cy))
      ]
    ]
  ]
]

rpm_loop-flip : (fuel : ℕ) (a b : Text) → rpm_loop fuel b a ≡ flipped (rpm_loop fuel a b)
unfolding rpm_loop flip
rpm_loop-flip zero a b =
    let both = and_comm (is_empty b) (is_empty a) in
    elim (Bool-cases (is_empty a && is_empty b)) [
      | inl e ↦ rw (both, e) refl
      | inr e ↦ rw (both, e) refl
    ]
rpm_loop-flip (suc fuel) a b =
    let both = and_comm (is_empty b) (is_empty a) in
    let turned = step-flip (skip a) (skip b) (skip-Ready a) (skip-Ready b) in
    elim (Bool-cases (is_empty a && is_empty b)) [
      | inl e ↦ rw (both, e) refl
      | inr e ↦ elim (Step-cases (step (skip a) (skip b))) [
        | inl (c, s) ↦ rw (both, e, turned, s, rpm_loop) refl
        | inr (a', b', s) ↦ rw (both, e, turned, s, rpm_loop) (rpm_loop-flip fuel a' b')
      ]
    ]

unequal : (a b : Text) → (a ≟ b) ≡ false → (b ≟ a) ≡ false
unequal a b e = elim (Bool-cases (b ≟ a)) [
  | inr f ↦ f
  | inl f ↦ absurd (let g = (≟_iff a b).1 (sym ((≟_iff b a).0 f)) in cc)
]

rpmvercmp-flip : (a b : Text) → rpmvercmp b a ≡ flipped (rpmvercmp a b)
unfolding rpmvercmp flip
rpmvercmp-flip a b =
    let lengths = add_comm (length b) (length a) in
    elim (Bool-cases (a ≟ b)) [
      | inl e ↦ let e' : (b ≟ a) ≡ true = (≟_iff b a).1 (sym ((≟_iff a b).0 e)) in rw (e, e') refl
      | inr e ↦
          let e' = unequal a b e in rw (e, e', lengths) (rpm_loop-flip (length a + length b) a b)
    ]

by_evr-swap : (a b : Evr) → by_evr b a ≡ flipped (by_evr a b)
unfolding by_evr flip
by_evr-swap a b =
    let (ea, va, ra) = a in
    let (eb, vb, rb) = b in
    let epochs = flip-by_number ea eb in
    let versions = rpmvercmp-flip va vb in
    elim (Comparison-cases (by_number ea eb)) [
      | inr (inl c) ↦ rw (← epochs, c, by_evr) refl
      | inr (inr c) ↦ rw (← epochs, c, by_evr) refl
      | inl c ↦ elim (Option-cases (rpmvercmp va vb)) [
        | inl e ↦ rw (← epochs, c, versions, e, by_evr) refl
        | inr (d, e) ↦ elim (Comparison-cases d) [
          | inl s ↦ rw (← epochs, c, versions, e, s, by_evr) (rpmvercmp-flip ra rb)
          | inr (inl s) ↦ rw (← epochs, c, versions, e, s, by_evr) refl
          | inr (inr s) ↦ rw (← epochs, c, versions, e, s, by_evr) refl
        ]
      ]
    ]

pub rpm_compare-swap : (a b : Text) → rpm_compare b a ≡ flipped (rpm_compare a b)
unfolding rpm_compare
rpm_compare-swap a b = both-flipped (split_evr a) (split_evr b) by_evr by_evr-swap
