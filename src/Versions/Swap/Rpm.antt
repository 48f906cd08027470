-- ===== src/Versions/Swap/Rpm.antt =====
-- RPM's comparison in analyzer/src/analyzer/detect/versioning.py ends.
use kcatta.Prelude.{
  ℕ, suc, zero, ◌+◌, ◌≤◌, ◌<◌, ◌≡◌, refl, Bool, true, false, ◌&&◌, ◌||◌, ◌⊎◌, inl, inr, some, [],
  ◌∷◌, arith, Text, ◌≟◌, length, is_empty, span, Bool-cases,
}
use kcatta.Versions.Compare.{Comparison, older, same, newer, by_number}
use kcatta.Versions.Rpm.{
  skip, starts, after_first, first_digit, by_segment, Step, answer, next, run_test, step_runs,
  step_segment, step, rpm_loop, rpmvercmp, Evr, by_evr,
}
use kcatta.Versions.Order.{Comparison-cases}

pub Step-cases :
    (x : Step) → ((c : Comparison) × (x ≡ answer c)) ⊎ ((a : Text) × (b : Text) × (x ≡ next a b))
Step-cases (answer c) = inl (c, refl)
Step-cases (next a b) = inr (a, b, refl)

skip-length : (a : Text) → length (skip a) ≤ length a
unfolding skip
skip-length [] = omega arith
skip-length (c ∷ s) = ground (arith, skip-length s)

after_first-length : (a : Text) → length (after_first a) ≤ length a
after_first-length [] = omega arith
after_first-length (c ∷ s) = omega arith

starts-shorter : (c : ℕ) (a : Text) → starts c a ≡ true → length (after_first a) < length a
starts-shorter c [] h = absurd (cc)
starts-shorter c (x ∷ s) h = omega arith

span-length : (p : ℕ → Bool) (s : Text) → length (span p s).0 + length (span p s).1 ≡ length s
unfolding span
span-length p [] = refl
span-length p (c ∷ s) = ground (arith, span-length p s)

next-injective : {a b a' b' : Text} → next a b ≡ next a' b' → (a ≡ a') × (b ≡ b')
next-injective h = (cc, cc)

nonempty-length : (a : Text) → is_empty a ≡ false → 1 ≤ length a
nonempty-length [] h = absurd (cc)
nonempty-length (c ∷ s) h = omega arith

-- A round over segments that goes on has taken a segment off `b`.
step_runs-shorter :
    (numeric : Bool) (a b a' b' : Text)
    → step_runs numeric a b ≡ next a' b'
    → length a' + length b' < length a + length b
unfolding step_runs
step_runs-shorter numeric a b a' b' h =
    let p = run_test numeric in
    elim (Bool-cases (is_empty (span p b).0)) [
      | inl e ↦ absurd (let h1 = rw e at h in cc)
      | inr e ↦
          let h1 = rw e at h in
          elim (Comparison-cases (by_segment numeric (span p a).0 (span p b).0)) [
            | inl c ↦
                let (q, r) = next-injective (rw c at h1) in
                rw (← q, ← r)
                  (omega (arith, span-length p a, span-length p b, nonempty-length (span p b).0 e))
            | inr (inl c) ↦ absurd (let h2 = rw c at h1 in cc)
            | inr (inr c) ↦ absurd (let h2 = rw c at h1 in cc)
          ]
    ]

step_segment-shorter :
    (a b a' b' : Text) → step_segment a b ≡ next a' b' → length a' + length b' < length a + length b
unfolding step_segment
step_segment-shorter a b a' b' h = step_runs-shorter (first_digit a) a b a' b' h

-- A round over marks that goes on has taken the mark off `a`.
marks_shorter :
    (c : ℕ) (a b a' b' : Text)
    → starts c a ≡ true
    → next (after_first a) (after_first b) ≡ next a' b'
    → length a' + length b' < length a + length b
marks_shorter c a b a' b' e h =
    let (p, q) = next-injective h in
    rw (← p, ← q) (omega (arith, starts-shorter c a e, after_first-length b))

step-shorter :
    (a b a' b' : Text) → step a b ≡ next a' b' → length a' + length b' < length a + length b
unfolding step
step-shorter a b a' b' h = elim (Bool-cases (starts 126 a || starts 126 b)) [
  | inl tilde ↦
      let h1 = rw tilde at h in
      elim (Bool-cases (starts 126 a)) [
        | inr n ↦ absurd (let h2 = rw n at h1 in cc)
        | inl e ↦ elim (Bool-cases (starts 126 b)) [
          | inr n ↦ absurd (let h2 = rw (e, n) at h1 in cc)
          | inl f ↦ marks_shorter 126 a b a' b' e (rw (e, f) at h1)
        ]
      ]
  | inr plain ↦
      let h1 = rw plain at h in
      elim (Bool-cases (starts 94 a || starts 94 b)) [
        | inl caret ↦
            let h2 = rw caret at h1 in
            elim (Bool-cases (is_empty a)) [
              | inl n ↦ absurd (let h3 = rw n at h2 in cc)
              | inr ea ↦
                  let h3 = rw ea at h2 in
                  elim (Bool-cases (is_empty b)) [
                    | inl n ↦ absurd (let h4 = rw n at h3 in cc)
                    | inr eb ↦
                        let h4 = rw eb at h3 in
                        elim (Bool-cases (starts 94 a)) [
                          | inr n ↦ absurd (let h5 = rw n at h4 in cc)
                          | inl e ↦ elim (Bool-cases (starts 94 b)) [
                            | inr n ↦ absurd (let h5 = rw (e, n) at h4 in cc)
                            | inl f ↦ marks_shorter 94 a b a' b' e (rw (e, f) at h4)
                          ]
                        ]
                  ]
            ]
        | inr letters ↦
            let h2 = rw letters at h1 in
            elim (Bool-cases (is_empty a || is_empty b)) [
              | inl n ↦ absurd (let h3 = rw n at h2 in cc)
              | inr e ↦ step_segment-shorter a b a' b' (rw e at h2)
            ]
      ]
]

rpm_loop-total :
    (fuel : ℕ) (a b : Text)
    → length a + length b ≤ fuel
    → (c : Comparison) × (rpm_loop fuel a b ≡ some c)
unfolding rpm_loop
rpm_loop-total zero [] [] n = (same, refl)
rpm_loop-total zero [] (y ∷ b) n = absurd (omega (arith, n))
rpm_loop-total zero (x ∷ a) b n = absurd (omega (arith, n))
rpm_loop-total (suc fuel) a b n = elim (Bool-cases (is_empty a && is_empty b)) [
  | inl e ↦ (same, rw e refl)
  | inr e ↦ elim (Step-cases (step (skip a) (skip b))) [
    | inl (c, s) ↦ (c, rw (e, s, rpm_loop) refl)
    | inr (a', b', s) ↦
        let less = step-shorter (skip a) (skip b) a' b' s in
        let (c, q) =
          rpm_loop-total fuel a' b' (omega (arith, n, less, skip-length a, skip-length b)) in
        (c, rw (e, s, rpm_loop) q)
  ]
]

rpmvercmp-total : (a b : Text) → (c : Comparison) × (rpmvercmp a b ≡ some c)
unfolding rpmvercmp
rpmvercmp-total a b = elim (Bool-cases (a ≟ b)) [
  | inl e ↦ (same, rw e refl)
  | inr e ↦ let (c, q) = rpm_loop-total (length a + length b) a b (omega arith) in (c, rw e q)
]

pub by_evr-total : (a b : Evr) → (c : Comparison) × (by_evr a b ≡ some c)
unfolding by_evr
by_evr-total a b =
    let (ea, va, ra) = a in
    let (eb, vb, rb) = b in
    let (c, p) = rpmvercmp-total va vb in
    let (d, q) = rpmvercmp-total ra rb in
    elim (Comparison-cases (by_number ea eb)) [
      | inl equal ↦ elim (Comparison-cases c) [
        | inl s ↦ (d, rw (equal, p, s, by_evr) q)
        | inr (inl s) ↦ (older, rw (equal, p, s, by_evr) refl)
        | inr (inr s) ↦ (newer, rw (equal, p, s, by_evr) refl)
      ]
      | inr (inl less) ↦ (older, rw (less, by_evr) refl)
      | inr (inr more) ↦ (newer, rw (more, by_evr) refl)
    ]
