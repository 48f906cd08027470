-- ===== src/Scoring/Bands.antt =====
-- Bounds on the Analyzer's scores and on its derived output.
use kcatta.Prelude.{
  ℕ, ◌+◌, ◌-◌, ◌≤◌, ◌<◌, ◌≡◌, refl, ap, Bool, true, ◌⊎◌, inl, inr, Option, none, some, List, [],
  ◌∷◌, ◌++◌, arith, Text, length, take, length-append, length-take, leb, ◌==◌, if◌then◌else◌,
  Bool-cases,
}
use kcatta.Scoring.Severity.{
  Severity, info, low, medium, high, critical, score_for_severity, alert_score,
}
use kcatta.Scoring.Cvss.{V4Base, base_severity, impact_weight, worst_impact, easily_reachable}
use kcatta.Scoring.Limits.{
  Finding, FindingLimitState, capped, combine_loop, combine_findings, bounded_id, mark, mark_given,
}

-- A finding on more assets scores no less, every score stays within 100, and a finding of a severity,
-- on however many assets, scores below one of a higher severity on however few.
pub alert_score-bands :
    (a b : Severity) (m n : ℕ)
    → (alert_score a m ≤ 100)
      × (m ≤ n → alert_score a m ≤ alert_score a n)
      × (score_for_severity a < score_for_severity b → alert_score a m < alert_score b n)
unfolding alert_score score_for_severity
alert_score-bands a b m n = (omega arith, λ le. omega (arith, le), bands a b)
  where
    bands :
        (a b : Severity)
        → score_for_severity a < score_for_severity b
        → alert_score a m < alert_score b n
    bands info b h = ground (arith, h)
    bands low b h = ground (arith, h)
    bands medium b h = ground (arith, h)
    bands high b h = ground (arith, h)
    bands critical b h = ground (arith, h)

-- The sizes of a list of findings.
abbrev pub total_bytes : List Finding → ℕ
total_bytes [] = 0
total_bytes (f ∷ fs) = f.encoded_bytes + total_bytes fs

combine_loop-bounds :
    (max_findings max_bytes count consumed : ℕ) (fs : List Finding) (s : Option FindingLimitState)
    → count ≤ max_findings
    → consumed ≤ max_bytes
    → (count + length (combine_loop max_findings max_bytes count consumed fs s).0 ≤ max_findings)
      × (consumed + total_bytes (combine_loop max_findings max_bytes count consumed fs s).0
          ≤ max_bytes)
unfolding combine_loop
combine_loop-bounds max_findings max_bytes count consumed [] s h k = (omega arith, omega arith)
combine_loop-bounds max_findings max_bytes count consumed (f ∷ fs) s h k =
    elim (Bool-cases (capped max_findings max_bytes count consumed f)) [
      | inl e ↦ rw e (omega arith, omega arith)
      | inr e ↦
          let room : count + 1 ≤ max_findings = ground arith in
          let fits : consumed + f.encoded_bytes ≤ max_bytes = ground arith in
          let (p, q) =
            combine_loop-bounds max_findings max_bytes (count + 1) (consumed + f.encoded_bytes) fs s
              room fits in
          rw e (omega (arith, p), omega (arith, q))
    ]

-- What a combination from the state `s` to `s'` left out, of all the findings: nothing, or something
-- without a signal where no state is given, or something that is signalled.
pub record Omission (all kept : List Finding) (s s' : Option FindingLimitState) : Type 0 where
  pub omitted : List Finding
  pub whole : all ≡ kept ++ omitted
  pub signal :
      ((omitted ≡ []) × (s' ≡ s))
      ⊎ ((s ≡ none) × (s' ≡ none))
      ⊎ (t : FindingLimitState) × (s' ≡ some t) × (t.truncated ≡ true)

mark_given-signal :
    (reason : Text) (s : Option FindingLimitState)
    → ((s ≡ none) × (mark_given reason s ≡ none))
      ⊎ (t : FindingLimitState) × (mark_given reason s ≡ some t) × (t.truncated ≡ true)
unfolding mark
mark_given-signal reason none = inl (refl, refl)
mark_given-signal reason (some s) = inr (mark reason s, refl, refl)

combine_loop-Omission :
    (max_findings max_bytes count consumed : ℕ) (fs : List Finding) (s : Option FindingLimitState)
    → let (kept, s') = combine_loop max_findings max_bytes count consumed fs s in
      Omission fs kept s s'
unfolding combine_loop
combine_loop-Omission max_findings max_bytes count consumed [] s = record {
  omitted = [];
  whole = refl;
  signal = inl (refl, refl);
}
combine_loop-Omission max_findings max_bytes count consumed (f ∷ fs) s =
    elim (Bool-cases (capped max_findings max_bytes count consumed f)) [
      | inl e ↦
          rw e (record { omitted = f ∷ fs; whole = refl; signal = inr (mark_given-signal _ s) })
      | inr e ↦
          let k =
            combine_loop-Omission max_findings max_bytes (count + 1) (consumed + f.encoded_bytes) fs
              s in
          rw e
            (record { omitted = k.omitted; whole = ap (λ xs. f ∷ xs) k.whole; signal = k.signal })
    ]

-- The combined findings keep to the caps on their number and on their bytes. They are all of the
-- findings, in order, up to some point; either that is the end and the completeness signals are as they
-- were, or the caller gave no limit state and there is none to signal on, or the truncation is signalled.
pub combine_findings-honest :
    (max_findings max_bytes : ℕ) (osv scanner : List Finding) (s : Option FindingLimitState)
    → let (kept, s') = combine_findings max_findings max_bytes osv scanner s in
      (length kept ≤ max_findings)
      × (total_bytes kept ≤ max_bytes)
      × Omission (osv ++ scanner) kept s s'
unfolding combine_findings
combine_findings-honest max_findings max_bytes osv scanner s =
    let all = osv ++ scanner in
    let (p, q) = combine_loop-bounds max_findings max_bytes 0 0 all s (omega arith) (omega arith) in
    (omega (arith, p), omega (arith, q), combine_loop-Omission max_findings max_bytes 0 0 all s)

-- No impact of `a` is above that of `b`, and `b` is as easy to reach.
pub record Milder (a b : V4Base) : Type 0 where
  pub vc : impact_weight a.vc ≤ impact_weight b.vc
  pub vi : impact_weight a.vi ≤ impact_weight b.vi
  pub va : impact_weight a.va ≤ impact_weight b.va
  pub sc : impact_weight a.sc ≤ impact_weight b.sc
  pub si : impact_weight a.si ≤ impact_weight b.si
  pub sa : impact_weight a.sa ≤ impact_weight b.sa
  pub reach : easily_reachable a ≡ true → easily_reachable b ≡ true

abbrev severity_of : ℕ → Bool → Severity
severity_of worst reachable =
    if worst == 0
    then info
    else if worst == 2
    then (if reachable then critical else high)
    else if reachable
    then high
    else medium

severity_of-monotone :
    (v w : ℕ) (p q : Bool)
    → v ≤ w
    → w ≤ 2
    → (p ≡ true → q ≡ true)
    → score_for_severity (severity_of v p) ≤ score_for_severity (severity_of w q)
unfolding score_for_severity
severity_of-monotone v w p q le two r = ground (arith, le, two, r)

weight_bound : (c : ℕ) → impact_weight c ≤ 2
weight_bound c = ground arith

base_severity-is :
    (b : V4Base) → base_severity b ≡ severity_of (worst_impact b) (easily_reachable b)
unfolding base_severity
base_severity-is b = refl

-- The v4.0 base severity grows with the vector: where no impact falls and the flaw gets no harder to
-- reach, the severity does not fall.
pub base_severity-monotone :
    (a b : V4Base)
    → Milder a b
    → score_for_severity (base_severity a) ≤ score_for_severity (base_severity b)
base_severity-monotone a b m =
    rw (base_severity-is a, base_severity-is b)
      (severity_of-monotone (worst_impact a) (worst_impact b) (easily_reachable a)
        (easily_reachable b) (omega (arith, m.vc, m.vi, m.va, m.sc, m.si, m.sa))
        (omega (
          arith,
          weight_bound b.vc,
          weight_bound b.vi,
          weight_bound b.va,
          weight_bound b.sc,
          weight_bound b.si,
          weight_bound b.sa,
        ))
        m.reach)

-- A bounded id has at most 256 characters, if the digest has 64, and is the id itself where that has.
pub bounded_id-bound :
    (sha256_hex : Text → Text)
    → ((value : Text) → length (sha256_hex value) ≡ 64)
    → (value : Text)
    → (length (bounded_id sha256_hex value) ≤ 256)
      × (length value ≤ 256 → bounded_id sha256_hex value ≡ value)
unfolding bounded_id
bounded_id-bound sha256_hex hex value =
    let sixty_four = hex value in
    let cut = 256 - length (sha256_hex value) - 1 in
    elim (Bool-cases (leb (length value) 256)) [
      | inl e ↦ (rw e (ground arith), λ _. rw e refl)
      | inr e ↦ (
        rw e (
            rw (length-append (take cut value) (45 ∷ sha256_hex value), length-take cut value)
              (omega (arith, sixty_four))),
        λ le. absurd (ground arith),
      )
    ]
