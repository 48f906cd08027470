-- ===== src/Scoring/Tests.antt =====
-- The theorems on the Analyzer's scores and caps at concrete inputs.
use kcatta.Prelude.{
  ℕ, zero, suc, ◌≤◌, ◌<◌, ◌≡◌, refl, false, none, some, [], ◌∷◌, ◌++◌, Text, codes, arith, length,
}
use kcatta.Scoring.Severity.{high, critical, score_for_severity, alert_score}
use kcatta.Scoring.Cvss.{V4Base, base_severity, severity_from_v4_vector}
use kcatta.Scoring.Limits.{Finding, FindingLimitState, combine_findings, bounded_id}
use kcatta.Scoring.Bands.{
  total_bytes, Omission, alert_score-bands, combine_findings-honest, Milder, base_severity-monotone,
  bounded_id-bound,
}

alert_score-bands_example :
    (alert_score high 40 ≤ 100)
    × (40 ≤ 41 → alert_score high 40 ≤ alert_score high 41)
    × (score_for_severity high < score_for_severity critical
        → alert_score high 40 < alert_score critical 41)
alert_score-bands_example = alert_score-bands high critical 40 41

abbrev finding : ℕ → Finding
finding n = record { id = n ∷ []; source = codes "posture"; encoded_bytes = n }

abbrev clean : FindingLimitState
clean = record { truncated = false; reason = none; incomplete = false; incomplete_reason = none }

combine_findings-honest_example :
    let (kept, s') =
      combine_findings 2 100 (finding 30 ∷ []) (finding 40 ∷ finding 50 ∷ []) (some clean) in
    (length kept ≤ 2)
    × (total_bytes kept ≤ 100)
    × Omission ((finding 30 ∷ []) ++ finding 40 ∷ finding 50 ∷ []) kept (some clean) s'
combine_findings-honest_example =
    combine_findings-honest 2 100 (finding 30 ∷ []) (finding 40 ∷ finding 50 ∷ []) (some clean)

-- AV:N/AC:L/AT:N/PR:N/UI:N with the impacts of a letter on the vulnerable system.
abbrev base : ℕ → V4Base
base impact = record {
  av = 78;
  ac = 76;
  at = 78;
  pr = 78;
  ui = 78;
  vc = impact;
  vi = impact;
  va = impact;
  sc = 78;
  si = 78;
  sa = 78;
}

read_vector :
    severity_from_v4_vector
      (codes "CVSS:4.0/AV:N/AC:L/AT:N/PR:N/UI:N/VC:H/VI:H/VA:H/SC:N/SI:N/SA:N")
    ≡ some critical
unfolding severity_from_v4_vector
read_vector = refl

milder : Milder (base 76) (base 72)
milder = record {
  vc = omega arith;
  vi = omega arith;
  va = omega arith;
  sc = omega arith;
  si = omega arith;
  sa = omega arith;
  reach = λ e. e;
}

base_severity-monotone_example :
    score_for_severity (base_severity (base 76)) ≤ score_for_severity (base_severity (base 72))
base_severity-monotone_example = base_severity-monotone (base 76) (base 72) milder

abbrev zeros : ℕ → Text
zeros zero = []
zeros (suc n) = 48 ∷ zeros n

abbrev digest : Text → Text
digest _ = zeros 64

digest-length : (value : Text) → length (digest value) ≡ 64
digest-length value = refl

bounded_id-bound_example :
    (length (bounded_id digest (zeros 300)) ≤ 256)
    × (length (zeros 300) ≤ 256 → bounded_id digest (zeros 300) ≡ zeros 300)
bounded_id-bound_example = bounded_id-bound digest digest-length (zeros 300)
