-- ===== src/Scoring/Severity.antt =====
-- The risk scores of analyzer/src/analyzer/scoring.py. Every score in it is a whole number, which a
-- float holds exactly.
use kcatta.Prelude.{ℕ, ◌+◌, ◌-◌, ◌*◌, min}

pub data Severity : Type 0 where
  info low medium high critical : Severity

unfoldable pub score_for_severity : Severity → ℕ
score_for_severity info = 10
score_for_severity low = 25
score_for_severity medium = 50
score_for_severity high = 75
score_for_severity critical = 95

-- `max(0, blast_radius - 1)` is the subtraction that stops at 0.
unfoldable pub alert_score : Severity → ℕ → ℕ
unfolding score_for_severity
alert_score severity blast_radius =
    min 100 (score_for_severity severity + min 12 ((blast_radius - 1) * 3))
