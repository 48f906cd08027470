-- ===== src/Scoring/Cvss.antt =====
-- CVSS vectors: `parse_vector`, `severity_from_score` and the v4.0 base severity of
-- analyzer/src/analyzer/detect/cvss.py. The v3 base score is arithmetic on floats and is not modelled.
use kcatta.Prelude.{
  ℕ, max, Bool, true, false, not, ◌&&◌, ◌||◌, Option, none, some, List, [], ◌∷◌, Text, ◌≟◌, codes,
  strip, ltb, ◌==◌, if◌then◌else◌, lower, partition, split, take,
}
use kcatta.Scoring.Severity.{Severity, info, low, medium, high, critical}

-- A dict of metrics, the latest entry of a key first.
abbrev pub Metrics : Type 0
Metrics = List (Text × Text)

unfoldable pub metric : Text → Metrics → Option Text
unfolding ◌≟◌
metric key [] = none
metric key ((k, v) ∷ ms) = if k ≟ key then some v else metric key ms

-- The loop over the parts of the vector.
unfoldable pub read_parts : List Text → Metrics → Metrics
unfolding partition ◌≟◌
read_parts [] ms = ms
read_parts (part ∷ parts) ms =
    let (key, found, val) = partition 58 part in
    read_parts parts (if found && not (key ≟ codes "CVSS") then (key, val) ∷ ms else ms)

abbrev has_metrics : List Text → Metrics → Bool
has_metrics [] ms = true
has_metrics (key ∷ keys) ms = elim (metric key ms) [ none ↦ false | some _ ↦ has_metrics keys ms ]

abbrev required : List Text
required =
    codes "AV"
    ∷ codes "AC"
    ∷ codes "PR"
    ∷ codes "UI"
    ∷ codes "S"
    ∷ codes "C"
    ∷ codes "I"
    ∷ codes "A"
    ∷ []

unfoldable pub parse_vector : Text → Option Metrics
unfolding split read_parts metric
parse_vector vector =
    let ms = read_parts (split 47 vector) [] in if has_metrics required ms then some ms else none

-- A score in tenths: the base scores have one decimal.
unfoldable pub severity_from_score : ℕ → Severity
severity_from_score tenths =
    if tenths == 0
    then info
    else if ltb tenths 40
    then low
    else if ltb tenths 70
    then medium
    else if ltb tenths 90
    then high
    else critical

-- `s.upper().startswith(prefix)`, where the prefix has no lower-case letters.
unfoldable pub is_cvss_v4_vector : Text → Bool
unfolding strip lower ◌≟◌
is_cvss_v4_vector vector = lower (take 9 (strip vector)) ≟ codes "cvss:4.0/"

pub data V4Metric : Type 0 where
  attack_vector attack_complexity attack_requirements privileges interaction : V4Metric
  vulnerable_c vulnerable_i vulnerable_a subsequent_c subsequent_i subsequent_a : V4Metric

abbrev pub metric_name : V4Metric → Text
metric_name attack_vector = codes "AV"
metric_name attack_complexity = codes "AC"
metric_name attack_requirements = codes "AT"
metric_name privileges = codes "PR"
metric_name interaction = codes "UI"
metric_name vulnerable_c = codes "VC"
metric_name vulnerable_i = codes "VI"
metric_name vulnerable_a = codes "VA"
metric_name subsequent_c = codes "SC"
metric_name subsequent_i = codes "SI"
metric_name subsequent_a = codes "SA"

-- _V4_BASE_METRICS: the letters that each metric accepts.
abbrev accepted : V4Metric → Text
accepted attack_vector = codes "NALP"
accepted attack_complexity = codes "LH"
accepted attack_requirements = codes "NP"
accepted privileges = codes "NLH"
accepted interaction = codes "NPA"
accepted _ = codes "HLN"

abbrev letter_in : ℕ → Text → Bool
letter_in c [] = false
letter_in c (x ∷ xs) = (c == x) || letter_in c xs

-- The letter of a metric, where the metrics give it an accepted one.
unfoldable pub v4_letter : Metrics → V4Metric → Option ℕ
unfolding metric
v4_letter ms m = elim (metric (metric_name m) ms) [
  | some (c ∷ []) ↦ if letter_in c (accepted m) then some c else none
  | _ ↦ none
]

-- A complete vector: a letter for each of the base metrics.
pub record V4Base : Type 0 where
  pub av : ℕ
  pub ac : ℕ
  pub at : ℕ
  pub pr : ℕ
  pub ui : ℕ
  pub vc : ℕ
  pub vi : ℕ
  pub va : ℕ
  pub sc : ℕ
  pub si : ℕ
  pub sa : ℕ

infixl 5 ◌>>=◌
abbrev ◌>>=◌ : {A B : Type 0} → Option A → (A → Option B) → Option B
none >>= f = none
some a >>= f = f a

unfoldable pub v4_base : Metrics → Option V4Base
unfolding v4_letter
v4_base ms = do
  av ← v4_letter ms attack_vector
  ac ← v4_letter ms attack_complexity
  at ← v4_letter ms attack_requirements
  pr ← v4_letter ms privileges
  ui ← v4_letter ms interaction
  vc ← v4_letter ms vulnerable_c
  vi ← v4_letter ms vulnerable_i
  va ← v4_letter ms vulnerable_a
  sc ← v4_letter ms subsequent_c
  si ← v4_letter ms subsequent_i
  sa ← v4_letter ms subsequent_a
  some (record {
    av = av;
    ac = ac;
    at = at;
    pr = pr;
    ui = ui;
    vc = vc;
    vi = vi;
    va = va;
    sc = sc;
    si = si;
    sa = sa;
  })

unfoldable pub parse_v4_vector : Text → Option V4Base
unfolding is_cvss_v4_vector split read_parts v4_base
parse_v4_vector vector =
    if is_cvss_v4_vector vector then v4_base (read_parts (split 47 vector) []) else none

-- _V4_IMPACT_WEIGHT, of the letters H, L and N that an impact may have.
abbrev pub impact_weight : ℕ → ℕ
impact_weight c = if c == 72 then 2 else if c == 76 then 1 else 0

abbrev pub worst_impact : V4Base → ℕ
worst_impact b = max (impact_weight b.vc) (
    max (impact_weight b.vi) (
      max (impact_weight b.va)
        (max (impact_weight b.sc) (max (impact_weight b.si) (impact_weight b.sa)))))

abbrev pub easily_reachable : V4Base → Bool
easily_reachable b = (b.av == 78) && (b.ac == 76) && (b.at == 78) && (b.pr == 78) && (b.ui == 78)

unfoldable pub base_severity : V4Base → Severity
base_severity b =
    if worst_impact b == 0
    then info
    else if worst_impact b == 2
    then (if easily_reachable b then critical else high)
    else if easily_reachable b
    then high
    else medium

unfoldable pub severity_from_v4_vector : Text → Option Severity
unfolding parse_v4_vector base_severity
severity_from_v4_vector vector = elim (parse_v4_vector vector) [
  | none ↦ none
  | some b ↦ some (base_severity b)
]
