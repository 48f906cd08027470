-- ===== src/Scoring/Limits.antt =====
-- The caps on derived output: analyzer/src/analyzer/detect/limits.py, detect/combine.py and
-- correlate/limits.py.
use kcatta.Prelude.{
  ℕ, ◌+◌, ◌-◌, Bool, true, false, not, ◌||◌, Option, none, some, List, [], ◌∷◌, ◌++◌, Text, codes,
  ltb, leb, if◌then◌else◌, length, take, text_in,
}

-- FindingLimitState
pub record FindingLimitState : Type 0 where
  pub truncated : Bool
  pub reason : Option Text
  pub incomplete : Bool
  pub incomplete_reason : Option Text

abbrev pub keep_first : Option Text → Text → Option Text
keep_first none reason = some reason
keep_first (some r) reason = some r

unfoldable pub mark : Text → FindingLimitState → FindingLimitState
mark reason s = record s { truncated = true; reason = keep_first s.reason reason }

unfoldable pub mark_incomplete : Text → FindingLimitState → FindingLimitState
mark_incomplete reason s = record s {
  incomplete = true;
  incomplete_reason = keep_first s.incomplete_reason reason;
}

-- `if limit_state is not None: limit_state.mark(reason)`, and the same for `mark_incomplete`.
abbrev pub mark_given : Text → Option FindingLimitState → Option FindingLimitState
mark_given reason none = none
mark_given reason (some s) = some (mark reason s)

abbrev mark_incomplete_given : Text → Option FindingLimitState → Option FindingLimitState
mark_incomplete_given reason none = none
mark_incomplete_given reason (some s) = some (mark_incomplete reason s)

-- A finding, of which the caps see the source and the size of its JSON text.
pub record Finding : Type 0 where
  pub id : Text
  pub source : Text
  pub encoded_bytes : ℕ

abbrev scanner_sources : List Text
scanner_sources =
    codes "kcatta-malware"
    ∷ codes "posture"
    ∷ codes "secret"
    ∷ codes "clamav"
    ∷ codes "microsoft-defender"
    ∷ codes "microsoft-defender-event"
    ∷ []

abbrev pub trusted : Finding → Bool
trusted f = text_in f.source scanner_sources

abbrev pub capped : ℕ → ℕ → ℕ → ℕ → Finding → Bool
capped max_findings max_bytes count consumed f =
    leb max_findings count || ltb max_bytes (consumed + f.encoded_bytes)

-- The loop of `scanner_findings`, with `count` findings of `consumed` bytes kept before.
unfoldable pub scan_loop :
    ℕ
    → ℕ
    → ℕ
    → ℕ
    → List Finding
    → Option FindingLimitState
    → List Finding × Option FindingLimitState
unfolding text_in mark mark_incomplete
scan_loop max_findings max_bytes count consumed [] s = ([], s)
scan_loop max_findings max_bytes count consumed (f ∷ fs) s =
    let skipped =
      scan_loop max_findings max_bytes count consumed fs
        (mark_incomplete_given (codes "untrusted_scanner_source") s) in
    let (kept, s') =
      scan_loop max_findings max_bytes (count + 1) (consumed + f.encoded_bytes) fs s in
    let full =
      if leb max_findings count then codes "scanner_max_findings" else codes "scanner_max_bytes" in
    if not (trusted f)
    then skipped
    else if capped max_findings max_bytes count consumed f
    then ([], mark_given full s)
    else (f ∷ kept, s')

unfoldable pub scanner_findings :
    ℕ → ℕ → List Finding → Option FindingLimitState → List Finding × Option FindingLimitState
unfolding scan_loop
scanner_findings max_findings max_bytes findings s = scan_loop max_findings max_bytes 0 0 findings s

-- The loop of `combine_findings`.
unfoldable pub combine_loop :
    ℕ
    → ℕ
    → ℕ
    → ℕ
    → List Finding
    → Option FindingLimitState
    → List Finding × Option FindingLimitState
unfolding mark
combine_loop max_findings max_bytes count consumed [] s = ([], s)
combine_loop max_findings max_bytes count consumed (f ∷ fs) s =
    let (kept, s') =
      combine_loop max_findings max_bytes (count + 1) (consumed + f.encoded_bytes) fs s in
    let full =
      if leb max_findings count
      then codes "combined_max_findings"
      else codes "combined_max_bytes" in
    if capped max_findings max_bytes count consumed f
    then ([], mark_given full s)
    else (f ∷ kept, s')

unfoldable pub combine_findings :
    ℕ
    → ℕ
    → List Finding
    → List Finding
    → Option FindingLimitState
    → List Finding × Option FindingLimitState
unfolding combine_loop
combine_findings max_findings max_bytes osv scanner s =
    combine_loop max_findings max_bytes 0 0 (osv ++ scanner) s

-- Whether a new value was omitted, and the items.
unfoldable pub append_unique_bounded : List Text → Text → ℕ → Bool × List Text
unfolding text_in
append_unique_bounded items value limit =
    if text_in value items
    then (false, items)
    else if leb limit (length items)
    then (true, items)
    else (false, items ++ value ∷ [])

unfoldable pub bounded_text : Text → Text
bounded_text value =
    if leb (length value) 4096 then value else take 4082 value ++ codes "…[truncated]"

-- `sha256_hex` is the digest in 64 hexadecimal digits.
unfoldable pub bounded_id : (Text → Text) → Text → Text
bounded_id sha256_hex value =
    let digest = sha256_hex value in
    if leb (length value) 256 then value else take (256 - length digest - 1) value ++ 45 ∷ digest
