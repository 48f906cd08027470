-- ===== src/Agents/Normalize.antt =====
-- The normalisation of arguments in form/src/kcatta_form/agent_identity_store.py.
use kcatta.Prelude.{
  ℕ, Bool, true, false, not, ◌&&◌, ◌||◌, Option, none, some, List, [], ◌∷◌, Text, ◌≟◌, codes, strip,
  ltb, leb, ◌==◌, is_empty, if◌then◌else◌, length, lower, lstrip_of, ok, err, ◌>>=◌, ◌>>◌, raise_if,
}
use kcatta.Agents.Rows.{
  AgentScope, asset_report, trace_batch, guard_event, Result, value_error, is_hex_digit, is_id_char,
  all_chars,
}

unfoldable pub required_text : ℕ → Text → Result Text
unfolding strip
required_text max_length value = do
  let normalized = strip value
  raise_if (is_empty normalized) value_error
  raise_if (ltb max_length (length normalized)) value_error
  ok normalized

unfoldable pub normalize_agent_id : Text → Result Text
unfolding strip all_chars is_id_char
normalize_agent_id value = do
  let normalized = strip value
  raise_if
      (not (
        leb 1 (length normalized)
        && leb (length normalized) 128
        && all_chars is_id_char normalized))
      value_error
  ok normalized

unfoldable pub parse_scope : Text → Option AgentScope
unfolding ◌≟◌
parse_scope s =
    if s ≟ codes "asset-report"
    then some asset_report
    else if s ≟ codes "trace-batch"
    then some trace_batch
    else if s ≟ codes "guard-event"
    then some guard_event
    else none

-- The set `{AgentScope(scope) for scope in scopes}`: which of the three scopes it holds.
pub record ScopeSet : Type 0 where
  pub asset_report : Bool
  pub guard_event : Bool
  pub trace_batch : Bool

abbrev pub empty_scopes : ScopeSet
empty_scopes = record { asset_report = false; guard_event = false; trace_batch = false }

abbrev pub add_scope : AgentScope → ScopeSet → ScopeSet
add_scope asset_report s = record s { asset_report = true }
add_scope trace_batch s = record s { trace_batch = true }
add_scope guard_event s = record s { guard_event = true }

unfoldable pub scope_set : List Text → Result ScopeSet
unfolding parse_scope
scope_set [] = ok empty_scopes
scope_set (text ∷ texts) = elim (parse_scope text) [
  | none ↦ err value_error
  | some scope ↦ (do scopes ← scope_set texts; ok (add_scope scope scopes))
]

-- The members in the order of their values: asset-report, guard-event, trace-batch.
abbrev pub sorted_scopes : ScopeSet → List AgentScope
sorted_scopes s =
    let last = if s.trace_batch then trace_batch ∷ [] else [] in
    let later = if s.guard_event then guard_event ∷ last else last in
    if s.asset_report then asset_report ∷ later else later

unfoldable pub normalize_scopes : List Text → Result (List AgentScope)
unfolding scope_set
normalize_scopes texts = do
  scopes ← scope_set texts
  raise_if (is_empty (sorted_scopes scopes)) value_error
  ok (sorted_scopes scopes)

-- `removeprefix` of `0x`
abbrev pub without_0x : Text → Text
without_0x (a ∷ b ∷ s) = if (a == 48) && (b == 120) then s else a ∷ b ∷ s
without_0x s = s

-- `wanted` is the keyword `length`. `lower` is that of ASCII: no other character becomes a digit of
-- the pattern or an x.
unfoldable pub normalize_hex : Text → Option ℕ → Result Text
unfolding strip lower all_chars is_hex_digit
normalize_hex value wanted = do
  let normalized = without_0x (lower (strip value))
  raise_if (is_empty normalized || not (all_chars is_hex_digit normalized)) value_error
  raise_if (elim wanted [ none ↦ false | some n ↦ not (length normalized == n) ]) value_error
  ok normalized

abbrev pub or_zero : Text → Text
or_zero [] = 48 ∷ []
or_zero (c ∷ s) = c ∷ s

unfoldable pub normalize_serial : Text → Result Text
unfolding normalize_hex lstrip_of
normalize_serial value = do
  normalized ← normalize_hex value none
  ok (or_zero (lstrip_of 48 normalized))

-- `sha256` is hashlib's digest of the text's UTF-8, in hexadecimal.
unfoldable pub idempotency_hash : (Text → Text) → Option Text → Result (Option Text)
unfolding strip
idempotency_hash sha256 none = ok none
idempotency_hash sha256 (some value) = do
  let normalized = strip value
  raise_if (is_empty normalized) value_error
  raise_if (ltb 1024 (length normalized)) value_error
  ok (some (sha256 normalized))
