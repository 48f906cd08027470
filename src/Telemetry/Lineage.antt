-- ===== src/Telemetry/Lineage.antt =====
-- The identifiers of chunks (form/src/kcatta_form/telemetry_chunks.py). `sha256` is hashlib's digest
-- of a text's UTF-8, in 64 hexadecimal characters.
use kcatta.Prelude.{
  ℕ, zero, suc, ◌+◌, ◌-◌, ◌/◌, ◌%◌, [], ◌∷◌, ◌++◌, Text, codes, ltb, leb, if◌then◌else◌, length,
  take, ok, ◌>>◌, raise_if,
}
use kcatta.Telemetry.Pack.{Result, runtime_error}

abbrev pub max_correlation_id_chars : ℕ
max_correlation_id_chars = 256

abbrev pub hash_label : Text
hash_label = codes "~sha256:"

abbrev pub lineage_suffix_reserve : ℕ
lineage_suffix_reserve = 40

-- `str(n)`, on fuel: n + 1 rounds are enough.
unfoldable pub decimal_on : ℕ → ℕ → Text
decimal_on zero n = []
decimal_on (suc fuel) n =
    let before = decimal_on fuel (n / 10) in
    if ltb n 10 then (48 + n) ∷ [] else before ++ ((48 + n % 10) ∷ [])

abbrev pub decimal : ℕ → Text
decimal n = decimal_on (suc n) n

-- A text cut to its first `limit` characters less the label and the digest, with these behind it.
unfoldable pub shortened : (Text → Text) → ℕ → Text → Text
shortened sha256 limit value =
    if leb (length value) limit
    then value
    else take (limit - length hash_label - length (sha256 value)) value
      ++ hash_label
      ++ sha256 value

unfoldable pub bounded_correlation_id : (Text → Text) → Text → Text
unfolding shortened
bounded_correlation_id sha256 value = shortened sha256 max_correlation_id_chars value

abbrev pub sibling : Text → Text → ℕ → ℕ → Text
sibling original kind index total =
    original ++ codes "::" ++ kind ++ codes "-" ++ decimal index ++ codes "-of-" ++ decimal total

unfoldable pub child_id : (Text → Text) → Text → Text → ℕ → ℕ → Text
unfolding bounded_correlation_id decimal_on
child_id sha256 original kind index total =
    bounded_correlation_id sha256 (sibling original kind index total)

unfoldable pub lineage_root : (Text → Text) → Text → Text
unfolding shortened
lineage_root sha256 original =
    shortened sha256 (max_correlation_id_chars - lineage_suffix_reserve) original

unfoldable pub lineage_child : Text → Text → ℕ → ℕ → Result Text
unfolding decimal_on
lineage_child root kind index total = do
  raise_if (ltb max_correlation_id_chars (length (sibling root kind index total))) runtime_error
  ok (sibling root kind index total)
