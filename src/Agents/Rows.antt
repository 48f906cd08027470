-- ===== src/Agents/Rows.antt =====
-- The registry of agent identities (form/src/kcatta_form/agent_identity_store.py and
-- schemas/agent_identity.py): its two tables, the exceptions, and the objects that rows read back to.
use kcatta.Prelude.{
  ℕ, Bool, true, false, not, ◌&&◌, ◌||◌, Option, none, some, List, [], ◌∷◌, Text, ◌≟◌, ltb, leb,
  ◌==◌, is_empty, length, find_where, select, exists_where, sort_on, Outcome, ok, err, ◌>>=◌, ◌>>◌,
  raise_if,
}

-- A datetime is the number of microseconds that `_micros` stores of it.
abbrev pub Time : Type 0
Time = ℕ

pub data AgentScope : Type 0 where
  asset_report trace_batch guard_event : AgentScope

pub data AgentIdentityState : Type 0 where
  active revoked : AgentIdentityState

pub data AgentCertificateState : Type 0 where
  staged active retired revoked : AgentCertificateState

-- AgentIdentityNotFoundError, AgentCertificateNotFoundError, AgentIdentityConflictError, ValueError,
-- pydantic's ValidationError, sqlite3.IntegrityError.
pub data Error : Type 0 where
  identity_not_found certificate_not_found conflict : Error
  value_error validation_error integrity_error : Error

abbrev pub Result {v} : Type v → Type v
Result = Outcome Error

abbrev pub is_active_identity : AgentIdentityState → Bool
is_active_identity active = true
is_active_identity revoked = false

abbrev pub is_staged : AgentCertificateState → Bool
is_staged staged = true
is_staged _ = false

abbrev pub is_active : AgentCertificateState → Bool
is_active active = true
is_active _ = false

abbrev pub is_retired : AgentCertificateState → Bool
is_retired retired = true
is_retired _ = false

abbrev pub is_revoked : AgentCertificateState → Bool
is_revoked revoked = true
is_revoked _ = false

-- agent_identities. `scopes` is the list that `scopes_json` reads back to.
pub record IdentityRow : Type 0 where
  pub agent_id : Text
  pub target_id : Text
  pub canonical_host_id : Text
  pub scopes : List AgentScope
  pub state : AgentIdentityState
  pub generation : ℕ
  pub created_at_us : Time
  pub updated_at_us : Time
  pub revoked_at_us : Option Time
  pub revision : ℕ

-- agent_certificates
pub record CertificateRow : Type 0 where
  pub agent_id : Text
  pub generation : ℕ
  pub serial_number : Text
  pub cert_sha256 : Text
  pub spki_sha256 : Text
  pub state : AgentCertificateState
  pub certificate_pem : Text
  pub idempotency_key_sha256 : Option Text
  pub not_before_us : Time
  pub not_after_us : Time
  pub created_at_us : Time
  pub activated_at_us : Option Time
  pub retired_at_us : Option Time
  pub overlap_until_us : Option Time
  pub revoked_at_us : Option Time

pub record Db : Type 0 where
  pub identities : List IdentityRow
  pub certificates : List CertificateRow

pub record AgentCertificate : Type 0 where
  pub agent_id : Text
  pub generation : ℕ
  pub serial_number : Text
  pub cert_sha256 : Text
  pub spki_sha256 : Text
  pub state : AgentCertificateState
  pub not_before : Time
  pub not_after : Time
  pub created_at : Time
  pub activated_at : Option Time
  pub retired_at : Option Time
  pub overlap_until : Option Time
  pub revoked_at : Option Time

pub record AgentIdentity : Type 0 where
  pub agent_id : Text
  pub target_id : Text
  pub canonical_host_id : Text
  pub scopes : List AgentScope
  pub state : AgentIdentityState
  pub generation : ℕ
  pub created_at : Time
  pub updated_at : Time
  pub revoked_at : Option Time
  pub certificates : List AgentCertificate

-- The length of a `str` field, from `min_length` 1.
abbrev pub within_length : ℕ → Text → Bool
within_length limit s = leb 1 (length s) && leb (length s) limit

-- The patterns `[0-9a-f]` and `[A-Za-z0-9._~-]` of one character.
unfoldable pub is_hex_digit : ℕ → Bool
is_hex_digit c = (leb 48 c && leb c 57) || (leb 97 c && leb c 102)

unfoldable pub is_id_char : ℕ → Bool
is_id_char c =
    (leb 65 c && leb c 90)
    || (leb 97 c && leb c 122)
    || (leb 48 c && leb c 57)
    || (c == 46)
    || (c == 95)
    || (c == 126)
    || (c == 45)

unfoldable pub all_chars : (ℕ → Bool) → Text → Bool
all_chars p [] = true
all_chars p (c ∷ s) = p c && all_chars p s

-- What pydantic checks of an AgentCertificate.
unfoldable pub valid_certificate : AgentCertificate → Bool
unfolding all_chars is_hex_digit
valid_certificate c =
    within_length 128 c.agent_id
    && leb 1 c.generation
    && within_length 64 c.serial_number
    && all_chars is_hex_digit c.serial_number
    && (length c.cert_sha256 == 64)
    && all_chars is_hex_digit c.cert_sha256
    && (length c.spki_sha256 == 64)
    && all_chars is_hex_digit c.spki_sha256
    && not (leb c.not_after c.not_before)

-- What pydantic checks of the fields of an AgentIdentity.
unfoldable pub valid_fields : IdentityRow → Bool
unfolding all_chars is_id_char
valid_fields i =
    within_length 128 i.agent_id
    && all_chars is_id_char i.agent_id
    && within_length 256 i.target_id
    && within_length 256 i.canonical_host_id
    && not (is_empty i.scopes)

-- `_certificate_from_row`, without the check of the fields.
abbrev pub certificate_of : CertificateRow → AgentCertificate
certificate_of row = record {
  agent_id = row.agent_id;
  generation = row.generation;
  serial_number = row.serial_number;
  cert_sha256 = row.cert_sha256;
  spki_sha256 = row.spki_sha256;
  state = row.state;
  not_before = row.not_before_us;
  not_after = row.not_after_us;
  created_at = row.created_at_us;
  activated_at = row.activated_at_us;
  retired_at = row.retired_at_us;
  overlap_until = row.overlap_until_us;
  revoked_at = row.revoked_at_us;
}

unfoldable pub certificate_from_row : CertificateRow → Result AgentCertificate
unfolding valid_certificate
certificate_from_row row = do
  raise_if (not (valid_certificate (certificate_of row))) validation_error
  ok (certificate_of row)

unfoldable pub certificates_from_rows : List CertificateRow → Result (List AgentCertificate)
unfolding certificate_from_row
certificates_from_rows [] = ok []
certificates_from_rows (row ∷ rows) = do
  certificate ← certificate_from_row row
  rest ← certificates_from_rows rows
  ok (certificate ∷ rest)

-- A certificate that the validator `_consistent_generations` refuses beside its identity.
unfoldable pub inconsistent : IdentityRow → AgentCertificate → Bool
unfolding ◌≟◌
inconsistent i c = not (c.agent_id ≟ i.agent_id) || ltb i.generation c.generation

-- WHERE agent_id = ?, and AND generation = ?
unfoldable pub of_agent : Text → CertificateRow → Bool
unfolding ◌≟◌
of_agent agent_id c = c.agent_id ≟ agent_id

unfoldable pub of_generation : Text → ℕ → CertificateRow → Bool
unfolding ◌≟◌
of_generation agent_id generation c = (c.agent_id ≟ agent_id) && (c.generation == generation)

unfoldable pub is_agent : Text → IdentityRow → Bool
unfolding ◌≟◌
is_agent agent_id i = i.agent_id ≟ agent_id

-- ORDER BY generation ASC
abbrev pub generation_key : CertificateRow → Text
generation_key c = c.generation ∷ []

unfoldable pub identity_from_row : Db → IdentityRow → Result AgentIdentity
unfolding select of_agent sort_on certificates_from_rows valid_fields exists_where inconsistent
identity_from_row db row = do
  certificates ←
      certificates_from_rows
        (sort_on generation_key (select (of_agent row.agent_id) db.certificates))
  raise_if (not (valid_fields row)) validation_error
  raise_if (exists_where (inconsistent row) certificates) validation_error
  ok (record {
    agent_id = row.agent_id;
    target_id = row.target_id;
    canonical_host_id = row.canonical_host_id;
    scopes = row.scopes;
    state = row.state;
    generation = row.generation;
    created_at = row.created_at_us;
    updated_at = row.updated_at_us;
    revoked_at = row.revoked_at_us;
    certificates = certificates;
  })

-- A fetched row, or the exception for a row that is missing.
abbrev pub required {ℓ} : {A : Type ℓ} → Error → Option A → Result A
required e none = err e
required e (some a) = ok a

unfoldable pub identity_row : Db → Text → Result IdentityRow
unfolding find_where is_agent
identity_row db agent_id =
    required identity_not_found (find_where (is_agent agent_id) db.identities)

unfoldable pub certificate_row : Db → Text → ℕ → Result CertificateRow
unfolding find_where of_generation
certificate_row db agent_id generation =
    required certificate_not_found (find_where (of_generation agent_id generation) db.certificates)
