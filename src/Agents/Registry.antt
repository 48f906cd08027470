-- ===== src/Agents/Registry.antt =====
-- `get_or_create` and the reads of form/src/kcatta_form/agent_identity_store.py.
use kcatta.Prelude.{
  ℕ, Bool, true, false, not, ◌&&◌, ◌||◌, Option, none, some, List, [], ◌∷◌, ◌++◌, Text, ◌≟◌, codes,
  is_text, leb, ◌==◌, take, find_where, exists_where, sort_on, ok, ◌>>=◌, ◌>>◌, raise_if,
}
use kcatta.Agents.Rows.{
  Time, AgentScope, AgentIdentityState, Result, identity_not_found, conflict, value_error,
  IdentityRow, CertificateRow, Db, AgentCertificate, AgentIdentity, certificate_from_row,
  identity_from_row, required, identity_row, certificate_row,
}
use kcatta.Agents.Normalize.{required_text, normalize_agent_id, normalize_scopes, idempotency_hash}

-- WHERE target_id = ?
unfoldable pub is_target : Text → IdentityRow → Bool
unfolding ◌≟◌
is_target target i = i.target_id ≟ target

-- The number of a scope in the order of their values.
abbrev pub scope_number : AgentScope → ℕ
scope_number AgentScope.asset_report = 0
scope_number AgentScope.guard_event = 1
scope_number AgentScope.trace_batch = 2

-- Equality of the JSON texts of two lists of scopes.
unfoldable pub same_scopes : List AgentScope → List AgentScope → Bool
same_scopes [] [] = true
same_scopes [] (b ∷ bs) = false
same_scopes (a ∷ as_left) [] = false
same_scopes (a ∷ as_left) (b ∷ bs) = (scope_number a == scope_number b) && same_scopes as_left bs

-- The bound row differs from what is asked for.
unfoldable pub mismatches : IdentityRow → Text → List AgentScope → Option Text → Bool
unfolding ◌≟◌ same_scopes
mismatches row host scopes requested =
    not (row.canonical_host_id ≟ host)
    || not (same_scopes row.scopes scopes)
    || elim requested [ none ↦ false | some agent_id ↦ not (row.agent_id ≟ agent_id) ]

abbrev pub new_identity : Text → Text → Text → List AgentScope → Time → IdentityRow
new_identity agent_id target host scopes now = record {
  agent_id = agent_id;
  target_id = target;
  canonical_host_id = host;
  scopes = scopes;
  state = AgentIdentityState.active;
  generation = 0;
  created_at_us = now;
  updated_at_us = now;
  revoked_at_us = none;
  revision = 0;
}

-- A row that has one of the unique columns of the new row.
unfoldable pub collides : IdentityRow → IdentityRow → Bool
unfolding ◌≟◌
collides new i =
    (i.agent_id ≟ new.agent_id)
    || (i.target_id ≟ new.target_id)
    || (i.canonical_host_id ≟ new.canonical_host_id)

abbrev pub allocated : Option Text → Text → Text
allocated none hex = codes "agent-" ++ hex
allocated (some agent_id) hex = agent_id

-- The INSERT of `get_or_create`, and the row that it reads back.
unfoldable pub insert_identity : IdentityRow → Db → Result ((AgentIdentity × Bool) × Db)
unfolding exists_where collides identity_row identity_from_row
insert_identity new db = do
  raise_if (exists_where (collides new) db.identities) conflict
  let added = record db { identities = new ∷ db.identities }
  row ← identity_row added new.agent_id
  identity ← identity_from_row added row
  ok ((identity, true), added)

unfoldable pub requested_id : Option Text → Result (Option Text)
unfolding normalize_agent_id
requested_id none = ok none
requested_id (some raw) = do id ← normalize_agent_id raw; ok (some id)

-- The answer when the target is bound.
unfoldable pub replay :
    IdentityRow → Text → List AgentScope → Option Text → Db → Result ((AgentIdentity × Bool) × Db)
unfolding mismatches identity_from_row
replay row host scopes requested db = do
  raise_if (mismatches row host scopes requested) conflict
  identity ← identity_from_row db row
  ok ((identity, false), db)

-- `hex` is what `uuid.uuid4().hex` returns if it is called.
unfoldable pub get_or_create :
    Text → Text → List Text → Option Text → Text → Time → Db → Result ((AgentIdentity × Bool) × Db)
unfolding required_text normalize_scopes requested_id find_where is_target replay insert_identity
get_or_create target_id canonical_host_id scopes agent_id hex now db = do
  target ← required_text 256 target_id
  host ← required_text 256 canonical_host_id
  canonical_scopes ← normalize_scopes scopes
  requested ← requested_id agent_id
  elim (find_where (is_target target) db.identities) [
    | none ↦
        insert_identity (new_identity (allocated requested hex) target host canonical_scopes now) db
    | some row ↦ replay row host canonical_scopes requested db
  ]

unfoldable pub get : Db → Text → Result AgentIdentity
unfolding normalize_agent_id identity_row identity_from_row
get db agent_id = do
  normalized ← normalize_agent_id agent_id
  row ← identity_row db normalized
  identity_from_row db row

unfoldable pub get_by_target : Db → Text → Result AgentIdentity
unfolding required_text find_where is_target identity_from_row
get_by_target db target_id = do
  target ← required_text 256 target_id
  row ← required identity_not_found (find_where (is_target target) db.identities)
  identity_from_row db row

unfoldable pub identities_from_rows : Db → List IdentityRow → Result (List AgentIdentity)
unfolding identity_from_row
identities_from_rows db [] = ok []
identities_from_rows db (row ∷ rows) = do
  identity ← identity_from_row db row
  rest ← identities_from_rows db rows
  ok (identity ∷ rest)

-- ORDER BY created_at_us ASC, agent_id ASC
abbrev pub creation_key : IdentityRow → Text
creation_key i = i.created_at_us ∷ i.agent_id

-- `list`
unfoldable pub list_identities : Db → ℕ → Result (List AgentIdentity)
unfolding sort_on identities_from_rows
list_identities db limit = do
  raise_if (not (leb 1 limit && leb limit 10000)) value_error
  identities_from_rows db (take limit (sort_on creation_key db.identities))

-- A generation below 1 is 0 here.
unfoldable pub get_certificate : Db → Text → ℕ → Result AgentCertificate
unfolding normalize_agent_id certificate_row certificate_from_row
get_certificate db agent_id generation = do
  normalized ← normalize_agent_id agent_id
  raise_if (generation == 0) value_error
  row ← certificate_row db normalized generation
  certificate_from_row row

unfoldable pub list_certificates : Db → Text → Result (List AgentCertificate)
unfolding get
list_certificates db agent_id = do identity ← get db agent_id; ok identity.certificates

-- WHERE agent_id = ? AND idempotency_key_sha256 = ?
unfoldable pub has_key : Text → Text → CertificateRow → Bool
unfolding ◌≟◌
has_key agent_id key c = (c.agent_id ≟ agent_id) && is_text c.idempotency_key_sha256 key

unfoldable pub find_key : Text → Option Text → List CertificateRow → Option CertificateRow
unfolding find_where has_key
find_key agent_id none certificates = none
find_key agent_id (some key) certificates = find_where (has_key agent_id key) certificates

unfoldable pub get_by_idempotency_key :
    (Text → Text) → Db → Text → Text → Result (Option AgentCertificate)
unfolding normalize_agent_id idempotency_hash identity_row find_key certificate_from_row
get_by_idempotency_key sha256 db agent_id idempotency_key = do
  normalized ← normalize_agent_id agent_id
  key ← idempotency_hash sha256 (some idempotency_key)
  _ ← identity_row db normalized
  elim (find_key normalized key db.certificates) [
    | none ↦ ok none
    | some row ↦ (do certificate ← certificate_from_row row; ok (some certificate))
  ]
