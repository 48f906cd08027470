-- ===== src/Agents/Rotation.antt =====
-- `stage_certificate` and `activate` of form/src/kcatta_form/agent_identity_store.py.
use kcatta.Prelude.{
  ℕ, ◌+◌, ◌-◌, min, Bool, true, false, not, ◌&&◌, ◌||◌, Option, none, some, List, ◌∷◌, Text, ◌≟◌,
  is_text, ltb, leb, ◌==◌, if◌then◌else◌, exists_where, update_where, count_where, ok, ◌>>=◌, ◌>>◌,
  raise_if,
}
use kcatta.Agents.Rows.{
  Time, AgentCertificateState, staged, active, retired, Result, conflict, value_error,
  validation_error, integrity_error, IdentityRow, CertificateRow, Db, AgentIdentity,
  is_active_identity, is_staged, is_active, is_retired, valid_certificate, certificate_of,
  of_generation, is_agent, identity_row, certificate_row, identity_from_row,
}
use kcatta.Agents.Normalize.{
  required_text, normalize_agent_id, normalize_hex, normalize_serial, idempotency_hash,
}
use kcatta.Agents.Registry.{find_key}

-- The metadata of a generation, as `stage_certificate` is given it and as it normalises it.
pub record Metadata : Type 0 where
  pub generation : ℕ
  pub serial_number : Text
  pub cert_sha256 : Text
  pub spki_sha256 : Text
  pub certificate_pem : Text
  pub not_before : Time
  pub not_after : Time

abbrev pub new_certificate : Text → Metadata → Option Text → Time → CertificateRow
new_certificate agent_id m key now = record {
  agent_id = agent_id;
  generation = m.generation;
  serial_number = m.serial_number;
  cert_sha256 = m.cert_sha256;
  spki_sha256 = m.spki_sha256;
  state = staged;
  certificate_pem = m.certificate_pem;
  idempotency_key_sha256 = key;
  not_before_us = m.not_before;
  not_after_us = m.not_after;
  created_at_us = now;
  activated_at_us = none;
  retired_at_us = none;
  overlap_until_us = none;
  revoked_at_us = none;
}

unfoldable pub normalize_metadata : Metadata → Result Metadata
unfolding normalize_serial normalize_hex required_text
normalize_metadata m = do
  serial ← normalize_serial m.serial_number
  fingerprint ← normalize_hex m.cert_sha256 (some 64)
  public_key_fingerprint ← normalize_hex m.spki_sha256 (some 64)
  pem ← required_text 65536 m.certificate_pem
  ok (record m {
    serial_number = serial;
    cert_sha256 = fingerprint;
    spki_sha256 = public_key_fingerprint;
    certificate_pem = pem;
  })

-- WHERE agent_id = ? AND state = ?
unfoldable pub in_state : (AgentCertificateState → Bool) → Text → CertificateRow → Bool
unfolding ◌≟◌
in_state test agent_id c = (c.agent_id ≟ agent_id) && test c.state

-- A row that shares a unique column, or the key of the agent, with the new row. The staged slot is
-- checked apart.
unfoldable pub certificate_collides : CertificateRow → CertificateRow → Bool
unfolding ◌≟◌
certificate_collides new c =
    ((c.agent_id ≟ new.agent_id) && (c.generation == new.generation))
    || (c.serial_number ≟ new.serial_number)
    || (c.cert_sha256 ≟ new.cert_sha256)
    || ((c.agent_id ≟ new.agent_id) && elim new.idempotency_key_sha256 [
      | none ↦ false
      | some key ↦ is_text c.idempotency_key_sha256 key
    ])

-- What the constraints of `agent_certificates` refuse of a new staged row.
unfoldable pub refused : CertificateRow → List CertificateRow → Bool
unfolding exists_where certificate_collides in_state
refused new certificates =
    exists_where (certificate_collides new) certificates
    || exists_where (in_state is_staged new.agent_id) certificates
    || (new.generation == 0)
    || leb new.not_after_us new.not_before_us

-- WHERE agent_id = ? AND generation = ? AND state = 'active'
unfoldable pub at_generation : Text → ℕ → IdentityRow → Bool
unfolding ◌≟◌
at_generation agent_id generation i =
    (i.agent_id ≟ agent_id) && (i.generation == generation) && is_active_identity i.state

abbrev pub touch_identity : Time → IdentityRow → IdentityRow
touch_identity now i = record i { updated_at_us = now; revision = i.revision + 1 }

unfoldable pub touched : Text → Time → List IdentityRow → List IdentityRow
unfolding update_where is_agent
touched agent_id now identities = update_where (is_agent agent_id) (touch_identity now) identities

-- What an operation returns of the agent after its writes.
unfoldable pub reread : Text → Db → Result (AgentIdentity × Db)
unfolding identity_row identity_from_row
reread agent_id db = do
  row ← identity_row db agent_id
  identity ← identity_from_row db row
  ok (identity, db)

-- The part of `stage_certificate` after the idempotency key was looked up in vain.
unfoldable pub insert_certificate :
    IdentityRow → CertificateRow → Time → Db → Result ((AgentIdentity × Bool) × Db)
unfolding exists_where in_state refused count_where update_where at_generation reread
insert_certificate identity new now db = do
  raise_if (exists_where (in_state is_staged new.agent_id) db.certificates) conflict
  raise_if (not (new.generation == identity.generation + 1)) conflict
  raise_if (refused new db.certificates) conflict
  let current = at_generation new.agent_id (new.generation - 1)
  raise_if (not (count_where current db.identities == 1)) conflict
  let db' : Db = record {
    identities =
        update_where current
          (λ (i : IdentityRow). record (touch_identity now i) { generation = new.generation })
          db.identities;
    certificates = new ∷ db.certificates;
  }
  (answer, done) ← reread new.agent_id db'
  ok ((answer, true), done)

unfoldable pub stage_transaction :
    Text → Metadata → Option Text → Time → Db → Result ((AgentIdentity × Bool) × Db)
unfolding identity_row find_key identity_from_row insert_certificate
stage_transaction agent_id m key now db = do
  identity ← identity_row db agent_id
  raise_if (not (is_active_identity identity.state)) conflict
  elim (find_key agent_id key db.certificates) [
    | some _ ↦ (do answer ← identity_from_row db identity; ok ((answer, false), db))
    | none ↦ insert_certificate identity (new_certificate agent_id m key now) now db
  ]

unfoldable pub stage_certificate :
    (Text → Text) → Text → Metadata → Option Text → Time → Db → Result ((AgentIdentity × Bool) × Db)
unfolding normalize_agent_id normalize_metadata idempotency_hash valid_certificate stage_transaction
stage_certificate sha256 agent_id metadata idempotency_key now db = do
  normalized ← normalize_agent_id agent_id
  m ← normalize_metadata metadata
  key ← idempotency_hash sha256 idempotency_key
  raise_if (not (valid_certificate (certificate_of (new_certificate normalized m key now))))
      validation_error
  stage_transaction normalized m key now db

-- A retired generation whose overlap has not ended.
abbrev pub ends_after : Option Time → Time → Bool
ends_after none now = false
ends_after (some t) now = ltb now t

unfoldable pub overlaps : Time → CertificateRow → Bool
overlaps now c = is_retired c.state && ends_after c.overlap_until_us now

unfoldable pub agent_overlaps : Text → Time → CertificateRow → Bool
unfolding overlaps ◌≟◌
agent_overlaps agent_id now c = (c.agent_id ≟ agent_id) && overlaps now c

abbrev pub close_overlap : Time → CertificateRow → CertificateRow
close_overlap now c = record c { overlap_until_us = some now }

abbrev pub retire : Time → Time → CertificateRow → CertificateRow
retire now until c = record c {
  state = retired;
  retired_at_us = some now;
  overlap_until_us = some (min c.not_after_us until);
}

abbrev pub make_active : Time → CertificateRow → CertificateRow
make_active now c = record c {
  state = active;
  activated_at_us = some now;
  retired_at_us = none;
  overlap_until_us = none;
}

-- WHERE agent_id = ? AND generation = ? AND state = 'staged'
unfoldable pub staged_generation : Text → ℕ → CertificateRow → Bool
unfolding of_generation
staged_generation agent_id generation c = of_generation agent_id generation c && is_staged c.state

-- The first two UPDATEs of `activate`: no older generation keeps an overlap, the active one gets one.
unfoldable pub retire_others : Text → Time → Time → List CertificateRow → List CertificateRow
unfolding update_where agent_overlaps in_state
retire_others agent_id now until certificates =
    update_where (in_state is_active agent_id) (retire now until)
      (update_where (agent_overlaps agent_id now) (close_overlap now) certificates)

-- The writes of `activate`. `uq_agent_certificate_active` allows one active row of an agent.
unfoldable pub rotate : Text → ℕ → Time → Time → Db → Result (AgentIdentity × Db)
unfolding retire_others update_where staged_generation count_where in_state touched reread
rotate agent_id generation now until db = do
  let others = retire_others agent_id now until db.certificates
  let certificates = update_where (staged_generation agent_id generation) (make_active now) others
  raise_if (ltb 1 (count_where (in_state is_active agent_id) certificates)) integrity_error
  raise_if (not (count_where (staged_generation agent_id generation) others == 1)) conflict
  reread agent_id
      (record { identities = touched agent_id now db.identities; certificates = certificates })

abbrev pub max_rotation_overlap : Time
max_rotation_overlap = 3600000000

-- A generation below 1 is 0 here, and a negative overlap, which the code refuses too, is none.
unfoldable pub activate : Text → ℕ → Time → Time → Db → Result (AgentIdentity × Db)
unfolding normalize_agent_id identity_row certificate_row identity_from_row rotate
activate agent_id generation overlap now db = do
  normalized ← normalize_agent_id agent_id
  raise_if (generation == 0) value_error
  raise_if (ltb max_rotation_overlap overlap) value_error
  identity ← identity_row db normalized
  raise_if (not (is_active_identity identity.state)) conflict
  certificate ← certificate_row db normalized generation
  let rotated = (do
    raise_if (not (is_staged certificate.state)) conflict
    raise_if (leb certificate.not_after_us now) conflict
    rotate normalized generation now (now + overlap) db)
  if is_active certificate.state
      then (do answer ← identity_from_row db identity; ok (answer, db))
      else rotated
