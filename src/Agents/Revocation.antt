-- ===== src/Agents/Revocation.antt =====
-- `abort`, `revoke` and `revoke_certificates` of form/src/kcatta_form/agent_identity_store.py.
use kcatta.Prelude.{
  ℕ, Bool, not, ◌&&◌, Option, none, some, Text, ◌≟◌, ◌==◌, if◌then◌else◌, update_where, count_where,
  ok, ◌>>=◌, ◌>>◌, raise_if,
}
use kcatta.Agents.Rows.{
  Time, AgentIdentityState, AgentCertificateState, Result, conflict, value_error, IdentityRow,
  CertificateRow, Db, AgentIdentity, is_active_identity, is_staged, is_revoked, of_generation,
  is_agent, identity_row, certificate_row, identity_from_row,
}
use kcatta.Agents.Normalize.{normalize_agent_id}
use kcatta.Agents.Rotation.{touch_identity, touched, reread, staged_generation}

-- The columns that a revocation writes; `release` also clears the idempotency key.
abbrev pub revoke_row : Time → CertificateRow → CertificateRow
revoke_row now c = record c {
  state = AgentCertificateState.revoked;
  revoked_at_us = some now;
  overlap_until_us = none;
}

abbrev pub release_row : Time → CertificateRow → CertificateRow
release_row now c = record (revoke_row now c) { idempotency_key_sha256 = none }

unfoldable pub abort : Text → ℕ → Time → Db → Result (AgentIdentity × Db)
unfolding normalize_agent_id identity_row certificate_row identity_from_row update_where
    staged_generation touched reread
abort agent_id generation now db = do
  normalized ← normalize_agent_id agent_id
  raise_if (generation == 0) value_error
  identity ← identity_row db normalized
  certificate ← certificate_row db normalized generation
  let aborted = (do
    raise_if (not (is_staged certificate.state)) conflict
    reread normalized (record {
      identities = touched normalized now db.identities;
      certificates =
          update_where (staged_generation normalized generation) (release_row now) db.certificates;
    }))
  if is_revoked certificate.state
      then (do answer ← identity_from_row db identity; ok (answer, db))
      else aborted

-- WHERE agent_id = ? AND state != 'revoked'
unfoldable pub not_revoked : Text → CertificateRow → Bool
unfolding ◌≟◌
not_revoked agent_id c = (c.agent_id ≟ agent_id) && not (is_revoked c.state)

abbrev pub revoke_identity : Time → IdentityRow → IdentityRow
revoke_identity now i = record (touch_identity now i) {
  state = AgentIdentityState.revoked;
  revoked_at_us = some now;
}

-- `revoke` without a generation.
unfoldable pub revoke_agent : Text → Time → Db → Result (AgentIdentity × Db)
unfolding normalize_agent_id identity_row identity_from_row update_where is_agent not_revoked reread
revoke_agent agent_id now db = do
  normalized ← normalize_agent_id agent_id
  identity ← identity_row db normalized
  let revoked = reread normalized (record {
    identities = update_where (is_agent normalized) (revoke_identity now) db.identities;
    certificates = update_where (not_revoked normalized) (revoke_row now) db.certificates;
  })
  if is_active_identity identity.state
      then revoked
      else (do answer ← identity_from_row db identity; ok (answer, db))

-- `revoke` of one generation.
unfoldable pub revoke_generation : Text → ℕ → Time → Db → Result (AgentIdentity × Db)
unfolding normalize_agent_id identity_row certificate_row update_where of_generation touched reread
revoke_generation agent_id generation now db = do
  normalized ← normalize_agent_id agent_id
  raise_if (generation == 0) value_error
  _ ← identity_row db normalized
  certificate ← certificate_row db normalized generation
  let revoked : Db = record {
    identities = touched normalized now db.identities;
    certificates =
        update_where (of_generation normalized generation) (revoke_row now) db.certificates;
  }
  reread normalized (if is_revoked certificate.state then db else revoked)

unfoldable pub revoke : Text → Option ℕ → Time → Db → Result (AgentIdentity × Db)
unfolding revoke_agent revoke_generation
revoke agent_id none now db = revoke_agent agent_id now db
revoke agent_id (some generation) now db = revoke_generation agent_id generation now db

unfoldable pub revoke_certificates : Text → Time → Db → Result (AgentIdentity × Db)
unfolding normalize_agent_id identity_row update_where count_where not_revoked touched reread
revoke_certificates agent_id now db = do
  normalized ← normalize_agent_id agent_id
  _ ← identity_row db normalized
  let changed = count_where (not_revoked normalized) db.certificates
  reread normalized (record {
    identities = if changed == 0 then db.identities else touched normalized now db.identities;
    certificates = update_where (not_revoked normalized) (release_row now) db.certificates;
  })
