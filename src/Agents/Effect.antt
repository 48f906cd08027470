-- ===== src/Agents/Effect.antt =====
-- What a call of the registry (form/src/kcatta_form/agent_identity_store.py) that returns did to the
-- two tables.
pub mod Registry
pub mod Rotation
pub mod Revocation
use kcatta.Prelude.{
  ◌+◌, ◌≡◌, ◌⊎◌, ℕ, true, false, Bool, some, ◌∷◌, Text, find_where, exists_where, update_where,
}
use kcatta.Agents.Rows.{
  Time, AgentIdentityState, AgentCertificateState, IdentityRow, CertificateRow, Db, is_staged,
  is_revoked, is_active_identity, valid_fields, valid_certificate, certificate_of, is_agent,
  of_agent, of_generation,
}
use kcatta.Agents.Registry.{collides}
use kcatta.Agents.Rotation.{
  touch_identity, refused, at_generation, retire_others, staged_generation, make_active, touched,
}

-- The columns of a certificate that no call changes.
pub record SameCertificate (a b : CertificateRow) : Type 0 where
  pub agent_id : b.agent_id ≡ a.agent_id
  pub generation : b.generation ≡ a.generation
  pub serial_number : b.serial_number ≡ a.serial_number
  pub cert_sha256 : b.cert_sha256 ≡ a.cert_sha256
  pub spki_sha256 : b.spki_sha256 ≡ a.spki_sha256
  pub certificate_pem : b.certificate_pem ≡ a.certificate_pem
  pub not_before : b.not_before_us ≡ a.not_before_us
  pub not_after : b.not_after_us ≡ a.not_after_us
  pub created_at : b.created_at_us ≡ a.created_at_us

-- The columns of an identity that no call changes.
pub record SameIdentity (i j : IdentityRow) : Type 0 where
  pub agent_id : j.agent_id ≡ i.agent_id
  pub target_id : j.target_id ≡ i.target_id
  pub canonical_host_id : j.canonical_host_id ≡ i.canonical_host_id
  pub scopes : j.scopes ≡ i.scopes
  pub created_at : j.created_at_us ≡ i.created_at_us

pub record Revoking (f : CertificateRow → CertificateRow) : Type 0 where
  pub same : (c : CertificateRow) → SameCertificate c (f c)
  pub state : (c : CertificateRow) → (f c).state ≡ AgentCertificateState.revoked

pub record Touching (g : IdentityRow → IdentityRow) : Type 0 where
  pub same : (i : IdentityRow) → SameIdentity i (g i)
  pub generation : (i : IdentityRow) → (g i).generation ≡ i.generation

-- An update either leaves the states of the identities, or revokes them with every certificate of
-- the agent.
abbrev pub Covers : Text → (CertificateRow → Bool) → (IdentityRow → IdentityRow) → Type 0
Covers agent_id q g =
    ((i : IdentityRow) → (g i).state ≡ i.state)
    ⊎ (((i : IdentityRow) → (g i).state ≡ AgentIdentityState.revoked)
        × ((c : CertificateRow)
            → of_agent agent_id c ≡ true
            → q c ≡ false
            → is_revoked c.state ≡ true))

abbrev pub staged_identity : CertificateRow → Time → IdentityRow → IdentityRow
staged_identity new now i = record (touch_identity now i) { generation = new.generation }

pub data Effect (now : Time) (db : Db) : Db → Type 0 where
  unchanged : Effect now db db
  registered :
      (new : IdentityRow)
      → exists_where (collides new) db.identities ≡ false
      → new.state ≡ AgentIdentityState.active
      → valid_fields new ≡ true
      → Effect now db (record db { identities = new ∷ db.identities })
  staged :
      (identity : IdentityRow) (new : CertificateRow) (before : ℕ)
      → find_where (is_agent new.agent_id) db.identities ≡ some identity
      → is_active_identity identity.state ≡ true
      → identity.generation ≡ before
      → new.generation ≡ before + 1
      → refused new db.certificates ≡ false
      → new.state ≡ AgentCertificateState.staged
      → valid_certificate (certificate_of new) ≡ true
      → Effect now db (record {
        identities =
            update_where
              (at_generation new.agent_id before)
              (staged_identity new now)
              db.identities;
        certificates = new ∷ db.certificates;
      })
  rotated :
      (agent_id : Text) (generation : ℕ) (until : Time) (identity : IdentityRow)
      (certificate : CertificateRow)
      → find_where (is_agent agent_id) db.identities ≡ some identity
      → is_active_identity identity.state ≡ true
      → find_where (of_generation agent_id generation) db.certificates ≡ some certificate
      → is_staged certificate.state ≡ true
      → Effect now db (record {
        identities = touched agent_id now db.identities;
        certificates =
            update_where
              (staged_generation agent_id generation)
              (make_active now)
              (retire_others agent_id now until db.certificates);
      })
  weakened :
      (agent_id : Text) (q : CertificateRow → Bool) (f : CertificateRow → CertificateRow)
      (g : IdentityRow → IdentityRow)
      → Revoking f
      → Touching g
      → Covers agent_id q g
      → Effect now db (record {
        identities = update_where (is_agent agent_id) g db.identities;
        certificates = update_where q f db.certificates;
      })
