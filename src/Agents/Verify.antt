-- ===== src/Agents/Verify.antt =====
-- `verify` of form/src/kcatta_form/agent_identity_store.py.
use kcatta.Prelude.{
  Bool, true, false, ◌&&◌, Option, none, some, List, [], ◌∷◌, ◌++◌, Text, ◌≟◌, ltb, leb,
  if◌then◌else◌, find_where, ok, ◌>>=◌, ◌>>◌, raise_if,
}
use kcatta.Agents.Rows.{
  Time, AgentScope, AgentCertificateState, staged, active, retired, revoked, Result, value_error,
  IdentityRow, CertificateRow, Db, AgentCertificate, is_active_identity, certificate_from_row,
  is_agent,
}
use kcatta.Agents.Normalize.{normalize_hex, normalize_serial}
use kcatta.Agents.Rotation.{ends_after}

pub record VerifiedAgentIdentity : Type 0 where
  pub agent_id : Text
  pub target_id : Text
  pub canonical_host_id : Text
  pub scopes : List AgentScope
  pub certificate : AgentCertificate

-- JOIN agent_identities AS i ON i.agent_id = c.agent_id
unfoldable pub join_row : CertificateRow → List IdentityRow → List (CertificateRow × IdentityRow)
unfolding is_agent
join_row c [] = []
join_row c (i ∷ is_left) =
    let rest = join_row c is_left in if is_agent c.agent_id i then (c, i) ∷ rest else rest

unfoldable pub join : List CertificateRow → List IdentityRow → List (CertificateRow × IdentityRow)
unfolding join_row
join [] identities = []
join (c ∷ certificates) identities = join_row c identities ++ join certificates identities

-- A condition on a column, when there is one.
abbrev pub is_given : Option Text → Text → Bool
is_given none column = true
is_given (some value) column = column ≟ value

unfoldable pub identified : Option Text → Option Text → CertificateRow × IdentityRow → Bool
unfolding ◌≟◌
identified fingerprint serial (c, i) =
    is_given fingerprint c.cert_sha256 && is_given serial c.serial_number

abbrev pub accepted_state : Bool → Time → AgentCertificateState → Option Time → Bool
accepted_state allow_staged now staged until = allow_staged
accepted_state allow_staged now active until = true
accepted_state allow_staged now retired until = ends_after until now
accepted_state allow_staged now revoked until = false

-- The checks of `verify` on the row that it fetched.
unfoldable pub accepts : Bool → Time → CertificateRow × IdentityRow → Bool
accepts allow_staged now (c, i) =
    is_active_identity i.state
    && leb c.not_before_us now
    && ltb now c.not_after_us
    && accepted_state allow_staged now c.state c.overlap_until_us

unfoldable pub principal :
    Bool → Time → CertificateRow × IdentityRow → Result (Option VerifiedAgentIdentity)
unfolding accepts certificate_from_row
principal allow_staged now (c, i) =
    let verified = (do
      certificate ← certificate_from_row c
      ok (
          some (record {
            agent_id = c.agent_id;
            target_id = i.target_id;
            canonical_host_id = i.canonical_host_id;
            scopes = i.scopes;
            certificate = certificate;
          }))) in
    if accepts allow_staged now (c, i) then verified else ok none

abbrev pub is_none {ℓ} : {A : Type ℓ} → Option A → Bool
is_none none = true
is_none (some a) = false

-- An argument that is given is normalised.
abbrev pub optional : (Text → Result Text) → Option Text → Result (Option Text)
optional f none = ok none
optional f (some value) = do normalized ← f value; ok (some normalized)

unfoldable pub verify :
    Db → Option Text → Option Text → Time → Bool → Result (Option VerifiedAgentIdentity)
unfolding normalize_hex normalize_serial find_where identified join principal
verify db cert_sha256 serial_number now allow_staged = do
  raise_if (is_none cert_sha256 && is_none serial_number) value_error
  fingerprint ← optional (λ value. normalize_hex value (some 64)) cert_sha256
  serial ← optional normalize_serial serial_number
  elim (find_where (identified fingerprint serial) (join db.certificates db.identities)) [
    | none ↦ ok none
    | some row ↦ principal allow_staged now row
  ]
