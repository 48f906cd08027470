-- ===== src/Agents/Sound/Keys.antt =====
-- The invariant of the two tables, and the parts of it that hold of every update of
-- form/src/kcatta_form/agent_identity_store.py.
use kcatta.Prelude.{
  ◌≡◌, ◌≤◌, refl, sym, ◌∙◌, true, false, Bool, List, ◌∷◌, ◌⊎◌, Memᴰ, Text, if◌then◌else◌,
  update_where, Memᴰ-update_where, IsKeyed, IsKeyed-update_where,
}
use kcatta.Agents.Rows.{
  Time, IdentityRow, CertificateRow, Db, is_staged, is_active, is_revoked, is_active_identity,
  valid_fields, valid_certificate, certificate_of,
}
use kcatta.Agents.Rotation.{overlaps}
use kcatta.Agents.Effect.{SameCertificate, SameIdentity}

abbrev pub identity_agent : IdentityRow → Text
identity_agent i = i.agent_id

abbrev pub identity_target : IdentityRow → Text
identity_target i = i.target_id

abbrev pub identity_host : IdentityRow → Text
identity_host i = i.canonical_host_id

abbrev pub certificate_key : CertificateRow → Text
certificate_key c = c.generation ∷ c.agent_id

abbrev pub certificate_serial : CertificateRow → Text
certificate_serial c = c.serial_number

abbrev pub certificate_fingerprint : CertificateRow → Text
certificate_fingerprint c = c.cert_sha256

-- The PRIMARY KEY and UNIQUE columns of `agent_identities`, and of `agent_certificates`.
pub record HasKeys (identities : List IdentityRow) : Type 0 where
  pub agents : IsKeyed identity_agent identities
  pub targets : IsKeyed identity_target identities
  pub hosts : IsKeyed identity_host identities

pub record HasCertificateKeys (certificates : List CertificateRow) : Type 0 where
  pub generations : IsKeyed certificate_key certificates
  pub serials : IsKeyed certificate_serial certificates
  pub fingerprints : IsKeyed certificate_fingerprint certificates

-- An agent has one generation at most that passes the test.
abbrev pub IsSingle : (CertificateRow → Bool) → List CertificateRow → Type 0
IsSingle test certificates =
    (a b : CertificateRow)
    → Memᴰ a certificates
    → Memᴰ b certificates
    → test a ≡ true
    → test b ≡ true
    → a.agent_id ≡ b.agent_id
    → a.generation ≡ b.generation

-- The identity of a certificate: it has reached the generation, and if it is revoked so is the
-- certificate.
pub record Owner (identities : List IdentityRow) (c : CertificateRow) : Type 0 where
  pub identity : IdentityRow
  pub present : Memᴰ identity identities
  pub agent_id : identity.agent_id ≡ c.agent_id
  pub reached : c.generation ≤ identity.generation
  pub alive : (is_active_identity identity.state ≡ true) ⊎ (is_revoked c.state ≡ true)

pub record IsSound (now : Time) (db : Db) : Type 0 where
  pub identity_keys : HasKeys db.identities
  pub certificate_keys : HasCertificateKeys db.certificates
  pub owned : (c : CertificateRow) → Memᴰ c db.certificates → Owner db.identities c
  pub staged_once : IsSingle (λ c. is_staged c.state) db.certificates
  pub active_once : IsSingle (λ c. is_active c.state) db.certificates
  pub overlap_once : IsSingle (overlaps now) db.certificates
  pub fields : (i : IdentityRow) → Memᴰ i db.identities → valid_fields i ≡ true
  pub metadata :
      (c : CertificateRow) → Memᴰ c db.certificates → valid_certificate (certificate_of c) ≡ true

pub SameCertificate-refl : (c : CertificateRow) → SameCertificate c c
SameCertificate-refl c = record {
  agent_id = refl;
  generation = refl;
  serial_number = refl;
  cert_sha256 = refl;
  spki_sha256 = refl;
  certificate_pem = refl;
  not_before = refl;
  not_after = refl;
  created_at = refl;
}

pub SameCertificate-trans :
    {a b c : CertificateRow} → SameCertificate a b → SameCertificate b c → SameCertificate a c
SameCertificate-trans p q = record {
  agent_id = q.agent_id ∙ p.agent_id;
  generation = q.generation ∙ p.generation;
  serial_number = q.serial_number ∙ p.serial_number;
  cert_sha256 = q.cert_sha256 ∙ p.cert_sha256;
  spki_sha256 = q.spki_sha256 ∙ p.spki_sha256;
  certificate_pem = q.certificate_pem ∙ p.certificate_pem;
  not_before = q.not_before ∙ p.not_before;
  not_after = q.not_after ∙ p.not_after;
  created_at = q.created_at ∙ p.created_at;
}

pub SameIdentity-refl : (i : IdentityRow) → SameIdentity i i
SameIdentity-refl i = record {
  agent_id = refl;
  target_id = refl;
  canonical_host_id = refl;
  scopes = refl;
  created_at = refl;
}

pub valid_certificate_same :
    (a b : CertificateRow)
    → SameCertificate a b
    → valid_certificate (certificate_of b) ≡ valid_certificate (certificate_of a)
unfolding valid_certificate
valid_certificate_same a b s =
    rw
      (
        s.agent_id, s.generation, s.serial_number, s.cert_sha256, s.spki_sha256, s.not_before,
        s.not_after,
      )
      refl

pub valid_fields_same : (i j : IdentityRow) → SameIdentity i j → valid_fields j ≡ valid_fields i
unfolding valid_fields
valid_fields_same i j s = rw (s.agent_id, s.target_id, s.canonical_host_id, s.scopes) refl

pub SameCertificate-if :
    (b : Bool) (c d : CertificateRow) → SameCertificate c d → SameCertificate c (if b then d else c)
SameCertificate-if true c d s = s
SameCertificate-if false c d s = SameCertificate-refl c

module _ (p : CertificateRow → Bool) (f : CertificateRow → CertificateRow)
    (same : (c : CertificateRow) → SameCertificate c (f c)) where
  pub HasCertificateKeys-update_where :
      {certificates : List CertificateRow}
      → HasCertificateKeys certificates
      → HasCertificateKeys (update_where p f certificates)
  HasCertificateKeys-update_where {certificates} k = record {
    generations =
        IsKeyed-update_where certificate_key p f
          (λ c _. let s = same c in rw (s.generation, s.agent_id) refl) certificates k.generations;
    serials =
        IsKeyed-update_where certificate_serial p f (λ c _. (same c).serial_number) certificates
          k.serials;
    fingerprints =
        IsKeyed-update_where certificate_fingerprint p f (λ c _. (same c).cert_sha256) certificates
          k.fingerprints;
  }

module _ (p : IdentityRow → Bool) (g : IdentityRow → IdentityRow)
    (same : (i : IdentityRow) → SameIdentity i (g i)) where
  pub HasKeys-update_where :
      {identities : List IdentityRow} → HasKeys identities → HasKeys (update_where p g identities)
  HasKeys-update_where {identities} k = record {
    agents = IsKeyed-update_where identity_agent p g (λ i _. (same i).agent_id) identities k.agents;
    targets =
        IsKeyed-update_where identity_target p g (λ i _. (same i).target_id) identities k.targets;
    hosts =
        IsKeyed-update_where identity_host p g (λ i _. (same i).canonical_host_id) identities
          k.hosts;
  }

  pub SameIdentity-if : (b : Bool) (i : IdentityRow) → SameIdentity i (if b then g i else i)
  SameIdentity-if true i = same i
  SameIdentity-if false i = SameIdentity-refl i

  pub fields-update_where :
      {identities : List IdentityRow}
      → ((i : IdentityRow) → Memᴰ i identities → valid_fields i ≡ true)
      → (j : IdentityRow) → Memᴰ j (update_where p g identities)
      → valid_fields j ≡ true
  fields-update_where {identities} valid j m =
      let (i, k, e) = Memᴰ-update_where p g identities m in
      rw (e, valid_fields_same i (if p i then g i else i) (SameIdentity-if (p i) i)) (valid i k)

-- A test of the rows after a call that only rows pass which passed one before.
pub IsSingle-of :
    (test test' : CertificateRow → Bool) {certificates certificates' : List CertificateRow}
    → ((b : CertificateRow)
        → Memᴰ b certificates'
        → test' b ≡ true
        → (a : CertificateRow) × Memᴰ a certificates × (test a ≡ true) × SameCertificate a b)
    → IsSingle test certificates
    → IsSingle test' certificates'
IsSingle-of test test' from single a b m n p q e =
    let (a', m', p', sa) = from a m p in
    let (b', n', q', sb) = from b n q in
    sa.generation
    ∙ (single a' b' m' n' p' q' (sym sa.agent_id ∙ (e ∙ sb.agent_id)) ∙ sym sb.generation)
