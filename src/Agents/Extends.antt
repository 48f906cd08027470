-- ===== src/Agents/Extends.antt =====
-- How a later state of the registry extends an earlier one
-- (form/src/kcatta_form/agent_identity_store.py).
use kcatta.Prelude.{
  ◌≡◌, ◌≤◌, ◌<◌, refl, ◌∙◌, ℕ, true, false, Bool, List, ◌⊎◌, inl, inr, arith, Memᴰ, Text,
  if◌then◌else◌, update_where, update_where-Memᴰ,
}
use kcatta.Agents.Rows.{
  Time, AgentCertificateState, active, retired, revoked, IdentityRow, CertificateRow, Db,
  is_active_identity, of_generation,
}
use kcatta.Agents.Rotation.{agent_overlaps, in_state, staged_generation, overlaps}
use kcatta.Agents.Effect.{Revoking, SameCertificate, SameIdentity}
use kcatta.Agents.Sound.Keys.{
  SameCertificate-refl, SameCertificate-trans, SameCertificate-if, SameIdentity-refl,
  SameIdentity-if,
}
use kcatta.Agents.Sound.Rotated.{rotated_row, closed_row, retired_row, activated_row}

-- The order in which a certificate passes through its states.
abbrev pub age : AgentCertificateState → ℕ
age AgentCertificateState.staged = 0
age active = 1
age retired = 2
age revoked = 3

-- Every row of a state is a row of the later state, with the same identity columns, in the same
-- state or one that comes after it; a row that was added has a generation that its agent had not
-- reached.
pub record Extends (db db' : Db) : Type 0 where
  pub certificates :
      (a : CertificateRow)
      → Memᴰ a db.certificates
      → (b : CertificateRow) × Memᴰ b db'.certificates
        × SameCertificate a b
        × (age a.state ≤ age b.state)
  pub identities :
      (i : IdentityRow)
      → Memᴰ i db.identities
      → (j : IdentityRow) × Memᴰ j db'.identities
        × SameIdentity i j
        × (i.generation ≤ j.generation)
        × (is_active_identity j.state ≡ true → is_active_identity i.state ≡ true)
  pub added :
      (b : CertificateRow)
      → Memᴰ b db'.certificates
      → ((a : CertificateRow) × Memᴰ a db.certificates × SameCertificate a b)
        ⊎ ((i : IdentityRow)
            → Memᴰ i db.identities
            → i.agent_id ≡ b.agent_id
            → i.generation < b.generation)

pub Extends-refl : (db : Db) → Extends db db
Extends-refl db = record {
  certificates = λ a m. (a, m, SameCertificate-refl a, omega arith);
  identities = λ i m. (i, m, SameIdentity-refl i, omega arith, λ on. on);
  added = λ b m. inl (b, m, SameCertificate-refl b);
}

SameIdentity-trans : {i j k : IdentityRow} → SameIdentity i j → SameIdentity j k → SameIdentity i k
SameIdentity-trans p q = record {
  agent_id = q.agent_id ∙ p.agent_id;
  target_id = q.target_id ∙ p.target_id;
  canonical_host_id = q.canonical_host_id ∙ p.canonical_host_id;
  scopes = q.scopes ∙ p.scopes;
  created_at = q.created_at ∙ p.created_at;
}

pub Extends-trans : {a b c : Db} → Extends a b → Extends b c → Extends a c
Extends-trans p q = record {
  certificates = λ x m.
      let (y, n, s, le) = p.certificates x m in
      let (z, k, t, le') = q.certificates y n in
      (z, k, SameCertificate-trans s t, omega (arith, le, le'));
  identities = λ x m.
      let (y, n, s, le, on) = p.identities x m in
      let (z, k, t, le', on') = q.identities y n in
      (z, k, SameIdentity-trans s t, omega (arith, le, le'), λ h. on (on' h));
  added = λ z k. elim (q.added z k) [
    | inl (y, n, t) ↦ elim (p.added y n) [
      | inl (x, m, s) ↦ inl (x, m, SameCertificate-trans s t)
      | inr above ↦
          inr (λ i m e. let lt = above i m (e ∙ t.agent_id) in omega (arith, lt, t.generation))
    ]
    | inr above ↦ inr (λ i m e.
        let (j, n, s, le, _) = p.identities i m in
        let lt = above j n (s.agent_id ∙ e) in omega (arith, lt, le))
  ];
}

-- An update of the identities that keeps their columns and lets the generation grow.
pub identities-update_where :
    (p : IdentityRow → Bool) (g : IdentityRow → IdentityRow) (identities : List IdentityRow)
    → ((i : IdentityRow) → SameIdentity i (g i))
    → ((i : IdentityRow) → p i ≡ true → i.generation ≤ (g i).generation)
    → ((i : IdentityRow)
        → is_active_identity (g i).state ≡ true
        → is_active_identity i.state ≡ true)
    → (i : IdentityRow) → Memᴰ i identities
    → (j : IdentityRow) × Memᴰ j (update_where p g identities)
      × SameIdentity i j
      × (i.generation ≤ j.generation)
      × (is_active_identity j.state ≡ true → is_active_identity i.state ≡ true)
identities-update_where p g identities same grows alive i m = (
  if p i then g i else i,
  update_where-Memᴰ p g m,
  SameIdentity-if p g same (p i) i,
  grown (p i) refl,
  active_before (p i),
)
  where
    active_before :
        (b : Bool)
        → is_active_identity (if b then g i else i).state ≡ true
        → is_active_identity i.state ≡ true
    active_before true on = alive i on
    active_before false on = on

    grown : (b : Bool) → p i ≡ b → i.generation ≤ (if b then g i else i).generation
    grown true e = grows i e
    grown false e = omega arith

pub rotated_row-age :
    (agent_id : Text) (generation : ℕ) (now until : Time) (c : CertificateRow)
    → age c.state ≤ age (rotated_row agent_id generation now until c).state
unfolding rotated_row closed_row retired_row activated_row agent_overlaps in_state staged_generation
    of_generation overlaps
rotated_row-age agent_id generation now until c = ground arith

pub weakened-certificates :
    (q : CertificateRow → Bool) (f : CertificateRow → CertificateRow)
    (certificates : List CertificateRow)
    → Revoking f
    → (a : CertificateRow) → Memᴰ a certificates
    → (b : CertificateRow) × Memᴰ b (update_where q f certificates)
      × SameCertificate a b
      × (age a.state ≤ age b.state)
weakened-certificates q f certificates revoking a m = (
  if q a then f a else a,
  update_where-Memᴰ q f m,
  SameCertificate-if (q a) a (f a) (revoking.same a),
  older (q a),
)
  where
    oldest : (s : AgentCertificateState) → age s ≤ 3
    oldest AgentCertificateState.staged = omega arith
    oldest active = omega arith
    oldest retired = omega arith
    oldest revoked = omega arith

    older : (b : Bool) → age a.state ≤ age (if b then f a else a).state
    older true = rw (revoking.state a) (oldest a.state)
    older false = omega arith
