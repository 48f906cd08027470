-- ===== src/Agents/Sound/Staged.antt =====
-- The writes of `stage_certificate` (form/src/kcatta_form/agent_identity_store.py) keep the invariant.
use kcatta.Prelude.{
  ◌+◌, ◌≡◌, ◌≢◌, refl, sym, ap, ◌∙◌, ℕ, true, false, Bool, some, List, ◌∷◌, inl, inr, arith, Memᴰ,
  head, tail, Text, ≟_iff, Bool-cases, find_where, find_where-some, exists_where,
  exists_where-false, update_where, update_where_hit, update_where-Memᴰ,
}
use kcatta.Agents.Rows.{
  Time, AgentCertificateState, IdentityRow, CertificateRow, Db, is_staged, is_active,
  is_active_identity, valid_certificate, certificate_of, is_agent,
}
use kcatta.Agents.Rotation.{in_state, certificate_collides, refused, at_generation, overlaps}
use kcatta.Agents.Effect.{SameIdentity, staged_identity}
use kcatta.Agents.Sound.Keys.{IsSound, Owner, IsSingle, HasKeys-update_where, fields-update_where}

distinct :
    (new c : CertificateRow)
    → certificate_collides new c ≡ false
    → (c.generation ∷ c.agent_id ≢ new.generation ∷ new.agent_id)
      × (c.serial_number ≢ new.serial_number)
      × (c.cert_sha256 ≢ new.cert_sha256)
unfolding certificate_collides
distinct new c h = (
  λ e.
      let agent : c.agent_id ≡ new.agent_id = cc in
      let generation : c.generation ≡ new.generation = cc in
      absurd (ground (arith, ≟_iff c.agent_id new.agent_id)),
  λ e. absurd (ground (arith, ≟_iff c.serial_number new.serial_number)),
  λ e. absurd (ground (arith, ≟_iff c.cert_sha256 new.cert_sha256)),
)

refused-collides :
    (new : CertificateRow) (certificates : List CertificateRow)
    → refused new certificates ≡ false
    → (exists_where (certificate_collides new) certificates ≡ false)
      × (exists_where (in_state is_staged new.agent_id) certificates ≡ false)
unfolding refused
refused-collides new certificates h = ground arith

not_staged :
    (agent_id : Text) (c : CertificateRow)
    → in_state is_staged agent_id c ≡ false
    → c.agent_id ≡ agent_id
    → is_staged c.state ≡ false
unfolding in_state
not_staged agent_id c h e = ground (arith, ≟_iff c.agent_id agent_id)

at_generation_hit :
    (agent_id : Text) (before : ℕ) (i : IdentityRow)
    → is_agent agent_id i ≡ true
    → i.generation ≡ before
    → is_active_identity i.state ≡ true
    → at_generation agent_id before i ≡ true
unfolding at_generation is_agent
at_generation_hit agent_id before i a b c = ground arith

pub at_generation-generation :
    (agent_id : Text) (before : ℕ) (i : IdentityRow)
    → at_generation agent_id before i ≡ true
    → i.generation ≡ before
unfolding at_generation
at_generation-generation agent_id before i h = ground arith

pub is_agent-agent_id :
    (agent_id : Text) (i : IdentityRow) → is_agent agent_id i ≡ true → i.agent_id ≡ agent_id
unfolding is_agent
is_agent-agent_id agent_id i h = (≟_iff i.agent_id agent_id).0 h

pub staged_identity-SameIdentity :
    (new : CertificateRow) (now : Time) (i : IdentityRow)
    → SameIdentity i (staged_identity new now i)
staged_identity-SameIdentity new now i = record {
  agent_id = refl;
  target_id = refl;
  canonical_host_id = refl;
  scopes = refl;
  created_at = refl;
}

not_overlaps :
    (now : Time) (c : CertificateRow)
    → c.state ≡ AgentCertificateState.staged
    → overlaps now c ≡ false
unfolding overlaps
not_overlaps now c h = rw h refl

-- A test that the new row fails is passed by the same rows as before.
IsSingle-cons :
    (test : CertificateRow → Bool) (new : CertificateRow) {certificates : List CertificateRow}
    → test new ≡ false
    → IsSingle test certificates
    → IsSingle test (new ∷ certificates)
IsSingle-cons test new off single a b (head p) n x y e =
    absurd (let z : test new ≡ true = rw p at x in cc)
IsSingle-cons test new off single a b (tail m) (head q) x y e =
    absurd (let z : test new ≡ true = rw q at y in cc)
IsSingle-cons test new off single a b (tail m) (tail n) x y e = single a b m n x y e

module _ (new : CertificateRow) (before : ℕ) (now : Time) (next : new.generation ≡ before + 1) where
  staged-Owner :
      {identities : List IdentityRow} {c : CertificateRow}
      → Owner identities c
      → Owner
          (update_where (at_generation new.agent_id before) (staged_identity new now) identities)
          c
  staged-Owner {c} o =
      let current = at_generation new.agent_id before in
      elim (Bool-cases (current o.identity)) [
        | inl e ↦
            let old : o.identity.generation ≡ before =
              at_generation-generation new.agent_id before o.identity e in
            record {
              identity = staged_identity new now o.identity;
              present = update_where_hit current (staged_identity new now) o.present e;
              agent_id = o.agent_id;
              reached = omega (arith, o.reached, next, old);
              alive = o.alive;
            }
        | inr e ↦ record {
          identity = o.identity;
          present = rw e at (update_where-Memᴰ current (staged_identity new now) o.present);
          agent_id = o.agent_id;
          reached = o.reached;
          alive = o.alive;
        }
      ]

  pub staged-IsSound :
      (db : Db) (identity : IdentityRow)
      → find_where (is_agent new.agent_id) db.identities ≡ some identity
      → is_active_identity identity.state ≡ true
      → identity.generation ≡ before
      → refused new db.certificates ≡ false
      → new.state ≡ AgentCertificateState.staged
      → valid_certificate (certificate_of new) ≡ true
      → IsSound now db
      → IsSound now (record {
        identities =
            update_where
              (at_generation new.agent_id before)
              (staged_identity new now)
              db.identities;
        certificates = new ∷ db.certificates;
      })
  staged-IsSound db identity found active generation fits state valid s =
      let current = at_generation new.agent_id before in
      let (m, is_owner) = find_where-some (is_agent new.agent_id) db.identities found in
      let (free, slot) = refused-collides new db.certificates fits in
      let apart = λ (c : CertificateRow) (k : Memᴰ c db.certificates).
        distinct new c (exists_where-false (certificate_collides new) free k) in
      let hit = at_generation_hit new.agent_id before identity is_owner generation active in
      let none_staged = λ (c : CertificateRow) (k : Memᴰ c db.certificates).
        not_staged new.agent_id c (exists_where-false (in_state is_staged new.agent_id) slot k) in
      let same = staged_identity-SameIdentity new now in
      record {
        identity_keys = HasKeys-update_where current (staged_identity new now) same s.identity_keys;
        certificate_keys = record {
          generations = (λ c k. (apart c k).0, s.certificate_keys.generations);
          serials = (λ c k. (apart c k).1, s.certificate_keys.serials);
          fingerprints = (λ c k. (apart c k).2, s.certificate_keys.fingerprints);
        };
        owned = λ c k. elim k [
          | head e ↦ rw e (record {
            identity = staged_identity new now identity;
            present = update_where_hit current (staged_identity new now) m hit;
            agent_id = is_agent-agent_id new.agent_id identity is_owner;
            reached = omega arith;
            alive = inl active;
          })
          | tail k' ↦ staged-Owner (s.owned c k')
        ];
        staged_once = λ a b k l x y e. elim k [
          | head p ↦ elim l [
            | head q ↦ ap (λ (c : CertificateRow). c.generation) (p ∙ sym q)
            | tail l' ↦ absurd (
                let off = none_staged b l' (sym e ∙ ap (λ (c : CertificateRow). c.agent_id) p) in
                cc)
          ]
          | tail k' ↦ elim l [
            | head q ↦
                absurd
                  (let off = none_staged a k' (e ∙ ap (λ (c : CertificateRow). c.agent_id) q) in cc)
            | tail l' ↦ s.staged_once a b k' l' x y e
          ]
        ];
        active_once = IsSingle-cons (λ c. is_active c.state) new (rw state refl) s.active_once;
        overlap_once = IsSingle-cons (overlaps now) new (not_overlaps now new state) s.overlap_once;
        fields = fields-update_where current (staged_identity new now) same s.fields;
        metadata = λ c k. elim k [ head e ↦ rw e valid | tail k' ↦ s.metadata c k' ];
      }
