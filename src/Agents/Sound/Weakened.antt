-- ===== src/Agents/Sound/Weakened.antt =====
-- The writes of `abort`, `revoke` and `revoke_certificates`
-- (form/src/kcatta_form/agent_identity_store.py) keep the invariant.
use kcatta.Prelude.{
  ◌≡◌, refl, sym, ◌∙◌, true, false, Bool, List, ◌⊎◌, inl, inr, arith, Memᴰ, Text, if◌then◌else◌,
  Bool-cases, update_where, update_where-Memᴰ, Memᴰ-update_where,
}
use kcatta.Agents.Rows.{
  Time, AgentCertificateState, IdentityRow, CertificateRow, Db, is_staged, is_active, is_revoked,
  is_active_identity, is_agent, of_agent,
}
use kcatta.Agents.Rotation.{overlaps}
use kcatta.Agents.Effect.{SameCertificate, Revoking, Touching, Covers}
use kcatta.Agents.Sound.Keys.{
  IsSound, Owner, IsSingle, IsSingle-of, HasKeys-update_where, HasCertificateKeys-update_where,
  fields-update_where, valid_certificate_same, SameCertificate-refl, SameCertificate-if,
}

is_agent_of :
    (agent_id : Text) (i : IdentityRow) (c : CertificateRow)
    → i.agent_id ≡ c.agent_id
    → is_agent agent_id i ≡ of_agent agent_id c
unfolding is_agent of_agent
is_agent_of agent_id i c e = rw e refl

overlaps-revoked :
    (now : Time) (c : CertificateRow)
    → c.state ≡ AgentCertificateState.revoked
    → overlaps now c ≡ false
unfolding overlaps
overlaps-revoked now c h = rw h refl

module _ (agent_id : Text) (q : CertificateRow → Bool) (f : CertificateRow → CertificateRow)
    (g : IdentityRow → IdentityRow) (revoking : Revoking f) (touching : Touching g)
    (covers : Covers agent_id q g) where
  -- A row that is not revoked after the update was there before.
  survivor :
      (b : CertificateRow) (certificates : List CertificateRow)
      → Memᴰ b (update_where q f certificates)
      → (b.state ≡ AgentCertificateState.revoked)
        ⊎ ((a : CertificateRow) × Memᴰ a certificates × (q a ≡ false) × (b ≡ a))
  survivor b certificates m =
      let (a, k, e) = Memᴰ-update_where q f certificates m in
      elim (Bool-cases (q a)) [
        | inl y ↦ inl (rw (rw y at e) (revoking.state a))
        | inr z ↦ inr (a, k, z, rw z at e)
      ]

  IsSingle-weakened :
      (test : CertificateRow → Bool) (certificates : List CertificateRow)
      → ((c : CertificateRow) → c.state ≡ AgentCertificateState.revoked → test c ≡ false)
      → IsSingle test certificates
      → IsSingle test (update_where q f certificates)
  IsSingle-weakened test certificates off = IsSingle-of test test (λ b m on.
      elim (survivor b certificates m) [
        | inl dead ↦ absurd (let no = off b dead in cc)
        | inr (a, k, _, e) ↦ (a, k, rw e at on, rw e (SameCertificate-refl a))
      ])

  weakened-alive :
      (b : Bool) (i : IdentityRow) (c : CertificateRow)
      → is_agent agent_id i ≡ b
      → i.agent_id ≡ c.agent_id
      → q c ≡ false
      → (is_active_identity i.state ≡ true) ⊎ (is_revoked c.state ≡ true)
      → (is_active_identity (if b then g i else i).state ≡ true) ⊎ (is_revoked c.state ≡ true)
  weakened-alive b i c is e spared (inr dead) = inr dead
  weakened-alive false i c is e spared (inl alive) = inl alive
  weakened-alive true i c is e spared (inl alive) = elim covers [
    | inl same ↦ inl (rw (same i) alive)
    | inr (_, all) ↦ inr (all c (rw (is_agent_of agent_id i c e) at is) spared)
  ]

  kept_columns :
      (t : Bool) (i : IdentityRow)
      → ((if t then g i else i).agent_id ≡ i.agent_id)
        × ((if t then g i else i).generation ≡ i.generation)
  kept_columns true i = ((touching.same i).agent_id, touching.generation i)
  kept_columns false i = (refl, refl)

  kept-Owner :
      {identities : List IdentityRow} (a b : CertificateRow) (o : Owner identities a)
      → SameCertificate a b
      → (is_active_identity
            (if is_agent agent_id o.identity then g o.identity else o.identity).state
          ≡ true)
        ⊎ (is_revoked b.state ≡ true)
      → Owner (update_where (is_agent agent_id) g identities) b
  kept-Owner a b o s alive =
      let (same_agent, same_generation) = kept_columns (is_agent agent_id o.identity) o.identity in
      record {
        identity = if is_agent agent_id o.identity then g o.identity else o.identity;
        present = update_where-Memᴰ (is_agent agent_id) g o.present;
        agent_id = same_agent ∙ (o.agent_id ∙ sym s.agent_id);
        reached = omega (arith, o.reached, s.generation, same_generation);
        alive = alive;
      }

  weakened-Owner :
      (b : CertificateRow) (db : Db)
      → ((c : CertificateRow) → Memᴰ c db.certificates → Owner db.identities c)
      → Memᴰ b (update_where q f db.certificates)
      → Owner (update_where (is_agent agent_id) g db.identities) b
  weakened-Owner b db owned m =
      let (a, k, made) = Memᴰ-update_where q f db.certificates m in
      let s : SameCertificate a b = rw made (SameCertificate-if (q a) a (f a) (revoking.same a)) in
      elim (Bool-cases (q a)) [
        | inl y ↦ kept-Owner a b (owned a k) s (inr (rw (rw y at made, revoking.state a) refl))
        | inr z ↦
            let o = owned a k in
            kept-Owner a b o s (
              rw (rw z at made) (
                weakened-alive (is_agent agent_id o.identity) o.identity a refl o.agent_id z
                  o.alive))
      ]

  pub weakened-IsSound :
      (now : Time) (db : Db)
      → IsSound now db
      → IsSound now (record {
        identities = update_where (is_agent agent_id) g db.identities;
        certificates = update_where q f db.certificates;
      })
  weakened-IsSound now db s = record {
    identity_keys = HasKeys-update_where (is_agent agent_id) g touching.same s.identity_keys;
    certificate_keys = HasCertificateKeys-update_where q f revoking.same s.certificate_keys;
    owned = λ b m. weakened-Owner b db s.owned m;
    staged_once =
        IsSingle-weakened (λ c. is_staged c.state) db.certificates (λ c e. rw e refl) s.staged_once;
    active_once =
        IsSingle-weakened (λ c. is_active c.state) db.certificates (λ c e. rw e refl) s.active_once;
    overlap_once =
        IsSingle-weakened (overlaps now) db.certificates (overlaps-revoked now) s.overlap_once;
    fields = fields-update_where (is_agent agent_id) g touching.same s.fields;
    metadata = λ b m.
        let (a, k, e) = Memᴰ-update_where q f db.certificates m in
        let same : SameCertificate a b =
          rw e (SameCertificate-if (q a) a (f a) (revoking.same a)) in
        rw (valid_certificate_same a b same) (s.metadata a k);
  }
