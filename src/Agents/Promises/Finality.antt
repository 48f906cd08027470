-- ===== src/Agents/Promises/Finality.antt =====
-- `revoke` and `revoke_certificates` are final (form/src/kcatta_form/agent_identity_store.py).
use kcatta.Prelude.{
  ◌≡◌, ◌≢◌, ◌≤◌, ◌<◌, refl, sym, ap, ◌∙◌, ℕ, true, false, Bool, Option, none, some, inl, inr, Memᴰ,
  Text, ◌==◌, ≟_refl, Bool-cases, find_where-some, update_where, Memᴰ-update_where,
  update_where_hit, ok, ok-injective, ok_elim, >>-eq-ok,
}
use kcatta.Agents.Rows.{
  Time, AgentIdentity, value_error, IdentityRow, CertificateRow, Db, is_active_identity, is_agent,
  is_revoked, of_agent, of_generation, identity_row, identity_from_row, certificate_row,
}
use kcatta.Agents.Normalize.{normalize_agent_id}
use kcatta.Agents.Revocation.{
  not_revoked, revoke_row, release_row, revoke_identity, revoke_agent, revoke_generation, revoke,
  revoke_certificates,
}
use kcatta.Agents.Verify.{VerifiedAgentIdentity, verify}
use kcatta.Agents.Effect.Registry.{
  identity_row-some, certificate_row-some, reread-db, identity_from_row-answer,
}
use kcatta.Agents.Effect.Revocation.{
  not_revoked-covers, revoke_agent-Effect, revoke_generation-Effect, revoke_certificates-Effect,
}
use kcatta.Agents.Sound.Staged.{is_agent-agent_id}
use kcatta.Agents.Sound.Activated.{of_agent-agent_id, of_generation-both}
use kcatta.Agents.Reach.{Effect-IsSound, After, Reach, registry-IsSound, IsSound-later}
use kcatta.Agents.Accepted.{verify-Verified}
use kcatta.Agents.Promises.Revocations.{
  reread-answer, revoked_forever, decommissioned_forever, cleared_forever,
}

-- `revoke` without a generation leaves the identity revoked.
revoked_identity :
    (agent_id : Text) (now : Time) (db : Db) {answer : AgentIdentity} {db' : Db}
    → revoke_agent agent_id now db ≡ ok (answer, db')
    → (i : IdentityRow) × Memᴰ i db'.identities
      × (is_active_identity i.state ≡ false)
      × (i.agent_id ≡ answer.agent_id)
unfolding revoke_agent
revoked_identity agent_id now db {answer} h =
    ok_elim (normalize_agent_id agent_id) _ h λ normalized _ h1.
      ok_elim (identity_row db normalized) _ h1 λ identity found h2.
        let (m, is_row) =
          find_where-some (is_agent normalized) db.identities
            (identity_row-some db normalized found) in
        let agent = is_agent-agent_id normalized identity is_row in
        elim (Bool-cases (is_active_identity identity.state)) [
          | inl e ↦
              let h3 = rw e at h2 in
              let (_, _, _, same, _) = reread-answer normalized _ h3 in
              (
                revoke_identity now identity,
                rw (reread-db normalized _ h3)
                    (update_where_hit (is_agent normalized) (revoke_identity now) m is_row),
                refl,
                agent ∙ sym same,
              )
          | inr e ↦ ok_elim (identity_from_row db identity) _ (rw e at h2) λ read got h3.
              let (same, _) = identity_from_row-answer db identity got in
              let back = sym (ok-injective h3) in
              (
                identity,
                rw (ap (λ p. p.1) back) m,
                e,
                sym (ap (λ (p : AgentIdentity × Db). p.0.agent_id) back ∙ same),
              )
        ]

-- `revoke` of a generation leaves its certificate revoked.
revoked_generation :
    (agent_id : Text) (generation : ℕ) (now : Time) (db : Db) {answer : AgentIdentity} {db' : Db}
    → revoke_generation agent_id generation now db ≡ ok (answer, db')
    → (c : CertificateRow) × Memᴰ c db'.certificates
      × (is_revoked c.state ≡ true)
      × (c.agent_id ≡ answer.agent_id)
      × (c.generation ≡ generation)
unfolding revoke_generation
revoked_generation agent_id generation now db {answer} h =
    ok_elim (normalize_agent_id agent_id) _ h λ normalized _ h1.
      let (_, h2) = >>-eq-ok (generation == 0) value_error _ h1 in
      ok_elim (identity_row db normalized) _ h2 λ identity _ h3.
        ok_elim (certificate_row db normalized generation) _ h3 λ c held h4.
          let (m, is_row) =
            find_where-some (of_generation normalized generation) db.certificates
              (certificate_row-some db normalized generation held) in
          let (agent, number) = of_generation-both normalized generation c is_row in
          let agent_is = of_agent-agent_id normalized c agent in
          elim (Bool-cases (is_revoked c.state)) [
            | inl e ↦
                let h5 = rw e at h4 in
                let (_, _, _, same, _) = reread-answer normalized _ h5 in
                (c, rw (reread-db normalized _ h5) m, e, agent_is ∙ sym same, number)
            | inr e ↦
                let h5 = rw e at h4 in
                let (_, _, _, same, _) = reread-answer normalized _ h5 in
                (
                  revoke_row now c,
                  rw (reread-db normalized _ h5) (
                      update_where_hit (of_generation normalized generation) (revoke_row now) m
                        is_row),
                  refl,
                  agent_is ∙ sym same,
                  number,
                )
          ]

-- After `revoke` from a reachable state returned, and whatever calls follow, `verify` answers with a
-- principal of that agent at no time, not even with `allow_staged`, if no generation was named; and
-- only with another generation than the one that was named.
pub revoke-final :
    (sha256 : Text → Text) (before now later at : Time) (db db' db'' : Db) (agent_id : Text)
    (generation : Option ℕ) (answer : AgentIdentity) (fingerprint serial : Option Text)
    (allow_staged : Bool) (v : VerifiedAgentIdentity)
    → Reach sha256 before db
    → before ≤ now
    → revoke agent_id generation now db ≡ ok (answer, db')
    → After sha256 now db' later db''
    → verify db'' fingerprint serial at allow_staged ≡ ok (some v)
    → v.agent_id ≡ answer.agent_id
    → (number : ℕ) × (generation ≡ some number) × (v.certificate.generation ≢ number)
unfolding revoke
revoke-final sha256 before now later at db db' db'' agent_id none answer fingerprint serial
      allow_staged v reach le made after seen same =
    let sound =
      Effect-IsSound now db (revoke_agent-Effect agent_id now db made)
        (IsSound-later le (registry-IsSound sha256 before db reach)) in
    let (i, m, dead, agent) = revoked_identity agent_id now db made in
    absurd (
      decommissioned_forever sha256 now later db' db'' sound after i at allow_staged m dead
        (verify-Verified db'' fingerprint serial at allow_staged seen) (agent ∙ sym same))
revoke-final sha256 before now later at db db' db'' agent_id (some number) answer fingerprint serial
      allow_staged v reach le made after seen same =
    let sound =
      Effect-IsSound now db (revoke_generation-Effect agent_id number now db made)
        (IsSound-later le (registry-IsSound sha256 before db reach)) in
    let (c, m, dead, agent, generation) = revoked_generation agent_id number now db made in
    (
      number,
      refl,
      λ e.
          revoked_forever sha256 now later db' db'' sound after c at allow_staged m dead
            (verify-Verified db'' fingerprint serial at allow_staged seen) (agent ∙ sym same)
            (generation ∙ sym e),
    )

-- `revoke_certificates` leaves every certificate of the agent revoked.
revoked_certificates :
    (normalized : Text) (now : Time) (db : Db) (b : CertificateRow)
    → Memᴰ b (update_where (not_revoked normalized) (release_row now) db.certificates)
    → b.agent_id ≡ normalized
    → is_revoked b.state ≡ true
unfolding of_agent
revoked_certificates normalized now db b m agent =
    let (a, k, e) =
      Memᴰ-update_where (not_revoked normalized) (release_row now) db.certificates m in
    elim (Bool-cases (not_revoked normalized a)) [
      | inl y ↦ rw (rw y at e) refl
      | inr z ↦
          let same = rw z at e in
          let mine : of_agent normalized a ≡ true = rw (sym same, agent) (≟_refl normalized) in
          rw same (not_revoked-covers normalized a mine z)
    ]

cleared_agent :
    (agent_id : Text) (now : Time) (db : Db) {answer : AgentIdentity} {db' : Db}
    → revoke_certificates agent_id now db ≡ ok (answer, db')
    → (i : IdentityRow) × Memᴰ i db'.identities
      × (i.agent_id ≡ answer.agent_id)
      × (answer.generation ≡ i.generation)
      × ((c : CertificateRow)
          → Memᴰ c db'.certificates
          → c.agent_id ≡ i.agent_id
          → is_revoked c.state ≡ true)
unfolding revoke_certificates
cleared_agent agent_id now db {answer} {db'} h =
    ok_elim (normalize_agent_id agent_id) _ h λ normalized _ h1.
      ok_elim (identity_row db normalized) _ h1 λ identity found h2.
        let (row, m, agent, same, number) = reread-answer normalized _ h2 in
        let made = reread-db normalized _ h2 in
        (
          row,
          rw made m,
          agent ∙ sym same,
          number,
          λ c k e. revoked_certificates normalized now db c (rw made at k) (e ∙ agent),
        )

-- After `revoke_certificates` from a reachable state returned, and whatever calls follow, `verify`
-- answers with a principal of that agent at no time, not even with `allow_staged`, unless its
-- generation is above all those that the agent had: one that was staged since.
pub revoke_certificates-final :
    (sha256 : Text → Text) (before now later at : Time) (db db' db'' : Db) (agent_id : Text)
    (answer : AgentIdentity) (fingerprint serial : Option Text) (allow_staged : Bool)
    (v : VerifiedAgentIdentity)
    → Reach sha256 before db
    → before ≤ now
    → revoke_certificates agent_id now db ≡ ok (answer, db')
    → After sha256 now db' later db''
    → verify db'' fingerprint serial at allow_staged ≡ ok (some v)
    → v.agent_id ≡ answer.agent_id
    → answer.generation < v.certificate.generation
revoke_certificates-final sha256 before now later at db db' db'' agent_id answer fingerprint serial
      allow_staged v reach le made after seen same =
    let sound =
      Effect-IsSound now db (revoke_certificates-Effect agent_id now db made)
        (IsSound-later le (registry-IsSound sha256 before db reach)) in
    let (i, m, agent, number, dead) = cleared_agent agent_id now db made in
    rw number (
      cleared_forever sha256 now later db' db'' sound after i at allow_staged m dead
        (verify-Verified db'' fingerprint serial at allow_staged seen) (agent ∙ sym same))
