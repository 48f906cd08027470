-- ===== src/Agents/Promises/Revocations.antt =====
-- After a revocation no call brings a credential back (form/src/kcatta_form/agent_identity_store.py).
use kcatta.Prelude.{
  ◌≡◌, ◌≢◌, ◌≤◌, ◌<◌, refl, sym, ap, ◌∙◌, true, false, Bool, inl, inr, arith, Memᴰ, Text,
  find_where-some, IsKeyed-unique, ok, ok-injective, ok_elim,
}
use kcatta.Agents.Rows.{
  Time, AgentCertificateState, AgentIdentity, IdentityRow, CertificateRow, Db, is_active_identity,
  is_agent, is_revoked, identity_row, identity_from_row,
}
use kcatta.Agents.Rotation.{reread}
use kcatta.Agents.Verify.{VerifiedAgentIdentity, accepted_state, accepts}
use kcatta.Agents.Effect.Registry.{identity_row-some, identity_from_row-answer}
use kcatta.Agents.Sound.Keys.{IsSound, identity_agent, certificate_key}
use kcatta.Agents.Sound.Staged.{is_agent-agent_id}
use kcatta.Agents.Reach.{After}
use kcatta.Agents.Accepted.{Verified}
use kcatta.Agents.Extends.{age}
use kcatta.Agents.Promises.History.{After-IsSound, After-Extends}

accepts-alive :
    (allow_staged : Bool) (now : Time) (c : CertificateRow) (i : IdentityRow)
    → accepts allow_staged now (c, i) ≡ true
    → (is_active_identity i.state ≡ true) × (is_revoked c.state ≡ false)
unfolding accepts
accepts-alive allow_staged now c i h = (ground arith, living c.state (ground arith))
  where
    living :
        (s : AgentCertificateState)
        → accepted_state allow_staged now s c.overlap_until_us ≡ true
        → is_revoked s ≡ false
    living AgentCertificateState.revoked e = cc
    living AgentCertificateState.staged e = refl
    living AgentCertificateState.active e = refl
    living AgentCertificateState.retired e = refl

age-revoked : (s : AgentCertificateState) → 3 ≤ age s → is_revoked s ≡ true
age-revoked AgentCertificateState.revoked le = refl
age-revoked AgentCertificateState.staged le = absurd (omega (arith, le))
age-revoked AgentCertificateState.active le = absurd (omega (arith, le))
age-revoked AgentCertificateState.retired le = absurd (omega (arith, le))

revoked-age : (s : AgentCertificateState) → is_revoked s ≡ true → 3 ≤ age s
revoked-age AgentCertificateState.revoked e = omega arith
revoked-age AgentCertificateState.staged e = cc
revoked-age AgentCertificateState.active e = cc
revoked-age AgentCertificateState.retired e = cc

-- What the answer of an operation says of the agent that its row stands for.
pub reread-answer :
    (agent_id : Text) (db : Db) {answer : AgentIdentity} {db' : Db}
    → reread agent_id db ≡ ok (answer, db')
    → (row : IdentityRow) × Memᴰ row db.identities
      × (row.agent_id ≡ agent_id)
      × (answer.agent_id ≡ agent_id)
      × (answer.generation ≡ row.generation)
unfolding reread
reread-answer agent_id db {answer} h = ok_elim (identity_row db agent_id) _ h λ row found h1.
    ok_elim (identity_from_row db row) _ h1 λ identity read h2.
      let (m, is_row) =
        find_where-some (is_agent agent_id) db.identities (identity_row-some db agent_id found) in
      let agent = is_agent-agent_id agent_id row is_row in
      let same : answer ≡ identity = ap (λ p. p.0) (sym (ok-injective h2)) in
      let (a, g) = identity_from_row-answer db row read in
      (row, m, agent, rw same (a ∙ agent), rw same g)

module _ (sha256 : Text → Text) (now later : Time) (db db' : Db) (s : IsSound now db)
    (after : After sha256 now db later db') where
  -- A revoked certificate is never accepted again.
  pub revoked_forever :
      (c : CertificateRow) (at : Time) (allow_staged : Bool) {v : VerifiedAgentIdentity}
      → Memᴰ c db.certificates
      → is_revoked c.state ≡ true
      → Verified db' at allow_staged v
      → c.agent_id ≡ v.agent_id
      → c.generation ≢ v.certificate.generation
  revoked_forever c at allow_staged {v} m dead x same e =
      let (b, k, kept, older) = (After-Extends sha256 now db later db' s after).certificates c m in
      let keys = (After-IsSound sha256 now db later db' s after).certificate_keys.generations in
      let agent = ap (λ (w : VerifiedAgentIdentity). w.agent_id) x.principal_is in
      let number = ap (λ (w : VerifiedAgentIdentity). w.certificate.generation) x.principal_is in
      let key : certificate_key x.row ≡ certificate_key b =
        cc (kept.agent_id, kept.generation, same, e, agent, number) in
      let row = IsKeyed-unique certificate_key db'.certificates keys x.row b x.held k key in
      let dead_later = age-revoked b.state (omega (arith, older, revoked-age c.state dead)) in
      absurd (
        let alive = (accepts-alive allow_staged at x.row x.owner x.accepted).1 in
        let alive_b = rw row at alive in cc)

  -- Nothing of a revoked identity is ever accepted again.
  pub decommissioned_forever :
      (i : IdentityRow) (at : Time) (allow_staged : Bool) {v : VerifiedAgentIdentity}
      → Memᴰ i db.identities
      → is_active_identity i.state ≡ false
      → Verified db' at allow_staged v
      → i.agent_id ≢ v.agent_id
  decommissioned_forever i at allow_staged {v} m dead x same =
      let (j, k, kept, _, on) = (After-Extends sha256 now db later db' s after).identities i m in
      let keys = (After-IsSound sha256 now db later db' s after).identity_keys.agents in
      let agent = ap (λ (w : VerifiedAgentIdentity). w.agent_id) x.principal_is in
      let owner =
        IsKeyed-unique identity_agent db'.identities keys x.owner j x.bound k
          (x.agent ∙ (sym agent ∙ (sym same ∙ sym kept.agent_id))) in
      absurd (
        let alive = (accepts-alive allow_staged at x.row x.owner x.accepted).0 in
        let alive_i = on (rw owner at alive) in cc)

  -- If every certificate of an agent is revoked, only generations above its own are accepted.
  pub cleared_forever :
      (i : IdentityRow) (at : Time) (allow_staged : Bool) {v : VerifiedAgentIdentity}
      → Memᴰ i db.identities
      → ((c : CertificateRow)
          → Memᴰ c db.certificates
          → c.agent_id ≡ i.agent_id
          → is_revoked c.state ≡ true)
      → Verified db' at allow_staged v
      → i.agent_id ≡ v.agent_id
      → i.generation < v.certificate.generation
  cleared_forever i at allow_staged {v} m dead x same =
      let agent = ap (λ (w : VerifiedAgentIdentity). w.agent_id) x.principal_is in
      let number = ap (λ (w : VerifiedAgentIdentity). w.certificate.generation) x.principal_is in
      elim ((After-Extends sha256 now db later db' s after).added x.row x.held) [
        | inr above ↦ let lt = above i m (same ∙ agent) in omega (arith, lt, number)
        | inl (a, k, kept) ↦ absurd (
            revoked_forever a at allow_staged k
              (dead a k (sym kept.agent_id ∙ (sym agent ∙ sym same))) x
              (sym kept.agent_id ∙ sym agent) (sym kept.generation ∙ sym number))
      ]
