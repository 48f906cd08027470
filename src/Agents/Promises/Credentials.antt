-- ===== src/Agents/Promises/Credentials.antt =====
-- How many certificates of an agent `verify` accepts at one time
-- (form/src/kcatta_form/agent_identity_store.py).
use kcatta.Prelude.{
  ◌≡◌, ◌≤◌, refl, sym, ap, ◌∙◌, true, false, Bool, Option, some, ◌⊎◌, inl, inr, arith, Text, ok,
}
use kcatta.Agents.Rows.{
  Time, AgentCertificateState, staged, active, retired, revoked, CertificateRow, IdentityRow, Db,
  is_active,
}
use kcatta.Agents.Rotation.{overlaps, ends_after}
use kcatta.Agents.Verify.{VerifiedAgentIdentity, accepted_state, accepts, verify}
use kcatta.Agents.Sound.Keys.{IsSound, IsSingle}
use kcatta.Agents.Reach.{Reach, registry-IsSound, IsSound-later}
use kcatta.Agents.Accepted.{Verified, verify-Verified}

-- A row that is accepted without `allow_staged` is active or in its overlap.
accepted_state-cases :
    (now : Time) (state : AgentCertificateState) (until : Option Time)
    → accepted_state false now state until ≡ true
    → (state ≡ active) ⊎ ((state ≡ retired) × (ends_after until now ≡ true))
accepted_state-cases now staged until h = cc
accepted_state-cases now active until h = inl refl
accepted_state-cases now retired until h = inr (refl, h)
accepted_state-cases now revoked until h = cc

accepts-cases :
    (now : Time) (c : CertificateRow) (i : IdentityRow)
    → accepts false now (c, i) ≡ true
    → (is_active c.state ≡ true) ⊎ (overlaps now c ≡ true)
unfolding accepts overlaps
accepts-cases now c i h =
    elim (accepted_state-cases now c.state c.overlap_until_us (ground arith)) [
      | inl e ↦ inl (rw e refl)
      | inr (e, later) ↦ inr (rw (e, later) refl)
    ]

module _ {now : Time} {db : Db} (s : IsSound now db) where
  -- Two accepted certificates of one agent that are both active, or both in their overlap.
  both :
      {v w : VerifiedAgentIdentity} (test : CertificateRow → Bool)
      → IsSingle test db.certificates
      → (x : Verified db now false v) (y : Verified db now false w) → test x.row ≡ true
      → test y.row ≡ true
      → v.agent_id ≡ w.agent_id
      → v.certificate.generation ≡ w.certificate.generation
  both test single x y p q e =
      let agent = λ (v : VerifiedAgentIdentity). v.agent_id in
      let number = λ (v : VerifiedAgentIdentity). v.certificate.generation in
      ap number x.principal_is
      ∙ (single x.row y.row x.held y.held p q
            (sym (ap agent x.principal_is) ∙ (e ∙ ap agent y.principal_is))
          ∙ sym (ap number y.principal_is))

  three :
      {u v w : VerifiedAgentIdentity} (x : Verified db now false u) (y : Verified db now false v)
      (z : Verified db now false w)
      → u.agent_id ≡ v.agent_id
      → v.agent_id ≡ w.agent_id
      → (u.certificate.generation ≡ v.certificate.generation)
        ⊎ ((v.certificate.generation ≡ w.certificate.generation)
            ⊎ (u.certificate.generation ≡ w.certificate.generation))
  three x y z e f =
      let is_on = λ (c : CertificateRow). is_active c.state in
      elim (accepts-cases now x.row x.owner x.accepted) [
        | inl p ↦ elim (accepts-cases now y.row y.owner y.accepted) [
          | inl q ↦ inl (both is_on s.active_once x y p q e)
          | inr q ↦ elim (accepts-cases now z.row z.owner z.accepted) [
            | inl r ↦ inr (inr (both is_on s.active_once x z p r (e ∙ f)))
            | inr r ↦ inr (inl (both (overlaps now) s.overlap_once y z q r f))
          ]
        ]
        | inr p ↦ elim (accepts-cases now y.row y.owner y.accepted) [
          | inr q ↦ inl (both (overlaps now) s.overlap_once x y p q e)
          | inl q ↦ elim (accepts-cases now z.row z.owner z.accepted) [
            | inl r ↦ inr (inl (both is_on s.active_once y z q r f))
            | inr r ↦ inr (inr (both (overlaps now) s.overlap_once x z p r (e ∙ f)))
          ]
        ]
      ]

-- In every reachable state and at every time from its last call on, `verify` without `allow_staged`
-- accepts at most two generations of an agent: of three calls that answer with principals of one
-- agent, two answer with the same generation.
pub verify_two_at_most :
    (sha256 : Text → Text) (now later : Time) (db : Db) (f1 s1 f2 s2 f3 s3 : Option Text)
    (v1 v2 v3 : VerifiedAgentIdentity)
    → Reach sha256 now db
    → now ≤ later
    → verify db f1 s1 later false ≡ ok (some v1)
    → verify db f2 s2 later false ≡ ok (some v2)
    → verify db f3 s3 later false ≡ ok (some v3)
    → v1.agent_id ≡ v2.agent_id
    → v2.agent_id ≡ v3.agent_id
    → (v1.certificate.generation ≡ v2.certificate.generation)
      ⊎ ((v2.certificate.generation ≡ v3.certificate.generation)
          ⊎ (v1.certificate.generation ≡ v3.certificate.generation))
verify_two_at_most sha256 now later db f1 s1 f2 s2 f3 s3 v1 v2 v3 reach le h1 h2 h3 e f =
    three (IsSound-later le (registry-IsSound sha256 now db reach))
      (verify-Verified db f1 s1 later false h1) (verify-Verified db f2 s2 later false h2)
      (verify-Verified db f3 s3 later false h3) e f
