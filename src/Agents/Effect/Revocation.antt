-- ===== src/Agents/Effect/Revocation.antt =====
-- The effects of `abort`, `revoke` and `revoke_certificates` of
-- form/src/kcatta_form/agent_identity_store.py.
use kcatta.Prelude.{
  ◌≡◌, refl, sym, ap, ℕ, true, false, not, Bool, Option, none, some, List, [], ◌∷◌, arith, inl, inr,
  Text, ◌==◌, Bool-cases, update_where, count_where, ok, ok-injective, ok_elim, >>-eq-ok,
}
use kcatta.Agents.Rows.{
  Time, conflict, value_error, IdentityRow, CertificateRow, Db, AgentIdentity, is_staged,
  is_revoked, is_active_identity, is_agent, of_agent, of_generation, identity_row,
  identity_from_row, certificate_row,
}
use kcatta.Agents.Normalize.{normalize_agent_id}
use kcatta.Agents.Rotation.{touch_identity, touched, staged_generation}
use kcatta.Agents.Revocation.{
  revoke_row, release_row, abort, not_revoked, revoke_identity, revoke_agent, revoke_generation,
  revoke, revoke_certificates,
}
use kcatta.Agents.Effect.{Effect, unchanged, weakened, Revoking, Touching}
use kcatta.Agents.Effect.Registry.{reread-db}

revoke_row-Revoking : (now : Time) → Revoking (revoke_row now)
revoke_row-Revoking now = record {
  same = λ c. record {
    agent_id = refl;
    generation = refl;
    serial_number = refl;
    cert_sha256 = refl;
    spki_sha256 = refl;
    certificate_pem = refl;
    not_before = refl;
    not_after = refl;
    created_at = refl;
  };
  state = λ c. refl;
}

release_row-Revoking : (now : Time) → Revoking (release_row now)
release_row-Revoking now = record {
  same = λ c. record {
    agent_id = refl;
    generation = refl;
    serial_number = refl;
    cert_sha256 = refl;
    spki_sha256 = refl;
    certificate_pem = refl;
    not_before = refl;
    not_after = refl;
    created_at = refl;
  };
  state = λ c. refl;
}

pub touch-Touching : (now : Time) → Touching (touch_identity now)
touch-Touching now = record {
  same = λ i. record {
    agent_id = refl;
    target_id = refl;
    canonical_host_id = refl;
    scopes = refl;
    created_at = refl;
  };
  generation = λ i. refl;
}

revoke_identity-Touching : (now : Time) → Touching (revoke_identity now)
revoke_identity-Touching now = record {
  same = λ i. record {
    agent_id = refl;
    target_id = refl;
    canonical_host_id = refl;
    scopes = refl;
    created_at = refl;
  };
  generation = λ i. refl;
}

same-Touching : Touching (λ (i : IdentityRow). i)
same-Touching = record {
  same = λ i. record {
    agent_id = refl;
    target_id = refl;
    canonical_host_id = refl;
    scopes = refl;
    created_at = refl;
  };
  generation = λ i. refl;
}

pub update_where_same : {A : Type 0} (p : A → Bool) (xs : List A) → update_where p (λ x. x) xs ≡ xs
unfolding update_where
update_where_same p [] = refl
update_where_same p (x ∷ xs) = elim (Bool-cases (p x)) [
  | inl e ↦ rw e (ap (λ rest. x ∷ rest) (update_where_same p xs))
  | inr e ↦ rw e (ap (λ rest. x ∷ rest) (update_where_same p xs))
]

pub not_revoked-covers :
    (agent_id : Text) (c : CertificateRow)
    → of_agent agent_id c ≡ true
    → not_revoked agent_id c ≡ false
    → is_revoked c.state ≡ true
unfolding of_agent not_revoked
not_revoked-covers agent_id c e f = ground arith

pub abort-Effect :
    (agent_id : Text) (generation : ℕ) (now : Time) (db : Db) {answer : AgentIdentity} {db' : Db}
    → abort agent_id generation now db ≡ ok (answer, db')
    → Effect now db db'
unfolding abort touched
abort-Effect agent_id generation now db h =
    ok_elim (normalize_agent_id agent_id) _ h λ normalized _ h1.
      let (_, h2) = >>-eq-ok (generation == 0) value_error _ h1 in
      ok_elim (identity_row db normalized) _ h2 λ identity _ h3.
        ok_elim (certificate_row db normalized generation) _ h3 λ certificate _ h4.
          elim (Bool-cases (is_revoked certificate.state)) [
            | inl e ↦
                ok_elim (identity_from_row db identity) _ (rw e at h4)
                  λ answer _ h5. rw (ap (λ p. p.1) (sym (ok-injective h5))) unchanged
            | inr e ↦
                let (_, h5) =
                  >>-eq-ok (not (is_staged certificate.state)) conflict _ (rw e at h4) in
                rw (reread-db normalized _ h5) (
                  weakened normalized (staged_generation normalized generation) (release_row now)
                    (touch_identity now) (release_row-Revoking now) (touch-Touching now)
                    (inl (λ i. refl)))
          ]

pub revoke_agent-Effect :
    (agent_id : Text) (now : Time) (db : Db) {answer : AgentIdentity} {db' : Db}
    → revoke_agent agent_id now db ≡ ok (answer, db')
    → Effect now db db'
unfolding revoke_agent
revoke_agent-Effect agent_id now db h = ok_elim (normalize_agent_id agent_id) _ h λ normalized _ h1.
    ok_elim (identity_row db normalized) _ h1 λ identity _ h2.
      elim (Bool-cases (is_active_identity identity.state)) [
        | inl e ↦
            let h3 = rw e at h2 in
            rw (reread-db normalized _ h3) (
              weakened normalized (not_revoked normalized) (revoke_row now) (revoke_identity now)
                (revoke_row-Revoking now) (revoke_identity-Touching now)
                (inr (λ i. refl, not_revoked-covers normalized)))
        | inr e ↦
            ok_elim (identity_from_row db identity) _ (rw e at h2)
              λ answer _ h3. rw (ap (λ p. p.1) (sym (ok-injective h3))) unchanged
      ]

pub revoke_generation-Effect :
    (agent_id : Text) (generation : ℕ) (now : Time) (db : Db) {answer : AgentIdentity} {db' : Db}
    → revoke_generation agent_id generation now db ≡ ok (answer, db')
    → Effect now db db'
unfolding revoke_generation touched
revoke_generation-Effect agent_id generation now db h =
    ok_elim (normalize_agent_id agent_id) _ h λ normalized _ h1.
      let (_, h2) = >>-eq-ok (generation == 0) value_error _ h1 in
      ok_elim (identity_row db normalized) _ h2 λ identity _ h3.
        ok_elim (certificate_row db normalized generation) _ h3 λ certificate _ h4.
          elim (Bool-cases (is_revoked certificate.state)) [
            | inl e ↦ let h5 = rw e at h4 in rw (reread-db normalized _ h5) unchanged
            | inr e ↦
                let h5 = rw e at h4 in
                rw (reread-db normalized _ h5) (
                  weakened normalized (of_generation normalized generation) (revoke_row now)
                    (touch_identity now) (revoke_row-Revoking now) (touch-Touching now)
                    (inl (λ i. refl)))
          ]

pub revoke-Effect :
    (agent_id : Text) (generation : Option ℕ) (now : Time) (db : Db) {answer : AgentIdentity}
    {db' : Db}
    → revoke agent_id generation now db ≡ ok (answer, db')
    → Effect now db db'
unfolding revoke
revoke-Effect agent_id none now db h = revoke_agent-Effect agent_id now db h
revoke-Effect agent_id (some generation) now db h =
    revoke_generation-Effect agent_id generation now db h

pub revoke_certificates-Effect :
    (agent_id : Text) (now : Time) (db : Db) {answer : AgentIdentity} {db' : Db}
    → revoke_certificates agent_id now db ≡ ok (answer, db')
    → Effect now db db'
unfolding revoke_certificates touched
revoke_certificates-Effect agent_id now db h =
    ok_elim (normalize_agent_id agent_id) _ h λ normalized _ h1.
      ok_elim (identity_row db normalized) _ h1 λ identity _ h2.
        elim (Bool-cases (count_where (not_revoked normalized) db.certificates == 0)) [
          | inl e ↦
              let same = reread-db normalized _ (rw e at h2) in
              let effect : Effect now db (record {
                identities = update_where (is_agent normalized) (λ i. i) db.identities;
                certificates =
                    update_where (not_revoked normalized) (release_row now) db.certificates;
              }) =
                weakened normalized (not_revoked normalized) (release_row now) (λ i. i)
                  (release_row-Revoking now) same-Touching (inl (λ i. refl)) in
              rw same (rw (update_where_same (is_agent normalized) db.identities) at effect)
          | inr e ↦
              let h3 = rw e at h2 in
              rw (reread-db normalized _ h3) (
                weakened normalized (not_revoked normalized) (release_row now) (touch_identity now)
                  (release_row-Revoking now) (touch-Touching now) (inl (λ i. refl)))
        ]
