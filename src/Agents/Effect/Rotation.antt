-- ===== src/Agents/Effect/Rotation.antt =====
-- The effects of `stage_certificate` and `activate` of form/src/kcatta_form/agent_identity_store.py.
use kcatta.Prelude.{
  ◌+◌, ◌-◌, ◌≡◌, refl, sym, ap, ◌∙◌, ℕ, true, not, Bool, Option, some, ◌∷◌, arith, inl, inr, Text,
  leb, ltb, ◌==◌, ==_iff, Bool-cases, Option-cases, find_where, exists_where, update_where,
  count_where, ok, ok-injective, ok_elim, >>-eq-ok,
}
use kcatta.Agents.Rows.{
  Time, conflict, value_error, validation_error, integrity_error, IdentityRow, Db, AgentIdentity,
  is_staged, is_active, is_active_identity, valid_certificate, certificate_of, is_agent,
  identity_row, identity_from_row, certificate_row,
}
use kcatta.Agents.Normalize.{normalize_agent_id, idempotency_hash}
use kcatta.Agents.Registry.{find_key}
use kcatta.Agents.Rotation.{
  Metadata, in_state, refused, at_generation, retire_others, staged_generation, make_active,
  touched, reread, new_certificate, normalize_metadata, insert_certificate, stage_transaction,
  stage_certificate, rotate, activate, max_rotation_overlap,
}
use kcatta.Agents.Effect.{Effect, unchanged, staged, rotated, staged_identity}
use kcatta.Agents.Effect.Registry.{true_of_not, identity_row-some, certificate_row-some, reread-db}

insert_certificate-Effect :
    (identity : IdentityRow) (agent_id : Text) (m : Metadata) (key : Option Text) (now : Time)
    (db : Db) {answer : AgentIdentity × Bool} {db' : Db}
    → find_where (is_agent agent_id) db.identities ≡ some identity
    → is_active_identity identity.state ≡ true
    → valid_certificate (certificate_of (new_certificate agent_id m key now)) ≡ true
    → insert_certificate identity (new_certificate agent_id m key now) now db ≡ ok (answer, db')
    → Effect now db db'
unfolding insert_certificate
insert_certificate-Effect identity agent_id m key now db found active valid h =
    let new = new_certificate agent_id m key now in
    let (_, h1) =
      >>-eq-ok (exists_where (in_state is_staged agent_id) db.certificates) conflict _ h in
    let (next, h2) = >>-eq-ok (not (m.generation == identity.generation + 1)) conflict _ h1 in
    let (fits, h3) = >>-eq-ok (refused new db.certificates) conflict _ h2 in
    let generation : m.generation ≡ identity.generation + 1 =
      (==_iff m.generation (identity.generation + 1)).0 (true_of_not next) in
    let before : m.generation - 1 ≡ identity.generation = omega (arith, generation) in
    let current = at_generation agent_id (m.generation - 1) in
    let (_, h4) = >>-eq-ok (not (count_where current db.identities == 1)) conflict _ h3 in
    let staged_db : Db = record {
      identities = update_where current (staged_identity new now) db.identities;
      certificates = new ∷ db.certificates;
    } in
    ok_elim (reread agent_id staged_db) _ h4 λ answer made h5.
      let same = ap (λ p. p.1) (sym (ok-injective h5)) ∙ reread-db agent_id staged_db made in
      rw same (
        staged identity new (m.generation - 1) found active (sym before) (omega (arith, generation))
          fits refl valid)

stage_transaction-Effect :
    (agent_id : Text) (m : Metadata) (key : Option Text) (now : Time) (db : Db)
    {answer : AgentIdentity × Bool} {db' : Db}
    → valid_certificate (certificate_of (new_certificate agent_id m key now)) ≡ true
    → stage_transaction agent_id m key now db ≡ ok (answer, db')
    → Effect now db db'
unfolding stage_transaction
stage_transaction-Effect agent_id m key now db valid h =
    ok_elim (identity_row db agent_id) _ h λ identity found h1.
      let (active, h2) = >>-eq-ok (not (is_active_identity identity.state)) conflict _ h1 in
      elim (Option-cases (find_key agent_id key db.certificates)) [
        | inl e ↦
            insert_certificate-Effect identity agent_id m key now db
              (identity_row-some db agent_id found) (true_of_not active) valid (rw e at h2)
        | inr (row, e) ↦
            ok_elim (identity_from_row db identity) _ (rw e at h2)
              λ answer _ h3. rw (ap (λ p. p.1) (sym (ok-injective h3))) unchanged
      ]

pub stage_certificate-Effect :
    (sha256 : Text → Text) (agent_id : Text) (metadata : Metadata) (key : Option Text) (now : Time)
    (db : Db) {answer : AgentIdentity × Bool} {db' : Db}
    → stage_certificate sha256 agent_id metadata key now db ≡ ok (answer, db')
    → Effect now db db'
unfolding stage_certificate
stage_certificate-Effect sha256 agent_id metadata key now db h =
    ok_elim (normalize_agent_id agent_id) _ h λ normalized _ h1.
      ok_elim (normalize_metadata metadata) _ h1 λ m _ h2.
        ok_elim (idempotency_hash sha256 key) _ h2 λ hash _ h3.
          let (valid, h4) =
            >>-eq-ok
              (not (valid_certificate (certificate_of (new_certificate normalized m hash now))))
              validation_error _ h3 in
          stage_transaction-Effect normalized m hash now db (true_of_not valid) h4

-- The tables after `rotate`.
abbrev pub rotated_db : Text → ℕ → Time → Time → Db → Db
rotated_db agent_id generation now until db = record {
  identities = touched agent_id now db.identities;
  certificates =
      update_where (staged_generation agent_id generation) (make_active now)
        (retire_others agent_id now until db.certificates);
}

pub rotate-reread :
    (agent_id : Text) (generation : ℕ) (now until : Time) (db : Db) {answer : AgentIdentity}
    {db' : Db}
    → rotate agent_id generation now until db ≡ ok (answer, db')
    → reread agent_id (rotated_db agent_id generation now until db) ≡ ok (answer, db')
unfolding rotate
rotate-reread agent_id generation now until db h =
    let others = retire_others agent_id now until db.certificates in
    let certificates =
      update_where (staged_generation agent_id generation) (make_active now) others in
    let (_, h1) =
      >>-eq-ok (ltb 1 (count_where (in_state is_active agent_id) certificates)) integrity_error _
        h in
    (>>-eq-ok (not (count_where (staged_generation agent_id generation) others == 1)) conflict _
      h1).1

pub rotate-db :
    (agent_id : Text) (generation : ℕ) (now until : Time) (db : Db) {answer : AgentIdentity}
    {db' : Db}
    → rotate agent_id generation now until db ≡ ok (answer, db')
    → db' ≡ rotated_db agent_id generation now until db
rotate-db agent_id generation now until db h =
    reread-db agent_id (rotated_db agent_id generation now until db)
      (rotate-reread agent_id generation now until db h)

pub activate-Effect :
    (agent_id : Text) (generation : ℕ) (overlap now : Time) (db : Db) {answer : AgentIdentity}
    {db' : Db}
    → activate agent_id generation overlap now db ≡ ok (answer, db')
    → Effect now db db'
unfolding activate
activate-Effect agent_id generation overlap now db h =
    ok_elim (normalize_agent_id agent_id) _ h λ normalized _ h1.
      let (_, h2) = >>-eq-ok (generation == 0) value_error _ h1 in
      let (_, h3) = >>-eq-ok (ltb max_rotation_overlap overlap) value_error _ h2 in
      ok_elim (identity_row db normalized) _ h3 λ identity found h4.
        let (active, h5) = >>-eq-ok (not (is_active_identity identity.state)) conflict _ h4 in
        ok_elim (certificate_row db normalized generation) _ h5 λ certificate held h6.
          elim (Bool-cases (is_active certificate.state)) [
            | inl e ↦
                ok_elim (identity_from_row db identity) _ (rw e at h6)
                  λ answer _ h7. rw (ap (λ p. p.1) (sym (ok-injective h7))) unchanged
            | inr e ↦
                let h7 = rw e at h6 in
                let (is_next, h8) = >>-eq-ok (not (is_staged certificate.state)) conflict _ h7 in
                let (_, h9) = >>-eq-ok (leb certificate.not_after_us now) conflict _ h8 in
                rw (rotate-db normalized generation now (now + overlap) db h9) (
                  rotated normalized generation (now + overlap) identity certificate
                    (identity_row-some db normalized found) (true_of_not active)
                    (certificate_row-some db normalized generation held) (true_of_not is_next))
          ]
