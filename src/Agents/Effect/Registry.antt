-- ===== src/Agents/Effect/Registry.antt =====
-- The effects of `get_or_create`, `stage_certificate` and `activate` of
-- form/src/kcatta_form/agent_identity_store.py.
use kcatta.Prelude.{
  ◌≡◌, refl, sym, ap, ◌∙◌, ≟_refl, eq_of_some, select, sort_on, ℕ, true, false, not, Bool, Option,
  none, some, List, ◌∷◌, inl, inr, Text, Option-cases, find_where, exists_where, ok, ok-injective,
  ok_elim, >>-eq-ok,
}
use kcatta.Agents.Rows.{
  Time, AgentIdentityState, conflict, validation_error, IdentityRow, CertificateRow, Db,
  AgentIdentity, valid_fields, is_agent, of_generation, required, identity_row, identity_from_row,
  inconsistent, certificate_row, certificates_from_rows, generation_key, of_agent, AgentScope,
}
use kcatta.Agents.Normalize.{required_text, normalize_scopes}
use kcatta.Agents.Registry.{
  allocated, requested_id, mismatches, is_target, collides, new_identity, insert_identity, replay,
  get_or_create,
}
use kcatta.Agents.Rotation.{reread}
use kcatta.Agents.Effect.{Effect, unchanged, registered}

pub true_of_not : {b : Bool} → not b ≡ false → b ≡ true
true_of_not {b = true} h = refl
true_of_not {b = false} h = cc

required-some : {A : Type 0} (e : _) (o : Option A) {a : A} → required e o ≡ ok a → o ≡ some a
required-some e none h = cc
required-some e (some b) h = ap some (ok-injective h)

pub identity_row-some :
    (db : Db) (agent_id : Text) {row : IdentityRow}
    → identity_row db agent_id ≡ ok row
    → find_where (is_agent agent_id) db.identities ≡ some row
unfolding identity_row
identity_row-some db agent_id h = required-some _ _ h

pub certificate_row-some :
    (db : Db) (agent_id : Text) (generation : ℕ) {row : CertificateRow}
    → certificate_row db agent_id generation ≡ ok row
    → find_where (of_generation agent_id generation) db.certificates ≡ some row
unfolding certificate_row
certificate_row-some db agent_id generation h = required-some _ _ h

-- A read that succeeds has checked the fields.
pub identity_from_row-valid :
    (db : Db) (row : IdentityRow) {identity : AgentIdentity}
    → identity_from_row db row ≡ ok identity
    → valid_fields row ≡ true
unfolding identity_from_row
identity_from_row-valid db row h =
    ok_elim
      (certificates_from_rows
        (sort_on generation_key (select (of_agent row.agent_id) db.certificates)))
      _ h
      λ certificates _ h1.
        let (valid, _) = >>-eq-ok (not (valid_fields row)) validation_error _ h1 in
        true_of_not valid

pub identity_from_row-answer :
    (db : Db) (row : IdentityRow) {identity : AgentIdentity}
    → identity_from_row db row ≡ ok identity
    → (identity.agent_id ≡ row.agent_id) × (identity.generation ≡ row.generation)
unfolding identity_from_row
identity_from_row-answer db row h =
    ok_elim
      (certificates_from_rows
        (sort_on generation_key (select (of_agent row.agent_id) db.certificates)))
      _ h
      λ certificates _ h1.
        let (_, h2) = >>-eq-ok (not (valid_fields row)) validation_error _ h1 in
        let (_, h3) =
          >>-eq-ok (exists_where (inconsistent row) certificates) validation_error _ h2 in
        let same = sym (ok-injective h3) in
        (ap (λ (i : AgentIdentity). i.agent_id) same, ap (λ (i : AgentIdentity). i.generation) same)

pub reread-db :
    (agent_id : Text) (db : Db) {answer : AgentIdentity} {db' : Db}
    → reread agent_id db ≡ ok (answer, db')
    → db' ≡ db
unfolding reread
reread-db agent_id db h = ok_elim (identity_row db agent_id) _ h λ row _ h1.
    ok_elim (identity_from_row db row) _ h1 λ identity _ h2. ap (λ p. p.1) (sym (ok-injective h2))

pub registered-first :
    (new : IdentityRow) (db : Db)
    → find_where (is_agent new.agent_id) (new ∷ db.identities) ≡ some new
unfolding is_agent find_where
registered-first new db = rw (≟_refl new.agent_id) refl

insert_identity-Effect :
    (new : IdentityRow) (now : Time) (db : Db) {answer : AgentIdentity × Bool} {db' : Db}
    → new.state ≡ AgentIdentityState.active
    → insert_identity new db ≡ ok (answer, db')
    → Effect now db db'
unfolding insert_identity
insert_identity-Effect new now db state h =
    let (free, h1) = >>-eq-ok (exists_where (collides new) db.identities) conflict _ h in
    let added = record db { identities = new ∷ db.identities } in
    ok_elim (identity_row added new.agent_id) _ h1 λ row found h2.
      ok_elim (identity_from_row added row) _ h2 λ identity read h3.
        let same : row ≡ new =
          eq_of_some (sym (identity_row-some added new.agent_id found) ∙ registered-first new db) in
        let valid : valid_fields new ≡ true = rw same at (identity_from_row-valid added row read) in
        rw (ap (λ p. p.1) (sym (ok-injective h3))) (registered new free state valid)

replay-Effect :
    (row : IdentityRow) (host : Text) (scopes : List AgentScope) (requested : Option Text)
    (now : Time) (db : Db) {answer : AgentIdentity × Bool} {db' : Db}
    → replay row host scopes requested db ≡ ok (answer, db')
    → Effect now db db'
unfolding replay
replay-Effect row host scopes requested now db h =
    let (_, h1) = >>-eq-ok (mismatches row host scopes requested) conflict _ h in
    ok_elim (identity_from_row db row) _ h1
      λ identity _ h2. rw (ap (λ p. p.1) (sym (ok-injective h2))) unchanged

pub get_or_create-Effect :
    (target host : Text) (scopes : List Text) (agent_id : Option Text) (hex : Text) (now : Time)
    (db : Db) {answer : AgentIdentity × Bool} {db' : Db}
    → get_or_create target host scopes agent_id hex now db ≡ ok (answer, db')
    → Effect now db db'
unfolding get_or_create
get_or_create-Effect target host scopes agent_id hex now db h =
    ok_elim (required_text 256 target) _ h λ target' _ h1.
      ok_elim (required_text 256 host) _ h1 λ host' _ h2.
        ok_elim (normalize_scopes scopes) _ h2 λ scopes' _ h3.
          ok_elim (requested_id agent_id) _ h3 λ requested _ h4.
            elim (Option-cases (find_where (is_target target') db.identities)) [
              | inl e ↦
                  insert_identity-Effect
                    (new_identity (allocated requested hex) target' host' scopes' now) now db refl
                    (rw e at h4)
              | inr (row, e) ↦ replay-Effect row host' scopes' requested now db (rw e at h4)
            ]
