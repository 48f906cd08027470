-- ===== src/Agents/Promises/Staging.antt =====
-- `stage_certificate` with an idempotency key (form/src/kcatta_form/agent_identity_store.py).
use kcatta.Prelude.{
  ◌+◌, ◌-◌, ◌≡◌, refl, sym, ap, ◌∙◌, true, false, not, Bool, Option, some, List, ◌∷◌, inl, inr,
  Text, ≟_refl, is_empty, strip, length, ltb, ◌==◌, if◌then◌else◌, Option-cases, find_where,
  find_where-some, exists_where, update_where, count_where, Memᴰ-update_where, IsKeyed-unique, ok,
  ok-injective, ok_elim, >>-eq-ok,
}
use kcatta.Agents.Rows.{
  Time, conflict, value_error, validation_error, AgentIdentity, IdentityRow, CertificateRow, Db,
  is_staged, is_active_identity, is_agent, valid_certificate, certificate_of, identity_row,
  identity_from_row,
}
use kcatta.Agents.Normalize.{normalize_agent_id, idempotency_hash}
use kcatta.Agents.Registry.{has_key, find_key}
use kcatta.Agents.Rotation.{
  Metadata, in_state, refused, at_generation, reread, new_certificate, normalize_metadata,
  insert_certificate, stage_transaction, stage_certificate,
}
use kcatta.Agents.Effect.{staged_identity}
use kcatta.Agents.Effect.Registry.{true_of_not, identity_row-some, reread-db}
use kcatta.Agents.Sound.Keys.{IsSound, identity_agent}
use kcatta.Agents.Sound.Staged.{is_agent-agent_id}
use kcatta.Agents.Reach.{Reach, registry-IsSound}

hash_some :
    (sha256 : Text → Text) (raw : Text) {key : Option Text}
    → idempotency_hash sha256 (some raw) ≡ ok key
    → key ≡ some (sha256 (strip raw))
unfolding idempotency_hash
hash_some sha256 raw h =
    let (_, h1) = >>-eq-ok (is_empty (strip raw)) value_error _ h in
    let (_, h2) = >>-eq-ok (ltb 1024 (length (strip raw))) value_error _ h1 in sym (ok-injective h2)

-- The new row is the one of its key.
find_key_new :
    (agent_id : Text) (m : Metadata) (key : Text) (now : Time) (certificates : List CertificateRow)
    → find_key agent_id (some key) (new_certificate agent_id m (some key) now ∷ certificates)
      ≡ some (new_certificate agent_id m (some key) now)
unfolding find_key has_key find_where
find_key_new agent_id m key now certificates = rw (≟_refl agent_id, ≟_refl key) refl

reread-read :
    (agent_id : Text) (db : Db) {answer : AgentIdentity} {db' : Db}
    → reread agent_id db ≡ ok (answer, db')
    → (row : IdentityRow) × (identity_row db agent_id ≡ ok row)
      × (identity_from_row db row ≡ ok answer)
unfolding reread
reread-read agent_id db {answer} h = ok_elim (identity_row db agent_id) _ h λ row found h1.
    ok_elim (identity_from_row db row) _ h1 λ identity read h2.
      let same : identity ≡ answer = ap (λ p. p.0) (ok-injective h2) in
      (row, found, rw same at read)

-- A replay returns what a read of the agent returns.
replays :
    (agent_id : Text) (m : Metadata) (key : Option Text) (now : Time) (db : Db) (row : IdentityRow)
    (held : CertificateRow) (answer : AgentIdentity)
    → identity_row db agent_id ≡ ok row
    → is_active_identity row.state ≡ true
    → find_key agent_id key db.certificates ≡ some held
    → identity_from_row db row ≡ ok answer
    → stage_transaction agent_id m key now db ≡ ok ((answer, false), db)
unfolding stage_transaction
replays agent_id m key now db row held answer found active kept read =
    rw (found, active, kept, read) refl

moved :
    (agent_id : Text) (m : Metadata) (key : Option Text) (now : Time) (db : Db)
    (read : AgentIdentity) {answer : AgentIdentity} {db' : Db}
    → db' ≡ db
    → answer ≡ read
    → stage_transaction agent_id m key now db ≡ ok ((read, false), db)
    → stage_transaction agent_id m key now db' ≡ ok ((answer, false), db')
moved agent_id m key now db read e f h = rw (e, f) h

module _ {before : Time} {db : Db} (s : IsSound before db) (agent_id : Text) (m : Metadata)
    (key : Text) (now later : Time) where
  inserted-replays :
      (identity : IdentityRow) {answer : AgentIdentity} {created : Bool} {db' : Db}
      → identity_row db agent_id ≡ ok identity
      → is_active_identity identity.state ≡ true
      → insert_certificate identity (new_certificate agent_id m (some key) now) now db
        ≡ ok ((answer, created), db')
      → stage_transaction agent_id m (some key) later db' ≡ ok ((answer, false), db')
  unfolding insert_certificate
  inserted-replays identity {answer} found active h =
      let new = new_certificate agent_id m (some key) now in
      let (_, h1) =
        >>-eq-ok (exists_where (in_state is_staged agent_id) db.certificates) conflict _ h in
      let (_, h2) = >>-eq-ok (not (m.generation == identity.generation + 1)) conflict _ h1 in
      let (_, h3) = >>-eq-ok (refused new db.certificates) conflict _ h2 in
      let current = at_generation agent_id (m.generation - 1) in
      let (_, h4) = >>-eq-ok (not (count_where current db.identities == 1)) conflict _ h3 in
      let staged_db : Db = record {
        identities = update_where current (staged_identity new now) db.identities;
        certificates = new ∷ db.certificates;
      } in
      ok_elim (reread agent_id staged_db) _ h4 λ done made h5.
        let back = sym (ok-injective h5) in
        let (row, held, read) = reread-read agent_id staged_db made in
        let (k, mine) =
          find_where-some (is_agent agent_id) staged_db.identities
            (identity_row-some staged_db agent_id held) in
        let (k0, mine0) =
          find_where-some (is_agent agent_id) db.identities (identity_row-some db agent_id found) in
        let (i, n, e) = Memᴰ-update_where current (staged_identity new now) db.identities k in
        let (same_agent, same_state) = staged_columns new (current i) i in
        let owner : i ≡ identity =
          IsKeyed-unique identity_agent db.identities s.identity_keys.agents i identity n k0 (
            sym same_agent
            ∙ (ap identity_agent (sym e)
                ∙ (is_agent-agent_id agent_id row mine
                    ∙ sym (is_agent-agent_id agent_id identity mine0)))) in
        let alive : is_active_identity row.state ≡ true = rw (e, same_state, owner) active in
        let db_same = ap (λ p. p.1) back ∙ reread-db agent_id staged_db made in
        let answer_same = ap (λ (p : (AgentIdentity × Bool) × Db). p.0.0) back in
        rw (db_same, answer_same)
          (replays agent_id m (some key) later staged_db row new done.0 held alive
            (find_key_new agent_id m key now db.certificates) read)
    where
      staged_columns :
          (new : CertificateRow) (b : Bool) (i : IdentityRow)
          → ((if b then staged_identity new now i else i).agent_id ≡ i.agent_id)
            × ((if b then staged_identity new now i else i).state ≡ i.state)
      staged_columns new true i = (refl, refl)
      staged_columns new false i = (refl, refl)

  transaction-replays :
      {answer : AgentIdentity} {created : Bool} {db' : Db}
      → stage_transaction agent_id m (some key) now db ≡ ok ((answer, created), db')
      → stage_transaction agent_id m (some key) later db' ≡ ok ((answer, false), db')
  unfolding stage_transaction
  transaction-replays {answer} {created} {db'} h =
      ok_elim (identity_row db agent_id) _ h λ identity found h1.
        let (active, h2) = >>-eq-ok (not (is_active_identity identity.state)) conflict _ h1 in
        elim (Option-cases (find_key agent_id (some key) db.certificates)) [
          | inl e ↦ inserted-replays identity found (true_of_not active) (rw e at h2)
          | inr (row, e) ↦ ok_elim (identity_from_row db identity) _ (rw e at h2) λ read got h3.
              let back = sym (ok-injective h3) in
              let answer_same = ap (λ (p : (AgentIdentity × Bool) × Db). p.0.0) back in
              moved agent_id m (some key) later db read (ap (λ p. p.1) back) answer_same (
                replays agent_id m (some key) later db identity row read found (true_of_not active)
                  e got)
        ]

  keyed-replays :
      (hash : Option Text) {answer : AgentIdentity} {created : Bool} {db' : Db}
      → hash ≡ some key
      → stage_transaction agent_id m hash now db ≡ ok ((answer, created), db')
      → stage_transaction agent_id m hash later db' ≡ ok ((answer, false), db')
  keyed-replays hash e h = rw e (transaction-replays (rw e at h))

-- From a reachable state, when `stage_certificate` with an idempotency key has returned, the same call
-- returns the same identity again, at any time, reports that it created nothing, and leaves the
-- database as it is.
pub stage_certificate-replay :
    (sha256 : Text → Text) (before now later : Time) (db db' : Db) (agent_id : Text)
    (metadata : Metadata) (key : Text) (answer : AgentIdentity) (created : Bool)
    → Reach sha256 before db
    → stage_certificate sha256 agent_id metadata (some key) now db ≡ ok ((answer, created), db')
    → stage_certificate sha256 agent_id metadata (some key) later db' ≡ ok ((answer, false), db')
unfolding stage_certificate
stage_certificate-replay sha256 before now later db db' agent_id metadata key answer created reach
      h =
    ok_elim (normalize_agent_id agent_id) _ h λ normalized e1 h1.
      ok_elim (normalize_metadata metadata) _ h1 λ m e2 h2.
        ok_elim (idempotency_hash sha256 (some key)) _ h2 λ hash e3 h3.
          let (valid, h4) =
            >>-eq-ok
              (not (valid_certificate (certificate_of (new_certificate normalized m hash now))))
              validation_error _ h3 in
          rw (e1, e2, e3, valid)
            (keyed-replays (registry-IsSound sha256 before db reach) normalized m
              (sha256 (strip key)) now later hash (hash_some sha256 key e3) h4)
