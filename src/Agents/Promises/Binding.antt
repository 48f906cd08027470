-- ===== src/Agents/Promises/Binding.antt =====
-- `get_or_create` binds a target once (form/src/kcatta_form/agent_identity_store.py).
use kcatta.Prelude.{
  ◌≡◌, refl, sym, ap, ◌∙◌, true, false, Bool, Option, none, some, List, [], ◌∷◌, inl, inr, Text,
  ≟_refl, Option-cases, eq_of_some, find_where, exists_where, ok, ok-injective, ok_elim, >>-eq-ok,
}
use kcatta.Agents.Rows.{
  Time, AgentScope, conflict, AgentIdentity, IdentityRow, Db, identity_row, identity_from_row,
  Result,
}
use kcatta.Agents.Normalize.{required_text, normalize_scopes}
use kcatta.Agents.Registry.{
  is_target, same_scopes, mismatches, collides, new_identity, insert_identity, replay, allocated,
  requested_id, get_or_create,
}
use kcatta.Agents.Effect.Registry.{identity_row-some, registered-first}

same_scopes_refl : (scopes : List AgentScope) → same_scopes scopes scopes ≡ true
unfolding same_scopes
same_scopes_refl [] = refl
same_scopes_refl (AgentScope.asset_report ∷ scopes) = same_scopes_refl scopes
same_scopes_refl (AgentScope.guard_event ∷ scopes) = same_scopes_refl scopes
same_scopes_refl (AgentScope.trace_batch ∷ scopes) = same_scopes_refl scopes

new_identity-matches :
    (requested : Option Text) (hex target host : Text) (scopes : List AgentScope) (now : Time)
    → mismatches
        (new_identity (allocated requested hex) target host scopes now)
        host
        scopes
        requested
      ≡ false
unfolding mismatches
new_identity-matches none hex target host scopes now =
    rw (≟_refl host, same_scopes_refl scopes) refl
new_identity-matches (some id) hex target host scopes now =
    rw (≟_refl host, same_scopes_refl scopes, ≟_refl id) refl

first_target :
    (new : IdentityRow) (identities : List IdentityRow)
    → find_where (is_target new.target_id) (new ∷ identities) ≡ some new
unfolding find_where is_target
first_target new identities = rw (≟_refl new.target_id) refl

-- The part of `get_or_create` after its arguments were normalised.
unfoldable bind_target :
    Text
    → Text
    → List AgentScope
    → Option Text
    → Text
    → Time
    → Db
    → Result ((AgentIdentity × Bool) × Db)
unfolding find_where is_target insert_identity replay
bind_target target host scopes requested hex now db =
    elim (find_where (is_target target) db.identities) [
      | none ↦ insert_identity (new_identity (allocated requested hex) target host scopes now) db
      | some row ↦ replay row host scopes requested db
    ]

replay-read :
    (row : IdentityRow) (host : Text) (scopes : List AgentScope) (requested : Option Text) (db : Db)
    (read : AgentIdentity)
    → mismatches row host scopes requested ≡ false
    → identity_from_row db row ≡ ok read
    → replay row host scopes requested db ≡ ok ((read, false), db)
unfolding replay
replay-read row host scopes requested db read same got = rw (same, got) refl

replay-result :
    (row : IdentityRow) (host : Text) (scopes : List AgentScope) (requested : Option Text) (db : Db)
    {answer : AgentIdentity} {created : Bool} {db' : Db}
    → replay row host scopes requested db ≡ ok ((answer, created), db')
    → (replay row host scopes requested db ≡ ok ((answer, false), db)) × (db' ≡ db)
unfolding replay
replay-result row host scopes requested db {answer} h =
    let (same, h1) = >>-eq-ok (mismatches row host scopes requested) conflict _ h in
    ok_elim (identity_from_row db row) _ h1 λ read got h2.
      let back = sym (ok-injective h2) in
      let answered : read ≡ answer = sym (ap (λ (p : (AgentIdentity × Bool) × Db). p.0.0) back) in
      (
        replay-read row host scopes requested db answer same (rw answered at got),
        ap (λ p. p.1) back,
      )

insert_identity-read :
    (new : IdentityRow) (db : Db) {answer : AgentIdentity} {created : Bool} {db' : Db}
    → insert_identity new db ≡ ok ((answer, created), db')
    → (identity_from_row (record db { identities = new ∷ db.identities }) new ≡ ok answer)
      × (db' ≡ record db { identities = new ∷ db.identities })
unfolding insert_identity
insert_identity-read new db {answer} h =
    let (_, h1) = >>-eq-ok (exists_where (collides new) db.identities) conflict _ h in
    let added = record db { identities = new ∷ db.identities } in
    ok_elim (identity_row added new.agent_id) _ h1 λ row found h2.
      ok_elim (identity_from_row added row) _ h2 λ identity got h3.
        let back = sym (ok-injective h3) in
        let same : row ≡ new =
          eq_of_some (sym (identity_row-some added new.agent_id found) ∙ registered-first new db) in
        let answered : identity ≡ answer =
          sym (ap (λ (p : (AgentIdentity × Bool) × Db). p.0.0) back) in
        (rw (same, answered) at got, ap (λ p. p.1) back)

module _ (target host : Text) (scopes : List AgentScope) (requested : Option Text) where
  bound-replays :
      (hex : Text) (now : Time) (db : Db) (row : IdentityRow) (answer : AgentIdentity)
      → find_where (is_target target) db.identities ≡ some row
      → replay row host scopes requested db ≡ ok ((answer, false), db)
      → bind_target target host scopes requested hex now db ≡ ok ((answer, false), db)
  unfolding bind_target
  bound-replays hex now db row answer found h = rw (found, bind_target) h

  settled :
      (hex : Text) (now : Time) {db db' : Db} {answer : AgentIdentity}
      → db' ≡ db
      → bind_target target host scopes requested hex now db ≡ ok ((answer, false), db)
      → bind_target target host scopes requested hex now db' ≡ ok ((answer, false), db')
  settled hex now e h = rw e h

  bind_target-replays :
      (hex again : Text) (now later : Time) (db : Db) {answer : AgentIdentity} {created : Bool}
      {db' : Db}
      → bind_target target host scopes requested hex now db ≡ ok ((answer, created), db')
      → (db1 : Db) × (db' ≡ db1)
        × (bind_target target host scopes requested again later db1 ≡ ok ((answer, false), db1))
  unfolding bind_target
  bind_target-replays hex again now later db {answer} h =
      elim (Option-cases (find_where (is_target target) db.identities)) [
        | inr (row, e) ↦
            let (kept, same) =
              replay-result row host scopes requested db (rw (e, bind_target) at h) in
            (db, same, bound-replays again later db row answer e kept)
        | inl e ↦
            let new = new_identity (allocated requested hex) target host scopes now in
            let added = record db { identities = new ∷ db.identities } in
            let (read, same) = insert_identity-read new db (rw (e, bind_target) at h) in
            (
              added,
              same,
              bound-replays again later added new answer (first_target new db.identities) (
                  replay-read new host scopes requested added answer
                    (new_identity-matches requested hex target host scopes now) read),
            )
      ]

-- When `get_or_create` has returned, the same call returns the same identity again, at any time and
-- whatever new random id it has at hand, reports that it created nothing, and leaves the database as
-- it is.
pub get_or_create-replay :
    (target host : Text) (scopes : List Text) (agent_id : Option Text) (hex again : Text)
    (now later : Time) (db db' : Db) (answer : AgentIdentity) (created : Bool)
    → get_or_create target host scopes agent_id hex now db ≡ ok ((answer, created), db')
    → get_or_create target host scopes agent_id again later db' ≡ ok ((answer, false), db')
unfolding get_or_create bind_target
get_or_create-replay target host scopes agent_id hex again now later db db' answer created h =
    ok_elim (required_text 256 target) _ h λ target' e1 h1.
      ok_elim (required_text 256 host) _ h1 λ host' e2 h2.
        ok_elim (normalize_scopes scopes) _ h2 λ scopes' e3 h3.
          ok_elim (requested_id agent_id) _ h3 λ requested e4 h4.
            let (db1, same, kept) =
              bind_target-replays target' host' scopes' requested hex again now later db h4 in
            rw (e1, e2, e3, e4) (settled target' host' scopes' requested again later same kept)
