-- ===== src/JobStore/Exclusion/Direct.antt =====
-- The direct target operations of form/src/kcatta_form/job_store.py keep leases exclusive and the
-- heads consistent.
use kcatta.Prelude.{
  ◌+◌, ◌≡◌, refl, sym, ap, true, false, ◌||◌, ◌⊎◌, inl, inr, Option, some, none, ◌∷◌, Memᴰ, head,
  tail, arith, Text, ≟_iff, ltb, ◌==◌, is_empty, strip, length, Bool-cases, exists_where,
  exists_where-false, update_where, update_where-cases, IsKeyed-update_where,
}
use kcatta.JobStore.Job.{Time}
use kcatta.JobStore.Rows.{
  ok, >>-eq-ok, ok-injective, value_error, HeadRow, OperationRow, Db, Repo, live,
}
use kcatta.JobStore.Create.{head_job_id}
use kcatta.JobStore.Claim.{operation_on, expire_operations}
use kcatta.JobStore.Operations.{
  TargetOperationLease, live_on, stale_on, fenced, is_target, acquire, acquire_target_operation,
}
use kcatta.JobStore.Consistent.{Mirrors, IsConsistent}
use kcatta.JobStore.Consistent.Claim.{expire-IsConsistent}
use kcatta.JobStore.Exclusion.{IsExclusive, Continues, Continues-refl, IsExclusive-Shrinks}
use kcatta.JobStore.Exclusion.Jobs.{unleased-Continues}
use kcatta.JobStore.Exclusion.Grants.{expire-Shrinks}

-- `acquire` returned: either the expired operations were swept and nothing else happened, or the
-- operation was added and the target's stale jobs were fenced.
pub record Acquired (r : Repo) (target_id owner : Text) (now ttl : Time) (token : Text) (db : Db)
    (lease : TargetOperationLease) (db' : Db) : Type 0 where
  pub idle : exists_where (live_on now target_id) db.heads ≡ false
  pub free : exists_where (is_target target_id) (expire_operations now db).operations ≡ false
  pub nonempty : is_empty token ≡ false
  pub lease_is : lease ≡ record {
    target_id = target_id;
    lease_token = token;
    lease_owner = owner;
    lease_expires_at = now + ttl;
  }
  pub heads : db'.heads ≡ update_where (stale_on now target_id) fenced db.heads
  pub operations :
      db'.operations
      ≡ record {
        target_id = target_id;
        lease_owner = owner;
        lease_token_hash = r.token_hash token;
        lease_expires_at_us = now + ttl;
      }
        ∷ (expire_operations now db).operations

pub acquire_cases :
    (r : Repo) (target_id owner : Text) (now ttl : Time) (token : Text) (db : Db)
    {answer : Option TargetOperationLease} {db' : Db}
    → acquire r target_id owner now ttl token db ≡ ok (answer, db')
    → (answer ≡ none) × (db' ≡ expire_operations now db)
      ⊎ ((lease : TargetOperationLease) × (answer ≡ some lease)
          × Acquired r target_id owner now ttl token db lease db')
unfolding acquire expire_operations
acquire_cases r target_id owner now ttl token db {answer} {db'} h =
    elim (Bool-cases (exists_where (live_on now target_id) db.heads)) [
      | inl busy ↦
          let same = ok-injective (sym (rw busy at h)) in
          inl (ap (λ p. p.0) same, ap (λ p. p.1) same)
      | inr idle ↦
          let h1 = rw idle at h in
          elim (Bool-cases (is_empty token)) [
            | inl no_token ↦ absurd (let h2 = rw no_token at h1 in cc)
            | inr nonempty ↦
                let h2 = rw nonempty at h1 in
                elim (Bool-cases
                  (exists_where (is_target target_id) (expire_operations now db).operations)) [
                    | inl taken ↦
                        let same = ok-injective (sym (rw taken at h2)) in
                        inl (ap (λ p. p.0) same, ap (λ p. p.1) same)
                    | inr free ↦
                        let same = ok-injective (sym (rw free at h2)) in
                        inr (
                          _,
                          ap (λ p. p.0) same,
                          rw (ap (λ p. p.1) same) (record {
                            idle = idle;
                            free = free;
                            nonempty = nonempty;
                            lease_is = refl;
                            heads = refl;
                            operations = refl;
                          }),
                        )
                  ]
          ]
    ]

live_on-false :
    (now : Time) (target_id : Text) (h : HeadRow)
    → live_on now target_id h ≡ false
    → h.target_id ≡ target_id
    → live now h ≡ false
unfolding live_on
live_on-false now target_id h e same = ground (arith, ≟_iff h.target_id target_id)

operation_on-target :
    (now : Time) (target_id : Text) (o : OperationRow)
    → operation_on now target_id o ≡ true
    → o.target_id ≡ target_id
unfolding operation_on
operation_on-target now target_id o e = (≟_iff o.target_id target_id).0 (ground arith)

fenced-Mirrors : (h : HeadRow) → Mirrors h → Mirrors (fenced h)
fenced-Mirrors h m = record {
  job_id = m.job_id;
  state = m.state;
  attempt = m.attempt;
  max_attempts = m.max_attempts;
  available = m.available;
}

module _ {r : Repo} {target_id owner : Text} {now ttl : Time} {token : Text} {db : Db}
    {lease : TargetOperationLease} {db' : Db}
    (done : Acquired r target_id owner now ttl token db lease db') (c : IsConsistent db) where
  pub acquired-heads :
      {b : HeadRow}
      → Memᴰ b db'.heads
      → (Memᴰ b db.heads × (stale_on now target_id b ≡ false))
        ⊎ ((a : HeadRow) × Memᴰ a db.heads × (stale_on now target_id a ≡ true) × (b ≡ fenced a))
  acquired-heads m =
      update_where-cases head_job_id (stale_on now target_id) fenced (λ a _. refl) db.heads
        (rw done.heads at m)

  acquired-IsConsistent : IsConsistent db'
  acquired-IsConsistent = record {
    keyed = rw done.heads (
        IsKeyed-update_where head_job_id (stale_on now target_id) fenced (λ a _. refl) db.heads
          c.keyed);
    mirrors = λ h m. elim (acquired-heads m) [
      | inl old ↦ c.mirrors h old.0
      | inr (a, k, _, e) ↦ rw e (fenced-Mirrors a (c.mirrors a k))
    ];
  }

  acquired-heads_continue :
      (b : HeadRow) → Memᴰ b db'.heads → (a : HeadRow) × Memᴰ a db.heads × Continues now a b
  acquired-heads_continue b m = elim (acquired-heads m) [
    | inl old ↦ (b, old.0, Continues-refl now b)
    | inr (a, k, _, e) ↦ (a, k, rw e (unleased-Continues now a (fenced a) refl refl refl))
  ]

  acquired-IsExclusive : IsExclusive now db → IsExclusive now db'
  acquired-IsExclusive x = record {
    jobs = λ a b m n p q e.
        let (a', m', ca) = acquired-heads_continue a m in
        let (b', n', cb) = acquired-heads_continue b n in
        let same =
          x.jobs a' b' m' n' (ca.lasts p) (cb.lasts q) (cc (ca.target_id, cb.target_id, e)) in
        cc (ca.job_id, cb.job_id, same);
    direct = λ a o m n p. elim (Bool-cases (operation_on now a.target_id o)) [
      | inr off ↦ off
      | inl on ↦
          let (a', m', ca) = acquired-heads_continue a m in
          elim (rw done.operations at n) [
            | head e ↦
                let on_new = operation_on-target now a.target_id o on in
                let target = ap (λ (w : OperationRow). w.target_id) e in
                let idle = exists_where-false (live_on now target_id) done.idle m' in
                let dead =
                  live_on-false now target_id a' idle (cc (ca.target_id, on_new, target)) in
                absurd (let alive = ca.lasts p in cc)
            | tail k ↦
                let old = (expire-Shrinks now db).operations o a.target_id k on in
                absurd (
                  let off = x.direct a' old.0 m' old.1 (ca.lasts p) in
                  cc (ca.target_id, old.2, off))
          ]
    ];
  }

module _ (r : Repo) {now : Time} {db : Db} (c : IsConsistent db) (x : IsExclusive now db) where
  acquire-keeps :
      (target_id owner : Text) (ttl : Time) (token : Text) {answer : Option TargetOperationLease}
      {db' : Db}
      → acquire r target_id owner now ttl token db ≡ ok (answer, db')
      → IsConsistent db' × IsExclusive now db'
  acquire-keeps target_id owner ttl token h =
      elim (acquire_cases r target_id owner now ttl token db h) [
        | inl (_, same) ↦
            rw same (expire-IsConsistent now c, IsExclusive-Shrinks (expire-Shrinks now db) x)
        | inr (_, _, done) ↦ (acquired-IsConsistent done c, acquired-IsExclusive done c x)
      ]

  pub acquire_target_operation-keeps :
      (target_id owner : Text) (ttl : Time) (token : Text) {answer : Option TargetOperationLease}
      {db' : Db}
      → acquire_target_operation r target_id owner now ttl token db ≡ ok (answer, db')
      → IsConsistent db' × IsExclusive now db'
  unfolding acquire_target_operation
  acquire_target_operation-keeps target_id owner ttl token h =
      let (_, h1) =
        >>-eq-ok (is_empty (strip target_id) || is_empty (strip owner) || (ttl == 0)) value_error _
          h in
      let (_, h2) = >>-eq-ok (ltb 256 (length (strip owner))) value_error _ h1 in
      acquire-keeps (strip target_id) (strip owner) ttl token h2
