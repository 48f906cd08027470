-- ===== src/JobStore/Exclusion/Leases.antt =====
-- `release_target_operation` and `renew_target_operation` of form/src/kcatta_form/job_store.py keep
-- leases exclusive and the heads consistent.
use kcatta.Prelude.{
  ◌+◌, ◌≡◌, refl, ap, Bool, true, false, not, inl, inr, arith, Text, ◌==◌, Bool-cases,
  Memᴰ-update_where, Memᴰ-select, count_where, ltb, if◌then◌else◌,
}
use kcatta.JobStore.Job.{Time}
use kcatta.JobStore.Rows.{ok, >>-eq-ok, ok-injective, value_error, OperationRow, Db, Repo}
use kcatta.JobStore.Claim.{operation_on}
use kcatta.JobStore.Operations.{
  TargetOperationLease, held_by, release_target_operation, held_unexpired, renew_target_operation,
}
use kcatta.JobStore.Consistent.{IsConsistent}
use kcatta.JobStore.Exclusion.{IsExclusive, Continues-refl, Shrinks, IsExclusive-Shrinks}

held_unexpired-operation_on :
    (r : Repo) (lease : TargetOperationLease) (now : Time) (o : OperationRow)
    → held_unexpired r lease now o ≡ true
    → ltb now o.lease_expires_at_us ≡ true
unfolding held_unexpired
held_unexpired-operation_on r lease now o h = ground arith

extended-operation_on :
    (now expires : Time) (target_id : Text) (o : OperationRow) (b : Bool)
    → operation_on now target_id (if b then record o { lease_expires_at_us = expires } else o)
      ≡ true
    → (b ≡ true → ltb now o.lease_expires_at_us ≡ true)
    → operation_on now target_id o ≡ true
unfolding operation_on
extended-operation_on now expires target_id o true h k = ground (arith, k refl)
extended-operation_on now expires target_id o false h k = h

module _ (r : Repo) (now : Time) (lease : TargetOperationLease) {db db' : Db} where
  pub release-Shrinks :
      release_target_operation r lease db ≡ ok db' → (db'.heads ≡ db.heads) × Shrinks now db db'
  unfolding release_target_operation
  release-Shrinks h = elim (Bool-cases (count_where (held_by r lease) db.operations == 1)) [
    | inl one ↦ rw (← ok-injective (rw one at h)) (
      refl,
      record {
        heads = λ b m e. (b, m, Continues-refl now b);
        operations =
            λ o t m e. (o, (Memᴰ-select (λ o. not (held_by r lease o)) db.operations m).0, e);
      },
    )
    | inr other ↦ absurd (let h' = rw other at h in cc)
  ]

  pub renew_operation-Shrinks :
      (ttl : Time) {lease' : TargetOperationLease}
      → renew_target_operation r lease now ttl db ≡ ok (lease', db')
      → (db'.heads ≡ db.heads) × Shrinks now db db'
  unfolding renew_target_operation
  renew_operation-Shrinks ttl h =
      let (_, h1) = >>-eq-ok (ttl == 0) value_error _ h in
      elim (Bool-cases (count_where (held_unexpired r lease now) db.operations == 1)) [
        | inl one ↦ rw (← ap (λ p. p.1) (ok-injective (rw one at h1))) (
          refl,
          record {
            heads = λ b m e. (b, m, Continues-refl now b);
            operations = λ o t m e.
                let (o', k, same) =
                  Memᴰ-update_where (held_unexpired r lease now)
                    (λ o. record o { lease_expires_at_us = now + ttl }) db.operations m in
                (
                  o',
                  k,
                  extended-operation_on now (now + ttl) t o' (held_unexpired r lease now o')
                      (rw same at e) (held_unexpired-operation_on r lease now o'),
                );
          },
        )
        | inr other ↦ absurd (let h' = rw other at h1 in cc)
      ]

heads-IsConsistent : {db db' : Db} → db'.heads ≡ db.heads → IsConsistent db → IsConsistent db'
heads-IsConsistent e c = record { keyed = rw e c.keyed; mirrors = λ a m. c.mirrors a (rw e at m) }

module _ (r : Repo) {now : Time} {db : Db} (c : IsConsistent db) (x : IsExclusive now db) where
  pub release_target_operation-keeps :
      (lease : TargetOperationLease) {db' : Db}
      → release_target_operation r lease db ≡ ok db'
      → IsConsistent db' × IsExclusive now db'
  release_target_operation-keeps lease h =
      let (e, s) = release-Shrinks r now lease h in
      (heads-IsConsistent e c, IsExclusive-Shrinks s x)

  pub renew_target_operation-keeps :
      (lease : TargetOperationLease) (ttl : Time) {lease' : TargetOperationLease} {db' : Db}
      → renew_target_operation r lease now ttl db ≡ ok (lease', db')
      → IsConsistent db' × IsExclusive now db'
  renew_target_operation-keeps lease ttl h =
      let (e, s) = renew_operation-Shrinks r now lease ttl h in
      (heads-IsConsistent e c, IsExclusive-Shrinks s x)
