-- ===== src/JobStore/Operations.antt =====
-- Direct target operations: `acquire_target_operation`, `release_target_operation` and
-- `renew_target_operation` of form/src/kcatta_form/job_store.py.
use kcatta.Prelude.{
  ◌+◌, Bool, not, ◌&&◌, ◌||◌, Option, none, some, ◌∷◌, Text, ◌≟◌, is_empty, strip, ltb, ◌==◌,
  if◌then◌else◌, length, select, update_where, count_where, exists_where,
}
use kcatta.JobStore.Job.{Time, is_active}
use kcatta.JobStore.Rows.{
  Result, ok, err, ◌>>◌, raise_if, value_error, runtime_error, lease_lost, HeadRow, OperationRow,
  Db, Repo, null_or_due, live, unleased,
}
use kcatta.JobStore.Claim.{expire_operations}

pub record TargetOperationLease : Type 0 where
  pub target_id : Text
  pub lease_token : Text
  pub lease_owner : Text
  pub lease_expires_at : Time

-- A running job of the target under a lease that has not expired.
unfoldable pub live_on : Time → Text → HeadRow → Bool
unfolding live ◌≟◌
live_on now target_id row = (row.target_id ≟ target_id) && live now row

-- A running job of the target whose lease has expired.
unfoldable pub stale_on : Time → Text → HeadRow → Bool
unfolding ◌≟◌
stale_on now target_id row =
    (row.target_id ≟ target_id) && is_active row.state && null_or_due row.lease_expires_at_us now

abbrev pub fenced : HeadRow → HeadRow
fenced row = record (unleased row) { lease_epoch = row.lease_epoch + 1 }

unfoldable pub is_target : Text → OperationRow → Bool
unfolding ◌≟◌
is_target target_id o = o.target_id ≟ target_id

-- The transaction, over the stripped texts.
unfoldable pub acquire :
    Repo → Text → Text → Time → Time → Text → Db → Result (Option TargetOperationLease × Db)
unfolding expire_operations live_on stale_on is_target exists_where update_where
acquire r target_id owner now lease_ttl token db =
    let swept = expire_operations now db in
    let expires = now + lease_ttl in
    let operation : OperationRow = record {
      target_id = target_id;
      lease_owner = owner;
      lease_token_hash = r.token_hash token;
      lease_expires_at_us = expires;
    } in
    let lease : TargetOperationLease = record {
      target_id = target_id;
      lease_token = token;
      lease_owner = owner;
      lease_expires_at = expires;
    } in
    if exists_where (live_on now target_id) swept.heads
    then ok (none, swept)
    else if is_empty token
    then err runtime_error
    else if exists_where (is_target target_id) swept.operations
    then ok (none, swept)
    else ok (
      some lease,
      record swept {
        operations = operation ∷ swept.operations;
        heads = update_where (stale_on now target_id) fenced swept.heads;
      },
    )

unfoldable pub acquire_target_operation :
    Repo → Text → Text → Time → Time → Text → Db → Result (Option TargetOperationLease × Db)
unfolding strip acquire
acquire_target_operation r target_id owner now lease_ttl token db = do
  raise_if (is_empty (strip target_id) || is_empty (strip owner) || (lease_ttl == 0)) value_error
  raise_if (ltb 256 (length (strip owner))) value_error
  acquire r (strip target_id) (strip owner) now lease_ttl token db

-- WHERE target_id = ? AND lease_owner = ? AND lease_token_hash = ?
unfoldable pub held_by : Repo → TargetOperationLease → OperationRow → Bool
unfolding ◌≟◌
held_by r lease o =
    (o.target_id ≟ lease.target_id)
    && (o.lease_owner ≟ lease.lease_owner)
    && (o.lease_token_hash ≟ r.token_hash lease.lease_token)

unfoldable pub release_target_operation : Repo → TargetOperationLease → Db → Result Db
unfolding held_by count_where select
release_target_operation r lease db =
    if count_where (held_by r lease) db.operations == 1
    then ok (record db { operations = select (λ o. not (held_by r lease o)) db.operations })
    else err lease_lost

unfoldable pub held_unexpired : Repo → TargetOperationLease → Time → OperationRow → Bool
unfolding held_by
held_unexpired r lease now o = held_by r lease o && ltb now o.lease_expires_at_us

unfoldable pub renew_target_operation :
    Repo → TargetOperationLease → Time → Time → Db → Result (TargetOperationLease × Db)
unfolding held_unexpired count_where update_where
renew_target_operation r lease now lease_ttl db = do
  raise_if (lease_ttl == 0) value_error
  let expires = now + lease_ttl
  let extended =
      update_where (held_unexpired r lease now) (λ o. record o { lease_expires_at_us = expires })
        db.operations
  if count_where (held_unexpired r lease now) db.operations == 1
      then ok (record lease { lease_expires_at = expires }, record db { operations = extended })
      else err lease_lost
