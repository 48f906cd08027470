-- ===== src/JobStore/Promises/Direct.antt =====
-- Direct operations of form/src/kcatta_form/job_store.py fence the target's stale jobs.
use kcatta.Prelude.{
  ◌≤◌, ◌≡◌, ◌≢◌, true, false, ◌||◌, inl, inr, some, Memᴰ, arith, Text, ≟_iff, is_empty, strip,
  length, ltb, ◌==◌, exists_where-false, update_where_hit,
}
use kcatta.JobStore.Job.{Time, ScanJob, is_active}
use kcatta.JobStore.Rows.{ok, >>-eq-ok, value_error, HeadRow, Db, Repo, live}
use kcatta.JobStore.Claim.{ClaimedScanJob}
use kcatta.JobStore.Operations.{
  TargetOperationLease, live_on, stale_on, fenced, acquire_target_operation,
}
use kcatta.JobStore.Lease.{renew, complete}
use kcatta.JobStore.Exclusion.Direct.{acquire_cases, Acquired}
use kcatta.JobStore.Reach.{Call, IsSound, Call-IsSound}
use kcatta.JobStore.Fencing.{Run, superseded-refused}

stale_of_idle :
    (now : Time) (target_id : Text) (a : HeadRow)
    → live_on now target_id a ≡ false
    → a.target_id ≡ target_id
    → is_active a.state ≡ true
    → stale_on now target_id a ≡ true
unfolding live_on live stale_on
stale_of_idle now target_id a idle same active = ground (arith, ≟_iff a.target_id target_id)

acquired :
    (r : Repo) (target_id owner : Text) (now ttl : Time) (token : Text) (db : Db)
    (lease : TargetOperationLease) (db' : Db)
    → acquire_target_operation r target_id owner now ttl token db ≡ ok (some lease, db')
    → (lease' : TargetOperationLease) × Acquired r
        (strip target_id)
        (strip owner)
        now
        ttl
        token
        db
        lease'
        db'
unfolding acquire_target_operation
acquired r target_id owner now ttl token db lease db' h =
    let (_, h1) =
      >>-eq-ok (is_empty (strip target_id) || is_empty (strip owner) || (ttl == 0)) value_error _
        h in
    let (_, h2) = >>-eq-ok (ltb 256 (length (strip owner))) value_error _ h1 in
    elim (acquire_cases r (strip target_id) (strip owner) now ttl token db h2) [
      | inl (none_given, _) ↦ absurd (cc)
      | inr (lease', _, done) ↦ (lease', done)
    ]

-- From a sound database, once a direct operation on a target is granted, every claim of a running or
-- cancelling job of that target that the job's head could have borne is refused by `renew` and by
-- `complete` after any further calls that do not evict the job, at whatever time, also after the
-- operation has ended.
pub acquire_target_operation-fences :
    (r : Repo) (target_id owner : Text) (now ttl : Time) (token : Text) (db : Db)
    (lease : TargetOperationLease) (db' : Db)
    → IsSound now db
    → acquire_target_operation r target_id owner now ttl token db ≡ ok (some lease, db')
    → (old : ClaimedScanJob) (a : HeadRow) → Memᴰ a db.heads
    → a.target_id ≡ strip target_id
    → is_active a.state ≡ true
    → a.job_id ≡ old.job.job_id
    → old.lease_epoch ≤ a.lease_epoch
    → (later : Time) (db'' : Db) → Run r old.job.job_id now db' later db''
    → (at ttl' : Time) (updated : ScanJob)
    → ((x : ClaimedScanJob × Db) → renew r old at ttl' db'' ≢ ok x)
      × ((x : ScanJob × Db) → complete r old updated at db'' ≢ ok x)
acquire_target_operation-fences r target_id owner now ttl token db lease db' s h old a m on active
      same le later db'' run =
    let (_, done) = acquired r target_id owner now ttl token db lease db' h in
    let idle = exists_where-false (live_on now (strip target_id)) done.idle m in
    let stale = stale_of_idle now (strip target_id) a idle on active in
    let (c, x) =
      Call-IsSound r (Call.acquire_target_operation target_id owner ttl token (some lease) h) s in
    let s' : IsSound now db' = record { consistent = c; exclusive = x } in
    superseded-refused r old now later db' db'' s' (fenced a)
      (rw done.heads (update_where_hit (stale_on now (strip target_id)) fenced m stale)) same
      (omega (arith, le)) run
