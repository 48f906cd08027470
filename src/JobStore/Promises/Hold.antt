-- ===== src/JobStore/Promises/Hold.antt =====
-- What holds of a claim with an owned head in form/src/kcatta_form/job_store.py: how long the head stays
-- owned, and that `renew` and `complete` find it.
use kcatta.Prelude.{
  ℕ, ◌+◌, ◌≤◌, ◌<◌, ◌≡◌, ◌≢◌, refl, sym, ◌∙◌, Bool, true, false, not, ◌⊎◌, inl, inr, Option-cases,
  some, Memᴰ, arith, Text, ≟_iff, ◌==◌, count_where, count_where_unique, exists_where,
  exists_where-false, exists_where_zero, update_where, find_where, find_where-some, find_where-none,
  IsKeyed, IsKeyed-unique, ◌≟◌,
}
use kcatta.JobStore.Job.{Time, ScanJob, is_cancelling}
use kcatta.JobStore.Rows.{
  ok, err, ◌>>=◌, ◌>>◌, raise_if, value_error, lease_lost, Error, Result, HeadRow, OperationRow, Db,
  Repo, live, encode, event,
}
use kcatta.JobStore.Create.{head_job_id}
use kcatta.JobStore.Claim.{ClaimedScanJob, operation_on}
use kcatta.JobStore.Lease.{owns, leased_row, is_claimed, renew, complete, may_complete_as}
use kcatta.JobStore.Fencing.{owns-epoch}

>>=-err {u v} :
    {A : Type u} {B : Type v} (m : Result A) (f : A → Result B) {e : Error}
    → (m >>= f) ≡ err e
    → (m ≡ err e) ⊎ (x : A) × (m ≡ ok x) × (f x ≡ err e)
>>=-err (err e) f h = inl (ground arith)
>>=-err (ok x) f h = inr (x, refl, h)

>>-err {v} :
    {B : Type v} (b : Bool) (raised : Error) (m : Result B) {e : Error}
    → raised ≢ e
    → (raise_if b raised >> m) ≡ err e
    → m ≡ err e
>>-err true raised m n h = absurd (n (ground arith))
>>-err false raised m n h = h

value_or_lost : value_error ≢ lease_lost
value_or_lost h = cc

encode-not_lost : (r : Repo) (job : ScanJob) → encode r job ≢ err lease_lost
unfolding encode
encode-not_lost r job h = ground arith

event-not_lost :
    (r : Repo) (db : Db) (job : ScanJob) (revision : ℕ) (at : Time) (bytes : ℕ)
    → event r db job revision at bytes ≢ err lease_lost
unfolding event
event-not_lost r db job revision at bytes h = ground arith

module _ (r : Repo) (claim : ClaimedScanJob) (db : Db) (row : HeadRow)
    (keyed : IsKeyed head_job_id db.heads) (member : Memᴰ row db.heads) where
  -- The query of `_leased_row` finds the row that the claim owns.
  leased_row-found : (at : Time) → owns r claim at db row ≡ true → leased_row r db claim at ≡ ok row
  unfolding leased_row
  leased_row-found at o = elim (Option-cases (find_where (owns r claim at db) db.heads)) [
    | inl e ↦ absurd (let missed = find_where-none (owns r claim at db) e member in cc)
    | inr (other, e) ↦
        let (m, q) = find_where-some (owns r claim at db) db.heads e in
        let (id, _) = owns-epoch r claim at db row o in
        let (id', _) = owns-epoch r claim at db other q in
        let one = IsKeyed-unique head_job_id db.heads keyed other row m member (id' ∙ sym id) in
        rw (e, leased_row, one) refl
  ]

  -- A renewal succeeds with the row's payload and the new end of the lease.
  pub owned-renew :
      (at ttl : Time)
      → 1 ≤ ttl
      → owns r claim at db row ≡ true
      → (db' : Db) × (renew r claim at ttl db
          ≡ ok (record claim { job = row.payload; lease_expires_at = at + ttl }, db'))
  unfolding renew owns is_claimed
  owned-renew at ttl positive o =
      let found = leased_row-found at o in
      let (id, _) = owns-epoch r claim at db row o in
      let one : count_where (is_claimed r claim) db.heads ≡ 1 =
        count_where_unique head_job_id (is_claimed r claim) db.heads row keyed member (ground arith)
          (λ b q. (≟_iff b.job_id claim.job.job_id).0 (ground arith) ∙ sym id) in
      let some_time : (ttl == 0) ≡ false = ground arith in
      (
        record db {
          heads =
              update_where (is_claimed r claim)
                (λ h. record h { lease_expires_at_us = some (at + ttl); heartbeat_at_us = some at })
                db.heads;
        },
        rw (some_time, found, one) refl,
      )

  -- A completion is not refused for the lease, unless the job is being cancelled.
  pub owned-complete :
      (at : Time) (updated : ScanJob)
      → owns r claim at db row ≡ true
      → is_cancelling row.state ≡ false
      → complete r claim updated at db ≢ err lease_lost
  unfolding complete
  owned-complete at updated o going h = elim (>>=-err (encode r updated) _ h) [
    | inl e ↦ encode-not_lost r updated e
    | inr ((job, bytes), _, h1) ↦
        let h2 = >>-err (not (job.job_id ≟ claim.job.job_id)) value_error _ value_or_lost h1 in
        let h3 = >>-err (not (may_complete_as job.state)) value_error _ value_or_lost h2 in
        let h4 = rw (leased_row-found at o, going) at h3 in
        finish _ job (event-not_lost r _ job _ _ _) h4
  ]
    where
      finish :
          (m : Result Db) (job : ScanJob)
          → m ≢ err lease_lost
          → ◌>>=◌ {Next = ScanJob × Db} m (λ done. ok (job, done)) ≢ err lease_lost
      finish (err e) job n h = n (ground arith)
      finish (ok x) job n h = cc

no_operation_later :
    (now at : Time) (target : Text) (o : OperationRow)
    → now ≤ at
    → operation_on now target o ≡ false
    → operation_on at target o ≡ false
unfolding operation_on
no_operation_later now at target o le h = ground (arith, le)

-- A row that is owned stays so until its lease is over.
pub owns_until :
    (r : Repo) (claim : ClaimedScanJob) (now at expires : Time) (db : Db) (row : HeadRow)
    → owns r claim now db row ≡ true
    → row.lease_expires_at_us ≡ some expires
    → now ≤ at
    → at < expires
    → owns r claim at db row ≡ true
unfolding owns live
owns_until r claim now at expires db row o e le early =
    let here : exists_where (operation_on now row.target_id) db.operations ≡ false = ground arith in
    let free = exists_where_zero (operation_on at row.target_id) db.operations (λ x m.
      no_operation_later now at row.target_id x le
        (exists_where-false (operation_on now row.target_id) here m)) in
    let o' = rw e at o in rw (e, free) (ground (arith, le, early))
