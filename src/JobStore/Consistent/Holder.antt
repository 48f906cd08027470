-- ===== src/JobStore/Consistent/Holder.antt =====
-- `complete`, `renew`, `request_cancel`, `manual_retry` of form/src/kcatta_form/job_store.py keep the
-- heads consistent.
use kcatta.Prelude.{
  ℕ, ◌+◌, ◌≡◌, refl, true, inl, inr, Option, some, arith, Text, ≟_iff, IsKeyed-update_where,
  update_where-cases,
}
use kcatta.JobStore.Job.{Time, ScanJob, derive_mode}
use kcatta.JobStore.Rows.{ok, HeadRow, Db, Repo}
use kcatta.JobStore.Create.{head_job_id}
use kcatta.JobStore.Claim.{ClaimedScanJob}
use kcatta.JobStore.Lease.{owns, is_claimed, has_lease, complete, renew}
use kcatta.JobStore.Control.{
  cancel_job, cancelled_head, request_cancel, retried_job, retried_head, manual_retry,
}
use kcatta.JobStore.Inversion.Holder.{complete_ok, renew_ok, request_cancel_ok, manual_retry_ok}
use kcatta.JobStore.Consistent.{Mirrors, IsConsistent, has_revision-job_id, written-IsConsistent}

pub owns-job_id :
    (r : Repo) (claim : ClaimedScanJob) (now : Time) (db : Db) (row : HeadRow)
    → owns r claim now db row ≡ true
    → row.job_id ≡ claim.job.job_id
unfolding owns
owns-job_id r claim now db row h = (≟_iff row.job_id claim.job.job_id).0 (ground arith)

pub has_lease-job_id :
    (r : Repo) (claim : ClaimedScanJob) (job_id : Text) (row : HeadRow)
    → has_lease r claim job_id row ≡ true
    → row.job_id ≡ job_id
unfolding has_lease
has_lease-job_id r claim job_id row h = (≟_iff row.job_id job_id).0 (ground arith)

extended-Mirrors :
    (expires heartbeat : Option Time) (h : HeadRow)
    → Mirrors h
    → Mirrors (record h { lease_expires_at_us = expires; heartbeat_at_us = heartbeat })
extended-Mirrors expires heartbeat h m = record {
  job_id = m.job_id;
  state = m.state;
  attempt = m.attempt;
  max_attempts = m.max_attempts;
  available = m.available;
}

retried-Mirrors :
    (now : Time) (job : ScanJob) (bytes revision : ℕ) (row : HeadRow)
    → Mirrors row
    → job ≡ derive_mode (retried_job now row.payload)
    → Mirrors (retried_head now job bytes revision row)
unfolding derive_mode retried_job
retried-Mirrors now job bytes revision row h e = ground arith

cancelled-Mirrors :
    (now : Time) (job : ScanJob) (bytes revision : ℕ) (row : HeadRow)
    → Mirrors row
    → job ≡ derive_mode (cancel_job now row.payload)
    → Mirrors (cancelled_head now job bytes revision row)
unfolding derive_mode cancel_job
cancelled-Mirrors now job bytes revision row h e = ground arith

module _ (r : Repo) {db : Db} (c : IsConsistent db) where
  pub complete-IsConsistent :
      (claim : ClaimedScanJob) (updated : ScanJob) (now : Time) {job : ScanJob} {db' : Db}
      → complete r claim updated now db ≡ ok (job, db')
      → IsConsistent db'
  complete-IsConsistent claim updated now {job} h =
      let done = complete_ok r claim updated now db h in
      let same = owns-job_id r claim now db done.row done.owned in
      written-IsConsistent done.written c done.member
        (λ a q. cc (has_lease-job_id r claim job.job_id a q, done.same_id, same)) (λ a. refl)
        (record {
          job_id = cc (done.same_id, same);
          state = refl;
          attempt = refl;
          max_attempts = refl;
          available = refl;
        })

  pub manual_retry-IsConsistent :
      (job_id : Text) (now : Time) {job : ScanJob} {db' : Db}
      → manual_retry r job_id now db ≡ ok (job, db')
      → IsConsistent db'
  manual_retry-IsConsistent job_id now {job} h =
      let done = manual_retry_ok r job_id now db h in
      written-IsConsistent done.written c done.member
        (has_revision-job_id done.row.job_id done.row.revision) (λ a. refl)
        (retried-Mirrors now job done.written.bytes _ done.row (c.mirrors done.row done.member)
          done.written.encoded)

  pub request_cancel-IsConsistent :
      (job_id : Text) (now : Time) {job : ScanJob} {db' : Db}
      → request_cancel r job_id now db ≡ ok (job, db')
      → IsConsistent db'
  request_cancel-IsConsistent job_id now {job} h =
      let done = request_cancel_ok r job_id now db h in
      elim done.outcome [
        | inl (_, _, same) ↦ rw same c
        | inr (_, w) ↦
            written-IsConsistent w c done.member
              (has_revision-job_id done.row.job_id done.row.revision) (λ a. refl)
              (cancelled-Mirrors now job w.bytes _ done.row (c.mirrors done.row done.member)
                w.encoded)
      ]

  pub renew-IsConsistent :
      (claim : ClaimedScanJob) (now ttl : Time) {claim' : ClaimedScanJob} {db' : Db}
      → renew r claim now ttl db ≡ ok (claim', db')
      → IsConsistent db'
  renew-IsConsistent claim now ttl h =
      let done = renew_ok r claim now ttl db h in
      let extend = λ (h : HeadRow). record h {
        lease_expires_at_us = some (now + ttl);
        heartbeat_at_us = some now;
      } in
      record {
        keyed = rw done.heads (
            IsKeyed-update_where head_job_id (is_claimed r claim) extend (λ a _. refl) db.heads
              c.keyed);
        mirrors = λ a m.
            elim (update_where-cases head_job_id (is_claimed r claim) extend (λ b _. refl) db.heads
              (rw done.heads at m)) [
                | inl old ↦ c.mirrors a old.0
                | inr (b, k, _, e) ↦
                    rw e (extended-Mirrors (some (now + ttl)) (some now) b (c.mirrors b k))
              ];
      }
