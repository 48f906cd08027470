-- ===== src/JobStore/Lifecycle/Jobs.antt =====
-- The rows that the job operations of form/src/kcatta_form/job_store.py write advance their heads.
use kcatta.Prelude.{ℕ, ◌+◌, ◌≡◌, refl, true, false, ◌||◌, Option, List, arith, Text}
use kcatta.JobStore.Job.{Time, ScanJob, derive_mode, is_terminal, is_cancelling}
use kcatta.JobStore.Rows.{HeadRow, Db, Repo, live}
use kcatta.JobStore.Claim.{exhausted, claimable}
use kcatta.JobStore.Lease.{completed_head, may_complete_as}
use kcatta.JobStore.Operations.{fenced}
use kcatta.JobStore.Control.{
  cancel_job, cancelled_head, retried_job, retried_head, may_retry, derived_head,
}
use kcatta.JobStore.Inversion.Worker.{failed_head, claimed_head}
use kcatta.JobStore.Consistent.{Mirrors}
use kcatta.JobStore.Lifecycle.{Advances}

module _ (now : Time) (job : ScanJob) (bytes : ℕ) (row : HeadRow) where
  pub failed-Advances :
      exhausted now row ≡ true → Advances row (failed_head now job bytes (row.revision + 1) row)
  unfolding exhausted
  failed-Advances h = ground arith

  pub claimed-Advances :
      (r : Repo) (worker token : Text) (expires : Time) (exclude : List Text) (db : Db)
      → claimable now exclude db row ≡ true
      → Advances row (claimed_head r worker token now expires row job bytes (row.revision + 1) row)
  unfolding claimable
  claimed-Advances r worker token expires exclude db h = ground arith

  pub completed-Advances :
      (at : Time)
      → live now row ≡ true
      → may_complete_as job.state ≡ true
      → Advances row (completed_head job bytes at (row.revision + 1) row)
  unfolding live
  completed-Advances at h k = ground arith

  pub cancelled-Advances :
      Mirrors row
      → (is_terminal row.payload.state || is_cancelling row.payload.state) ≡ false
      → job ≡ derive_mode (cancel_job now row.payload)
      → Advances row (cancelled_head now job bytes (row.revision + 1) row)
  unfolding derive_mode cancel_job
  cancelled-Advances m h e = ground arith

  pub retried-Advances :
      Mirrors row
      → may_retry row.payload.state ≡ true
      → job ≡ derive_mode (retried_job now row.payload)
      → Advances row (retried_head now job bytes (row.revision + 1) row)
  unfolding derive_mode retried_job
  retried-Advances m h e = ground arith

  pub derived-Advances : Advances row (derived_head job bytes now (row.revision + 1) row)
  derived-Advances = record {
    job_id = refl;
    target_id = refl;
    idempotency_key = refl;
    request_fingerprint = refl;
    created = refl;
    epoch = omega arith;
    revision = omega arith;
    final = λ e. e;
  }

pub extended-Advances :
    (expires heartbeat : Option Time) (row : HeadRow)
    → Advances row (record row { lease_expires_at_us = expires; heartbeat_at_us = heartbeat })
extended-Advances expires heartbeat row = ground arith

pub fenced-Advances : (row : HeadRow) → Advances row (fenced row)
fenced-Advances row = ground arith
