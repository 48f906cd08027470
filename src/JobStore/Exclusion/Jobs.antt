-- ===== src/JobStore/Exclusion/Jobs.antt =====
-- The job operations of form/src/kcatta_form/job_store.py keep leases exclusive.
use kcatta.Prelude.{ℕ, ◌+◌, ◌≡◌, refl, Bool, true, false, ◌||◌, inl, inr, none, Memᴰ, arith, Text}
use kcatta.JobStore.Job.{Time, ScanJob, derive_mode, is_terminal, is_cancelling}
use kcatta.JobStore.Rows.{ok, HeadRow, Db, Repo, live}
use kcatta.JobStore.Claim.{ClaimedScanJob}
use kcatta.JobStore.Lease.{complete}
use kcatta.JobStore.Control.{cancel_job, cancelled_head, request_cancel, manual_retry}
use kcatta.JobStore.Inversion.{Written}
use kcatta.JobStore.Inversion.Holder.{complete_ok, request_cancel_ok, manual_retry_ok}
use kcatta.JobStore.Consistent.{Mirrors, IsConsistent, has_revision-job_id, written-heads}
use kcatta.JobStore.Consistent.Holder.{owns-job_id, has_lease-job_id}
use kcatta.JobStore.Exclusion.{IsExclusive, Continues, Continues-refl, Shrinks, IsExclusive-Shrinks}

module _ {r : Repo} {matching : HeadRow → Bool} {columns : ScanJob → ℕ → ℕ → HeadRow → HeadRow}
    {changed : ScanJob} {at : Time} {row : HeadRow} {db : Db} {job : ScanJob} {db' : Db}
    (w : Written r matching columns changed at row db job db') (c : IsConsistent db)
    (member : Memᴰ row db.heads)
    (of_row : (h : HeadRow) → matching h ≡ true → h.job_id ≡ row.job_id)
    (keeps : (h : HeadRow) → (columns job w.bytes (row.revision + 1) h).job_id ≡ h.job_id) where
  pub written-Shrinks :
      (now : Time)
      → Continues now row (columns job w.bytes (row.revision + 1) row)
      → Shrinks now db db'
  written-Shrinks now k = record {
    heads = λ b m e. elim (written-heads w c member of_row keeps m) [
      | inl old ↦ (b, old.0, Continues-refl now b)
      | inr new ↦ (row, member, rw new k)
    ];
    operations = λ o t m e. (o, rw w.operations at m, e);
  }

pub unleased-Continues :
    (now : Time) (a b : HeadRow)
    → b.job_id ≡ a.job_id
    → b.target_id ≡ a.target_id
    → b.lease_expires_at_us ≡ none
    → Continues now a b
unfolding live
unleased-Continues now a b e e' h = record { job_id = e; target_id = e'; lasts = λ p. ground arith }

cancelled-Continues :
    (now : Time) (job : ScanJob) (bytes revision : ℕ) (row : HeadRow)
    → Mirrors row
    → (is_terminal row.payload.state || is_cancelling row.payload.state) ≡ false
    → job ≡ derive_mode (cancel_job now row.payload)
    → Continues now row (cancelled_head now job bytes revision row)
unfolding live derive_mode cancel_job
cancelled-Continues now job bytes revision row m open_job e = record {
  job_id = refl;
  target_id = refl;
  lasts = λ p. ground arith;
}

module _ (r : Repo) {now : Time} {db : Db} (c : IsConsistent db) (x : IsExclusive now db) where
  pub complete-IsExclusive :
      (claim : ClaimedScanJob) (updated : ScanJob) {job : ScanJob} {db' : Db}
      → complete r claim updated now db ≡ ok (job, db')
      → IsExclusive now db'
  complete-IsExclusive claim updated {job} h =
      let done = complete_ok r claim updated now db h in
      let same = owns-job_id r claim now db done.row done.owned in
      IsExclusive-Shrinks
        (written-Shrinks done.written c done.member
          (λ a q. cc (has_lease-job_id r claim job.job_id a q, done.same_id, same)) (λ a. refl) now
          (unleased-Continues now done.row _ refl refl refl))
        x

  pub manual_retry-IsExclusive :
      (job_id : Text) (at : Time) {job : ScanJob} {db' : Db}
      → manual_retry r job_id at db ≡ ok (job, db')
      → IsExclusive now db'
  manual_retry-IsExclusive job_id at h =
      let done = manual_retry_ok r job_id at db h in
      IsExclusive-Shrinks
        (written-Shrinks done.written c done.member
          (has_revision-job_id done.row.job_id done.row.revision) (λ a. refl) now
          (unleased-Continues now done.row _ refl refl refl))
        x

  pub request_cancel-IsExclusive :
      (job_id : Text) {job : ScanJob} {db' : Db}
      → request_cancel r job_id now db ≡ ok (job, db')
      → IsExclusive now db'
  request_cancel-IsExclusive job_id {job} h =
      let done = request_cancel_ok r job_id now db h in
      elim done.outcome [
        | inl (_, _, same) ↦ rw same x
        | inr (open_job, w) ↦
            IsExclusive-Shrinks
              (written-Shrinks w c done.member
                (has_revision-job_id done.row.job_id done.row.revision) (λ a. refl) now
                (cancelled-Continues now job w.bytes _ done.row (c.mirrors done.row done.member)
                  open_job w.encoded))
              x
      ]
