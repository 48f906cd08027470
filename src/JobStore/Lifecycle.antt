-- ===== src/JobStore/Lifecycle.antt =====
-- How a head of form/src/kcatta_form/job_store.py may change: what one call does to a row that it
-- finds.
pub mod Jobs
pub mod Calls
use kcatta.Prelude.{
  ℕ, ◌+◌, ◌≤◌, ◌≡◌, ◌≢◌, refl, Bool, true, false, ◌⊎◌, inl, inr, Option, Memᴰ, arith, Text,
}
use kcatta.JobStore.Job.{
  Time, ScanJob, ScanJobState, succeeded, derive_mode, is_active, is_terminal,
}
use kcatta.JobStore.Rows.{HeadRow, Db, Repo, live}
use kcatta.JobStore.Inversion.{Written}
use kcatta.JobStore.Consistent.{IsConsistent, written-heads}

-- `b` is what became of the head `a`.
pub record Advances (a b : HeadRow) : Type 0 where
  pub job_id : b.job_id ≡ a.job_id
  pub target_id : b.target_id ≡ a.target_id
  pub idempotency_key : b.idempotency_key ≡ a.idempotency_key
  pub request_fingerprint : b.request_fingerprint ≡ a.request_fingerprint
  pub created : b.created_at_us ≡ a.created_at_us
  pub epoch : a.lease_epoch ≤ b.lease_epoch
  pub revision : a.revision ≤ b.revision
  pub final : a.state ≡ succeeded → b.state ≡ succeeded

pub Advances-refl : (a : HeadRow) → Advances a a
Advances-refl a = record {
  job_id = refl;
  target_id = refl;
  idempotency_key = refl;
  request_fingerprint = refl;
  created = refl;
  epoch = omega arith;
  revision = omega arith;
  final = λ e. e;
}

-- A head that a call inserts, under a job id that no head had.
pub record IsNew (db : Db) (b : HeadRow) : Type 0 where
  pub revision : b.revision ≡ 0
  pub epoch : b.lease_epoch ≡ 0
  pub absent : (a : HeadRow) → Memᴰ a db.heads → a.job_id ≢ b.job_id

abbrev pub Comes : Db → HeadRow → Type 0
Comes db b = ((a : HeadRow) × Memᴰ a db.heads × Advances a b) ⊎ IsNew db b

module _ {r : Repo} {matching : HeadRow → Bool} {columns : ScanJob → ℕ → ℕ → HeadRow → HeadRow}
    {changed : ScanJob} {at : Time} {row : HeadRow} {db : Db} {job : ScanJob} {db' : Db}
    (w : Written r matching columns changed at row db job db') (c : IsConsistent db)
    (member : Memᴰ row db.heads)
    (of_row : (h : HeadRow) → matching h ≡ true → h.job_id ≡ row.job_id)
    (keeps : (h : HeadRow) → (columns job w.bytes (row.revision + 1) h).job_id ≡ h.job_id) where
  pub written-Comes :
      Advances row (columns job w.bytes (row.revision + 1) row)
      → (b : HeadRow) → Memᴰ b db'.heads
      → (a : HeadRow) × Memᴰ a db.heads × Advances a b
  written-Comes k b m = elim (written-heads w c member of_row keeps m) [
    | inl old ↦ (b, old.0, Advances-refl b)
    | inr new ↦ (row, member, rw new k)
  ]
