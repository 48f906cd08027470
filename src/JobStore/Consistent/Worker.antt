-- ===== src/JobStore/Consistent/Worker.antt =====
-- `_fail_exhausted`, `claim_next` and `update_derived_result` of form/src/kcatta_form/job_store.py
-- keep the heads consistent.
use kcatta.Prelude.{
  ℕ, ◌+◌, ◌≡◌, ◌≢◌, refl, true, ◌⊎◌, ◌∙◌, inl, inr, List, [], ◌∷◌, Memᴰ, head, tail, arith, IsKeyed,
  IsKeyed-select, Memᴰ-select, select,
}
use kcatta.JobStore.Job.{Time, ScanJob, derive_mode}
use kcatta.JobStore.Rows.{ok, ok_elim, ok-injective, HeadRow, Db, Repo}
use kcatta.JobStore.Create.{head_job_id}
use kcatta.JobStore.Claim.{exhausted, failed_job, fail_row, fail_rows, fail_exhausted, fail_rows}
use kcatta.JobStore.Inversion.Worker.{failed_head, fail_row_ok}
use kcatta.JobStore.Consistent.{
  Mirrors, IsConsistent, has_revision-job_id, written-heads, written-keeps, written-IsConsistent,
}

failed-job_id :
    (now : Time) (job payload : ScanJob)
    → job ≡ derive_mode (failed_job now payload)
    → job.job_id ≡ payload.job_id
unfolding derive_mode failed_job
failed-job_id now job payload e = ground arith

failed-Mirrors :
    (now : Time) (job : ScanJob) (bytes revision : ℕ) (row : HeadRow)
    → Mirrors row
    → job ≡ derive_mode (failed_job now row.payload)
    → Mirrors (failed_head now job bytes revision row)
unfolding derive_mode failed_job
failed-Mirrors now job bytes revision row h e = ground arith

-- What a round of the loop over the exhausted jobs does to the heads.
pub record FailedRow (now : Time) (row : HeadRow) (db db' : Db) : Type 0 where
  pub consistent : IsConsistent db'
  pub job : ScanJob
  pub bytes : ℕ
  pub encoded : job ≡ derive_mode (failed_job now row.payload)
  pub heads :
      {b : HeadRow}
      → Memᴰ b db'.heads
      → Memᴰ b db.heads ⊎ (b ≡ failed_head now job bytes (row.revision + 1) row)
  pub keeps : {b : HeadRow} → Memᴰ b db.heads → b.job_id ≢ row.job_id → Memᴰ b db'.heads
  pub operations : db'.operations ≡ db.operations

pub fail_row-FailedRow :
    (r : Repo) (now : Time) (row : HeadRow) {db db' : Db}
    → IsConsistent db
    → Memᴰ row db.heads
    → fail_row r now row db ≡ ok db'
    → FailedRow now row db db'
fail_row-FailedRow r now row {db} c m h =
    let (job, w) = fail_row_ok r now row db h in
    let mirrors = c.mirrors row m in
    let same : job.job_id ≡ row.job_id =
      cc (failed-job_id now job row.payload w.encoded, mirrors.job_id) in
    let of_row : (a : HeadRow) → _ → a.job_id ≡ row.job_id =
      λ a q. has_revision-job_id job.job_id row.revision a q ∙ same in
    record {
      consistent =
          written-IsConsistent w c m of_row (λ a. refl)
            (failed-Mirrors now job w.bytes _ row mirrors w.encoded);
      job = job;
      bytes = w.bytes;
      encoded = w.encoded;
      heads = λ k. elim (written-heads w c m of_row (λ a. refl) k) [
        | inl old ↦ inl old.0
        | inr e ↦ inr e
      ];
      keeps = λ k other. written-keeps w c m of_row (λ a. refl) k other;
      operations = w.operations;
    }

-- Induction over the loop: the rows that were read are those of the table as long as they were not
-- written.
module _ (r : Repo) (now : Time) (P : Db → Type 0)
    (step : (row : HeadRow) (db db' : Db)
      → IsConsistent db
      → Memᴰ row db.heads
      → exhausted now row ≡ true
      → FailedRow now row db db'
      → P db
      → P db') where
  fail_rows_induction :
      (rows : List HeadRow) (db db' : Db)
      → IsKeyed head_job_id rows
      → ((a : HeadRow) → Memᴰ a rows → Memᴰ a db.heads × (exhausted now a ≡ true))
      → IsConsistent db
      → P db
      → fail_rows r now rows db ≡ ok db'
      → IsConsistent db' × P db'
  unfolding fail_rows
  fail_rows_induction [] db db' k members c p h = let same = ok-injective h in rw (← same) (c, p)
  fail_rows_induction (row ∷ rows) db db' k members c p h =
      ok_elim (fail_row r now row db) _ h λ next e h'.
        let (m, q) = members row (head refl) in
        let failed = fail_row-FailedRow r now row c m e in
        fail_rows_induction rows next db' k.1
          (λ a n. (failed.keeps (members a (tail n)).0 (k.0 a n), (members a (tail n)).1))
          failed.consistent (step row db next c m q failed p) h'

  pub fail_exhausted_induction :
      (db db' : Db)
      → IsConsistent db
      → P db
      → fail_exhausted r now db ≡ ok db'
      → IsConsistent db' × P db'
  unfolding fail_exhausted
  fail_exhausted_induction db db' c p h =
      fail_rows_induction (select (exhausted now) db.heads) db db'
        (IsKeyed-select head_job_id (exhausted now) db.heads c.keyed)
        (λ a n. Memᴰ-select (exhausted now) db.heads n) c p h
