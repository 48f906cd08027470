-- ===== src/JobStore/Consistent.antt =====
-- The heads table of form/src/kcatta_form/job_store.py is keyed by job, and five of its columns say
-- what the payload says. A committed write replaces one row.
pub mod Holder
pub mod Worker
pub mod Claim
use kcatta.Prelude.{
  ℕ, ◌+◌, ◌≡◌, refl, sym, ◌≢◌, Bool-cases, update_where-Memᴰ, ◌∙◌, ap, Bool, true, false, ◌⊎◌, inl,
  inr, Option, none, some, List, ◌∷◌, Memᴰ, arith, Text, ≟_iff, IsKeyed, IsKeyed-unique,
  IsKeyed-update_where, update_where, update_where-cases, select, Memᴰ-select, IsKeyed-select,
}
use kcatta.JobStore.Job.{Time, ScanJob}
use kcatta.JobStore.Rows.{HeadRow, EventRow, Db, Repo, has_job_id, has_revision}
use kcatta.JobStore.Create.{head_job_id}
use kcatta.JobStore.Inversion.{Written}

-- The columns that the invariant keeps equal to the payload. target_id is not one of them: `complete`
-- stores whatever target the reported job names and leaves the column.
pub record Mirrors (h : HeadRow) : Type 0 where
  pub job_id : h.job_id ≡ h.payload.job_id
  pub state : h.state ≡ h.payload.state
  pub attempt : h.attempt ≡ h.payload.attempt
  pub max_attempts : h.max_attempts ≡ h.payload.max_attempts
  pub available : h.available_at_us ≡ h.payload.available_at

pub record IsConsistent (db : Db) : Type 0 where
  pub keyed : IsKeyed head_job_id db.heads
  pub mirrors : (h : HeadRow) → Memᴰ h db.heads → Mirrors h

pub has_revision-job_id :
    (job_id : Text) (revision : ℕ) (h : HeadRow)
    → has_revision job_id revision h ≡ true
    → h.job_id ≡ job_id
unfolding has_revision
has_revision-job_id job_id revision h e = (≟_iff h.job_id job_id).0 (ground arith)

module _ {r : Repo} {matching : HeadRow → Bool} {columns : ScanJob → ℕ → ℕ → HeadRow → HeadRow}
    {changed : ScanJob} {at : Time} {row : HeadRow} {db : Db} {job : ScanJob} {db' : Db}
    (w : Written r matching columns changed at row db job db') (c : IsConsistent db)
    (member : Memᴰ row db.heads)
    (of_row : (h : HeadRow) → matching h ≡ true → h.job_id ≡ row.job_id)
    (keeps : (h : HeadRow) → (columns job w.bytes (row.revision + 1) h).job_id ≡ h.job_id) where
  abbrev pub new_row : HeadRow
  new_row = columns job w.bytes (row.revision + 1) row

  -- A row of the new table is an old row that the write passed over, or the new row.
  pub written-heads :
      {b : HeadRow} → Memᴰ b db'.heads → (Memᴰ b db.heads × (matching b ≡ false)) ⊎ (b ≡ new_row)
  written-heads {b} m =
      let cases =
        update_where-cases head_job_id matching (columns job w.bytes (row.revision + 1))
          (λ h _. keeps h) db.heads (rw w.heads at m) in
      elim cases [
        | inl old ↦ inl old
        | inr (a, k, q, e) ↦
            let same = IsKeyed-unique head_job_id db.heads c.keyed a row k member (of_row a q) in
            inr (e ∙ ap (columns job w.bytes (row.revision + 1)) same)
      ]

  -- A row of another job stays.
  pub written-keeps : {b : HeadRow} → Memᴰ b db.heads → b.job_id ≢ row.job_id → Memᴰ b db'.heads
  written-keeps {b} m other = elim (Bool-cases (matching b)) [
    | inl e ↦ absurd (other (of_row b e))
    | inr e ↦
        let k = update_where-Memᴰ matching (columns job w.bytes (row.revision + 1)) m in
        rw w.heads (rw e at k)
  ]

  pub written-IsConsistent : Mirrors new_row → IsConsistent db'
  written-IsConsistent new = record {
    keyed = rw w.heads (
        IsKeyed-update_where head_job_id matching (columns job w.bytes (row.revision + 1))
          (λ h _. keeps h) db.heads c.keyed);
    mirrors = λ h m. elim (written-heads m) [ inl old ↦ c.mirrors h old.0 | inr e ↦ rw e new ];
  }
