-- ===== src/JobStore/Exclusion/Derived.antt =====
-- `update_derived_result` of form/src/kcatta_form/job_store.py keeps leases exclusive and the heads
-- consistent.
use kcatta.Prelude.{
  ℕ, ◌≡◌, refl, sym, ap, true, ◌&&◌, ◌⊎◌, inl, inr, Option, Memᴰ, arith, Text, Bool-cases,
  Option-cases, find_where,
}
use kcatta.JobStore.Job.{Time, ScanJob, ScanResult, derive_mode, is_succeeded}
use kcatta.JobStore.Rows.{ok, ok-injective, HeadRow, Db, Repo, live, has_job_id}
use kcatta.JobStore.Control.{
  Observation, derived_job, derived_head, has_succeeded, write_derived, update_derived_result,
  is_unfinished,
}
use kcatta.JobStore.Inversion.Holder.{found_ok}
use kcatta.JobStore.Inversion.Worker.{write_derived_ok}
use kcatta.JobStore.Consistent.{Mirrors, IsConsistent, has_revision-job_id, written-IsConsistent}
use kcatta.JobStore.Exclusion.{IsExclusive, Continues, IsExclusive-Shrinks}
use kcatta.JobStore.Exclusion.Jobs.{written-Shrinks}

derived-Mirrors :
    (o : Observation) (now : Time) (job : ScanJob) (result : ScanResult) (bytes revision : ℕ)
    (row : HeadRow)
    → Mirrors row
    → job ≡ derive_mode (derived_job o now row.payload result)
    → is_succeeded row.payload.state ≡ true
    → Mirrors (derived_head job bytes now revision row)
unfolding derive_mode
derived-Mirrors o now job result bytes revision row m e s = ground arith

derived-Continues :
    (now at : Time) (job : ScanJob) (bytes revision : ℕ) (row : HeadRow)
    → Continues now row (derived_head job bytes at revision row)
unfolding live
derived-Continues now at job bytes revision row = record {
  job_id = refl;
  target_id = refl;
  lasts = λ e. e;
}

pub has_succeeded-job_id :
    (job_id : Text) (revision : ℕ) (h : HeadRow)
    → has_succeeded job_id revision h ≡ true
    → h.job_id ≡ job_id
unfolding has_succeeded
has_succeeded-job_id job_id revision h e = has_revision-job_id job_id revision h (ground arith)

-- `update_derived_result` returned: nothing was written, or the head of a succeeded job was.
pub record Observed (r : Repo) (job_id : Text) (o : Observation) (now : Time) (db db' : Db)
    : Type 0 where
  pub row : HeadRow
  pub member : Memᴰ row db.heads
  pub result : ScanResult
  pub succeeded : is_succeeded row.payload.state ≡ true
  pub answer : Option ScanJob
  pub written : write_derived r o now row result db ≡ ok (answer, db')

pub update_derived_result_ok :
    (r : Repo) (job_id : Text) (o : Observation) (now : Time) (db : Db) {answer : Option ScanJob}
    {db' : Db}
    → update_derived_result r job_id o now db ≡ ok (answer, db')
    → (db' ≡ db) ⊎ Observed r job_id o now db db'
unfolding update_derived_result
update_derived_result_ok r job_id o now db {answer} {db'} h =
    elim (Option-cases (find_where (has_job_id job_id) db.heads)) [
      | inl absent ↦
          let h1 = rw (absent, update_derived_result) at h in
          inl (ap (λ p. p.1) (ok-injective (sym h1)))
      | inr (row, found) ↦
          let h1 = rw (found, update_derived_result) at h in
          elim (Option-cases row.payload.result) [
            | inl nothing ↦ let h2 = rw nothing at h1 in inl (ap (λ p. p.1) (ok-injective (sym h2)))
            | inr (result, has) ↦
                let h2 = rw has at h1 in
                elim (Bool-cases
                  (is_succeeded row.payload.state && is_unfinished result.derived_state)) [
                    | inr finished ↦ inl (ap (λ p. p.1) (ok-injective (sym (rw finished at h2))))
                    | inl unfinished ↦ inr (record {
                      row = row;
                      member = (found_ok job_id db found).0;
                      result = result;
                      succeeded = ground arith;
                      answer = answer;
                      written = rw unfinished at h2;
                    })
                  ]
          ]
    ]

module _ (r : Repo) {now : Time} {db : Db} (c : IsConsistent db) (x : IsExclusive now db) where
  pub update_derived_result-keeps :
      (job_id : Text) (o : Observation) (at : Time) {answer : Option ScanJob} {db' : Db}
      → update_derived_result r job_id o at db ≡ ok (answer, db')
      → IsConsistent db' × IsExclusive now db'
  update_derived_result-keeps job_id o at h = elim (update_derived_result_ok r job_id o at db h) [
    | inl same ↦ rw same (c, x)
    | inr seen ↦
        let (job, _, w) = write_derived_ok r o at seen.row seen.result db seen.written in
        let of_row = has_succeeded-job_id seen.row.job_id seen.row.revision in
        (
          written-IsConsistent w c seen.member of_row (λ a. refl)
              (derived-Mirrors o at job seen.result w.bytes _ seen.row
                (c.mirrors seen.row seen.member) w.encoded seen.succeeded),
          IsExclusive-Shrinks
              (written-Shrinks w c seen.member of_row (λ a. refl) now
                (derived-Continues now at job w.bytes _ seen.row))
              x,
        )
  ]
