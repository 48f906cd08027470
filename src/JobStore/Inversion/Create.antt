-- ===== src/JobStore/Inversion/Create.antt =====
-- What `create` of form/src/kcatta_form/job_store.py has done where it returns.
use kcatta.Prelude.{
  ℕ, ◌≡◌, sym, ap, Bool, true, false, ◌⊎◌, inl, inr, Option, none, some, Text, Bool-cases,
  Option-cases, same_text?,
}
use kcatta.JobStore.Job.{ScanJob, derive_mode}
use kcatta.JobStore.Rows.{ok, ok_elim, ok-injective, HeadRow, Db, Repo, encode}
use kcatta.JobStore.Create.{checked_key, find_key, create}
use kcatta.JobStore.Inversion.{encode_ok}
use kcatta.JobStore.Inversion.Worker.{Inserted, insert_head_ok}

-- Either the head of the idempotency key was replayed, under the same fingerprint, or a new head was
-- inserted.
pub record Created (r : Repo) (job : ScanJob) (raw_key fingerprint : Option Text) (db : Db)
    (stored : ScanJob) (created : Bool) (db' : Db) : Type 0 where
  pub job' : ScanJob
  pub bytes : ℕ
  pub encoded : job' ≡ derive_mode job
  pub key : Option Text
  pub checked : checked_key raw_key fingerprint ≡ ok key
  pub outcome :
      ((row : HeadRow) × (find_key key db.heads ≡ some row)
        × (same_text? row.request_fingerprint fingerprint ≡ true)
        × (stored ≡ row.payload)
        × (created ≡ false)
        × (db' ≡ db))
      ⊎ ((find_key key db.heads ≡ none)
          × (stored ≡ job')
          × (created ≡ true)
          × Inserted r job' bytes key fingerprint db db')

pub create_ok :
    (r : Repo) (job : ScanJob) (raw_key fingerprint : Option Text) (db : Db) {stored : ScanJob}
    {created : Bool} {db' : Db}
    → create r job raw_key fingerprint db ≡ ok ((stored, created), db')
    → Created r job raw_key fingerprint db stored created db'
unfolding create
create_ok r job raw_key fingerprint db {stored} {created} {db'} h =
    ok_elim (encode r job) _ h λ encoded e h1.
      let (job', bytes) = encoded in
      ok_elim (checked_key raw_key fingerprint) _ h1 λ key e1 h2. record {
        job' = job';
        bytes = bytes;
        encoded = (encode_ok r job e).0;
        key = key;
        checked = e1;
        outcome = elim (Option-cases (find_key key db.heads)) [
          | inl absent ↦
              let (answer, done) =
                insert_head_ok r job' bytes key fingerprint db (rw absent at h2) in
              inr (absent, ap (λ p. p.0) answer, ap (λ p. p.1) answer, done)
          | inr (row, found) ↦
              let h3 = rw found at h2 in
              elim (Bool-cases (same_text? row.request_fingerprint fingerprint)) [
                | inl same ↦
                    let answer = ok-injective (sym (rw same at h3)) in
                    inl (
                      row,
                      found,
                      same,
                      ap (λ p. p.0.0) answer,
                      ap (λ p. p.0.1) answer,
                      ap (λ p. p.1) answer,
                    )
                | inr other ↦ absurd (let h4 = rw other at h3 in cc)
              ]
        ];
      }
