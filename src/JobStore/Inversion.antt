-- ===== src/JobStore/Inversion.antt =====
-- What a successful step of form/src/kcatta_form/job_store.py has done: the database that it
-- commits, with the encoding and the event log taken apart.
pub mod Holder
pub mod Worker
pub mod Create
use kcatta.Prelude.{
  ℕ, ◌+◌, ◌-◌, ◌≤◌, ◌≡◌, refl, ap, sym, ◌∙◌, Bool, true, false, ◌⊎◌, inl, inr, Option, none, some,
  List, [], ◌∷◌, ◌++◌, Memᴰ, head, tail, arith, Text, ◌==◌, length, drop, Memᴰ-drop, exists_where,
  update_where, Bool-cases, ≟_iff, ◌≟◌, if◌then◌else◌, leb, ltb,
}
use mathlib.Core.List.Memᴰ
use kcatta.JobStore.Job.{Time, ScanJob, derive_mode}
use kcatta.JobStore.Rows.{
  Result, ok, err, ◌>>=◌, ok_elim, ok-injective, HeadRow, EventRow, Db, Repo, encode, event,
  trim_history, is_event, has_revision,
}
use kcatta.JobStore.Control.{write_head}

pub encode_ok :
    (r : Repo) (job : ScanJob) {job' : ScanJob} {bytes : ℕ}
    → encode r job ≡ ok (job', bytes)
    → (job' ≡ derive_mode job) × (1 ≤ job.max_attempts) × (job.max_attempts ≤ 20)
unfolding encode
encode_ok r job h = ground arith

abbrev pub new_event : ScanJob → ℕ → Time → ℕ → EventRow
new_event job revision at payload_bytes = record {
  job_id = job.job_id;
  revision = revision;
  state = job.state;
  at_us = at;
  payload = job;
  payload_bytes = payload_bytes;
}

-- A logged event changes neither of the other tables, and what the log holds was there or is new.
pub record Logged (r : Repo) (db : Db) (e : EventRow) (db' : Db) : Type 0 where
  pub heads : db'.heads ≡ db.heads
  pub operations : db'.operations ≡ db.operations
  pub fresh : exists_where (is_event e.job_id e.revision) db.events ≡ false
  pub events : db'.events ≡ trim_history r.max_history (db.events ++ e ∷ [])

pub event_ok :
    (r : Repo) (db : Db) (job : ScanJob) (revision : ℕ) (at : Time) (bytes : ℕ) {db' : Db}
    → event r db job revision at bytes ≡ ok db'
    → Logged r db (new_event job revision at bytes) db'
unfolding event
event_ok r db job revision at bytes h = ground arith

-- A committed write of one head: the rows that match are rewritten from the encoded job, and the
-- write is logged under the revision after the one that was read.
pub record Written (r : Repo) (matching : HeadRow → Bool)
    (columns : ScanJob → ℕ → ℕ → HeadRow → HeadRow) (changed : ScanJob) (at : Time) (row : HeadRow)
    (db : Db) (job : ScanJob) (db' : Db) : Type 0 where
  pub bytes : ℕ
  pub encoded : job ≡ derive_mode changed
  pub heads : db'.heads ≡ update_where matching (columns job bytes (row.revision + 1)) db.heads
  pub operations : db'.operations ≡ db.operations
  pub fresh : exists_where (is_event job.job_id (row.revision + 1)) db.events ≡ false
  pub events :
      db'.events
      ≡ trim_history r.max_history (db.events ++ new_event job (row.revision + 1) at bytes ∷ [])

module _ (r : Repo) (matching : HeadRow → Bool) (columns : ScanJob → ℕ → ℕ → HeadRow → HeadRow)
    (changed : ScanJob) (at : Time) (row : HeadRow) (db : Db) where
  abbrev pub rewritten : ScanJob → ℕ → Db
  rewritten job bytes = record db {
    heads = update_where matching (columns job bytes (row.revision + 1)) db.heads;
  }

  pub Written-of_ok :
      (job : ScanJob) (bytes : ℕ) {db' : Db}
      → encode r changed ≡ ok (job, bytes)
      → event r (rewritten job bytes) job (row.revision + 1) at bytes ≡ ok db'
      → Written r matching columns changed at row db job db'
  Written-of_ok job bytes e e' =
      let logged = event_ok r (rewritten job bytes) job (row.revision + 1) at bytes e' in
      record {
        bytes = bytes;
        encoded = (encode_ok r changed e).0;
        heads = logged.heads;
        operations = logged.operations;
        fresh = logged.fresh;
        events = logged.events;
      }

pub write_head_ok :
    (r : Repo) (columns : ScanJob → ℕ → ℕ → HeadRow → HeadRow) (changed : ScanJob) (now : Time)
    (row : HeadRow) (db : Db) {job : ScanJob} {db' : Db}
    → write_head r columns changed now row db ≡ ok (job, db')
    → Written r (has_revision row.job_id row.revision) columns changed now row db job db'
unfolding write_head
write_head_ok r columns changed now row db {job} {db'} h =
    ok_elim (encode r changed) _ h λ encoded e h'.
      let (job', bytes) = encoded in
      let matching = has_revision row.job_id row.revision in
      let written = rewritten r matching columns changed now row db job' bytes in
      ok_elim (event r written job' (row.revision + 1) now bytes) _ h' λ done e' h''.
        let same = ok-injective (sym h'') in
        rw (ap (λ p. p.0) same, ap (λ p. p.1) same)
          (Written-of_ok r matching columns changed now row db job' bytes e e')
