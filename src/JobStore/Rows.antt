-- ===== src/JobStore/Rows.antt =====
-- The tables of the scan-job database and what every operation does with them
-- (form/src/kcatta_form/job_store.py). An operation is a function of the database: its result with
-- the database that it commits, or the exception, after which the transaction is rolled back.
use kcatta.Prelude.{
  ℕ, ◌-◌, Bool, true, false, not, ◌&&◌, Option, none, some, List, [], ◌∷◌, ◌++◌, Text, ◌≟◌, ltb,
  leb, ◌==◌, if◌then◌else◌, length, drop, exists_where,
}
pub use kcatta.Prelude.{ok, err, ◌>>=◌, ◌>>◌, raise_if, ok-injective, ok_elim, >>-eq-ok}
use kcatta.Prelude.{Outcome}
use kcatta.JobStore.Job.{Time, ScanJob, ScanJobState, derive_mode, is_active}

-- The exceptions: StorageCapacityError, JobConflictError, JobNotFoundError, LeaseLostError,
-- ValueError, RuntimeError, pydantic's ValidationError, sqlite3.IntegrityError.
pub data Error : Type 0 where
  storage_capacity job_conflict job_not_found lease_lost : Error
  value_error runtime_error validation_error integrity_error : Error

-- An exception, or the value of a call that returns.
abbrev pub Result {v} : Type v → Type v
Result = Outcome Error

-- scan_job_heads. The payload is the job that its JSON text reads back to.
pub record HeadRow : Type 0 where
  pub job_id : Text
  pub payload : ScanJob
  pub payload_bytes : ℕ
  pub state : ScanJobState
  pub target_id : Text
  pub created_at_us : Time
  pub updated_at_us : Time
  pub available_at_us : Option Time
  pub attempt : ℕ
  pub max_attempts : ℕ
  pub revision : ℕ
  pub lease_owner : Option Text
  pub lease_token_hash : Option Text
  pub lease_epoch : ℕ
  pub lease_expires_at_us : Option Time
  pub heartbeat_at_us : Option Time
  pub idempotency_key : Option Text
  pub request_fingerprint : Option Text

-- target_operation_leases
pub record OperationRow : Type 0 where
  pub target_id : Text
  pub lease_owner : Text
  pub lease_token_hash : Text
  pub lease_expires_at_us : Time

-- scan_job_events; the table is in the order of the autoincremented ids.
pub record EventRow : Type 0 where
  pub job_id : Text
  pub revision : ℕ
  pub state : ScanJobState
  pub at_us : Time
  pub payload : ScanJob
  pub payload_bytes : ℕ

pub record Db : Type 0 where
  pub heads : List HeadRow
  pub operations : List OperationRow
  pub events : List EventRow

-- The repository's limits, with what is not the program's own: the size of a job's JSON text
-- (pydantic) and SHA-256.
pub record Repo : Type 0 where
  pub max_record_bytes : ℕ
  pub max_jobs : ℕ
  pub max_history : ℕ
  pub json_bytes : ScanJob → ℕ
  pub token_hash : Text → Text

-- `expires > now`, false where the column is NULL.
abbrev pub after : Option Time → Time → Bool
after none now = false
after (some e) now = ltb now e

-- `column IS NULL OR column <= now`
abbrev pub null_or_due : Option Time → Time → Bool
null_or_due none now = true
null_or_due (some t) now = leb t now

-- The row's lease has not expired.
unfoldable pub live : Time → HeadRow → Bool
live now row = is_active row.state && after row.lease_expires_at_us now

unfoldable pub encode : Repo → ScanJob → Result (ScanJob × ℕ)
unfolding derive_mode
encode r job =
    let validated = derive_mode job in
    let payload_bytes = r.json_bytes validated in
    if not (leb 1 job.max_attempts && leb job.max_attempts 20)
    then err validation_error
    else if not (r.max_record_bytes == 0) && ltb r.max_record_bytes payload_bytes
    then err storage_capacity
    else ok (validated, payload_bytes)

unfoldable pub trim_history : ℕ → List EventRow → List EventRow
trim_history max_history events =
    if max_history == 0 then events else drop (length events - max_history) events

unfoldable pub is_event : Text → ℕ → EventRow → Bool
is_event job_id revision e = (e.job_id ≟ job_id) && (e.revision == revision)

-- `UNIQUE(job_id, revision)` of the events refuses a second row for one revision.
unfoldable pub event : Repo → Db → ScanJob → ℕ → Time → ℕ → Result Db
unfolding trim_history is_event exists_where ◌≟◌
event r db job revision at payload_bytes =
    if exists_where (is_event job.job_id revision) db.events
    then err integrity_error
    else ok (record db {
      events = trim_history r.max_history (
          db.events
          ++ record {
            job_id = job.job_id;
            revision = revision;
            state = job.state;
            at_us = at;
            payload = job;
            payload_bytes = payload_bytes;
          }
            ∷ []);
    })

-- WHERE job_id = ?
unfoldable pub has_job_id : Text → HeadRow → Bool
unfolding ◌≟◌
has_job_id job_id row = row.job_id ≟ job_id

-- WHERE job_id = ? AND revision = ?
unfoldable pub has_revision : Text → ℕ → HeadRow → Bool
unfolding ◌≟◌
has_revision job_id revision row = (row.job_id ≟ job_id) && (row.revision == revision)

-- The columns that every write of a job sets from the job.
abbrev pub stored : ScanJob → ℕ → Time → ℕ → HeadRow → HeadRow
stored job payload_bytes at revision row = record row {
  payload = job;
  payload_bytes = payload_bytes;
  state = job.state;
  updated_at_us = at;
  available_at_us = job.available_at;
  revision = revision;
}

-- The lease columns set to NULL; the epoch stays.
abbrev pub unleased : HeadRow → HeadRow
unleased row = record row {
  lease_owner = none;
  lease_token_hash = none;
  lease_expires_at_us = none;
  heartbeat_at_us = none;
}
