-- ===== src/JobStore/Control.antt =====
-- What the operator and the reconciler do to a job: `request_cancel`, `manual_retry` and
-- `update_derived_result` of form/src/kcatta_form/job_store.py.
use kcatta.Prelude.{
  ℕ, ◌+◌, Bool, true, false, not, ◌&&◌, ◌||◌, Option, none, some, ◌++◌, Text, codes, is_empty, ◌==◌,
  if◌then◌else◌, update_where, count_where, find_where,
}
use kcatta.JobStore.Job.{
  Time, ScanJob, ScanJobState, pending, cancelling, cancelled, failed, ScanCapability, host,
  DerivedState, processing, complete, partial, ScanResult, is_waiting, is_terminal, is_cancelling,
  is_succeeded,
}
use kcatta.JobStore.Rows.{
  Result, ok, err, ◌>>=◌, ◌>>◌, raise_if, job_conflict, job_not_found, HeadRow, Db, Repo, encode,
  event, has_job_id, has_revision, stored, unleased,
}

unfoldable pub cancel_job : Time → ScanJob → ScanJob
cancel_job now job =
    let requested = record job { cancel_requested_at = some now; updated_at = some now } in
    if is_waiting job.state
    then record requested {
      state = cancelled;
      finished_at = some now;
      available_at = none;
      error = some (codes "scan cancelled by operator");
    }
    else record requested { state = cancelling }

-- The update and the event that end each of the two operations.
unfoldable pub write_head :
    Repo
    → (ScanJob → ℕ → ℕ → HeadRow → HeadRow)
    → ScanJob
    → Time
    → HeadRow
    → Db
    → Result (ScanJob × Db)
unfolding encode has_revision update_where event
write_head r columns changed now row db = do
  (job, payload_bytes) ← encode r changed
  let revision = row.revision + 1
  let heads =
      update_where (has_revision row.job_id row.revision) (columns job payload_bytes revision)
        db.heads
  done ← event r (record db { heads = heads }) job revision now payload_bytes
  ok (job, done)

abbrev pub cancelled_head : Time → ScanJob → ℕ → ℕ → HeadRow → HeadRow
cancelled_head now job payload_bytes revision h = stored job payload_bytes now revision h

unfoldable pub request_cancel : Repo → Text → Time → Db → Result (ScanJob × Db)
unfolding find_where has_job_id cancel_job write_head
request_cancel r job_id now db = elim (find_where (has_job_id job_id) db.heads) [
  | none ↦ err job_not_found
  | some row ↦
      let written = write_head r (cancelled_head now) (cancel_job now row.payload) now row db in
      if is_terminal row.payload.state || is_cancelling row.payload.state
      then ok (row.payload, db)
      else written
]

unfoldable pub retried_job : Time → ScanJob → ScanJob
retried_job now job = record job {
  state = pending;
  attempt = 0;
  available_at = some now;
  updated_at = some now;
  started_at = none;
  finished_at = none;
  cancel_requested_at = none;
  result = none;
  error = none;
}

abbrev pub may_retry : ScanJobState → Bool
may_retry failed = true
may_retry cancelled = true
may_retry _ = false

abbrev pub retried_head : Time → ScanJob → ℕ → ℕ → HeadRow → HeadRow
retried_head now job payload_bytes revision h =
    unleased (record (stored job payload_bytes now revision h) { attempt = job.attempt })

unfoldable pub manual_retry : Repo → Text → Time → Db → Result (ScanJob × Db)
unfolding find_where has_job_id retried_job write_head
manual_retry r job_id now db = elim (find_where (has_job_id job_id) db.heads) [
  | none ↦ err job_not_found
  | some row ↦
      let written = write_head r (retried_head now) (retried_job now row.payload) now row db in
      if not (may_retry row.payload.state) then err job_conflict else written
]

abbrev pub is_unfinished : Option DerivedState → Bool
is_unfinished none = false
is_unfinished (some DerivedState.pending) = true
is_unfinished (some processing) = true
is_unfinished (some _) = false

abbrev subject : ScanCapability → Text
subject host = codes "detection"
subject _ = codes "correlation"

abbrev reason_suffix : Option Text → Text
reason_suffix none = codes ""
reason_suffix (some reason) =
    if is_empty reason then codes "" else codes " (" ++ (reason ++ codes ")")

abbrev pub derived_detail : ScanCapability → DerivedState → Option Text → Text
derived_detail c complete reason =
    codes "artifact stored; Analyzer " ++ (subject c ++ codes " is complete")
derived_detail c partial reason =
    codes "artifact stored; Analyzer "
    ++ (subject c ++ (codes " is partial" ++ reason_suffix reason))
derived_detail c processing reason =
    codes "artifact stored; Analyzer " ++ (subject c ++ codes " is processing")
derived_detail c DerivedState.pending reason =
    codes "artifact stored; Analyzer " ++ (subject c ++ codes " is queued")

-- One observation of the Analyzer's work on an accepted artifact.
pub record Observation : Type 0 where
  pub state : DerivedState
  pub records : ℕ
  pub truncated : Bool
  pub reason : Option Text
  pub attempts : ℕ

abbrev pub derived_job : Observation → Time → ScanJob → ScanResult → ScanJob
derived_job o now job result = record job {
  result = some (record result {
    derived_state = some o.state;
    derived_records = o.records;
    derived_truncated = o.truncated;
    derived_reason = o.reason;
    derived_attempts = o.attempts;
    derived_updated_at = some now;
    detail = some (derived_detail job.capability o.state o.reason);
  });
  updated_at = some now;
}

-- WHERE job_id = ? AND revision = ? AND state = 'succeeded'
unfoldable pub has_succeeded : Text → ℕ → HeadRow → Bool
unfolding has_revision
has_succeeded job_id revision row = has_revision job_id revision row && is_succeeded row.state

abbrev pub derived_head : ScanJob → ℕ → Time → ℕ → HeadRow → HeadRow
derived_head job payload_bytes now revision h = record h {
  payload = job;
  payload_bytes = payload_bytes;
  updated_at_us = now;
  revision = revision;
}

unfoldable pub write_derived :
    Repo → Observation → Time → HeadRow → ScanResult → Db → Result (Option ScanJob × Db)
unfolding encode has_succeeded update_where count_where event
write_derived r o now row result db = do
  (job, payload_bytes) ← encode r (derived_job o now row.payload result)
  let revision = row.revision + 1
  let matching = has_succeeded row.job_id row.revision
  let heads = update_where matching (derived_head job payload_bytes now revision) db.heads
  raise_if (not (count_where matching db.heads == 1)) job_conflict
  done ← event r (record db { heads = heads }) job revision now payload_bytes
  ok (some job, done)

unfoldable pub update_derived_result :
    Repo → Text → Observation → Time → Db → Result (Option ScanJob × Db)
unfolding find_where has_job_id write_derived
update_derived_result r job_id o now db = elim (find_where (has_job_id job_id) db.heads) [
  | none ↦ ok (none, db)
  | some row ↦ elim row.payload.result [
    | none ↦ ok (some row.payload, db)
    | some result ↦
        let written = write_derived r o now row result db in
        if is_succeeded row.payload.state && is_unfinished result.derived_state
        then written
        else ok (some row.payload, db)
  ]
]
