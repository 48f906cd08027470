-- ===== src/JobStore/Reads.antt =====
-- The reads of form/src/kcatta_form/job_store.py: `list`, `list_derived_incomplete`, `history`,
-- `fingerprint` and `retains_artifact`.
use kcatta.Prelude.{
  ℕ, ◌+◌, Bool, false, ◌&&◌, ◌||◌, none, some, List, [], ◌∷◌, Text, ◌≟◌, is_empty, ◌==◌, length,
  take, map, reverse, select, find_where, sort_on,
}
use kcatta.JobStore.Job.{ScanJob, ScanJobState, is_active, is_waiting, is_succeeded}
use kcatta.JobStore.Rows.{HeadRow, EventRow, Db, has_job_id}
use kcatta.JobStore.Control.{is_unfinished}

abbrev pub state_code : ScanJobState → ℕ
state_code ScanJobState.pending = 0
state_code ScanJobState.retrying = 1
state_code ScanJobState.running = 2
state_code ScanJobState.cancelling = 3
state_code ScanJobState.succeeded = 4
state_code ScanJobState.failed = 5
state_code ScanJobState.cancelled = 6

unfoldable pub state_in : List ScanJobState → ScanJobState → Bool
state_in [] s = false
state_in (t ∷ ts) s = (state_code t == state_code s) || state_in ts s

abbrev pub creation_key : HeadRow → Text
creation_key row = row.created_at_us ∷ row.job_id

abbrev pub head_payload : HeadRow → ScanJob
head_payload row = row.payload

-- ORDER BY created_at_us DESC, job_id DESC LIMIT ?
unfoldable pub list_jobs : Db → ℕ → List ScanJobState → List ScanJob
unfolding select sort_on state_in
list_jobs db limit states = map head_payload (
    take limit (
      reverse (
        sort_on creation_key
          (select (λ row. is_empty states || state_in states row.state) db.heads))))

abbrev pub derived_incomplete : HeadRow → Bool
derived_incomplete row = elim row.payload.result [
  | none ↦ false
  | some result ↦ is_succeeded row.state && is_unfinished result.derived_state
]

abbrev pub update_key : HeadRow → Text
update_key row = row.updated_at_us ∷ row.job_id

-- ORDER BY updated_at_us ASC, job_id ASC LIMIT ?
unfoldable pub list_derived_incomplete : Db → ℕ → List ScanJob
unfolding select sort_on
list_derived_incomplete db limit =
    map head_payload (take limit (sort_on update_key (select derived_incomplete db.heads)))

abbrev event_key : EventRow → Text
event_key e = e.revision ∷ []

abbrev event_payload : EventRow → ScanJob
event_payload e = e.payload

-- ORDER BY revision DESC LIMIT ?
unfoldable pub history : Db → Text → ℕ → List ScanJob
unfolding select sort_on ◌≟◌
history db job_id limit =
    map event_payload
      (take limit (reverse (sort_on event_key (select (λ e. e.job_id ≟ job_id) db.events))))

unfoldable pub sum_revisions : List HeadRow → ℕ
sum_revisions [] = 0
sum_revisions (row ∷ rows) = row.revision + sum_revisions rows

-- COUNT(*), SUM(revision)
unfoldable pub fingerprint : Db → ℕ × ℕ
unfolding sum_revisions
fingerprint db = (length db.heads, sum_revisions db.heads)

unfoldable pub retains_artifact : Db → Text → Bool
unfolding find_where has_job_id
retains_artifact db job_id = elim (find_where (has_job_id job_id) db.heads) [
  | none ↦ false
  | some row ↦ is_waiting row.state || is_active row.state
]
