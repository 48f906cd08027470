-- ===== src/JobStore/Lease.antt =====
-- What the holder of a claim may do: `_leased_row`, `renew` and `complete` of
-- form/src/kcatta_form/job_store.py.
use kcatta.Prelude.{
  ℕ, ◌+◌, Bool, true, false, not, ◌&&◌, none, some, Text, ◌≟◌, is_text, ◌==◌, if◌then◌else◌,
  update_where, count_where, find_where, exists_where,
}
use kcatta.JobStore.Job.{
  Time, ScanJob, ScanJobState, pending, running, cancelling, failed, cancelled, is_cancelling,
  is_succeeded, is_guard, or_else,
}
use kcatta.JobStore.Rows.{
  Result, ok, err, ◌>>=◌, ◌>>◌, raise_if, value_error, lease_lost, HeadRow, Db, Repo, null_or_due,
  live, encode, event, stored, unleased,
}
use kcatta.JobStore.Claim.{ClaimedScanJob, operation_on}

-- The WHERE clause of `_leased_row`.
unfoldable pub owns : Repo → ClaimedScanJob → Time → Db → HeadRow → Bool
unfolding live operation_on exists_where ◌≟◌
owns r claim now db row =
    (row.job_id ≟ claim.job.job_id)
    && is_text row.lease_owner claim.lease_owner
    && is_text row.lease_token_hash (r.token_hash claim.lease_token)
    && (row.lease_epoch == claim.lease_epoch)
    && live now row
    && null_or_due row.heartbeat_at_us now
    && not (exists_where (operation_on now row.target_id) db.operations)

unfoldable pub leased_row : Repo → Db → ClaimedScanJob → Time → Result HeadRow
unfolding owns find_where
leased_row r db claim now = elim (find_where (owns r claim now db) db.heads) [
  | none ↦ err lease_lost
  | some row ↦ ok row
]

-- The WHERE clause of the update of `renew`.
unfoldable pub is_claimed : Repo → ClaimedScanJob → HeadRow → Bool
unfolding ◌≟◌
is_claimed r claim row =
    (row.job_id ≟ claim.job.job_id)
    && is_text row.lease_owner claim.lease_owner
    && is_text row.lease_token_hash (r.token_hash claim.lease_token)
    && (row.lease_epoch == claim.lease_epoch)

unfoldable pub renew : Repo → ClaimedScanJob → Time → Time → Db → Result (ClaimedScanJob × Db)
unfolding leased_row is_claimed count_where update_where
renew r claim now lease_ttl db = do
  raise_if (lease_ttl == 0) value_error
  let expires = now + lease_ttl
  row ← leased_row r db claim now
  let heads =
      update_where (is_claimed r claim)
        (λ h. record h { lease_expires_at_us = some expires; heartbeat_at_us = some now }) db.heads
  if count_where (is_claimed r claim) db.heads == 1
      then ok (
        record claim { job = row.payload; lease_expires_at = expires },
        record db { heads = heads },
      )
      else err lease_lost

abbrev pub may_complete_as : ScanJobState → Bool
may_complete_as pending = false
may_complete_as running = false
may_complete_as cancelling = false
may_complete_as _ = true

abbrev pub cancellation_terminal : ScanJobState → Bool
cancellation_terminal cancelled = true
cancellation_terminal failed = true
cancellation_terminal _ = false

abbrev pub has_result : ScanJob → Bool
has_result job = elim job.result [ none ↦ false | some _ ↦ true ]

abbrev pub acknowledged_result : ScanJob → Bool
acknowledged_result job = is_succeeded job.state && has_result job && not (is_guard job.capability)

-- The WHERE clause of the update of `complete`.
unfoldable pub has_lease : Repo → ClaimedScanJob → Text → HeadRow → Bool
unfolding ◌≟◌
has_lease r claim job_id row =
    (row.job_id ≟ job_id)
    && is_text row.lease_token_hash (r.token_hash claim.lease_token)
    && (row.lease_epoch == claim.lease_epoch)

abbrev pub completed_head : ScanJob → ℕ → Time → ℕ → HeadRow → HeadRow
completed_head job payload_bytes at revision h =
    unleased (record (stored job payload_bytes at revision h) {
      attempt = job.attempt;
      max_attempts = job.max_attempts;
    })

-- `operation_at` is `now`, or the clock where the caller gives none.
unfoldable pub complete : Repo → ClaimedScanJob → ScanJob → Time → Db → Result (ScanJob × Db)
unfolding encode leased_row has_lease event update_where ◌≟◌
complete r claim updated_job operation_at db = do
  (job, payload_bytes) ← encode r updated_job
  raise_if (not (job.job_id ≟ claim.job.job_id)) value_error
  raise_if (not (may_complete_as job.state)) value_error
  let at = or_else job.updated_at operation_at
  row ← leased_row r db claim operation_at
  raise_if
      (is_cancelling row.state
        && not (cancellation_terminal job.state)
        && not (acknowledged_result job))
      lease_lost
  let heads =
      update_where (has_lease r claim job.job_id)
        (completed_head job payload_bytes at (row.revision + 1)) db.heads
  done ← event r (record db { heads = heads }) job (row.revision + 1) at payload_bytes
  ok (job, done)
