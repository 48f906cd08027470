-- ===== src/JobStore/Claim.antt =====
-- `_fail_exhausted` and `claim_next` of form/src/kcatta_form/job_store.py.
use kcatta.Prelude.{
  ℕ, ◌+◌, Bool, not, ◌&&◌, ◌||◌, Option, none, some, List, [], ◌∷◌, Text, ◌≟◌, codes, is_empty,
  text_in, ltb, leb, ◌==◌, if◌then◌else◌, select, update_where, count_where, exists_where, sort_on,
}
use kcatta.JobStore.Job.{
  Time, ScanJob, ScanJobState, running, cancelling, failed, is_active, is_waiting, is_running,
  is_cancelling, first_some, or_else,
}
use kcatta.JobStore.Rows.{
  Result, ok, ◌>>=◌, ◌>>◌, raise_if, value_error, runtime_error, HeadRow, OperationRow, Db, Repo,
  null_or_due, live, encode, event, has_revision, stored, unleased,
}

-- A waiting job that is due and has used its attempts.
unfoldable pub exhausted : Time → HeadRow → Bool
exhausted now row =
    leb row.max_attempts row.attempt && is_waiting row.state && null_or_due row.available_at_us now

unfoldable pub failed_job : Time → ScanJob → ScanJob
failed_job now job = record job {
  state = failed;
  error = some (codes "scan exhausted its configured execution attempts");
  available_at = none;
  finished_at = some now;
  updated_at = some now;
}

-- One round of the loop of `_fail_exhausted`.
unfoldable pub fail_row : Repo → Time → HeadRow → Db → Result Db
unfolding encode event failed_job has_revision update_where
fail_row r now row db = do
  (job, payload_bytes) ← encode r (failed_job now row.payload)
  let revision = row.revision + 1
  let heads =
      update_where (has_revision job.job_id row.revision)
        (λ h.
          unleased (record (stored job payload_bytes now revision h) { available_at_us = none }))
        db.heads
  event r (record db { heads = heads }) job revision now payload_bytes

unfoldable pub fail_rows : Repo → Time → List HeadRow → Db → Result Db
unfolding fail_row
fail_rows r now [] db = ok db
fail_rows r now (row ∷ rows) db = do db' ← fail_row r now row db; fail_rows r now rows db'

unfoldable pub fail_exhausted : Repo → Time → Db → Result Db
unfolding fail_rows exhausted select
fail_exhausted r now db = fail_rows r now (select (exhausted now) db.heads) db

-- DELETE FROM target_operation_leases WHERE lease_expires_at_us <= now
unfoldable pub expire_operations : Time → Db → Db
unfolding select
expire_operations now db = record db {
  operations = select (λ o. not (leb o.lease_expires_at_us now)) db.operations;
}

-- Another job of the target is running under a lease that has not expired.
unfoldable pub target_busy : Time → HeadRow → HeadRow → Bool
unfolding live ◌≟◌
target_busy now candidate other =
    (other.target_id ≟ candidate.target_id)
    && not (other.job_id ≟ candidate.job_id)
    && live now other

unfoldable pub operation_on : Time → Text → OperationRow → Bool
unfolding ◌≟◌
operation_on now target_id o = (o.target_id ≟ target_id) && ltb now o.lease_expires_at_us

abbrev claimable_state : Time → HeadRow → Bool
claimable_state now row =
    (is_waiting row.state
      && ltb row.attempt row.max_attempts
      && null_or_due row.available_at_us now)
    || (is_active row.state && null_or_due row.lease_expires_at_us now)

-- The WHERE clause of the claim.
unfoldable pub claimable : Time → List Text → Db → HeadRow → Bool
unfolding target_busy operation_on exists_where text_in
claimable now exclude db row =
    claimable_state now row
    && not (exists_where (target_busy now row) db.heads)
    && not (exists_where (operation_on now row.target_id) db.operations)
    && not (text_in row.job_id exclude)

abbrev claim_rank : ScanJobState → ℕ
claim_rank cancelling = 0
claim_rank running = 1
claim_rank _ = 2

-- The ORDER BY clause of the claim.
abbrev pub claim_key : HeadRow → Text
claim_key row =
    claim_rank row.state
    ∷ or_else row.available_at_us row.created_at_us
    ∷ row.created_at_us
    ∷ row.job_id

abbrev pub first_of_list : List HeadRow → Option HeadRow
first_of_list [] = none
first_of_list (row ∷ rows) = some row

-- The row that the SELECT of the claim returns.
unfoldable pub candidate : Time → List Text → Db → Option HeadRow
unfolding claimable select sort_on
candidate now exclude db =
    first_of_list (sort_on claim_key (select (claimable now exclude db) db.heads))

unfoldable pub claimed_job : Time → ScanJob → ScanJob
claimed_job now job =
    let reconciliation_only = is_running job.state && leb job.max_attempts job.attempt in
    if is_cancelling job.state then record job { updated_at = some now } else record job {
      state = running;
      attempt = if reconciliation_only then job.max_attempts + 1 else job.attempt + 1;
      started_at = first_some job.started_at now;
      available_at = none;
      error = none;
      updated_at = some now;
    }

pub record ClaimedScanJob : Type 0 where
  pub job : ScanJob
  pub lease_token : Text
  pub lease_epoch : ℕ
  pub lease_owner : Text
  pub lease_expires_at : Time

-- The columns that the claim writes.
abbrev pub leased_head :
    Repo → Text → Text → Time → Time → ScanJob → ℕ → HeadRow → HeadRow → HeadRow
leased_head r worker_id token now expires job payload_bytes row h =
    record (stored job payload_bytes now (row.revision + 1) h) {
      attempt = job.attempt;
      max_attempts = job.max_attempts;
      lease_owner = some worker_id;
      lease_token_hash = some (r.token_hash token);
      lease_epoch = row.lease_epoch + 1;
      lease_expires_at_us = some expires;
      heartbeat_at_us = some now;
    }

unfoldable pub claim_row :
    Repo → Text → Time → Time → Text → HeadRow → Db → Result (Option ClaimedScanJob × Db)
unfolding claimed_job encode event has_revision update_where count_where
claim_row r worker_id now lease_ttl token row db = do
  (job, payload_bytes) ← encode r (claimed_job now row.payload)
  raise_if (is_empty token) runtime_error
  let expires = now + lease_ttl
  let matching = has_revision job.job_id row.revision
  let heads =
      update_where matching (leased_head r worker_id token now expires job payload_bytes row)
        db.heads
  let logged = event r (record db { heads = heads }) job (row.revision + 1) now payload_bytes
  let claim : ClaimedScanJob = record {
    job = job;
    lease_token = token;
    lease_epoch = row.lease_epoch + 1;
    lease_owner = worker_id;
    lease_expires_at = expires;
  }
  if count_where matching db.heads == 1
      then (do done ← logged; ok (some claim, done))
      else ok (none, record db { heads = heads })

-- `token` is what the token factory returns if it is called.
unfoldable pub claim_next :
    Repo → Text → Time → Time → ℕ → List Text → Text → Db → Result (Option ClaimedScanJob × Db)
unfolding fail_exhausted expire_operations count_where live candidate claim_row
claim_next r worker_id now lease_ttl max_running exclude token db = do
  raise_if (is_empty worker_id || (max_running == 0) || (lease_ttl == 0)) value_error
  failed_db ← fail_exhausted r now db
  let swept = expire_operations now failed_db
  if leb max_running (count_where (live now) swept.heads)
      then ok (none, swept)
      else elim (candidate now exclude swept) [
        | none ↦ ok (none, swept)
        | some row ↦ claim_row r worker_id now lease_ttl token row swept
      ]
