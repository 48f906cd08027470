-- ===== src/JobStore/Inversion/Holder.antt =====
-- What `complete`, `renew`, `request_cancel`, `manual_retry` and `update_derived_result` of
-- form/src/kcatta_form/job_store.py have done where they return.
use kcatta.Prelude.{
  ℕ, ◌+◌, ◌≡◌, refl, sym, ap, true, false, not, ◌&&◌, ◌||◌, ◌⊎◌, inl, inr, some, Memᴰ, arith, Text,
  ◌≟◌, ≟_iff, ◌==◌, Bool-cases, Option-cases, update_where, count_where, find_where,
  find_where-some,
}
use kcatta.JobStore.Job.{Time, ScanJob, or_else, is_terminal, is_cancelling}
use kcatta.JobStore.Rows.{
  ok, ok_elim, ok-injective, >>-eq-ok, value_error, lease_lost, HeadRow, Db, Repo, encode, event,
  has_job_id, has_revision,
}
use kcatta.JobStore.Claim.{ClaimedScanJob}
use kcatta.JobStore.Lease.{
  owns, leased_row, is_claimed, renew, has_lease, may_complete_as, cancellation_terminal,
  acknowledged_result, completed_head, complete,
}
use kcatta.JobStore.Control.{
  cancel_job, cancelled_head, request_cancel, retried_job, may_retry, retried_head, manual_retry,
}
use kcatta.JobStore.Inversion.{Written, rewritten, Written-of_ok, write_head_ok}

pub found_ok :
    (job_id : Text) (db : Db) {row : HeadRow}
    → find_where (has_job_id job_id) db.heads ≡ some row
    → Memᴰ row db.heads × (row.job_id ≡ job_id)
unfolding has_job_id
found_ok job_id db {row} e =
    let (m, q) = find_where-some (has_job_id job_id) db.heads e in
    (m, (≟_iff row.job_id job_id).0 q)

pub leased_row_ok :
    (r : Repo) (db : Db) (claim : ClaimedScanJob) (now : Time) {row : HeadRow}
    → leased_row r db claim now ≡ ok row
    → Memᴰ row db.heads × (owns r claim now db row ≡ true)
unfolding leased_row
leased_row_ok r db claim now {row} h =
    elim (Option-cases (find_where (owns r claim now db) db.heads)) [
      | inl e ↦ absurd (ground arith)
      | inr (found, e) ↦
          let same : row ≡ found = ground arith in
          find_where-some (owns r claim now db) db.heads (rw same e)
    ]

-- `complete` returned: the caller held the lease, and the head was rewritten.
pub record Completed (r : Repo) (claim : ClaimedScanJob) (updated : ScanJob) (now : Time) (db : Db)
    (job : ScanJob) (db' : Db) : Type 0 where
  pub row : HeadRow
  pub member : Memᴰ row db.heads
  pub owned : owns r claim now db row ≡ true
  pub same_id : job.job_id ≡ claim.job.job_id
  pub allowed : may_complete_as job.state ≡ true
  pub not_cancelled :
      (is_cancelling row.state
        && not (cancellation_terminal job.state)
        && not (acknowledged_result job))
      ≡ false
  pub written :
      Written r
        (has_lease r claim job.job_id)
        (λ j b. completed_head j b (or_else job.updated_at now))
        updated
        (or_else job.updated_at now)
        row
        db
        job
        db'

pub complete_ok :
    (r : Repo) (claim : ClaimedScanJob) (updated : ScanJob) (now : Time) (db : Db) {job : ScanJob}
    {db' : Db}
    → complete r claim updated now db ≡ ok (job, db')
    → Completed r claim updated now db job db'
unfolding complete
complete_ok r claim updated now db {job} {db'} h = ok_elim (encode r updated) _ h λ encoded e h'.
    let (job', bytes) = encoded in
    let at = or_else job'.updated_at now in
    let (same_id, h2) = >>-eq-ok (not (job'.job_id ≟ claim.job.job_id)) value_error _ h' in
    let (allowed, h3) = >>-eq-ok (not (may_complete_as job'.state)) value_error _ h2 in
    ok_elim (leased_row r db claim now) _ h3 λ row e2 h4.
      let lost =
        is_cancelling row.state
        && not (cancellation_terminal job'.state)
        && not (acknowledged_result job') in
      let (won, h5) = >>-eq-ok lost lease_lost _ h4 in
      let matching = has_lease r claim job'.job_id in
      let columns = λ (j : ScanJob) (b : ℕ). completed_head j b at in
      let written = rewritten r matching columns updated at row db job' bytes in
      ok_elim (event r written job' (row.revision + 1) at bytes) _ h5 λ done e3 h6.
        let same = ok-injective (sym h6) in
        let (member, owned) = leased_row_ok r db claim now {row = row} e2 in
        rw (ap (λ p. p.0) same, ap (λ p. p.1) same)
          (record {
            row = row;
            member = member;
            owned = owned;
            same_id = (≟_iff job'.job_id claim.job.job_id).0 (ground arith);
            allowed = ground arith;
            not_cancelled = won;
            written = Written-of_ok r matching columns updated at row db job' bytes e e3;
          })

-- `renew` returned: the caller held the lease, and only the deadline and the heartbeat moved.
pub record Renewed (r : Repo) (claim : ClaimedScanJob) (now ttl : Time) (db : Db)
    (claim' : ClaimedScanJob) (db' : Db) : Type 0 where
  pub row : HeadRow
  pub member : Memᴰ row db.heads
  pub owned : owns r claim now db row ≡ true
  pub heads :
      db'.heads
      ≡ update_where
          (is_claimed r claim)
          (λ h. record h { lease_expires_at_us = some (now + ttl); heartbeat_at_us = some now })
          db.heads
  pub operations : db'.operations ≡ db.operations
  pub events : db'.events ≡ db.events

pub renew_ok :
    (r : Repo) (claim : ClaimedScanJob) (now ttl : Time) (db : Db) {claim' : ClaimedScanJob}
    {db' : Db}
    → renew r claim now ttl db ≡ ok (claim', db')
    → Renewed r claim now ttl db claim' db'
unfolding renew
renew_ok r claim now ttl db h =
    let (positive, h1) = >>-eq-ok (ttl == 0) value_error _ h in
    ok_elim (leased_row r db claim now) _ h1 λ row e h2.
      let (member, owned) = leased_row_ok r db claim now e in
      elim (Bool-cases (count_where (is_claimed r claim) db.heads == 1)) [
        | inl one ↦
            let same = ok-injective (rw one at h2) in
            rw (← ap (λ p. p.1) same) (record {
              row = row;
              member = member;
              owned = owned;
              heads = refl;
              operations = refl;
              events = refl;
            })
        | inr other ↦ absurd (let e2 = rw other at h2 in cc)
      ]

-- `request_cancel` returned: the job was final already, or its head was rewritten.
pub record Cancelled (r : Repo) (job_id : Text) (now : Time) (db : Db) (job : ScanJob) (db' : Db)
    : Type 0 where
  pub row : HeadRow
  pub member : Memᴰ row db.heads
  pub same_id : row.job_id ≡ job_id
  pub outcome :
      ((is_terminal row.payload.state || is_cancelling row.payload.state) ≡ true)
        × (job ≡ row.payload)
        × (db' ≡ db)
      ⊎ ((is_terminal row.payload.state || is_cancelling row.payload.state) ≡ false)
        × Written r
            (has_revision row.job_id row.revision)
            (cancelled_head now)
            (cancel_job now row.payload)
            now
            row
            db
            job
            db'

pub request_cancel_ok :
    (r : Repo) (job_id : Text) (now : Time) (db : Db) {job : ScanJob} {db' : Db}
    → request_cancel r job_id now db ≡ ok (job, db')
    → Cancelled r job_id now db job db'
unfolding request_cancel
request_cancel_ok r job_id now db {job} {db'} h =
    elim (Option-cases (find_where (has_job_id job_id) db.heads)) [
      | inl e ↦ absurd (let h' = rw (e, request_cancel) at h in cc)
      | inr (row, e) ↦
          let (member, same_id) = found_ok job_id db e in
          let h' = rw (e, request_cancel) at h in
          record {
            row = row;
            member = member;
            same_id = same_id;
            outcome =
                elim (Bool-cases
                  (is_terminal row.payload.state || is_cancelling row.payload.state)) [
                    | inl final ↦
                        let same = ok-injective (sym (rw final at h')) in
                        inl (final, ap (λ p. p.0) same, ap (λ p. p.1) same)
                    | inr open_job ↦ inr (
                      open_job,
                      write_head_ok r (cancelled_head now) (cancel_job now row.payload) now row db
                          (rw open_job at h'),
                    )
                  ];
          }
    ]

pub record Retried (r : Repo) (job_id : Text) (now : Time) (db : Db) (job : ScanJob) (db' : Db)
    : Type 0 where
  pub row : HeadRow
  pub member : Memᴰ row db.heads
  pub same_id : row.job_id ≡ job_id
  pub allowed : may_retry row.payload.state ≡ true
  pub written :
      Written r
        (has_revision row.job_id row.revision)
        (retried_head now)
        (retried_job now row.payload)
        now
        row
        db
        job
        db'

pub manual_retry_ok :
    (r : Repo) (job_id : Text) (now : Time) (db : Db) {job : ScanJob} {db' : Db}
    → manual_retry r job_id now db ≡ ok (job, db')
    → Retried r job_id now db job db'
unfolding manual_retry
manual_retry_ok r job_id now db {job} {db'} h =
    elim (Option-cases (find_where (has_job_id job_id) db.heads)) [
      | inl e ↦ absurd (let h' = rw (e, manual_retry) at h in cc)
      | inr (row, e) ↦
          let (member, same_id) = found_ok job_id db e in
          let h' = rw (e, manual_retry) at h in
          elim (Bool-cases (may_retry row.payload.state)) [
            | inl allowed ↦ record {
              row = row;
              member = member;
              same_id = same_id;
              allowed = allowed;
              written =
                  write_head_ok r (retried_head now) (retried_job now row.payload) now row db
                    (rw allowed at h');
            }
            | inr refused ↦ absurd (let h2 = rw refused at h' in cc)
          ]
    ]
