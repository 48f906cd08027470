-- ===== src/JobStore/Promises/Grants.antt =====
-- What a claim granted by `claim_next` of form/src/kcatta_form/job_store.py is good for.
use kcatta.Prelude.{
  ℕ, ◌+◌, ◌≤◌, ◌<◌, ◌≡◌, refl, sym, ◌∙◌, ap, true, false, ◌||◌, some, List, Memᴰ, arith, Text,
  ≟_refl, is_empty, leb, ◌==◌, exists_where, update_where_hit, IsKeyed-unique, count_where,
  count_where-update_where, ==_iff, ◌≢◌,
}
use kcatta.JobStore.Job.{Time, ScanJob, derive_mode, is_active}
use kcatta.JobStore.Rows.{ok, >>-eq-ok, value_error, HeadRow, Db, Repo, live, has_revision}
use kcatta.JobStore.Create.{head_job_id}
use kcatta.JobStore.Claim.{
  claimed_job, ClaimedScanJob, claim_next, claimable, operation_on, expire_operations,
}
use kcatta.JobStore.Lease.{owns, renew, complete}
use kcatta.JobStore.Inversion.Worker.{claim_next_ok, claimed_head}
use kcatta.JobStore.Consistent.{IsConsistent}
use kcatta.JobStore.Consistent.Claim.{
  candidate-IsCandidate, claimed-same_id, claimed_row, expire-IsConsistent,
}
use kcatta.JobStore.Exclusion.Polls.{has_revision_self}
use kcatta.JobStore.Lifecycle.Calls.{swept-Advanced, swept_heads}
use kcatta.JobStore.Reach.{Call, IsSound, Call-IsSound}
use kcatta.JobStore.Fencing.{Run, owns-epoch, superseded-refused}

not_leb : (a b : ℕ) → leb a b ≡ false → b < a
not_leb a b h = ground arith

claimed_job-active :
    (now : Time) (payload : ScanJob)
    → is_active (derive_mode (claimed_job now payload)).state ≡ true
unfolding derive_mode claimed_job
claimed_job-active now payload = ground arith

claimable-free :
    (now : Time) (exclude : List Text) (db : Db) (row : HeadRow)
    → claimable now exclude db row ≡ true
    → exists_where (operation_on now row.target_id) db.operations ≡ false
unfolding claimable
claimable-free now exclude db row h = ground arith

owns_of_parts :
    (r : Repo) (claim : ClaimedScanJob) (now expires : Time) (db : Db) (row : HeadRow)
    → row.job_id ≡ claim.job.job_id
    → row.lease_owner ≡ some claim.lease_owner
    → row.lease_token_hash ≡ some (r.token_hash claim.lease_token)
    → row.lease_epoch ≡ claim.lease_epoch
    → is_active row.state ≡ true
    → row.lease_expires_at_us ≡ some expires
    → now < expires
    → row.heartbeat_at_us ≡ some now
    → exists_where (operation_on now row.target_id) db.operations ≡ false
    → owns r claim now db row ≡ true
unfolding owns live
owns_of_parts r claim now expires db row a b c d e f g h i =
    rw
      (
        a,
        b,
        c,
        d,
        e,
        f,
        h,
        i,
        ≟_refl claim.job.job_id,
        ≟_refl claim.lease_owner,
        ≟_refl (r.token_hash claim.lease_token),
      )
      (ground arith)

-- The head of the claimed job after the claim: `_leased_row` finds it for the claim, its lease lasts as
-- long as the claim says, it holds the claimed job, and its epoch is above the epoch of every head that
-- the job had.
pub record Granted (r : Repo) (now : Time) (db : Db) (claim : ClaimedScanJob) (db' : Db)
    : Type 0 where
  pub row : HeadRow
  pub member : Memᴰ row db'.heads
  pub owned : owns r claim now db' row ≡ true
  pub lasts : row.lease_expires_at_us ≡ some claim.lease_expires_at
  pub payload : row.payload ≡ claim.job
  pub state : row.state ≡ claim.job.state
  pub later :
      (a : HeadRow)
      → Memᴰ a db.heads
      → a.job_id ≡ claim.job.job_id
      → a.lease_epoch < row.lease_epoch

positive : (n : ℕ) → (n == 0) ≡ false → (now : ℕ) → now < now + n
positive n h now = ground arith

claimed_head-Granted :
    (r : Repo) (worker : Text) (now ttl : Time) (max_running : ℕ) (exclude : List Text)
    (token : Text) (db : Db) (claim : ClaimedScanJob) (db' : Db)
    → IsConsistent db
    → claim_next r worker now ttl max_running exclude token db ≡ ok (some claim, db')
    → Granted r now db claim db' × (claim.lease_expires_at ≡ now + ttl)
unfolding claim_next
claimed_head-Granted r worker now ttl max_running exclude token db claim db' c h =
    let polled = claim_next_ok r worker now ttl max_running exclude token db h in
    let (valid, _) =
      >>-eq-ok (is_empty worker || (max_running == 0) || (ttl == 0)) value_error _ h in
    let (c1, advanced) = swept-Advanced r now c polled.swept polled.failed in
    let c2 = expire-IsConsistent now c1 in
    let swept = expire_operations now polled.swept in
    let chosen = candidate-IsCandidate now exclude swept polled.chosen in
    let done = polled.claimed in
    let id = claimed-same_id done c2 chosen.member in
    let new = claimed_row done c2 chosen.member in
    let free = claimable-free now exclude swept polled.row chosen.fits in
    (
      record {
        row = new;
        member = rw done.written.heads (
            update_where_hit (has_revision claim.job.job_id polled.row.revision) _ chosen.member
              (has_revision_self claim.job.job_id polled.row id));
        owned =
            owns_of_parts r claim now (now + ttl) db' new (sym id) (ap some (sym done.owner))
              (rw done.token_given refl) (sym done.epoch)
              (rw done.written.encoded (claimed_job-active now polled.row.payload)) refl
              (positive ttl (ground arith) now) refl (rw done.written.operations free);
        lasts = ap some (sym done.expires);
        payload = refl;
        state = refl;
        later = λ a m same.
            let (a', m', k) = advanced polled.row (swept_heads now polled.swept chosen.member) in
            let e =
              IsKeyed-unique head_job_id db.heads c.keyed a a' m m' (cc (same, id, k.job_id)) in
            let grown = k.epoch in rw e (omega arith);
      },
      done.expires,
    )

-- After a claim at most `max_running` jobs hold an unexpired lease.
pub claim_next-max_running :
    (r : Repo) (worker : Text) (now ttl : Time) (max_running : ℕ) (exclude : List Text)
    (token : Text) (db : Db) (claim : ClaimedScanJob) (db' : Db)
    → claim_next r worker now ttl max_running exclude token db ≡ ok (some claim, db')
    → count_where (live now) db'.heads ≤ max_running
claim_next-max_running r worker now ttl max_running exclude token db claim db' h =
    let polled = claim_next_ok r worker now ttl max_running exclude token db h in
    let done = polled.claimed in
    let swept = expire_operations now polled.swept in
    let matching = has_revision claim.job.job_id polled.row.revision in
    let below =
      count_where-update_where (live now) matching
        (claimed_head r worker token now (now + ttl) polled.row claim.job done.written.bytes
          (polled.row.revision + 1))
        swept.heads in
    let one = (==_iff (count_where matching swept.heads) 1).0 done.one_row in
    let room = not_leb max_running (count_where (live now) swept.heads) polled.room in
    rw done.written.heads (omega (arith, below, one, room))

-- From a sound database, a claim that some head of the job could have borne before `claim_next`
-- granted a new claim of that job is refused by `renew` and by `complete` after any further calls that
-- do not evict the job, at whatever time.
pub claim_next-supersedes :
    (r : Repo) (worker : Text) (now ttl : Time) (max_running : ℕ) (exclude : List Text)
    (token : Text) (db : Db) (claim : ClaimedScanJob) (db' : Db)
    → IsSound now db
    → claim_next r worker now ttl max_running exclude token db ≡ ok (some claim, db')
    → (old : ClaimedScanJob) (a : HeadRow) → Memᴰ a db.heads
    → a.job_id ≡ claim.job.job_id
    → old.job.job_id ≡ claim.job.job_id
    → old.lease_epoch ≤ a.lease_epoch
    → (later : Time) (db'' : Db) → Run r old.job.job_id now db' later db''
    → (at ttl' : Time) (updated : ScanJob)
    → ((x : ClaimedScanJob × Db) → renew r old at ttl' db'' ≢ ok x)
      × ((x : ScanJob × Db) → complete r old updated at db'' ≢ ok x)
claim_next-supersedes r worker now ttl max_running exclude token db claim db' s h old a m same same'
      le later db'' run =
    let (granted, _) =
      claimed_head-Granted r worker now ttl max_running exclude token db claim db' s.consistent h in
    let (c, x) =
      Call-IsSound r (Call.claim_next worker ttl max_running exclude token (some claim) h) s in
    let s' : IsSound now db' = record { consistent = c; exclusive = x } in
    let (id, _) = owns-epoch r claim now db' granted.row granted.owned in
    let grown = granted.later a m same in
    superseded-refused r old now later db' db'' s' granted.row granted.member (id ∙ sym same')
      (omega (arith, grown, le)) run
