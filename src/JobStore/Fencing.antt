-- ===== src/JobStore/Fencing.antt =====
-- How long a claim of form/src/kcatta_form/job_store.py lasts: the lease epoch of a job's head only
-- grows while the head is there, so that a claim that was superseded stays refused.
use kcatta.Prelude.{
  ◌≤◌, ◌<◌, ◌≡◌, ◌≢◌, sym, ◌∙◌, true, inl, inr, Memᴰ, arith, Text, ≟_iff, IsKeyed-unique,
}
use kcatta.JobStore.Job.{Time, ScanJob}
use kcatta.JobStore.Rows.{ok, HeadRow, Db, Repo}
use kcatta.JobStore.Create.{head_job_id}
use kcatta.JobStore.Claim.{ClaimedScanJob}
use kcatta.JobStore.Lease.{owns, renew, complete}
use kcatta.JobStore.Inversion.Holder.{renew_ok, complete_ok}
use kcatta.JobStore.Exclusion.{IsExclusive-later}
use kcatta.JobStore.Reach.{Call, IsSound, Call-IsSound}
use kcatta.JobStore.Lifecycle.{Advances, Advances-refl}
use kcatta.JobStore.Lifecycle.Calls.{Advances-trans, Call-Comes}

-- Calls one after another, from `db` at `now` to `db'` at `later`, with a head of the job before
-- each of them: the job is not evicted on the way.
pub data Run (r : Repo) (job_id : Text) : Time → Db → Time → Db → Type 0 where
  stay : {now : Time} {db : Db} → Run r job_id now db now db
  step :
      {now before later : Time} {db db1 db' : Db}
      → Run r job_id now db before db1
      → (a : HeadRow) × Memᴰ a db1.heads × (a.job_id ≡ job_id)
      → before ≤ later
      → Call r later db1 db'
      → Run r job_id now db later db'

pub Run-IsSound :
    {r : Repo} {job_id : Text} {now later : Time} {db db' : Db}
    → Run r job_id now db later db'
    → IsSound now db
    → IsSound later db'
Run-IsSound stay s = s
Run-IsSound {r} (step {later = later} {db1 = db1} run _ le made) s =
    let s1 = Run-IsSound run s in
    let s2 : IsSound later db1 = record {
      consistent = s1.consistent;
      exclusive = IsExclusive-later le s1.exclusive;
    } in
    let (c, x) = Call-IsSound r made s2 in record { consistent = c; exclusive = x }

-- From a sound database, any committed call of the repository leaves a head that was there before
-- and after it with the job id, the target, the idempotency key, the fingerprint and the creation
-- time that it had; its lease epoch and its revision have not decreased, and a job that had
-- succeeded still has.
pub Call-Advances :
    (r : Repo) (now : Time) (db db' : Db)
    → IsSound now db
    → Call r now db db'
    → (a b : HeadRow) → Memᴰ a db.heads
    → Memᴰ b db'.heads
    → b.job_id ≡ a.job_id
    → Advances a b
Call-Advances r now db db' s made a b m n e = elim (Call-Comes r s.consistent made b n) [
  | inl (a', m', k) ↦
      rw (IsKeyed-unique head_job_id db.heads s.consistent.keyed a a' m m' (sym e ∙ k.job_id)) k
  | inr new ↦ absurd (new.absent a m (sym e))
]

pub Run-Advances :
    {r : Repo} {job_id : Text} {now later : Time} {db db' : Db}
    → Run r job_id now db later db'
    → IsSound now db
    → (a b : HeadRow) → Memᴰ a db.heads
    → Memᴰ b db'.heads
    → a.job_id ≡ job_id
    → b.job_id ≡ job_id
    → Advances a b
Run-Advances {db = db} stay s a b m n p q =
    rw (IsKeyed-unique head_job_id db.heads s.consistent.keyed a b m n (p ∙ sym q))
      (Advances-refl b)
Run-Advances {r} (step {later = later} {db1 = db1} run (a1, m1, e1) le made) s a b m n p q =
    let s1 = Run-IsSound run s in
    let s2 : IsSound later db1 = record {
      consistent = s1.consistent;
      exclusive = IsExclusive-later le s1.exclusive;
    } in
    Advances-trans (Run-Advances run s a a1 m m1 p e1)
      (Call-Advances r later db1 _ s2 made a1 b m1 n (q ∙ sym e1))

pub owns-epoch :
    (r : Repo) (claim : ClaimedScanJob) (now : Time) (db : Db) (row : HeadRow)
    → owns r claim now db row ≡ true
    → (row.job_id ≡ claim.job.job_id) × (row.lease_epoch ≡ claim.lease_epoch)
unfolding owns
owns-epoch r claim now db row h =
    ((≟_iff row.job_id claim.job.job_id).0 (ground arith), ground arith)

older_claim :
    (r : Repo) (claim : ClaimedScanJob) (at : Time) (db : Db) (b : HeadRow)
    → claim.lease_epoch < b.lease_epoch
    → owns r claim at db b ≢ true
older_claim r claim at db b older o = let (_, e) = owns-epoch r claim at db b o in omega arith

-- Once a head of the job stands at a later lease epoch than a claim's, then after any further calls
-- that do not evict the job neither `renew` nor `complete` accepts the claim, at whatever time.
pub superseded-refused :
    (r : Repo) (claim : ClaimedScanJob) (now later : Time) (db db' : Db)
    → IsSound now db
    → (a : HeadRow) → Memᴰ a db.heads
    → a.job_id ≡ claim.job.job_id
    → claim.lease_epoch < a.lease_epoch
    → Run r claim.job.job_id now db later db'
    → (at ttl : Time) (updated : ScanJob)
    → ((x : ClaimedScanJob × Db) → renew r claim at ttl db' ≢ ok x)
      × ((x : ScanJob × Db) → complete r claim updated at db' ≢ ok x)
superseded-refused r claim now later db db' s a m same older run at ttl updated = (
  λ x h.
      let done = renew_ok r claim at ttl db' {claim' = x.0} {db' = x.1} h in
      refused done.row done.member done.owned,
  λ x h.
      let done = complete_ok r claim updated at db' {job = x.0} {db' = x.1} h in
      refused done.row done.member done.owned,
)
  where
    refused : (b : HeadRow) → Memᴰ b db'.heads → owns r claim at db' b ≢ true
    refused b n o =
        let (same', _) = owns-epoch r claim at db' b o in
        let grown = (Run-Advances run s a b m n same same').epoch in
        older_claim r claim at db' b (omega (arith, grown, older)) o
