-- ===== src/JobStore/Promises/Choice.antt =====
-- Which job `claim_next` of form/src/kcatta_form/job_store.py claims, and what it makes of it.
mod May
use kcatta.Prelude.{
  ℕ, ◌+◌, ◌≤◌, ◌<◌, ◌≡◌, ◌≢◌, refl, sym, ◌↔◌, Bool-cases, true, false, not, ◌&&◌, ◌||◌, ◌⊎◌, inl,
  inr, Option, none, some, List, [], ◌∷◌, Memᴰ, head, tail, arith, Text, ◌≟◌, ≟_iff, ltb, leb,
  text_in, text_le, exists_where, exists_where-false, exists_where_zero, Memᴰ-select, select-Memᴰ,
}
use kcatta.JobStore.Job.{
  Time, ScanJob, ScanJobState, pending, retrying, running, cancelling, derive_mode, is_active,
  is_waiting, or_else,
}
use kcatta.JobStore.Rows.{ok, HeadRow, OperationRow, Db, Repo, null_or_due, live}
use kcatta.JobStore.Claim.{
  claimed_job, ClaimedScanJob, claim_next, claimable, claim_key, target_busy, operation_on,
  expire_operations, fail_exhausted,
}
use kcatta.JobStore.Inversion.Worker.{claim_next_ok}
use kcatta.JobStore.Consistent.Claim.{candidate-IsCandidate}
use kcatta.JobStore.Promises.Choice.May.{
  MayClaim, claimable-MayClaim, MayClaim-claimable, swept-MayClaim, spared,
}

-- Jobs being cancelled come first, then running ones, then waiting ones.
abbrev urgency : ScanJobState → ℕ
urgency cancelling = 0
urgency running = 1
urgency _ = 2

-- `a` is claimed no later than `b`: by state, then by the time of availability or else of creation, then
-- by the time of creation, then by id.
abbrev pub Precedes : HeadRow → HeadRow → Type 0
Precedes a b =
    (urgency a.state < urgency b.state)
    ⊎ (urgency a.state ≡ urgency b.state)
      × ((or_else a.available_at_us a.created_at_us < or_else b.available_at_us b.created_at_us)
          ⊎ (or_else a.available_at_us a.created_at_us ≡ or_else b.available_at_us b.created_at_us)
            × ((a.created_at_us < b.created_at_us)
                ⊎ (a.created_at_us ≡ b.created_at_us) × (text_le a.job_id b.job_id ≡ true)))

-- What a claim makes of a job: one being cancelled stays as it is; any other runs, with one attempt more,
-- or, where it ran with its attempts used up, with one more than those allowed.
abbrev pub Starts : Time → ScanJob → ScanJob → Type 0
Starts now before after =
    (before.state ≡ cancelling)
      × (after.state ≡ cancelling)
      × (after.attempt ≡ before.attempt)
      × (after.started_at ≡ before.started_at)
    ⊎ (before.state ≢ cancelling)
      × (after.state ≡ running)
      × (after.started_at ≡ some (or_else before.started_at now))
      × ((before.state ≡ running)
            × (before.max_attempts ≤ before.attempt)
            × (after.attempt ≡ before.max_attempts + 1)
          ⊎ ((before.state ≢ running) ⊎ (before.attempt < before.max_attempts))
            × (after.attempt ≡ before.attempt + 1))

pub record Chosen (r : Repo) (now : Time) (exclude : List Text) (db : Db) (claim : ClaimedScanJob)
    : Type 0 where
  pub failed : Db
  pub sweeps : fail_exhausted r now db ≡ ok failed
  pub row : HeadRow
  pub member : Memᴰ row failed.heads
  pub allowed : MayClaim now exclude failed row
  pub first :
      (other : HeadRow)
      → Memᴰ other failed.heads
      → MayClaim now exclude failed other
      → Precedes row other
  pub starts : Starts now row.payload claim.job

claimed-Starts :
    (now : Time) (payload job : ScanJob)
    → job ≡ derive_mode (claimed_job now payload)
    → Starts now payload job
unfolding derive_mode claimed_job
claimed-Starts now payload job e = ground arith

claim_key-Precedes : (a b : HeadRow) → text_le (claim_key a) (claim_key b) ≡ true → Precedes a b
unfolding text_le
claim_key-Precedes a b h = ground arith

-- A claim is of a head that may be claimed, after the jobs with their attempts used up failed: a waiting
-- job that is due and has attempts left, or an active one whose lease is over, on a target with neither
-- another job under a lease nor a direct operation, and not excluded. Of the heads that may be claimed it
-- is the first: jobs being cancelled, then running, then waiting ones, by availability, by creation, by
-- id. A job being cancelled stays so; any other runs, with one attempt more, or, where it ran with its
-- attempts used up, with one more than those allowed.
pub claim_next-Chosen :
    (r : Repo) (worker : Text) (now ttl : Time) (max_running : ℕ) (exclude : List Text)
    (token : Text) (db : Db) (claim : ClaimedScanJob) (db' : Db)
    → claim_next r worker now ttl max_running exclude token db ≡ ok (some claim, db')
    → Chosen r now exclude db claim
unfolding expire_operations
claim_next-Chosen r worker now ttl max_running exclude token db claim db' h =
    let polled = claim_next_ok r worker now ttl max_running exclude token db h in
    let swept = expire_operations now polled.swept in
    let candidate = candidate-IsCandidate now exclude swept polled.chosen in
    record {
      failed = polled.swept;
      sweeps = polled.failed;
      row = polled.row;
      member = candidate.member;
      allowed =
          spared now polled.swept (claimable-MayClaim now exclude swept polled.row candidate.fits);
      first = λ other m may. claim_key-Precedes polled.row other (
          candidate.first other m
            (MayClaim-claimable now exclude swept other (swept-MayClaim now polled.swept may)));
      starts = claimed-Starts now polled.row.payload claim.job polled.claimed.written.encoded;
    }
