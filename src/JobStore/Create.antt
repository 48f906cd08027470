-- ===== src/JobStore/Create.antt =====
-- `_make_room_for_job`, `create`, `get` and `import_legacy` of form/src/kcatta_form/job_store.py.
use kcatta.Prelude.{
  ℕ, ◌+◌, ◌-◌, ◌/◌, max, Bool, true, false, not, ◌||◌, Option, none, some, List, [], ◌∷◌, Text, ◌≟◌,
  codes, is_text, same_text?, is_empty, text_in, strip, ltb, ◌==◌, if◌then◌else◌, length, take, map,
  select, find_where, exists_where, sort_on,
}
use kcatta.JobStore.Job.{Time, ScanJob, failed, is_active, is_terminal, or_else}
use kcatta.JobStore.Rows.{
  Result, ok, err, ◌>>=◌, ◌>>◌, raise_if, value_error, job_conflict, storage_capacity, HeadRow, Db,
  Repo, encode, event, has_job_id,
}

-- ORDER BY updated_at_us ASC, job_id ASC
abbrev pub eviction_key : HeadRow → Text
eviction_key row = row.updated_at_us ∷ row.job_id

abbrev pub head_job_id : HeadRow → Text
head_job_id row = row.job_id

-- What eviction removes when the table holds `count` heads.
abbrev pub room_wanted : ℕ → ℕ → ℕ
room_wanted max_jobs count = count - (max_jobs - max 1 (max_jobs / 10))

abbrev pub evicted : ℕ → List HeadRow → List HeadRow
evicted n heads = take n (sort_on eviction_key (select (λ row. is_terminal row.state) heads))

unfoldable pub make_room_for_job : Repo → Db → Result Db
unfolding ◌≟◌ text_in select sort_on
make_room_for_job r db =
    let count = length db.heads in
    let rows = evicted (room_wanted r.max_jobs count) db.heads in
    let removed = map head_job_id rows in
    if (r.max_jobs == 0) || ltb count r.max_jobs
    then ok db
    else if is_empty rows
    then err storage_capacity
    else ok (record db { heads = select (λ row. not (text_in row.job_id removed)) db.heads })

-- The checks of the idempotency key: its stripped text, or ValueError.
unfoldable pub checked_key : Option Text → Option Text → Result (Option Text)
unfolding strip
checked_key none fingerprint = ok none
checked_key (some raw) fingerprint =
    let key = strip raw in
    if is_empty key || ltb 256 (length key)
    then err value_error
    else if elim fingerprint [ none ↦ true | some f ↦ is_empty f ]
    then err value_error
    else ok (some key)

-- WHERE idempotency_key = ?
unfoldable pub find_key : Option Text → List HeadRow → Option HeadRow
unfolding find_where ◌≟◌
find_key none heads = none
find_key (some key) heads = find_where (λ row. is_text row.idempotency_key key) heads

unfoldable pub new_head : ScanJob → ℕ → Option Text → Option Text → HeadRow
new_head job payload_bytes key fingerprint = record {
  job_id = job.job_id;
  payload = job;
  payload_bytes = payload_bytes;
  state = job.state;
  target_id = job.target_id;
  created_at_us = job.created_at;
  updated_at_us = or_else job.updated_at job.created_at;
  available_at_us = job.available_at;
  attempt = job.attempt;
  max_attempts = job.max_attempts;
  revision = 0;
  lease_owner = none;
  lease_token_hash = none;
  lease_epoch = 0;
  lease_expires_at_us = none;
  heartbeat_at_us = none;
  idempotency_key = key;
  request_fingerprint = fingerprint;
}

-- The part of `create` after the idempotency key was looked up in vain.
unfoldable pub insert_head :
    Repo → ScanJob → ℕ → Option Text → Option Text → Db → Result ((ScanJob × Bool) × Db)
unfolding exists_where has_job_id make_room_for_job new_head event
insert_head r job payload_bytes key fingerprint db = do
  raise_if (exists_where (has_job_id job.job_id) db.heads) job_conflict
  roomy ← make_room_for_job r db
  let added = record roomy { heads = new_head job payload_bytes key fingerprint ∷ roomy.heads }
  done ← event r added job 0 (or_else job.updated_at job.created_at) payload_bytes
  ok ((job, true), done)

-- A pending head, or the replay of the identical idempotent request.
unfoldable pub create :
    Repo → ScanJob → Option Text → Option Text → Db → Result ((ScanJob × Bool) × Db)
unfolding encode checked_key find_key insert_head
create r job idempotency_key request_fingerprint db = do
  (job', payload_bytes) ← encode r job
  key ← checked_key idempotency_key request_fingerprint
  let fresh = insert_head r job' payload_bytes key request_fingerprint db
  elim (find_key key db.heads) [
    | none ↦ fresh
    | some existing ↦
        if same_text? existing.request_fingerprint request_fingerprint
        then ok ((existing.payload, false), db)
        else err job_conflict
  ]

unfoldable pub get : Db → Text → Option ScanJob
unfolding find_where has_job_id
get db job_id = elim (find_where (has_job_id job_id) db.heads) [
  | none ↦ none
  | some row ↦ some row.payload
]

-- Legacy work that was in flight when Form stopped fails.
unfoldable pub legacy_job : Time → ScanJob → ScanJob
legacy_job now job =
    if is_active job.state
    then record job {
      state = failed;
      error = some (codes "legacy Form stopped while this job was in-flight");
      finished_at = some now;
      available_at = none;
      updated_at = some now;
    }
    else job

-- Each job that `import_legacy` reads; a value that is no job is skipped before. A conflict skips
-- the job, any other exception ends the import with what was committed so far.
unfoldable pub import_legacy : Repo → Time → List ScanJob → ℕ → Db → Result ℕ × Db
unfolding get legacy_job create
import_legacy r now [] imported db = (ok imported, db)
import_legacy r now (job ∷ jobs) imported db = elim (get db job.job_id) [
  | some _ ↦ import_legacy r now jobs imported db
  | none ↦ elim (create r (legacy_job now job) none none db) [
    | ok ((_, created), db') ↦
        import_legacy r now jobs (if created then imported + 1 else imported) db'
    | err job_conflict ↦ import_legacy r now jobs imported db
    | err e ↦ (err e, db)
  ]
]
