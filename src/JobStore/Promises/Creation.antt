-- ===== src/JobStore/Promises/Creation.antt =====
-- Idempotent creation, and the import of legacy jobs, in form/src/kcatta_form/job_store.py.
use kcatta.Prelude.{
  ℕ, ◌<◌, ◌≡◌, refl, sym, ◌∙◌, ap, Bool, true, false, inl, inr, Option, some, none, List, ◌∷◌,
  arith, Text, ≟_iff, ≟_refl, same_text?, find_where, exists_where, Bool-cases, Option-cases, ltb,
  ◌==◌, if◌then◌else◌, length, strip, lt→ltb, exists_where_of_find_where,
}
use kcatta.JobStore.Job.{Time, ScanJob, derive_mode}
use kcatta.JobStore.Rows.{
  ok, err, job_conflict, integrity_error, HeadRow, Db, Repo, encode, event, is_event, has_job_id,
}
use kcatta.JobStore.Create.{
  checked_key, find_key, new_head, insert_head, make_room_for_job, create, get, legacy_job,
  import_legacy,
}
use kcatta.JobStore.Inversion.{encode_ok}
use kcatta.JobStore.Inversion.Create.{create_ok}

same_text_ok : (a b : Option Text) → same_text? a b ≡ true → a ≡ b
same_text_ok none none h = refl
same_text_ok none (some b) h = absurd (cc)
same_text_ok (some a) none h = absurd (cc)
same_text_ok (some a) (some b) h = ap some ((≟_iff a b).0 h)

pub same_text_refl : (a : Option Text) → same_text? a a ≡ true
same_text_refl none = refl
same_text_refl (some a) = ≟_refl a

find_new :
    (job : ScanJob) (bytes : ℕ) (key : Text) (fingerprint : Option Text) (heads : List HeadRow)
    → find_key (some key) (new_head job bytes (some key) fingerprint ∷ heads)
      ≡ some (new_head job bytes (some key) fingerprint)
unfolding find_key find_where new_head
find_new job bytes key fingerprint heads = rw (≟_refl key) refl

new_head-fields :
    (job : ScanJob) (bytes : ℕ) (key fingerprint : Option Text)
    → ((new_head job bytes key fingerprint).payload ≡ job)
      × ((new_head job bytes key fingerprint).request_fingerprint ≡ fingerprint)
unfolding new_head
new_head-fields job bytes key fingerprint = (refl, refl)

checked_key-some :
    (raw : Text) (fingerprint : Option Text) {key : Option Text}
    → checked_key (some raw) fingerprint ≡ ok key
    → key ≡ some (strip raw)
unfolding checked_key
checked_key-some raw fingerprint h = ground arith

-- After a creation under an idempotency key, the head of the key holds what was returned.
created-head :
    (r : Repo) (job : ScanJob) (raw : Text) (fingerprint : Option Text) (db : Db) (stored : ScanJob)
    (created : Bool) (db' : Db)
    → create r job (some raw) fingerprint db ≡ ok ((stored, created), db')
    → (row : HeadRow) × (find_key (some (strip raw)) db'.heads ≡ some row)
      × (row.payload ≡ stored)
      × (row.request_fingerprint ≡ fingerprint)
created-head r job raw fingerprint db stored created db' h =
    let done = create_ok r job (some raw) fingerprint db h in
    let key = checked_key-some raw fingerprint done.checked in
    elim done.outcome [
      | inl (row, found, same, is_stored, _, same_db) ↦ (
        row,
        rw (same_db, ← key) found,
        sym is_stored,
        same_text_ok row.request_fingerprint fingerprint same,
      )
      | inr (_, is_job, _, new) ↦
          let (payload, print) = new_head-fields done.job' done.bytes done.key fingerprint in
          (
            new_head done.job' done.bytes done.key fingerprint,
            rw (new.logged.heads, key)
                (find_new done.job' done.bytes (strip raw) fingerprint new.roomy.heads),
            payload ∙ sym is_job,
            print,
          )
    ]

create_found :
    (r : Repo) (job : ScanJob) (raw other : Option Text) (db : Db) {encoded : ScanJob × ℕ}
    {key : Option Text} {row : HeadRow}
    → encode r job ≡ ok encoded
    → checked_key raw other ≡ ok key
    → find_key key db.heads ≡ some row
    → create r job raw other db ≡ (
        if same_text? row.request_fingerprint other
        then ok ((row.payload, false), db)
        else err job_conflict)
unfolding create
create_found r job raw other db {encoded} {key} {row} e k found = rw (e, k) answered
  where
    answered :
        elim (find_key key db.heads) [
          | none ↦ insert_head r encoded.0 encoded.1 key other db
          | some existing ↦
              if same_text? existing.request_fingerprint other
              then ok ((existing.payload, false), db)
              else err job_conflict
        ]
        ≡ (if same_text? row.request_fingerprint other
            then ok ((row.payload, false), db)
            else err job_conflict)
    answered = rw found refl

-- A request under a key whose creation returned is answered from it: the same fingerprint replays the
-- stored job and changes nothing, whatever job the request carries, and another fingerprint is refused
-- as a conflict, provided that the job can be encoded and the key and the fingerprint are well formed.
pub create-idempotent :
    (r : Repo) (job : ScanJob) (raw : Text) (fingerprint : Option Text) (db : Db) (stored : ScanJob)
    (created : Bool) (db' : Db)
    → create r job (some raw) fingerprint db ≡ ok ((stored, created), db')
    → (again : ScanJob) (encoded : ScanJob × ℕ) (other key : Option Text)
    → encode r again ≡ ok encoded
    → checked_key (some raw) other ≡ ok key
    → create r again (some raw) other db'
      ≡ (if same_text? fingerprint other then ok ((stored, false), db') else err job_conflict)
create-idempotent r job raw fingerprint db stored created db' h again encoded other key e k =
    let (row, found, payload, print) = created-head r job raw fingerprint db stored created db' h in
    let found' : find_key key db'.heads ≡ some row = rw (checked_key-some raw other k) found in
    rw (← payload, ← print) (create_found r again (some raw) other db' e k found')

legacy_job-job_id :
    (now : Time) (job : ScanJob) → (derive_mode (legacy_job now job)).job_id ≡ job.job_id
unfolding derive_mode legacy_job
legacy_job-job_id now job = ground arith

absent_head :
    (db : Db) (job_id : Text)
    → get db job_id ≡ none
    → exists_where (has_job_id job_id) db.heads ≡ false
unfolding get
absent_head db job_id h = elim (Option-cases (find_where (has_job_id job_id) db.heads)) [
  | inl e ↦ exists_where_of_find_where (has_job_id job_id) db.heads e
  | inr (row, e) ↦ absurd (let h' = rw (e, get) at h in cc)
]

roomy_enough : (r : Repo) (db : Db) → length db.heads < r.max_jobs → make_room_for_job r db ≡ ok db
unfolding make_room_for_job
roomy_enough r db h =
    let e : ltb (length db.heads) r.max_jobs ≡ true = lt→ltb (length db.heads) r.max_jobs h in
    elim (Bool-cases (r.max_jobs == 0)) [ inl z ↦ rw z refl | inr n ↦ rw (n, e) refl ]

insert_head-collision :
    (r : Repo) (job : ScanJob) (bytes : ℕ) (key fingerprint : Option Text) (db : Db)
    → exists_where (has_job_id job.job_id) db.heads ≡ false
    → length db.heads < r.max_jobs
    → exists_where (is_event job.job_id 0) db.events ≡ true
    → insert_head r job bytes key fingerprint db ≡ err integrity_error
unfolding insert_head event
insert_head-collision r job bytes key fingerprint db absent room logged =
    rw (absent, roomy_enough r db room, logged) refl

create-collision :
    (r : Repo) (job : ScanJob) (job_id : Text) (db : Db) (encoded : ScanJob × ℕ)
    → encode r job ≡ ok encoded
    → (derive_mode job).job_id ≡ job_id
    → get db job_id ≡ none
    → length db.heads < r.max_jobs
    → exists_where (is_event job_id 0) db.events ≡ true
    → create r job none none db ≡ err integrity_error
unfolding create checked_key find_key
create-collision r job job_id db encoded e same absent room logged =
    let id : encoded.0.job_id ≡ job_id =
      ap (λ (j : ScanJob). j.job_id) (encode_ok r job e).0 ∙ same in
    rw e (
      insert_head-collision r encoded.0 encoded.1 none none db
        (rw id (absent_head db job_id absent)) room (rw id logged))

-- The import of a legacy job whose head is gone while the log still holds its first revision stops
-- with an IntegrityError, whatever jobs follow it, where there is room and the job can be encoded.
pub import_legacy-collision :
    (r : Repo) (now : Time) (job : ScanJob) (jobs : List ScanJob) (imported : ℕ) (db : Db)
    (encoded : ScanJob × ℕ)
    → encode r (legacy_job now job) ≡ ok encoded
    → get db job.job_id ≡ none
    → length db.heads < r.max_jobs
    → exists_where (is_event job.job_id 0) db.events ≡ true
    → import_legacy r now (job ∷ jobs) imported db ≡ (err integrity_error, db)
unfolding import_legacy
import_legacy-collision r now job jobs imported db encoded e absent room logged =
    let refused =
      create-collision r (legacy_job now job) job.job_id db encoded e (legacy_job-job_id now job)
        absent room logged in
    rw (absent, refused, import_legacy) refl
