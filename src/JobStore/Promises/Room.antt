-- ===== src/JobStore/Promises/Room.antt =====
-- How `_make_room_for_job` of form/src/kcatta_form/job_store.py bounds the table of jobs.
use kcatta.Prelude.{
  ℕ, ◌≤◌, ◌<◌, ◌≡◌, ◌≢◌, refl, sym, Bool, true, false, not, ◌||◌, inl, inr, Option, List, [], ◌∷◌,
  Memᴰ, head, tail, arith, Text, ≟_iff, ≟_refl, ◌≟◌, text_in, ltb, ◌==◌, is_empty, length, map,
  Memᴰ-select, select-Memᴰ, length-select, count_where-lt-length, Memᴰ-take, Memᴰ-sort_on,
  Bool-cases, IsKeyed-unique,
}
use kcatta.JobStore.Job.{ScanJob, is_terminal}
use kcatta.JobStore.Rows.{ok, ok-injective, HeadRow, Db, Repo}
use kcatta.JobStore.Create.{
  head_job_id, eviction_key, evicted, room_wanted, make_room_for_job, create,
}
use kcatta.JobStore.Inversion.Create.{create_ok}
use kcatta.JobStore.Consistent.{IsConsistent}

text_in-map :
    (job_id : Text) (rows : List HeadRow)
    → text_in job_id (map head_job_id rows) ≡ true
    → (row : HeadRow) × Memᴰ row rows × (row.job_id ≡ job_id)
unfolding text_in
text_in-map job_id [] h = absurd (cc)
text_in-map job_id (row ∷ rows) h = elim (Bool-cases (job_id ≟ row.job_id)) [
  | inl e ↦ (row, head refl, sym ((≟_iff job_id row.job_id).0 e))
  | inr e ↦ let (other, m, q) = text_in-map job_id rows (rw e at h) in (other, tail m, q)
]

text_in_head :
    (row : HeadRow) (rows : List HeadRow) → text_in row.job_id (map head_job_id (row ∷ rows)) ≡ true
unfolding text_in
text_in_head row rows = rw (≟_refl row.job_id) refl

evicted-terminal :
    (n : ℕ) (heads : List HeadRow) {row : HeadRow}
    → Memᴰ row (evicted n heads)
    → Memᴰ row heads × (is_terminal row.state ≡ true)
evicted-terminal n heads m =
    Memᴰ-select (λ (h : HeadRow). is_terminal h.state) heads
      (Memᴰ-sort_on eviction_key _ (Memᴰ-take n _ m))

first_evicted :
    (rows heads : List HeadRow)
    → is_empty rows ≡ false
    → ((row : HeadRow) → Memᴰ row rows → Memᴰ row heads)
    → (row : HeadRow) × Memᴰ row heads × (text_in row.job_id (map head_job_id rows) ≡ true)
first_evicted [] heads h k = absurd (cc)
first_evicted (row ∷ rows) heads h k = (row, k row (head refl), text_in_head row rows)

-- There was room, or at least one head went, and only terminal heads.
record MadeRoom (r : Repo) (db roomy : Db) : Type 0 where
  fits : r.max_jobs ≢ 0 → length db.heads ≤ r.max_jobs → length roomy.heads < r.max_jobs
  spares :
      IsConsistent db
      → (a : HeadRow) → Memᴰ a db.heads
      → is_terminal a.state ≡ false
      → Memᴰ a roomy.heads

fits_already :
    (max_jobs count : ℕ)
    → ((max_jobs == 0) || ltb count max_jobs) ≡ true
    → max_jobs ≢ 0
    → count < max_jobs
fits_already max_jobs count h n = ground (arith, n)

make_room_ok :
    (r : Repo) (db : Db) {roomy : Db} → make_room_for_job r db ≡ ok roomy → MadeRoom r db roomy
unfolding make_room_for_job
make_room_ok r db h =
    let rows = evicted (room_wanted r.max_jobs (length db.heads)) db.heads in
    let kept = λ (row : HeadRow). not (text_in row.job_id (map head_job_id rows)) in
    elim (Bool-cases ((r.max_jobs == 0) || ltb (length db.heads) r.max_jobs)) [
      | inl roomy ↦ rw (← ok-injective (rw roomy at h)) (record {
        fits = λ n _. fits_already r.max_jobs (length db.heads) roomy n;
        spares = λ c a m e. m;
      })
      | inr full ↦
          let h1 = rw full at h in
          elim (Bool-cases (is_empty rows)) [
            | inl stuck ↦ absurd (let h2 = rw stuck at h1 in cc)
            | inr some_rows ↦
                let (gone, m, inside) = first_evicted rows db.heads some_rows (λ row k.
                  (evicted-terminal (room_wanted r.max_jobs (length db.heads)) db.heads k).0) in
                let not_kept : kept gone ≡ false = rw inside refl in
                let fewer = count_where-lt-length kept m not_kept in
                rw (← ok-injective (rw some_rows at h1)) (record {
                  fits = λ n le. omega (arith, length-select kept db.heads, fewer, le);
                  spares = λ c a k e. select-Memᴰ kept k (spared c a k e);
                })
          ]
    ]
  where
    spared :
        IsConsistent db
        → (a : HeadRow) → Memᴰ a db.heads
        → is_terminal a.state ≡ false
        → not (
            text_in a.job_id
              (map head_job_id (evicted (room_wanted r.max_jobs (length db.heads)) db.heads)))
          ≡ true
    spared c a k e =
        let rows = evicted (room_wanted r.max_jobs (length db.heads)) db.heads in
        elim (Bool-cases (text_in a.job_id (map head_job_id rows))) [
          | inr out ↦ rw out refl
          | inl inside ↦
              let (row, m, q) = text_in-map a.job_id rows inside in
              let (m', t) =
                evicted-terminal (room_wanted r.max_jobs (length db.heads)) db.heads m in
              let same = IsKeyed-unique head_job_id db.heads c.keyed row a m' k q in
              absurd (let t' : is_terminal a.state ≡ true = rw (← same) t in cc)
        ]

-- With a job limit set and no more heads than it, a creation that returns leaves no more heads than the
-- limit.
pub create-max_jobs :
    (r : Repo) (job : ScanJob) (key fingerprint : Option Text) (db : Db) (stored : ScanJob)
    (created : Bool) (db' : Db)
    → r.max_jobs ≢ 0
    → length db.heads ≤ r.max_jobs
    → create r job key fingerprint db ≡ ok ((stored, created), db')
    → length db'.heads ≤ r.max_jobs
create-max_jobs r job key fingerprint db stored created db' n le h =
    elim (create_ok r job key fingerprint db h).outcome [
      | inl (_, _, _, _, _, same) ↦ rw same le
      | inr (_, _, _, new) ↦
          let room = make_room_ok r db new.made in
          let fits = room.fits n le in rw new.logged.heads (omega (arith, fits))
    ]

-- A creation on a consistent database keeps the head of every job that has not ended, as it was.
pub create-spares :
    (r : Repo) (job : ScanJob) (key fingerprint : Option Text) (db : Db) (stored : ScanJob)
    (created : Bool) (db' : Db)
    → IsConsistent db
    → create r job key fingerprint db ≡ ok ((stored, created), db')
    → (a : HeadRow) → Memᴰ a db.heads
    → is_terminal a.state ≡ false
    → Memᴰ a db'.heads
create-spares r job key fingerprint db stored created db' c h a m e =
    elim (create_ok r job key fingerprint db h).outcome [
      | inl (_, _, _, _, _, same) ↦ rw same m
      | inr (_, _, _, new) ↦
          let room = make_room_ok r db new.made in rw new.logged.heads (tail (room.spares c a m e))
    ]
