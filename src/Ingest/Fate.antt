-- ===== src/Ingest/Fate.antt =====
-- What becomes of the tasks of analyzer/src/analyzer/api/ingest_queue.py: replays, claims, retries.
use kcatta.Prelude.{
  ℕ, ◌-◌, ◌*◌, ◌^◌, ◌≤◌, ◌<◌, ◌≡◌, refl, Bool, true, false, not, ◌&&◌, inl, inr, none, some, List,
  [], ◌∷◌, ◌++◌, arith, Text, ≟_refl, ◌≟◌, min, find_where, Bool-cases, Option-cases,
}
use native.Mathlib.Nat.{mul-le-mul_left, pow-le-pow_right, le-mul_of_pos_right, one-le-pow}
use kcatta.Ingest.Ledger.{
  TaskKind, Task, is_final, Config, submitted, has_key, over_budget, new_task, submit,
}
use kcatta.Ingest.Worker.{Settings, retry_delay}

find_where-append :
    (p : Task → Bool) (rows : List Task) (row : Task)
    → find_where p rows ≡ none
    → p row ≡ true
    → find_where p (rows ++ row ∷ []) ≡ some row
unfolding find_where
find_where-append p [] row h e = rw e refl
find_where-append p (x ∷ rows) row h e = elim (Bool-cases (p x)) [
  | inl f ↦ absurd (let g = rw f at h in cc)
  | inr f ↦ rw f (find_where-append p rows row (rw f at h) e)
]

submitted-injective :
    {t t' : Task} {b b' : Bool} {rows rows' : List Task}
    → submitted t b rows ≡ submitted t' b' rows'
    → (t ≡ t') × (b ≡ b') × (rows ≡ rows')
submitted-injective h = (cc, cc, cc)

-- Once a submission under a key was accepted, the same payload under that key, at whatever time, of
-- whatever kind and envelope id, answers the stored task, creates nothing and changes nothing.
pub submit-idempotent :
    (c : Config) (key : Text) (kind : TaskKind) (envelope_id payload : Text) (now : ℕ)
    (rows : List Task) (task : Task) (created : Bool) (rows' : List Task)
    → submit c key kind envelope_id payload now rows ≡ submitted task created rows'
    → (kind' : TaskKind) (envelope_id' : Text) (later : ℕ)
    → submit c key kind' envelope_id' payload later rows' ≡ submitted task false rows'
unfolding submit
submit-idempotent c key kind envelope_id payload now rows task created rows' h kind' envelope_id'
      later =
    elim (Option-cases (find_where (has_key key) rows)) [
      | inr (row, e) ↦
          let h1 = rw (e, submit) at h in
          elim (Bool-cases
            (not (is_final row.state) && not (row.payload_sha256 ≟ c.sha256 payload))) [
              | inl conflict ↦ absurd (let h2 = rw conflict at h1 in cc)
              | inr fine ↦
                  let (t, b, r) = submitted-injective (rw fine at h1) in
                  rw (← r, e, submit) (rw fine (cc (t, r)))
            ]
      | inl e ↦
          let h1 = rw (e, submit) at h in
          let new = new_task c key kind envelope_id payload now in
          elim (Bool-cases (over_budget c payload rows)) [
            | inl full ↦ absurd (let h2 = rw full at h1 in cc)
            | inr room ↦
                let (t, b, r) = submitted-injective (rw room at h1) in
                let found =
                  find_where-append (has_key key) rows new e
                    (own_key c key kind envelope_id payload now) in
                rw (← r, ← t, found, submit) (rw (≟_refl (c.sha256 payload)) (cc r))
          ]
    ]
  where
    own_key :
        (c : Config) (key : Text) (kind : TaskKind) (envelope_id payload : Text) (now : ℕ)
        → has_key key (new_task c key kind envelope_id payload now) ≡ true
    own_key c key kind envelope_id payload now = ≟_refl key

grows : (base i j : ℕ) → i ≤ j → base * 2 ^ i ≤ base * 2 ^ j
grows base i j le = let two : 0 < 2 = omega arith in mul-le-mul_left base (pow-le-pow_right two le)

at_least : (base i : ℕ) → base ≤ base * 2 ^ i
at_least base i = let two : 0 < 2 = omega arith in le-mul_of_pos_right base (one-le-pow i 2 two)

-- The delay before a retry is at least the smaller of the base and the cap, at most the cap, and does
-- not fall as the attempts go up.
pub retry_delay-bounds :
    (s : Settings) (m n : ℕ)
    → m ≤ n
    → (min s.retry_max s.retry_base ≤ retry_delay s m)
      × (retry_delay s n ≤ s.retry_max)
      × (retry_delay s m ≤ retry_delay s n)
unfolding retry_delay
retry_delay-bounds s m n le =
    let up : s.retry_base * 2 ^ min (m - 1) 20 ≤ s.retry_base * 2 ^ min (n - 1) 20 =
      grows s.retry_base (min (m - 1) 20) (min (n - 1) 20) (omega (arith, le)) in
    let base : s.retry_base ≤ s.retry_base * 2 ^ min (m - 1) 20 =
      at_least s.retry_base (min (m - 1) 20) in
    (omega (arith, base), omega arith, omega (arith, up))
