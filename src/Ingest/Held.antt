-- ===== src/Ingest/Held.antt =====
-- A claimed task of analyzer/src/analyzer/api/ingest_queue.py while its lease lasts: the calls of the
-- other workers and what they can get.
mod Kept
use kcatta.Prelude.{
  ℕ, ◌+◌, ◌<◌, ◌≡◌, ◌≢◌, refl, sym, ap, ◌∙◌, Bool, true, false, not, ◌&&◌, ◌⊎◌, inl, inr, Option,
  none, some, List, [], ◌∷◌, ◌++◌, Memᴰ, head, tail, arith, Text, ≟_iff, ◌≟◌, ◌==◌, if◌then◌else◌,
  text_in, select, Memᴰ-select, select-Memᴰ, update_where, update_where-Memᴰ, update_where-cases,
  count_where, select_nil, sort_on, Memᴰ-sort_on, Bool-cases, Option-cases, eq_of_some, find_where,
  find_where-none, ≟_refl,
}
use kcatta.Ingest.Ledger.{
  Task, TaskKind, is_final, is_processing, Config, has_key, due, oldest, first_task, creation_key,
  claimed, claim_where, claim, held, extend_lease, Outcome, task_key, superfluous, prune_completed,
  completed, complete_task, released, retry, submit, submitted, refused, over_budget, new_task,
  ledger_conflict, storage_capacity,
}
use kcatta.Ingest.Once.{prune-member, superfluous-final}
use kcatta.Ingest.Held.Kept.{
  Taken, Taken-held, Taken-prune, Taken-claim, Taken-submit, due-other, oldest-none, oldest-some,
  claim_nothing, claimed-Taken,
}

-- What the others may do while a worker holds the task of the key under the token and a lease to `until`:
-- submit, claim by any key or by none before the lease ends, and extend, complete and retry what they
-- hold, which is another task or under another token.
pub data Others (key token : Text) (until : ℕ) (rows : List Task) : List Task → Type 0 where
  stay : Others key token until rows rows
  submits :
      {rows' rows'' : List Task}
      → Others key token until rows rows'
      → (c : Config) (k : Text) (kind : TaskKind) (envelope_id payload : Text) (now : ℕ)
        (task : Task) (created : Bool)
      → submit c k kind envelope_id payload now rows' ≡ submitted task created rows''
      → Others key token until rows rows''
  claims :
      {rows' : List Task}
      → Others key token until rows rows'
      → (p : Task → Bool) (now lease : ℕ) (t : Text) → now < until
      → Others key token until rows (claim_where p now lease t rows').1
  extends :
      {rows' : List Task}
      → Others key token until rows rows'
      → (k t : Text) (now lease : ℕ) → (k ≢ key) ⊎ (t ≢ token)
      → Others key token until rows (extend_lease k t now lease rows').1
  completes :
      {rows' : List Task}
      → Others key token until rows rows'
      → (c : Config) (k t : Text) (status : Outcome) (records : ℕ) (truncated : Bool)
        (reason : Option Text) (now : ℕ)
      → (k ≢ key) ⊎ (t ≢ token)
      → Others key token until rows
          (complete_task c k t status records truncated reason now rows').1
  retries :
      {rows' : List Task}
      → Others key token until rows rows'
      → (k t reason : Text) (delay now : ℕ) → (k ≢ key) ⊎ (t ≢ token)
      → Others key token until rows (retry k t reason delay now rows').1

Others-Taken :
    {key token : Text} {until : ℕ} {rows rows' : List Task}
    → Taken key token until rows
    → Others key token until rows rows'
    → Taken key token until rows'
unfolding extend_lease retry complete_task
Others-Taken h stay = h
Others-Taken h (submits run c k kind envelope_id payload now task created e) =
    Taken-submit c k kind envelope_id payload now task created _ _ (Others-Taken h run) e
Others-Taken h (claims run p now lease t early) =
    Taken-claim p now lease t _ early (Others-Taken h run)
Others-Taken h (extends run k t now lease different) =
    Taken-held k t (λ row. record row { lease_until = some (now + lease); updated_at = now }) _
      (λ _. refl) different (Others-Taken h run)
Others-Taken h (completes {rows'} run c k t status records truncated reason now different) =
    let after =
      Taken-held k t (completed status records truncated reason now) rows' (λ _. refl) different
        (Others-Taken h run) in
    elim (Bool-cases (count_where (held k t) rows' == 0)) [
      | inl e ↦ rw e after
      | inr e ↦ rw e (Taken-prune c _ after)
    ]
Others-Taken h (retries run k t reason delay now different) =
    Taken-held k t (released reason delay now) _ (λ _. refl) different (Others-Taken h run)

-- While a claimed task's lease lasts nobody else gets it. After a claim by key or by none that returned a
-- task, and after any calls of the others, each claim before the lease ends: a submission, a claim by any
-- key or by none, and an extension, a completion or a retry of another task or under another token. Then a
-- claim, by any key or by none, before the lease ends returns no task of that key, and a claim of that key
-- returns nothing and changes nothing.
pub claim_where-exclusive :
    (p : Task → Bool) (now lease : ℕ) (token : Text) (rows : List Task) (task : Task)
    (rows' : List Task)
    → claim_where p now lease token rows ≡ (some task, rows')
    → (rows'' : List Task) → Others task.key token (now + lease) rows' rows''
    → (q : Task → Bool) (later lease' : ℕ) (token' : Text) → later < now + lease
    → (((claim_where q later lease' token' rows'').0 ≡ none)
        ⊎ (other : Task) × ((claim_where q later lease' token' rows'').0 ≡ some other)
          × (other.key ≢ task.key))
      × (claim task.key later lease' token' rows'' ≡ (none, rows''))
unfolding claim_where claim has_key
claim_where-exclusive p now lease token rows task rows' h rows'' run q later lease' token' early =
    let taken = Others-Taken (claimed-Taken p now lease token rows task rows' h) run in
    (
      elim (Option-cases (oldest (λ row. q row && due later row) rows'')) [
        | inl nothing ↦ inl (rw (claim_where, nothing) refl)
        | inr (row, found) ↦
            let (m, fits) = oldest-some (λ row. q row && due later row) rows'' found in
            inr (
              claimed later lease' token' row,
              rw (claim_where, found) refl,
              due-other (q row) later rows'' taken early row m fits,
            )
      ],
      claim_nothing task.key later lease' token' rows'' (
          oldest-none (λ b. has_key task.key b && due later b) rows''
            (λ b m. elim (Bool-cases (has_key task.key b && due later b)) [
              | inr free ↦ free
              | inl e ↦ absurd (
                  due-other (has_key task.key b) later rows'' taken early b m e
                    ((≟_iff b.key task.key).0 (ground arith)))
            ])),
    )
