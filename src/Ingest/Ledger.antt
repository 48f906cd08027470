-- ===== src/Ingest/Ledger.antt =====
-- The ledger of analyzer/src/analyzer/api/ingest_queue.py: the class IngestLedger over its table
-- ingest_tasks. A time is a number of ticks, where the code has seconds as floats; `now` is what the
-- clock shows, and a fresh token what uuid4 returns.
use kcatta.Prelude.{
  ℕ, ◌+◌, ◌*◌, Bool, true, false, not, ◌&&◌, ◌||◌, Option, none, some, List, [], ◌∷◌, ◌++◌, Text,
  ◌≟◌, is_text, ltb, leb, ◌==◌, if◌then◌else◌, take, drop, map, reverse, text_in, select,
  update_where, count_where, find_where, sort_on,
}

pub data TaskKind : Type 0 where
  asset_report trace_batch guard_event : TaskKind

pub data TaskState : Type 0 where
  pending processing complete partial : TaskState

-- A row of ingest_tasks.
pub record Task : Type 0 where
  pub key : Text
  pub kind : TaskKind
  pub envelope_id : Text
  pub payload : Text
  pub payload_sha256 : Text
  pub state : TaskState
  pub attempts : ℕ
  pub next_attempt_at : ℕ
  pub lease_until : Option ℕ
  pub lease_token : Option Text
  pub derived_records : ℕ
  pub derived_truncated : Bool
  pub derived_reason : Option Text
  pub last_error : Option Text
  pub created_at : ℕ
  pub updated_at : ℕ

-- The property `final`.
abbrev pub is_final : TaskState → Bool
is_final TaskState.complete = true
is_final TaskState.partial = true
is_final _ = false

abbrev pub is_pending : TaskState → Bool
is_pending TaskState.pending = true
is_pending _ = false

abbrev pub is_processing : TaskState → Bool
is_processing TaskState.processing = true
is_processing _ = false

-- The settings, with what is not the program's own: SHA-256, UTF-8, and the bytes that SQLite's files
-- use beyond the pages that it can use again.
pub record Config : Type 0 where
  pub max_completed : ℕ
  pub max_bytes : ℕ
  pub sha256 : Text → Text
  pub utf8_bytes : Text → ℕ
  pub effective_bytes : List Task → ℕ

pub data LedgerError : Type 0 where
  ledger_conflict storage_capacity : LedgerError

pub data Submitted : Type 0 where
  refused : LedgerError → Submitted
  submitted : Task → Bool → List Task → Submitted

-- WHERE task_key = ?
unfoldable pub has_key : Text → Task → Bool
unfolding ◌≟◌
has_key key row = row.key ≟ key

abbrev pub over_budget : Config → Text → List Task → Bool
over_budget c payload rows =
    not (c.max_bytes == 0)
    && ltb c.max_bytes (c.effective_bytes rows + (c.utf8_bytes payload * 2 + 65536))

abbrev pub new_task : Config → Text → TaskKind → Text → Text → ℕ → Task
new_task c key kind envelope_id payload now = record {
  key = key;
  kind = kind;
  envelope_id = envelope_id;
  payload = payload;
  payload_sha256 = c.sha256 payload;
  state = TaskState.pending;
  attempts = 0;
  next_attempt_at = 0;
  lease_until = none;
  lease_token = none;
  derived_records = 0;
  derived_truncated = false;
  derived_reason = none;
  last_error = none;
  created_at = now;
  updated_at = now;
}

unfoldable pub submit : Config → Text → TaskKind → Text → Text → ℕ → List Task → Submitted
unfolding find_where has_key ◌≟◌
submit c key kind envelope_id payload now rows =
    let new = new_task c key kind envelope_id payload now in
    elim (find_where (has_key key) rows) [
      | some row ↦
          if not (is_final row.state) && not (row.payload_sha256 ≟ c.sha256 payload)
          then refused ledger_conflict
          else submitted row false rows
      | none ↦
          if over_budget c payload rows
          then refused storage_capacity
          else submitted new true (rows ++ new ∷ [])
    ]

unfoldable pub get : Text → List Task → Option Task
unfolding find_where has_key
get key rows = find_where (has_key key) rows

-- COALESCE(lease_until, 0) <= now
abbrev pub lease_over : Option ℕ → ℕ → Bool
lease_over none now = true
lease_over (some until) now = leb until now

-- What `_claim` may take.
unfoldable pub due : ℕ → Task → Bool
due now row =
    (is_pending row.state && leb row.next_attempt_at now)
    || (is_processing row.state && lease_over row.lease_until now)

abbrev pub creation_key : Task → Text
creation_key row = row.created_at ∷ []

abbrev pub first_task : List Task → Option Task
first_task [] = none
first_task (row ∷ rows) = some row

-- ORDER BY created_at ASC LIMIT 1
unfoldable pub oldest : (Task → Bool) → List Task → Option Task
unfolding sort_on select
oldest p rows = first_task (sort_on creation_key (select p rows))

abbrev pub claimed : ℕ → ℕ → Text → Task → Task
claimed now lease token row = record row {
  state = TaskState.processing;
  attempts = row.attempts + 1;
  lease_until = some (now + lease);
  lease_token = some token;
  updated_at = now;
}

-- `_claim`: the claimed task, if there is one, and the table.
unfoldable pub claim_where : (Task → Bool) → ℕ → ℕ → Text → List Task → Option Task × List Task
unfolding oldest due update_where has_key
claim_where p now lease token rows = elim (oldest (λ row. p row && due now row) rows) [
  | none ↦ (none, rows)
  | some row ↦ (
    some (claimed now lease token row),
    update_where (has_key row.key) (claimed now lease token) rows,
  )
]

unfoldable pub claim : Text → ℕ → ℕ → Text → List Task → Option Task × List Task
unfolding claim_where has_key
claim key now lease token rows = claim_where (has_key key) now lease token rows

unfoldable pub claim_next : ℕ → ℕ → Text → List Task → Option Task × List Task
unfolding claim_where
claim_next now lease token rows = claim_where (λ _. true) now lease token rows

-- WHERE task_key = ? AND state = 'processing' AND lease_token = ?
unfoldable pub held : Text → Text → Task → Bool
unfolding has_key ◌≟◌
held key token row = has_key key row && is_processing row.state && is_text row.lease_token token

unfoldable pub extend_lease : Text → Text → ℕ → ℕ → List Task → Bool × List Task
unfolding held update_where count_where
extend_lease key token now lease rows = (
  count_where (held key token) rows == 1,
  update_where (held key token)
      (λ row. record row { lease_until = some (now + lease); updated_at = now }) rows,
)

-- The two final states that `complete` is called with.
pub data Outcome : Type 0 where
  complete partial : Outcome

abbrev pub final_state : Outcome → TaskState
final_state Outcome.complete = TaskState.complete
final_state Outcome.partial = TaskState.partial

-- ORDER BY updated_at DESC LIMIT -1 OFFSET max_completed, of the completed rows.
abbrev pub update_key : Task → Text
update_key row = row.updated_at ∷ []

abbrev pub task_key : Task → Text
task_key row = row.key

unfoldable pub superfluous : Config → List Task → List Text
unfolding sort_on select
superfluous c rows =
    map task_key (
      drop c.max_completed (reverse (sort_on update_key (select (λ row. is_final row.state) rows))))

unfoldable pub prune_completed : Config → List Task → List Task
unfolding superfluous select text_in ◌≟◌
prune_completed c rows =
    let gone = superfluous c rows in select (λ row. not (text_in row.key gone)) rows

abbrev pub completed : Outcome → ℕ → Bool → Option Text → ℕ → Task → Task
completed status records truncated reason now row = record row {
  state = final_state status;
  payload = [];
  derived_records = records;
  derived_truncated = truncated;
  derived_reason = reason;
  last_error = none;
  lease_until = none;
  lease_token = none;
  updated_at = now;
}

unfoldable pub complete_task :
    Config → Text → Text → Outcome → ℕ → Bool → Option Text → ℕ → List Task → Bool × List Task
unfolding held count_where update_where prune_completed
complete_task c key token status records truncated reason now rows =
    let changed = count_where (held key token) rows in
    let updated =
      update_where (held key token) (completed status records truncated reason now) rows in
    (changed == 1, if changed == 0 then updated else prune_completed c updated)

abbrev pub released : Text → ℕ → ℕ → Task → Task
released reason delay now row = record row {
  state = TaskState.pending;
  next_attempt_at = now + delay;
  last_error = some (take 2048 reason);
  lease_until = none;
  lease_token = none;
  updated_at = now;
}

unfoldable pub retry : Text → Text → Text → ℕ → ℕ → List Task → Bool × List Task
unfolding held count_where update_where
retry key token reason delay now rows = (
  count_where (held key token) rows == 1,
  update_where (held key token) (released reason delay now) rows,
)

-- The four counts: pending, processing, complete, partial.
unfoldable pub counts : List Task → ℕ × ℕ × ℕ × ℕ
unfolding count_where
counts rows = (
  count_where (λ row. is_pending row.state) rows,
  count_where (λ row. is_processing row.state) rows,
  count_where (λ row. elim row.state [ TaskState.complete ↦ true | _ ↦ false ]) rows,
  count_where (λ row. elim row.state [ TaskState.partial ↦ true | _ ↦ false ]) rows,
)
