-- ===== src/Ingest/Worker.antt =====
-- The worker of analyzer/src/analyzer/api/ingest_queue.py: `_retry_delay`, `_process` and a round of
-- `_run` of the class DerivedWorker. Its thread, its heartbeat and its logging are not modelled.
use kcatta.Prelude.{
  ℕ, ◌-◌, ◌*◌, ◌^◌, min, Bool, Option, none, some, List, Text, is_empty, codes, if◌then◌else◌,
}
use kcatta.Ingest.Ledger.{Task, Config, Outcome, complete_task, retry}

-- The settings, in ticks.
pub record Settings : Type 0 where
  pub lease : ℕ
  pub retry_base : ℕ
  pub retry_max : ℕ

unfoldable pub retry_delay : Settings → ℕ → ℕ
retry_delay s attempts = min s.retry_max (s.retry_base * 2 ^ min (attempts - 1) 20)

-- What the processor does with a task: it raises an exception of a type, it fails, or it ends.
pub data Processed : Type 0 where
  raised : Text → Processed
  failed : Option Text → Processed
  ended : Outcome → ℕ → Bool → Option Text → Processed

-- `str(reason or "derived_processing_failed")`
abbrev pub failure_reason : Option Text → Text
failure_reason none = codes "derived_processing_failed"
failure_reason (some reason) = if is_empty reason then codes "derived_processing_failed" else reason

-- The write that ends the processing of a claimed task, at `now`.
unfoldable pub process :
    Config → Settings → Task → Text → Processed → ℕ → List Task → Bool × List Task
unfolding retry retry_delay complete_task
process c s task token (raised type_name) now rows =
    retry task.key token type_name (retry_delay s task.attempts) now rows
process c s task token (failed reason) now rows =
    retry task.key token (failure_reason reason) (retry_delay s task.attempts) now rows
process c s task token (ended status records truncated reason) now rows =
    complete_task c task.key token status records truncated reason now rows
