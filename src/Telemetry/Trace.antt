-- ===== src/Telemetry/Trace.antt =====
-- `split_trace_batch` of form/src/kcatta_form/telemetry_chunks.py: the packing of three streams.
use kcatta.Prelude.{
  ℕ, Bool, not, ◌&&◌, List, [], ◌∷◌, ◌++◌, Text, is_empty, ltb, leb, ◌==◌, length, ok, ◌>>=◌, ◌>>◌,
  raise_if,
}
use kcatta.Telemetry.Pack.{
  Result, value_error, runtime_error, validation_error, max_envelope_items, Stream, Budget, add,
  first_packing, packed_chunks,
}
use kcatta.Telemetry.Lineage.{max_correlation_id_chars}
use kcatta.Telemetry.Split.{filler, numbered, chunk_id, root_id}

-- A TraceBatch; `header` is its other fields.
pub record TraceBatch (Event FileEvent ProcessEvent Header : Type 0) : Type 0 where
  pub batch_id : Text
  pub events : List Event
  pub file_events : List FileEvent
  pub process_events : List ProcessEvent
  pub header : Header

-- What pydantic makes of the values, and SHA-256.
pub record TraceWire (Event FileEvent ProcessEvent Header : Type 0) : Type 0 where
  pub event_size : Event → ℕ
  pub file_event_size : FileEvent → ℕ
  pub process_event_size : ProcessEvent → ℕ
  pub encoded_size : TraceBatch Event FileEvent ProcessEvent Header → ℕ
  pub sha256 : Text → Text

pub record TraceChunk (Event FileEvent ProcessEvent : Type 0) : Type 0 where
  pub events : List Event
  pub file_events : List FileEvent
  pub process_events : List ProcessEvent

module _ {Event FileEvent ProcessEvent Header : Type 0}
    (w : TraceWire Event FileEvent ProcessEvent Header)
    (batch : TraceBatch Event FileEvent ProcessEvent Header) (max_bytes : ℕ) where
  -- `sizing`
  unfoldable pub trace_sizing : TraceBatch Event FileEvent ProcessEvent Header
  unfolding filler
  trace_sizing = record batch {
    batch_id = filler max_correlation_id_chars;
    events = [];
    file_events = [];
    process_events = [];
  }

  unfoldable pub trace_budget : Budget (TraceChunk Event FileEvent ProcessEvent)
  unfolding trace_sizing
  trace_budget = record {
    fresh = record { events = []; file_events = []; process_events = [] };
    is_blank = λ c. is_empty c.events && is_empty c.file_events && is_empty c.process_events;
    empty_bytes = w.encoded_size trace_sizing;
    max_bytes = max_bytes;
  }

  unfoldable pub event_stream : Stream (TraceChunk Event FileEvent ProcessEvent) Event
  event_stream = record {
    count = λ c. length c.events;
    append = λ e c. record c { events = c.events ++ (e ∷ []) };
    item_size = w.event_size;
  }

  unfoldable pub file_event_stream : Stream (TraceChunk Event FileEvent ProcessEvent) FileEvent
  file_event_stream = record {
    count = λ c. length c.file_events;
    append = λ e c. record c { file_events = c.file_events ++ (e ∷ []) };
    item_size = w.file_event_size;
  }

  unfoldable pub process_event_stream :
      Stream (TraceChunk Event FileEvent ProcessEvent) ProcessEvent
  process_event_stream = record {
    count = λ c. length c.process_events;
    append = λ e c. record c { process_events = c.process_events ++ (e ∷ []) };
    item_size = w.process_event_size;
  }

  -- The chunks of the three streams.
  unfoldable pub pack_traces : Result (List (TraceChunk Event FileEvent ProcessEvent))
  unfolding trace_budget event_stream file_event_stream process_event_stream add packed_chunks
  pack_traces = do
    raise_if (ltb max_bytes trace_budget.empty_bytes) value_error
    p ← add trace_budget event_stream batch.events (first_packing trace_budget)
    q ← add trace_budget file_event_stream batch.file_events p
    r ← add trace_budget process_event_stream batch.process_events q
    ok (packed_chunks trace_budget r)

  -- The length limits that `model_validate` checks again; the other fields were validated before.
  unfoldable pub valid_trace_batch : TraceBatch Event FileEvent ProcessEvent Header → Bool
  valid_trace_batch b =
      leb (length b.batch_id) max_correlation_id_chars
      && leb (length b.events) max_envelope_items
      && leb (length b.file_events) max_envelope_items
      && leb (length b.process_events) max_envelope_items

  unfoldable pub trace_envelope :
      ℕ
      → ℕ
      → TraceChunk Event FileEvent ProcessEvent
      → Result (TraceBatch Event FileEvent ProcessEvent Header)
  unfolding chunk_id root_id valid_trace_batch
  trace_envelope total index c = do
    batch_id ← chunk_id (root_id w.sha256 batch.batch_id total) index total
    let chunk : TraceBatch Event FileEvent ProcessEvent Header = record batch {
      batch_id = batch_id;
      events = c.events;
      file_events = c.file_events;
      process_events = c.process_events;
    }
    raise_if (not (valid_trace_batch chunk)) validation_error
    raise_if (ltb max_bytes (w.encoded_size chunk)) runtime_error
    ok chunk

  unfoldable pub split_trace_batch : Result (List (TraceBatch Event FileEvent ProcessEvent Header))
  unfolding pack_traces numbered trace_envelope
  split_trace_batch = do
    raise_if (max_bytes == 0) value_error
    chunks ← pack_traces
    numbered (trace_envelope (length chunks)) 1 chunks
