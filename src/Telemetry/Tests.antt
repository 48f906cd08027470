-- ===== src/Telemetry/Tests.antt =====
-- The theorems on form/src/kcatta_form/telemetry_chunks.py applied to a report that needs two
-- envelopes. An item is its size.
use kcatta.Prelude.{
  ℕ, zero, suc, ◌+◌, ◌≡◌, ◌⊎◌, refl, true, false, none, List, [], ◌∷◌, Memᴰ, Text, codes, arith,
  length, ltb, if◌then◌else◌, ok, err,
}
use kcatta.Telemetry.Pack.{Result, value_error, runtime_error}
use kcatta.Telemetry.Split.{AssetReport, AssetWire, asset_sizing, filler, split_asset_report}
use kcatta.Telemetry.Packed.{flat}
use kcatta.Telemetry.Names.{IsDigest}
use kcatta.Telemetry.Assets.{list_bytes}
use kcatta.Telemetry.Lossless.{IsEnvelope, split_asset_report-lossless}
use kcatta.Telemetry.Trace.{TraceBatch, TraceWire, split_trace_batch}
use kcatta.Telemetry.Traces.{IsTraceEnvelope, split_trace_batch-lossless}
use kcatta.Telemetry.Sendable.{IsJson, is_sendable, split_asset_report-outcome}

abbrev Report : Type 0
Report = AssetReport ℕ ℕ (Unit {0}) (Unit {0})

abbrev repeated : ℕ → Text
repeated zero = []
repeated (suc n) = 97 ∷ repeated n

abbrev wire : AssetWire ℕ ℕ (Unit {0}) (Unit {0})
wire = record {
  asset_size = λ n. n;
  vulnerability_size = λ n. n;
  encoded_size = λ e.
      length e.report_id
      + 10
      + (list_bytes (λ n. n) e.assets + list_bytes (λ n. n) e.vulnerabilities);
  source = λ n. codes "posture";
  sha256 = λ s. repeated 64;
}

abbrev report : Report
report = record {
  report_id = codes "r-1";
  assets = 5 ∷ 6 ∷ 7 ∷ [];
  vulnerabilities = 4 ∷ [];
  detector_runs = none;
  header = tt;
}

abbrev splitting : Result (List Report)
splitting = split_asset_report wire report 280

abbrev envelopes_in : Result (List Report) → List Report
envelopes_in (ok envelopes) = envelopes
envelopes_in (err e) = []

splitting-ok : splitting ≡ ok (envelopes_in splitting)
unfolding split_asset_report
splitting-ok = refl

two_envelopes : length (envelopes_in splitting) ≡ 2
unfolding split_asset_report
two_envelopes = refl

split_asset_report-lossless_example :
    (flat (λ (e : Report). e.assets) (envelopes_in splitting) ≡ 5 ∷ 6 ∷ 7 ∷ [])
    × (flat (λ (e : Report). e.vulnerabilities) (envelopes_in splitting) ≡ 4 ∷ [])
    × ((e : Report) → Memᴰ e (envelopes_in splitting) → IsEnvelope wire report 280 e)
split_asset_report-lossless_example =
    split_asset_report-lossless wire report 280 (envelopes_in splitting) splitting-ok

length-filler : length (filler 256) ≡ 256
unfolding filler
length-filler = refl

wire-IsJson : IsJson wire
unfolding asset_sizing
wire-IsJson = record { size = λ r e _ _ _ short _. omega (arith, short, length-filler) }

wire-IsDigest : IsDigest wire.sha256
wire-IsDigest = record { size = λ s. refl; narrow = λ s. refl }

split_asset_report-outcome_example :
    ((is_sendable wire report 280 ≡ true)
      × ((envelopes : List Report) × (split_asset_report wire report 280 ≡ ok envelopes)))
    ⊎ ((is_sendable wire report 280 ≡ false)
        × (split_asset_report wire report 280 ≡ err value_error))
split_asset_report-outcome_example =
    split_asset_report-outcome wire report 280 wire-IsJson wire-IsDigest refl (omega arith) refl
      (omega arith)

-- The bytes of a text in UTF-8, if each of its characters is ASCII or takes three bytes.
abbrev utf8_bytes : Text → ℕ
utf8_bytes [] = 0
utf8_bytes (c ∷ s) = (if ltb c 128 then 1 else 3) + utf8_bytes s

abbrev utf8_wire : AssetWire ℕ ℕ (Unit {0}) (Unit {0})
utf8_wire = record wire {
  encoded_size = λ e.
      utf8_bytes e.report_id
      + 10
      + (list_bytes (λ n. n) e.assets + list_bytes (λ n. n) e.vulnerabilities);
}

abbrev wide : ℕ → Text
wide zero = []
wide (suc n) = 20013 ∷ wide n

-- Each item of this report fits in an envelope of its own, and yet the id, of 100 characters that
-- take three bytes each, makes `split_asset_report` raise the RuntimeError of its last check.
wide_id :
    split_asset_report utf8_wire (record report { report_id = wide 100 }) 280 ≡ err runtime_error
unfolding split_asset_report
wide_id = refl

wide_sendable : is_sendable utf8_wire (record report { report_id = wide 100 }) 280 ≡ true
unfolding is_sendable
wide_sendable = refl

abbrev Batch : Type 0
Batch = TraceBatch ℕ ℕ ℕ (Unit {0})

abbrev trace_wire : TraceWire ℕ ℕ ℕ (Unit {0})
trace_wire = record {
  event_size = λ n. n;
  file_event_size = λ n. n;
  process_event_size = λ n. n;
  encoded_size = λ b.
      length b.batch_id
      + 10
      + (list_bytes (λ n. n) b.events
          + list_bytes (λ n. n) b.file_events
          + list_bytes (λ n. n) b.process_events);
  sha256 = λ s. repeated 64;
}

abbrev batch : Batch
batch = record {
  batch_id = codes "b-1";
  events = 9 ∷ 8 ∷ [];
  file_events = 5 ∷ [];
  process_events = 6 ∷ 3 ∷ [];
  header = tt;
}

abbrev batches : Result (List Batch)
batches = split_trace_batch trace_wire batch 280

abbrev batches_in : Result (List Batch) → List Batch
batches_in (ok envelopes) = envelopes
batches_in (err e) = []

batches-ok : batches ≡ ok (batches_in batches)
unfolding split_trace_batch
batches-ok = refl

three_batches : length (batches_in batches) ≡ 3
unfolding split_trace_batch
three_batches = refl

split_trace_batch-lossless_example :
    (flat (λ (e : Batch). e.events) (batches_in batches) ≡ 9 ∷ 8 ∷ [])
    × (flat (λ (e : Batch). e.file_events) (batches_in batches) ≡ 5 ∷ [])
    × (flat (λ (e : Batch). e.process_events) (batches_in batches) ≡ 6 ∷ 3 ∷ [])
    × ((e : Batch) → Memᴰ e (batches_in batches) → IsTraceEnvelope trace_wire batch 280 e)
split_trace_batch-lossless_example =
    split_trace_batch-lossless trace_wire batch 280 (batches_in batches) batches-ok
