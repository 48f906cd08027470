-- ===== src/Telemetry/Split.antt =====
-- `split_asset_report` and `split_trace_batch` of form/src/kcatta_form/telemetry_chunks.py. The types
-- of the items and of the other fields of an envelope are parameters: of an item the code uses its
-- size as JSON, and of a finding also its source.
use kcatta.Prelude.{
  ℕ, suc, Bool, not, ◌&&◌, Option, none, some, List, [], ◌∷◌, ◌++◌, Text, codes, text_in, is_empty,
  ltb, leb, ◌==◌, if◌then◌else◌, length, map, count_where, ok, ◌>>=◌, ◌>>◌, raise_if,
}
use kcatta.Telemetry.Pack.{
  Result, value_error, runtime_error, validation_error, max_envelope_items, Stream, Budget, add,
  first_packing, packed_chunks,
}
use kcatta.Telemetry.Lineage.{max_correlation_id_chars, lineage_root, lineage_child}

pub data DetectorKind : Type 0 where
  osv debian_tracker defender malware posture secret : DetectorKind

-- A DetectorRun; `rest` is its status and reason.
pub record DetectorRun (Rest : Type 0) : Type 0 where
  pub detector : DetectorKind
  pub finding_count : ℕ
  pub rest : Rest

-- An AssetReport; `header` is its other fields.
pub record AssetReport (Asset Vulnerability Rest Header : Type 0) : Type 0 where
  pub report_id : Text
  pub assets : List Asset
  pub vulnerabilities : List Vulnerability
  pub detector_runs : Option (List (DetectorRun Rest))
  pub header : Header

-- What pydantic makes of the values, and SHA-256: the bytes of the JSON of an item and of a report.
pub record AssetWire (Asset Vulnerability Rest Header : Type 0) : Type 0 where
  pub asset_size : Asset → ℕ
  pub vulnerability_size : Vulnerability → ℕ
  pub encoded_size : AssetReport Asset Vulnerability Rest Header → ℕ
  pub source : Vulnerability → Text
  pub sha256 : Text → Text

-- `source_by_detector`
unfoldable pub sources_of : DetectorKind → List Text
sources_of defender = codes "microsoft-defender" ∷ codes "microsoft-defender-event" ∷ []
sources_of malware = codes "kcatta-malware" ∷ codes "clamav" ∷ []
sources_of posture = codes "posture" ∷ []
sources_of secret = codes "secret" ∷ []
sources_of osv = []
sources_of debian_tracker = []

-- "x" * 256
unfoldable pub filler : ℕ → Text
filler ℕ.zero = []
filler (suc n) = 120 ∷ filler n

-- `enumerate(packed, start=1)` with the first index as an argument.
unfoldable pub numbered :
    {Chunk Envelope : Type 0}
    → (ℕ → Chunk → Result Envelope)
    → ℕ
    → List Chunk
    → Result (List Envelope)
numbered f index [] = ok []
numbered f index (c ∷ chunks) = do
  envelope ← f index c
  rest ← numbered f (suc index) chunks
  ok (envelope ∷ rest)

-- The identifier of the chunk at an index.
unfoldable pub chunk_id : Text → ℕ → ℕ → Result Text
unfolding lineage_child
chunk_id root index total =
    if index == 1 then ok root else lineage_child root (codes "chunk") index total

unfoldable pub root_id : (Text → Text) → Text → ℕ → Text
unfolding lineage_root
root_id sha256 original total = if ltb 1 total then lineage_root sha256 original else original

abbrev pub AssetChunk : Type 0 → Type 0 → Type 0
AssetChunk Asset Vulnerability = List Asset × List Vulnerability

module _ {Vulnerability Rest : Type 0} where
  unfoldable pub recount :
      (Vulnerability → Text) → List Vulnerability → DetectorRun Rest → DetectorRun Rest
  unfolding sources_of text_in count_where
  recount source findings run = record run {
    finding_count = count_where (λ f. text_in (source f) (sources_of run.detector)) findings;
  }

  abbrev pub recounted :
      (Vulnerability → Text)
      → List Vulnerability
      → Option (List (DetectorRun Rest))
      → Option (List (DetectorRun Rest))
  recounted source findings none = none
  recounted source findings (some runs) = some (map (recount source findings) runs)

module _ {Asset Vulnerability Rest Header : Type 0} where
  -- `sizing`
  unfoldable pub asset_sizing :
      AssetReport Asset Vulnerability Rest Header → AssetReport Asset Vulnerability Rest Header
  unfolding filler
  asset_sizing report = record report {
    report_id = filler max_correlation_id_chars;
    assets = [];
    vulnerabilities = [];
  }

  unfoldable pub asset_budget :
      AssetWire Asset Vulnerability Rest Header
      → AssetReport Asset Vulnerability Rest Header
      → ℕ
      → Budget (AssetChunk Asset Vulnerability)
  unfolding asset_sizing
  asset_budget w report max_bytes = record {
    fresh = ([], []);
    is_blank = λ (assets, vulnerabilities). is_empty assets && is_empty vulnerabilities;
    empty_bytes = w.encoded_size (asset_sizing report);
    max_bytes = max_bytes;
  }

  unfoldable pub asset_stream :
      AssetWire Asset Vulnerability Rest Header → Stream (AssetChunk Asset Vulnerability) Asset
  asset_stream w = record {
    count = λ c. length c.0;
    append = λ a c. (c.0 ++ (a ∷ []), c.1);
    item_size = w.asset_size;
  }

  unfoldable pub vulnerability_stream :
      AssetWire Asset Vulnerability Rest Header
      → Stream (AssetChunk Asset Vulnerability) Vulnerability
  vulnerability_stream w = record {
    count = λ c. length c.1;
    append = λ v c. (c.0, c.1 ++ (v ∷ []));
    item_size = w.vulnerability_size;
  }

  -- The length limits that `model_validate` checks again; the other fields were validated before.
  unfoldable pub valid_asset_report : AssetReport Asset Vulnerability Rest Header → Bool
  valid_asset_report report =
      leb (length report.report_id) max_correlation_id_chars
      && leb (length report.assets) max_envelope_items
      && leb (length report.vulnerabilities) max_envelope_items

  unfoldable pub asset_envelope :
      AssetWire Asset Vulnerability Rest Header
      → AssetReport Asset Vulnerability Rest Header
      → ℕ
      → ℕ
      → ℕ
      → AssetChunk Asset Vulnerability
      → Result (AssetReport Asset Vulnerability Rest Header)
  unfolding chunk_id root_id recount valid_asset_report
  asset_envelope w report max_bytes total index (assets, vulnerabilities) = do
    report_id ← chunk_id (root_id w.sha256 report.report_id total) index total
    let chunk = record report {
      report_id = report_id;
      assets = assets;
      vulnerabilities = vulnerabilities;
      detector_runs = recounted w.source vulnerabilities report.detector_runs;
    }
    raise_if (not (valid_asset_report chunk)) validation_error
    raise_if (ltb max_bytes (w.encoded_size chunk)) runtime_error
    ok chunk

  -- The chunks of the two streams.
  unfoldable pub pack_assets :
      AssetWire Asset Vulnerability Rest Header
      → AssetReport Asset Vulnerability Rest Header
      → ℕ
      → Result (List (AssetChunk Asset Vulnerability))
  unfolding asset_budget asset_stream vulnerability_stream add packed_chunks
  pack_assets w report max_bytes = do
    let b = asset_budget w report max_bytes
    raise_if (ltb max_bytes b.empty_bytes) value_error
    p ← add b (asset_stream w) report.assets (first_packing b)
    q ← add b (vulnerability_stream w) report.vulnerabilities p
    ok (packed_chunks b q)

  unfoldable pub split_asset_report :
      AssetWire Asset Vulnerability Rest Header
      → AssetReport Asset Vulnerability Rest Header
      → ℕ
      → Result (List (AssetReport Asset Vulnerability Rest Header))
  unfolding pack_assets numbered asset_envelope
  split_asset_report w report max_bytes = do
    raise_if (max_bytes == 0) value_error
    chunks ← pack_assets w report max_bytes
    numbered (asset_envelope w report max_bytes (length chunks)) 1 chunks
