-- ===== src/Telemetry/Lossless.antt =====
-- `split_asset_report` loses nothing, and its envelopes keep to the limits
-- (form/src/kcatta_form/telemetry_chunks.py).
use kcatta.Prelude.{
  ℕ, suc, ◌≡◌, ◌≤◌, refl, sym, ap, ◌∙◌, false, not, List, [], ◌∷◌, ◌++◌, arith, Memᴰ, head, tail,
  ltb, ◌==◌, length, ok, ok_elim, >>-eq-ok, ok-injective,
}
use kcatta.Telemetry.Pack.{Result, value_error, runtime_error, validation_error, max_envelope_items}
use kcatta.Telemetry.Lineage.{max_correlation_id_chars}
use kcatta.Telemetry.Split.{
  AssetReport, AssetWire, AssetChunk, recounted, chunk_id, root_id, valid_asset_report,
  asset_envelope, pack_assets, numbered, split_asset_report,
}
use kcatta.Telemetry.Packed.{flat}
use kcatta.Telemetry.Assets.{pack_assets-contents}

module _ {Chunk Envelope : Type 0} (f : ℕ → Chunk → Result Envelope) where
  pub numbered-flat :
      {Y : Type 0} (view : Chunk → List Y) (view' : Envelope → List Y)
      → ((i : ℕ) (c : Chunk) (e : Envelope) → f i c ≡ ok e → view' e ≡ view c)
      → (i : ℕ) (chunks : List Chunk) {envelopes : List Envelope}
      → numbered f i chunks ≡ ok envelopes
      → flat view' envelopes ≡ flat view chunks
  unfolding numbered
  numbered-flat view view' same i [] h = rw (sym (ok-injective h)) refl
  numbered-flat view view' same i (c ∷ chunks) h = ok_elim (f i c) _ h λ e made h1.
      ok_elim (numbered f (suc i) chunks) _ h1 λ rest others h2.
        rw (sym (ok-injective h2), same i c e made)
          (ap (λ z. view c ++ z) (numbered-flat view view' same (suc i) chunks others))

  pub numbered-all :
      (P : Envelope → Type 0)
      → ((i : ℕ) (c : Chunk) (e : Envelope) → f i c ≡ ok e → P e)
      → (i : ℕ) (chunks : List Chunk) {envelopes : List Envelope}
      → numbered f i chunks ≡ ok envelopes
      → (e : Envelope) → Memᴰ e envelopes
      → P e
  unfolding numbered
  numbered-all P holds i [] h e m = absurd (elim (rw (sym (ok-injective h)) at m) [ ])
  numbered-all P holds i (c ∷ chunks) h e m = ok_elim (f i c) _ h λ d made h1.
      ok_elim (numbered f (suc i) chunks) _ h1 λ rest others h2.
        elim (rw (sym (ok-injective h2)) at m) [
          | head same ↦ rw same (holds i c d made)
          | tail k ↦ numbered-all P holds (suc i) chunks others e k
        ]

module _ {Asset Vulnerability Rest Header : Type 0} where
  -- An envelope that the Analyzer accepts of a report: within the limits, with the report's own
  -- header.
  pub record IsEnvelope (w : AssetWire Asset Vulnerability Rest Header)
      (report : AssetReport Asset Vulnerability Rest Header) (max_bytes : ℕ)
      (e : AssetReport Asset Vulnerability Rest Header) : Type 0 where
    pub header : e.header ≡ report.header
    pub runs : e.detector_runs ≡ recounted w.source e.vulnerabilities report.detector_runs
    pub bytes : w.encoded_size e ≤ max_bytes
    pub id : length e.report_id ≤ max_correlation_id_chars
    pub assets : length e.assets ≤ max_envelope_items
    pub vulnerabilities : length e.vulnerabilities ≤ max_envelope_items

  valid-limits :
      (e : AssetReport Asset Vulnerability Rest Header)
      → not (valid_asset_report e) ≡ false
      → (length e.report_id ≤ max_correlation_id_chars)
        × (length e.assets ≤ max_envelope_items)
        × (length e.vulnerabilities ≤ max_envelope_items)
  unfolding valid_asset_report
  valid-limits e h = ground arith

  module _ (w : AssetWire Asset Vulnerability Rest Header)
      (report : AssetReport Asset Vulnerability Rest Header) (max_bytes total : ℕ) where
    made-IsEnvelope :
        (i : ℕ) (c : AssetChunk Asset Vulnerability)
        (e : AssetReport Asset Vulnerability Rest Header)
        → asset_envelope w report max_bytes total i c ≡ ok e
        → (e.assets ≡ c.0) × (e.vulnerabilities ≡ c.1) × IsEnvelope w report max_bytes e
    unfolding asset_envelope
    made-IsEnvelope i (assets, vulnerabilities) e h =
        ok_elim (chunk_id (root_id w.sha256 report.report_id total) i total) _ h λ id _ h1.
          let made = record report {
            report_id = id;
            assets = assets;
            vulnerabilities = vulnerabilities;
            detector_runs = recounted w.source vulnerabilities report.detector_runs;
          } in
          let (valid, h2) = >>-eq-ok (not (valid_asset_report made)) validation_error _ h1 in
          let (small, h3) = >>-eq-ok (ltb max_bytes (w.encoded_size made)) runtime_error _ h2 in
          let (a, b, d) = valid-limits made valid in
          rw (sym (ok-injective h3)) (
            refl,
            refl,
            record {
              header = refl;
              runs = refl;
              bytes = ground arith;
              id = a;
              assets = b;
              vulnerabilities = d;
            },
          )

  -- When `split_asset_report` returns, the assets of its envelopes one behind the other are the
  -- assets of the report, and the findings its findings; each envelope has the report's other
  -- fields, with the findings of its detector runs counted again, at most 4096 assets, 4096 findings
  -- and 256 characters in its id, and at most `max_bytes` bytes as JSON.
  pub split_asset_report-lossless :
      (w : AssetWire Asset Vulnerability Rest Header)
      (report : AssetReport Asset Vulnerability Rest Header) (max_bytes : ℕ)
      (envelopes : List (AssetReport Asset Vulnerability Rest Header))
      → split_asset_report w report max_bytes ≡ ok envelopes
      → (flat (λ (e : AssetReport Asset Vulnerability Rest Header). e.assets) envelopes
          ≡ report.assets)
        × (flat (λ (e : AssetReport Asset Vulnerability Rest Header). e.vulnerabilities) envelopes
            ≡ report.vulnerabilities)
        × ((e : AssetReport Asset Vulnerability Rest Header)
            → Memᴰ e envelopes
            → IsEnvelope w report max_bytes e)
  unfolding split_asset_report
  split_asset_report-lossless w report max_bytes envelopes h =
      let (_, h1) = >>-eq-ok (max_bytes == 0) value_error _ h in
      ok_elim (pack_assets w report max_bytes) _ h1 λ chunks packed h2.
        let (assets, vulnerabilities) = pack_assets-contents w report max_bytes packed in
        let f = asset_envelope w report max_bytes (length chunks) in
        let made = made-IsEnvelope w report max_bytes (length chunks) in
        (
          numbered-flat f (λ c. c.0) (λ (e : AssetReport Asset Vulnerability Rest Header). e.assets)
                (λ i c e k. (made i c e k).0) 1 chunks h2
              ∙ assets,
          numbered-flat f (λ c. c.1)
                (λ (e : AssetReport Asset Vulnerability Rest Header). e.vulnerabilities)
                (λ i c e k. (made i c e k).1) 1 chunks h2
              ∙ vulnerabilities,
          numbered-all f (IsEnvelope w report max_bytes) (λ i c e k. (made i c e k).2) 1 chunks h2,
        )
