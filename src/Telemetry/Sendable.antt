-- ===== src/Telemetry/Sendable.antt =====
-- When `split_asset_report` returns and when it raises (form/src/kcatta_form/telemetry_chunks.py).
use kcatta.Prelude.{
  ℕ, suc, ◌+◌, ◌≡◌, ◌≤◌, ◌<◌, refl, Bool, true, false, not, ◌&&◌, none, List, [], ◌∷◌, ◌⊎◌, inl,
  inr, arith, Memᴰ, head, tail, ltb, leb, leb→le, ◌==◌, Bool-cases, length, ok, err,
}
use kcatta.Telemetry.Pack.{Result, value_error, max_envelope_items}
use kcatta.Telemetry.Lineage.{max_correlation_id_chars}
use kcatta.Telemetry.Split.{
  AssetReport, AssetWire, AssetChunk, asset_sizing, asset_budget, asset_stream,
  vulnerability_stream, recounted, valid_asset_report, asset_envelope, pack_assets, numbered,
  split_asset_report,
}
use kcatta.Telemetry.Bounded.{all_fit, IsWithin}
use kcatta.Telemetry.Names.{is_narrow, tens, IsDigest, chunk_id-ok}
use kcatta.Telemetry.Outcome.{pack_assets-outcome}
use kcatta.Telemetry.Assets.{list_bytes, asset_weight, AssetFits}

-- Each chunk becomes an envelope if it does so at every index that it may have.
numbered-ok :
    {Chunk Envelope : Type 0} (f : ℕ → Chunk → Result Envelope) (last i : ℕ) (chunks : List Chunk)
    → ((j : ℕ) (c : Chunk) → 1 ≤ j → j ≤ last → Memᴰ c chunks → (e : Envelope) × (f j c ≡ ok e))
    → 1 ≤ i
    → i + length chunks ≤ last + 1
    → (envelopes : List Envelope) × (numbered f i chunks ≡ ok envelopes)
unfolding numbered
numbered-ok f last i [] makes low high = ([], refl)
numbered-ok f last i (c ∷ chunks) makes low high =
    let (e, made) = makes i c low (omega (arith, high)) (head refl) in
    let (rest, others) =
      numbered-ok f last (suc i) chunks (λ j d a b m. makes j d a b (tail m)) (omega arith)
        (omega (arith, high)) in
    (e ∷ rest, rw (made, others) refl)

module _ {Asset Vulnerability Rest Header : Type 0} where
  -- What pydantic's JSON of a report without detector runs takes: the bytes of its fields, of the
  -- items of its two arrays and of the commas between them, and one byte for each character of a
  -- narrow id.
  pub record IsJson (w : AssetWire Asset Vulnerability Rest Header) : Type 0 where
    pub size :
        (report e : AssetReport Asset Vulnerability Rest Header)
        → report.detector_runs ≡ none
        → e.detector_runs ≡ none
        → e.header ≡ report.header
        → length e.report_id ≤ max_correlation_id_chars
        → is_narrow e.report_id ≡ true
        → w.encoded_size e
          ≤ w.encoded_size (asset_sizing report)
            + (list_bytes w.asset_size e.assets + list_bytes w.vulnerability_size e.vulnerabilities)

  -- There is room for an empty envelope, and for each item in an envelope of its own.
  unfoldable pub is_sendable :
      AssetWire Asset Vulnerability Rest Header
      → AssetReport Asset Vulnerability Rest Header
      → ℕ
      → Bool
  unfolding asset_budget asset_stream vulnerability_stream
  is_sendable w report max_bytes =
      not (max_bytes == 0)
      && leb (asset_budget w report max_bytes).empty_bytes max_bytes
      && all_fit (asset_budget w report max_bytes) (asset_stream w) report.assets
      && all_fit (asset_budget w report max_bytes) (vulnerability_stream w) report.vulnerabilities

  valid-within :
      (e : AssetReport Asset Vulnerability Rest Header)
      → length e.report_id ≤ max_correlation_id_chars
      → (length e.assets ≤ max_envelope_items) × (length e.vulnerabilities ≤ max_envelope_items)
      → not (valid_asset_report e) ≡ false
  unfolding valid_asset_report
  valid-within e short fits = ground arith

  module _ (w : AssetWire Asset Vulnerability Rest Header)
      (report : AssetReport Asset Vulnerability Rest Header) (max_bytes : ℕ) where
    sendable :
        (max_bytes == 0) ≡ false
        → leb (asset_budget w report max_bytes).empty_bytes max_bytes ≡ true
        → (all_fit (asset_budget w report max_bytes) (asset_stream w) report.assets
            && all_fit
                (asset_budget w report max_bytes)
                (vulnerability_stream w)
                report.vulnerabilities)
          ≡ true
        → is_sendable w report max_bytes ≡ true
    unfolding is_sendable
    sendable e f g = rw (e, f) g

    sent :
        {chunks : List (AssetChunk Asset Vulnerability)}
        {envelopes : List (AssetReport Asset Vulnerability Rest Header)}
        → (max_bytes == 0) ≡ false
        → pack_assets w report max_bytes ≡ ok chunks
        → numbered (asset_envelope w report max_bytes (length chunks)) 1 chunks ≡ ok envelopes
        → split_asset_report w report max_bytes ≡ ok envelopes
    unfolding split_asset_report
    sent e packed made = rw (e, packed) made

    unsendable_zero :
        (max_bytes == 0) ≡ true
        → (is_sendable w report max_bytes ≡ false)
          × (split_asset_report w report max_bytes ≡ err value_error)
    unfolding is_sendable split_asset_report
    unsendable_zero e = (rw e refl, rw e refl)

    unsendable_header :
        (max_bytes == 0) ≡ false
        → leb (asset_budget w report max_bytes).empty_bytes max_bytes ≡ false
        → (is_sendable w report max_bytes ≡ false)
          × (split_asset_report w report max_bytes ≡ err value_error)
    unfolding is_sendable split_asset_report
    unsendable_header e f =
        let over : ltb max_bytes (asset_budget w report max_bytes).empty_bytes ≡ true =
          ground arith in
        (rw (e, f) refl, rw (e, over) refl)

    unsendable_item :
        (max_bytes == 0) ≡ false
        → leb (asset_budget w report max_bytes).empty_bytes max_bytes ≡ true
        → (all_fit (asset_budget w report max_bytes) (asset_stream w) report.assets
            && all_fit
                (asset_budget w report max_bytes)
                (vulnerability_stream w)
                report.vulnerabilities)
          ≡ false
        → pack_assets w report max_bytes ≡ err value_error
        → (is_sendable w report max_bytes ≡ false)
          × (split_asset_report w report max_bytes ≡ err value_error)
    unfolding is_sendable split_asset_report
    unsendable_item e f off refused = (rw (e, f) off, rw (e, refused) refl)

  module _ (w : AssetWire Asset Vulnerability Rest Header)
      (report : AssetReport Asset Vulnerability Rest Header) (max_bytes total : ℕ) (json : IsJson w)
      (digest : IsDigest w.sha256) (runs : report.detector_runs ≡ none)
      (short : length report.report_id ≤ max_correlation_id_chars)
      (narrow : is_narrow report.report_id ≡ true) (few : total < tens 14) where
    -- A chunk within the budgets becomes an envelope.
    asset_envelope-ok :
        (i : ℕ) (c : AssetChunk Asset Vulnerability)
        → 1 ≤ i
        → i ≤ total
        → IsWithin
            (asset_budget w report max_bytes)
            (asset_weight w report max_bytes)
            (AssetFits w report max_bytes)
            c
        → (e : AssetReport Asset Vulnerability Rest Header) × (asset_envelope w report max_bytes
              total i c
            ≡ ok e)
    unfolding asset_envelope asset_budget
    asset_envelope-ok i c low high within =
        let (id, named, fits, plain) =
          chunk_id-ok w.sha256 digest report.report_id i total short narrow low high few in
        let e : AssetReport Asset Vulnerability Rest Header = record report {
          report_id = id;
          assets = c.0;
          vulnerabilities = c.1;
          detector_runs = recounted w.source c.1 report.detector_runs;
        } in
        let no_runs : recounted w.source c.1 report.detector_runs ≡ none = rw runs refl in
        let size = json.size report e runs no_runs refl fits plain in
        let bytes : w.encoded_size e ≤ max_bytes = omega (arith, size, within.bytes) in
        let small : ltb max_bytes (w.encoded_size e) ≡ false = ground arith in
        (e, rw (named, valid-within e fits within.items, small) refl)

  -- `split_asset_report` of a report without detector runs, whose id has at most 256 characters and is
  -- written with one byte for each, and whose items are fewer than 10 to the 13, returns envelopes if
  -- there is room for an empty envelope and for each item in one of its own; if not, it raises
  -- ValueError. It never raises the RuntimeErrors of its internal checks. This is under the hypotheses
  -- that JSON sizes add up as pydantic's do (IsJson) and that a digest has 64 characters (IsDigest).
  pub split_asset_report-outcome :
      (w : AssetWire Asset Vulnerability Rest Header)
      (report : AssetReport Asset Vulnerability Rest Header) (max_bytes : ℕ)
      → IsJson w
      → IsDigest w.sha256
      → report.detector_runs ≡ none
      → length report.report_id ≤ max_correlation_id_chars
      → is_narrow report.report_id ≡ true
      → length report.assets + length report.vulnerabilities < tens 13
      → ((is_sendable w report max_bytes ≡ true)
          × ((envelopes : List (AssetReport Asset Vulnerability Rest Header)) × (split_asset_report
                  w report max_bytes
                ≡ ok envelopes)))
        ⊎ ((is_sendable w report max_bytes ≡ false)
            × (split_asset_report w report max_bytes ≡ err value_error))
  split_asset_report-outcome w report max_bytes json digest runs short narrow few =
      elim (Bool-cases (max_bytes == 0)) [
        | inl e ↦ inr (unsendable_zero w report max_bytes e)
        | inr e ↦ elim (Bool-cases (leb (asset_budget w report max_bytes).empty_bytes max_bytes)) [
          | inr f ↦ inr (unsendable_header w report max_bytes e f)
          | inl f ↦
              elim (pack_assets-outcome w report max_bytes
                (leb→le (asset_budget w report max_bytes).empty_bytes max_bytes f)) [
                  | inr (off, refused) ↦ inr (unsendable_item w report max_bytes e f off refused)
                  | inl (all, (chunks, packed, within, count)) ↦
                      let total = length chunks in
                      let (envelopes, made) =
                        numbered-ok (asset_envelope w report max_bytes total) total 1 chunks
                          (λ j c low high m.
                            asset_envelope-ok w report max_bytes total json digest runs short narrow
                              (omega (arith, few, count)) j c low high (within c m))
                          (omega arith) (omega arith) in
                      inl (
                        sendable w report max_bytes e f all,
                        (envelopes, sent w report max_bytes e packed made),
                      )
                ]
        ]
      ]
