-- ===== src/Telemetry/Outcome.antt =====
-- When the packing of an AssetReport succeeds (form/src/kcatta_form/telemetry_chunks.py).
use kcatta.Prelude.{
  ℕ, ◌+◌, ◌≡◌, ◌≤◌, refl, true, false, ◌&&◌, List, [], ◌∷◌, ◌⊎◌, inl, inr, arith, Memᴰ, head, tail,
  ltb, length, ok, err,
}
use kcatta.Telemetry.Pack.{value_error, Packing, add, first_packing, packed_chunks, flush, or_one}
use kcatta.Telemetry.Split.{
  AssetReport, AssetWire, AssetChunk, asset_budget, asset_stream, vulnerability_stream, pack_assets,
}
use kcatta.Telemetry.Packed.{add-length, packed_chunks-length}
use kcatta.Telemetry.Bounded.{all_fit, IsWithin, IsGood, flush-IsGood, add-outcome}
use kcatta.Telemetry.Assets.{
  asset_weight, AssetFits, asset-IsMeasure, asset_stream-IsCounted, vulnerability_stream-IsCounted,
}

module _ {Asset Vulnerability Rest Header : Type 0} (w : AssetWire Asset Vulnerability Rest Header)
    (report : AssetReport Asset Vulnerability Rest Header) (max_bytes : ℕ) where
  first-IsGood :
      (asset_budget w report max_bytes).empty_bytes ≤ max_bytes
      → IsGood
          (asset_budget w report max_bytes)
          (asset_weight w report max_bytes)
          (AssetFits w report max_bytes)
          (first_packing (asset_budget w report max_bytes))
  unfolding asset_budget
  first-IsGood room = record {
    size = omega arith;
    bytes = room;
    items = (omega arith, omega arith);
    packed = λ c m. elim m [ ];
  }

  packed-IsWithin :
      (p : Packing (AssetChunk Asset Vulnerability))
      → (asset_budget w report max_bytes).empty_bytes ≤ max_bytes
      → IsGood
          (asset_budget w report max_bytes)
          (asset_weight w report max_bytes)
          (AssetFits w report max_bytes)
          p
      → (c : AssetChunk Asset Vulnerability)
      → Memᴰ c (packed_chunks (asset_budget w report max_bytes) p)
      → IsWithin
          (asset_budget w report max_bytes)
          (asset_weight w report max_bytes)
          (AssetFits w report max_bytes)
          c
  unfolding packed_chunks asset_budget
  packed-IsWithin p room g c m =
      let b = asset_budget w report max_bytes in
      let (flushed, _) =
        flush-IsGood b (asset_weight w report max_bytes) (AssetFits w report max_bytes)
          (asset-IsMeasure w report max_bytes) p g room in
      among (flush b p).packed flushed.packed m
    where
      among :
          (chunks : List (AssetChunk Asset Vulnerability))
          → ((d : AssetChunk Asset Vulnerability)
              → Memᴰ d chunks
              → IsWithin
                  (asset_budget w report max_bytes)
                  (asset_weight w report max_bytes)
                  (AssetFits w report max_bytes)
                  d)
          → Memᴰ c (or_one ([], []) chunks)
          → IsWithin
              (asset_budget w report max_bytes)
              (asset_weight w report max_bytes)
              (AssetFits w report max_bytes)
              c
      among [] within (head e) =
          rw e (record { bytes = omega (arith, room); items = (omega arith, omega arith) })
      among [] within (tail k) = elim k [ ]
      among (d ∷ chunks) within k = within c k

  roomy :
      (asset_budget w report max_bytes).empty_bytes ≤ max_bytes
      → ltb max_bytes (asset_budget w report max_bytes).empty_bytes ≡ false
  roomy le = ground arith

  pack_assets-refused_first :
      (asset_budget w report max_bytes).empty_bytes ≤ max_bytes
      → add
          (asset_budget w report max_bytes)
          (asset_stream w)
          report.assets
          (first_packing (asset_budget w report max_bytes))
        ≡ err value_error
      → pack_assets w report max_bytes ≡ err value_error
  unfolding pack_assets
  pack_assets-refused_first le h = rw (roomy le, h) refl

  pack_assets-refused_second :
      (asset_budget w report max_bytes).empty_bytes ≤ max_bytes
      → (p : Packing (AssetChunk Asset Vulnerability))
      → add
          (asset_budget w report max_bytes)
          (asset_stream w)
          report.assets
          (first_packing (asset_budget w report max_bytes))
        ≡ ok p
      → add (asset_budget w report max_bytes) (vulnerability_stream w) report.vulnerabilities p
        ≡ err value_error
      → pack_assets w report max_bytes ≡ err value_error
  unfolding pack_assets
  pack_assets-refused_second le p h k = rw (roomy le, h, k) refl

  pack_assets-packed :
      (asset_budget w report max_bytes).empty_bytes ≤ max_bytes
      → (p q : Packing (AssetChunk Asset Vulnerability))
      → add
          (asset_budget w report max_bytes)
          (asset_stream w)
          report.assets
          (first_packing (asset_budget w report max_bytes))
        ≡ ok p
      → add (asset_budget w report max_bytes) (vulnerability_stream w) report.vulnerabilities p
        ≡ ok q
      → pack_assets w report max_bytes ≡ ok (packed_chunks (asset_budget w report max_bytes) q)
  unfolding pack_assets
  pack_assets-packed le p q h k = rw (roomy le, h, k) refl

  -- `pack_assets` succeeds with chunks within the budgets, or refuses an item.
  pub pack_assets-outcome :
      (asset_budget w report max_bytes).empty_bytes ≤ max_bytes
      → ((all_fit (asset_budget w report max_bytes) (asset_stream w) report.assets
              && all_fit
                  (asset_budget w report max_bytes)
                  (vulnerability_stream w)
                  report.vulnerabilities
            ≡ true)
          × ((chunks : List (AssetChunk Asset Vulnerability)) × (pack_assets w report max_bytes
                ≡ ok chunks)
              × ((c : AssetChunk Asset Vulnerability)
                  → Memᴰ c chunks
                  → IsWithin
                      (asset_budget w report max_bytes)
                      (asset_weight w report max_bytes)
                      (AssetFits w report max_bytes)
                      c)
              × (length chunks ≤ length report.assets + length report.vulnerabilities + 1)))
        ⊎ ((all_fit (asset_budget w report max_bytes) (asset_stream w) report.assets
                && all_fit
                    (asset_budget w report max_bytes)
                    (vulnerability_stream w)
                    report.vulnerabilities
              ≡ false)
            × (pack_assets w report max_bytes ≡ err value_error))
  unfolding asset_budget
  pack_assets-outcome room =
      let b = asset_budget w report max_bytes in
      let weight = asset_weight w report max_bytes in
      let Fits = AssetFits w report max_bytes in
      let measure = asset-IsMeasure w report max_bytes in
      let s = asset_stream w in
      let t = vulnerability_stream w in
      elim (add-outcome b weight Fits measure s (asset_stream-IsCounted w report max_bytes)
        report.assets (first_packing b) (first-IsGood room) room) [
          | inr (off, refused) ↦ inr (rw off refl, pack_assets-refused_first room refused)
          | inl (fit, (p, made, good)) ↦
              elim (add-outcome b weight Fits measure t
                (vulnerability_stream-IsCounted w report max_bytes) report.vulnerabilities p good
                room) [
                  | inr (off, refused) ↦
                      inr (rw (fit, off) refl, pack_assets-refused_second room p made refused)
                  | inl (also, (q, last, done)) ↦
                      let few = packed_chunks-length b q in
                      let first_length = add-length b s report.assets (first_packing b) made in
                      let last_length = add-length b t report.vulnerabilities p last in
                      inl (
                        rw (fit, also) refl,
                        (
                          packed_chunks b q,
                          pack_assets-packed room p q made last,
                          packed-IsWithin q room done,
                          omega (arith, few.1, first_length, last_length),
                        ),
                      )
                ]
        ]
