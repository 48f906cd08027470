-- ===== src/Telemetry/Assets.antt =====
-- The streams of an AssetReport in the packing of form/src/kcatta_form/telemetry_chunks.py.
use kcatta.Prelude.{
  ℕ, ◌+◌, ◌≡◌, ◌≤◌, refl, sym, ap, ◌∙◌, true, List, [], ◌∷◌, ◌++◌, arith, is_empty, ltb, ◌==◌,
  if◌then◌else◌, length, length-append, ok, ok_elim, >>-eq-ok, ok-injective,
}
use kcatta.Telemetry.Pack.{value_error, max_envelope_items, Packing, separator, add, first_packing}
use kcatta.Telemetry.Split.{
  AssetReport, AssetWire, AssetChunk, asset_budget, asset_stream, vulnerability_stream, pack_assets,
}
use kcatta.Telemetry.Packed.{
  flat, contents, IsView, add-contents, packed_chunks-contents, append_nil,
}
use kcatta.Telemetry.Bounded.{IsMeasure, IsCounted}

-- The bytes of the elements of a JSON array and of the commas between them.
abbrev pub list_bytes : {Item : Type 0} → (Item → ℕ) → List Item → ℕ
list_bytes size [] = 0
list_bytes size (x ∷ []) = size x
list_bytes size (x ∷ y ∷ ys) = size x + 1 + list_bytes size (y ∷ ys)

abbrev comma : {Item : Type 0} → List Item → ℕ
comma [] = 0
comma (x ∷ xs) = 1

list_bytes-snoc :
    {Item : Type 0} (size : Item → ℕ) (xs : List Item) (x : Item)
    → list_bytes size (xs ++ (x ∷ [])) ≡ list_bytes size xs + (comma xs + size x)
list_bytes-snoc size [] x = omega arith
list_bytes-snoc size (y ∷ []) x = omega arith
list_bytes-snoc size (y ∷ z ∷ zs) x = omega (arith, list_bytes-snoc size (z ∷ zs) x)

comma-length : {Item : Type 0} (xs : List Item) → (if length xs == 0 then 0 else 1) ≡ comma xs
comma-length [] = refl
comma-length (x ∷ xs) = ground arith

pub nothing : {Item : Type 0} (xs : List Item) → is_empty xs ≡ true → xs ≡ []
nothing [] e = refl
nothing (x ∷ xs) e = cc

pub single_list : {Item : Type 0} (xs : List Item) → flat (λ x. x ∷ []) xs ≡ xs
single_list [] = refl
single_list (x ∷ xs) = ap (λ rest. x ∷ rest) (single_list xs)

abbrev pub nil_of : {Item Other : Type 0} → Item → List Other
nil_of x = []

pub no_list :
    {Item : Type 0} (Other : Type 0) (xs : List Item) → flat (nil_of {Other = Other}) xs ≡ []
no_list Other [] = refl
no_list Other (x ∷ xs) = no_list Other xs

module _ {Asset Vulnerability Rest Header : Type 0} (w : AssetWire Asset Vulnerability Rest Header)
    (report : AssetReport Asset Vulnerability Rest Header) (max_bytes : ℕ) where
  -- The bytes of the items of a chunk, and the limit on their number.
  abbrev pub asset_weight : AssetChunk Asset Vulnerability → ℕ
  asset_weight c = list_bytes w.asset_size c.0 + list_bytes w.vulnerability_size c.1

  abbrev pub AssetFits : AssetChunk Asset Vulnerability → Type 0
  AssetFits c = (length c.0 ≤ max_envelope_items) × (length c.1 ≤ max_envelope_items)

  blank_chunk :
      (c : AssetChunk Asset Vulnerability)
      → (asset_budget w report max_bytes).is_blank c ≡ true
      → (c.0 ≡ []) × (c.1 ≡ [])
  unfolding asset_budget
  blank_chunk (assets, vulnerabilities) e =
      (nothing assets (ground arith), nothing vulnerabilities (ground arith))

  pub assets-IsView : IsView (asset_budget w report max_bytes) (λ c. c.0)
  unfolding asset_budget
  assets-IsView = record { blank = λ c e. (blank_chunk c e).0; fresh = refl }

  pub vulnerabilities-IsView : IsView (asset_budget w report max_bytes) (λ c. c.1)
  unfolding asset_budget
  vulnerabilities-IsView = record { blank = λ c e. (blank_chunk c e).1; fresh = refl }

  pub asset-IsMeasure : IsMeasure (asset_budget w report max_bytes) asset_weight AssetFits
  unfolding asset_budget
  asset-IsMeasure = record {
    fresh = refl;
    fresh_fits = (omega arith, omega arith);
    blank = λ c e. let (a, v) = blank_chunk c e in rw (a, v) refl;
  }

  pub asset_stream-IsCounted :
      IsCounted (asset_budget w report max_bytes) asset_weight AssetFits (asset_stream w)
  unfolding asset_budget asset_stream separator
  asset_stream-IsCounted = record {
    grows = λ x c. omega (arith, list_bytes-snoc w.asset_size c.0 x, comma-length c.0);
    fits = λ x c few fit. (omega (arith, few, length-append c.0 (x ∷ [])), fit.1);
    fresh = refl;
    blank = λ c e. rw ((blank_chunk c e).0) refl;
  }

  pub vulnerability_stream-IsCounted :
      IsCounted (asset_budget w report max_bytes) asset_weight AssetFits (vulnerability_stream w)
  unfolding asset_budget vulnerability_stream separator
  vulnerability_stream-IsCounted = record {
    grows = λ x c. omega (arith, list_bytes-snoc w.vulnerability_size c.1 x, comma-length c.1);
    fits = λ x c few fit. (fit.0, omega (arith, few, length-append c.1 (x ∷ [])));
    fresh = refl;
    blank = λ c e. rw ((blank_chunk c e).1) refl;
  }

  module _ {p q : Packing (AssetChunk Asset Vulnerability)}
      (first : add
          (asset_budget w report max_bytes)
          (asset_stream w)
          report.assets
          (first_packing (asset_budget w report max_bytes))
        ≡ ok p)
      (second : add
          (asset_budget w report max_bytes)
          (vulnerability_stream w)
          report.vulnerabilities
          p
        ≡ ok q) where
    -- The two calls of `add` leave the items of the report in the chunks, in order.
    assets-contents : contents (asset_budget w report max_bytes) (λ c. c.0) q ≡ report.assets
    unfolding asset_budget asset_stream vulnerability_stream
    assets-contents =
        let b = asset_budget w report max_bytes in
        let view = assets-IsView in
        add-contents b (λ c. c.0) view (vulnerability_stream w) (nil_of {Other = Asset})
          (λ x c. sym (append_nil c.0)) report.vulnerabilities p second
        ∙ (ap (λ z. contents b (λ c. c.0) p ++ z) (no_list Asset report.vulnerabilities)
            ∙ (append_nil (contents b (λ c. c.0) p)
                ∙ (add-contents b (λ c. c.0) view (asset_stream w) (λ x. x ∷ []) (λ x c. refl)
                      report.assets (first_packing b) first
                    ∙ single_list report.assets)))

    vulnerabilities-contents :
        contents (asset_budget w report max_bytes) (λ c. c.1) q ≡ report.vulnerabilities
    unfolding asset_budget asset_stream vulnerability_stream
    vulnerabilities-contents =
        let b = asset_budget w report max_bytes in
        let view = vulnerabilities-IsView in
        add-contents b (λ c. c.1) view (vulnerability_stream w) (λ x. x ∷ []) (λ x c. refl)
          report.vulnerabilities p second
        ∙ (ap (λ z. z ++ flat (λ x. x ∷ []) report.vulnerabilities)
              (add-contents b (λ c. c.1) view (asset_stream w) (nil_of {Other = Vulnerability})
                  (λ x c. sym (append_nil c.1)) report.assets (first_packing b) first
                ∙ no_list Vulnerability report.assets)
            ∙ single_list report.vulnerabilities)

  -- The chunks hold the items of the report in order.
  pub pack_assets-contents :
      {chunks : List (AssetChunk Asset Vulnerability)}
      → pack_assets w report max_bytes ≡ ok chunks
      → (flat (λ c. c.0) chunks ≡ report.assets) × (flat (λ c. c.1) chunks ≡ report.vulnerabilities)
  unfolding pack_assets
  pack_assets-contents h =
      let b = asset_budget w report max_bytes in
      let (_, h1) = >>-eq-ok (ltb max_bytes b.empty_bytes) value_error _ h in
      ok_elim (add b (asset_stream w) report.assets (first_packing b)) _ h1 λ p first h2.
        ok_elim (add b (vulnerability_stream w) report.vulnerabilities p) _ h2 λ q second h3.
          rw (sym (ok-injective h3)) (
            packed_chunks-contents b (λ c. c.0) assets-IsView q ∙ assets-contents first second,
            packed_chunks-contents b (λ c. c.1) vulnerabilities-IsView q
                ∙ vulnerabilities-contents first second,
          )
