-- ===== src/Telemetry/Pack.antt =====
-- The packing that `split_asset_report` and `split_trace_batch` share
-- (form/src/kcatta_form/telemetry_chunks.py): a chunk is open, items are added to one of its streams,
-- and it is closed when the next item would take it over a budget.
use kcatta.Prelude.{
  ℕ, ◌+◌, Bool, ◌||◌, List, [], ◌∷◌, ◌++◌, ltb, leb, ◌==◌, if◌then◌else◌, Outcome, ok, ◌>>=◌, ◌>>◌,
  raise_if,
}

-- ValueError, RuntimeError, pydantic's ValidationError.
pub data Error : Type 0 where
  value_error runtime_error validation_error : Error

abbrev pub Result {v} : Type v → Type v
Result = Outcome Error

abbrev pub max_envelope_items : ℕ
max_envelope_items = 4096

-- A stream of the chunk: `len(target)`, `target.append(item)` and the bytes of an item.
pub record Stream (Chunk Item : Type 0) : Type 0 where
  pub count : Chunk → ℕ
  pub append : Item → Chunk → Chunk
  pub item_size : Item → ℕ

-- A chunk with nothing in it, the test for one, the bytes of an envelope around it, and the limit.
pub record Budget (Chunk : Type 0) : Type 0 where
  pub fresh : Chunk
  pub is_blank : Chunk → Bool
  pub empty_bytes : ℕ
  pub max_bytes : ℕ

-- The variables that `flush` and `add` assign.
pub record Packing (Chunk : Type 0) : Type 0 where
  pub packed : List Chunk
  pub chunk : Chunk
  pub current_bytes : ℕ

unfoldable pub flush : {Chunk : Type 0} → Budget Chunk → Packing Chunk → Packing Chunk
flush b p = if b.is_blank p.chunk then p else record {
  packed = p.packed ++ (p.chunk ∷ []);
  chunk = b.fresh;
  current_bytes = b.empty_bytes;
}

-- `int(bool(target))`
unfoldable pub separator : {Chunk Item : Type 0} → Stream Chunk Item → Chunk → ℕ
separator s c = if s.count c == 0 then 0 else 1

unfoldable pub exceeds :
    {Chunk Item : Type 0} → Budget Chunk → Stream Chunk Item → Item → Packing Chunk → Bool
unfolding separator
exceeds b s item p =
    leb max_envelope_items (s.count p.chunk)
    || ltb b.max_bytes (p.current_bytes + separator s p.chunk + s.item_size item)

-- The item appended to the chunk that is open.
unfoldable pub place :
    {Chunk Item : Type 0}
    → Budget Chunk
    → Stream Chunk Item
    → Item
    → ℕ
    → Packing Chunk
    → Result (Packing Chunk)
place b s item separators p = do
  raise_if (ltb b.max_bytes (p.current_bytes + separators + s.item_size item)) value_error
  ok (record p {
    chunk = s.append item p.chunk;
    current_bytes = p.current_bytes + (separators + s.item_size item);
  })

-- One round of the loop of `add`.
unfoldable pub add_item :
    {Chunk Item : Type 0}
    → Budget Chunk
    → Stream Chunk Item
    → Item
    → Packing Chunk
    → Result (Packing Chunk)
unfolding exceeds flush separator place
add_item b s item p =
    if exceeds b s item p
    then place b s item 0 (flush b p)
    else place b s item (separator s p.chunk) p

unfoldable pub add :
    {Chunk Item : Type 0}
    → Budget Chunk
    → Stream Chunk Item
    → List Item
    → Packing Chunk
    → Result (Packing Chunk)
unfolding add_item
add b s [] p = ok p
add b s (item ∷ items) p = do p' ← add_item b s item p; add b s items p'

abbrev pub first_packing : {Chunk : Type 0} → Budget Chunk → Packing Chunk
first_packing b = record { packed = []; chunk = b.fresh; current_bytes = b.empty_bytes }

-- What the functions do after the last item: the chunks, at least one.
abbrev pub or_one : {Chunk : Type 0} → Chunk → List Chunk → List Chunk
or_one fresh [] = fresh ∷ []
or_one fresh (c ∷ chunks) = c ∷ chunks

unfoldable pub packed_chunks : {Chunk : Type 0} → Budget Chunk → Packing Chunk → List Chunk
unfolding flush
packed_chunks b p = or_one b.fresh (flush b p).packed
