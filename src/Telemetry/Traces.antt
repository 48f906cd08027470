-- ===== src/Telemetry/Traces.antt =====
-- `split_trace_batch` loses nothing, and its envelopes keep to the limits
-- (form/src/kcatta_form/telemetry_chunks.py).
use kcatta.Prelude.{
  ℕ, ◌≡◌, ◌≤◌, refl, sym, ap, ◌∙◌, true, false, not, List, [], ◌∷◌, ◌++◌, arith, Memᴰ, ltb, ◌==◌,
  length, ok, ok_elim, >>-eq-ok, ok-injective,
}
use kcatta.Telemetry.Pack.{
  value_error, runtime_error, validation_error, max_envelope_items, Stream, Budget, Packing, add,
  first_packing,
}
use kcatta.Telemetry.Lineage.{max_correlation_id_chars}
use kcatta.Telemetry.Split.{chunk_id, root_id}
use kcatta.Telemetry.Trace.{
  TraceBatch, TraceWire, TraceChunk, trace_budget, event_stream, file_event_stream,
  process_event_stream, pack_traces, valid_trace_batch, trace_envelope, split_trace_batch,
}
use kcatta.Telemetry.Packed.{
  flat, contents, IsView, add-contents, packed_chunks-contents, append_nil,
}
use kcatta.Telemetry.Assets.{nil_of, no_list, single_list, nothing}
use kcatta.Telemetry.Lossless.{numbered-flat, numbered-all}

-- A call of `add` for another stream leaves the view as it was, and one for the view's own stream adds
-- the items to it.
module _ {Chunk Y : Type 0} (b : Budget Chunk) (view : Chunk → List Y) (v : IsView b view)
    {Item : Type 0} (s : Stream Chunk Item) (p : Packing Chunk) {q : Packing Chunk} where
  add_other :
      (items : List Item)
      → ((x : Item) (c : Chunk) → view (s.append x c) ≡ view c)
      → add b s items p ≡ ok q
      → contents b view q ≡ contents b view p
  add_other items same h =
      add-contents b view v s (nil_of {Other = Y}) (λ x c. same x c ∙ sym (append_nil (view c)))
        items p h
      ∙ (ap (λ z. contents b view p ++ z) (no_list Y items) ∙ append_nil (contents b view p))

add_own :
    {Chunk Y : Type 0} (b : Budget Chunk) (view : Chunk → List Y) (v : IsView b view)
    (s : Stream Chunk Y) (p : Packing Chunk) {q : Packing Chunk} (items : List Y)
    → ((x : Y) (c : Chunk) → view (s.append x c) ≡ view c ++ (x ∷ []))
    → add b s items p ≡ ok q
    → contents b view q ≡ contents b view p ++ items
add_own b view v s p items appends h =
    add-contents b view v s (λ x. x ∷ []) appends items p h
    ∙ ap (λ z. contents b view p ++ z) (single_list items)

module _ {Event FileEvent ProcessEvent Header : Type 0}
    (w : TraceWire Event FileEvent ProcessEvent Header)
    (batch : TraceBatch Event FileEvent ProcessEvent Header) (max_bytes : ℕ) where
  blank_chunk :
      (c : TraceChunk Event FileEvent ProcessEvent)
      → (trace_budget w batch max_bytes).is_blank c ≡ true
      → (c.events ≡ []) × (c.file_events ≡ []) × (c.process_events ≡ [])
  unfolding trace_budget
  blank_chunk c e = (
    nothing c.events (ground arith),
    nothing c.file_events (ground arith),
    nothing c.process_events (ground arith),
  )

  events-IsView : IsView (trace_budget w batch max_bytes) (λ c. c.events)
  unfolding trace_budget
  events-IsView = record { blank = λ c e. (blank_chunk c e).0; fresh = refl }

  file_events-IsView : IsView (trace_budget w batch max_bytes) (λ c. c.file_events)
  unfolding trace_budget
  file_events-IsView = record { blank = λ c e. (blank_chunk c e).1; fresh = refl }

  process_events-IsView : IsView (trace_budget w batch max_bytes) (λ c. c.process_events)
  unfolding trace_budget
  process_events-IsView = record { blank = λ c e. (blank_chunk c e).2; fresh = refl }

  pack_traces-contents :
      {chunks : List (TraceChunk Event FileEvent ProcessEvent)}
      → pack_traces w batch max_bytes ≡ ok chunks
      → (flat (λ (c : TraceChunk Event FileEvent ProcessEvent). c.events) chunks ≡ batch.events)
        × (flat (λ (c : TraceChunk Event FileEvent ProcessEvent). c.file_events) chunks
            ≡ batch.file_events)
        × (flat (λ (c : TraceChunk Event FileEvent ProcessEvent). c.process_events) chunks
            ≡ batch.process_events)
  unfolding pack_traces
  pack_traces-contents h =
      let b = trace_budget w batch max_bytes in
      let e = event_stream w batch max_bytes in
      let f = file_event_stream w batch max_bytes in
      let g = process_event_stream w batch max_bytes in
      let (_, h1) = >>-eq-ok (ltb max_bytes b.empty_bytes) value_error _ h in
      ok_elim (add b e batch.events (first_packing b)) _ h1 λ p first h2.
        ok_elim (add b f batch.file_events p) _ h2 λ q second h3.
          ok_elim (add b g batch.process_events q) _ h3 λ r third h4. rw (sym (ok-injective h4)) (
            packed_chunks-contents b (λ c. c.events) events-IsView r
                ∙ (add_other b (λ c. c.events) events-IsView g q batch.process_events (λ x c. refl)
                      third
                    ∙ (add_other b (λ c. c.events) events-IsView f p batch.file_events (λ x c. refl)
                          second
                        ∙ add_own b (λ c. c.events) events-IsView e (first_packing b) batch.events
                            (λ x c. refl) first)),
            packed_chunks-contents b (λ c. c.file_events) file_events-IsView r
                ∙ (add_other b (λ c. c.file_events) file_events-IsView g q batch.process_events
                      (λ x c. refl) third
                    ∙ (add_own b (λ c. c.file_events) file_events-IsView f p batch.file_events
                          (λ x c. refl) second
                        ∙ ap (λ z. z ++ batch.file_events)
                            (add_other b (λ c. c.file_events) file_events-IsView e (first_packing b)
                              batch.events (λ x c. refl) first))),
            packed_chunks-contents b (λ c. c.process_events) process_events-IsView r
                ∙ (add_own b (λ c. c.process_events) process_events-IsView g q batch.process_events
                      (λ x c. refl) third
                    ∙ ap (λ z. z ++ batch.process_events)
                        (add_other b (λ c. c.process_events) process_events-IsView f p
                            batch.file_events (λ x c. refl) second
                          ∙ add_other b (λ c. c.process_events) process_events-IsView e
                              (first_packing b) batch.events (λ x c. refl) first)),
          )

-- An envelope that the Analyzer accepts of a batch: within the limits, with the batch's own header.
pub record IsTraceEnvelope {Event FileEvent ProcessEvent Header : Type 0}
    (w : TraceWire Event FileEvent ProcessEvent Header)
    (batch : TraceBatch Event FileEvent ProcessEvent Header) (max_bytes : ℕ)
    (e : TraceBatch Event FileEvent ProcessEvent Header) : Type 0 where
  pub header : e.header ≡ batch.header
  pub bytes : w.encoded_size e ≤ max_bytes
  pub id : length e.batch_id ≤ max_correlation_id_chars
  pub events : length e.events ≤ max_envelope_items
  pub file_events : length e.file_events ≤ max_envelope_items
  pub process_events : length e.process_events ≤ max_envelope_items

module _ {Event FileEvent ProcessEvent Header : Type 0}
    (w : TraceWire Event FileEvent ProcessEvent Header)
    (batch : TraceBatch Event FileEvent ProcessEvent Header) (max_bytes : ℕ) where
  valid-limits :
      (e : TraceBatch Event FileEvent ProcessEvent Header)
      → not (valid_trace_batch w batch max_bytes e) ≡ false
      → (length e.batch_id ≤ max_correlation_id_chars)
        × (length e.events ≤ max_envelope_items)
        × (length e.file_events ≤ max_envelope_items)
        × (length e.process_events ≤ max_envelope_items)
  unfolding valid_trace_batch
  valid-limits e h = ground arith

  made-IsTraceEnvelope :
      (total i : ℕ) (c : TraceChunk Event FileEvent ProcessEvent)
      (e : TraceBatch Event FileEvent ProcessEvent Header)
      → trace_envelope w batch max_bytes total i c ≡ ok e
      → ((e.events ≡ c.events)
          × (e.file_events ≡ c.file_events)
          × (e.process_events ≡ c.process_events))
        × IsTraceEnvelope w batch max_bytes e
  unfolding trace_envelope
  made-IsTraceEnvelope total i c e h =
      ok_elim (chunk_id (root_id w.sha256 batch.batch_id total) i total) _ h λ id _ h1.
        let made : TraceBatch Event FileEvent ProcessEvent Header = record batch {
          batch_id = id;
          events = c.events;
          file_events = c.file_events;
          process_events = c.process_events;
        } in
        let (valid, h2) =
          >>-eq-ok (not (valid_trace_batch w batch max_bytes made)) validation_error _ h1 in
        let (small, h3) = >>-eq-ok (ltb max_bytes (w.encoded_size made)) runtime_error _ h2 in
        let (a, b, d, f) = valid-limits made valid in
        rw (sym (ok-injective h3)) (
          (refl, refl, refl),
          record {
            header = refl;
            bytes = ground arith;
            id = a;
            events = b;
            file_events = d;
            process_events = f;
          },
        )

-- When `split_trace_batch` returns, the events of its envelopes one behind the other are the events of
-- the batch, stream by stream; each envelope has the batch's other fields, at most 4096 events of
-- each stream and 256 characters in its id, and at most `max_bytes` bytes as JSON.
pub split_trace_batch-lossless :
    {Event FileEvent ProcessEvent Header : Type 0}
    (w : TraceWire Event FileEvent ProcessEvent Header)
    (batch : TraceBatch Event FileEvent ProcessEvent Header) (max_bytes : ℕ)
    (envelopes : List (TraceBatch Event FileEvent ProcessEvent Header))
    → split_trace_batch w batch max_bytes ≡ ok envelopes
    → (flat (λ (e : TraceBatch Event FileEvent ProcessEvent Header). e.events) envelopes
        ≡ batch.events)
      × (flat (λ (e : TraceBatch Event FileEvent ProcessEvent Header). e.file_events) envelopes
          ≡ batch.file_events)
      × (flat (λ (e : TraceBatch Event FileEvent ProcessEvent Header). e.process_events) envelopes
          ≡ batch.process_events)
      × ((e : TraceBatch Event FileEvent ProcessEvent Header)
          → Memᴰ e envelopes
          → IsTraceEnvelope w batch max_bytes e)
unfolding split_trace_batch
split_trace_batch-lossless w batch max_bytes envelopes h =
    let (_, h1) = >>-eq-ok (max_bytes == 0) value_error _ h in
    ok_elim (pack_traces w batch max_bytes) _ h1 λ chunks packed h2.
      let (events, file_events, process_events) = pack_traces-contents w batch max_bytes packed in
      let f = trace_envelope w batch max_bytes (length chunks) in
      let made = made-IsTraceEnvelope w batch max_bytes (length chunks) in
      (
        numbered-flat f (λ c. c.events) (λ e. e.events) (λ i c e k. (made i c e k).0.0) 1 chunks h2
            ∙ events,
        numbered-flat f (λ c. c.file_events) (λ e. e.file_events) (λ i c e k. (made i c e k).0.1) 1
              chunks h2
            ∙ file_events,
        numbered-flat f (λ c. c.process_events) (λ e. e.process_events)
              (λ i c e k. (made i c e k).0.2) 1 chunks h2
            ∙ process_events,
        numbered-all f (IsTraceEnvelope w batch max_bytes) (λ i c e k. (made i c e k).1) 1 chunks
            h2,
      )
