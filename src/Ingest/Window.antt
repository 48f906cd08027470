-- ===== src/Ingest/Window.antt =====
-- The window of analyzer/src/analyzer/api/idempotency.py stays bounded.
use kcatta.Prelude.{
  ℕ, ◌+◌, ◌≤◌, ◌≡◌, ap, false, not, inl, inr, none, some, List, [], ◌∷◌, ◌++◌, arith, Text, length,
  length-append, length-select, count_where-lt-length, count_where-le-length, exists_where,
  find_where, find_where-some, Bool-cases, Option-cases,
}
use kcatta.Ingest.Seen.{Entry, is_entry, trim, discard, move_to_end, check_and_add, set_result}

module _ {ℓ} (Result : Type ℓ) where
  trim-bound :
      (n : ℕ) (es : List (Entry Result)) → length es ≤ n + 1 → length (trim Result n es) ≤ n
  unfolding trim
  trim-bound n [] h = omega arith
  trim-bound n (e ∷ es) h = ground arith

  move_to_end-bound :
      (key : Text) (es : List (Entry Result)) → length (move_to_end Result key es) ≤ length es
  unfolding move_to_end discard
  move_to_end-bound key es = elim (Option-cases (find_where (is_entry Result key) es)) [
    | inl e ↦ rw (e, move_to_end) (omega arith)
    | inr (entry, e) ↦
        let (m, q) = find_where-some (is_entry Result key) es e in
        let others = λ (x : Entry Result). not (is_entry Result key x) in
        let gone : others entry ≡ false = ap not q in
        rw (e, move_to_end)
          (rw (length-append (discard Result key es) (entry ∷ []))
            (omega (arith, length-select others es, count_where-lt-length others m gone)))
  ]

  -- A window that holds at most `n` ids holds at most `n` after any reservation and after any result is
  -- set.
  pub window-bound :
      (n : ℕ) (key : Text) (result : Result) (es : List (Entry Result))
      → length es ≤ n
      → (length (check_and_add Result n key es).1 ≤ n)
        × (length (set_result Result n key result es) ≤ n)
  unfolding check_and_add set_result discard
  window-bound n key result es h =
      let others = λ (x : Entry Result). not (is_entry Result key x) in
      (
        elim (Bool-cases (exists_where (is_entry Result key) es)) [
          | inl e ↦ rw e (omega (arith, move_to_end-bound key es, h))
          | inr e ↦ rw e (
              trim-bound n (es ++ record { key = key; result = none } ∷ []) (
                rw (length-append es (record { key = key; result = none } ∷ []))
                  (omega (arith, h))))
        ],
        trim-bound n (discard Result key es ++ record { key = key; result = some result } ∷ []) (
            rw
              (length-append (discard Result key es)
                (record { key = key; result = some result } ∷ []))
              (omega (arith, h, length-select others es, count_where-le-length others es))),
      )
