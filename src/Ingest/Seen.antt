-- ===== src/Ingest/Seen.antt =====
-- The class SeenIds of analyzer/src/analyzer/api/idempotency.py: an ordered map from ids to their
-- results, as the list of its entries, the oldest first. Every operation holds the lock.
use kcatta.Prelude.{
  ℕ, max, Bool, true, false, not, Option, none, some, List, [], ◌∷◌, ◌++◌, Text, ◌≟◌, ltb,
  if◌then◌else◌, length, exists_where, find_where, select,
}

module _ {ℓ} (Result : Type ℓ) where
  pub record Entry : Type ℓ where
    pub key : Text
    pub result : Option Result

  -- `max(1, maxlen)` of the constructor.
  unfoldable pub window : ℕ → ℕ
  window maxlen = max 1 maxlen

  unfoldable pub is_entry : Text → Entry → Bool
  unfolding ◌≟◌
  is_entry key e = e.key ≟ key

  -- `popitem(last=False)` where the map has grown above the window.
  unfoldable pub trim : ℕ → List Entry → List Entry
  trim n [] = []
  trim n (e ∷ es) = if ltb n (length (e ∷ es)) then es else e ∷ es

  -- `pop(key, None)`
  unfoldable pub discard : Text → List Entry → List Entry
  unfolding select is_entry
  discard key es = select (λ e. not (is_entry key e)) es

  -- `get(key)`
  unfoldable pub get_result : Text → List Entry → Option Result
  unfolding find_where is_entry
  get_result key es = elim (find_where (is_entry key) es) [ none ↦ none | some e ↦ e.result ]

  -- `move_to_end(key)`
  unfoldable pub move_to_end : Text → List Entry → List Entry
  unfolding find_where is_entry discard
  move_to_end key es = elim (find_where (is_entry key) es) [
    | none ↦ es
    | some e ↦ discard key es ++ e ∷ []
  ]

  -- Whether the key was there, and the map after the reservation.
  unfoldable pub check_and_add : ℕ → Text → List Entry → Bool × List Entry
  unfolding exists_where is_entry move_to_end trim
  check_and_add n key es =
      if exists_where (is_entry key) es
      then (true, move_to_end key es)
      else (false, trim n (es ++ record { key = key; result = none } ∷ []))

  unfoldable pub set_result : ℕ → Text → Result → List Entry → List Entry
  unfolding discard trim
  set_result n key result es =
      trim n (discard key es ++ record { key = key; result = some result } ∷ [])
