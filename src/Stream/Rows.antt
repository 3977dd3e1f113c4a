-- ===== src/Stream/Rows.antt =====
-- Storage rows under one prefix, as `storage.list` returns them: by their index, which the keys hold
-- in 12 digits (`chunkKey`, `segmentKey` of `src/worker/durable-objects/StreamDO.ts`).
use world_celld.Common.{
  ℕ, ◌&&◌, Option, none, some, List, [], ◌∷◌, ltb, leb, eqb, if◌then◌else◌, match_option,
}

module _ {ℓ} {V : Type ℓ} where
  -- `storage.put` of one row
  unfoldable pub put_row : ℕ → V → List (ℕ × V) → List (ℕ × V)
  put_row k v [] = (k, v) ∷ []
  put_row k v (row ∷ rows) =
      let rest = put_row k v rows in
      if ltb k row.0 then (k, v) ∷ row ∷ rows else if eqb k row.0 then (k, v) ∷ rows else row ∷ rest

  -- `storage.get` of one row
  unfoldable pub get_row : ℕ → List (ℕ × V) → Option V
  get_row k [] = none
  get_row k (row ∷ rows) = if eqb k row.0 then some row.1 else get_row k rows

  -- `storage.delete` of one row, and of several
  unfoldable pub delete_row : ℕ → List (ℕ × V) → List (ℕ × V)
  delete_row k [] = []
  delete_row k (row ∷ rows) =
      let rest = delete_row k rows in if eqb k row.0 then rest else row ∷ rest

  unfoldable pub delete_rows : List ℕ → List (ℕ × V) → List (ℕ × V)
  delete_rows [] rows = rows
  delete_rows (k ∷ ks) rows = delete_rows ks (delete_row k rows)

  -- `storage.list` with a start and an end
  unfoldable pub rows_between : (start end : ℕ) → List (ℕ × V) → List (ℕ × V)
  rows_between start end [] = []
  rows_between start end (row ∷ rows) =
      let rest = rows_between start end rows in
      if leb start row.0 && ltb row.0 end then row ∷ rest else rest

  -- `storage.list` with an end, in reverse, of one row
  unfoldable pub last_below : ℕ → List (ℕ × V) → Option (ℕ × V)
  last_below end [] = none
  last_below end (row ∷ rows) =
      match_option (last_below end rows) (if ltb row.0 end then some row else none)
        (λ later. some later)
