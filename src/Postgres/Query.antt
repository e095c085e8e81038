-- ===== src/Postgres/Query.antt =====
-- `Query` of internal/store/postgres.go, and the store that its operations make.
pub mod Batches
pub mod Correct
use nordicintel_storage_api.Prelude.{
  ℕ, zero, suc, ◌+◌, ℤ, pos, int_eq, ◌&&◌, Option, none, some, List, [], ◌∷◌, length, contains,
  lookup, insert_all, nat_beq, filter_by, if◌then◌else◌, ltb, Result, ok, ◌>>=◌, map_err,
}
use nordicintel_storage_api.Domain.Model.{Cell, Code, Selection, View}
use nordicintel_storage_api.Domain.Index.{cell_limit}
use nordicintel_storage_api.Domain.Selection.{SelectionError, selected_cube, resolve_selection}
use nordicintel_storage_api.Server.Store.{StoreError, Store, invalid_selection, selection_limit}
use nordicintel_storage_api.Postgres.Tables.{ObservationRow, scan_cell, Tables, load_structure}
use nordicintel_storage_api.Postgres.Statements.{
  Backend, attempt, begin, ping_pool, commit, select_dimension_rows, select_category_rows,
  select_batch,
}
use nordicintel_storage_api.Postgres.Replace.{replace}
use nordicintel_storage_api.Postgres.Delete.{delete}
use nordicintel_storage_api.Postgres.Reads.{
  list_providers, list_datasets, summary_and_id, get_summary, get_structure, get_data,
}

abbrev pub query_batch_size : ℕ
query_batch_size = 10000

-- the error of `ResolveSelection`, as `Query` returns it
abbrev pub selection_failure : SelectionError → StoreError
selection_failure (selected_cube (cell_limit limit)) = selection_limit limit
selection_failure _ = invalid_selection

-- indices[start:start+n]
abbrev pub slice : List ℤ → ℕ → ℕ → List ℤ
slice [] start n = []
slice (i ∷ indices) (suc start) n = slice indices start n
slice (i ∷ indices) zero zero = []
slice (i ∷ indices) zero (suc n) = i ∷ slice indices zero n

-- one round of the loop over the batches: the rows selected, stored by their index
pub store_batch : ℕ → List ObservationRow → List ℤ → List (ℤ × Cell) → List (ℤ × Cell)
unfolding insert_all
store_batch dataset_id observations batch stored =
    insert_all (λ (o : ObservationRow). o.cell_index) scan_cell
      (filter_by
        (λ (o : ObservationRow). nat_beq o.dataset_id dataset_id && contains o.cell_index batch)
        observations)
      stored

-- The loop over the batches of `size` indices, from place `start`, on fuel; it takes a round at most
-- for each index.
pub store_batches :
    Backend
    → ℕ
    → ℕ
    → Tables
    → List ℤ
    → ℕ
    → ℕ
    → List (ℤ × Cell)
    → Result StoreError (List (ℤ × Cell))
unfolding store_batch
store_batches e size dataset_id t indices zero start stored = ok stored
store_batches e size dataset_id t indices (suc fuel) start stored =
    if ltb start (length indices)
    then (do
      next ←
          attempt e (select_batch start) t
            (store_batch dataset_id t.observations (slice indices start size) stored)
      store_batches e size dataset_id t indices fuel (start + size) next)
    else ok stored

-- the loop over the selected indices, from output place `i`
pub output_cells : List (ℤ × Cell) → ℕ → List ℤ → List Cell
output_cells stored i [] = []
output_cells stored i (index ∷ indices) =
    placed (lookup index stored) i (output_cells stored (suc i) indices)
  where
    placed : Option Cell → ℕ → List Cell → List Cell
    placed none i rest = rest
    placed (some c) i rest = record c { index = pos i } ∷ rest

unfoldable pub query : Backend → Code → Code → Selection → ℤ → Tables → Result StoreError View
unfolding summary_and_id load_structure resolve_selection store_batches output_cells
query e provider dataset selection max_cells t = do
  t ← attempt e begin t t
  (summary, id) ← summary_and_id e provider dataset t
  t ← attempt e select_dimension_rows t t
  t ← attempt e select_category_rows t t
  stored_dimensions ← load_structure id t.dimensions t.categories
  (dimensions, indices) ←
      map_err selection_failure (resolve_selection selection stored_dimensions max_cells)
  stored ← store_batches e query_batch_size id t indices (length indices) 0 []
  t ← attempt e commit t t
  ok (record { summary = summary; dimensions = dimensions; cells = output_cells stored 0 indices })

-- A read leaves the tables as they are.
abbrev pub read_only {ℓ} :
    {A : Type ℓ} → Result StoreError A → Tables → Result StoreError A × Tables
read_only result t = (result, t)

pub postgres : Backend → Store Tables
unfolding list_providers list_datasets get_summary get_structure get_data query replace delete
postgres e = record {
  ping = λ t. read_only (attempt e ping_pool t tt) t;
  list_providers = λ t. read_only (list_providers e t) t;
  list_datasets = λ p t. read_only (list_datasets e p t) t;
  get_summary = λ p d t. read_only (get_summary e p d t) t;
  replace = λ r t. replace e r t;
  delete = λ p d t. delete e p d t;
  get_structure = λ p d t. read_only (get_structure e p d t) t;
  get_data = λ p d t. read_only (get_data e p d t) t;
  query = λ p d selection max_cells t. read_only (query e p d selection max_cells t) t;
}
