-- ===== src/Postgres/Tables.antt =====
-- The tables of internal/migrations/sql/001_initial.sql, and the reads of internal/store/postgres.go
-- on them. A table is the list of its rows, oldest first; `order by` sorts what a query selects. An
-- identity column takes its next value from a counter.
use nordicintel_storage_api.Prelude.{
  ℕ, zero, suc, ℤ, pos, negsuc, ◌+ℤ◌, lt_ℤ, eq_ℤ, Bytes, bytes_eq, bytes_beq, Bool, ◌&&◌, ◌||◌,
  Option, none, some, List, [], ◌∷◌, ◌++◌, map, length, lookup, insert, nat_eq, nat_beq, filter_by,
  find_by, modify_at, sort, Result, ok, ◌>>=◌, require,
}
use nordicintel_storage_api.Domain.Model.{
  Category, Cell, Code, Dimension, Float64, RawMessage, Summary, Time,
}
use nordicintel_storage_api.Domain.Remap.{cell_less}
use nordicintel_storage_api.Server.Store.{StoreError, other_failure}

pub record ProviderRow : Type 0 where
  pub id : ℕ
  pub code : Code

pub record DatasetRow : Type 0 where
  pub id : ℕ
  pub provider_id : ℕ
  pub code : Code
  pub source_stamp : RawMessage
  pub cell_count : ℤ
  pub valued_cell_count : ℤ
  pub updated_at : Time

pub record DimensionRow : Type 0 where
  pub id : ℕ
  pub dataset_id : ℕ
  pub code : Code
  pub position : ℤ

pub record CategoryRow : Type 0 where
  pub dimension_id : ℕ
  pub category : Category

-- A column that may be null is an Option, as pgtype.Float8 and pgtype.Text are with their `Valid`.
pub record ObservationRow : Type 0 where
  pub dataset_id : ℕ
  pub cell_index : ℤ
  pub numeric_value : Option Float64
  pub text_value : Option Bytes
  pub status_code : Option Bytes

pub record Tables : Type 0 where
  pub providers : List ProviderRow
  pub datasets : List DatasetRow
  pub dimensions : List DimensionRow
  pub categories : List CategoryRow
  pub observations : List ObservationRow
  pub next_provider : ℕ
  pub next_dataset : ℕ
  pub next_dimension : ℕ

-- A key is unique, so a selection by key has one row at most.
unfoldable pub find_provider : Bytes → List ProviderRow → Option ProviderRow
find_provider key providers = find_by (λ (p : ProviderRow). bytes_beq p.code.key key) providers

abbrev pub is_dataset : ℕ → Bytes → DatasetRow → Bool
is_dataset provider_id key d = nat_beq d.provider_id provider_id && bytes_beq d.code.key key

unfoldable pub find_dataset : ℕ → Bytes → List DatasetRow → Option DatasetRow
find_dataset provider_id key datasets = find_by (is_dataset provider_id key) datasets

-- the join of `getSummaryAndID`, `summarySQL` and `Delete`
unfoldable pub find_identity : Tables → Bytes → Bytes → Option (ProviderRow × DatasetRow)
find_identity t provider_key dataset_key =
    with_dataset t dataset_key (find_provider provider_key t.providers)
  where
    beside : ProviderRow → Option DatasetRow → Option (ProviderRow × DatasetRow)
    beside p none = none
    beside p (some d) = some (p, d)

    with_dataset : Tables → Bytes → Option ProviderRow → Option (ProviderRow × DatasetRow)
    with_dataset t dataset_key none = none
    with_dataset t dataset_key (some p) = beside p (find_dataset p.id dataset_key t.datasets)

-- a - b
abbrev pub minus : ℤ → ℤ → ℤ
minus a (pos zero) = a
minus a (pos (suc n)) = a +ℤ negsuc n
minus a (negsuc n) = a +ℤ pos (suc n)

-- `null_cell_count` is a generated column.
unfoldable pub summary_of : ProviderRow → DatasetRow → Summary
summary_of provider d = record {
  provider_code = provider.code.spelling;
  dataset_code = d.code.spelling;
  source_stamp = d.source_stamp;
  cell_count = d.cell_count;
  valued_cell_count = d.valued_cell_count;
  null_cell_count = minus d.cell_count d.valued_cell_count;
  updated_at = d.updated_at;
}

abbrev pub position_less : DimensionRow → DimensionRow → Bool
position_less a b = lt_ℤ a.position b.position

-- the first query of `loadStructure`
unfoldable pub dimension_rows : ℕ → List DimensionRow → List DimensionRow
dimension_rows dataset_id dimensions =
    sort position_less
      (filter_by (λ (d : DimensionRow). nat_beq d.dataset_id dataset_id) dimensions)

-- the join of its second query: a category beside the position of its dimension
unfoldable pub join_categories : List DimensionRow → List CategoryRow → List (ℤ × CategoryRow)
join_categories rows [] = []
join_categories rows (c ∷ categories) =
    joined c (join_categories rows categories)
      (find_by (λ (d : DimensionRow). nat_beq d.id c.dimension_id) rows)
  where
    joined : CategoryRow → List (ℤ × CategoryRow) → Option DimensionRow → List (ℤ × CategoryRow)
    joined c rest none = rest
    joined c rest (some d) = (d.position, c) ∷ rest

abbrev pub joined_less : ℤ × CategoryRow → ℤ × CategoryRow → Bool
joined_less (p, c) (q, d) = lt_ℤ p q || (eq_ℤ p q && lt_ℤ c.category.position d.category.position)

-- the first loop of `loadStructure`: the dimensions, and the place of each id
unfoldable pub scan_dimensions :
    List DimensionRow → List Dimension → List (ℕ × ℕ) → List Dimension × List (ℕ × ℕ)
scan_dimensions [] dimensions indexes = (dimensions, indexes)
scan_dimensions (row ∷ rows) dimensions indexes =
    scan_dimensions rows
      (dimensions ++ (record { code = row.code; position = row.position; categories = [] } ∷ []))
      (insert row.id (length dimensions) indexes)

abbrev pub append_category : Category → Dimension → Dimension
append_category c d = record d { categories = d.categories ++ (c ∷ []) }

-- its second loop
unfoldable pub scan_categories :
    List (ℕ × ℕ) → List (ℤ × CategoryRow) → List Dimension → Result StoreError (List Dimension)
scan_categories indexes [] dimensions = ok dimensions
scan_categories indexes ((p, c) ∷ rows) dimensions = do
  index ← require other_failure (lookup c.dimension_id indexes)
  scan_categories indexes rows (modify_at index (append_category c.category) dimensions)

unfoldable pub load_structure :
    ℕ → List DimensionRow → List CategoryRow → Result StoreError (List Dimension)
unfolding dimension_rows join_categories scan_dimensions scan_categories
load_structure dataset_id dimensions categories =
    let rows = dimension_rows dataset_id dimensions in
    let (scanned, indexes) = scan_dimensions rows [] [] in
    scan_categories indexes (sort joined_less (join_categories rows categories)) scanned

-- `scanCell`: the columns of a row as a cell, whose pointers are nil where a column is null
abbrev pub scan_cell : ObservationRow → Cell
scan_cell o = record {
  index = o.cell_index;
  numeric = o.numeric_value;
  text = o.text_value;
  status = o.status_code;
}

-- `loadAllCells`
unfoldable pub load_all_cells : ℕ → List ObservationRow → List Cell
load_all_cells dataset_id observations = sort cell_less (
    map scan_cell
      (filter_by (λ (o : ObservationRow). nat_beq o.dataset_id dataset_id) observations))
