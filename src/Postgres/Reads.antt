-- ===== src/Postgres/Reads.antt =====
-- The reads of internal/store/postgres.go. A read-only transaction sees one state of the tables.
use nordicintel_storage_api.Prelude.{
  ℕ, pos, int_eq, Bytes, bytes_lt, Bool, ltb, Option, none, some, List, [], ◌∷◌, ◌++◌, map, length,
  nat_beq, filter_by, if◌then◌else◌, sort, Result, ok, err, ◌>>=◌, require,
}
use nordicintel_storage_api.Domain.Model.{Code, ProviderListItem, Summary, View}
use nordicintel_storage_api.Server.Store.{StoreError, not_found}
use nordicintel_storage_api.Postgres.Tables.{
  ProviderRow, DatasetRow, Tables, find_provider, find_identity, summary_of, load_structure,
  load_all_cells,
}
use nordicintel_storage_api.Postgres.Statements.{
  Backend, attempt, begin, commit, select_providers, select_summaries, select_summary,
  select_dimension_rows, select_category_rows, select_cells,
}

abbrev pub provider_less : ProviderRow → ProviderRow → Bool
provider_less p q = bytes_lt p.code.key q.code.key

abbrev pub dataset_less : DatasetRow → DatasetRow → Bool
dataset_less c d = bytes_lt c.code.key d.code.key

abbrev pub datasets_of : Tables → ProviderRow → List DatasetRow
datasets_of t p = filter_by (λ (d : DatasetRow). nat_beq d.provider_id p.id) t.datasets

abbrev pub provider_item : Tables → ProviderRow → ProviderListItem
provider_item t p = record {
  provider_code = p.code.spelling;
  dataset_count = pos (length (datasets_of t p));
}

-- The join drops a provider without datasets.
unfoldable pub list_providers : Backend → Tables → Result StoreError (List ProviderListItem)
list_providers e t = attempt e select_providers t (
    map (provider_item t) (
      sort provider_less
        (filter_by (λ (p : ProviderRow). ltb 0 (length (datasets_of t p))) t.providers)))

-- the rows that `ListDatasets` selects
pub summaries_of : Tables → Option ProviderRow → List Summary
unfolding summary_of
summaries_of t none = []
summaries_of t (some p) = map (summary_of p) (sort dataset_less (datasets_of t p))

-- its loop over them
pub scan_summaries : List Summary → Bytes → List Summary → Bytes × List Summary
scan_summaries [] spelling summaries = (spelling, summaries)
scan_summaries (s ∷ rows) spelling summaries =
    scan_summaries rows s.provider_code (summaries ++ (s ∷ []))

unfoldable pub list_datasets : Backend → Code → Tables → Result StoreError (Bytes × List Summary)
unfolding find_provider summaries_of scan_summaries
list_datasets e provider t = do
  rows ← attempt e select_summaries t (summaries_of t (find_provider provider.key t.providers))
  let (spelling, summaries) = scan_summaries rows [] []
  if nat_beq (length summaries) 0 then err not_found else ok (spelling, summaries)

-- `getSummaryAndID`, and `scanSummary` without the id
unfoldable pub summary_and_id : Backend → Code → Code → Tables → Result StoreError (Summary × ℕ)
unfolding find_identity summary_of
summary_and_id e provider dataset t = do
  found ← attempt e select_summary t (find_identity t provider.key dataset.key)
  (p, d) ← require not_found found
  ok (summary_of p d, d.id)

unfoldable pub get_summary : Backend → Code → Code → Tables → Result StoreError Summary
unfolding summary_and_id
get_summary e provider dataset t = do
  (summary, id) ← summary_and_id e provider dataset t
  ok summary

unfoldable pub get_structure : Backend → Code → Code → Tables → Result StoreError View
unfolding summary_and_id load_structure
get_structure e provider dataset t = do
  t ← attempt e begin t t
  (summary, id) ← summary_and_id e provider dataset t
  t ← attempt e select_dimension_rows t t
  t ← attempt e select_category_rows t t
  dimensions ← load_structure id t.dimensions t.categories
  t ← attempt e commit t t
  ok (record { summary = summary; dimensions = dimensions; cells = [] })

unfoldable pub get_data : Backend → Code → Code → Tables → Result StoreError View
unfolding summary_and_id load_structure load_all_cells
get_data e provider dataset t = do
  t ← attempt e begin t t
  (summary, id) ← summary_and_id e provider dataset t
  t ← attempt e select_dimension_rows t t
  t ← attempt e select_category_rows t t
  dimensions ← load_structure id t.dimensions t.categories
  cells ← attempt e select_cells t (load_all_cells id t.observations)
  t ← attempt e commit t t
  ok (record { summary = summary; dimensions = dimensions; cells = cells })
