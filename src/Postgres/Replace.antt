-- ===== src/Postgres/Replace.antt =====
-- `Replace` of internal/store/postgres.go: one transaction, a step for each part of it.
use nordicintel_storage_api.Prelude.{
  ℕ, suc, ◌+◌, not, nat_eq, bytes_eq, Bytes, codes, Option, none, some, List, [], ◌∷◌, ◌++◌, map,
  nat_beq, ltb, length, find_by, filter_by, contains, if◌then◌else◌, Result, ok, err, ◌>>=◌,
  require,
}
use nordicintel_storage_api.Domain.Model.{Category, Cell, Code, Dimension, Replacement, Summary}
use nordicintel_storage_api.Server.Store.{StoreError, dataset_exists, other_failure}
use nordicintel_storage_api.Postgres.Tables.{
  ProviderRow, DatasetRow, DimensionRow, CategoryRow, ObservationRow, Tables, find_provider,
  find_dataset, summary_of,
}
use nordicintel_storage_api.Postgres.Statements.{
  Backend, attempt, checkpoint, begin, advisory_lock, insert_provider, select_provider,
  select_dataset, insert_dataset, delete_observations, delete_dimensions, before_structure,
  insert_dimension, copy_categories, before_copy, copy_observations, update_dataset, before_commit,
  commit,
}
use nordicintel_storage_api.Postgres.Advisory.{advisory_key}

abbrev pub add_missing : Backend → Code → Tables → Option ProviderRow → Tables
add_missing e code t (some p) = t
add_missing e code t none =
    let id = t.next_provider + e.gap t in
    record t {
      providers = t.providers ++ (record { id = id; code = code } ∷ []);
      next_provider = suc id;
    }

-- insert into storage.providers … on conflict (provider_key) do nothing
unfoldable pub add_provider : Backend → Code → Tables → Tables
unfolding find_provider
add_provider e code t = add_missing e code t (find_provider code.key t.providers)

abbrev pub new_dataset : Backend → ℕ → Replacement → Tables → DatasetRow
new_dataset e provider_id r t = record {
  id = t.next_dataset + e.gap t;
  provider_id = provider_id;
  code = r.dataset;
  source_stamp = e.to_jsonb r.source_stamp;
  cell_count = r.cell_count;
  valued_cell_count = r.valued_count;
  updated_at = e.clock_timestamp insert_dataset t;
}

-- insert into storage.datasets
unfoldable pub add_dataset : Backend → ℕ → Replacement → Tables → Tables
add_dataset e provider_id r t = record t {
  datasets = t.datasets ++ (new_dataset e provider_id r t ∷ []);
  next_dataset = suc (t.next_dataset + e.gap t);
}

-- delete from storage.observations where dataset_id = $1
unfoldable pub drop_observations : ℕ → Tables → Tables
drop_observations id t = record t {
  observations = filter_by (λ (o : ObservationRow). not (nat_beq o.dataset_id id)) t.observations;
}

-- delete from storage.dimensions where dataset_id = $1, which cascades to storage.categories
unfoldable pub drop_dimensions : ℕ → Tables → Tables
drop_dimensions id t =
    let dropped =
      map (λ (d : DimensionRow). d.id)
        (filter_by (λ (d : DimensionRow). nat_beq d.dataset_id id) t.dimensions) in
    record t {
      dimensions = filter_by (λ (d : DimensionRow). not (nat_beq d.dataset_id id)) t.dimensions;
      categories =
          filter_by (λ (c : CategoryRow). not (contains c.dimension_id dropped)) t.categories;
    }

-- What `Replace` does with the dataset that it selected, or did not find: the word it reports, and
-- the dataset's id.
unfoldable pub take_dataset :
    Backend
    → ProviderRow
    → Replacement
    → Tables
    → Option DatasetRow
    → Result StoreError (Bytes × ℕ × Tables)
unfolding add_dataset drop_observations drop_dimensions
take_dataset e p r t (some d) = if not r.replace then err dataset_exists else (do
  t1 ← attempt e delete_observations t (drop_observations d.id t)
  t2 ← attempt e delete_dimensions t1 (drop_dimensions d.id t1)
  ok (codes "replaced", d.id, t2))
take_dataset e p r t none = do
  t1 ← attempt e insert_dataset t (add_dataset e p.id r t)
  ok (codes "created", t.next_dataset + e.gap t, t1)

unfoldable pub open_dataset :
    Backend → ProviderRow → Replacement → Tables → Result StoreError (Bytes × ℕ × Tables)
unfolding find_dataset take_dataset
open_dataset e p r t = do
  found ← attempt e select_dataset t (find_dataset p.id r.dataset.key t.datasets)
  take_dataset e p r t found

-- insert into storage.dimensions
unfoldable pub add_dimension : Backend → ℕ → Dimension → Tables → Tables
add_dimension e dataset_id d t =
    let id = t.next_dimension + e.gap t in
    record t {
      dimensions =
          t.dimensions
          ++ (record { id = id; dataset_id = dataset_id; code = d.code; position = d.position }
              ∷ []);
      next_dimension = suc id;
    }

abbrev pub category_row : ℕ → Category → CategoryRow
category_row id c = record { dimension_id = id; category = c }

abbrev pub observation_row : ℕ → Cell → ObservationRow
observation_row id c = record {
  dataset_id = id;
  cell_index = c.index;
  numeric_value = c.numeric;
  text_value = c.text;
  status_code = c.status;
}

-- the rows that `CopyFrom` writes to storage.categories
unfoldable pub add_categories : ℕ → List Category → Tables → Tables
add_categories dimension_id categories t = record t {
  categories = t.categories ++ map (category_row dimension_id) categories;
}

-- the loop over the dimensions of a replacement
unfoldable pub insert_dimensions : Backend → ℕ → List Dimension → Tables → Result StoreError Tables
unfolding add_dimension add_categories
insert_dimensions e dataset_id [] t = ok t
insert_dimensions e dataset_id (d ∷ ds) t = do
  with_row ← attempt e (insert_dimension d.position) t (add_dimension e dataset_id d t)
  copied ←
      if ltb 0 (length d.categories)
      then attempt e (copy_categories d.position) with_row
          (add_categories (t.next_dimension + e.gap t) d.categories with_row)
      else ok with_row
  insert_dimensions e dataset_id ds copied

-- the rows that `CopyFrom` writes to storage.observations
unfoldable pub add_observations : ℕ → List Cell → Tables → Tables
add_observations dataset_id cells t = record t {
  observations = t.observations ++ map (observation_row dataset_id) cells;
}

abbrev pub updated_row : Backend → Replacement → Tables → ℕ → DatasetRow → DatasetRow
updated_row e r t id d =
    if nat_beq d.id id
    then record d {
      source_stamp = e.to_jsonb r.source_stamp;
      cell_count = r.cell_count;
      valued_cell_count = r.valued_count;
      updated_at = e.clock_timestamp update_dataset t;
    }
    else d

-- update storage.datasets … where dataset_id = $1
unfoldable pub set_dataset : Backend → Replacement → ℕ → Tables → Tables
set_dataset e r id t = record t { datasets = map (updated_row e r t id) t.datasets }

-- The part of `Replace` from the update of the dataset's row.
unfoldable pub finish_replace :
    Backend
    → Replacement
    → ProviderRow
    → Bytes
    → ℕ
    → Tables
    → Result StoreError ((Bytes × Summary) × Tables)
unfolding set_dataset summary_of
finish_replace e r p result id t = do
  t1 ← attempt e update_dataset t (set_dataset e r id t)
  d ← require other_failure (find_by (λ (d : DatasetRow). nat_beq d.id id) t1.datasets)
  t2 ← checkpoint e before_commit t1
  t3 ← attempt e commit t2 t2
  ok ((result, summary_of p d), t3)

-- The part of it from the selection of the dataset.
unfoldable pub store_replacement :
    Backend → Replacement → ProviderRow → Tables → Result StoreError ((Bytes × Summary) × Tables)
unfolding open_dataset insert_dimensions add_observations finish_replace
store_replacement e r p t = do
  (result, id, t1) ← open_dataset e p r t
  t2 ← checkpoint e before_structure t1
  t3 ← insert_dimensions e id r.dimensions t2
  t4 ← checkpoint e before_copy t3
  t5 ←
      if ltb 0 (length r.cells)
      then attempt e copy_observations t4 (add_observations id r.cells t4)
      else ok t4
  finish_replace e r p result id t5

-- The body of the transaction.
unfoldable pub replace_rows :
    Backend → Replacement → Tables → Result StoreError ((Bytes × Summary) × Tables)
unfolding advisory_key add_provider find_provider store_replacement
replace_rows e r t = do
  t1 ← attempt e begin t t
  t2 ← attempt e (advisory_lock (advisory_key e r.provider.key r.dataset.key)) t1 t1
  t3 ← attempt e insert_provider t2 (add_provider e r.provider t2)
  found ← attempt e select_provider t3 (find_provider r.provider.key t3.providers)
  p ← require other_failure found
  store_replacement e r p t3

-- The deferred Rollback: a transaction that fails leaves the rows as they were.
abbrev pub end_transaction {ℓ} :
    {A : Type ℓ} → Result StoreError (A × Tables) → Tables → Result StoreError A × Tables
end_transaction (ok (a, t')) t = (ok a, t')
end_transaction (err error) t = (err error, t)

unfoldable pub replace :
    Backend → Replacement → Tables → Result StoreError (Bytes × Summary) × Tables
unfolding replace_rows
replace e r t = end_transaction (replace_rows e r t) t
