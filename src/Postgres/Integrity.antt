-- ===== src/Postgres/Integrity.antt =====
-- The references between the tables of internal/store/postgres.go. storage.observations has no
-- foreign key, so that its rows refer to a dataset is the work of `Replace` and `Delete`.
pub mod Datasets
pub mod Rows
use nordicintel_storage_api.Prelude.{
  find_by-Has, bytes_beq, find_by-of_Has, ◌∷◌, [], ◌++◌, ◌∙◌, ap, sym, ◌⊎◌, ◌≢◌, bytes_eq, ==_refl,
  Bytes, ℕ, ◌<◌, ◌≡◌, ◌≢◌, refl, sym, subst, true, not, nat_eq, nat_beq, Bool-cases, inl, inr,
  ==_of_ne, Option, none, some, List, map, Has, Has-map, Has-append, Has-filter_by, Has-one, Refers,
  Refers-append_left, Refers-filter_by, Refers-map, Unique, Unique-append_one, Unique-filter_by,
  Unique-map, number_bound, Has-filter_by_kept, Has-of_map, contains, contains_of_Has, filter_by,
  arith,
}
use nordicintel_storage_api.Domain.Model.{Category, Cell, Code, Dimension, Replacement}
use nordicintel_storage_api.Postgres.Tables.{
  ProviderRow, DatasetRow, DimensionRow, CategoryRow, ObservationRow, Tables, find_provider,
  find_dataset, is_dataset,
}
use nordicintel_storage_api.Postgres.Statements.{Backend}
use nordicintel_storage_api.Postgres.Replace.{
  new_dataset, add_missing, add_provider, add_dataset, drop_observations, drop_dimensions,
  add_dimension, add_categories, add_observations, set_dataset, category_row, observation_row,
  updated_row,
}
use nordicintel_storage_api.Postgres.Delete.{drop_dataset}

abbrev pub HasProvider : ℕ → Tables → Type 0
HasProvider id t = Refers (λ (p : ProviderRow). p.id) id t.providers

abbrev pub HasDataset : ℕ → Tables → Type 0
HasDataset id t = Refers (λ (d : DatasetRow). d.id) id t.datasets

abbrev pub HasDimension : ℕ → Tables → Type 0
HasDimension id t = Refers (λ (d : DimensionRow). d.id) id t.dimensions

-- A provider has one dataset with a key.
abbrev pub IsNamed : List DatasetRow → Type 0
IsNamed rows =
    (c d : DatasetRow)
    → Has c rows
    → Has d rows
    → c.provider_id ≡ d.provider_id
    → c.code.key ≡ d.code.key
    → c.id ≡ d.id

pub record IsDatabase (t : Tables) : Type 0 where
  pub provider_bound : (p : ProviderRow) → Has p t.providers → p.id < t.next_provider
  pub provider_unique : Unique (λ (p : ProviderRow). p.id) t.providers
  pub dataset_provider : (d : DatasetRow) → Has d t.datasets → HasProvider d.provider_id t
  pub dataset_bound : (d : DatasetRow) → Has d t.datasets → d.id < t.next_dataset
  pub dataset_unique : Unique (λ (d : DatasetRow). d.id) t.datasets
  pub dataset_named : IsNamed t.datasets
  pub dimension_bound : (d : DimensionRow) → Has d t.dimensions → d.id < t.next_dimension
  pub dimension_dataset : (d : DimensionRow) → Has d t.dimensions → HasDataset d.dataset_id t
  pub category_dimension : (c : CategoryRow) → Has c t.categories → HasDimension c.dimension_id t
  pub observation_dataset : (o : ObservationRow) → Has o t.observations → HasDataset o.dataset_id t

pub find_provider-HasProvider :
    (key : Bytes) (t : Tables) (p : ProviderRow)
    → find_provider key t.providers ≡ some p
    → HasProvider p.id t
unfolding find_provider
find_provider-HasProvider key t p found =
    (p, (find_by-Has (λ (p : ProviderRow). bytes_beq p.code.key key) t.providers p found).0, refl)

pub add_provider-IsDatabase :
    (e : Backend) (code : Code) (t : Tables) → IsDatabase t → IsDatabase (add_provider e code t)
unfolding add_provider
add_provider-IsDatabase e code t w = added (find_provider code.key t.providers)
  where
    added : (found : Option ProviderRow) → IsDatabase (add_missing e code t found)
    added (some p) = w
    added none = record {
      provider_bound =
          number_bound (λ (p : ProviderRow). p.id) t.providers _ t.next_provider w.provider_bound
            (omega arith);
      provider_unique =
          Unique-append_one (λ (p : ProviderRow). p.id) t.providers _ t.next_provider
            w.provider_bound (omega arith) w.provider_unique;
      dataset_provider = λ d at.
          Refers-append_left (λ (p : ProviderRow). p.id) d.provider_id t.providers _
            (w.dataset_provider d at);
      dataset_bound = w.dataset_bound;
      dataset_unique = w.dataset_unique;
      dataset_named = w.dataset_named;
      dimension_bound = w.dimension_bound;
      dimension_dataset = w.dimension_dataset;
      category_dimension = w.category_dimension;
      observation_dataset = w.observation_dataset;
    }
