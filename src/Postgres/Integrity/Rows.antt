-- ===== src/Postgres/Integrity/Rows.antt =====
-- The inserts and deletes of the other rows in internal/store/postgres.go keep the references.
use nordicintel_storage_api.Prelude.{
  ◌≢◌, bytes_eq, ℕ, ◌≡◌, ◌≢◌, refl, subst, true, not, nat_eq, nat_beq, Bool-cases, inl, inr,
  ==_of_ne, List, map, Has, Has-map, Has-append, Has-filter_by, Has-one, Refers-append_left,
  Refers-filter_by, Unique-filter_by, number_bound, Has-filter_by_kept, Has-of_map, contains,
  contains_of_Has, filter_by, arith,
}
use nordicintel_storage_api.Domain.Model.{Category, Cell, Dimension}
use nordicintel_storage_api.Postgres.Tables.{
  DatasetRow, DimensionRow, CategoryRow, ObservationRow, Tables,
}
use nordicintel_storage_api.Postgres.Statements.{Backend}
use nordicintel_storage_api.Postgres.Replace.{
  drop_observations, drop_dimensions, add_dimension, add_categories, add_observations, category_row,
  observation_row,
}
use nordicintel_storage_api.Postgres.Delete.{drop_dataset}
use nordicintel_storage_api.Postgres.Integrity.{HasDataset, HasDimension, IsDatabase}

pub drop_observations-IsDatabase :
    (id : ℕ) (t : Tables) → IsDatabase t → IsDatabase (drop_observations id t)
unfolding drop_observations
drop_observations-IsDatabase id t w = record {
  provider_bound = w.provider_bound;
  provider_unique = w.provider_unique;
  dataset_provider = w.dataset_provider;
  dataset_bound = w.dataset_bound;
  dataset_unique = w.dataset_unique;
  dataset_named = w.dataset_named;
  dimension_bound = w.dimension_bound;
  dimension_dataset = w.dimension_dataset;
  category_dimension = w.category_dimension;
  observation_dataset =
      λ o at. let (old, left) = Has-filter_by _ o t.observations at in w.observation_dataset o old;
}

pub drop_dimensions-IsDatabase :
    (id : ℕ) (t : Tables) → IsDatabase t → IsDatabase (drop_dimensions id t)
unfolding drop_dimensions
drop_dimensions-IsDatabase id t w = record {
  provider_bound = w.provider_bound;
  provider_unique = w.provider_unique;
  dataset_provider = w.dataset_provider;
  dataset_bound = w.dataset_bound;
  dataset_unique = w.dataset_unique;
  dataset_named = w.dataset_named;
  dimension_bound =
      λ d at. let (old, left) = Has-filter_by _ d t.dimensions at in w.dimension_bound d old;
  dimension_dataset =
      λ d at. let (old, left) = Has-filter_by _ d t.dimensions at in w.dimension_dataset d old;
  category_dimension = λ c at.
      let (old, left) = Has-filter_by _ c t.categories at in
      let (d, here, same) = w.category_dimension c old in
      (d, Has-filter_by_kept _ d t.dimensions here (stays c d here same left), same);
  observation_dataset = w.observation_dataset;
}
  where
    stays :
        (c : CategoryRow) (d : DimensionRow)
        → Has d t.dimensions
        → d.id ≡ c.dimension_id
        → not (
            contains c.dimension_id (
              map
                (λ (d : DimensionRow). d.id)
                (filter_by (λ (d : DimensionRow). nat_beq d.dataset_id id) t.dimensions)))
          ≡ true
        → not (nat_beq d.dataset_id id) ≡ true
    stays c d here same left = elim (Bool-cases (nat_beq d.dataset_id id)) [
      | inr other ↦ rw other refl
      | inl mine ↦
          let dropped : contains d.id (
                map (λ (d : DimensionRow). d.id)
                  (filter_by (λ (d : DimensionRow). nat_beq d.dataset_id id) t.dimensions))
              ≡ true =
            contains_of_Has d.id _ (
              Has-map (λ (d : DimensionRow). d.id) d _
                (Has-filter_by_kept _ d t.dimensions here mine)) in
          absurd (cc)
    ]

pub drop_dataset-IsDatabase :
    (id : ℕ) (t : Tables)
    → IsDatabase t
    → ((o : ObservationRow) → Has o t.observations → o.dataset_id ≢ id)
    → IsDatabase (drop_dataset id t)
unfolding drop_dataset drop_dimensions
drop_dataset-IsDatabase id t w unseen =
    let w' = drop_dimensions-IsDatabase id t w in
    record {
      provider_bound = w.provider_bound;
      provider_unique = w.provider_unique;
      dataset_provider =
          λ d at. let (old, left) = Has-filter_by _ d t.datasets at in w.dataset_provider d old;
      dataset_bound =
          λ d at. let (old, left) = Has-filter_by _ d t.datasets at in w.dataset_bound d old;
      dataset_unique = Unique-filter_by (λ (d : DatasetRow). d.id) _ t.datasets w.dataset_unique;
      dataset_named = λ c d hc hd.
          w.dataset_named c d (Has-filter_by _ c t.datasets hc).0
            (Has-filter_by _ d t.datasets hd).0;
      dimension_bound = w'.dimension_bound;
      dimension_dataset = λ d at.
          let (old, left) = Has-filter_by _ d t.dimensions at in
          Refers-filter_by (λ (d : DatasetRow). d.id) _ d.dataset_id t.datasets
            (λ x same. rw same left) (w.dimension_dataset d old);
      category_dimension = w'.category_dimension;
      observation_dataset = λ o at.
          Refers-filter_by (λ (d : DatasetRow). d.id) _ o.dataset_id t.datasets
            (λ x same. rw (same, ==_of_ne o.dataset_id id (unseen o at)) refl)
            (w.observation_dataset o at);
    }

pub add_dimension-IsDatabase :
    (e : Backend) (id : ℕ) (d : Dimension) (t : Tables)
    → IsDatabase t
    → HasDataset id t
    → IsDatabase (add_dimension e id d t)
unfolding add_dimension
add_dimension-IsDatabase e id d t w used = record {
  provider_bound = w.provider_bound;
  provider_unique = w.provider_unique;
  dataset_provider = w.dataset_provider;
  dataset_bound = w.dataset_bound;
  dataset_unique = w.dataset_unique;
  dataset_named = w.dataset_named;
  dimension_bound =
      number_bound (λ (d : DimensionRow). d.id) t.dimensions _ t.next_dimension w.dimension_bound
        (omega arith);
  dimension_dataset = λ x at. elim (Has-append x t.dimensions _ at) [
    | inl old ↦ w.dimension_dataset x old
    | inr new ↦ subst (λ (z : DimensionRow). HasDataset z.dataset_id t) (Has-one x _ new) used
  ];
  category_dimension = λ c at.
      Refers-append_left (λ (d : DimensionRow). d.id) c.dimension_id t.dimensions _
        (w.category_dimension c at);
  observation_dataset = w.observation_dataset;
}

pub add_categories-IsDatabase :
    (id : ℕ) (categories : List Category) (t : Tables)
    → IsDatabase t
    → HasDimension id t
    → IsDatabase (add_categories id categories t)
unfolding add_categories
add_categories-IsDatabase id categories t w used = record {
  provider_bound = w.provider_bound;
  provider_unique = w.provider_unique;
  dataset_provider = w.dataset_provider;
  dataset_bound = w.dataset_bound;
  dataset_unique = w.dataset_unique;
  dataset_named = w.dataset_named;
  dimension_bound = w.dimension_bound;
  dimension_dataset = w.dimension_dataset;
  category_dimension = λ x at. elim (Has-append x t.categories _ at) [
    | inl old ↦ w.category_dimension x old
    | inr new ↦
        let (c, here, same) = Has-of_map (category_row id) x categories new in
        subst (λ (z : CategoryRow). HasDimension z.dimension_id t) same used
  ];
  observation_dataset = w.observation_dataset;
}

pub add_observations-IsDatabase :
    (id : ℕ) (cells : List Cell) (t : Tables)
    → IsDatabase t
    → HasDataset id t
    → IsDatabase (add_observations id cells t)
unfolding add_observations
add_observations-IsDatabase id cells t w used = record {
  provider_bound = w.provider_bound;
  provider_unique = w.provider_unique;
  dataset_provider = w.dataset_provider;
  dataset_bound = w.dataset_bound;
  dataset_unique = w.dataset_unique;
  dataset_named = w.dataset_named;
  dimension_bound = w.dimension_bound;
  dimension_dataset = w.dimension_dataset;
  category_dimension = w.category_dimension;
  observation_dataset = λ x at. elim (Has-append x t.observations _ at) [
    | inl old ↦ w.observation_dataset x old
    | inr new ↦
        let (c, here, same) = Has-of_map (observation_row id) x cells new in
        subst (λ (z : ObservationRow). HasDataset z.dataset_id t) same used
  ];
}
