-- ===== src/Postgres/Stored.antt =====
-- What the tables of internal/store/postgres.go hold of a replacement that succeeded.
use nordicintel_storage_api.Prelude.{
  ℕ, suc, ◌<◌, ◌≡◌, ◌≢◌, refl, ap, sym, subst, ◌∙◌, false, nat_eq, nat_beq, bytes_eq, Bytes,
  Bool-cases, inl, inr, ==_refl, ==_of_ne, some, List, [], ◌∷◌, ◌++◌, map, length, ltb, ltb→ge, Has,
  filter_by, filter_by-append, filter_by-none, find_by, find_by-map, ok, arith,
}
use nordicintel_storage_api.Domain.Model.{Cell, Replacement, Summary}
use nordicintel_storage_api.Domain.Remap.{cell_less}
use nordicintel_storage_api.Postgres.Tables.{
  ProviderRow, DatasetRow, CategoryRow, ObservationRow, Tables, is_dataset, find_provider,
  find_dataset, scan_cell, load_structure, load_all_cells,
}
use nordicintel_storage_api.Postgres.Statements.{Backend, outcome_if, copy_observations}
use nordicintel_storage_api.Postgres.Replace.{
  add_provider, add_observations, observation_row, updated_row, set_dataset,
}
use nordicintel_storage_api.Postgres.Integrity.{
  find_provider-HasProvider, IsDatabase, add_provider-IsDatabase,
}
use nordicintel_storage_api.Postgres.Integrity.Datasets.{updated_row-id}
use nordicintel_storage_api.Postgres.Stages.{Replaced, copy_cells}
use nordicintel_storage_api.Postgres.Kept.{open_dataset-IsDatabase}
use nordicintel_storage_api.Postgres.Opening.{Opened, open_dataset-Opened}
use nordicintel_storage_api.Postgres.Loading.{append_nil, Inserted, insert_dimensions-Inserted}
use nordicintel_storage_api.Postgres.Loading.Order.{InOrder, sort-InOrder, DimensionPlaces}
use nordicintel_storage_api.Postgres.Loading.Loops.{load_structure-new}

-- The observations of a dataset without any, after those of a replacement.
load_all_cells-new :
    (id : ℕ) (old : List ObservationRow) (cells : List Cell)
    → ((o : ObservationRow) → Has o old → o.dataset_id ≢ id)
    → InOrder cell_less cells
    → load_all_cells id (old ++ map (observation_row id) cells) ≡ cells
unfolding load_all_cells
load_all_cells-new id old cells unseen w =
    let mine = λ (o : ObservationRow). nat_beq o.dataset_id id in
    let kept : filter_by mine (old ++ map (observation_row id) cells)
        ≡ map (observation_row id) cells =
      filter_by-append mine old (map (observation_row id) cells)
      ∙ rw (filter_by-none mine old (λ o at. ==_of_ne o.dataset_id id (unseen o at)))
          (all_mine cells) in
    rw (kept, unwrapped cells) (sort-InOrder cell_less cells w)
  where
    all_mine :
        (cs : List Cell)
        → filter_by (λ (o : ObservationRow). nat_beq o.dataset_id id) (map (observation_row id) cs)
          ≡ map (observation_row id) cs
    all_mine [] = refl
    all_mine (c ∷ cs) = rw (==_refl id) (ap (◌∷◌ (observation_row id c)) (all_mine cs))

    unwrapped : (cs : List Cell) → map scan_cell (map (observation_row id) cs) ≡ cs
    unwrapped [] = refl
    unwrapped (c ∷ cs) = ap (◌∷◌ c) (unwrapped cs)

-- The step that copies the observations adds all of them.
pub copy_cells-eq :
    (e : Backend) (r : Replacement) (id : ℕ) (t t' : Tables)
    → copy_cells e r id t ≡ ok t'
    → add_observations id r.cells t ≡ t'
unfolding add_observations
copy_cells-eq e r id t t' h =
    outcome_if (λ z. add_observations id r.cells t ≡ z) (ltb 0 (length r.cells))
      (e.fault copy_observations t) (add_observations id r.cells t) t refl (none_added r.cells) h
  where
    none_added :
        (cells : List Cell)
        → ltb 0 (length cells) ≡ false
        → record t { observations = t.observations ++ map (observation_row id) cells } ≡ t
    none_added [] h = ap (λ rows. record t { observations = rows }) (append_nil t.observations)
    none_added (c ∷ cells) h = absurd (omega (arith, ltb→ge 0 (suc (length cells)) h))

pub updated_row-is_dataset :
    (e : Backend) (r : Replacement) (t : Tables) (id provider_id : ℕ) (key : Bytes) (d : DatasetRow)
    → is_dataset provider_id key (updated_row e r t id d) ≡ is_dataset provider_id key d
updated_row-is_dataset e r t id provider_id key d = elim (Bool-cases (nat_beq d.id id)) [
  | inl mine ↦ rw mine refl
  | inr other ↦ rw other refl
]

-- What the tables hold of a replacement that succeeded.
pub record Stored (p : ProviderRow) (r : Replacement) (id : ℕ) (t : Tables) : Type 0 where
  pub d : DatasetRow
  pub provider : find_provider r.provider.key t.providers ≡ some p
  pub found : find_dataset p.id r.dataset.key t.datasets ≡ some d
  pub identified : d.id ≡ id
  pub structure : load_structure id t.dimensions t.categories ≡ ok r.dimensions
  pub cells : load_all_cells id t.observations ≡ r.cells
  pub older : List ObservationRow
  pub observations : t.observations ≡ older ++ map (observation_row id) r.cells
  pub not_older : (o : ObservationRow) → Has o older → o.dataset_id ≢ id

module _ (e : Backend) (r : Replacement) (places : DimensionPlaces 0 r.dimensions)
    (in_order : InOrder cell_less r.cells) where
  stored :
      (p : ProviderRow) (id : ℕ) (t0 t1 t2 : Tables)
      → IsDatabase t1
      → find_provider r.provider.key t0.providers ≡ some p
      → Opened p r.dataset.key id t0 t1
      → Inserted id r.dimensions t1 t2
      → Stored p r id (set_dataset e r id (add_observations id r.cells t2))
  unfolding set_dataset add_observations find_dataset
  stored p id t0 t1 t2 w provider o i =
      let f = updated_row e r (add_observations id r.cells t2) id in
      record {
        d = f o.d;
        provider = rw (i.providers, o.providers) provider;
        found =
            subst (λ rows. find_by (is_dataset p.id r.dataset.key) (map f rows) ≡ some (f o.d))
              (sym i.datasets)
              (find_by-map (is_dataset p.id r.dataset.key) f t1.datasets o.d
                (updated_row-is_dataset e r (add_observations id r.cells t2) id p.id r.dataset.key)
                o.found);
        identified = updated_row-id e r (add_observations id r.cells t2) id o.d ∙ o.identified;
        structure =
            rw (i.dimensions, i.categories)
              (load_structure-new id t1.next_dimension i.ids r.dimensions t1.dimensions
                t1.categories i.as_many i.increasing places o.no_dimension below);
        cells =
            rw i.observations
              (load_all_cells-new id t1.observations r.cells o.no_observation in_order);
        older = t1.observations;
        observations = ap (λ rows. rows ++ map (observation_row id) r.cells) i.observations;
        not_older = o.no_observation;
      }
    where
      below : (c : CategoryRow) → Has c t1.categories → c.dimension_id < t1.next_dimension
      below c at =
          let (d, here, same) = w.category_dimension c at in
          omega (arith, w.dimension_bound d here, same)

  pub Replaced-Stored :
      (t : Tables) (result : Bytes) (s : Summary) (t' : Tables)
      → IsDatabase t
      → (z : Replaced e r t result s t') → Stored z.p r z.id t'
  Replaced-Stored t result s t' w z =
      let t0 = add_provider e r.provider t in
      let w0 = add_provider-IsDatabase e r.provider t w in
      let (w1, used) =
        open_dataset-IsDatabase e z.p r t0 result z.id z.opened w0
          (find_provider-HasProvider r.provider.key t0 z.p z.found) z.opened_by in
      subst (Stored z.p r z.id)
        (ap (set_dataset e r z.id) (copy_cells-eq e r z.id z.structured z.copied z.copied_by)
          ∙ z.updated)
        (stored z.p z.id t0 z.opened z.structured w1 z.found
          (open_dataset-Opened e z.p r t0 w0 result z.id z.opened z.opened_by)
          (insert_dimensions-Inserted e z.id r.dimensions z.opened z.structured z.structured_by))
