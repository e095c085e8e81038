-- ===== src/Postgres/Total.antt =====
-- `Replace` of internal/store/postgres.go ends with a result or with ErrDatasetExists where no
-- statement fails.
use nordicintel_storage_api.Prelude.{
  ℕ, ◌+◌, ◌≡◌, refl, ◌∙◌, ◌⊎◌, false, nat_eq, nat_beq, bytes_eq, bytes_beq, Bytes, codes,
  Bool-cases, inl, inr, ==_refl, Option-cases, none, some, List, [], ◌∷◌, length, ltb, Refers-map,
  find_by-append, find_by-of_Has, find_by, find_by-Has, eq_of_==, and_parts, some-inj, sym, ap,
  Option, arith, ok, err,
}
use nordicintel_storage_api.Domain.Model.{Code, Dimension, Replacement, Summary}
use nordicintel_storage_api.Server.Store.{dataset_exists}
use nordicintel_storage_api.Postgres.Tables.{
  ProviderRow, DatasetRow, Tables, find_provider, is_dataset, find_dataset, find_identity,
  summary_of,
}
use nordicintel_storage_api.Postgres.Statements.{
  Backend, Statement, begin, advisory_lock, insert_provider, select_provider, select_dataset,
  insert_dataset, delete_observations, delete_dimensions, before_structure, insert_dimension,
  copy_categories, before_copy, copy_observations, update_dataset, before_commit, commit,
}
use nordicintel_storage_api.Postgres.Advisory.{advisory_key}
use nordicintel_storage_api.Postgres.Replace.{
  add_missing, add_provider, add_dataset, drop_observations, drop_dimensions, take_dataset,
  open_dataset, add_dimension, add_categories, insert_dimensions, add_observations, updated_row,
  set_dataset, finish_replace, store_replacement, replace_rows, replace,
}
use nordicintel_storage_api.Postgres.Integrity.{
  IsDatabase, HasProvider, HasDataset, find_provider-HasProvider, add_provider-IsDatabase,
}
use nordicintel_storage_api.Postgres.Integrity.Datasets.{updated_row-id}
use nordicintel_storage_api.Postgres.Kept.{open_dataset-IsDatabase, insert_dimensions-IsDatabase}

-- A provider that is inserted is found, and it is the row with the next id.
new_provider-found :
    (e : Backend) (code : Code) (t : Tables)
    → find_provider code.key t.providers ≡ none
    → find_provider code.key (add_missing e code t none).providers
      ≡ some (record { id = t.next_provider + e.gap t; code = code })
unfolding find_provider
new_provider-found e code t absent =
    find_by-append (λ (p : ProviderRow). bytes_beq p.code.key code.key) t.providers _
    ∙ rw (absent, ==_refl code.key) refl

-- The provider is there after its insert, also where it was there before.
add_provider-found :
    (e : Backend) (code : Code) (t : Tables)
    → (p : ProviderRow) × (find_provider code.key (add_provider e code t).providers ≡ some p)
unfolding add_provider
add_provider-found e code t = elim (Option-cases (find_provider code.key t.providers)) [
  | inl absent ↦ (
    record { id = t.next_provider + e.gap t; code = code },
    rw absent (new_provider-found e code t absent),
  )
  | inr (p, found) ↦ (p, rw found found)
]

-- A dataset of the provider was there before the insert of the provider: a new provider has none.
find_identity-before :
    (e : Backend) (code : Code) (key : Bytes) (t : Tables) (p : ProviderRow) (d : DatasetRow)
    → IsDatabase t
    → find_provider code.key (add_provider e code t).providers ≡ some p
    → find_dataset p.id key (add_provider e code t).datasets ≡ some d
    → find_identity t code.key key ≡ some (p, d)
unfolding add_provider find_identity find_dataset
find_identity-before e code key t p d w found exists =
    by_provider (find_provider code.key t.providers) refl found exists
  where
    by_provider :
        (o : Option ProviderRow)
        → find_provider code.key t.providers ≡ o
        → find_provider code.key (add_missing e code t o).providers ≡ some p
        → find_by (is_dataset p.id key) (add_missing e code t o).datasets ≡ some d
        → find_identity t code.key key ≡ some (p, d)
    by_provider (some q) there found exists = rw (found, exists) refl
    by_provider none absent found exists =
        let (here, named) = find_by-Has (is_dataset p.id key) t.datasets d exists in
        let (q, at, same) = w.dataset_provider d here in
        let owner =
          eq_of_== d.provider_id p.id
            (and_parts (nat_beq d.provider_id p.id) (bytes_beq d.code.key key) named).0 in
        let new =
          ap (λ (x : ProviderRow). x.id)
            (some-inj (sym (new_provider-found e code t absent) ∙ found)) in
        absurd (omega (arith, w.provider_bound q at))

module _ (e : Backend) (runs : (s : Statement) (t : Tables) → e.fault s t ≡ none) where
  insert_dimensions_total :
      (id : ℕ) (ds : List Dimension) (t : Tables)
      → (t' : Tables) × (insert_dimensions e id ds t ≡ ok t')
  unfolding insert_dimensions
  insert_dimensions_total id [] t = (t, refl)
  insert_dimensions_total id (d ∷ ds) t =
      let t1 = add_dimension e id d t in
      let t2 = add_categories (t.next_dimension + e.gap t) d.categories t1 in
      elim (Bool-cases (ltb 0 (length d.categories))) [
        | inl some' ↦
            let (t', ends) = insert_dimensions_total id ds t2 in
            (
              t',
              rw (runs (insert_dimension d.position) t, some', runs (copy_categories d.position) t1)
                  ends,
            )
        | inr none' ↦
            let (t', ends) = insert_dimensions_total id ds t1 in
            (t', rw (runs (insert_dimension d.position) t, none') ends)
      ]

  finish_replace_total :
      (r : Replacement) (p : ProviderRow) (word : Bytes) (id : ℕ) (t : Tables)
      → HasDataset id t
      → (s : Summary) × (t' : Tables) × (finish_replace e r p word id t ≡ ok ((word, s), t'))
  unfolding finish_replace set_dataset
  finish_replace_total r p word id t used =
      let t1 = set_dataset e r id t in
      let (d, here, same) =
        Refers-map (λ (d : DatasetRow). d.id) (updated_row e r t id) id t.datasets
          (updated_row-id e r t id) used in
      let (x, found) =
        find_by-of_Has (λ (d : DatasetRow). nat_beq d.id id) t1.datasets d here
          (rw (same, ==_refl id) refl) in
      (
        summary_of p x,
        t1,
        rw (runs update_dataset t, found, runs before_commit t1, runs commit t1) refl,
      )

  store_replacement_total :
      (r : Replacement) (p : ProviderRow) (t : Tables) (word : Bytes) (id : ℕ) (t1 : Tables)
      → IsDatabase t
      → HasProvider p.id t
      → open_dataset e p r t ≡ ok (word, id, t1)
      → (s : Summary) × (t' : Tables) × (store_replacement e r p t ≡ ok ((word, s), t'))
  unfolding store_replacement add_observations
  store_replacement_total r p t word id t1 w owner opened =
      let (w1, used) = open_dataset-IsDatabase e p r t word id t1 w owner opened in
      let (t3, inserted) = insert_dimensions_total id r.dimensions t1 in
      let (_, used3) = insert_dimensions-IsDatabase e id r.dimensions t1 t3 w1 used inserted in
      let t5 = add_observations id r.cells t3 in
      elim (Bool-cases (ltb 0 (length r.cells))) [
        | inl some' ↦
            let (s, t', ends) = finish_replace_total r p word id t5 used3 in
            (
              s,
              t',
              rw
                  (
                    opened,
                    runs before_structure t1,
                    inserted,
                    runs before_copy t3,
                    some',
                    runs copy_observations t3,
                  )
                  ends,
            )
        | inr none' ↦
            let (s, t', ends) = finish_replace_total r p word id t3 used3 in
            (
              s,
              t',
              rw (opened, runs before_structure t1, inserted, runs before_copy t3, none') ends,
            )
      ]

  -- The dataset is opened, or it exists and is not to be replaced.
  open_dataset_total :
      (r : Replacement) (p : ProviderRow) (t : Tables)
      → ((word : Bytes) × (id : ℕ) × (t1 : Tables) × (open_dataset e p r t ≡ ok (word, id, t1)))
        ⊎ ((r.replace ≡ false)
            × (open_dataset e p r t ≡ err dataset_exists)
            × ((d : DatasetRow) × (find_dataset p.id r.dataset.key t.datasets ≡ some d)))
  unfolding open_dataset take_dataset
  open_dataset_total r p t = elim (Option-cases (find_dataset p.id r.dataset.key t.datasets)) [
    | inl absent ↦ inl (
      codes "created",
      t.next_dataset + e.gap t,
      add_dataset e p.id r t,
      rw (runs select_dataset t, absent, runs insert_dataset t) refl,
    )
    | inr (d, found) ↦ elim (Bool-cases r.replace) [
      | inl given ↦
          let t1 = drop_observations d.id t in
          inl (
            codes "replaced",
            d.id,
            drop_dimensions d.id t1,
            rw
                (
                  runs select_dataset t,
                  found,
                  given,
                  runs delete_observations t,
                  runs delete_dimensions t1,
                )
                refl,
          )
      | inr kept ↦ inr (kept, rw (runs select_dataset t, found, kept) refl, (d, found))
    ]
  ]

  -- Without a fault, `Replace` on the tables of a database ends: with a summary, or, without its
  -- `replace` flag, with ErrDatasetExists and the tables as they were, and then these have the
  -- dataset: the provider and the dataset with the keys of the replacement.
  pub replace_total :
      (r : Replacement) (t : Tables)
      → IsDatabase t
      → ((result : Bytes) × (s : Summary) × (t' : Tables) × (replace e r t ≡ (ok (result, s), t')))
        ⊎ ((r.replace ≡ false)
            × (replace e r t ≡ (err dataset_exists, t))
            × ((p : ProviderRow) × (d : DatasetRow) × (find_identity t r.provider.key r.dataset.key
                  ≡ some (p, d))))
  unfolding replace replace_rows store_replacement
  replace_total r t w =
      let t1 = add_provider e r.provider t in
      let (p, found) = add_provider-found e r.provider t in
      let w1 = add_provider-IsDatabase e r.provider t w in
      let owner = find_provider-HasProvider r.provider.key t1 p found in
      let lock = runs (advisory_lock (advisory_key e r.provider.key r.dataset.key)) t in
      elim (open_dataset_total r p t1) [
        | inl (word, id, t2, opened) ↦
            let (s, t', ends) = store_replacement_total r p t1 word id t2 w1 owner opened in
            inl (
              word,
              s,
              t',
              rw (runs begin t, lock, runs insert_provider t, runs select_provider t1, found, ends)
                  refl,
            )
        | inr (kept, refused, (d, exists)) ↦ inr (
          kept,
          rw (runs begin t, lock, runs insert_provider t, runs select_provider t1, found, refused)
              refl,
          (p, d, find_identity-before e r.provider r.dataset.key t p d w found exists),
        )
      ]
