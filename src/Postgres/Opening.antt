-- ===== src/Postgres/Opening.antt =====
-- What `Replace` of internal/store/postgres.go has before it inserts rows: a dataset that no row
-- refers to.
use nordicintel_storage_api.Prelude.{
  ℕ, ◌+◌, ◌≡◌, ◌≢◌, refl, subst, ◌∙◌, not, nat_eq, nat_beq, bytes_eq, Bytes, Bool-cases, inl, inr,
  ==_refl, Option, none, some, Has, Has-filter_by, Refers, find_by-append, find_by, Option-cases,
  and_parts, eq_of_==, sym, [], ◌∷◌, ok, ok-inj, arith,
}
use nordicintel_storage_api.Domain.Model.{Replacement}
use nordicintel_storage_api.Postgres.Tables.{
  ProviderRow, DatasetRow, DimensionRow, ObservationRow, Tables, is_dataset, find_dataset,
}
use nordicintel_storage_api.Postgres.Statements.{
  Backend, outcome->>=, select_dataset, insert_dataset, delete_observations, delete_dimensions,
}
use nordicintel_storage_api.Postgres.Replace.{
  new_dataset, add_dataset, drop_observations, drop_dimensions, take_dataset, open_dataset,
}
use nordicintel_storage_api.Postgres.Integrity.{IsDatabase}

-- What `Replace` has before it inserts rows: a dataset that nothing refers to.
pub record Opened (p : ProviderRow) (key : Bytes) (id : ℕ) (t t' : Tables) : Type 0 where
  pub d : DatasetRow
  pub providers : t'.providers ≡ t.providers
  pub found : find_dataset p.id key t'.datasets ≡ some d
  pub identified : d.id ≡ id
  pub others :
      (provider_id : ℕ) (other : Bytes)
      → (provider_id ≡ p.id → key ≢ other)
      → find_dataset provider_id other t'.datasets ≡ find_dataset provider_id other t.datasets
  pub no_dimension : (r : DimensionRow) → Has r t'.dimensions → r.dataset_id ≢ id
  pub no_observation : (o : ObservationRow) → Has o t'.observations → o.dataset_id ≢ id

module _ (e : Backend) (p : ProviderRow) (r : Replacement) (t : Tables) (w : IsDatabase t) where
  -- A new dataset has an id that no row refers to.
  not_new :
      (id : ℕ) → Refers (λ (d : DatasetRow). d.id) id t.datasets → id ≢ t.next_dataset + e.gap t
  not_new id (d, at, same) clash = absurd (omega (arith, w.dataset_bound d at))

  -- A new dataset is not found under another name.
  new_other :
      (provider_id : ℕ) (other : Bytes)
      → (provider_id ≡ p.id → r.dataset.key ≢ other)
      → find_dataset provider_id other (add_dataset e p.id r t).datasets
        ≡ find_dataset provider_id other t.datasets
  unfolding add_dataset find_dataset
  new_other provider_id other differ =
      let new = new_dataset e p.id r t in
      let found = is_dataset provider_id other in
      find_by-append found t.datasets (new ∷ []) ∙ elim (Option-cases (find_by found t.datasets)) [
        | inr (x, here) ↦ rw here refl
        | inl absent ↦ elim (Bool-cases (found new)) [
          | inr unnamed ↦ rw (absent, unnamed) refl
          | inl named ↦
              let (owner, key) = and_parts _ _ named in
              absurd
                (differ (sym (eq_of_== p.id provider_id owner)) (eq_of_== r.dataset.key other key))
        ]
      ]

  created :
      find_dataset p.id r.dataset.key t.datasets ≡ none
      → Opened p r.dataset.key (t.next_dataset + e.gap t) t (add_dataset e p.id r t)
  unfolding add_dataset find_dataset
  created absent = record {
    d = new_dataset e p.id r t;
    providers = refl;
    found =
        find_by-append (is_dataset p.id r.dataset.key) t.datasets _
        ∙ rw (absent, ==_refl p.id, ==_refl r.dataset.key) refl;
    identified = refl;
    others = new_other;
    no_dimension = λ x at. not_new x.dataset_id (w.dimension_dataset x at);
    no_observation = λ x at. not_new x.dataset_id (w.observation_dataset x at);
  }

  replaced :
      (d : DatasetRow)
      → find_dataset p.id r.dataset.key t.datasets ≡ some d
      → Opened p r.dataset.key d.id t (drop_dimensions d.id (drop_observations d.id t))
  unfolding drop_dimensions drop_observations
  replaced d here = record {
    d = d;
    providers = refl;
    found = here;
    identified = refl;
    others = λ provider_id other differ. refl;
    no_dimension = λ x at same. absurd (
        cc (
          (Has-filter_by (λ (x : DimensionRow). not (nat_beq x.dataset_id d.id)) x t.dimensions
              at).1,
          ==_refl d.id,
          same,
        ));
    no_observation = λ x at same. absurd (
        cc (
          (Has-filter_by (λ (x : ObservationRow). not (nat_beq x.dataset_id d.id)) x t.observations
              at).1,
          ==_refl d.id,
          same,
        ));
  }

  taken :
      (found : Option DatasetRow) (result : Bytes) (id : ℕ) (t' : Tables)
      → find_dataset p.id r.dataset.key t.datasets ≡ found
      → take_dataset e p r t found ≡ ok (result, id, t')
      → Opened p r.dataset.key id t t'
  unfolding take_dataset
  taken none result id t' at h =
      subst (λ (z : Bytes × ℕ × Tables). Opened p r.dataset.key z.1 t z.2)
        (ok-inj (outcome->>= (e.fault insert_dataset t) (add_dataset e p.id r t) _ h)) (created at)
  taken (some d) result id t' at h = elim (Bool-cases r.replace) [
    | inr kept ↦ absurd (cc (rw kept at h))
    | inl given ↦
        let t1 = drop_observations d.id t in
        let cleared = outcome->>= (e.fault delete_observations t) t1 _ (rw given at h) in
        subst (λ (z : Bytes × ℕ × Tables). Opened p r.dataset.key z.1 t z.2)
          (ok-inj (outcome->>= (e.fault delete_dimensions t1) (drop_dimensions d.id t1) _ cleared))
          (replaced d at)
  ]

  pub open_dataset-Opened :
      (result : Bytes) (id : ℕ) (t' : Tables)
      → open_dataset e p r t ≡ ok (result, id, t')
      → Opened p r.dataset.key id t t'
  unfolding open_dataset
  open_dataset-Opened result id t' h =
      let found = find_dataset p.id r.dataset.key t.datasets in
      taken found result id t' refl (outcome->>= (e.fault select_dataset t) found _ h)
