-- ===== src/Postgres/Kept.antt =====
-- The transactions of internal/store/postgres.go keep the references between the tables.
use nordicintel_storage_api.Prelude.{
  ℕ, ◌+◌, ◌≡◌, refl, subst, Bool-cases, inl, inr, Option, ltb, length, if◌then◌else◌, none, some,
  List, [], ◌∷◌, Refers-append_one, find_by-Has, Bytes, Result, ok, err, >>=-eq-ok, ok-inj,
}
use nordicintel_storage_api.Domain.Model.{Dimension, Replacement, Summary}
use nordicintel_storage_api.Server.Store.{StoreError}
use nordicintel_storage_api.Postgres.Tables.{
  is_dataset, ProviderRow, DatasetRow, DimensionRow, Tables, find_dataset,
}
use nordicintel_storage_api.Postgres.Statements.{
  Backend, attempt, outcome->>=, outcome_if, insert_dimension, copy_categories, delete_observations,
  delete_dimensions, insert_dataset, select_dataset, copy_observations,
}
use nordicintel_storage_api.Postgres.Replace.{
  add_provider, add_dataset, drop_observations, drop_dimensions, add_dimension, add_categories,
  add_observations, take_dataset, open_dataset, insert_dimensions, replace_rows, replace,
  end_transaction,
}
use nordicintel_storage_api.Postgres.Stages.{Replaced, replace_rows-Replaced}
use nordicintel_storage_api.Postgres.Integrity.{
  IsDatabase, HasProvider, HasDataset, HasDimension, find_provider-HasProvider,
  add_provider-IsDatabase,
}
use nordicintel_storage_api.Postgres.Integrity.Datasets.{
  add_dataset-IsDatabase, set_dataset-IsDatabase,
}
use nordicintel_storage_api.Postgres.Integrity.Rows.{
  drop_observations-IsDatabase, drop_dimensions-IsDatabase, add_dimension-IsDatabase,
  add_categories-IsDatabase, add_observations-IsDatabase,
}

pub take_dataset-IsDatabase :
    (e : Backend) (p : ProviderRow) (r : Replacement) (t : Tables) (found : Option DatasetRow)
    (result : Bytes) (id : ℕ) (t' : Tables)
    → IsDatabase t
    → HasProvider p.id t
    → find_dataset p.id r.dataset.key t.datasets ≡ found
    → take_dataset e p r t found ≡ ok (result, id, t')
    → IsDatabase t' × HasDataset id t'
unfolding take_dataset add_dataset drop_dimensions drop_observations find_dataset
take_dataset-IsDatabase e p r t none result id t' w owner here h =
    subst (λ (z : Bytes × ℕ × Tables). IsDatabase z.2 × HasDataset z.1 z.2)
      (ok-inj (outcome->>= (e.fault insert_dataset t) (add_dataset e p.id r t) _ h))
      (add_dataset-IsDatabase e p.id r t w owner here, added)
  where
    added : HasDataset (t.next_dataset + e.gap t) (add_dataset e p.id r t)
    added = Refers-append_one (λ (d : DatasetRow). d.id) t.datasets _
take_dataset-IsDatabase e p r t (some d) result id t' w owner here h = elim (Bool-cases r.replace) [
  | inr kept ↦ absurd (cc (rw kept at h))
  | inl replaced ↦
      let t1 = drop_observations d.id t in
      let cleared = outcome->>= (e.fault delete_observations t) t1 _ (rw replaced at h) in
      subst (λ (z : Bytes × ℕ × Tables). IsDatabase z.2 × HasDataset z.1 z.2)
        (ok-inj (outcome->>= (e.fault delete_dimensions t1) (drop_dimensions d.id t1) _ cleared))
        (drop_dimensions-IsDatabase d.id t1 (drop_observations-IsDatabase d.id t w), stays)
]
  where
    stays : HasDataset d.id (drop_dimensions d.id (drop_observations d.id t))
    stays = (d, (find_by-Has (is_dataset p.id r.dataset.key) t.datasets d here).0, refl)

pub open_dataset-IsDatabase :
    (e : Backend) (p : ProviderRow) (r : Replacement) (t : Tables) (result : Bytes) (id : ℕ)
    (t' : Tables)
    → IsDatabase t
    → HasProvider p.id t
    → open_dataset e p r t ≡ ok (result, id, t')
    → IsDatabase t' × HasDataset id t'
unfolding open_dataset find_dataset
open_dataset-IsDatabase e p r t result id t' w owner h =
    let found = find_dataset p.id r.dataset.key t.datasets in
    take_dataset-IsDatabase e p r t found result id t' w owner refl
      (outcome->>= (e.fault select_dataset t) found _ h)

-- The categories of a dimension, if it has any.
pub copy_step-IsDatabase :
    (e : Backend) (id : ℕ) (d : Dimension) (dataset_id : ℕ) (t t' : Tables)
    → IsDatabase t
    → HasDimension id t
    → HasDataset dataset_id t
    → (if ltb 0 (length d.categories)
        then attempt e (copy_categories d.position) t (add_categories id d.categories t)
        else ok t)
      ≡ ok t'
    → IsDatabase t' × HasDataset dataset_id t'
unfolding add_categories
copy_step-IsDatabase e id d dataset_id t t' w used kept h =
    outcome_if (λ z. IsDatabase z × HasDataset dataset_id z) (ltb 0 (length d.categories))
      (e.fault (copy_categories d.position) t) (add_categories id d.categories t) t
      (add_categories-IsDatabase id d.categories t w used, kept) (λ none'. (w, kept)) h

pub insert_dimensions-IsDatabase :
    (e : Backend) (id : ℕ) (ds : List Dimension) (t t' : Tables)
    → IsDatabase t
    → HasDataset id t
    → insert_dimensions e id ds t ≡ ok t'
    → IsDatabase t' × HasDataset id t'
unfolding insert_dimensions add_dimension
insert_dimensions-IsDatabase e id [] t t' w used h =
    subst (λ z. IsDatabase z × HasDataset id z) (ok-inj h) (w, used)
insert_dimensions-IsDatabase e id (d ∷ ds) t t' w used h =
    let t1 = add_dimension e id d t in
    let h1 = outcome->>= (e.fault (insert_dimension d.position) t) t1 _ h in
    let copy =
      if ltb 0 (length d.categories)
      then attempt e (copy_categories d.position) t1
          (add_categories (t.next_dimension + e.gap t) d.categories t1)
      else ok t1 in
    let (t2, copied, h2) = >>=-eq-ok copy (insert_dimensions e id ds) h1 in
    let (w2, used2) =
      copy_step-IsDatabase e (t.next_dimension + e.gap t) d id t1 t2
        (add_dimension-IsDatabase e id d t w used)
        (Refers-append_one (λ (x : DimensionRow). x.id) t.dimensions _) used copied in
    insert_dimensions-IsDatabase e id ds t2 t' w2 used2 h2

pub Replaced-IsDatabase :
    (e : Backend) (r : Replacement) (t : Tables) (result : Bytes) (s : Summary) (t' : Tables)
    → IsDatabase t
    → Replaced e r t result s t'
    → IsDatabase t'
unfolding add_observations
Replaced-IsDatabase e r t result s t' w z =
    let (w1, used1) =
      open_dataset-IsDatabase e z.p r (add_provider e r.provider t) result z.id z.opened
        (add_provider-IsDatabase e r.provider t w)
        (find_provider-HasProvider r.provider.key (add_provider e r.provider t) z.p z.found)
        z.opened_by in
    let (w2, used2) =
      insert_dimensions-IsDatabase e z.id r.dimensions z.opened z.structured w1 used1
        z.structured_by in
    let w3 =
      outcome_if IsDatabase (ltb 0 (length r.cells)) (e.fault copy_observations z.structured)
        (add_observations z.id r.cells z.structured) z.structured
        (add_observations-IsDatabase z.id r.cells z.structured w2 used2) (λ none'. w2)
        z.copied_by in
    subst IsDatabase z.updated (set_dataset-IsDatabase e r z.id z.copied w3)

module _ (e : Backend) (t : Tables) (w : IsDatabase t) where
  -- `Replace` keeps the tables those of a database, also when it fails: every dataset, dimension,
  -- category and observation refers to a row that is there, a dataset has an id of its own, the ids of
  -- providers, datasets and dimensions are below their counters, and a provider has one dataset with a
  -- key.
  pub replace-IsDatabase : (r : Replacement) → IsDatabase (replace e r t).1
  unfolding replace
  replace-IsDatabase r = ended (replace_rows e r t) (λ result s t' h.
      Replaced-IsDatabase e r t result s t' w (replace_rows-Replaced e r t result s t' h))
    where
      ended :
          (b : Result StoreError ((Bytes × Summary) × Tables))
          → ((result : Bytes) (s : Summary) (t' : Tables)
              → b ≡ ok ((result, s), t')
              → IsDatabase t')
          → IsDatabase (end_transaction b t).1
      ended (ok ((result, s), t')) h = h result s t' refl
      ended (err error) h = w
