-- ===== src/Postgres/Deletion.antt =====
-- What `Delete` of internal/store/postgres.go leaves.
use nordicintel_storage_api.Prelude.{
  ℕ, ◌≡◌, ◌≢◌, refl, ap, sym, subst, ◌∙◌, not, nat_eq, nat_beq, ==_refl, Option, none, some, List,
  Has, Has-filter_by, Result, ok, err, ok-inj,
}
use nordicintel_storage_api.Domain.Model.{Code}
use nordicintel_storage_api.Server.Store.{StoreError}
use nordicintel_storage_api.Postgres.Tables.{
  ProviderRow, DatasetRow, ObservationRow, Tables, find_identity,
}
use nordicintel_storage_api.Postgres.Statements.{
  Backend, outcome->>=, begin, advisory_lock, delete_observations, delete_dataset_row, commit,
}
use nordicintel_storage_api.Postgres.Advisory.{advisory_key}
use nordicintel_storage_api.Postgres.Replace.{drop_observations, end_transaction}
use nordicintel_storage_api.Postgres.Delete.{drop_identified, drop_dataset, delete_rows, delete}
use nordicintel_storage_api.Postgres.Integrity.{IsDatabase}
use nordicintel_storage_api.Postgres.Integrity.Rows.{
  drop_observations-IsDatabase, drop_dataset-IsDatabase,
}

abbrev pub deleted : Option (ProviderRow × DatasetRow) → Tables → Tables
deleted found t = drop_identified drop_dataset found (drop_identified drop_observations found t)

find_identity-drop_observations :
    (provider_key dataset_key : List ℕ) (found : Option (ProviderRow × DatasetRow)) (t : Tables)
    → find_identity (drop_identified drop_observations found t) provider_key dataset_key
      ≡ find_identity t provider_key dataset_key
unfolding find_identity drop_observations
find_identity-drop_observations provider_key dataset_key none t = refl
find_identity-drop_observations provider_key dataset_key (some (p, d)) t = refl

pub delete_rows-eq-ok :
    (e : Backend) (provider dataset : Code) (t t' : Tables)
    → delete_rows e provider dataset t ≡ ok (tt, t')
    → deleted (find_identity t provider.key dataset.key) t ≡ t'
unfolding delete_rows
delete_rows-eq-ok e provider dataset t t' h =
    let h1 = outcome->>= (e.fault begin t) t _ h in
    let h2 =
      outcome->>= (e.fault (advisory_lock (advisory_key e provider.key dataset.key)) t) t _ h1 in
    let found = find_identity t provider.key dataset.key in
    let t1 = drop_identified drop_observations found t in
    let h3 = outcome->>= (e.fault delete_observations t) t1 _ h2 in
    let t2 = drop_identified drop_dataset (find_identity t1 provider.key dataset.key) t1 in
    let h4 = outcome->>= (e.fault delete_dataset_row t1) t2 _ h3 in
    ap (λ f. drop_identified drop_dataset f t1)
      (sym (find_identity-drop_observations provider.key dataset.key found t))
    ∙ ap (λ z. z.1) (ok-inj (outcome->>= (e.fault commit t2) t2 _ h4))

drop_observations_unseen :
    (id : ℕ) (t : Tables) (o : ObservationRow)
    → Has o (drop_observations id t).observations
    → o.dataset_id ≢ id
unfolding drop_observations
drop_observations_unseen id t o at same =
    let (old, left) =
      Has-filter_by (λ (o : ObservationRow). not (nat_beq o.dataset_id id)) o t.observations at in
    absurd (cc (left, ==_refl id, same))

pub deleted-IsDatabase :
    (found : Option (ProviderRow × DatasetRow)) (t : Tables)
    → IsDatabase t
    → IsDatabase (deleted found t)
deleted-IsDatabase none t w = w
deleted-IsDatabase (some (p, d)) t w =
    drop_dataset-IsDatabase d.id (drop_observations d.id t) (drop_observations-IsDatabase d.id t w)
      (drop_observations_unseen d.id t)

-- `Delete` keeps the tables those of a database, also when it fails: no observation or dimension
-- refers to a dataset that is gone, and no category to a dimension that is gone.
pub delete-IsDatabase :
    (e : Backend) (provider dataset : Code) (t : Tables)
    → IsDatabase t
    → IsDatabase (delete e provider dataset t).1
unfolding delete
delete-IsDatabase e provider dataset t w =
    ended (delete_rows e provider dataset t) (delete_rows-eq-ok e provider dataset t)
  where
    ended :
        (b : Result StoreError (Unit {0} × Tables))
        → ((t' : Tables)
            → b ≡ ok (tt, t')
            → deleted (find_identity t provider.key dataset.key) t ≡ t')
        → IsDatabase (end_transaction b t).1
    ended (ok (u, t')) h =
        subst IsDatabase (h t' refl)
          (deleted-IsDatabase (find_identity t provider.key dataset.key) t w)
    ended (err error) h = w
