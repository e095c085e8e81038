-- ===== src/Postgres/Gone.antt =====
-- A dataset that `Delete` of internal/store/postgres.go removed is not found.
use nordicintel_storage_api.Prelude.{
  ◌≡◌, refl, ap, sym, subst, ◌∙◌, not, nat_eq, bytes_eq, nat_beq, Bytes, Bool-cases, inl, inr,
  ==_refl, eq_of_==, Option, Option-cases, some-inj, none, some, Has-filter_by, filter_by,
  find_by-Has, find_by-none, and_parts, ok, err,
}
use nordicintel_storage_api.Domain.Model.{Code}
use nordicintel_storage_api.Server.Store.{not_found}
use nordicintel_storage_api.Postgres.Tables.{
  ProviderRow, DatasetRow, Tables, is_dataset, find_provider, find_dataset, find_identity,
}
use nordicintel_storage_api.Postgres.Statements.{Backend, Statement, begin, select_summary}
use nordicintel_storage_api.Postgres.Replace.{drop_observations, drop_dimensions}
use nordicintel_storage_api.Postgres.Delete.{drop_dataset, delete_rows, delete}
use nordicintel_storage_api.Postgres.Reads.{summary_and_id, get_summary, get_data}
use nordicintel_storage_api.Postgres.Integrity.{IsDatabase}
use nordicintel_storage_api.Postgres.Deletion.{deleted, delete_rows-eq-ok}
use nordicintel_storage_api.Postgres.Stages.{end_transaction-eq-ok}

-- What a provider and a dataset found by their keys are.
pub find_identity-found :
    (t : Tables) (provider_key dataset_key : Bytes) (p : ProviderRow) (d : DatasetRow)
    → find_identity t provider_key dataset_key ≡ some (p, d)
    → (find_provider provider_key t.providers ≡ some p)
      × (find_dataset p.id dataset_key t.datasets ≡ some d)
unfolding find_identity
find_identity-found t provider_key dataset_key p d h =
    elim (Option-cases (find_provider provider_key t.providers)) [
      | inl absent ↦ absurd (cc (rw absent at h))
      | inr (q, at) ↦
          let h1 = rw at at h in
          elim (Option-cases (find_dataset q.id dataset_key t.datasets)) [
            | inl absent ↦ absurd (cc (rw absent at h1))
            | inr (c, here) ↦
                let pair : (q, c) ≡ (p, d) = some-inj (rw here at h1) in
                let one : q ≡ p = ap (λ z. z.0) pair in
                (
                  at ∙ ap some one,
                  subst (λ (z : ProviderRow). find_dataset z.id dataset_key t.datasets ≡ some c) one
                        here
                      ∙ ap some (ap (λ z. z.1) pair),
                )
          ]
    ]

module _ (t : Tables) (w : IsDatabase t) (key : Bytes) (p : ProviderRow) (d : DatasetRow)
    (here : find_dataset p.id key t.datasets ≡ some d) where
  -- No other dataset of the provider has the key.
  no_dataset :
      find_dataset p.id key (filter_by (λ (x : DatasetRow). not (nat_beq x.id d.id)) t.datasets)
      ≡ none
  unfolding find_dataset
  no_dataset =
      find_by-none (is_dataset p.id key)
        (filter_by (λ (x : DatasetRow). not (nat_beq x.id d.id)) t.datasets)
        (λ x at.
          let (old, other) =
            Has-filter_by (λ (x : DatasetRow). not (nat_beq x.id d.id)) x t.datasets at in
          elim (Bool-cases (is_dataset p.id key x)) [
            | inr differs ↦ differs
            | inl named ↦
                let (h, passed) = find_by-Has (is_dataset p.id key) t.datasets d here in
                let (provider, same) = and_parts _ _ named in
                let (provider', same') = and_parts _ _ passed in
                let one : x.id ≡ d.id =
                  w.dataset_named x d old h
                    (eq_of_== x.provider_id p.id provider
                      ∙ sym (eq_of_== d.provider_id p.id provider'))
                    (eq_of_== x.code.key key same ∙ sym (eq_of_== d.code.key key same')) in
                absurd (cc (other, one, ==_refl d.id))
          ])

deleted-find_identity :
    (t : Tables) (w : IsDatabase t) (provider_key dataset_key : Bytes)
    (found : Option (ProviderRow × DatasetRow))
    → find_identity t provider_key dataset_key ≡ found
    → find_identity (deleted found t) provider_key dataset_key ≡ none
unfolding find_identity drop_dataset drop_dimensions drop_observations
deleted-find_identity t w provider_key dataset_key none h = h
deleted-find_identity t w provider_key dataset_key (some (p, d)) h =
    let (at, here) = find_identity-found t provider_key dataset_key p d h in
    rw (at, no_dataset t w dataset_key p d here) refl

-- After `Delete` has succeeded, the summary and the data of that identity are not found, whether the
-- dataset existed or not: the tables are those of a database, and no statement of the read fails.
pub delete-not_found :
    (e reads : Backend) (provider dataset : Code) (t t' : Tables)
    → IsDatabase t
    → delete e provider dataset t ≡ (ok tt, t')
    → ((s : Statement) → reads.fault s t' ≡ none)
    → (get_summary reads provider dataset t' ≡ err not_found)
      × (get_data reads provider dataset t' ≡ err not_found)
unfolding delete get_summary get_data summary_and_id
delete-not_found e reads provider dataset t t' w h runs =
    let found = find_identity t provider.key dataset.key in
    let left =
      delete_rows-eq-ok e provider dataset t t'
        (end_transaction-eq-ok (delete_rows e provider dataset t) t tt t' h) in
    let absent : find_identity t' provider.key dataset.key ≡ none =
      ap (λ z. find_identity z provider.key dataset.key) (sym left)
      ∙ deleted-find_identity t w provider.key dataset.key found refl in
    (rw (runs select_summary, absent) refl, rw (runs begin, runs select_summary, absent) refl)
