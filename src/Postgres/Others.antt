-- ===== src/Postgres/Others.antt =====
-- What `Delete` of internal/store/postgres.go leaves of the other datasets.
use nordicintel_storage_api.Prelude.{
  ℕ, ◌≡◌, ◌≢◌, refl, ap, sym, ◌∙◌, true, not, nat_eq, bytes_eq, bytes_beq, nat_beq, Bool, Bytes,
  Bool-cases, inl, inr, eq_of_==, Option, Option-cases, none, some, List, [], ◌∷◌, Has, filter_by,
  find_by, find_by-Has, and_parts, ok,
}
use nordicintel_storage_api.Domain.Model.{Code}
use nordicintel_storage_api.Postgres.Tables.{
  ProviderRow, DatasetRow, Tables, is_dataset, find_provider, find_dataset, find_identity,
}
use nordicintel_storage_api.Postgres.Statements.{Backend, Statement, select_summary}
use nordicintel_storage_api.Postgres.Replace.{drop_observations, drop_dimensions}
use nordicintel_storage_api.Postgres.Delete.{drop_dataset, delete_rows, delete}
use nordicintel_storage_api.Postgres.Reads.{summary_and_id, get_summary}
use nordicintel_storage_api.Postgres.Integrity.{IsDatabase}
use nordicintel_storage_api.Postgres.Deletion.{deleted, delete_rows-eq-ok}
use nordicintel_storage_api.Postgres.Gone.{find_identity-found}
use nordicintel_storage_api.Postgres.Stages.{end_transaction-eq-ok}

find_by-filter_by {ℓ} :
    {A : Type ℓ} (p keep : A → Bool) (xs : List A)
    → ((x : A) → Has x xs → p x ≡ true → keep x ≡ true)
    → find_by p (filter_by keep xs) ≡ find_by p xs
find_by-filter_by p keep [] h = refl
find_by-filter_by p keep (x ∷ xs) h =
    let rest = find_by-filter_by p keep xs (λ y (i, at) passed. h y (ℕ.suc i, at) passed) in
    elim (Bool-cases (keep x)) [
      | inl kept ↦ elim (Bool-cases (p x)) [
        | inl wanted ↦ rw (kept, wanted) refl
        | inr other ↦ rw (kept, other) rest
      ]
      | inr dropped ↦ elim (Bool-cases (p x)) [
        | inl wanted ↦ absurd (cc (h x (0, refl) wanted, dropped))
        | inr other ↦ rw (dropped, other) rest
      ]
    ]

-- Providers with one id were found by one key.
pub find_provider-inj :
    (t : Tables) (key key' : Bytes) (p q : ProviderRow)
    → IsDatabase t
    → find_provider key t.providers ≡ some p
    → find_provider key' t.providers ≡ some q
    → q.id ≡ p.id
    → key ≡ key'
unfolding find_provider
find_provider-inj t key key' p q w at at' same =
    let (hp, named) =
      find_by-Has (λ (x : ProviderRow). bytes_beq x.code.key key) t.providers p at in
    let (hq, named') =
      find_by-Has (λ (x : ProviderRow). bytes_beq x.code.key key') t.providers q at' in
    sym (eq_of_== p.code.key key named)
    ∙ ap (λ (x : ProviderRow). x.code.key) (sym (w.provider_unique q p hq hp same))
    ∙ eq_of_== q.code.key key' named'

module _ (t : Tables) (w : IsDatabase t) (key key' : Bytes) (p q : ProviderRow) (d : DatasetRow)
    (here : find_dataset p.id key t.datasets ≡ some d) (differ : q.id ≡ p.id → key ≢ key') where
  -- A dataset with another name is not the one that is deleted.
  other_dataset :
      find_dataset q.id key' (filter_by (λ (x : DatasetRow). not (nat_beq x.id d.id)) t.datasets)
      ≡ find_dataset q.id key' t.datasets
  unfolding find_dataset
  other_dataset =
      find_by-filter_by (is_dataset q.id key') (λ (x : DatasetRow). not (nat_beq x.id d.id))
        t.datasets
        (λ x hx passed'. elim (Bool-cases (nat_beq x.id d.id)) [
          | inr other ↦ rw other refl
          | inl same ↦
              let (hd, passed) = find_by-Has (is_dataset p.id key) t.datasets d here in
              let (owner, named) = and_parts _ _ passed in
              let (owner', named') = and_parts _ _ passed' in
              let one = w.dataset_unique x d hx hd (eq_of_== x.id d.id same) in
              absurd (
                differ
                  (sym (eq_of_== x.provider_id q.id owner')
                    ∙ ap (λ (z : DatasetRow). z.provider_id) one
                    ∙ eq_of_== d.provider_id p.id owner)
                  (sym (eq_of_== d.code.key key named)
                    ∙ ap (λ (z : DatasetRow). z.code.key) (sym one)
                    ∙ eq_of_== x.code.key key' named'))
        ])

deleted-find_identity_other :
    (t : Tables) (w : IsDatabase t) (provider_key key provider_key' key' : Bytes)
    (found : Option (ProviderRow × DatasetRow))
    → (provider_key ≡ provider_key' → key ≢ key')
    → find_identity t provider_key key ≡ found
    → find_identity (deleted found t) provider_key' key' ≡ find_identity t provider_key' key'
deleted-find_identity_other t w provider_key key provider_key' key' none differ h = refl
deleted-find_identity_other t w provider_key key provider_key' key' (some (p, d)) differ h =
    let (at, here) = find_identity-found t provider_key key p d h in
    elim (Option-cases (find_provider provider_key' t.providers)) [
      | inl absent ↦
          unfold find_identity drop_dataset drop_dimensions drop_observations in rw absent refl
      | inr (q, at') ↦
          let kept =
            other_dataset t w key key' p q d here
              (λ one. differ (find_provider-inj t provider_key provider_key' p q w at at' one)) in
          unfold find_identity drop_dataset drop_dimensions drop_observations in rw (at', kept) refl
    ]

-- `Delete` of one dataset leaves the summary of every other, where the two differ in the key of the
-- provider or in that of the dataset: the tables are those of a database, and no statement of the
-- reads fails.
pub delete-get_summary_other :
    (e reads : Backend) (provider dataset provider' dataset' : Code) (t t' : Tables)
    → IsDatabase t
    → delete e provider dataset t ≡ (ok tt, t')
    → (provider.key ≡ provider'.key → dataset.key ≢ dataset'.key)
    → ((s : Statement) (x : Tables) → reads.fault s x ≡ none)
    → get_summary reads provider' dataset' t' ≡ get_summary reads provider' dataset' t
unfolding delete get_summary summary_and_id
delete-get_summary_other e reads provider dataset provider' dataset' t t' w h differ runs =
    let left =
      delete_rows-eq-ok e provider dataset t t'
        (end_transaction-eq-ok (delete_rows e provider dataset t) t tt t' h) in
    let same : find_identity t' provider'.key dataset'.key
        ≡ find_identity t provider'.key dataset'.key =
      ap (λ z. find_identity z provider'.key dataset'.key) (sym left)
      ∙ deleted-find_identity_other t w provider.key dataset.key provider'.key dataset'.key
          (find_identity t provider.key dataset.key) differ refl in
    rw (runs select_summary t', runs select_summary t, same) refl
