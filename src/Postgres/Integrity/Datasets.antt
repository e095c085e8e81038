-- ===== src/Postgres/Integrity/Datasets.antt =====
-- The insert and the update of a dataset's row in internal/store/postgres.go keep the references.
use nordicintel_storage_api.Prelude.{
  find_by-of_Has, ◌∷◌, [], ◌++◌, ◌∙◌, ap, sym, ◌⊎◌, ◌≢◌, bytes_eq, ==_refl, ℕ, ◌<◌, ◌≡◌, ◌≢◌, refl,
  sym, subst, nat_eq, nat_beq, Bool-cases, inl, inr, none, List, map, Has, Has-append, Has-one,
  Refers-append_left, Refers-map, Unique-append_one, Unique-map, number_bound, Has-of_map, arith,
}
use nordicintel_storage_api.Domain.Model.{Replacement}
use nordicintel_storage_api.Postgres.Tables.{DatasetRow, Tables, find_dataset, is_dataset}
use nordicintel_storage_api.Postgres.Statements.{Backend}
use nordicintel_storage_api.Postgres.Replace.{new_dataset, add_dataset, set_dataset, updated_row}
use nordicintel_storage_api.Postgres.Integrity.{IsNamed, IsDatabase, HasProvider}

add_dataset-IsNamed :
    (e : Backend) (provider_id : ℕ) (r : Replacement) (t : Tables)
    → IsNamed t.datasets
    → find_dataset provider_id r.dataset.key t.datasets ≡ none
    → IsNamed (t.datasets ++ (new_dataset e provider_id r t ∷ []))
unfolding find_dataset
add_dataset-IsNamed e provider_id r t w absent c d hc hd same_provider same_key =
    named (Has-append c t.datasets (new ∷ []) hc) (Has-append d t.datasets (new ∷ []) hd)
  where
    new : DatasetRow
    new = new_dataset e provider_id r t

    taken :
        (x : DatasetRow)
        → Has x t.datasets
        → x.provider_id ≡ provider_id
        → x.code.key ≢ r.dataset.key
    taken x at same_id same_key =
        let (y, found) =
          find_by-of_Has (is_dataset provider_id r.dataset.key) t.datasets x at
            (rw (same_id, same_key, ==_refl provider_id, ==_refl r.dataset.key) refl) in
        absurd (cc (found, absent))

    named : Has c t.datasets ⊎ Has c (new ∷ []) → Has d t.datasets ⊎ Has d (new ∷ []) → c.id ≡ d.id
    named (inl old) (inl old') = w c d old old' same_provider same_key
    named (inl old) (inr is_new) =
        let one : new ≡ d = Has-one d new is_new in
        absurd (
          taken c old (same_provider ∙ sym (ap (λ (z : DatasetRow). z.provider_id) one))
            (same_key ∙ sym (ap (λ (z : DatasetRow). z.code.key) one)))
    named (inr is_new) (inl old) =
        let one : new ≡ c = Has-one c new is_new in
        absurd (
          taken d old (sym same_provider ∙ sym (ap (λ (z : DatasetRow). z.provider_id) one))
            (sym same_key ∙ sym (ap (λ (z : DatasetRow). z.code.key) one)))
    named (inr is_new) (inr is_new') =
        ap (λ (z : DatasetRow). z.id) (sym (Has-one c new is_new) ∙ Has-one d new is_new')

pub add_dataset-IsDatabase :
    (e : Backend) (provider_id : ℕ) (r : Replacement) (t : Tables)
    → IsDatabase t
    → HasProvider provider_id t
    → find_dataset provider_id r.dataset.key t.datasets ≡ none
    → IsDatabase (add_dataset e provider_id r t)
unfolding add_dataset
add_dataset-IsDatabase e provider_id r t w used absent = record {
  provider_bound = w.provider_bound;
  provider_unique = w.provider_unique;
  dataset_provider = λ d at. elim (Has-append d t.datasets _ at) [
    | inl old ↦ w.dataset_provider d old
    | inr new ↦ subst (λ (z : DatasetRow). HasProvider z.provider_id t) (Has-one d _ new) used
  ];
  dataset_bound =
      number_bound (λ (d : DatasetRow). d.id) t.datasets _ t.next_dataset w.dataset_bound
        (omega arith);
  dataset_unique =
      Unique-append_one (λ (d : DatasetRow). d.id) t.datasets _ t.next_dataset w.dataset_bound
        (omega arith) w.dataset_unique;
  dataset_named = add_dataset-IsNamed e provider_id r t w.dataset_named absent;
  dimension_bound = w.dimension_bound;
  dimension_dataset = λ d at.
      Refers-append_left (λ (d : DatasetRow). d.id) d.dataset_id t.datasets _
        (w.dimension_dataset d at);
  category_dimension = w.category_dimension;
  observation_dataset = λ o at.
      Refers-append_left (λ (d : DatasetRow). d.id) o.dataset_id t.datasets _
        (w.observation_dataset o at);
}

pub updated_row-id :
    (e : Backend) (r : Replacement) (t : Tables) (id : ℕ) (d : DatasetRow)
    → (updated_row e r t id d).id ≡ d.id
updated_row-id e r t id d = elim (Bool-cases (nat_beq d.id id)) [
  | inl mine ↦ rw mine refl
  | inr other ↦ rw other refl
]

-- The update leaves what names a dataset.
updated_row-names :
    (e : Backend) (r : Replacement) (t : Tables) (id : ℕ) (d : DatasetRow)
    → ((updated_row e r t id d).provider_id ≡ d.provider_id)
      × ((updated_row e r t id d).code.key ≡ d.code.key)
updated_row-names e r t id d = elim (Bool-cases (nat_beq d.id id)) [
  | inl mine ↦ rw mine (refl, refl)
  | inr other ↦ rw other (refl, refl)
]

updated_row-IsNamed :
    (e : Backend) (r : Replacement) (t : Tables) (id : ℕ) (rows : List DatasetRow)
    → IsNamed rows
    → IsNamed (map (updated_row e r t id) rows)
updated_row-IsNamed e r t id rows w c d hc hd same_provider same_key =
    let (x, hx, from) = Has-of_map (updated_row e r t id) c rows hc in
    let (y, hy, from') = Has-of_map (updated_row e r t id) d rows hd in
    let (provider, key) = updated_row-names e r t id x in
    let (provider', key') = updated_row-names e r t id y in
    ap (λ (z : DatasetRow). z.id) (sym from)
    ∙ updated_row-id e r t id x
    ∙ w x y hx hy
        (sym provider
          ∙ ap (λ (z : DatasetRow). z.provider_id) from
          ∙ same_provider
          ∙ sym (ap (λ (z : DatasetRow). z.provider_id) from')
          ∙ provider')
        (sym key
          ∙ ap (λ (z : DatasetRow). z.code.key) from
          ∙ same_key
          ∙ sym (ap (λ (z : DatasetRow). z.code.key) from')
          ∙ key')
    ∙ sym (updated_row-id e r t id y)
    ∙ ap (λ (z : DatasetRow). z.id) from'

pub set_dataset-IsDatabase :
    (e : Backend) (r : Replacement) (id : ℕ) (t : Tables)
    → IsDatabase t
    → IsDatabase (set_dataset e r id t)
unfolding set_dataset
set_dataset-IsDatabase e r id t w = record {
  provider_bound = w.provider_bound;
  provider_unique = w.provider_unique;
  dataset_provider = λ x at.
      let (d, here, same) = Has-of_map (updated_row e r t id) x t.datasets at in
      subst (λ (z : DatasetRow). HasProvider z.provider_id t) same
        (subst (λ n. HasProvider n t) (sym (updated_row-names e r t id d).0)
          (w.dataset_provider d here));
  dataset_bound = λ x at.
      let (d, here, same) = Has-of_map (updated_row e r t id) x t.datasets at in
      subst (λ (z : DatasetRow). z.id < t.next_dataset) same
        (subst (λ n. n < t.next_dataset) (sym (updated_row-id e r t id d))
          (w.dataset_bound d here));
  dataset_unique =
      Unique-map (λ (d : DatasetRow). d.id) (updated_row e r t id) t.datasets
        (updated_row-id e r t id) w.dataset_unique;
  dataset_named = updated_row-IsNamed e r t id t.datasets w.dataset_named;
  dimension_bound = w.dimension_bound;
  dimension_dataset = λ x at.
      Refers-map (λ (d : DatasetRow). d.id) (updated_row e r t id) x.dataset_id t.datasets
        (updated_row-id e r t id) (w.dimension_dataset x at);
  category_dimension = w.category_dimension;
  observation_dataset = λ x at.
      Refers-map (λ (d : DatasetRow). d.id) (updated_row e r t id) x.dataset_id t.datasets
        (updated_row-id e r t id) (w.observation_dataset x at);
}
