-- ===== src/Postgres/Isolation.antt =====
-- What `Replace` of internal/store/postgres.go leaves of the other datasets.
use nordicintel_storage_api.Prelude.{
  ℕ, ◌+◌, ◌≡◌, ◌≢◌, refl, ap, sym, ◌∙◌, true, nat_eq, bytes_eq, bytes_beq, nat_beq, Bool, Bytes,
  Bool-cases, inl, inr, eq_of_==, Option-cases, none, some, List, [], ◌∷◌, map, Has, find_by,
  find_by-Has, find_by-append, and_parts, ok, arith,
}
use nordicintel_storage_api.Domain.Model.{Code, Replacement, Summary}
use nordicintel_storage_api.Postgres.Tables.{
  ProviderRow, DatasetRow, Tables, is_dataset, find_provider, find_dataset, find_identity,
}
use nordicintel_storage_api.Postgres.Statements.{Backend, Statement, select_summary}
use nordicintel_storage_api.Postgres.Replace.{
  add_provider, add_observations, set_dataset, updated_row, replace_rows, replace,
}
use nordicintel_storage_api.Postgres.Reads.{summary_and_id, get_summary}
use nordicintel_storage_api.Postgres.Integrity.{
  IsDatabase, add_provider-IsDatabase, find_provider-HasProvider,
}
use nordicintel_storage_api.Postgres.Kept.{open_dataset-IsDatabase}
use nordicintel_storage_api.Postgres.Opening.{Opened, open_dataset-Opened}
use nordicintel_storage_api.Postgres.Loading.{Inserted, insert_dimensions-Inserted}
use nordicintel_storage_api.Postgres.Stored.{copy_cells-eq, updated_row-is_dataset}
use nordicintel_storage_api.Postgres.Others.{find_provider-inj}
use nordicintel_storage_api.Postgres.Stages.{Replaced, replace_rows-Replaced, end_transaction-eq-ok}

-- An identity is found as before where the providers are, and its provider's dataset is.
find_identity-eq :
    (t t' : Tables) (provider_key key : Bytes)
    → t'.providers ≡ t.providers
    → ((q : ProviderRow)
        → find_provider provider_key t.providers ≡ some q
        → find_dataset q.id key t'.datasets ≡ find_dataset q.id key t.datasets)
    → find_identity t' provider_key key ≡ find_identity t provider_key key
unfolding find_identity
find_identity-eq t t' provider_key key same h =
    elim (Option-cases (find_provider provider_key t.providers)) [
      | inl absent ↦ rw (same, absent) refl
      | inr (q, at) ↦ rw (same, at, h q at) refl
    ]

-- A new provider has no dataset, so it names no identity.
add_provider-find_identity :
    (e : Backend) (code : Code) (t : Tables) (provider_key key : Bytes)
    → IsDatabase t
    → find_identity (add_provider e code t) provider_key key ≡ find_identity t provider_key key
unfolding add_provider find_identity find_provider find_dataset
add_provider-find_identity e code t provider_key key w =
    elim (Option-cases (find_provider code.key t.providers)) [
      | inr (p, there) ↦ rw there refl
      | inl missing ↦ rw missing (elim (Option-cases (find_by named t.providers)) [
        | inr (q, at) ↦ rw (find_by-append named t.providers (new ∷ []), at) refl
        | inl absent ↦ elim (Bool-cases (named new)) [
          | inr other ↦ rw (find_by-append named t.providers (new ∷ []), absent, other) refl
          | inl given ↦ rw (find_by-append named t.providers (new ∷ []), absent, given, unused) refl
        ]
      ])
    ]
  where
    named : ProviderRow → Bool
    named p = bytes_beq p.code.key provider_key

    new : ProviderRow
    new = record { id = t.next_provider + e.gap t; code = code }

    unused : find_by (is_dataset (t.next_provider + e.gap t) key) t.datasets ≡ none
    unused = elim (Option-cases (find_by (is_dataset new.id key) t.datasets)) [
      | inl absent ↦ absent
      | inr (d, found) ↦
          let (here, passed) = find_by-Has (is_dataset new.id key) t.datasets d found in
          let (q, at, same) = w.dataset_provider d here in
          let owner = eq_of_== d.provider_id new.id (and_parts _ _ passed).0 in
          absurd (omega (arith, w.provider_bound q at))
    ]

-- A change that keeps a test, and leaves the rows that pass it, keeps what is found.
find_by-map_kept {ℓ} :
    {A : Type ℓ} (p : A → Bool) (f : A → A) (xs : List A)
    → ((x : A) → p (f x) ≡ p x)
    → ((x : A) → Has x xs → p x ≡ true → f x ≡ x)
    → find_by p (map f xs) ≡ find_by p xs
find_by-map_kept p f [] same h = refl
find_by-map_kept p f (x ∷ xs) same h = elim (Bool-cases (p x)) [
  | inl passed ↦ rw (same x, passed) (ap some (h x (0, refl) passed))
  | inr failed ↦
      rw (same x, failed)
        (find_by-map_kept p f xs same (λ y (i, at) passed. h y (ℕ.suc i, at) passed))
]

updated_row-other :
    (e : Backend) (r : Replacement) (t : Tables) (id : ℕ) (x : DatasetRow)
    → x.id ≢ id
    → updated_row e r t id x ≡ x
updated_row-other e r t id x differs = elim (Bool-cases (nat_beq x.id id)) [
  | inl same ↦ absurd (differs (eq_of_== x.id id same))
  | inr other ↦ rw other refl
]

module _ (e : Backend) (r : Replacement) (t : Tables) (w : IsDatabase t) (provider_key key : Bytes)
    (differ : r.provider.key ≡ provider_key → r.dataset.key ≢ key) where
  -- The rows that a replacement leaves under another name.
  kept_dataset :
      (p q : ProviderRow) (id : ℕ) (t0 t1 t2 : Tables)
      → IsDatabase t1
      → (q.id ≡ p.id → r.dataset.key ≢ key)
      → Opened p r.dataset.key id t0 t1
      → Inserted id r.dimensions t1 t2
      → find_dataset q.id key (set_dataset e r id (add_observations id r.cells t2)).datasets
        ≡ find_dataset q.id key t0.datasets
  unfolding set_dataset add_observations find_dataset
  kept_dataset p q id t0 t1 t2 w1 other o i =
      let f = updated_row e r (add_observations id r.cells t2) id in
      ap (λ rows. find_by (is_dataset q.id key) (map f rows)) i.datasets
      ∙ find_by-map_kept (is_dataset q.id key) f t1.datasets
          (updated_row-is_dataset e r (add_observations id r.cells t2) id q.id key)
          (λ x hx passed.
            updated_row-other e r (add_observations id r.cells t2) id x
              (λ same. not_this x hx passed same))
      ∙ o.others q.id key other
    where
      not_this : (x : DatasetRow) → Has x t1.datasets → is_dataset q.id key x ≡ true → x.id ≢ id
      not_this x hx passed same =
          let (hd, named) = find_by-Has (is_dataset p.id r.dataset.key) t1.datasets o.d o.found in
          let one = w1.dataset_unique x o.d hx hd (same ∙ sym o.identified) in
          let (owner, named_key) = and_parts _ _ named in
          let (owner', named_key') = and_parts _ _ passed in
          other
            (sym (eq_of_== x.provider_id q.id owner')
              ∙ ap (λ (z : DatasetRow). z.provider_id) one
              ∙ eq_of_== o.d.provider_id p.id owner)
            (sym (eq_of_== o.d.code.key r.dataset.key named_key)
              ∙ ap (λ (z : DatasetRow). z.code.key) (sym one)
              ∙ eq_of_== x.code.key key named_key')

  Replaced-find_identity :
      (result : Bytes) (s : Summary) (t' : Tables)
      → Replaced e r t result s t'
      → find_identity t' provider_key key ≡ find_identity t provider_key key
  Replaced-find_identity result s t' z =
      let t0 = add_provider e r.provider t in
      let w0 = add_provider-IsDatabase e r.provider t w in
      let owner = find_provider-HasProvider r.provider.key t0 z.p z.found in
      let (w1, used) =
        open_dataset-IsDatabase e z.p r t0 result z.id z.opened w0 owner z.opened_by in
      let o = open_dataset-Opened e z.p r t0 w0 result z.id z.opened z.opened_by in
      let i =
        insert_dimensions-Inserted e z.id r.dimensions z.opened z.structured z.structured_by in
      let last = set_dataset e r z.id (add_observations z.id r.cells z.structured) in
      let left : last ≡ t' =
        ap (set_dataset e r z.id) (copy_cells-eq e r z.id z.structured z.copied z.copied_by)
        ∙ z.updated in
      let same_providers : last.providers ≡ t0.providers =
        unfold set_dataset add_observations in i.providers ∙ o.providers in
      ap (λ x. find_identity x provider_key key) (sym left)
      ∙ find_identity-eq t0 last provider_key key same_providers (λ q at.
        kept_dataset z.p q z.id t0 z.opened z.structured w1
          (λ one. differ (find_provider-inj t0 r.provider.key provider_key z.p q w0 z.found at one))
          o i)
      ∙ add_provider-find_identity e r.provider t provider_key key w

-- `Replace` of one dataset leaves the summary of every other, where the two differ in the key of the
-- provider or in that of the dataset: the tables are those of a database, `Replace` reports a summary,
-- and no statement of the reads fails.
pub replace-get_summary_other :
    (e reads : Backend) (r : Replacement) (provider dataset : Code) (t t' : Tables) (result : Bytes)
    (s : Summary)
    → IsDatabase t
    → replace e r t ≡ (ok (result, s), t')
    → (r.provider.key ≡ provider.key → r.dataset.key ≢ dataset.key)
    → ((x : Statement) (y : Tables) → reads.fault x y ≡ none)
    → get_summary reads provider dataset t' ≡ get_summary reads provider dataset t
unfolding replace get_summary summary_and_id
replace-get_summary_other e reads r provider dataset t t' result s w h differ runs =
    let z =
      replace_rows-Replaced e r t result s t'
        (end_transaction-eq-ok (replace_rows e r t) t (result, s) t' h) in
    let same = Replaced-find_identity e r t w provider.key dataset.key differ result s t' z in
    rw (runs select_summary t', runs select_summary t, same) refl
