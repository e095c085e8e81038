-- ===== src/Postgres/Loading.antt =====
-- The rows that the loop over the dimensions of a replacement inserts.
pub mod Order
pub mod Scan
pub mod Loops
use nordicintel_storage_api.Prelude.{
  ℕ, zero, suc, ◌+◌, ◌<◌, ◌≤◌, ℤ, pos, ◌≡◌, refl, ap, sym, subst, ◌∙◌, Bool, true, false, ltb,
  ltb→ge, length, if◌then◌else◌, inl, inr, List, [], ◌∷◌, ◌++◌, map, Bool-cases, Result, ok,
  >>=-eq-ok, ok-inj, append_cons, arith,
}
use nordicintel_storage_api.Domain.Model.{Category, Dimension}
use nordicintel_storage_api.Postgres.Tables.{DimensionRow, CategoryRow, Tables}
use nordicintel_storage_api.Postgres.Statements.{
  Backend, attempt, outcome->>=, outcome_if, insert_dimension, copy_categories,
}
use nordicintel_storage_api.Postgres.Replace.{
  category_row, add_dimension, add_categories, insert_dimensions,
}

-- The row of a dimension under an id.
abbrev pub dimension_row : ℕ → ℕ → Dimension → DimensionRow
dimension_row dataset_id k d = record {
  id = k;
  dataset_id = dataset_id;
  code = d.code;
  position = d.position;
}

abbrev pub new_rows : ℕ → List ℕ → List Dimension → List DimensionRow
new_rows id (k ∷ ks) (d ∷ ds) = dimension_row id k d ∷ new_rows id ks ds
new_rows id _ _ = []

abbrev pub new_categories : List ℕ → List Dimension → List CategoryRow
new_categories (k ∷ ks) (d ∷ ds) = map (category_row k) d.categories ++ new_categories ks ds
new_categories _ _ = []

-- Ids that increase, from `n` on.
abbrev pub Increasing : ℕ → List ℕ → Type 0
Increasing n [] = Unit
Increasing n (k ∷ ks) = (n ≤ k) × Increasing (suc k) ks

pub record Inserted (id : ℕ) (ds : List Dimension) (t t' : Tables) : Type 0 where
  pub ids : List ℕ
  pub as_many : length ids ≡ length ds
  pub increasing : Increasing t.next_dimension ids
  pub dimensions : t'.dimensions ≡ t.dimensions ++ new_rows id ids ds
  pub categories : t'.categories ≡ t.categories ++ new_categories ids ds
  pub providers : t'.providers ≡ t.providers
  pub datasets : t'.datasets ≡ t.datasets
  pub observations : t'.observations ≡ t.observations

pub append_nil : {A : Type 0} (xs : List A) → xs ++ [] ≡ xs
append_nil [] = refl
append_nil (x ∷ xs) = ap (◌∷◌ x) (append_nil xs)

append_assoc : {A : Type 0} (xs ys zs : List A) → (xs ++ ys) ++ zs ≡ xs ++ (ys ++ zs)
append_assoc [] ys zs = refl
append_assoc (x ∷ xs) ys zs = ap (◌∷◌ x) (append_assoc xs ys zs)

-- The categories are copied, or there are none.
add_no_categories :
    (k : ℕ) (d : Dimension) (t : Tables)
    → ltb 0 (length d.categories) ≡ false
    → add_categories k d.categories t ≡ t
unfolding add_categories
add_no_categories k d t h = none_added d.categories h
  where
    none_added :
        (cs : List Category)
        → ltb 0 (length cs) ≡ false
        → record t { categories = t.categories ++ map (category_row k) cs } ≡ t
    none_added [] h = ap (λ rows. record t { categories = rows }) (append_nil t.categories)
    none_added (c ∷ cs) h = absurd (omega (arith, ltb→ge 0 (suc (length cs)) h))

copy_step-eq :
    (e : Backend) (k : ℕ) (d : Dimension) (t t' : Tables)
    → (if ltb 0 (length d.categories)
        then attempt e (copy_categories d.position) t (add_categories k d.categories t)
        else ok t)
      ≡ ok t'
    → add_categories k d.categories t ≡ t'
copy_step-eq e k d t t' h =
    outcome_if (λ z. add_categories k d.categories t ≡ z) (ltb 0 (length d.categories))
      (e.fault (copy_categories d.position) t) (add_categories k d.categories t) t refl
      (add_no_categories k d t) h

Inserted-cons :
    (e : Backend) (id : ℕ) (d : Dimension) (ds : List Dimension) (t t' : Tables)
    → Inserted id ds
        (add_categories (t.next_dimension + e.gap t) d.categories (add_dimension e id d t))
        t'
    → Inserted id (d ∷ ds) t t'
unfolding add_categories add_dimension
Inserted-cons e id d ds t t' z = record {
  ids = (t.next_dimension + e.gap t) ∷ z.ids;
  as_many = ap suc z.as_many;
  increasing = (omega arith, z.increasing);
  dimensions = z.dimensions ∙ append_cons t.dimensions _ _;
  categories = z.categories ∙ append_assoc t.categories _ _;
  providers = z.providers;
  datasets = z.datasets;
  observations = z.observations;
}

pub insert_dimensions-Inserted :
    (e : Backend) (id : ℕ) (ds : List Dimension) (t t' : Tables)
    → insert_dimensions e id ds t ≡ ok t'
    → Inserted id ds t t'
unfolding insert_dimensions
insert_dimensions-Inserted e id [] t t' h = subst (Inserted id [] t) (ok-inj h) (record {
  ids = [];
  as_many = refl;
  increasing = tt;
  dimensions = sym (append_nil t.dimensions);
  categories = sym (append_nil t.categories);
  providers = refl;
  datasets = refl;
  observations = refl;
})
insert_dimensions-Inserted e id (d ∷ ds) t t' h =
    let k = t.next_dimension + e.gap t in
    let t1 = add_dimension e id d t in
    let h1 = outcome->>= (e.fault (insert_dimension d.position) t) t1 _ h in
    let copy =
      if ltb 0 (length d.categories)
      then attempt e (copy_categories d.position) t1 (add_categories k d.categories t1)
      else ok t1 in
    let (t2, copied, h2) = >>=-eq-ok copy (insert_dimensions e id ds) h1 in
    let rest = insert_dimensions-Inserted e id ds t2 t' h2 in
    Inserted-cons e id d ds t t'
      (subst (λ z. Inserted id ds z t') (sym (copy_step-eq e k d t1 t2 copied)) rest)
