-- ===== src/Domain/Remap/Stored.antt =====
-- The stored structure of an accepted request.
use mathlib.Core.Path.{ap₂}
use native.Mathlib.Nat.{mul_assoc, mul_comm}
use nordicintel_storage_api.Prelude.{
  ℕ, suc, ◌+◌, ◌*◌, ◌<◌, ◌≡◌, refl, sym, ap, ◌∙◌, ℤ, pos, Bytes, bytes_lt, bytes_lt_asym, List, [],
  ◌∷◌, map, length, length-sort, All, All-map, All-of_map, All-sort, Distinct, Distinct-sort,
  IsSorted, sort-IsSorted, sort, insert_sorted, sum_of, contains, contains-sort, bytes_eq,
  Bool-cases, inl, inr,
}
use nordicintel_storage_api.Domain.Model.{Code, Dimension}
use nordicintel_storage_api.Domain.Index.Spec.{product}
use nordicintel_storage_api.Domain.Index.Agreement.{IsCube}
use nordicintel_storage_api.Domain.Axes.{
  cube_sizes, category_keys, CategoriesFrom, DimensionsFrom, IsNumbered, IsStored,
}
use nordicintel_storage_api.Domain.Structure.{RequestDimension}
use nordicintel_storage_api.Domain.Structure.Laws.{sizes, dimension_keys}
use nordicintel_storage_api.Domain.Remap.{
  code_less, dimension_less, number_categories, store_dimension, number_dimensions,
  stored_dimensions,
}

abbrev pub code_keys : List Code → List Bytes
code_keys cs = map (λ (c : Code). c.key) cs

-- What `parseRequestDimensions` promises, as far as remapping needs it.
pub record IsRequest (ds : List RequestDimension) : Type 0 where
  pub distinct : Distinct (dimension_keys ds)
  pub categories : All (λ (d : RequestDimension). Distinct (code_keys d.categories)) ds
  pub cube : IsCube (sizes ds)

number_categories-CategoriesFrom :
    (j : ℕ) (cs : List Code) → CategoriesFrom j (number_categories j cs)
unfolding number_categories
number_categories-CategoriesFrom j [] = tt
number_categories-CategoriesFrom j (c ∷ cs) = (refl, number_categories-CategoriesFrom (suc j) cs)

pub category_keys-number_categories :
    (j : ℕ) (cs : List Code) → category_keys (number_categories j cs) ≡ code_keys cs
unfolding number_categories
category_keys-number_categories j [] = refl
category_keys-number_categories j (c ∷ cs) =
    ap (◌∷◌ c.key) (category_keys-number_categories (suc j) cs)

pub length-number_categories :
    (j : ℕ) (cs : List Code) → length (number_categories j cs) ≡ length cs
unfolding number_categories
length-number_categories j [] = refl
length-number_categories j (c ∷ cs) = ap suc (length-number_categories (suc j) cs)

store_dimension-IsNumbered :
    (d : RequestDimension) → Distinct (code_keys d.categories) → IsNumbered (store_dimension d)
unfolding store_dimension
store_dimension-IsNumbered d h = record {
  numbered = number_categories-CategoriesFrom 0 (sort code_less d.categories);
  distinct =
      rw category_keys-number_categories
        (Distinct-sort code_less (λ (c : Code). c.key) d.categories h);
}

pub length-store_dimension :
    (d : RequestDimension) → length (store_dimension d).categories ≡ length d.categories
unfolding store_dimension
length-store_dimension d =
    length-number_categories 0 (sort code_less d.categories) ∙ length-sort code_less d.categories

number_dimensions-DimensionsFrom :
    (i : ℕ) (ds : List Dimension) → DimensionsFrom i (number_dimensions i ds)
unfolding number_dimensions
number_dimensions-DimensionsFrom i [] = tt
number_dimensions-DimensionsFrom i (d ∷ ds) = (refl, number_dimensions-DimensionsFrom (suc i) ds)

-- Numbering changes nothing that does not look at the positions.
pub All-number_dimensions :
    (P : Dimension → Type 0)
    → ((d : Dimension) (p : ℤ) → P d → P (record d { position = p }))
    → (i : ℕ) (ds : List Dimension) → All P ds
    → All P (number_dimensions i ds)
unfolding number_dimensions
All-number_dimensions P keep i [] h = tt
All-number_dimensions P keep i (d ∷ ds) (p, h) =
    (keep d (pos i) p, All-number_dimensions P keep (suc i) ds h)

pub map-number_dimensions {ℓ} :
    {A : Type ℓ} (f : Dimension → A)
    → ((d : Dimension) (p : ℤ) → f (record d { position = p }) ≡ f d)
    → (i : ℕ) (ds : List Dimension) → map f (number_dimensions i ds) ≡ map f ds
unfolding number_dimensions
map-number_dimensions f keep i [] = refl
map-number_dimensions f keep i (d ∷ ds) =
    ap₂ ◌∷◌ (keep d (pos i)) (map-number_dimensions f keep (suc i) ds)

pub map-map {ℓ κ μ} :
    {A : Type ℓ} {B : Type κ} {C : Type μ} (g : B → C) (f : A → B) (xs : List A)
    → map g (map f xs) ≡ map (λ x. g (f x)) xs
map-map g f [] = refl
map-map g f (x ∷ xs) = ap (◌∷◌ (g (f x))) (map-map g f xs)

abbrev dimension_size : Dimension → ℕ
dimension_size d = length d.categories

-- the number of cells does not depend on the order of the dimensions
product-insert_sorted :
    (d : Dimension) (ds : List Dimension)
    → product (cube_sizes (insert_sorted dimension_less d ds))
      ≡ dimension_size d * product (cube_sizes ds)
unfolding insert_sorted product
product-insert_sorted d [] = refl
product-insert_sorted d (d' ∷ ds) = elim (Bool-cases (dimension_less d' d)) [
  | inl after ↦
      rw (after, product-insert_sorted d ds)
        (swap_product (dimension_size d') (dimension_size d) (product (cube_sizes ds)))
  | inr before ↦ rw before
]
  where
    swap_product : (a b p : ℕ) → a * (b * p) ≡ b * (a * p)
    swap_product a b p = sym (mul_assoc a b p) ∙ ap (λ k. k * p) (mul_comm a b) ∙ mul_assoc b a p

product-sort :
    (ds : List Dimension) → product (cube_sizes (sort dimension_less ds)) ≡ product (cube_sizes ds)
unfolding sort product
product-sort [] = refl
product-sort (d ∷ ds) =
    product-insert_sorted d (sort dimension_less ds)
    ∙ ap (λ p. dimension_size d * p) (product-sort ds)

sizes-store_dimension :
    (ds : List RequestDimension) → cube_sizes (map store_dimension ds) ≡ sizes ds
sizes-store_dimension [] = refl
sizes-store_dimension (d ∷ ds) = ap₂ ◌∷◌ (length-store_dimension d) (sizes-store_dimension ds)

pub keys-store_dimension :
    (ds : List RequestDimension)
    → map (λ (d : Dimension). d.code.key) (map store_dimension ds) ≡ dimension_keys ds
unfolding store_dimension
keys-store_dimension [] = refl
keys-store_dimension (d ∷ ds) = ap (◌∷◌ d.code.key) (keys-store_dimension ds)

pub All-store_dimension :
    (ds : List RequestDimension)
    → All (λ (d : RequestDimension). Distinct (code_keys d.categories)) ds
    → All IsNumbered (map store_dimension ds)
All-store_dimension [] h = tt
All-store_dimension (d ∷ ds) (p, h) = (store_dimension-IsNumbered d p, All-store_dimension ds h)

pub cube_sizes-stored :
    (ds : List RequestDimension)
    → cube_sizes (stored_dimensions ds) ≡ cube_sizes (sort dimension_less (map store_dimension ds))
unfolding stored_dimensions
cube_sizes-stored ds = map-number_dimensions dimension_size (λ d p. refl) 0 _

-- The cube has as many cells in stored order as in request order.
pub product-stored :
    (ds : List RequestDimension) → product (cube_sizes (stored_dimensions ds)) ≡ product (sizes ds)
product-stored ds =
    ap product (cube_sizes-stored ds)
    ∙ product-sort (map store_dimension ds)
    ∙ ap product (sizes-store_dimension ds)

pub keys-stored :
    (ds : List RequestDimension)
    → map (λ (d : Dimension). d.code.key) (stored_dimensions ds)
      ≡ map (λ (d : Dimension). d.code.key) (sort dimension_less (map store_dimension ds))
unfolding stored_dimensions
keys-stored ds = map-number_dimensions (λ (d : Dimension). d.code.key) (λ d p. refl) 0 _

-- Storing gives a stored structure: numbered by position, with distinct keys, and the same number
-- of cells.
pub stored_dimensions-IsStored :
    (ds : List RequestDimension) → IsRequest ds → IsStored (stored_dimensions ds)
stored_dimensions-IsStored ds r = record {
  numbered = unfold stored_dimensions in number_dimensions-DimensionsFrom 0 _;
  categories =
      unfold stored_dimensions in
      All-number_dimensions IsNumbered
        (λ d p h. record { numbered = h.numbered; distinct = h.distinct }) 0 _
        (All-sort dimension_less IsNumbered _ (All-store_dimension ds r.categories));
  distinct =
      rw (map-map, keys-stored)
        (Distinct-sort dimension_less (λ (d : Dimension). d.code.key) _
          (rw keys-store_dimension r.distinct));
  cube = record {
    all_pos = rw cube_sizes-stored (
        All-map (λ n. 0 < n) dimension_size _
          (All-sort dimension_less _ _
            (All-of_map (λ n. 0 < n) dimension_size _ (rw sizes-store_dimension r.cube.all_pos))));
    fits = rw product-stored r.cube.fits;
  };
}

-- Stored dimensions stand in the order of their keys.
pub stored_dimensions-IsSorted :
    (ds : List RequestDimension)
    → IsSorted bytes_lt (map (λ (d : Dimension). d.code.key) (stored_dimensions ds))
stored_dimensions-IsSorted ds = rw keys-stored (
    keys_sorted _ (
      sort-IsSorted dimension_less (λ a b. bytes_lt_asym a.code.key b.code.key)
        (map store_dimension ds)))
  where
    keys_sorted :
        (ds : List Dimension)
        → IsSorted dimension_less ds
        → IsSorted bytes_lt (map (λ (d : Dimension). d.code.key) ds)
    keys_sorted [] h = tt
    keys_sorted (d ∷ []) h = tt
    keys_sorted (d ∷ d' ∷ ds) (h, hs) = (h, keys_sorted (d' ∷ ds) hs)

pub sum_of-number_dimensions :
    (f : Dimension → ℕ)
    → ((d : Dimension) (p : ℤ) → f (record d { position = p }) ≡ f d)
    → (i : ℕ) (ds : List Dimension) → sum_of f (number_dimensions i ds) ≡ sum_of f ds
unfolding number_dimensions
sum_of-number_dimensions f keep i [] = refl
sum_of-number_dimensions f keep i (d ∷ ds) =
    ap₂ ◌+◌ (keep d (pos i)) (sum_of-number_dimensions f keep (suc i) ds)

-- A key is that of a stored dimension exactly when it is that of a request dimension.
pub contains-stored :
    (k : Bytes) (ds : List RequestDimension)
    → contains k (map (λ (d : Dimension). d.code.key) (stored_dimensions ds))
      ≡ contains k (dimension_keys ds)
contains-stored k ds =
    ap (contains k) (keys-stored ds)
    ∙ contains-sort dimension_less (λ (d : Dimension). d.code.key) k (map store_dimension ds)
    ∙ ap (contains k) (keys-store_dimension ds)
