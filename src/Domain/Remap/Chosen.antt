-- ===== src/Domain/Remap/Chosen.antt =====
-- The category that an address chooses in each stored dimension.
use mathlib.Core.Path.{ap₂}
use nordicintel_storage_api.Prelude.{
  ℕ, zero, suc, ◌+◌, ◌/◌, ◌%◌, ◌<◌, ◌≤◌, ◌≡◌, refl, sym, ap, ◌∙◌, ℤ, pos, Bytes, bytes_eq, Option,
  some, List, [], ◌∷◌, map, length, length-map, get_elem?, get_or, All, some-inj, arith, sum_of,
  sort, Has, Has-map, Has-sort, wrap64-pos, max_int64, ok,
}
use nordicintel_storage_api.Domain.Model.{Code, Category, Dimension}
use nordicintel_storage_api.Domain.Index.Spec.{product, weights, unrank, AllPos, product-pos}
use nordicintel_storage_api.Domain.Axes.{Axis, Along, axis_sizes, cube_sizes, IsNumbered}
use nordicintel_storage_api.Domain.Structure.{RequestDimension, zero_code}
use nordicintel_storage_api.Domain.Structure.Laws.{sizes}
use nordicintel_storage_api.Domain.Remap.{
  code_less, dimension_less, number_categories, store_dimension, stored_dimensions,
  number_dimensions, Targets, contribution, remap_cell_index_from, stored_sizes,
}
use nordicintel_storage_api.Domain.Remap.Stored.{code_keys}
use nordicintel_storage_api.Domain.Remap.Positions.{positions_of-present}
use nordicintel_storage_api.Domain.Remap.Address.{IsChosen}

abbrev pub request_axes : List RequestDimension → List Axis
request_axes ds = map (λ (d : RequestDimension). (d.code.key, code_keys d.categories)) ds

-- The loop adds the contributions of the coordinates, where these are the given numbers.
pub remap_cell_index_from-sum :
    (t : Targets) (g : RequestDimension → ℕ) (r acc : ℕ) (ds : List RequestDimension)
    → AllPos (sizes ds)
    → r < product (sizes ds)
    → Along (λ d c. contribution t d (pos c) ≡ pos (g d)) ds (unrank r (sizes ds))
    → acc + sum_of g ds ≤ max_int64
    → remap_cell_index_from t
        (pos r)
        (pos acc)
        ds
        (map pos (sizes ds))
        (map pos (weights (sizes ds)))
      ≡ ok (pos (acc + sum_of g ds))
unfolding remap_cell_index_from product unrank weights
remap_cell_index_from-sum t g r acc [] p lt h fits = ap (λ n. ok (pos n)) (omega arith)
remap_cell_index_from-sum t g r acc (d ∷ ds) p lt (here, h) fits =
    let q = product-pos (sizes ds) p.1 in
    let below : r / product (sizes ds) < length d.categories = grind arith in
    let ih =
      remap_cell_index_from-sum t g (r % product (sizes ds)) (acc + g d) ds p.1 (grind arith) h
        (omega arith) in
    rw (here, wrap64-pos (acc + g d) (omega arith))
      (ground (arith, ih, ap {B = ℤ} pos (sum_step acc (g d) (sum_of g ds))))
  where
    sum_step : (a b c : ℕ) → a + b + c ≡ a + (b + c)
    sum_step a b c = omega arith

pub Has-number_categories :
    (i : ℕ) (cs : List Code) (c : Code)
    → Has c cs
    → (j : ℕ) × (category : Category) × (get_elem? (number_categories i cs) j ≡ some category)
      × (category.code ≡ c)
unfolding number_categories
Has-number_categories i [] c (j, e) = absurd (cc)
Has-number_categories i (x ∷ cs) c (zero, e) = (0, _, refl, some-inj e)
Has-number_categories i (x ∷ cs) c (suc j, e) =
    let (k, category, at, same) = Has-number_categories (suc i) cs c (j, e) in
    (suc k, category, at, same)

pub Has-number_dimensions :
    (i : ℕ) (ds : List Dimension) (d : Dimension)
    → Has d ds
    → (j : ℕ) × (p : ℤ) × (get_elem? (number_dimensions i ds) j ≡ some (record d { position = p }))
unfolding number_dimensions
Has-number_dimensions i [] d (j, e) = absurd (cc)
Has-number_dimensions i (x ∷ ds) d (zero, e) =
    (0, pos i, ap (λ (y : Dimension). some (record y { position = pos i })) (some-inj e))
Has-number_dimensions i (x ∷ ds) d (suc j, e) =
    let (k, p, at) = Has-number_dimensions (suc i) ds d (j, e) in (suc k, p, at)

-- Each dimension of the request is a stored dimension, at some place.
pub stored_dimensions-Has :
    (ds : List RequestDimension) (d : RequestDimension)
    → Has d ds
    → (j : ℕ) × (p : ℤ) × (get_elem? (stored_dimensions ds) j
        ≡ some (record (store_dimension d) { position = p }))
unfolding stored_dimensions
stored_dimensions-Has ds d h =
    Has-number_dimensions 0 _ (store_dimension d)
      (Has-sort dimension_less (store_dimension d) _ (Has-map store_dimension d ds h))

pub get_elem?-code_keys :
    (cs : List Code) (i : ℕ)
    → i < length cs
    → get_elem? (code_keys cs) i ≡ some (get_or cs i zero_code).key
get_elem?-code_keys [] i h = elim h [ ]
get_elem?-code_keys (c ∷ cs) zero h = refl
get_elem?-code_keys (c ∷ cs) (suc i) h = get_elem?-code_keys cs i (omega arith)

pub Has-get_or : (cs : List Code) (i : ℕ) → i < length cs → Has (get_or cs i zero_code) cs
Has-get_or [] i h = elim h [ ]
Has-get_or (c ∷ cs) zero h = (0, refl)
Has-get_or (c ∷ cs) (suc i) h = let (j, e) = Has-get_or cs i (omega arith) in (suc j, e)

-- An address that names a category of a request dimension names one of its stored dimension.
pub store_dimension-IsChosen :
    (a : Bytes → Option Bytes) (d : RequestDimension) (c : ℕ)
    → IsNumbered (store_dimension d)
    → a d.code.key ≡ get_elem? (code_keys d.categories) c
    → c < length d.categories
    → IsChosen a (store_dimension d)
unfolding store_dimension
store_dimension-IsChosen a d c numbered e below =
    let (j, category, at, same) =
      Has-number_categories 0 (sort code_less d.categories) (get_or d.categories c zero_code)
        (Has-sort code_less _ d.categories (Has-get_or d.categories c below)) in
    let at' : get_elem? (store_dimension d).categories j ≡ some category = at in
    record {
      index = j;
      category = category;
      at = at';
      named =
          e ∙ get_elem?-code_keys d.categories c below ∙ ap (λ (x : Code). some x.key) (sym same);
      found = positions_of-present (store_dimension d) j category numbered at';
    }

pub All-Along :
    (a : Bytes → Option Bytes) (ds : List RequestDimension) (cs : List ℕ)
    → All IsNumbered (map store_dimension ds)
    → Along (λ x c. (a x.0 ≡ get_elem? x.1 c) × (c < length x.1)) (request_axes ds) cs
    → All (IsChosen a) (map store_dimension ds)
All-Along a [] cs n h = tt
All-Along a (d ∷ ds) [] n h = elim h [ ]
All-Along a (d ∷ ds) (c ∷ cs) (n, ns) ((e, below), h) =
    (store_dimension-IsChosen a d c n e (rw length-map at below), All-Along a ds cs ns h)

pub axis_sizes-request_axes : (ds : List RequestDimension) → axis_sizes (request_axes ds) ≡ sizes ds
axis_sizes-request_axes [] = refl
axis_sizes-request_axes (d ∷ ds) =
    ap₂ ◌∷◌ (length-map (λ (c : Code). c.key) d.categories) (axis_sizes-request_axes ds)

pub get_or-map : (ns : List ℕ) (i : ℕ) → get_or (map pos ns) i (pos 0) ≡ pos (get_or ns i 0)
get_or-map [] i = refl
get_or-map (n ∷ ns) zero = refl
get_or-map (n ∷ ns) (suc i) = get_or-map ns i

pub get_or_of_get_elem? {ℓ} :
    {A : Type ℓ} (xs : List A) (i : ℕ) (x z : A) → get_elem? xs i ≡ some x → get_or xs i z ≡ x
get_or_of_get_elem? [] i x z e = absurd (cc)
get_or_of_get_elem? (y ∷ ys) zero x z e = some-inj e
get_or_of_get_elem? (y ∷ ys) (suc i) x z e = get_or_of_get_elem? ys i x z e

pub stored_sizes-pos : (ds : List Dimension) → stored_sizes ds ≡ map pos (cube_sizes ds)
unfolding stored_sizes
stored_sizes-pos [] = refl
stored_sizes-pos (d ∷ ds) = ap (◌∷◌ (pos (length d.categories))) (stored_sizes-pos ds)
