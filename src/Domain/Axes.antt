-- ===== src/Domain/Axes.antt =====
-- What a cell means, apart from any order of dimensions and categories: its address, which gives
-- each dimension key a category key. Also the shape of a stored structure.
use mathlib.Core.Path.{ap₂}
use nordicintel_storage_api.Prelude.{
  ◌+◌, some-inj, ℕ, zero, suc, ◌<◌, ◌≡◌, refl, ap, ◌∙◌, pos, Bytes, bytes_eq, Option, none, some,
  List, [], ◌∷◌, map, length, length-map, get_elem?, All, Fresh, Distinct, ◌==◌, ==_refl, ==_of_ne,
  if◌then◌else◌, arith,
}
use nordicintel_storage_api.Domain.Model.{Category, Dimension}
use nordicintel_storage_api.Domain.Index.Spec.{InBox}
use nordicintel_storage_api.Domain.Index.Agreement.{IsCube}

-- A dimension key and the keys of its categories, in order.
abbrev pub Axis : Type 0
Axis = Bytes × List Bytes

abbrev pub axis_sizes : List Axis → List ℕ
axis_sizes axes = map (λ (a : Axis). length a.1) axes

abbrev pub axis_keys : List Axis → List Bytes
axis_keys axes = map (λ (a : Axis). a.0) axes

-- The category key that coordinates choose for a dimension key.
unfoldable pub address : List Axis → List ℕ → Bytes → Option Bytes
address ((key, categories) ∷ axes) (c ∷ cs) k =
    if key == k then get_elem? categories c else address axes cs k
address _ _ k = none

-- A relation between each axis and its coordinate.
abbrev pub Along {ℓ} : {A : Type ℓ} → (A → ℕ → Type 0) → List A → List ℕ → Type 0
Along P [] [] = Unit
Along P (a ∷ xs) (c ∷ cs) = P a c × Along P xs cs
Along P _ _ = ⊥

pub Along-map {ℓ} :
    {A : Type ℓ} (P Q : A → ℕ → Type 0)
    → ((a : A) (c : ℕ) → P a c → Q a c)
    → (xs : List A) (cs : List ℕ) → Along P xs cs
    → Along Q xs cs
Along-map P Q f [] [] h = tt
Along-map P Q f [] (c ∷ cs) h = elim h [ ]
Along-map P Q f (a ∷ xs) [] h = elim h [ ]
Along-map P Q f (a ∷ xs) (c ∷ cs) h = (f a c h.0, Along-map P Q f xs cs h.1)

-- The address at a key of a later axis does not look at the first axis.
address-later :
    (key : Bytes) (categories : List Bytes) (c : ℕ) (whole : List Axis) (all : List ℕ)
    (axes : List Axis) (cs : List ℕ)
    → Fresh key (axis_keys axes)
    → Along (λ a c'. (address whole all a.0 ≡ get_elem? a.1 c') × (c' < length a.1)) axes cs
    → Along
        (λ a c'.
          (address ((key, categories) ∷ whole) (c ∷ all) a.0 ≡ get_elem? a.1 c')
          × (c' < length a.1))
        axes
        cs
unfolding address
address-later key categories c whole all [] [] f h = tt
address-later key categories c whole all [] (c' ∷ cs) f h = elim h [ ]
address-later key categories c whole all (a ∷ axes) [] f h = elim h [ ]
address-later key categories c whole all (a ∷ axes) (c' ∷ cs) (ne, f) ((e, lt), h) =
    ((rw (==_of_ne key a.0 ne) e, lt), address-later key categories c whole all axes cs f h)

-- With distinct dimension keys, the address of each key is the category at its coordinate.
pub address-Along :
    (axes : List Axis) (cs : List ℕ)
    → Distinct (axis_keys axes)
    → InBox cs (axis_sizes axes)
    → Along (λ a c. (address axes cs a.0 ≡ get_elem? a.1 c) × (c < length a.1)) axes cs
unfolding address
address-Along [] [] d h = tt
address-Along [] (c ∷ cs) d h = elim h [ ]
address-Along (a ∷ axes) [] d h = elim h [ ]
address-Along ((key, categories) ∷ axes) (c ∷ cs) (f, d) (lt, h) = (
  (rw (==_refl key), lt),
  address-later key categories c axes cs axes cs f (address-Along axes cs d h),
)

abbrev pub category_keys : List Category → List Bytes
category_keys cs = map (λ (c : Category). c.code.key) cs

abbrev pub dimension_axes : List Dimension → List Axis
dimension_axes ds = map (λ (d : Dimension). (d.code.key, category_keys d.categories)) ds

abbrev pub cube_sizes : List Dimension → List ℕ
cube_sizes ds = map (λ (d : Dimension). length d.categories) ds

-- Positions count up from a number.
abbrev pub CategoriesFrom : ℕ → List Category → Type 0
CategoriesFrom j [] = Unit
CategoriesFrom j (c ∷ cs) = (c.position ≡ pos j) × CategoriesFrom (suc j) cs

abbrev pub DimensionsFrom : ℕ → List Dimension → Type 0
DimensionsFrom i [] = Unit
DimensionsFrom i (d ∷ ds) = (d.position ≡ pos i) × DimensionsFrom (suc i) ds

-- The categories of a stored dimension: numbered from 0, with distinct keys.
pub record IsNumbered (d : Dimension) : Type 0 where
  pub numbered : CategoriesFrom 0 d.categories
  pub distinct : Distinct (category_keys d.categories)

-- A stored structure: the positions are the places, the keys are distinct, and the cube has cells
-- that an int64 can count.
pub record IsStored (ds : List Dimension) : Type 0 where
  pub numbered : DimensionsFrom 0 ds
  pub categories : All IsNumbered ds
  pub distinct : Distinct (axis_keys (dimension_axes ds))
  pub cube : IsCube (cube_sizes ds)

pub axis_sizes-dimension_axes :
    (ds : List Dimension) → axis_sizes (dimension_axes ds) ≡ cube_sizes ds
axis_sizes-dimension_axes [] = refl
axis_sizes-dimension_axes (d ∷ ds) =
    ap₂ ◌∷◌ (length-map _ d.categories) (axis_sizes-dimension_axes ds)

pub position_of_CategoriesFrom :
    (j i : ℕ) (cs : List Category) (c : Category)
    → CategoriesFrom j cs
    → get_elem? cs i ≡ some c
    → c.position ≡ pos (j + i)
position_of_CategoriesFrom j i [] c h e = cc
position_of_CategoriesFrom j zero (c' ∷ cs) c h e =
    let same : c' ≡ c = some-inj e in rw (← same) (h.0 ∙ ap pos (omega arith))
position_of_CategoriesFrom j (suc i) (c' ∷ cs) c h e =
    position_of_CategoriesFrom (suc j) i cs c h.1 e ∙ ap pos (omega arith)
