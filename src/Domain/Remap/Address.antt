-- ===== src/Domain/Remap/Address.antt =====
-- Coordinates chosen by an address: in the cube of the stored structure, and with that address.
use mathlib.Core.Path.{ap₂}
use nordicintel_storage_api.Prelude.{
  ℕ, zero, suc, ◌+◌, ◌*◌, ◌≡◌, refl, sym, ap, ◌∙◌, pos, Bytes, bytes_eq, Option, none, some, List,
  [], ◌∷◌, map, get_elem?, get_or, lt_of_get_elem?, All, contains, lookup, if◌then◌else◌, some-inj,
  eq_of_==, Bool-cases, inl, inr, sum_of, to_ℕ,
}
use nordicintel_storage_api.Domain.Model.{Category, Dimension}
use nordicintel_storage_api.Domain.Index.Spec.{weights, rank, InBox}
use nordicintel_storage_api.Domain.Axes.{address, dimension_axes, category_keys, cube_sizes}
use nordicintel_storage_api.Domain.Remap.{positions_of, value_or}
use nordicintel_storage_api.Domain.Remap.Positions.{stored_keys}

module _ (a : Bytes → Option Bytes) where
  -- The place that an address has among the categories of a stored dimension.
  unfoldable pub place : Dimension → ℕ
  place d =
      to_ℕ (value_or (pos 0) (lookup (value_or [] (a d.code.key)) (positions_of d.categories)))

  -- The address names a category of the dimension.
  pub record IsChosen (d : Dimension) : Type 0 where
    pub index : ℕ
    pub category : Category
    pub at : get_elem? d.categories index ≡ some category
    pub named : a d.code.key ≡ some category.code.key
    pub found : lookup category.code.key (positions_of d.categories) ≡ some (pos index)

  pub place_of_IsChosen : (d : Dimension) (c : IsChosen d) → place d ≡ c.index
  unfolding place
  place_of_IsChosen d c = rw (c.named, c.found)

  pub place-InBox : (ds : List Dimension) → All IsChosen ds → InBox (map place ds) (cube_sizes ds)
  place-InBox [] h = tt
  place-InBox (d ∷ ds) (c, h) = (
    rw (place_of_IsChosen d c) (lt_of_get_elem? d.categories c.index c.category c.at),
    place-InBox ds h,
  )

  get_elem?-category_keys :
      (cs : List Category) (i : ℕ) (c : Category)
      → get_elem? cs i ≡ some c
      → get_elem? (category_keys cs) i ≡ some c.code.key
  get_elem?-category_keys [] i c e = cc
  get_elem?-category_keys (x ∷ cs) zero c e = ap (λ (y : Category). some y.code.key) (some-inj e)
  get_elem?-category_keys (x ∷ cs) (suc i) c e = get_elem?-category_keys cs i c e

  -- The chosen coordinates have the given address, at the keys of the structure.
  pub address-place :
      (ds : List Dimension) (k : Bytes)
      → All IsChosen ds
      → address (dimension_axes ds) (map place ds) k
        ≡ (if contains k (stored_keys ds) then a k else none)
  unfolding address
  address-place [] k h = refl
  address-place (d ∷ ds) k (c, h) = elim (Bool-cases (bytes_eq.same d.code.key k)) [
    | inl same ↦
        rw (same, place_of_IsChosen d c)
          (get_elem?-category_keys d.categories c.index c.category c.at
            ∙ sym c.named
            ∙ ap a (eq_of_== d.code.key k same))
    | inr other ↦ rw other (address-place ds k h)
  ]

  -- A sum over the stored dimensions, each place with its weight, is a row-major index.
  pub sum_of-place :
      (weight_of : Bytes → ℕ) (ds : List Dimension)
      → ((j : ℕ) (d : Dimension)
          → get_elem? ds j ≡ some d
          → weight_of d.code.key ≡ get_or (weights (cube_sizes ds)) j 0)
      → sum_of (λ d. place d * weight_of d.code.key) ds ≡ rank (map place ds) (cube_sizes ds)
  unfolding weights rank
  sum_of-place weight_of [] w = refl
  sum_of-place weight_of (d ∷ ds) w =
      ap₂ (λ m n. place d * m + n) (w 0 d refl) (sum_of-place weight_of ds (λ j. w (suc j)))
