-- ===== src/Domain/Selection.antt =====
-- internal/domain/selection.go: the resolution of a selection against a stored structure.
pub mod Output
pub mod Targets
pub mod Places
pub mod Cells
pub mod Correct
pub mod Total
use nordicintel_storage_api.Prelude.{
  ℕ, zero, suc, ℤ, pos, lt_ℤ, to_ℕ, Bytes, bytes_eq, Bool, not, ◌||◌, Option, none, some, List, [],
  ◌∷◌, map, length, get_elem?, get_or, set, replicate, lookup, insert_all, contains, if◌then◌else◌,
  nat_beq, Result, ok, err, ◌>>=◌, map_err, require,
}
use nordicintel_storage_api.Domain.Model.{Code, Category, Dimension, Selection, SelectionDimension}
use nordicintel_storage_api.Domain.Index.{
  IndexError, checked_product, strides, coordinates, cell_index,
}

-- `out_of_range` is the panic of a slice index.
pub data SelectionError : Type 0 where
  dimension_total : SelectionError
  duplicate_selected : SelectionError
  unknown_dimension : SelectionError
  duplicate_selected_category : SelectionError
  unknown_category : SelectionError
  selected_cube : IndexError → SelectionError
  out_of_range : SelectionError

-- storedByKey
pub stored_by_key : List Dimension → List (Bytes × Dimension)
unfolding insert_all
stored_by_key stored = insert_all (λ (d : Dimension). d.code.key) (λ d. d) stored []

-- values[position] = value
abbrev pub store_at : List ℤ → ℤ → ℤ → Result SelectionError (List ℤ)
store_at values position value =
    if lt_ℤ position (pos 0) || not (lt_ℤ position (pos (length values)))
    then err out_of_range
    else ok (set values (to_ℕ position) value)

-- the loop that fills storedSizes
pub place_sizes : List Dimension → List ℤ → Result SelectionError (List ℤ)
place_sizes [] sizes = ok sizes
place_sizes (d ∷ ds) sizes = do
  next ← store_at sizes d.position (pos (length d.categories))
  place_sizes ds next

-- The loop over the categories of one requested dimension, from place `j`: the output's categories,
-- and their stored positions.
pub select_categories :
    List (Bytes × Category)
    → ℕ
    → List Code
    → List Bytes
    → Result SelectionError (List Category × List ℤ)
select_categories category_by_key j [] seen = ok ([], [])
select_categories category_by_key j (requested ∷ rest) seen =
    let others = select_categories category_by_key (suc j) rest (requested.key ∷ seen) in
    if contains requested.key seen then err duplicate_selected_category else (do
      category ← require unknown_category (lookup requested.key category_by_key)
      (categories, positions) ← others
      ok (
        record { code = category.code; position = pos j } ∷ categories,
        category.position ∷ positions,
      ))

-- The loop over the requested dimensions, from place `i`.
pub select_dimensions :
    List (Bytes × Dimension)
    → ℕ
    → List SelectionDimension
    → List Bytes
    → Result SelectionError (List Dimension × List (List ℤ))
unfolding select_categories insert_all
select_dimensions by_key i [] seen = ok ([], [])
select_dimensions by_key i (requested ∷ rest) seen =
    let others = select_dimensions by_key (suc i) rest (requested.code.key ∷ seen) in
    if contains requested.code.key seen then err duplicate_selected else (do
      stored ← require unknown_dimension (lookup requested.code.key by_key)
      let category_by_key = insert_all (λ (c : Category). c.code.key) (λ c. c) stored.categories []
      (categories, positions) ← select_categories category_by_key 0 requested.categories []
      (dimensions, selected) ← others
      ok (
        record { code = stored.code; position = pos i; categories = categories } ∷ dimensions,
        positions ∷ selected,
      ))

abbrev zero_dimension : Dimension
zero_dimension = record {
  code = record { spelling = []; key = [] };
  position = pos 0;
  categories = [];
}

abbrev dimension_or_zero : Option Dimension → Dimension
dimension_or_zero none = zero_dimension
dimension_or_zero (some d) = d

-- The loop over the coordinates of an output cell, beside the requested dimensions and their
-- selected positions.
pub place_coordinates :
    List (Bytes × Dimension)
    → List ℤ
    → List SelectionDimension
    → List (List ℤ)
    → List ℤ
    → Result SelectionError (List ℤ)
place_coordinates by_key (c ∷ coords) (requested ∷ dimensions) (positions ∷ selected) values = do
  position ← require out_of_range (get_elem? positions (to_ℕ c))
  next ← store_at values (dimension_or_zero (lookup requested.code.key by_key)).position position
  place_coordinates by_key coords dimensions selected next
place_coordinates by_key _ _ _ values = ok values

-- What the last loop of `ResolveSelection` reads.
pub record Resolved : Type 0 where
  pub by_key : List (Bytes × Dimension)
  pub stored_count : ℕ
  pub stored_sizes : List ℤ
  pub output_sizes : List ℤ
  pub selected : List (List ℤ)
  pub requested : List SelectionDimension

-- one round of the last loop
pub stored_index : Resolved → ℤ → Result SelectionError ℤ
unfolding place_coordinates
stored_index r output_index = do
  coords ← map_err selected_cube (coordinates output_index r.output_sizes (strides r.output_sizes))
  values ←
      place_coordinates r.by_key coords r.requested r.selected (replicate r.stored_count (pos 0))
  map_err selected_cube (cell_index values r.stored_sizes (strides r.stored_sizes))

-- the last loop, over the `n` output cells from `i`
pub stored_indices : Resolved → ℕ → ℕ → Result SelectionError (List ℤ)
unfolding stored_index
stored_indices r i zero = ok []
stored_indices r i (suc n) = do
  index ← stored_index r (pos i)
  rest ← stored_indices r (suc i) n
  ok (index ∷ rest)

unfoldable pub resolve_selection :
    Selection → List Dimension → ℤ → Result SelectionError (List Dimension × List ℤ)
unfolding stored_by_key place_sizes select_dimensions stored_indices
resolve_selection selection stored max_cells =
    if not (nat_beq (length selection.dimensions) (length stored)) then err dimension_total else (do
      stored_sizes ← place_sizes stored (replicate (length stored) (pos 0))
      (output, selected) ← select_dimensions (stored_by_key stored) 0 selection.dimensions []
      let output_sizes =
          map (λ (d : SelectionDimension). pos (length d.categories)) selection.dimensions
      count ← map_err selected_cube (checked_product output_sizes max_cells)
      indices ←
          stored_indices
            (record {
              by_key = stored_by_key stored;
              stored_count = length stored;
              stored_sizes = stored_sizes;
              output_sizes = output_sizes;
              selected = selected;
              requested = selection.dimensions;
            })
            0 (to_ℕ count)
      ok (output, indices))
