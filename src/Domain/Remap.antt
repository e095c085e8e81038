-- ===== src/Domain/Remap.antt =====
-- internal/domain/payload.go, lines 398 to 483: the request's cube in stored order. Dimensions and
-- categories are sorted by key, and each cell moves to the index of its coordinates there.
pub mod Stored
pub mod Positions
pub mod Address
pub mod Chosen
pub mod Correct
pub mod Distinct
pub mod Accepted
use nordicintel_storage_api.Prelude.{
  ℕ, suc, ◌+◌, ℤ, pos, lt_ℤ, to_ℕ, ◌+ℤ◌, ◌*ℤ◌, ◌/ℤ◌, ◌%ℤ◌, wrap64, Bytes, bytes_eq, bytes_lt, Bool,
  not, ◌||◌, Option, none, some, List, [], ◌∷◌, map, length, get_or, lookup, insert, insert_all,
  if◌then◌else◌, Result, ok, err, ◌>>=◌, sort,
}
use nordicintel_storage_api.Domain.Model.{Code, Category, Dimension, Cell}
use nordicintel_storage_api.Domain.Index.{IndexError, outside_cube, strides}
use nordicintel_storage_api.Domain.Structure.{RequestDimension, zero_code, category_counts}

abbrev pub code_less : Code → Code → Bool
code_less a b = bytes_lt a.key b.key

abbrev pub dimension_less : Dimension → Dimension → Bool
dimension_less a b = bytes_lt a.code.key b.code.key

-- `stored[i].Categories`: the codes, numbered
pub number_categories : ℕ → List Code → List Category
number_categories j [] = []
number_categories j (code ∷ codes) =
    record { code = code; position = pos j } ∷ number_categories (suc j) codes

-- the first loop of `remapReplacement`
pub store_dimension : RequestDimension → Dimension
unfolding number_categories
store_dimension d = record {
  code = d.code;
  position = pos 0;
  categories = number_categories 0 (sort code_less d.categories);
}

-- `stored[i].Position = i`
pub number_dimensions : ℕ → List Dimension → List Dimension
number_dimensions i [] = []
number_dimensions i (d ∷ ds) = record d { position = pos i } ∷ number_dimensions (suc i) ds

unfoldable pub stored_dimensions : List RequestDimension → List Dimension
unfolding store_dimension number_dimensions sort
stored_dimensions dimensions =
    number_dimensions 0 (sort dimension_less (map store_dimension dimensions))

pub stored_sizes : List Dimension → List ℤ
stored_sizes stored = map (λ d. pos (length d.categories)) stored

-- the loop that fills `dimensionPosition`
pub dimension_positions : ℕ → List Dimension → List (Bytes × ℤ) → List (Bytes × ℤ)
dimension_positions i [] positions = positions
dimension_positions i (d ∷ ds) positions =
    dimension_positions (suc i) ds (insert d.code.key (pos i) positions)

-- the loop that fills `positions` for one dimension
pub positions_of : List Category → List (Bytes × ℤ)
unfolding insert_all
positions_of categories = insert_all (λ (c : Category). c.code.key) (λ c. c.position) categories []

-- the loop that fills `categoryPositions`
pub category_positions : List Dimension → List (Bytes × List (Bytes × ℤ))
unfolding positions_of insert_all
category_positions stored =
    insert_all (λ (d : Dimension). d.code.key) (λ d. positions_of d.categories) stored []

-- m[k], with the zero value for a missing key
abbrev pub value_or {ℓ} : {A : Type ℓ} → A → Option A → A
value_or z none = z
value_or z (some a) = a

-- What `remapCellIndex` reads besides the dimensions, their sizes and their strides.
pub record Targets : Type 0 where
  pub strides : List ℤ
  pub dimension_position : List (Bytes × ℤ)
  pub category_position : List (Bytes × List (Bytes × ℤ))

module _ (t : Targets) where
  -- the stored index that one coordinate of one dimension adds
  pub contribution : RequestDimension → ℤ → ℤ
  contribution dimension coordinate =
      let stored_dimension = value_or (pos 0) (lookup dimension.code.key t.dimension_position) in
      let category = get_or dimension.categories (to_ℕ coordinate) zero_code in
      let stored_position =
        value_or (pos 0)
          (lookup category.key (value_or [] (lookup dimension.code.key t.category_position))) in
      wrap64 (stored_position *ℤ get_or t.strides (to_ℕ stored_dimension) (pos 0))

  -- The loop of `remapCellIndex`, over lists of one length.
  pub remap_cell_index_from : ℤ → ℤ → List RequestDimension → List ℤ → List ℤ → Result IndexError ℤ
  remap_cell_index_from remaining index (dimension ∷ dimensions) (size ∷ sizes) (stride ∷ strides) =
      let coordinate = remaining /ℤ stride in
      let rest =
        remap_cell_index_from (remaining %ℤ stride)
          (wrap64 (index +ℤ contribution dimension coordinate)) dimensions sizes strides in
      if lt_ℤ remaining (pos 0) || lt_ℤ stride (pos 1)
      then err outside_cube
      else if not (lt_ℤ coordinate size)
      then err outside_cube
      else rest
  remap_cell_index_from remaining index _ _ _ = ok index

  unfoldable pub remap_cell_index :
      ℤ → List RequestDimension → List ℤ → List ℤ → Result IndexError ℤ
  unfolding remap_cell_index_from contribution
  remap_cell_index request_index dimensions sizes strides =
      remap_cell_index_from request_index (pos 0) dimensions sizes strides

unfoldable pub targets : List Dimension → Targets
unfolding stored_sizes dimension_positions category_positions
targets stored = record {
  strides = strides (stored_sizes stored);
  dimension_position = dimension_positions 0 stored [];
  category_position = category_positions stored;
}

-- the loop over `requestCells`
unfoldable pub remap_cells :
    List RequestDimension → Targets → ℤ → List (ℤ × Cell) → Result IndexError (List Cell)
unfolding remap_cell_index
remap_cells dimensions t cell_count [] = ok []
remap_cells dimensions t cell_count ((request_index, cell) ∷ cells) =
    let sizes = category_counts dimensions in
    let rest = remap_cells dimensions t cell_count cells in
    if lt_ℤ request_index (pos 0) || not (lt_ℤ request_index cell_count)
    then err outside_cube
    else do
      stored_index ← remap_cell_index t request_index dimensions sizes (strides sizes)
      remapped ← rest
      ok (record cell { index = stored_index } ∷ remapped)

abbrev pub cell_less : Cell → Cell → Bool
cell_less a b = lt_ℤ a.index b.index

unfoldable pub remap_replacement :
    List RequestDimension → List (ℤ × Cell) → ℤ → Result IndexError (List Dimension × List Cell)
unfolding stored_dimensions targets remap_cells sort
remap_replacement dimensions request_cells cell_count = do
  let stored = stored_dimensions dimensions
  cells ← remap_cells dimensions (targets stored) cell_count request_cells
  ok (stored, sort cell_less cells)
