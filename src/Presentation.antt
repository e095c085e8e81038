-- ===== src/Presentation.antt =====
-- internal/presentation/presentation.go: a view as a response. A JSON object is an association list;
-- the members that a response copies from the summary are the summary.
pub mod Status
use nordicintel_storage_api.Prelude.{
  ℕ, zero, suc, ◌+◌, ◌/◌, ◌%◌, ℤ, pos, negsuc, lt_ℤ, eq_ℤ, to_ℕ, Bytes, bytes_eq, bytes_beq, Bool,
  true, false, not, ◌||◌, Option, none, some, List, [], ◌∷◌, ◌++◌, map, length, set, replicate,
  insert, if◌then◌else◌, ltb, nat_beq, Result, ok, err, ◌>>=◌, map_err,
}
use nordicintel_storage_api.Domain.Model.{Category, Cell, Dimension, Float64, Summary, View}
use nordicintel_storage_api.Domain.Index.{IndexError, checked_product}

pub data Format : Type 0 where
  dense : Format
  sparse : Format

pub record Structure : Type 0 where
  pub summary : Summary
  pub id : List Bytes
  pub dimension : List (Bytes × List (Bytes × ℤ))

-- A member that is left out, dense, sparse, or one value for all cells.
pub data Channel (A : Type 0) : Type 0 where
  omitted : Channel A
  dense_values : List (Option A) → Channel A
  sparse_values : List (Bytes × A) → Channel A
  scalar_value : A → Channel A

pub record Data : Type 0 where
  pub base : Structure
  pub value : Channel Float64
  pub text : Channel Bytes
  pub status : Channel Bytes

pub data PresentationError : Type 0 where
  response_cube : IndexError → PresentationError
  outside_response : PresentationError

abbrev pub domain_max_cell_count : ℤ
domain_max_cell_count = pos 1_000_000

-- the loop that fills `index` for one dimension
pub structure_index : List Category → List (Bytes × ℤ) → List (Bytes × ℤ)
structure_index [] index = index
structure_index (c ∷ cs) index = structure_index cs (insert c.code.spelling c.position index)

-- the loop that fills `response.Dimension`
pub structure_dimensions :
    List Dimension → List (Bytes × List (Bytes × ℤ)) → List (Bytes × List (Bytes × ℤ))
unfolding structure_index
structure_dimensions [] dimensions = dimensions
structure_dimensions (d ∷ ds) dimensions =
    structure_dimensions ds (insert d.code.spelling (structure_index d.categories []) dimensions)

unfoldable pub structure_response : View → Structure
unfolding structure_dimensions
structure_response view = record {
  summary = view.summary;
  id = map (λ (d : Dimension). d.code.spelling) view.dimensions;
  dimension = structure_dimensions view.dimensions [];
}

-- one round of the loop of `sharedStatus`, where `rest` is what the others find
abbrev same_status : Bytes → Bool → Option Bytes → Bool
same_status shared rest none = false
same_status shared rest (some status) = if bytes_beq status shared then rest else false

-- the loop of `sharedStatus` after the first cell
pub all_status : Bytes → List Cell → Bool
all_status shared [] = true
all_status shared (cell ∷ cells) = same_status shared (all_status shared cells) cell.status

-- the first round of the loop, and the others
pub status_of_first : Option Bytes → List Cell → Option Bytes
unfolding all_status
status_of_first none cells = none
status_of_first (some shared) cells = if all_status shared cells then some shared else none

pub first_status : List Cell → Option Bytes
unfolding status_of_first
first_status [] = some []
first_status (cell ∷ cells) = status_of_first cell.status cells

unfoldable pub shared_status : List Cell → ℤ → Option Bytes
unfolding first_status
shared_status cells logical_count =
    if lt_ℤ (pos (length cells)) logical_count || eq_ℤ logical_count (pos 0)
    then none
    else first_status cells

-- The decimal digits of a number, before those of `rest`.
pub digits_of : ℕ → ℕ → Bytes → Bytes
digits_of zero n rest = rest
digits_of (suc fuel) n rest =
    let more = digits_of fuel (n / 10) ((b'0' + n % 10) ∷ rest) in
    if ltb n 10 then (b'0' + n) ∷ rest else more

-- strconv.FormatInt(index, 10); a number of 64 bits has at most 20 digits
unfoldable pub format_int : ℤ → Bytes
unfolding digits_of
format_int (pos n) = digits_of 20 n []
format_int (negsuc n) = b'-' ∷ digits_of 20 (suc n) []

-- The variables of the loop over the cells in the dense format: a nil slice is `none`.
pub record DenseState : Type 0 where
  pub values : List (Option Float64)
  pub texts : Option (List (Option Bytes))
  pub statuses : Option (List (Option Bytes))

-- texts[cell.Index] = cell.Text, where there is one, in a slice that is made when first needed
pub set_channel : ℕ → ℕ → Option Bytes → Option (List (Option Bytes)) → Option (List (Option Bytes))
set_channel count index none channel = channel
set_channel count index (some s) none = some (set (replicate count none) index (some s))
set_channel count index (some s) (some entries) = some (set entries index (some s))

pub dense_cells : ℕ → List Cell → DenseState → Result PresentationError DenseState
unfolding set_channel
dense_cells count [] state = ok state
dense_cells count (cell ∷ cells) state =
    let index = to_ℕ cell.index in
    let next : DenseState = record {
      values = set state.values index cell.numeric;
      texts = set_channel count index cell.text state.texts;
      statuses = set_channel count index cell.status state.statuses;
    } in
    let rest = dense_cells count cells next in
    if lt_ℤ cell.index (pos 0) || not (lt_ℤ cell.index (pos count))
    then err outside_response
    else rest

pub record SparseState : Type 0 where
  pub values : List (Bytes × Float64)
  pub texts : List (Bytes × Bytes)
  pub statuses : List (Bytes × Bytes)

abbrev insert_some : {A : Type 0} → Bytes → Option A → List (Bytes × A) → List (Bytes × A)
insert_some key none m = m
insert_some key (some a) m = insert key a m

pub sparse_cells : ℤ → List Cell → SparseState → Result PresentationError SparseState
unfolding format_int
sparse_cells count [] state = ok state
sparse_cells count (cell ∷ cells) state =
    let key = format_int cell.index in
    let next : SparseState = record {
      values = insert_some key cell.numeric state.values;
      texts = insert_some key cell.text state.texts;
      statuses = insert_some key cell.status state.statuses;
    } in
    let rest = sparse_cells count cells next in
    if lt_ℤ cell.index (pos 0) || not (lt_ℤ cell.index count) then err outside_response else rest

abbrev dense_channel : Option (List (Option Bytes)) → Channel Bytes
dense_channel none = omitted
dense_channel (some entries) = dense_values entries

abbrev sparse_channel : List (Bytes × Bytes) → Channel Bytes
sparse_channel [] = omitted
sparse_channel (entry ∷ entries) = sparse_values (entry ∷ entries)

-- a shared status as a scalar, else the channel
abbrev status_channel : Option Bytes → Channel Bytes → Channel Bytes
status_channel none channel = channel
status_channel (some scalar) channel = scalar_value scalar

pub view_sizes : View → List ℤ
view_sizes view = map (λ (d : Dimension). pos (length d.categories)) view.dimensions

unfoldable pub data_response : View → Format → Result PresentationError Data
unfolding view_sizes structure_response shared_status dense_cells sparse_cells
data_response view dense = do
  count ← map_err response_cube (checked_product (view_sizes view) domain_max_cell_count)
  state ←
      dense_cells (to_ℕ count) view.cells
        (record { values = replicate (to_ℕ count) none; texts = none; statuses = none })
  ok (record {
    base = structure_response view;
    value = dense_values state.values;
    text = dense_channel state.texts;
    status = status_channel (shared_status view.cells count) (dense_channel state.statuses);
  })
data_response view sparse = do
  count ← map_err response_cube (checked_product (view_sizes view) domain_max_cell_count)
  state ← sparse_cells count view.cells (record { values = []; texts = []; statuses = [] })
  ok (record {
    base = structure_response view;
    value = sparse_values state.values;
    text = sparse_channel state.texts;
    status = status_channel (shared_status view.cells count) (sparse_channel state.statuses);
  })
