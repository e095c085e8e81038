-- ===== src/Domain/Index.antt =====
-- internal/domain/index.go: row-major indexing of a cube. Sizes and indexes are Go's int and int64,
-- so ℤ with the wrap-around of every product and sum written out.
pub mod Spec
pub mod Product
pub mod Agreement
pub mod Bounds
pub mod RoundTrip
use nordicintel_storage_api.Prelude.{
  ℤ, pos, ◌+ℤ◌, ◌*ℤ◌, ◌/ℤ◌, ◌%ℤ◌, lt_ℤ, wrap64, max_int64, List, [], ◌∷◌, Bool, true, false, not,
  ◌||◌, if◌then◌else◌, nat_beq, length, Result, ok, err, ◌>>=◌,
}

-- The errors that the functions of index.go return. `cell_limit` is `CellLimitError`.
pub data IndexError : Type 0 where
  no_dimensions : IndexError
  empty_dimension : IndexError
  overflows_int64 : IndexError
  cell_limit : ℤ → IndexError
  lengths_differ : IndexError
  outside_cube : IndexError

-- the loop of `CheckedProduct`
pub checked_product_from : ℤ → List ℤ → ℤ → Result IndexError ℤ
checked_product_from product [] limit = ok product
checked_product_from product (size ∷ sizes) limit =
    if lt_ℤ size (pos 1)
    then err empty_dimension
    else if lt_ℤ (pos max_int64 /ℤ size) product
    then err overflows_int64
    else let product' = wrap64 (product *ℤ size) in
      let rest = checked_product_from product' sizes limit in
      if lt_ℤ limit product' then err (cell_limit limit) else rest

unfoldable pub checked_product : List ℤ → ℤ → Result IndexError ℤ
unfolding checked_product_from
checked_product [] limit = err no_dimensions
checked_product (size ∷ sizes) limit = checked_product_from (pos 1) (size ∷ sizes) limit

-- The loop of `Strides` runs from the last dimension to the first: the strides of `sizes`, and the
-- value of `stride` behind them.
pub strides_from : List ℤ → List ℤ × ℤ
strides_from [] = ([], pos 1)
strides_from (size ∷ sizes) =
    let (strides, stride) = strides_from sizes in (stride ∷ strides, wrap64 (stride *ℤ size))

unfoldable pub strides : List ℤ → List ℤ
unfolding strides_from
strides sizes = (strides_from sizes).0

-- the loop of `Coordinates`; the two lists have one length
pub coordinates_from : ℤ → List ℤ → List ℤ → Result IndexError (List ℤ)
coordinates_from remaining (size ∷ sizes) (stride ∷ strides) =
    let rest = coordinates_from (remaining %ℤ stride) sizes strides in
    if lt_ℤ remaining (pos 0) || lt_ℤ stride (pos 1)
    then err outside_cube
    else let coordinate = remaining /ℤ stride in
      if not (lt_ℤ coordinate size)
      then err outside_cube
      else (do coords ← rest; ok (coordinate ∷ coords))
coordinates_from remaining _ _ = ok []

unfoldable pub coordinates : ℤ → List ℤ → List ℤ → Result IndexError (List ℤ)
unfolding coordinates_from
coordinates index sizes strides =
    if nat_beq (length sizes) (length strides)
    then coordinates_from index sizes strides
    else err lengths_differ

-- the loop of `CellIndex`; the three lists have one length
pub cell_index_from : ℤ → List ℤ → List ℤ → List ℤ → Result IndexError ℤ
cell_index_from index (coordinate ∷ coords) (size ∷ sizes) (stride ∷ strides) =
    let rest =
      cell_index_from (wrap64 (index +ℤ wrap64 (coordinate *ℤ stride))) coords sizes strides in
    if lt_ℤ coordinate (pos 0) || not (lt_ℤ coordinate size) then err outside_cube else rest
cell_index_from index _ _ _ = ok index

unfoldable pub cell_index : List ℤ → List ℤ → List ℤ → Result IndexError ℤ
unfolding cell_index_from
cell_index coords sizes strides =
    if not (nat_beq (length coords) (length sizes)) || not (nat_beq (length sizes) (length strides))
    then err lengths_differ
    else cell_index_from (pos 0) coords sizes strides
