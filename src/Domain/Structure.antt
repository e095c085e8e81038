-- ===== src/Domain/Structure.antt =====
-- internal/domain/payload.go, lines 19 to 41 and 157 to 235: the dimensions and categories that a
-- request body declares. A JSON object is the list of its members, in the order of the range.
pub mod Layout
pub mod Laws
use nordicintel_storage_api.Prelude.{
  ℕ, suc, ◌+◌, ℤ, pos, lt_ℤ, to_ℕ, max_int64, Bytes, bytes_eq, Bool, true, false, not, ◌||◌, Option,
  none, some, List, [], ◌∷◌, ◌++◌, map, length, get_or, set, replicate, lookup, insert, contains,
  if◌then◌else◌, ltb, nat_beq, Result, ok, err, ◌>>=◌, map_err,
}
use nordicintel_storage_api.Domain.Model.{Code, max_dimensions}
use nordicintel_storage_api.Domain.Normalize.{Unicode, CodeError, normalize_code}
use nordicintel_storage_api.Domain.Index.{IndexError, checked_product}

-- dimensionPayload: the member `index`
pub record DimensionPayload : Type 0 where
  pub index : List (Bytes × ℤ)

pub record RequestDimension : Type 0 where
  pub code : Code
  pub categories : List Code

pub data StructureError : Type 0 where
  dimension_count : StructureError
  dimension_code : CodeError → StructureError
  duplicate_dimension : Bytes → StructureError
  different_dimensions : StructureError
  id_dimension_code : CodeError → StructureError
  duplicate_id : Bytes → StructureError
  missing_dimension : Bytes → StructureError
  no_categories : StructureError
  category_code : CodeError → StructureError
  duplicate_category : Bytes → StructureError
  category_indexes : StructureError
  cube : IndexError → StructureError

abbrev pub zero_code : Code
zero_code = record { spelling = []; key = [] }

-- the sizes that `parseRequestDimensions` collects
pub category_counts : List RequestDimension → List ℤ
category_counts dimensions = map (λ d. pos (length d.categories)) dimensions

module _ (u : Unicode) where
  -- The loop of `parseCategories` over the members left: `count` is the number of all members.
  pub parse_categories_from :
      ℕ → List (Bytes × ℤ) → List Code → List Bool → List Bytes → Result StructureError (List Code)
  parse_categories_from count [] categories occupied keys = ok categories
  parse_categories_from count ((spelling, position) ∷ index) categories occupied keys = do
    code ← map_err category_code (normalize_code u spelling)
    let rest =
        parse_categories_from count index (set categories (to_ℕ position) code)
          (set occupied (to_ℕ position) true) (code.key ∷ keys)
    if contains code.key keys
        then err (duplicate_category spelling)
        else if lt_ℤ position (pos 0)
            || not (lt_ℤ position (pos count))
            || get_or occupied (to_ℕ position) false
        then err category_indexes
        else rest

  unfoldable pub parse_categories : List (Bytes × ℤ) → Result StructureError (List Code)
  unfolding parse_categories_from
  parse_categories [] = err no_categories
  parse_categories (member ∷ index) =
      let count = length (member ∷ index) in
      parse_categories_from count (member ∷ index) (replicate count zero_code)
        (replicate count false) []

  -- the loop that fills `byKey`
  pub dimensions_by_key :
      List (Bytes × DimensionPayload)
      → List (Bytes × (Code × DimensionPayload))
      → Result StructureError (List (Bytes × (Code × DimensionPayload)))
  dimensions_by_key [] by_key = ok by_key
  dimensions_by_key ((spelling, dimension) ∷ payload) by_key = do
    code ← map_err dimension_code (normalize_code u spelling)
    let rest = dimensions_by_key payload (insert code.key (code, dimension) by_key)
    elim (lookup code.key by_key) [ some entry ↦ err (duplicate_dimension spelling) | none ↦ rest ]

  -- what the loop over `ids` does with the entry that it looked up
  pub parse_entry :
      Bytes → Option (Code × DimensionPayload) → Result StructureError RequestDimension
  parse_entry spelling none = err (missing_dimension spelling)
  parse_entry spelling (some (code, payload)) = do
    categories ← parse_categories payload.index
    ok (record { code = code; categories = categories })

  -- the loop over `ids`
  pub parse_ids :
      List (Bytes × (Code × DimensionPayload))
      → List Bytes
      → List Bytes
      → Result StructureError (List RequestDimension)
  parse_ids by_key [] seen = ok []
  parse_ids by_key (spelling ∷ ids) seen = do
    id_code ← map_err id_dimension_code (normalize_code u spelling)
    let rest = parse_ids by_key ids (id_code.key ∷ seen)
    if contains id_code.key seen then err (duplicate_id spelling) else (do
      dimension ← parse_entry spelling (lookup id_code.key by_key)
      dimensions ← rest
      ok (dimension ∷ dimensions))

  unfoldable pub parse_request_dimensions :
      List Bytes
      → List (Bytes × DimensionPayload)
      → ℤ
      → Result StructureError (List RequestDimension × ℤ)
  unfolding parse_categories dimensions_by_key parse_entry parse_ids category_counts
  parse_request_dimensions ids payload limit =
      if ltb (length ids) 1 || ltb max_dimensions (length ids) then err dimension_count else do
        by_key ← dimensions_by_key payload []
        if not (nat_beq (length by_key) (length ids)) then err different_dimensions else do
          dimensions ← parse_ids by_key ids []
          count ← map_err cube (checked_product (category_counts dimensions) limit)
          ok (dimensions, count)
