-- ===== src/Domain/Payload.antt =====
-- internal/domain/payload.go, lines 23 to 36 and 50 to 155: the parsing of a replacement and of a
-- selection. The decoded body is what encoding/json makes of it.
pub mod Cells
pub mod WellFormed
use nordicintel_storage_api.Prelude.{
  ℕ, zero, suc, ◌+◌, ℤ, pos, int_eq, max_int64, Bytes, Bool, Option, none, some, List, [], ◌∷◌, map,
  lookup, insert, Result, ok, err, ◌>>=◌, map_err, require, if◌then◌else◌, true, false, ◌||◌,
}
use nordicintel_storage_api.Jsonx.{JsonError, Token, decode_strict}
use nordicintel_storage_api.Domain.Model.{
  Cell, Code, Float64, RawMessage, Replacement, Selection, SelectionDimension,
}
use nordicintel_storage_api.Domain.Normalize.{Unicode, CodeError, normalize_code}
use nordicintel_storage_api.Domain.Index.{IndexError}
use nordicintel_storage_api.Domain.Structure.{
  DimensionPayload, RequestDimension, StructureError, parse_request_dimensions,
}
use nordicintel_storage_api.Domain.Channels.{
  Json, ChannelError, parse_numeric_channel, parse_string_channel, parse_status_channel,
}
use nordicintel_storage_api.Domain.Remap.{remap_replacement, value_or}

-- replacementPayload. A nil `value` or `source_stamp` is `none`; an absent `text` or `status`, which
-- the code only reads as bytes, is empty.
pub record ReplacementPayload : Type 0 where
  pub replace : Bool
  pub source_stamp : Option RawMessage
  pub id : List Bytes
  pub dimension : List (Bytes × DimensionPayload)
  pub value : Option RawMessage
  pub text : RawMessage
  pub status : RawMessage

pub record SelectionPayload : Type 0 where
  pub id : List Bytes
  pub dimension : List (Bytes × DimensionPayload)

pub data PayloadError : Type 0 where
  provider_code : CodeError → PayloadError
  dataset_code : CodeError → PayloadError
  invalid_json : JsonError → PayloadError
  source_stamp_required : PayloadError
  value_required : PayloadError
  structure : StructureError → PayloadError
  value_channel : ChannelError → PayloadError
  text_channel : ChannelError → PayloadError
  status_channel : ChannelError → PayloadError
  values_collide : ℤ → PayloadError
  stored_order : IndexError → PayloadError

-- What the decoder does for one kind of body.
pub record BodyDecoder (A : Type 0) : Type 0 where
  pub valid_utf8 : Bytes → Bool
  pub tokens : Bytes → List (Option Token)
  pub decode : Bytes → Option A

abbrev pub zero_cell : Cell
zero_cell = record { index = pos 0; numeric = none; text = none; status = none }

-- requestCells[index]
pub cell_at : ℤ → List (ℤ × Cell) → Cell
cell_at index cells = value_or zero_cell (lookup index cells)

-- the loop over the numeric channel
pub add_numeric : List (ℤ × Float64) → List (ℤ × Cell) → List (ℤ × Cell)
unfolding cell_at
add_numeric [] cells = cells
add_numeric ((index, value) ∷ values) cells =
    add_numeric values
      (insert index (record (cell_at index cells) { index = index; numeric = some value }) cells)

abbrev pub is_some {ℓ} : {A : Type ℓ} → Option A → Bool
is_some none = false
is_some (some a) = true

-- the loop over the text channel
pub add_text : List (ℤ × Bytes) → List (ℤ × Cell) → Result PayloadError (List (ℤ × Cell))
unfolding cell_at
add_text [] cells = ok cells
add_text ((index, value) ∷ values) cells =
    let rest =
      add_text values
        (insert index (record (cell_at index cells) { index = index; text = some value }) cells) in
    if is_some (cell_at index cells).numeric then err (values_collide index) else rest

-- the loop over the status channel
pub add_status : List (ℤ × Bytes) → List (ℤ × Cell) → List (ℤ × Cell)
unfolding cell_at
add_status [] cells = cells
add_status ((index, value) ∷ values) cells =
    add_status values
      (insert index (record (cell_at index cells) { index = index; status = some value }) cells)

-- the loop of a scalar status, over the `n` cells from `i`
pub fill_status : Bytes → ℕ → ℕ → List (ℤ × Cell) → List (ℤ × Cell)
unfolding cell_at
fill_status value i zero cells = cells
fill_status value i (suc n) cells =
    fill_status value (suc i) n
      (insert (pos i) (record (cell_at (pos i) cells) { index = pos i; status = some value }) cells)

unfoldable pub add_scalar_status : Option Bytes → ℤ → List (ℤ × Cell) → List (ℤ × Cell)
unfolding fill_status
add_scalar_status none count cells = cells
add_scalar_status (some value) (pos n) cells = fill_status value 0 n cells
add_scalar_status (some value) count cells = cells

-- the loop that counts `valued`
pub valued_cells : List Cell → ℕ
valued_cells [] = 0
valued_cells (cell ∷ cells) =
    if is_some cell.numeric || is_some cell.text
    then suc (valued_cells cells)
    else valued_cells cells

module _ (u : Unicode) (j : Json) where
  module _ (d : BodyDecoder ReplacementPayload) where
    -- the three channels, as cells by request index
    unfoldable pub parse_cells :
        ReplacementPayload → RawMessage → ℤ → Result PayloadError (List (ℤ × Cell))
    unfolding parse_numeric_channel parse_string_channel parse_status_channel add_numeric add_text
        add_status
    parse_cells payload value count = do
      (numeric, representation) ← map_err value_channel (parse_numeric_channel j value count)
      texts ← map_err text_channel (parse_string_channel j payload.text count representation false)
      (statuses, scalar) ← map_err status_channel (parse_status_channel j payload.status count)
      cells ← add_text texts (add_numeric numeric [])
      ok (add_scalar_status scalar count (add_status statuses cells))

    unfoldable pub parse_replacement : Bytes → Bytes → Bytes → ℤ → Result PayloadError Replacement
    unfolding normalize_code decode_strict parse_request_dimensions parse_cells remap_replacement
        valued_cells
    parse_replacement provider_spelling dataset_spelling body max_cells = do
      provider ← map_err provider_code (normalize_code u provider_spelling)
      dataset ← map_err dataset_code (normalize_code u dataset_spelling)
      payload ← map_err invalid_json (decode_strict d.valid_utf8 d.tokens d.decode body)
      stamp ← require source_stamp_required payload.source_stamp
      value ← require value_required payload.value
      (dimensions, count) ←
          map_err structure (parse_request_dimensions u payload.id payload.dimension max_cells)
      request_cells ← parse_cells payload value count
      (stored, cells) ← map_err stored_order (remap_replacement dimensions request_cells count)
      ok (record {
        provider = provider;
        dataset = dataset;
        replace = payload.replace;
        source_stamp = stamp;
        cell_count = count;
        valued_count = pos (valued_cells cells);
        dimensions = stored;
        cells = cells;
      })

  unfoldable pub parse_selection :
      BodyDecoder SelectionPayload → Bytes → Result PayloadError Selection
  unfolding decode_strict parse_request_dimensions
  parse_selection d body = do
    payload ← map_err invalid_json (decode_strict d.valid_utf8 d.tokens d.decode body)
    (dimensions, count) ←
        map_err structure (parse_request_dimensions u payload.id payload.dimension (pos max_int64))
    ok (record {
      dimensions =
          map (λ (r : RequestDimension). record { code = r.code; categories = r.categories })
            dimensions;
    })
