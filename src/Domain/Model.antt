-- ===== src/Domain/Model.antt =====
-- internal/domain/model.go. A float64 is its IEEE 754 bit pattern, a json.RawMessage the bytes of
-- the text, and a time.Time a number that the database clock chose.
use nordicintel_storage_api.Prelude.{ℕ, ℤ, Bytes, Bool, Option, List}

abbrev pub max_code_bytes : ℕ
max_code_bytes = 256

abbrev pub max_dimensions : ℕ
max_dimensions = 64

abbrev pub Float64 : Type 0
Float64 = ℕ

abbrev pub RawMessage : Type 0
RawMessage = Bytes

abbrev pub Time : Type 0
Time = ℕ

pub record Code : Type 0 where
  pub spelling : Bytes
  pub key : Bytes

pub record Category : Type 0 where
  pub code : Code
  pub position : ℤ

pub record Dimension : Type 0 where
  pub code : Code
  pub position : ℤ
  pub categories : List Category

pub record Cell : Type 0 where
  pub index : ℤ
  pub numeric : Option Float64
  pub text : Option Bytes
  pub status : Option Bytes

pub record Summary : Type 0 where
  pub provider_code : Bytes
  pub dataset_code : Bytes
  pub source_stamp : RawMessage
  pub cell_count : ℤ
  pub valued_cell_count : ℤ
  pub null_cell_count : ℤ
  pub updated_at : Time

pub record ProviderListItem : Type 0 where
  pub provider_code : Bytes
  pub dataset_count : ℤ

pub record Replacement : Type 0 where
  pub provider : Code
  pub dataset : Code
  pub replace : Bool
  pub source_stamp : RawMessage
  pub cell_count : ℤ
  pub valued_count : ℤ
  pub dimensions : List Dimension
  pub cells : List Cell

pub record SelectionDimension : Type 0 where
  pub code : Code
  pub categories : List Code

pub record Selection : Type 0 where
  pub dimensions : List SelectionDimension

pub record View : Type 0 where
  pub summary : Summary
  pub dimensions : List Dimension
  pub cells : List Cell
