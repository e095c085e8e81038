-- ===== src/Jsonx.antt =====
-- internal/jsonx/json.go: the strict decoder. encoding/json's token stream is a parameter: the
-- results of Token() in order, `none` an error, the end of the list io.EOF.
pub mod Fuel
use nordicintel_storage_api.Prelude.{
  ℕ, zero, suc, ◌+◌, Bytes, bytes_eq, Bool, not, Option, none, some, List, [], ◌∷◌, length,
  contains, if◌then◌else◌, Result, ok, err, ◌>>=◌, require,
}

pub data Token : Type 0 where
  open_object : Token
  close_object : Token
  open_array : Token
  close_array : Token
  text : Bytes → Token
  scalar : Token

pub data JsonError : Type 0 where
  invalid_utf8 : JsonError
  syntax_error : JsonError
  unexpected_delimiter : JsonError
  invalid_ending : JsonError
  key_not_string : JsonError
  duplicate_key : Bytes → JsonError
  trailing_content : JsonError
  not_decoded : JsonError
  out_of_fuel : JsonError

-- Where `validateValue` stands: at a value, in the loop of an object, in the loop of an array.
pub data Place : Type 0 where
  at_value : Place
  in_object : List Bytes → Place
  in_array : Place

-- `validateValue`, and the tokens that it leaves.
unfoldable pub validate_value :
    ℕ → Place → List (Option Token) → Result JsonError (List (Option Token))
validate_value zero place tokens = err out_of_fuel
validate_value (suc fuel) place [] = err syntax_error
validate_value (suc fuel) place (none ∷ tokens) = err syntax_error
validate_value (suc fuel) at_value (some open_object ∷ tokens) =
    validate_value fuel (in_object []) tokens
validate_value (suc fuel) at_value (some open_array ∷ tokens) = validate_value fuel in_array tokens
validate_value (suc fuel) at_value (some close_object ∷ tokens) = err unexpected_delimiter
validate_value (suc fuel) at_value (some close_array ∷ tokens) = err unexpected_delimiter
validate_value (suc fuel) at_value (some (text s) ∷ tokens) = ok tokens
validate_value (suc fuel) at_value (some scalar ∷ tokens) = ok tokens
validate_value (suc fuel) (in_object seen) (some close_object ∷ tokens) = ok tokens
validate_value (suc fuel) (in_object seen) (some close_array ∷ tokens) = err invalid_ending
validate_value (suc fuel) (in_object seen) (some (text key) ∷ tokens) =
    let members = (do
      rest ← validate_value fuel at_value tokens
      validate_value fuel (in_object (key ∷ seen)) rest) in
    if contains key seen then err (duplicate_key key) else members
validate_value (suc fuel) (in_object seen) (some _ ∷ tokens) = err key_not_string
validate_value (suc fuel) in_array (some close_array ∷ tokens) = ok tokens
validate_value (suc fuel) in_array (some close_object ∷ tokens) = err invalid_ending
validate_value (suc fuel) in_array (some token ∷ tokens) = do
  rest ← validate_value fuel at_value (some token ∷ tokens)
  validate_value fuel in_array rest

-- Every call takes a token or is followed by one that does.
abbrev pub fuel_for : List (Option Token) → ℕ
fuel_for tokens = suc (length tokens + length tokens)

-- the test of `dec.Token()` after the value
abbrev pub check_end : List (Option Token) → Result JsonError (Unit {0})
check_end [] = ok tt
check_end (token ∷ tokens) = err trailing_content

module _ {A : Type 0} (valid_utf8 : Bytes → Bool) (tokens : Bytes → List (Option Token))
    (decode : Bytes → Option A) where
  unfoldable pub decode_strict : Bytes → Result JsonError A
  unfolding validate_value
  decode_strict data_bytes = if not (valid_utf8 data_bytes) then err invalid_utf8 else (do
    rest ← validate_value (fuel_for (tokens data_bytes)) at_value (tokens data_bytes)
    end ← check_end rest
    require not_decoded (decode data_bytes))
