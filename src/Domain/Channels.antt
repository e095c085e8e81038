-- ===== src/Domain/Channels.antt =====
-- internal/domain/payload.go, lines 43 to 48 and 237 to 396: the value, text and status channels of
-- a request body. What encoding/json and strconv.ParseFloat do is a parameter; the map that a loop
-- fills is an association list.
pub mod Numerals
pub mod Laws
use nordicintel_storage_api.Prelude.{
  ℕ, zero, suc, ◌+◌, ◌-◌, ◌*◌, ◌/◌, ◌%◌, ◌^◌, ℤ, pos, int_eq, lt_ℤ, eq_ℤ, max_int64, Bytes, codes,
  bytes_beq, Bool, true, false, not, ◌&&◌, ◌||◌, Option, none, some, List, [], ◌∷◌, length, insert,
  if◌then◌else◌, ltb, leb, nat_beq, Result, ok, err, ◌>>=◌, require,
}
use nordicintel_storage_api.Domain.Model.{Float64, RawMessage}

-- What the code uses of encoding/json, bytes.TrimSpace and strconv.ParseFloat.
pub record Json : Type 0 where
  pub trim_space : Bytes → Bytes
  -- json.Unmarshal into a []json.RawMessage
  pub raw_array : Bytes → Option (List RawMessage)
  -- json.Unmarshal into a map[string]json.RawMessage
  pub raw_object : Bytes → Option (List (Bytes × RawMessage))
  -- json.Unmarshal into a string
  pub string : Bytes → Option Bytes
  -- Decode into a json.Number
  pub number : Bytes → Option Bytes
  -- strconv.ParseFloat with 64 bits
  pub parse_float : Bytes → Option Float64

pub data Representation : Type 0 where
  dense : Representation
  sparse : Representation

pub data ChannelError : Type 0 where
  required_channel : ChannelError
  not_a_channel : ChannelError
  not_dense : ChannelError
  not_sparse : ChannelError
  dense_length : ChannelError
  not_canonical : ChannelError
  outside_channel : ChannelError
  explicit_null : ChannelError
  not_a_number : ChannelError
  not_finite : ChannelError
  not_a_string : ChannelError

abbrev pub is_digit : ℕ → Bool
is_digit c = not (ltb c b'0' || ltb b'9' c)

pub all_digits : Bytes → Bool
all_digits [] = true
all_digits (c ∷ cs) = is_digit c && all_digits cs

-- the number that decimal digits spell, after those read so far
pub decimal_from : ℕ → Bytes → ℕ
decimal_from n [] = n
decimal_from n (c ∷ cs) = decimal_from (n * 10 + (c - b'0')) cs

-- strconv.ParseInt(key, 10, 64), on a text of digits
pub parse_digits : Bytes → Option ℤ
unfolding decimal_from
parse_digits key = let n = decimal_from 0 key in if ltb max_int64 n then none else some (pos n)

-- an empty text, or one of several bytes that starts with a zero
pub has_bad_start : Bytes → Bool
has_bad_start [] = true
has_bad_start (c ∷ []) = false
has_bad_start (c ∷ d ∷ cs) = nat_beq c b'0'

-- the second test of `parseSparseIndex`
abbrev pub check_index : ℤ → Option ℤ → Result ChannelError ℤ
check_index count none = err outside_channel
check_index count (some index) =
    if lt_ℤ index (pos 0) || not (lt_ℤ index count) then err outside_channel else ok index

unfoldable pub parse_sparse_index : Bytes → ℤ → Result ChannelError ℤ
unfolding has_bad_start all_digits parse_digits
parse_sparse_index key count =
    if has_bad_start key || not (all_digits key)
    then err not_canonical
    else check_index count (parse_digits key)

-- math.IsNaN(value) || math.IsInf(value, 0): the exponent bits are all ones
abbrev pub is_nan_or_inf : Float64 → Bool
is_nan_or_inf value = nat_beq (value / 2 ^ 52 % 2 ^ 11) 2047

module _ (j : Json) where
  pub is_null : RawMessage → Bool
  is_null raw = bytes_beq (j.trim_space raw) (codes "null")

  pub parse_finite_float : RawMessage → Result ChannelError Float64
  parse_finite_float raw = do
    number ← require not_a_number (j.number raw)
    value ← require not_finite (j.parse_float number)
    if is_nan_or_inf value then err not_finite else ok value

  -- json.Unmarshal(entry, &value) for a string
  pub parse_string : RawMessage → Result ChannelError Bytes
  parse_string raw = require not_a_string (j.string raw)

  -- The two loops over the entries of a channel, of numbers or of strings.
  module _ {A : Type 0} (parse : RawMessage → Result ChannelError A) where
    -- the loop over a dense channel, from entry `i`
    pub dense_entries : ℕ → List RawMessage → List (ℤ × A) → Result ChannelError (List (ℤ × A))
    unfolding is_null
    dense_entries i [] values = ok values
    dense_entries i (entry ∷ entries) values =
        let skipped = dense_entries (suc i) entries values in
        if is_null entry
        then skipped
        else (do value ← parse entry; dense_entries (suc i) entries (insert (pos i) value values))

    -- the loop over a sparse channel
    pub sparse_entries :
        ℤ → List (Bytes × RawMessage) → List (ℤ × A) → Result ChannelError (List (ℤ × A))
    unfolding is_null
    sparse_entries count [] values = ok values
    sparse_entries count ((key, entry) ∷ entries) values = do
      index ← parse_sparse_index key count
      if is_null entry
          then err explicit_null
          else (do value ← parse entry; sparse_entries count entries (insert index value values))

    pub dense_channel : Bytes → ℤ → Result ChannelError (List (ℤ × A))
    unfolding dense_entries
    dense_channel raw count = do
      entries ← require not_dense (j.raw_array raw)
      if eq_ℤ (pos (length entries)) count then dense_entries 0 entries [] else err dense_length

    pub sparse_channel : Bytes → ℤ → Result ChannelError (List (ℤ × A))
    unfolding sparse_entries
    sparse_channel raw count = do
      entries ← require not_sparse (j.raw_object raw)
      sparse_entries count entries []

  -- `parseNumericChannel` after it trimmed the text
  abbrev pub numeric_by_first :
      Bytes → ℤ → Result ChannelError (List (ℤ × Float64) × Representation)
  numeric_by_first [] count = err required_channel
  numeric_by_first (c ∷ raw) count =
      if nat_beq c b'['
      then (do values ← dense_channel parse_finite_float (c ∷ raw) count; ok (values, dense))
      else if nat_beq c b'{'
      then (do values ← sparse_channel parse_finite_float (c ∷ raw) count; ok (values, sparse))
      else err not_a_channel

  unfoldable pub parse_numeric_channel :
      RawMessage → ℤ → Result ChannelError (List (ℤ × Float64) × Representation)
  unfolding parse_finite_float dense_channel sparse_channel
  parse_numeric_channel raw count = numeric_by_first (j.trim_space raw) count

  pub string_entries : RawMessage → ℤ → Representation → Result ChannelError (List (ℤ × Bytes))
  unfolding parse_string dense_channel sparse_channel
  string_entries raw count dense = dense_channel parse_string raw count
  string_entries raw count sparse = sparse_channel parse_string raw count

  unfoldable pub parse_string_channel :
      RawMessage → ℤ → Representation → Bool → Result ChannelError (List (ℤ × Bytes))
  unfolding string_entries
  parse_string_channel raw count representation required =
      if bytes_beq (j.trim_space raw) []
      then (if required then err required_channel else ok [])
      else string_entries raw count representation

  abbrev status_by_first : Bytes → ℤ → Result ChannelError (List (ℤ × Bytes) × Option Bytes)
  status_by_first [] count = ok ([], none)
  status_by_first (c ∷ raw) count =
      if nat_beq c 34
      then (do scalar ← parse_string (c ∷ raw); ok ([], some scalar))
      else if nat_beq c b'['
      then (do values ← parse_string_channel (c ∷ raw) count dense true; ok (values, none))
      else if nat_beq c b'{'
      then (do values ← parse_string_channel (c ∷ raw) count sparse true; ok (values, none))
      else err not_a_channel

  unfoldable pub parse_status_channel :
      RawMessage → ℤ → Result ChannelError (List (ℤ × Bytes) × Option Bytes)
  unfolding parse_string parse_string_channel
  parse_status_channel raw count = status_by_first (j.trim_space raw) count
