-- ===== src/Tests/Payloads.antt =====
-- A request body, its channels and its sparse keys, on concrete inputs.
use nordicintel_storage_api.Prelude.{
  err, ◌≢◌, ℕ, ◌*◌, ◌^◌, ◌≡◌, refl, ℤ, pos, codes, true, none, some, List, [], ◌∷◌, ok, arith,
  wrap64, sort,
}
use nordicintel_storage_api.Jsonx.Fuel.{decode_strict_ends}
use nordicintel_storage_api.Jsonx.{out_of_fuel, scalar, decode_strict}
use nordicintel_storage_api.Domain.Model.{Replacement, Float64, Cell}
use nordicintel_storage_api.Domain.Normalize.{normalize_code}
use nordicintel_storage_api.Domain.Index.{checked_product, strides}
use nordicintel_storage_api.Domain.Structure.{parse_request_dimensions}
use nordicintel_storage_api.Domain.Channels.{
  Json, dense, parse_sparse_index, parse_numeric_channel, parse_string_channel,
  parse_status_channel,
}
use nordicintel_storage_api.Domain.Channels.Numerals.{parse_sparse_index-inj}
use nordicintel_storage_api.Domain.Channels.Laws.{
  IsChannel, IsFinite, parse_numeric_channel-IsChannel,
}
use nordicintel_storage_api.Domain.Remap.{
  remap_replacement, stored_dimensions, targets, remap_cell_index, remap_cells,
}
use nordicintel_storage_api.Domain.Payload.{
  ReplacementPayload, BodyDecoder, add_scalar_status, parse_cells, parse_replacement,
}
use nordicintel_storage_api.Domain.Payload.WellFormed.{IsWellFormed, parse_replacement-IsWellFormed}
use nordicintel_storage_api.Tests.Samples.{
  plain, code_of, sample_ids, sexes, years, sample_dimensions,
}

parse_sparse_index-inj_example : codes "5" ≡ codes "5"
parse_sparse_index-inj_example =
    parse_sparse_index-inj (codes "5") (codes "5") (pos 6) (pos 5)
      (unfold parse_sparse_index in refl) (unfold parse_sparse_index in refl)

-- A decoder that reads the texts below: a dense value channel and a scalar status.
abbrev pub one : Float64
one = 1023 * 2 ^ 52

abbrev pub sample_json : Json
sample_json = record {
  trim_space = λ s. s;
  raw_array = λ s.
      some (codes "1" ∷ codes "null" ∷ codes "1" ∷ codes "null" ∷ codes "null" ∷ codes "1" ∷ []);
  raw_object = λ s. none;
  string = λ s. some (codes "A");
  number = λ s. some s;
  parse_float = λ s. some one;
}

abbrev sample_values : List (ℤ × Float64)
sample_values = (pos 0, one) ∷ (pos 2, one) ∷ (pos 5, one) ∷ []

channel_run : parse_numeric_channel sample_json (codes "[") (pos 6) ≡ ok (sample_values, dense)
unfolding parse_numeric_channel
channel_run = refl

parse_numeric_channel-IsChannel_example : IsChannel IsFinite (pos 6) sample_values
parse_numeric_channel-IsChannel_example =
    parse_numeric_channel-IsChannel sample_json (codes "[") 6 sample_values dense channel_run

abbrev pub sample_payload : ReplacementPayload
sample_payload = record {
  replace = true;
  source_stamp = some (codes "1");
  id = sample_ids;
  dimension = (codes "sex", sexes) ∷ (codes "year", years) ∷ [];
  value = some (codes "[");
  text = [];
  status = [];
}

abbrev pub sample_decoder : BodyDecoder ReplacementPayload
sample_decoder = record {
  valid_utf8 = λ s. true;
  tokens = λ s. some scalar ∷ [];
  decode = λ s. some sample_payload;
}

abbrev cell_of : ℕ → Cell
cell_of n = record { index = pos n; numeric = some one; text = none; status = none }

abbrev pub sample_replacement : Replacement
sample_replacement = record {
  provider = code_of (codes "scb");
  dataset = code_of (codes "pop");
  replace = true;
  source_stamp = codes "1";
  cell_count = pos 6;
  valued_count = pos 3;
  dimensions = stored_dimensions sample_dimensions;
  cells = cell_of 2 ∷ cell_of 3 ∷ cell_of 4 ∷ [];
}

pub replacement_run :
    parse_replacement plain sample_json sample_decoder
      (codes "scb")
      (codes "pop")
      (codes "{}")
      (pos 1_000_000)
    ≡ ok sample_replacement
unfolding parse_replacement parse_cells add_scalar_status normalize_code decode_strict
    parse_request_dimensions checked_product wrap64 remap_replacement parse_numeric_channel
    parse_string_channel parse_status_channel strides remap_cells remap_cell_index targets sort
    stored_dimensions
replacement_run = refl

parse_replacement-IsWellFormed_example : IsWellFormed 1_000_000 sample_replacement
parse_replacement-IsWellFormed_example =
    parse_replacement-IsWellFormed plain sample_json sample_decoder (codes "scb") (codes "pop")
      (codes "{}") 1_000_000 sample_replacement (omega arith) (omega arith) replacement_run

decode_strict_ends_example :
    decode_strict sample_decoder.valid_utf8 sample_decoder.tokens sample_decoder.decode (codes "1")
    ≢ err out_of_fuel
decode_strict_ends_example =
    decode_strict_ends sample_decoder.valid_utf8 sample_decoder.tokens sample_decoder.decode
      (codes "1")
