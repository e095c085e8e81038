-- ===== src/Tests/Structures.antt =====
-- The structure of a request, and its cells in stored order, on concrete inputs.
use nordicintel_storage_api.Prelude.{
  sort, ℕ, ◌≡◌, ◌<◌, refl, pos, Bytes, codes, [], ◌∷◌, map, ok, arith, wrap64, false, ◌≢◌,
  bytes_beq, bytes_beq_iff,
}
use nordicintel_storage_api.Domain.Normalize.{normalize_code}
use nordicintel_storage_api.Domain.Index.{checked_product, strides}
use nordicintel_storage_api.Domain.Index.Spec.{product, unrank}
use nordicintel_storage_api.Domain.Axes.{address, dimension_axes, cube_sizes}
use nordicintel_storage_api.Domain.Structure.{parse_categories, parse_request_dimensions}
use nordicintel_storage_api.Domain.Structure.Layout.{IsLayout, parse_categories-IsLayout}
use nordicintel_storage_api.Domain.Structure.Laws.{
  IsStructure, parse_request_dimensions-IsStructure, sizes,
}
use nordicintel_storage_api.Domain.Remap.{remap_cell_index, targets, stored_dimensions}
use nordicintel_storage_api.Domain.Remap.Stored.{IsRequest}
use nordicintel_storage_api.Domain.Remap.Chosen.{request_axes}
use nordicintel_storage_api.Domain.Remap.Correct.{remap_cell_index-address}
use nordicintel_storage_api.Domain.Remap.Distinct.{remap_cell_index-inj}
use nordicintel_storage_api.Tests.Samples.{
  plain, code_of, sample_ids, sexes, years, sample_dimensions,
}

categories_run :
    parse_categories plain years.index
    ≡ ok (code_of (codes "2024") ∷ code_of (codes "2025") ∷ code_of (codes "2026") ∷ [])
unfolding parse_categories normalize_code
categories_run = refl

parse_categories-IsLayout_example :
    IsLayout plain years.index
      (code_of (codes "2024") ∷ code_of (codes "2025") ∷ code_of (codes "2026") ∷ [])
parse_categories-IsLayout_example = parse_categories-IsLayout plain years.index _ categories_run

structure_run :
    parse_request_dimensions plain sample_ids
      ((codes "sex", sexes) ∷ (codes "year", years) ∷ [])
      (pos 1_000_000)
    ≡ ok (sample_dimensions, pos 6)
unfolding parse_request_dimensions normalize_code checked_product wrap64
structure_run = refl

parse_request_dimensions-IsStructure_example :
    IsStructure plain sample_ids
      ((codes "sex", sexes) ∷ (codes "year", years) ∷ [])
      1_000_000
      sample_dimensions
      (pos 6)
parse_request_dimensions-IsStructure_example =
    parse_request_dimensions-IsStructure plain sample_ids _ 1_000_000 sample_dimensions (pos 6)
      (omega arith) (omega arith) structure_run

keys_differ : (a b : Bytes) → bytes_beq a b ≡ false → a ≢ b
keys_differ a b h e = ground (arith, bytes_beq_iff a b)

pub sample-IsRequest : IsRequest sample_dimensions
unfolding product
sample-IsRequest = record {
  distinct = ((keys_differ _ _ refl, tt), (tt, tt));
  categories = (
    ((keys_differ _ _ refl, (keys_differ _ _ refl, tt)), ((keys_differ _ _ refl, tt), (tt, tt))),
    (((keys_differ _ _ refl, tt), (tt, tt)), tt),
  );
  cube = record { all_pos = (omega arith, (omega arith, tt)); fits = omega arith };
}

remap_cell_index-address_example :
    (s : ℕ) × (remap_cell_index
        (targets (stored_dimensions sample_dimensions))
        (pos 1)
        sample_dimensions
        (map pos (sizes sample_dimensions))
        (strides (map pos (sizes sample_dimensions)))
      ≡ ok (pos s))
    × (s < product (cube_sizes (stored_dimensions sample_dimensions)))
    × ((k : Bytes)
        → address
            (dimension_axes (stored_dimensions sample_dimensions))
            (unrank s (cube_sizes (stored_dimensions sample_dimensions)))
            k
          ≡ address (request_axes sample_dimensions) (unrank 1 (sizes sample_dimensions)) k)
remap_cell_index-address_example =
    remap_cell_index-address sample_dimensions 1 sample-IsRequest (unfold product in omega arith)

remap_run :
    remap_cell_index
      (targets (stored_dimensions sample_dimensions))
      (pos 1)
      sample_dimensions
      (map pos (sizes sample_dimensions))
      (strides (map pos (sizes sample_dimensions)))
    ≡ ok (pos 0)
unfolding remap_cell_index targets stored_dimensions sort strides wrap64
remap_run = refl

remap_cell_index-inj_example : ◌≡◌ {A = ℕ} 1 1
remap_cell_index-inj_example =
    remap_cell_index-inj sample_dimensions 1 1 (pos 0) sample-IsRequest
      (unfold product in omega arith) (unfold product in omega arith) remap_run remap_run
