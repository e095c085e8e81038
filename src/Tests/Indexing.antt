-- ===== src/Tests/Indexing.antt =====
-- internal/domain/index.go and normalize.go on concrete inputs.
use nordicintel_storage_api.Prelude.{
  ℕ, ◌≡◌, ◌↔◌, ◌≢◌, ◌<◌, ◌≤◌, refl, pos, negsuc, List, [], ◌∷◌, map, ok, err, arith, wrap64, codes,
  length,
}
use nordicintel_storage_api.Domain.Model.{max_code_bytes}
use nordicintel_storage_api.Domain.Index.{
  checked_product, strides, coordinates, cell_index, cell_limit, outside_cube,
}
use nordicintel_storage_api.Domain.Index.Spec.{product, unrank, rank, AllPos, InBox}
use nordicintel_storage_api.Domain.Index.Agreement.{IsCube}
use nordicintel_storage_api.Domain.Index.Product.{checked_product_iff, checked_product-over}
use nordicintel_storage_api.Domain.Index.RoundTrip.{
  coordinates_iff, cell_index_iff, coordinates-cell_index,
}
use nordicintel_storage_api.Domain.Normalize.{
  normalize_code, max_normalization_rounds, normalization_round,
}
use nordicintel_storage_api.Domain.Normalize.Laws.{
  rounds, normalize_code_iff, normalize_code_idempotent,
}
use nordicintel_storage_api.Tests.Samples.{plain, code_of}

abbrev shape : List ℕ
shape = 2 ∷ 3 ∷ []

shape-IsCube : IsCube shape
unfolding product
shape-IsCube = record { all_pos = omega arith; fits = omega arith }

index_runs :
    (strides (map pos shape) ≡ pos 3 ∷ pos 1 ∷ [])
    × (coordinates (pos 5) (map pos shape) (strides (map pos shape)) ≡ ok (pos 1 ∷ pos 2 ∷ []))
    × (coordinates (pos 6) (map pos shape) (strides (map pos shape)) ≡ err outside_cube)
    × (coordinates (negsuc 0) (map pos shape) (strides (map pos shape)) ≡ err outside_cube)
    × (cell_index (pos 1 ∷ pos 2 ∷ []) (map pos shape) (strides (map pos shape)) ≡ ok (pos 5))
    × (checked_product (map pos shape) (pos 6) ≡ ok (pos 6))
    × (checked_product (map pos shape) (pos 5) ≡ err (cell_limit (pos 5)))
unfolding strides coordinates cell_index checked_product wrap64
index_runs = (refl, refl, refl, refl, refl, refl, refl)

checked_product_iff_example : (checked_product (map pos shape) (pos 6) ≡ ok (pos 6)) ↔ (
    (ns : List ℕ) × (map pos shape ≡ map pos ns)
    × (ns ≢ [])
    × AllPos ns
    × (product ns ≤ 6)
    × (pos 6 ≡ pos (product ns)))
checked_product_iff_example =
    checked_product_iff (map pos shape) 6 (pos 6) (omega arith) (omega arith)

checked_product-over_example : checked_product (map pos shape) (pos 5) ≡ err (cell_limit (pos 5))
checked_product-over_example =
    checked_product-over shape 5 (omega arith) (omega arith) (omega arith)
      (unfold product in omega arith)

coordinates_iff_example :
    (coordinates (pos 5) (map pos shape) (strides (map pos shape)) ≡ ok (pos 1 ∷ pos 2 ∷ [])) ↔ (
      (i : ℕ) × (pos 5 ≡ pos i)
      × (i < product shape)
      × (pos 1 ∷ pos 2 ∷ [] ≡ map pos (unrank i shape)))
coordinates_iff_example = coordinates_iff shape (pos 5) (pos 1 ∷ pos 2 ∷ []) shape-IsCube (cc)

cell_index_iff_example :
    (cell_index (pos 1 ∷ pos 2 ∷ []) (map pos shape) (strides (map pos shape)) ≡ ok (pos 5)) ↔ (
      (cs : List ℕ) × (pos 1 ∷ pos 2 ∷ [] ≡ map pos cs)
      × InBox cs shape
      × (pos 5 ≡ pos (rank cs shape)))
cell_index_iff_example = cell_index_iff shape (pos 1 ∷ pos 2 ∷ []) (pos 5) shape-IsCube

coordinates-cell_index_example :
    (coordinates (pos 5) (map pos shape) (strides (map pos shape)) ≡ ok (pos 1 ∷ pos 2 ∷ []))
    ↔ (cell_index (pos 1 ∷ pos 2 ∷ []) (map pos shape) (strides (map pos shape)) ≡ ok (pos 5))
coordinates-cell_index_example =
    coordinates-cell_index shape (pos 5) (pos 1 ∷ pos 2 ∷ []) shape-IsCube (cc)

normalizes : normalize_code plain (codes "sex") ≡ ok (code_of (codes "sex"))
unfolding normalize_code
normalizes = refl

normalize_code_iff_example : (normalize_code plain (codes "sex") ≡ ok (code_of (codes "sex"))) ↔ (
    (codes "sex" ≡ codes "sex")
    × (length (codes "sex") ≤ max_code_bytes)
    × ((n : ℕ) × (n < max_normalization_rounds) × (rounds plain n (codes "sex") ≡ codes "sex"))
    × (normalization_round plain (codes "sex") ≡ codes "sex")
    × (codes "sex" ≢ [])
    × (length (codes "sex") ≤ max_code_bytes))
normalize_code_iff_example = normalize_code_iff plain (codes "sex") (code_of (codes "sex"))

normalize_code_idempotent_example : normalize_code plain (codes "sex") ≡ ok (code_of (codes "sex"))
normalize_code_idempotent_example =
    normalize_code_idempotent plain (codes "sex") (code_of (codes "sex")) normalizes
