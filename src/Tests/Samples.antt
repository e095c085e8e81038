-- ===== src/Tests/Samples.antt =====
-- Sample values that the tests share. The sample tables of Unicode leave a text as it is.
use nordicintel_storage_api.Prelude.{pos, Bytes, codes, List, [], ◌∷◌}
use nordicintel_storage_api.Domain.Model.{Code}
use nordicintel_storage_api.Domain.Normalize.{Unicode}
use nordicintel_storage_api.Domain.Structure.{DimensionPayload, RequestDimension}

abbrev pub plain : Unicode
plain = record { trim_space = λ s. s; nfkc = λ s. s; fold = λ s. s }

abbrev pub code_of : Bytes → Code
code_of s = record { spelling = s; key = s }

-- The structure of the API guide's example: sex by year, with the sexes out of key order.
abbrev pub sample_ids : List Bytes
sample_ids = codes "year" ∷ codes "sex" ∷ []

abbrev pub sexes : DimensionPayload
sexes = record { index = (codes "M", pos 0) ∷ (codes "F", pos 1) ∷ [] }

abbrev pub years : DimensionPayload
years = record {
  index = (codes "2025", pos 1) ∷ (codes "2024", pos 0) ∷ (codes "2026", pos 2) ∷ [];
}

abbrev pub sample_dimensions : List RequestDimension
sample_dimensions =
    record {
      code = code_of (codes "year");
      categories = code_of (codes "2024") ∷ code_of (codes "2025") ∷ code_of (codes "2026") ∷ [];
    }
    ∷ record {
      code = code_of (codes "sex");
      categories = code_of (codes "M") ∷ code_of (codes "F") ∷ [];
    }
    ∷ []
