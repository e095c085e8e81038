-- ===== src/Domain/Remap/Accepted.antt =====
-- An accepted request structure is one that remapping handles.
use nordicintel_storage_api.Prelude.{ℕ, ℤ, Bytes, List, [], ◌∷◌, All, Distinct}
use nordicintel_storage_api.Domain.Normalize.{Unicode}
use nordicintel_storage_api.Domain.Structure.{DimensionPayload, RequestDimension}
use nordicintel_storage_api.Domain.Structure.Laws.{AllDeclared, IsStructure}
use nordicintel_storage_api.Domain.Remap.Stored.{IsRequest, code_keys}

module _ (u : Unicode) (payload : List (Bytes × DimensionPayload)) where
  Distinct-categories :
      (ids : List Bytes) (ds : List RequestDimension)
      → AllDeclared u payload ids ds
      → All (λ (d : RequestDimension). Distinct (code_keys d.categories)) ds
  Distinct-categories [] [] h = tt
  Distinct-categories [] (d ∷ ds) h = elim h [ ]
  Distinct-categories (id ∷ ids) [] h = elim h [ ]
  Distinct-categories (id ∷ ids) (d ∷ ds) (p, h) = (p.layout.distinct, Distinct-categories ids ds h)

  pub IsStructure-IsRequest :
      (ids : List Bytes) (limit : ℕ) (ds : List RequestDimension) (count : ℤ)
      → IsStructure u ids payload limit ds count
      → IsRequest ds
  IsStructure-IsRequest ids limit ds count s = record {
    distinct = s.distinct;
    categories = Distinct-categories ids ds s.declared;
    cube = s.cube;
  }
