-- ===== src/Tests/Selecting.antt =====
-- A selection of the sample cube.
use nordicintel_storage_api.Prelude.{
  ◌<◌, arith, ℕ, ◌≡◌, refl, pos, codes, List, [], ◌∷◌, ok, wrap64, sort, insert_all,
}
use nordicintel_storage_api.Domain.Model.{SelectionDimension, Code, Category, Dimension, Selection}
use nordicintel_storage_api.Domain.Index.{checked_product, strides, coordinates, cell_index}
use nordicintel_storage_api.Domain.Axes.{
  address, cube_sizes, IsStored, dimension_axes, DimensionsFrom,
}
use nordicintel_storage_api.Domain.Remap.{stored_dimensions}
use nordicintel_storage_api.Domain.Selection.{resolve_selection}
use nordicintel_storage_api.Domain.Selection.Correct.{resolve_selection-address}
use nordicintel_storage_api.Domain.Index.Spec.{product, unrank}
use nordicintel_storage_api.Domain.Remap.Stored.{stored_dimensions-IsStored}
use nordicintel_storage_api.Tests.Structures.{sample-IsRequest}
use nordicintel_storage_api.Domain.Selection.Output.{
  selected_axes, resolve_selection-dimension_axes,
}
use nordicintel_storage_api.Tests.Samples.{code_of, sample_dimensions}

abbrev selected_sex : SelectionDimension
selected_sex = record {
  code = code_of (codes "sex");
  categories = code_of (codes "F") ∷ code_of (codes "M") ∷ [];
}

abbrev pub sample_selection : Selection
sample_selection = record {
  dimensions =
      record { code = code_of (codes "year"); categories = code_of (codes "2025") ∷ [] }
      ∷ selected_sex
      ∷ [];
}

abbrev category_of : Code → ℕ → Category
category_of code n = record { code = code; position = pos n }

abbrev pub sample_output : List Dimension
sample_output =
    record {
      code = code_of (codes "year");
      position = pos 0;
      categories = category_of (code_of (codes "2025")) 0 ∷ [];
    }
    ∷ record {
      code = code_of (codes "sex");
      position = pos 1;
      categories = category_of (code_of (codes "F")) 0 ∷ category_of (code_of (codes "M")) 1 ∷ [];
    }
    ∷ []

pub selection_run :
    resolve_selection sample_selection (stored_dimensions sample_dimensions) (pos 100)
    ≡ ok (sample_output, pos 1 ∷ pos 4 ∷ [])
unfolding resolve_selection stored_dimensions checked_product strides coordinates cell_index wrap64
    sort insert_all
selection_run = refl

resolve_selection-dimension_axes_example :
    (dimension_axes sample_output ≡ selected_axes sample_selection.dimensions)
    × DimensionsFrom 0 sample_output
resolve_selection-dimension_axes_example =
    resolve_selection-dimension_axes sample_selection (stored_dimensions sample_dimensions)
      (pos 100) sample_output (pos 1 ∷ pos 4 ∷ []) selection_run

pub sample-IsStored : IsStored (stored_dimensions sample_dimensions)
sample-IsStored = stored_dimensions-IsStored sample_dimensions sample-IsRequest

resolve_selection-address_example :
    (s : ℕ) × (pos 4 ≡ pos s)
    × (s < product (cube_sizes (stored_dimensions sample_dimensions)))
    × (1 < product (cube_sizes sample_output))
    × (address
          (dimension_axes (stored_dimensions sample_dimensions))
          (unrank s (cube_sizes (stored_dimensions sample_dimensions)))
          (codes "sex")
        ≡ address
            (dimension_axes sample_output)
            (unrank 1 (cube_sizes sample_output))
            (codes "sex"))
resolve_selection-address_example =
    resolve_selection-address sample_selection (stored_dimensions sample_dimensions) 100
      sample_output (pos 1 ∷ pos 4 ∷ []) 1 (pos 4) 1 selected_sex sample-IsStored (omega arith)
      (omega arith) selection_run refl refl
