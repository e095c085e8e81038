-- ===== src/Domain/Index/RoundTrip.antt =====
-- `Coordinates` and `CellIndex` are characterised on every int64, and undo one another.
use nordicintel_storage_api.Prelude.{
  ℕ, ◌<◌, ◌≡◌, ◌≢◌, ◌↔◌, refl, sym, ◌∙◌, ap, List, [], map, ℤ, pos, negsuc, ltb, ltb→lt, ltb→ge,
  Bool-cases, inl, inr, ok, ok-inj, ok-ne-err,
}
use nordicintel_storage_api.Domain.Index.{strides, coordinates, cell_index}
use nordicintel_storage_api.Domain.Index.Spec.{
  product, rank, unrank, InBox, rank-lt-product, unrank-InBox, rank-unrank, unrank-rank,
}
use nordicintel_storage_api.Domain.Index.Agreement.{IsCube}
use nordicintel_storage_api.Domain.Index.Bounds.{
  coordinates-inside, coordinates-outside, coordinates-negative, cell_index-inside,
  cell_index-InBox,
}

coordinates_sound :
    (ns : List ℕ) (index : ℤ) (coords : List ℤ)
    → IsCube ns
    → ns ≢ []
    → coordinates index (map pos ns) (strides (map pos ns)) ≡ ok coords
    → (i : ℕ) × (index ≡ pos i) × (i < product ns) × (coords ≡ map pos (unrank i ns))
coordinates_sound ns (negsuc k) coords cube ne e =
    absurd (ok-ne-err (sym (coordinates-negative ns cube k ne) ∙ e))
coordinates_sound ns (pos k) coords cube ne e = elim (Bool-cases (ltb k (product ns))) [
  | inl below ↦
      let lt = ltb→lt _ _ below in (k, refl, lt, ok-inj (sym e ∙ coordinates-inside ns cube k lt))
  | inr above ↦ absurd (ok-ne-err (sym (coordinates-outside ns cube k ne (ltb→ge _ _ above)) ∙ e))
]

-- In a cube of at least one dimension whose cells an int64 can count, `Coordinates` accepts exactly
-- the indexes from 0 to below the number of cells, and returns their row-major decomposition.
pub coordinates_iff :
    (ns : List ℕ) (index : ℤ) (coords : List ℤ)
    → IsCube ns
    → ns ≢ []
    → (coordinates index (map pos ns) (strides (map pos ns)) ≡ ok coords)
      ↔ ((i : ℕ) × (index ≡ pos i) × (i < product ns) × (coords ≡ map pos (unrank i ns)))
coordinates_iff ns index coords cube ne = (
  coordinates_sound ns index coords cube ne,
  λ (i, same, lt, shape). rw (same, shape) (coordinates-inside ns cube i lt),
)

-- In a cube whose cells an int64 can count, `CellIndex` accepts exactly the coordinate lists that have a coordinate from 0 to
-- below the size for each dimension, and returns their row-major index.
pub cell_index_iff :
    (ns : List ℕ) (coords : List ℤ) (index : ℤ)
    → IsCube ns
    → (cell_index coords (map pos ns) (strides (map pos ns)) ≡ ok index)
      ↔ ((cs : List ℕ) × (coords ≡ map pos cs) × InBox cs ns × (index ≡ pos (rank cs ns)))
cell_index_iff ns coords index cube = (
  λ e.
      let (cs, same, inside) = cell_index-InBox ns cube coords index e in
      (cs, same, inside, ok-inj (sym (rw same at e) ∙ cell_index-inside ns cube cs inside)),
  λ (cs, same, inside, value). rw (same, value) (cell_index-inside ns cube cs inside),
)

-- `Coordinates` and `CellIndex` undo one another: in a cube of at least
-- one dimension whose cells an int64 can count, an
-- index has given coordinates exactly when these coordinates have that index.
pub coordinates-cell_index :
    (ns : List ℕ) (index : ℤ) (coords : List ℤ)
    → IsCube ns
    → ns ≢ []
    → (coordinates index (map pos ns) (strides (map pos ns)) ≡ ok coords)
      ↔ (cell_index coords (map pos ns) (strides (map pos ns)) ≡ ok index)
coordinates-cell_index ns index coords cube ne = (
  λ e.
      let (i, same, lt, shape) = (coordinates_iff ns index coords cube ne).0 e in
      (cell_index_iff ns coords index cube).1 (
        unrank i ns,
        shape,
        unrank-InBox i ns cube.all_pos lt,
        same ∙ ap pos (sym (rank-unrank i ns cube.all_pos lt)),
      ),
  λ e.
      let (cs, same, inside, value) = (cell_index_iff ns coords index cube).0 e in
      (coordinates_iff ns index coords cube ne).1 (
        rank cs ns,
        value,
        rank-lt-product cs ns inside,
        same ∙ ap (map pos) (sym (unrank-rank cs ns inside)),
      ),
)
