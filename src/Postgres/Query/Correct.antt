-- ===== src/Postgres/Query/Correct.antt =====
-- What `Query` of internal/store/postgres.go returns.
use mathlib.Core.Path.{ap₂}
use nordicintel_storage_api.Prelude.{
  Bytes, ℕ, suc, ℤ, int_eq, nat_eq, eq_ℤ, ==_refl, ==_of_ne, ◌≡◌, ◌≢◌, ap, sym, refl, subst, ◌∙◌,
  Bool-cases, inl, inr, Option, none, some, List, [], ◌∷◌, ◌++◌, map, Has, Has-append, Has-of_map,
  Distinct, Distinct-inj, find_by, find_by-append, find_by-none, ok, arith,
}
use nordicintel_storage_api.Domain.Model.{Cell, Code, Dimension, Replacement, Selection, Summary}
use nordicintel_storage_api.Domain.Selection.{resolve_selection}
use nordicintel_storage_api.Postgres.Tables.{
  ProviderRow, DatasetRow, ObservationRow, Tables, find_identity, summary_of, load_structure,
}
use nordicintel_storage_api.Postgres.Statements.{
  Backend, Statement, begin, commit, select_summary, select_dimension_rows, select_category_rows,
}
use nordicintel_storage_api.Postgres.Replace.{observation_row, replace}
use nordicintel_storage_api.Postgres.Integrity.{IsDatabase}
use nordicintel_storage_api.Postgres.RoundTrip.{replace-Readable}
use nordicintel_storage_api.Prelude.{IsSorted}
use nordicintel_storage_api.Domain.Axes.{IsStored}
use nordicintel_storage_api.Domain.Remap.{cell_less}
use nordicintel_storage_api.Postgres.Reads.{summary_and_id}
use nordicintel_storage_api.Postgres.Query.{query, query_batch_size}
use nordicintel_storage_api.Postgres.Query.Batches.{
  cells_at, cells_found, cell_of, is_cell, HasKey, batches-eq,
}

-- Without a fault, `Query` of a dataset returns its summary, the dimensions that `ResolveSelection`
-- makes of its structure, and the cells that one selection per stored index finds, numbered by the
-- places of the output.
pub query-cells_at :
    (e : Backend) (provider dataset : Code) (selection : Selection) (max_cells : ℤ) (t : Tables)
    (p : ProviderRow) (d : DatasetRow) (stored dimensions : List Dimension) (indices : List ℤ)
    → HasKey d.id t.observations
    → ((s : Statement) → e.fault s t ≡ none)
    → find_identity t provider.key dataset.key ≡ some (p, d)
    → load_structure d.id t.dimensions t.categories ≡ ok stored
    → resolve_selection selection stored max_cells ≡ ok (dimensions, indices)
    → query e provider dataset selection max_cells t
      ≡ ok (record {
        summary = summary_of p d;
        dimensions = dimensions;
        cells = cells_at d.id t.observations 0 indices;
      })
unfolding query summary_and_id
query-cells_at e provider dataset selection max_cells t p d stored dimensions indices key runs found
      structure resolved =
    let (cells, ends, same) = batches-eq e t d.id query_batch_size (omega arith) key runs indices in
    rw
      (
        runs begin,
        runs select_summary,
        found,
        runs select_dimension_rows,
        runs select_category_rows,
        structure,
        resolved,
        ends,
        runs commit,
        same,
      )
      refl

-- The cells of a list at some indices, numbered from `i`.
abbrev pub selected_cells : List Cell → ℕ → List ℤ → List Cell
selected_cells cells i indices =
    cells_found (λ (index : ℤ). find_by (λ (c : Cell). eq_ℤ c.index index) cells) i indices

cells_found-ext :
    (f g : ℤ → Option Cell) (i : ℕ) (indices : List ℤ)
    → ((index : ℤ) → f index ≡ g index)
    → cells_found f i indices ≡ cells_found g i indices
cells_found-ext f g i [] same = refl
cells_found-ext f g i (index ∷ indices) same =
    rw (same index, cells_found-ext f g (suc i) indices same) refl

find_row :
    (id : ℕ) (index : ℤ) (cells : List Cell)
    → cell_of (find_by (is_cell id index) (map (observation_row id) cells))
      ≡ find_by (λ (c : Cell). eq_ℤ c.index index) cells
find_row id index [] = refl
find_row id index (c ∷ cells) = elim (Bool-cases (eq_ℤ c.index index)) [
  | inl here ↦ rw (==_refl id, here) refl
  | inr other ↦ rw (==_refl id, other) (find_row id index cells)
]

module _ (id : ℕ) (older : List ObservationRow) (cells : List Cell)
    (not_older : (o : ObservationRow) → Has o older → o.dataset_id ≢ id) where
  stored-HasKey :
      Distinct (map (λ (c : Cell). c.index) cells)
      → HasKey id (older ++ map (observation_row id) cells)
  stored-HasKey distinct a b ha hb mine mine' same =
      let (c, hc, from) = of_cells a ha mine in
      let (d, hd, from') = of_cells b hb mine' in
      sym from
      ∙ ap (observation_row id) (
          Distinct-inj (λ (c : Cell). c.index) cells c d distinct hc hd
            (ap (λ (o : ObservationRow). o.cell_index) from
              ∙ same
              ∙ sym (ap (λ (o : ObservationRow). o.cell_index) from')))
      ∙ from'
    where
      of_cells :
          (o : ObservationRow)
          → Has o (older ++ map (observation_row id) cells)
          → o.dataset_id ≡ id
          → (c : Cell) × Has c cells × (observation_row id c ≡ o)
      of_cells o h mine = elim (Has-append o older (map (observation_row id) cells) h) [
        | inl old ↦ absurd (not_older o old mine)
        | inr new ↦ Has-of_map (observation_row id) o cells new
      ]

  find_cell :
      (index : ℤ)
      → find_by (is_cell id index) (older ++ map (observation_row id) cells)
        ≡ find_by (is_cell id index) (map (observation_row id) cells)
  find_cell index =
      find_by-append (is_cell id index) older (map (observation_row id) cells)
      ∙ rw
          (find_by-none (is_cell id index) older
            (λ o at. rw (==_of_ne o.dataset_id id (not_older o at)) refl))
          refl

-- After `Replace` has reported a summary, `Query` of the same identity returns it, with the dimensions
-- that `ResolveSelection` makes of those of the replacement, and with the cells of the replacement at
-- the indices that it resolves, numbered by the places of the output. The tables are those of a
-- database, the dimensions of the replacement are a stored structure, its cells are sorted and have distinct
-- indices, no statement of the read fails, and the selection resolves.
pub replace-query :
    (e reads : Backend) (r : Replacement) (t t' : Tables) (result : Bytes) (s : Summary)
    (selection : Selection) (max_cells : ℤ) (dimensions : List Dimension) (indices : List ℤ)
    → IsDatabase t
    → IsStored r.dimensions
    → IsSorted cell_less r.cells
    → Distinct (map (λ (c : Cell). c.index) r.cells)
    → replace e r t ≡ (ok (result, s), t')
    → ((statement : Statement) → reads.fault statement t' ≡ none)
    → resolve_selection selection r.dimensions max_cells ≡ ok (dimensions, indices)
    → query reads r.provider r.dataset selection max_cells t'
      ≡ ok (record {
        summary = s;
        dimensions = dimensions;
        cells = selected_cells r.cells 0 indices;
      })
replace-query e reads r t t' result s selection max_cells dimensions indices w is_stored sorted
      distinct h runs resolved =
    let z = replace-Readable e r t t' result s w is_stored sorted h in
    let o = z.stored in
    let key =
      subst (HasKey z.d.id) (sym o.observations)
        (stored-HasKey z.d.id o.older r.cells o.not_older distinct) in
    let cells : cells_at z.d.id t'.observations 0 indices ≡ selected_cells r.cells 0 indices =
      ap (λ rows. cells_at z.d.id rows 0 indices) o.observations
      ∙ cells_found-ext _ _ 0 indices (λ index.
        ap cell_of (find_cell z.d.id o.older r.cells o.not_older index)
        ∙ find_row z.d.id index r.cells) in
    query-cells_at reads r.provider r.dataset selection max_cells t' z.p z.d r.dimensions dimensions
      indices key runs z.found o.structure resolved
    ∙ ap₂
        (λ (v : Summary) (cs : List Cell).
          ok (record { summary = v; dimensions = dimensions; cells = cs }))
        z.summarised cells
