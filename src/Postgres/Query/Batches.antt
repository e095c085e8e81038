-- ===== src/Postgres/Query/Batches.antt =====
-- `Query` of internal/store/postgres.go in batches selects what one selection per cell would.
use mathlib.Core.Path.{ap₂}
use nordicintel_storage_api.Prelude.{
  and_parts, ℕ, zero, suc, ◌+◌, ◌≤◌, ◌<◌, ℤ, pos, int_eq, nat_eq, eq_ℤ, eq_of_==, ==_refl, ◌≡◌, ap,
  sym, refl, subst, ◌∙◌, Bool, true, ◌&&◌, nat_beq, Bool-cases, inl, inr, Option, none, some,
  some-inj, Option-cases, List, [], ◌∷◌, length, get_elem?, lt_of_get_elem?, ltb, ltb→lt, ltb→ge,
  contains, contains_of_Has, lookup, insert_all-found, insert_all-Has, insert_all-IsIn, IsIn, Has,
  Has-filter_by, Has-filter_by_kept, filter_by, find_by, find_by-Has, find_by-of_Has, ok, arith,
}
use nordicintel_storage_api.Domain.Model.{Cell}
use nordicintel_storage_api.Postgres.Tables.{ObservationRow, scan_cell, Tables}
use nordicintel_storage_api.Postgres.Statements.{Backend, Statement, select_batch}
use nordicintel_storage_api.Postgres.Query.{slice, store_batch, store_batches, output_cells}

abbrev pub is_cell : ℕ → ℤ → ObservationRow → Bool
is_cell id index o = nat_beq o.dataset_id id && eq_ℤ o.cell_index index

abbrev pub number_cell : Option Cell → ℕ → List Cell → List Cell
number_cell none i rest = rest
number_cell (some c) i rest = record c { index = pos i } ∷ rest

-- The cells that are found at some indices, one by one, numbered from `i`.
abbrev pub cells_found : (ℤ → Option Cell) → ℕ → List ℤ → List Cell
cells_found find i [] = []
cells_found find i (index ∷ indices) = number_cell (find index) i (cells_found find (suc i) indices)

abbrev pub cell_of : Option ObservationRow → Option Cell
cell_of none = none
cell_of (some o) = some (scan_cell o)

-- The cells of a dataset among the rows.
abbrev pub cells_at : ℕ → List ObservationRow → ℕ → List ℤ → List Cell
cells_at id rows i indices =
    cells_found (λ (index : ℤ). cell_of (find_by (is_cell id index) rows)) i indices

-- The primary key of storage.observations, for the rows of one dataset.
abbrev pub HasKey : ℕ → List ObservationRow → Type 0
HasKey id rows =
    (a b : ObservationRow)
    → Has a rows
    → Has b rows
    → a.dataset_id ≡ id
    → b.dataset_id ≡ id
    → a.cell_index ≡ b.cell_index
    → a ≡ b

slice-Has :
    (indices : List ℤ) (start n k : ℕ) (i : ℤ)
    → start ≤ k
    → k < start + n
    → get_elem? indices k ≡ some i
    → Has i (slice indices start n)
slice-Has [] start n k i le lt at = absurd (cc)
slice-Has (x ∷ indices) (suc start) n zero i le lt at = absurd (omega arith)
slice-Has (x ∷ indices) (suc start) n (suc k) i le lt at =
    slice-Has indices start n k i (omega arith) (omega arith) at
slice-Has (x ∷ indices) zero zero k i le lt at = absurd (omega arith)
slice-Has (x ∷ indices) zero (suc n) zero i le lt at = (0, at)
slice-Has (x ∷ indices) zero (suc n) (suc k) i le lt at =
    let (j, here) = slice-Has indices 0 n k i (omega arith) (omega arith) at in (suc j, here)

module _ (id : ℕ) (rows : List ObservationRow) (key : HasKey id rows) where
  -- An entry of the map is the cell of the dataset at its index.
  pub IsSound : List (ℤ × Cell) → Type 0
  IsSound stored =
      (i : ℤ) (c : Cell)
      → lookup i stored ≡ some c
      → (o : ObservationRow) × (find_by (is_cell id i) rows ≡ some o) × (scan_cell o ≡ c)

  is_cell-parts :
      (i : ℤ) (o : ObservationRow)
      → is_cell id i o ≡ true
      → (o.dataset_id ≡ id) × (o.cell_index ≡ i)
  is_cell-parts i o h =
      let (same_id, same_index) = and_parts (nat_beq o.dataset_id id) (eq_ℤ o.cell_index i) h in
      (eq_of_== o.dataset_id id same_id, eq_of_== o.cell_index i same_index)

  -- The row of the dataset with an index is the one that is found.
  found_row :
      (i : ℤ) (o : ObservationRow)
      → Has o rows
      → o.dataset_id ≡ id
      → o.cell_index ≡ i
      → find_by (is_cell id i) rows ≡ some o
  found_row i o here same_id same_index =
      let (o', found) =
        find_by-of_Has (is_cell id i) rows o here
          (rw (same_id, same_index, ==_refl id, ==_refl i) refl) in
      let (here', passed) = find_by-Has (is_cell id i) rows o' found in
      let (same_id', same_index') = is_cell-parts i o' passed in
      found ∙ ap some (key o' o here' here same_id' same_id (same_index' ∙ sym same_index))

  store_batch-IsSound :
      (batch : List ℤ) (stored : List (ℤ × Cell))
      → IsSound stored
      → IsSound (store_batch id rows batch stored)
  unfolding store_batch IsSound
  store_batch-IsSound batch stored s i c h =
      let wanted = λ (o : ObservationRow). nat_beq o.dataset_id id && contains o.cell_index batch in
      elim (insert_all-found (λ (o : ObservationRow). o.cell_index) scan_cell
        (filter_by wanted rows) stored i c h) [
          | inr old ↦ s i c old
          | inl (k, o, at, same_index, same_cell) ↦
              let (here, passed) = Has-filter_by wanted o rows (k, at) in
              let (same_id, _) =
                and_parts (nat_beq o.dataset_id id) (contains o.cell_index batch) passed in
              (o, found_row i o here (eq_of_== o.dataset_id id same_id) same_index, same_cell)
        ]

  -- A cell of the dataset at an index of the batch has an entry.
  store_batch-IsIn :
      (batch : List ℤ) (stored : List (ℤ × Cell)) (i : ℤ) (o : ObservationRow)
      → Has i batch
      → find_by (is_cell id i) rows ≡ some o
      → IsIn i (store_batch id rows batch stored)
  unfolding store_batch
  store_batch-IsIn batch stored i o at found =
      let (here, passed) = find_by-Has (is_cell id i) rows o found in
      let (same_id, same_index) = is_cell-parts i o passed in
      let wanted = λ (o : ObservationRow). nat_beq o.dataset_id id && contains o.cell_index batch in
      subst (λ k. IsIn k (store_batch id rows batch stored)) same_index
        (insert_all-Has (λ (o : ObservationRow). o.cell_index) scan_cell o (filter_by wanted rows)
          stored
          (Has-filter_by_kept wanted o rows here
            (rw (same_id, same_index, ==_refl id, contains_of_Has i batch at) refl)))

  -- The entries of the indices before place `n` are there.
  abbrev pub IsComplete : List ℤ → ℕ → List (ℤ × Cell) → Type 0
  IsComplete indices n stored =
      (k : ℕ) (i : ℤ) (o : ObservationRow)
      → k < n
      → get_elem? indices k ≡ some i
      → find_by (is_cell id i) rows ≡ some o
      → IsIn i stored

  store_batch-IsComplete :
      (indices : List ℤ) (start size : ℕ) (stored : List (ℤ × Cell))
      → IsComplete indices start stored
      → IsComplete indices (start + size) (store_batch id rows (slice indices start size) stored)
  unfolding store_batch
  store_batch-IsComplete indices start size stored w k i o lt at found =
      elim (Bool-cases (ltb k start)) [
        | inl before ↦
            let wanted = λ (o : ObservationRow).
              nat_beq o.dataset_id id && contains o.cell_index (slice indices start size) in
            insert_all-IsIn (λ (o : ObservationRow). o.cell_index) scan_cell i
              (filter_by wanted rows) stored (w k i o (ltb→lt k start before) at found)
        | inr later ↦
            store_batch-IsIn (slice indices start size) stored i o
              (slice-Has indices start size k i (ltb→ge k start later) lt at) found
      ]

  pub store_batches-eq-ok :
      (e : Backend) (t : Tables) (size : ℕ) (indices : List ℤ) (fuel start : ℕ)
      (stored : List (ℤ × Cell))
      → ((s : Statement) → e.fault s t ≡ none)
      → t.observations ≡ rows
      → 0 < size
      → length indices ≤ start + fuel
      → IsSound stored
      → IsComplete indices start stored
      → (last : List (ℤ × Cell)) × (store_batches e size id t indices fuel start stored ≡ ok last)
        × IsSound last
        × IsComplete indices (length indices) last
  unfolding store_batches
  store_batches-eq-ok e t size indices zero start stored runs same positive enough s w =
      (stored, refl, s, λ k i o lt. w k i o (omega arith))
  store_batches-eq-ok e t size indices (suc fuel) start stored runs same positive enough s w =
      elim (Bool-cases (ltb start (length indices))) [
        | inl more ↦
            let next = store_batch id rows (slice indices start size) stored in
            let (last, ends, s', w') =
              store_batches-eq-ok e t size indices fuel (start + size) next runs same positive
                (omega arith) (store_batch-IsSound (slice indices start size) stored s)
                (store_batch-IsComplete indices start size stored w) in
            (last, rw (more, runs (select_batch start), same) ends, s', w')
        | inr past ↦ (
          stored,
          rw past refl,
          s,
          λ k i o lt. w k i o (omega (arith, ltb→ge start (length indices) past)),
        )
      ]

  pub output_cells-eq :
      (all : List ℤ) (stored : List (ℤ × Cell))
      → IsSound stored
      → IsComplete all (length all) stored
      → (n : ℕ) (indices : List ℤ)
      → ((k : ℕ) (i : ℤ) → get_elem? indices k ≡ some i → get_elem? all (n + k) ≡ some i)
      → output_cells stored n indices ≡ cells_at id rows n indices
  unfolding output_cells IsSound
  output_cells-eq all stored s w n [] inside = refl
  output_cells-eq all stored s w n (i ∷ indices) inside =
      let rest =
        output_cells-eq all stored s w (suc n) indices
          (λ k j at. subst (λ m. get_elem? all m ≡ some j) (omega arith) (inside (suc k) j at)) in
      elim (Option-cases (find_by (is_cell id i) rows)) [
        | inl absent ↦ elim (Option-cases (lookup i stored)) [
          | inl unknown ↦ rw (absent, unknown) rest
          | inr (c, here) ↦ let (o, found, _) = s i c here in absurd (cc)
        ]
        | inr (o, found) ↦
            let place = inside 0 i refl in
            let (c, here) = w (n + 0) i o (lt_of_get_elem? all (n + 0) i place) place found in
            let (o', found', same) = s i c here in
            let one : o' ≡ o = some-inj (sym found' ∙ found) in
            rw (found, here)
              (ap₂ (λ (x : Cell) ys. record x { index = pos n } ∷ ys) (sym same ∙ ap scan_cell one)
                rest)
      ]

module _ (e : Backend) (t : Tables) (id size : ℕ) (positive : 0 < size)
    (key : HasKey id t.observations) (runs : (s : Statement) → e.fault s t ≡ none) where
  -- The loop over the batches from an empty map, and the loop over the indices.
  pub batches-eq :
      (indices : List ℤ)
      → (stored : List (ℤ × Cell)) × (store_batches e size id t indices (length indices) 0 []
          ≡ ok stored)
        × (output_cells stored 0 indices ≡ cells_at id t.observations 0 indices)
  unfolding IsSound
  batches-eq indices =
      let (stored, ends, s, w) =
        store_batches-eq-ok id t.observations key e t size indices (length indices) 0 [] runs refl
          positive (omega arith) (λ i c h. absurd (cc)) (λ k i o lt. absurd (omega arith)) in
      (
        stored,
        ends,
        output_cells-eq id t.observations key indices stored s w 0 indices
            (λ k i at. subst (λ m. get_elem? indices m ≡ some i) (omega arith) at),
      )
