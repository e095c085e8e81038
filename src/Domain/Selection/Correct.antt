-- ===== src/Domain/Selection/Correct.antt =====
-- A resolved selection reads the cells that it asks for.
use mathlib.Core.Path.{ap₂}
use nordicintel_storage_api.Prelude.{
  ℕ, ◌<◌, ◌≤◌, ◌≡◌, refl, sym, ap, ◌∙◌, ℤ, pos, to_ℕ, max_int64, bytes_eq, some, List, [], ◌∷◌, map,
  length, length-map, get_elem?, get_elem?-map, replicate, AllPairs, Distinct, ok, map_err,
  >>=-eq-ok, map_err-eq-ok, ok-inj, Bool-cases, inl, inr, nat_beq, arith,
}
use nordicintel_storage_api.Domain.Remap.Stored.{map-map, code_keys}
use nordicintel_storage_api.Domain.Model.{Code, Dimension, Selection, SelectionDimension}
use nordicintel_storage_api.Domain.Index.{checked_product}
use nordicintel_storage_api.Domain.Index.Spec.{product, rank, unrank, rank-lt-product, unrank-rank}
use nordicintel_storage_api.Domain.Index.Agreement.{IsCube}
use nordicintel_storage_api.Domain.Index.Product.{checked_product_iff}
use nordicintel_storage_api.Domain.Axes.{
  category_keys, address, Along, axis_sizes, dimension_axes, cube_sizes, IsStored,
  axis_sizes-dimension_axes,
}
use nordicintel_storage_api.Domain.Selection.{
  selected_cube, stored_by_key, place_sizes, select_dimensions, stored_index, stored_indices,
  resolve_selection,
}
use nordicintel_storage_api.Domain.Selection.Output.{
  selected_axes, resolve_selection-dimension_axes,
}
use nordicintel_storage_api.Domain.Selection.Targets.{
  IsTarget, selected_keys, select_dimensions-IsTarget,
}
use nordicintel_storage_api.Domain.Selection.Places.{IsHit}
use nordicintel_storage_api.Domain.Selection.Cells.{
  selected_sizes, address_at, Along-at, place_sizes-from, selected_sizes-pos, resolved,
  stored_index-IsHit, stored_indices-get_elem?,
}

-- What the stages of `ResolveSelection` found, read off its success.
record Stages (selection : Selection) (stored : List Dimension) (limit : ℕ)
    (output : List Dimension) (indices : List ℤ) : Type 0 where
  selected : List (List ℤ)
  targets : AllPairs (IsTarget stored) selection.dimensions selected
  distinct : Distinct (selected_keys selection.dimensions)
  cube : IsCube (selected_sizes selection.dimensions)
  in_limit : product (selected_sizes selection.dimensions) ≤ limit
  filled :
      stored_indices
        (resolved stored selection.dimensions selected)
        0
        (product (selected_sizes selection.dimensions))
      ≡ ok indices

pos_list-inj : (ms ns : List ℕ) → map pos ms ≡ map pos ns → ms ≡ ns
pos_list-inj [] [] e = refl
pos_list-inj [] (n ∷ ns) e = cc
pos_list-inj (m ∷ ms) [] e = cc
pos_list-inj (m ∷ ms) (n ∷ ns) e =
    let tails : map pos ms ≡ map pos ns = cc in cc (pos_list-inj ms ns tails)

-- what `CheckedProduct` accepts for the selected sizes
pub checked_selection :
    (requested : List SelectionDimension) (limit : ℕ) (count : ℤ)
    → 1 ≤ limit
    → limit ≤ max_int64
    → checked_product
        (map (λ (d : SelectionDimension). pos (length d.categories)) requested)
        (pos limit)
      ≡ ok count
    → IsCube (selected_sizes requested)
      × (product (selected_sizes requested) ≤ limit)
      × (count ≡ pos (product (selected_sizes requested)))
checked_selection requested limit count low high e =
    let (ns, same, ne, all_pos, fits, value) = (checked_product_iff _ limit count low high).0 e in
    let shape : ns ≡ selected_sizes requested =
      pos_list-inj ns _ (sym same ∙ selected_sizes-pos requested) in
    let cube : IsCube ns = record { all_pos = all_pos; fits = omega arith } in
    (rw shape at cube, rw shape at fits, rw shape at value)

-- the last loop, on what the stages before it found
filled_resolved :
    (stored : List Dimension) (requested : List SelectionDimension) (selected : List (List ℤ))
    (sizes : List ℤ) (count : ℤ) (found indices : List ℤ)
    → sizes ≡ map pos (cube_sizes stored)
    → count ≡ pos (product (selected_sizes requested))
    → found ≡ indices
    → stored_indices
        (record {
          by_key = stored_by_key stored;
          stored_count = length stored;
          stored_sizes = sizes;
          output_sizes = map (λ (d : SelectionDimension). pos (length d.categories)) requested;
          selected = selected;
          requested = requested;
        })
        0
        (to_ℕ count)
      ≡ ok found
    → stored_indices (resolved stored requested selected) 0 (product (selected_sizes requested))
      ≡ ok indices
filled_resolved stored requested selected sizes count found indices same_sizes value same filled =
    rw (same_sizes, selected_sizes-pos, value, same) at filled

resolve_selection-Stages :
    (selection : Selection) (stored : List Dimension) (limit : ℕ) (output : List Dimension)
    (indices : List ℤ)
    → IsStored stored
    → 1 ≤ limit
    → limit ≤ max_int64
    → resolve_selection selection stored (pos limit) ≡ ok (output, indices)
    → Stages selection stored limit output indices
unfolding resolve_selection
resolve_selection-Stages selection stored limit output indices s low high e =
    elim (Bool-cases (nat_beq (length selection.dimensions) (length stored))) [
      | inr other ↦ absurd (cc (rw other at e))
      | inl same_length ↦
          let (sizes, placed, e₁) =
            >>=-eq-ok (place_sizes stored (replicate (length stored) (pos 0))) _
              (rw same_length at e) in
          let ((out, selected), got, e₂) =
            >>=-eq-ok (select_dimensions (stored_by_key stored) 0 selection.dimensions []) _ e₁ in
          let (count, counted, e₃) =
            >>=-eq-ok
              (map_err selected_cube (
                checked_product
                  (map (λ (d : SelectionDimension). pos (length d.categories)) selection.dimensions)
                  (pos limit)))
              _ e₂ in
          let (found, filled, e₄) = >>=-eq-ok (stored_indices _ 0 (to_ℕ count)) _ e₃ in
          let (targets, distinct, _) =
            select_dimensions-IsTarget stored 0 selection.dimensions [] out selected s.categories
              got in
          let (cube, in_limit, value) =
            checked_selection selection.dimensions limit count low high
              (map_err-eq-ok selected_cube _ counted) in
          let same_sizes : sizes ≡ map pos (cube_sizes stored) =
            ok-inj (sym placed ∙ place_sizes-from stored [] s.numbered) in
          let same : found ≡ indices = ap (λ p. p.1) (ok-inj e₄) in
          record {
            selected = selected;
            targets = targets;
            distinct = distinct;
            cube = cube;
            in_limit = in_limit;
            filled =
                filled_resolved stored selection.dimensions selected sizes count found indices
                  same_sizes value same filled;
          }
    ]

-- the two addresses at the key of a requested dimension
same_address :
    (stored output : List Dimension) (requested : List SelectionDimension) (ws cs : List ℕ) (m : ℕ)
    (r : SelectionDimension)
    → IsStored stored
    → dimension_axes output ≡ selected_axes requested
    → Distinct (selected_keys requested)
    → Along (IsHit stored ws) requested cs
    → get_elem? requested m ≡ some r
    → address (dimension_axes stored) ws r.code.key ≡ address (dimension_axes output) cs r.code.key
same_address stored output requested ws cs m r s axes distinct hits at =
    let (c, chosen, hit) = Along-at (IsHit stored ws) requested cs m r hits at in
    let here =
      address_at (dimension_axes stored) ws hit.place hit.category _ s.distinct
        (get_elem?-map (λ (d : Dimension). (d.code.key, category_keys d.categories)) stored
          hit.place hit.dimension hit.at)
        hit.value in
    let there =
      address_at (selected_axes requested) cs m c _ (rw map-map distinct)
        (get_elem?-map (λ (d : SelectionDimension). (d.code.key, code_keys d.categories)) requested
          m r at)
        chosen in
    ap (address (dimension_axes stored) ws) (sym hit.same_key)
    ∙ here
    ∙ hit.same_category
    ∙ sym there
    ∙ ap (λ x. address x cs r.code.key) (sym axes)

cube_sizes-output :
    (output : List Dimension) (requested : List SelectionDimension)
    → dimension_axes output ≡ selected_axes requested
    → cube_sizes output ≡ selected_sizes requested
cube_sizes-output output requested axes =
    sym (axis_sizes-dimension_axes output) ∙ ap axis_sizes axes ∙ axis_sizes-selected requested
  where
    axis_sizes-selected :
        (ds : List SelectionDimension) → axis_sizes (selected_axes ds) ≡ selected_sizes ds
    axis_sizes-selected [] = refl
    axis_sizes-selected (d ∷ ds) =
        ap₂ ◌∷◌ (length-map (λ (x : Code). x.key) d.categories) (axis_sizes-selected ds)

-- A selection that `ResolveSelection` accepts for a stored structure, under a positive limit that an
-- int64 holds, reads the right cells: the stored index that it gives for output cell `j` is one of
-- the stored cube, `j` is one of the output cube, and at the two every requested dimension has the
-- same category key.
pub resolve_selection-address :
    (selection : Selection) (stored : List Dimension) (limit : ℕ) (output : List Dimension)
    (indices : List ℤ) (j : ℕ) (index : ℤ) (m : ℕ) (r : SelectionDimension)
    → IsStored stored
    → 1 ≤ limit
    → limit ≤ max_int64
    → resolve_selection selection stored (pos limit) ≡ ok (output, indices)
    → get_elem? indices j ≡ some index
    → get_elem? selection.dimensions m ≡ some r
    → (s : ℕ) × (index ≡ pos s)
      × (s < product (cube_sizes stored))
      × (j < product (cube_sizes output))
      × (address (dimension_axes stored) (unrank s (cube_sizes stored)) r.code.key
          ≡ address (dimension_axes output) (unrank j (cube_sizes output)) r.code.key)
resolve_selection-address selection stored limit output indices j index m r s low high e at here =
    let st = resolve_selection-Stages selection stored limit output indices s low high e in
    let (axes, _) =
      resolve_selection-dimension_axes selection stored (pos limit) output indices e in
    let sizes = cube_sizes-output output selection.dimensions axes in
    let (below, found) = stored_indices-get_elem? _ 0 _ j indices index st.filled at in
    let (ws, result, box, hits) =
      stored_index-IsHit stored s selection.dimensions st.selected st.targets st.distinct st.cube j
        below in
    let found' : stored_index (resolved stored selection.dimensions st.selected) (pos j)
        ≡ ok index =
      ap (λ n. stored_index (resolved stored selection.dimensions st.selected) (pos n))
        (omega arith)
      ∙ found in
    (
      rank ws (cube_sizes stored),
      ok-inj (sym found' ∙ result),
      rank-lt-product ws (cube_sizes stored) box,
      rw sizes below,
      rw sizes (
          ap (λ c. address (dimension_axes stored) c r.code.key)
            (unrank-rank ws (cube_sizes stored) box)
          ∙ same_address stored output selection.dimensions ws _ m r s axes st.distinct hits here),
    )
