-- ===== src/Domain/Remap/Correct.antt =====
-- `remapCellIndex` moves a cell to the stored index with the same address.
use nordicintel_storage_api.Prelude.{
  ℕ, suc, ◌*◌, ◌<◌, ◌≤◌, ◌≡◌, refl, sym, ap, ◌∙◌, pos, Bytes, bytes_eq, false, Option, none, some,
  List, [], ◌∷◌, map, length, length-map, get_elem?, get_or, All, contains, lookup, if◌then◌else◌,
  some-inj, Bool-cases, inl, inr, arith, sum_of, sum_of-sort, sum_of-map, All-sort, sort, Has, to_ℕ,
  wrap64-pos, max_int64, ok,
}
use nordicintel_storage_api.Domain.Model.{Dimension}
use nordicintel_storage_api.Domain.Index.{strides}
use nordicintel_storage_api.Domain.Index.Spec.{
  product, weights, rank, unrank, InBox, unrank-InBox, rank-lt-product, unrank-rank,
}
use nordicintel_storage_api.Domain.Index.Agreement.{strides-pos}
use nordicintel_storage_api.Domain.Axes.{
  Axis, address, address-Along, Along, axis_keys, dimension_axes, cube_sizes, IsStored,
}
use nordicintel_storage_api.Domain.Structure.{RequestDimension, zero_code}
use nordicintel_storage_api.Domain.Structure.Laws.{sizes, dimension_keys}
use nordicintel_storage_api.Domain.Remap.{
  dimension_less, store_dimension, stored_dimensions, positions_of, category_positions,
  dimension_positions, value_or, contribution, remap_cell_index, targets,
}
use nordicintel_storage_api.Domain.Remap.Stored.{
  All-store_dimension, sum_of-number_dimensions, contains-stored, IsRequest, map-map, code_keys,
  stored_dimensions-IsStored, All-number_dimensions,
}
use nordicintel_storage_api.Domain.Remap.Positions.{
  stored_keys, dimension_positions-present, category_positions-present,
}
use nordicintel_storage_api.Domain.Remap.Address.{
  place, IsChosen, place_of_IsChosen, place-InBox, address-place, sum_of-place,
}
use nordicintel_storage_api.Domain.Remap.Chosen.{
  request_axes, remap_cell_index_from-sum, stored_dimensions-Has, get_elem?-code_keys, All-Along,
  axis_sizes-request_axes, get_or-map, stored_sizes-pos,
}

module _ (ds : List RequestDimension) (r : IsRequest ds) where
  stored : List Dimension
  stored = stored_dimensions ds

  is_stored : IsStored stored
  unfolding stored
  is_stored = stored_dimensions-IsStored ds r

  -- the weight that the stored position of a dimension key has
  weight_of : Bytes → ℕ
  weight_of k =
      get_or (weights (cube_sizes stored))
        (to_ℕ (value_or (pos 0) (lookup k (dimension_positions 0 stored [])))) 0

  weight_of-place :
      (j : ℕ) (d : Dimension)
      → get_elem? stored j ≡ some d
      → weight_of d.code.key ≡ get_or (weights (cube_sizes stored)) j 0
  unfolding weight_of
  weight_of-place j d e = rw (dimension_positions-present stored is_stored j d e)

  strides-stored : (targets stored).strides ≡ map pos (weights (cube_sizes stored))
  unfolding targets
  strides-stored =
      ap strides (stored_sizes-pos stored) ∙ strides-pos (cube_sizes stored) is_stored.cube

  category_position-stored : (targets stored).category_position ≡ category_positions stored
  unfolding targets
  category_position-stored = refl

  dimension_position-stored : (targets stored).dimension_position ≡ dimension_positions 0 stored []
  unfolding targets
  dimension_position-stored = refl

  -- the position map of a request dimension's categories
  category_positions-request :
      (d : RequestDimension)
      → Has d ds
      → lookup d.code.key (category_positions stored)
        ≡ some (positions_of (store_dimension d).categories)
  unfolding stored store_dimension
  category_positions-request d h =
      let (j, p, at) = stored_dimensions-Has ds d h in
      category_positions-present stored is_stored j (record (store_dimension d) { position = p }) at

  same_category :
      (a : Bytes → Option Bytes) (d : RequestDimension) (c : ℕ)
      → c < length d.categories
      → a d.code.key ≡ get_elem? (code_keys d.categories) c
      → (chosen : IsChosen a (store_dimension d))
      → (get_or d.categories c zero_code).key ≡ chosen.category.code.key
  unfolding store_dimension
  same_category a d c below e chosen =
      some-inj (sym (get_elem?-code_keys d.categories c below) ∙ sym e ∙ chosen.named)

  -- What one coordinate adds: its place in the stored dimension, times the weight there.
  contribution-pos :
      (a : Bytes → Option Bytes) (d : RequestDimension) (c : ℕ)
      → Has d ds
      → c < length d.categories
      → a d.code.key ≡ get_elem? (code_keys d.categories) c
      → (chosen : IsChosen a (store_dimension d))
      → place a (store_dimension d) * weight_of d.code.key ≤ max_int64
      → contribution (targets stored) d (pos c)
        ≡ pos (place a (store_dimension d) * weight_of d.code.key)
  unfolding contribution weight_of
  contribution-pos a d c h below e chosen fits =
      let same = same_category a d c below e chosen in
      let at = place_of_IsChosen a (store_dimension d) chosen in
      rw
        (
          dimension_position-stored,
          category_position-stored,
          strides-stored,
          category_positions-request d h,
          same,
          chosen.found,
          get_or-map,
          ← at,
        )
        (wrap64-pos _ fits)

  term : (Bytes → Option Bytes) → Dimension → ℕ
  term a d = place a d * weight_of d.code.key

  contributions-Along :
      (a : Bytes → Option Bytes) (some_ds : List RequestDimension) (cs : List ℕ)
      → ((d : RequestDimension) → Has d some_ds → Has d ds)
      → All (IsChosen a) (map store_dimension some_ds)
      → Along (λ x c. (a x.0 ≡ get_elem? x.1 c) × (c < length x.1)) (request_axes some_ds) cs
      → sum_of (λ d. term a (store_dimension d)) some_ds ≤ max_int64
      → Along
          (λ d c. contribution (targets stored) d (pos c) ≡ pos (term a (store_dimension d)))
          some_ds
          cs
  unfolding term store_dimension
  contributions-Along a [] [] sub h al fits = tt
  contributions-Along a [] (c ∷ cs) sub h al fits = elim al [ ]
  contributions-Along a (d ∷ some_ds) [] sub h al fits = elim al [ ]
  contributions-Along a (d ∷ some_ds) (c ∷ cs) sub (ch, h) ((e, below), al) fits = (
    contribution-pos a d c (sub d (0, refl)) (rw length-map at below) e ch (omega arith),
    contributions-Along a some_ds cs (λ x (i, at). sub x (suc i, at)) h al (omega arith),
  )

  module _ (a : Bytes → Option Bytes) (chosen : All (IsChosen a) (map store_dimension ds)) where
    IsChosen-stored : All (IsChosen a) stored
    unfolding stored stored_dimensions
    IsChosen-stored =
        All-number_dimensions (IsChosen a)
          (λ d p h. record {
            index = h.index;
            category = h.category;
            at = h.at;
            named = h.named;
            found = h.found;
          })
          0 _ (All-sort dimension_less (IsChosen a) _ chosen)

    -- the terms of the request add up to those of the stored structure
    sum_of-stored : sum_of (λ d. term a (store_dimension d)) ds ≡ sum_of (term a) stored
    unfolding stored stored_dimensions term place
    sum_of-stored =
        sym (sum_of-map (term a) store_dimension ds)
        ∙ sym (sum_of-sort dimension_less (term a) (map store_dimension ds))
        ∙ sym (
            sum_of-number_dimensions (term a) (λ d p. refl) 0
              (sort dimension_less (map store_dimension ds)))

    -- and so to the row-major index of the chosen places
    sum_of-term :
        sum_of (λ d. term a (store_dimension d)) ds
        ≡ rank (map (place a) stored) (cube_sizes stored)
    unfolding term
    sum_of-term = sum_of-stored ∙ sum_of-place a weight_of stored weight_of-place

  -- All of it, for the address of a request index.
  pub remap_cell_index-rank :
      (i : ℕ)
      → i < product (sizes ds)
      → (cs : List ℕ) × (remap_cell_index
            (targets (stored_dimensions ds))
            (pos i)
            ds
            (map pos (sizes ds))
            (strides (map pos (sizes ds)))
          ≡ ok (pos (rank cs (cube_sizes (stored_dimensions ds)))))
        × InBox cs (cube_sizes (stored_dimensions ds))
        × ((k : Bytes)
            → address (dimension_axes (stored_dimensions ds)) cs k ≡ (
                if contains k (stored_keys (stored_dimensions ds))
                then address (request_axes ds) (unrank i (sizes ds)) k
                else none))
  unfolding stored remap_cell_index
  remap_cell_index-rank i below =
      let cs = unrank i (sizes ds) in
      let a = address (request_axes ds) cs in
      let al =
        address-Along (request_axes ds) cs (rw map-map r.distinct)
          (rw axis_sizes-request_axes (unrank-InBox i (sizes ds) r.cube.all_pos below)) in
      let chosen = All-Along a ds cs (All-store_dimension ds r.categories) al in
      let total = sum_of-term a chosen in
      let inside = place-InBox a stored (IsChosen-stored a chosen) in
      let bounded : sum_of (λ d. term a (store_dimension d)) ds ≤ max_int64 =
        omega (arith, total, rank-lt-product _ _ inside, is_stored.cube.fits) in
      (
        map (place a) stored,
        rw (strides-pos (sizes ds) r.cube) (
            remap_cell_index_from-sum (targets stored) (λ d. term a (store_dimension d)) i 0 ds
              r.cube.all_pos below (contributions-Along a ds cs (λ d h. h) chosen al bounded)
              (omega arith)
            ∙ ap (λ n. ok (pos n)) (omega (arith, total))),
        inside,
        λ k. address-place a stored k (IsChosen-stored a chosen),
      )

-- a key that is no axis has no address
address-absent :
    (axes : List Axis) (cs : List ℕ) (k : Bytes)
    → contains k (axis_keys axes) ≡ false
    → address axes cs k ≡ none
unfolding address
address-absent [] cs k h = refl
address-absent (x ∷ axes) [] k h = refl
address-absent (x ∷ axes) (c ∷ cs) k h = ground (arith, address-absent axes cs k)

-- For a request with distinct keys whose cells an int64 can count, `remapCellIndex` maps every cell
-- index of the request's cube to an index of the stored cube, and at the two indexes every
-- dimension key has the same category key.
pub remap_cell_index-address :
    (ds : List RequestDimension) (i : ℕ)
    → IsRequest ds
    → i < product (sizes ds)
    → (s : ℕ) × (remap_cell_index
          (targets (stored_dimensions ds))
          (pos i)
          ds
          (map pos (sizes ds))
          (strides (map pos (sizes ds)))
        ≡ ok (pos s))
      × (s < product (cube_sizes (stored_dimensions ds)))
      × ((k : Bytes)
          → address
              (dimension_axes (stored_dimensions ds))
              (unrank s (cube_sizes (stored_dimensions ds)))
              k
            ≡ address (request_axes ds) (unrank i (sizes ds)) k)
remap_cell_index-address ds i r below =
    let (cs, result, inside, same) = remap_cell_index-rank ds r i below in
    let shape = cube_sizes (stored_dimensions ds) in
    (
      rank cs shape,
      result,
      rank-lt-product cs shape inside,
      λ k.
          ap (λ c. address (dimension_axes (stored_dimensions ds)) c k)
            (unrank-rank cs shape inside)
          ∙ same k
          ∙ known k,
    )
  where
    known :
        (k : Bytes)
        → (if contains k (stored_keys (stored_dimensions ds))
            then address (request_axes ds) (unrank i (sizes ds)) k
            else none)
          ≡ address (request_axes ds) (unrank i (sizes ds)) k
    known k = elim (Bool-cases (contains k (dimension_keys ds))) [
      | inl there ↦ rw (contains-stored, there)
      | inr absent ↦
          rw (contains-stored, absent)
            (sym (address-absent (request_axes ds) _ k (rw map-map absent)))
    ]
