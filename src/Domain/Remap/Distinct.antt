-- ===== src/Domain/Remap/Distinct.antt =====
-- Remapping gives different cells different places.
use nordicintel_storage_api.Prelude.{
  ℕ, zero, suc, ◌<◌, ◌≡◌, ◌≢◌, refl, sym, ap, ◌∙◌, ℤ, pos, Bytes, List, [], ◌∷◌, map, get_elem?,
  some, some-inj, All, Fresh, Distinct, ok, ok-inj, length, get_elem?-in_bounds,
}
use nordicintel_storage_api.Domain.Index.{strides}
use nordicintel_storage_api.Domain.Index.Spec.{product, unrank, rank, rank-unrank, unrank-InBox}
use nordicintel_storage_api.Domain.Axes.{
  Axis, address, address-Along, Along, dimension_axes, cube_sizes,
}
use nordicintel_storage_api.Domain.Structure.{RequestDimension}
use nordicintel_storage_api.Domain.Structure.Laws.{sizes}
use nordicintel_storage_api.Domain.Remap.{remap_cell_index, targets, stored_dimensions}
use nordicintel_storage_api.Domain.Remap.Stored.{IsRequest, code_keys, map-map}
use nordicintel_storage_api.Domain.Remap.Chosen.{request_axes, axis_sizes-request_axes}
use nordicintel_storage_api.Domain.Remap.Correct.{remap_cell_index-address}

Fresh-get_elem? : {A : Type 0} (x : A) (xs : List A) (i : ℕ) → Fresh x xs → get_elem? xs i ≢ some x
Fresh-get_elem? x [] i f e = cc
Fresh-get_elem? x (y ∷ ys) zero (ne, f) e = ne (sym (some-inj e))
Fresh-get_elem? x (y ∷ ys) (suc i) (ne, f) e = Fresh-get_elem? x ys i f e

Distinct-get_elem? :
    {A : Type 0} (xs : List A) (i j : ℕ) (x : A)
    → Distinct xs
    → get_elem? xs i ≡ some x
    → get_elem? xs j ≡ some x
    → i ≡ j
Distinct-get_elem? [] i j x d e f = absurd (cc)
Distinct-get_elem? (y ∷ ys) zero zero x d e f = refl
Distinct-get_elem? (y ∷ ys) zero (suc j) x (fr, d) e f =
    absurd (Fresh-get_elem? y ys j fr (f ∙ sym e))
Distinct-get_elem? (y ∷ ys) (suc i) zero x (fr, d) e f =
    absurd (Fresh-get_elem? y ys i fr (e ∙ sym f))
Distinct-get_elem? (y ∷ ys) (suc i) (suc j) x (fr, d) e f =
    ap suc (Distinct-get_elem? ys i j x d e f)

-- Coordinates with one address on axes of distinct categories are the same.
same_coordinates :
    (axes : List Axis) (cs ds : List ℕ) (whole : List Axis) (all others : List ℕ)
    → ((k : Bytes) → address whole all k ≡ address whole others k)
    → All (λ (x : Axis). Distinct x.1) axes
    → Along (λ x c. (address whole all x.0 ≡ get_elem? x.1 c) × (c < length x.1)) axes cs
    → Along (λ x c. (address whole others x.0 ≡ get_elem? x.1 c) × (c < length x.1)) axes ds
    → cs ≡ ds
same_coordinates [] [] [] whole all others same d g h = refl
same_coordinates [] [] (d' ∷ ds) whole all others same d g h = elim h [ ]
same_coordinates [] (c ∷ cs) ds whole all others same d g h = elim g [ ]
same_coordinates (x ∷ axes) [] ds whole all others same d g h = elim g [ ]
same_coordinates (x ∷ axes) (c ∷ cs) [] whole all others same d g h = elim h [ ]
same_coordinates (x ∷ axes) (c ∷ cs) (d' ∷ ds) whole all others same (p, d) ((e, below), g)
      ((f, _), h) =
    let (k, at) = get_elem?-in_bounds x.1 c below in
    let heads : c ≡ d' = Distinct-get_elem? x.1 c d' k p at (sym f ∙ sym (same x.0) ∙ e ∙ at) in
    let tails = same_coordinates axes cs ds whole all others same d g h in cc (heads, tails)

All-request_axes :
    (ds : List RequestDimension)
    → All (λ (d : RequestDimension). Distinct (code_keys d.categories)) ds
    → All (λ (x : Axis). Distinct x.1) (request_axes ds)
All-request_axes [] h = tt
All-request_axes (d ∷ ds) (p, h) = (p, All-request_axes ds h)

-- For a request with distinct keys whose cells an int64 can count, `remapCellIndex` is injective:
-- two cell indexes of the request's cube that it maps to one stored index are equal.
pub remap_cell_index-inj :
    (ds : List RequestDimension) (i k : ℕ) (index : ℤ)
    → IsRequest ds
    → i < product (sizes ds)
    → k < product (sizes ds)
    → remap_cell_index
        (targets (stored_dimensions ds))
        (pos i)
        ds
        (map pos (sizes ds))
        (strides (map pos (sizes ds)))
      ≡ ok index
    → remap_cell_index
        (targets (stored_dimensions ds))
        (pos k)
        ds
        (map pos (sizes ds))
        (strides (map pos (sizes ds)))
      ≡ ok index
    → i ≡ k
remap_cell_index-inj ds i k index r below below' e f =
    let (s, result, _, here) = remap_cell_index-address ds i r below in
    let (t, result', _, there) = remap_cell_index-address ds k r below' in
    let same_index : pos s ≡ pos t = ok-inj (sym result ∙ e) ∙ sym (ok-inj (sym result' ∙ f)) in
    let st : s ≡ t = cc in
    let same = λ (key : Bytes).
      sym (here key)
      ∙ ap
          (λ n.
            address (dimension_axes (stored_dimensions ds))
              (unrank n (cube_sizes (stored_dimensions ds))) key)
          st
      ∙ there key in
    let along = λ (n : ℕ) (b : n < product (sizes ds)).
      address-Along (request_axes ds) (unrank n (sizes ds)) (rw map-map r.distinct)
        (rw axis_sizes-request_axes (unrank-InBox n (sizes ds) r.cube.all_pos b)) in
    let coords =
      same_coordinates (request_axes ds) (unrank i (sizes ds)) (unrank k (sizes ds))
        (request_axes ds) (unrank i (sizes ds)) (unrank k (sizes ds)) same
        (All-request_axes ds r.categories) (along i below) (along k below') in
    sym (rank-unrank i (sizes ds) r.cube.all_pos below)
    ∙ ap (λ cs. rank cs (sizes ds)) coords
    ∙ rank-unrank k (sizes ds) r.cube.all_pos below'
