-- ===== src/Domain/Selection/Output.antt =====
-- The structure that a resolved selection has.
use mathlib.Core.Path.{ap₂}
use nordicintel_storage_api.Prelude.{require-eq-ok}
use nordicintel_storage_api.Prelude.{
  ℕ, suc, ◌≡◌, refl, sym, ap, ◌∙◌, ℤ, pos, Bytes, bytes_eq, some, List, [], ◌∷◌, map, length,
  lookup, insert_all, insert_all-found, contains, nat_beq, ok, map_err, require, >>=-eq-ok, ok-inj,
  Bool-cases, inl, inr, replicate, to_ℕ,
}
use nordicintel_storage_api.Domain.Model.{Code, Category, Dimension, Selection, SelectionDimension}
use nordicintel_storage_api.Domain.Index.{checked_product}
use nordicintel_storage_api.Domain.Axes.{
  Axis, dimension_axes, category_keys, CategoriesFrom, DimensionsFrom,
}
use nordicintel_storage_api.Domain.Remap.Stored.{code_keys}
use nordicintel_storage_api.Domain.Selection.{
  unknown_category, unknown_dimension, selected_cube, stored_by_key, place_sizes, select_categories,
  select_dimensions, stored_indices, resolve_selection,
}

-- The dimension keys that a selection asks for, with the category keys of each.
abbrev pub selected_axes : List SelectionDimension → List Axis
selected_axes ds = map (λ (d : SelectionDimension). (d.code.key, code_keys d.categories)) ds

-- An entry of a map that a loop fills by key has that key.
found_key :
    {A : Type 0} (key : A → Bytes) (xs : List A) (k : Bytes) (x : A)
    → lookup k (insert_all key (λ y. y) xs []) ≡ some x
    → key x ≡ k
found_key key xs k x e = elim (insert_all-found key (λ y. y) xs [] k x e) [
  | inl (i, y, at, same_key, same) ↦ ap key (sym same) ∙ same_key
  | inr absent ↦ absurd (cc)
]

select_categories-Keys :
    (m : List (Bytes × Category)) (j : ℕ) (requested : List Code) (seen : List Bytes)
    (out : List Category) (ps : List ℤ)
    → ((k : Bytes) (c : Category) → lookup k m ≡ some c → c.code.key ≡ k)
    → select_categories m j requested seen ≡ ok (out, ps)
    → (category_keys out ≡ code_keys requested) × CategoriesFrom j out
unfolding select_categories
select_categories-Keys m j [] seen out ps h e =
    let same : [] ≡ out = ap (λ p. p.0) (ok-inj e) in rw (← same) (refl, tt)
select_categories-Keys m j (r ∷ requested) seen out ps h e =
    elim (Bool-cases (contains r.key seen)) [
      | inl duplicate ↦ absurd (cc (rw duplicate at e))
      | inr new ↦
          let (c, found, e₁) =
            >>=-eq-ok (require unknown_category (lookup r.key m)) _ (rw new at e) in
          let ((cs, qs), got, e₂) =
            >>=-eq-ok (select_categories m (suc j) requested (r.key ∷ seen)) _ e₁ in
          let (keys, from) =
            select_categories-Keys m (suc j) requested (r.key ∷ seen) cs qs h got in
          let same : record { code = c.code; position = pos j } ∷ cs ≡ out =
            ap (λ p. p.0) (ok-inj e₂) in
          rw (← same) (ap₂ ◌∷◌ (h r.key c (require-eq-ok _ _ found)) keys, (refl, from))
    ]

select_dimensions-Axes :
    (m : List (Bytes × Dimension)) (i : ℕ) (requested : List SelectionDimension) (seen : List Bytes)
    (out : List Dimension) (ps : List (List ℤ))
    → ((k : Bytes) (d : Dimension) → lookup k m ≡ some d → d.code.key ≡ k)
    → select_dimensions m i requested seen ≡ ok (out, ps)
    → (dimension_axes out ≡ selected_axes requested) × DimensionsFrom i out
unfolding select_dimensions
select_dimensions-Axes m i [] seen out ps h e =
    let same : [] ≡ out = ap (λ p. p.0) (ok-inj e) in rw (← same) (refl, tt)
select_dimensions-Axes m i (r ∷ requested) seen out ps h e =
    elim (Bool-cases (contains r.code.key seen)) [
      | inl duplicate ↦ absurd (cc (rw duplicate at e))
      | inr new ↦
          let (d, found, e₁) =
            >>=-eq-ok (require unknown_dimension (lookup r.code.key m)) _ (rw new at e) in
          let by_key = insert_all (λ (c : Category). c.code.key) (λ c. c) d.categories [] in
          let ((cs, qs), chosen, e₂) =
            >>=-eq-ok (select_categories by_key 0 r.categories []) _ e₁ in
          let ((ds, rs), got, e₃) =
            >>=-eq-ok (select_dimensions m (suc i) requested (r.code.key ∷ seen)) _ e₂ in
          let (keys, _) =
            select_categories-Keys by_key 0 r.categories [] cs qs
              (found_key (λ (c : Category). c.code.key) d.categories) chosen in
          let (axes, from) =
            select_dimensions-Axes m (suc i) requested (r.code.key ∷ seen) ds rs h got in
          let same : record { code = d.code; position = pos i; categories = cs } ∷ ds ≡ out =
            ap (λ p. p.0) (ok-inj e₃) in
          rw (← same) (
            ap₂ ◌∷◌ (ap₂ (λ k c. (k, c)) (h r.code.key d (require-eq-ok _ _ found)) keys) axes,
            (refl, from),
          )
    ]

-- The output of a resolved selection has the dimensions that the selection asks for, in its order
-- and numbered by it, each with the categories that it asks for, in its order.
pub resolve_selection-dimension_axes :
    (selection : Selection) (stored : List Dimension) (max_cells : ℤ) (output : List Dimension)
    (indices : List ℤ)
    → resolve_selection selection stored max_cells ≡ ok (output, indices)
    → (dimension_axes output ≡ selected_axes selection.dimensions) × DimensionsFrom 0 output
unfolding resolve_selection stored_by_key
resolve_selection-dimension_axes selection stored max_cells output indices e =
    elim (Bool-cases (nat_beq (length selection.dimensions) (length stored))) [
      | inr other ↦ absurd (cc (rw other at e))
      | inl same_length ↦
          let (sizes, _, e₁) =
            >>=-eq-ok (place_sizes stored (replicate (length stored) (pos 0))) _
              (rw same_length at e) in
          let ((out, ps), got, e₂) =
            >>=-eq-ok (select_dimensions (stored_by_key stored) 0 selection.dimensions []) _ e₁ in
          let (count, _, e₃) =
            >>=-eq-ok
              (map_err selected_cube (
                checked_product
                  (map (λ (d : SelectionDimension). pos (length d.categories)) selection.dimensions)
                  max_cells))
              _ e₂ in
          let (found, _, e₄) = >>=-eq-ok (stored_indices _ 0 (to_ℕ count)) _ e₃ in
          let same : out ≡ output = ap (λ p. p.0) (ok-inj e₄) in
          rw (← same) (
            select_dimensions-Axes (stored_by_key stored) 0 selection.dimensions [] out ps
              (found_key (λ (d : Dimension). d.code.key) stored) got)
    ]
