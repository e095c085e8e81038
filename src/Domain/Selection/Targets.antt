-- ===== src/Domain/Selection/Targets.antt =====
-- Where the choices of a selection stand in the stored structure.
use nordicintel_storage_api.Prelude.{
  ℕ, zero, suc, ◌≡◌, sym, ap, ◌∙◌, ℤ, pos, Bytes, bytes_eq, false, some, some-inj, List, [], ◌∷◌,
  map, get_elem?, get_elem?-map, All-get_elem?, All, AllPairs, Distinct, lookup, insert_all,
  insert_all-found, contains, unseen-cons, ok, require, >>=-eq-ok, ok-inj, Bool-cases, inl, inr,
  arith,
}
use nordicintel_storage_api.Domain.Model.{Code, Category, Dimension, SelectionDimension}
use nordicintel_storage_api.Domain.Axes.{
  category_keys, CategoriesFrom, IsNumbered, position_of_CategoriesFrom,
}
use nordicintel_storage_api.Domain.Selection.{
  unknown_category, unknown_dimension, stored_by_key, select_categories, select_dimensions,
}
use nordicintel_storage_api.Prelude.{require-eq-ok}

abbrev pub selected_keys : List SelectionDimension → List Bytes
selected_keys ds = map (λ (d : SelectionDimension). d.code.key) ds

-- The stored dimension that a requested one names, and the stored places of its categories.
pub record IsTarget (stored : List Dimension) (r : SelectionDimension) (positions : List ℤ)
    : Type 0 where
  pub dimension : Dimension
  pub place : ℕ
  pub at : get_elem? stored place ≡ some dimension
  pub found : lookup r.code.key (stored_by_key stored) ≡ some dimension
  pub same_key : dimension.code.key ≡ r.code.key
  pub chosen :
      (c : ℕ) (code : Code)
      → get_elem? r.categories c ≡ some code
      → (q : ℕ) × (get_elem? positions c ≡ some (pos q))
        × (get_elem? (category_keys dimension.categories) q ≡ some code.key)

-- one round of the inner loop, read off its success
select_categories-round :
    (m : List (Bytes × Category)) (j : ℕ) (r : Code) (requested : List Code) (seen : List Bytes)
    (out : List Category) (ps : List ℤ)
    → select_categories m j (r ∷ requested) seen ≡ ok (out, ps)
    → (category : Category) × (cs : List Category) × (qs : List ℤ) × (lookup r.key m
        ≡ some category)
      × (contains r.key seen ≡ false)
      × (select_categories m (suc j) requested (r.key ∷ seen) ≡ ok (cs, qs))
      × (category.position ∷ qs ≡ ps)
      × (record { code = category.code; position = pos j } ∷ cs ≡ out)
unfolding select_categories
select_categories-round m j r requested seen out ps e = elim (Bool-cases (contains r.key seen)) [
  | inl duplicate ↦ absurd (cc (rw duplicate at e))
  | inr new ↦
      let (category, found, e₁) =
        >>=-eq-ok (require unknown_category (lookup r.key m)) _ (rw new at e) in
      let ((cs, qs), got, e₂) =
        >>=-eq-ok (select_categories m (suc j) requested (r.key ∷ seen)) _ e₁ in
      let pair = ok-inj e₂ in
      (category, cs, qs, require-eq-ok _ _ found, new, got, ap (λ p. p.1) pair, ap (λ p. p.0) pair)
]

select_categories-chosen :
    (cats : List Category) (j : ℕ) (requested : List Code) (seen : List Bytes) (out : List Category)
    (ps : List ℤ) (c : ℕ) (code : Code)
    → CategoriesFrom 0 cats
    → select_categories
        (insert_all (λ (x : Category). x.code.key) (λ x. x) cats [])
        j
        requested
        seen
      ≡ ok (out, ps)
    → get_elem? requested c ≡ some code
    → (q : ℕ) × (get_elem? ps c ≡ some (pos q)) × (get_elem? (category_keys cats) q ≡ some code.key)
select_categories-chosen cats j [] seen out ps c code n e h = absurd (cc)
select_categories-chosen cats j (r ∷ requested) seen out ps zero code n e h =
    let m = insert_all (λ (x : Category). x.code.key) (λ x. x) cats [] in
    let (category, cs, qs, found, _, _, shape, _) =
      select_categories-round m j r requested seen out ps e in
    let same : r ≡ code = some-inj h in
    elim (insert_all-found (λ (x : Category). x.code.key) (λ x. x) cats [] r.key category found) [
      | inl (q, y, at, same_key, val) ↦ (
        q,
        rw (← shape) (
            ap some (
              ap (λ (x : Category). x.position) (sym val)
              ∙ position_of_CategoriesFrom 0 q cats y n at
              ∙ ap pos (omega arith))),
        get_elem?-map (λ (x : Category). x.code.key) cats q y at
            ∙ ap some (same_key ∙ ap (λ (x : Code). x.key) same),
      )
      | inr absent ↦ absurd (cc)
    ]
select_categories-chosen cats j (r ∷ requested) seen out ps (suc c) code n e h =
    let m = insert_all (λ (x : Category). x.code.key) (λ x. x) cats [] in
    let (category, cs, qs, _, _, got, shape, _) =
      select_categories-round m j r requested seen out ps e in
    rw (← shape)
      (select_categories-chosen cats (suc j) requested (r.key ∷ seen) cs qs c code n got h)

select_dimensions-round :
    (m : List (Bytes × Dimension)) (i : ℕ) (r : SelectionDimension)
    (requested : List SelectionDimension) (seen : List Bytes) (out : List Dimension)
    (ps : List (List ℤ))
    → select_dimensions m i (r ∷ requested) seen ≡ ok (out, ps)
    → (d : Dimension) × (cs : List Category) × (qs : List ℤ) × (ds : List Dimension) × (rs : List
        (List ℤ))
      × (lookup r.code.key m ≡ some d)
      × (contains r.code.key seen ≡ false)
      × (select_categories
            (insert_all (λ (x : Category). x.code.key) (λ x. x) d.categories [])
            0
            r.categories
            []
          ≡ ok (cs, qs))
      × (select_dimensions m (suc i) requested (r.code.key ∷ seen) ≡ ok (ds, rs))
      × (qs ∷ rs ≡ ps)
      × (record { code = d.code; position = pos i; categories = cs } ∷ ds ≡ out)
unfolding select_dimensions
select_dimensions-round m i r requested seen out ps e =
    elim (Bool-cases (contains r.code.key seen)) [
      | inl duplicate ↦ absurd (cc (rw duplicate at e))
      | inr new ↦
          let (d, found, e₁) =
            >>=-eq-ok (require unknown_dimension (lookup r.code.key m)) _ (rw new at e) in
          let ((cs, qs), chosen, e₂) =
            >>=-eq-ok
              (select_categories
                (insert_all (λ (x : Category). x.code.key) (λ x. x) d.categories []) 0 r.categories
                [])
              _ e₁ in
          let ((ds, rs), got, e₃) =
            >>=-eq-ok (select_dimensions m (suc i) requested (r.code.key ∷ seen)) _ e₂ in
          let pair = ok-inj e₃ in
          (
            d,
            cs,
            qs,
            ds,
            rs,
            require-eq-ok _ _ found,
            new,
            chosen,
            got,
            ap (λ p. p.1) pair,
            ap (λ p. p.0) pair,
          )
    ]

IsTarget-found :
    (stored : List Dimension) (r : SelectionDimension) (d : Dimension) (cs : List Category)
    (qs : List ℤ)
    → All IsNumbered stored
    → lookup r.code.key (stored_by_key stored) ≡ some d
    → select_categories
        (insert_all (λ (x : Category). x.code.key) (λ x. x) d.categories [])
        0
        r.categories
        []
      ≡ ok (cs, qs)
    → IsTarget stored r qs
unfolding stored_by_key
IsTarget-found stored r d cs qs n found chosen =
    elim (insert_all-found (λ (x : Dimension). x.code.key) (λ x. x) stored [] r.code.key d found) [
      | inl (p, y, at, same_key, val) ↦
          let stands : get_elem? stored p ≡ some d = at ∙ ap some val in
          record {
            dimension = d;
            place = p;
            at = stands;
            found = found;
            same_key = ap (λ (x : Dimension). x.code.key) (sym val) ∙ same_key;
            chosen = λ c code h.
                select_categories-chosen d.categories 0 r.categories [] cs qs c code
                  (All-get_elem? IsNumbered stored p d n stands).numbered chosen h;
          }
      | inr absent ↦ absurd (cc)
    ]

-- Every requested dimension has a target, and no two have one key.
pub select_dimensions-IsTarget :
    (stored : List Dimension) (i : ℕ) (requested : List SelectionDimension) (seen : List Bytes)
    (out : List Dimension) (ps : List (List ℤ))
    → All IsNumbered stored
    → select_dimensions (stored_by_key stored) i requested seen ≡ ok (out, ps)
    → AllPairs (IsTarget stored) requested ps
      × Distinct (selected_keys requested)
      × All (λ k. contains k seen ≡ false) (selected_keys requested)
unfolding select_dimensions
select_dimensions-IsTarget stored i [] seen out ps n e =
    let same : [] ≡ ps = ap (λ p. p.1) (ok-inj e) in rw (← same) (tt, tt, tt)
select_dimensions-IsTarget stored i (r ∷ requested) seen out ps n e =
    let (d, cs, qs, ds, rs, found, new, chosen, got, shape, _) =
      select_dimensions-round (stored_by_key stored) i r requested seen out ps e in
    let (targets, distinct, unseen) =
      select_dimensions-IsTarget stored (suc i) requested (r.code.key ∷ seen) ds rs n got in
    let (fresh, unseen') = unseen-cons r.code.key seen (selected_keys requested) unseen in
    rw (← shape)
      ((IsTarget-found stored r d cs qs n found chosen, targets), (fresh, distinct), (new, unseen'))
