-- ===== src/Domain/Selection/Cells.antt =====
-- The cells that a resolved selection reads.
use nordicintel_storage_api.Prelude.{
  ℕ, zero, suc, ◌+◌, ◌<◌, ◌≡◌, ◌≢◌, refl, sym, ap, ◌∙◌, subst, ℤ, pos, Bytes, bytes_eq, none, some,
  some-inj, List, [], ◌∷◌, ◌++◌, map, length, length-map, length-append, get_elem?, replicate,
  map-replicate, set-append, append_cons, AllPairs, Fresh, Distinct, ==_refl, ==_of_ne, ok,
  >>=-eq-ok, ok-inj, arith,
}
use nordicintel_storage_api.Domain.Model.{Dimension, SelectionDimension}
use nordicintel_storage_api.Domain.Index.Spec.{product, rank, unrank, InBox, AllPos, unrank-InBox}
use nordicintel_storage_api.Domain.Index.Agreement.{IsCube}
use nordicintel_storage_api.Domain.Index.Bounds.{coordinates-inside, cell_index-inside}
use nordicintel_storage_api.Domain.Axes.{
  Axis, address, Along, axis_keys, cube_sizes, DimensionsFrom, IsStored,
}
use nordicintel_storage_api.Domain.Selection.{
  stored_by_key, place_sizes, store_at, Resolved, stored_index, stored_indices,
}
use nordicintel_storage_api.Domain.Selection.Targets.{IsTarget, selected_keys}
use nordicintel_storage_api.Domain.Selection.Places.{IsHit, place_coordinates-IsHit}

abbrev pub selected_sizes : List SelectionDimension → List ℕ
selected_sizes ds = map (λ (d : SelectionDimension). length d.categories) ds

-- The address at the key of an axis is the category at its coordinate.
pub address_at :
    (axes : List Axis) (vs : List ℕ) (p q : ℕ) (x : Axis)
    → Distinct (axis_keys axes)
    → get_elem? axes p ≡ some x
    → get_elem? vs p ≡ some q
    → address axes vs x.0 ≡ get_elem? x.1 q
unfolding address
address_at [] vs p q x d e h = absurd (cc)
address_at (y ∷ axes) [] p q x d e h = absurd (cc)
address_at (y ∷ axes) (v ∷ vs) zero q x d e h =
    let same : y ≡ x = some-inj e in rw (← same, ==_refl y.0) (ap (get_elem? y.1) (some-inj h))
address_at (y ∷ axes) (v ∷ vs) (suc p) q x (f, d) e h =
    rw (==_of_ne y.0 x.0 (fresh_at y.0 axes p x f e)) (address_at axes vs p q x d e h)
  where
    fresh_at :
        (k : Bytes) (axes : List Axis) (p : ℕ) (x : Axis)
        → Fresh k (axis_keys axes)
        → get_elem? axes p ≡ some x
        → k ≢ x.0
    fresh_at k [] p x f e = absurd (cc)
    fresh_at k (y ∷ axes) zero x (ne, f) e = λ h. ne (h ∙ ap (λ (z : Axis). z.0) (sym (some-inj e)))
    fresh_at k (y ∷ axes) (suc p) x (ne, f) e = fresh_at k axes p x f e

pub Along-at :
    {A : Type 0} (P : A → ℕ → Type 0) (xs : List A) (cs : List ℕ) (m : ℕ) (x : A)
    → Along P xs cs
    → get_elem? xs m ≡ some x
    → (c : ℕ) × (get_elem? cs m ≡ some c) × P x c
Along-at P [] [] m x h e = absurd (cc)
Along-at P [] (c ∷ cs) m x h e = elim h [ ]
Along-at P (y ∷ xs) [] m x h e = elim h [ ]
Along-at P (y ∷ xs) (c ∷ cs) zero x (p, h) e = (c, refl, subst (λ z. P z c) (some-inj e) p)
Along-at P (y ∷ xs) (c ∷ cs) (suc m) x (p, h) e = Along-at P xs cs m x h e

InBox-Along :
    (ds : List SelectionDimension) (cs : List ℕ)
    → InBox cs (selected_sizes ds)
    → Along (λ r c. c < length r.categories) ds cs
InBox-Along [] [] h = tt
InBox-Along [] (c ∷ cs) h = elim h [ ]
InBox-Along (d ∷ ds) [] h = elim h [ ]
InBox-Along (d ∷ ds) (c ∷ cs) (l, h) = (l, InBox-Along ds cs h)

zeros-InBox : (ns : List ℕ) → AllPos ns → InBox (replicate (length ns) 0) ns
zeros-InBox [] h = tt
zeros-InBox (n ∷ ns) (p, h) = (p, zeros-InBox ns h)

store_at_next :
    (done rest : List ℤ) (v : ℤ)
    → store_at (done ++ (pos 0 ∷ rest)) (pos (length done)) v ≡ ok ((done ++ (v ∷ [])) ++ rest)
store_at_next done rest v = rw (length-append, set-append) (ground arith)

-- storedSizes has the size of each stored dimension at its place.
pub place_sizes-from :
    (ds : List Dimension) (done : List ℤ)
    → DimensionsFrom (length done) ds
    → place_sizes ds (done ++ replicate (length ds) (pos 0)) ≡ ok (done ++ map pos (cube_sizes ds))
unfolding place_sizes
place_sizes-from [] done h = refl
place_sizes-from (d ∷ ds) done (at, h) =
    let size = pos (length d.categories) in
    let next : DimensionsFrom (length (done ++ (size ∷ []))) ds =
      rw (length-append) (subst (λ n. DimensionsFrom n ds) (omega arith) h) in
    rw (at, store_at_next)
      (place_sizes-from ds (done ++ (size ∷ [])) next ∙ ap ok (append_cons done _ size))

pub selected_sizes-pos :
    (ds : List SelectionDimension)
    → map (λ (d : SelectionDimension). pos (length d.categories)) ds ≡ map pos (selected_sizes ds)
selected_sizes-pos [] = refl
selected_sizes-pos (d ∷ ds) = ap (◌∷◌ (pos (length d.categories))) (selected_sizes-pos ds)

-- What the last loop reads, in a resolved selection.
abbrev pub resolved : List Dimension → List SelectionDimension → List (List ℤ) → Resolved
resolved stored requested selected = record {
  by_key = stored_by_key stored;
  stored_count = length stored;
  stored_sizes = map pos (cube_sizes stored);
  output_sizes = map pos (selected_sizes requested);
  selected = selected;
  requested = requested;
}

module _ (stored : List Dimension) (s : IsStored stored) (requested : List SelectionDimension)
    (selected : List (List ℤ)) (targets : AllPairs (IsTarget stored) requested selected)
    (distinct : Distinct (selected_keys requested)) (cube : IsCube (selected_sizes requested)) where
  -- The index of an output cell is that of coordinates which hit every requested category.
  pub stored_index-IsHit :
      (j : ℕ)
      → j < product (selected_sizes requested)
      → (ws : List ℕ) × (stored_index (resolved stored requested selected) (pos j)
          ≡ ok (pos (rank ws (cube_sizes stored))))
        × InBox ws (cube_sizes stored)
        × Along (IsHit stored ws) requested (unrank j (selected_sizes requested))
  unfolding stored_index
  stored_index-IsHit j below =
      let cs = unrank j (selected_sizes requested) in
      let zeros =
        subst (λ n. InBox (replicate n 0) (cube_sizes stored))
          (length-map (λ (d : Dimension). length d.categories) stored)
          (zeros-InBox (cube_sizes stored) s.cube.all_pos) in
      let (ws, run, box, hits, _) =
        place_coordinates-IsHit stored s.numbered requested selected cs
          (replicate (length stored) 0) targets
          (InBox-Along requested cs (unrank-InBox j (selected_sizes requested) cube.all_pos below))
          distinct zeros in
      let run' = rw map-replicate at run in
      (
        ws,
        rw
            (
              coordinates-inside (selected_sizes requested) cube j below,
              run',
              cell_index-inside (cube_sizes stored) s.cube ws box,
            )
            refl,
        box,
        hits,
      )

stored_indices-round :
    (r : Resolved) (i n : ℕ) (out : List ℤ)
    → stored_indices r i (suc n) ≡ ok out
    → (x : ℤ) × (rest : List ℤ) × (stored_index r (pos i) ≡ ok x)
      × (stored_indices r (suc i) n ≡ ok rest)
      × (x ∷ rest ≡ out)
unfolding stored_indices
stored_indices-round r i n out e =
    let (x, here, e₁) = >>=-eq-ok (stored_index r (pos i)) _ e in
    let (rest, later, e₂) = >>=-eq-ok (stored_indices r (suc i) n) _ e₁ in
    (x, rest, here, later, ok-inj e₂)

stored_indices-zero :
    (r : Resolved) (i : ℕ) (out : List ℤ) → stored_indices r i zero ≡ ok out → [] ≡ out
unfolding stored_indices
stored_indices-zero r i out e = ok-inj e

-- The index at a place of the result is that of the output cell with this number.
pub stored_indices-get_elem? :
    (r : Resolved) (i n j : ℕ) (out : List ℤ) (index : ℤ)
    → stored_indices r i n ≡ ok out
    → get_elem? out j ≡ some index
    → (j < n) × (stored_index r (pos (i + j)) ≡ ok index)
stored_indices-get_elem? r i zero j out index e at =
    let same : [] ≡ out = stored_indices-zero r i out e in
    let none_there : none ≡ some index = rw (← same) at at in absurd (cc)
stored_indices-get_elem? r i (suc n) zero out index e at =
    let (x, rest, here, _, shape) = stored_indices-round r i n out e in
    let first : some x ≡ some index = rw (← shape) at at in
    (
      omega arith,
      subst (λ m. stored_index r (pos m) ≡ ok index) (omega arith) (here ∙ ap ok (some-inj first)),
    )
stored_indices-get_elem? r i (suc n) (suc j) out index e at =
    let (x, rest, _, later, shape) = stored_indices-round r i n out e in
    let next : get_elem? rest j ≡ some index = rw (← shape) at at in
    let (below, h) = stored_indices-get_elem? r (suc i) n j rest index later next in
    (omega arith, subst (λ m. stored_index r (pos m) ≡ ok index) (omega arith) h)

pub stored_indices_total :
    (r : Resolved) (i n : ℕ)
    → ((j : ℕ) → j < i + n → (x : ℤ) × (stored_index r (pos j) ≡ ok x))
    → (out : List ℤ) × (stored_indices r i n ≡ ok out) × (length out ≡ n)
unfolding stored_indices
stored_indices_total r i zero h = ([], refl, refl)
stored_indices_total r i (suc n) h =
    let (x, here) = h i (omega arith) in
    let (rest, later, size) = stored_indices_total r (suc i) n (λ j below. h j (omega arith)) in
    (x ∷ rest, rw (here, later) refl, ap suc size)
