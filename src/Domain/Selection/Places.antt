-- ===== src/Domain/Selection/Places.antt =====
-- The stored coordinates that one output cell gets.
use nordicintel_storage_api.Prelude.{
  ℕ, zero, suc, ◌+◌, ◌<◌, ◌≡◌, refl, sym, ap, ◌∙◌, subst, ℤ, pos, Bytes, bytes_eq, some, some-inj,
  List, [], ◌∷◌, map, length, length-map, get_elem?, get_elem?-in_bounds, get_elem?-map,
  get_elem?-set_self, get_elem?-set_ne, lt_of_get_elem?, map-set, set, AllPairs, Fresh, Distinct,
  lookup, ok, arith,
}
use nordicintel_storage_api.Domain.Model.{Code, Category, Dimension, SelectionDimension}
use nordicintel_storage_api.Domain.Index.Spec.{InBox}
use nordicintel_storage_api.Domain.Axes.{Along, category_keys, cube_sizes, DimensionsFrom}
use nordicintel_storage_api.Domain.Remap.Stored.{code_keys}
use nordicintel_storage_api.Domain.Selection.{stored_by_key, store_at, place_coordinates}
use nordicintel_storage_api.Domain.Selection.Targets.{IsTarget, selected_keys}

pub position_of_DimensionsFrom :
    (i p : ℕ) (ds : List Dimension) (d : Dimension)
    → DimensionsFrom i ds
    → get_elem? ds p ≡ some d
    → d.position ≡ pos (i + p)
position_of_DimensionsFrom i p [] d h e = cc
position_of_DimensionsFrom i zero (d' ∷ ds) d h e =
    let same : d' ≡ d = some-inj e in rw (← same) (h.0 ∙ ap pos (omega arith))
position_of_DimensionsFrom i (suc p) (d' ∷ ds) d h e =
    position_of_DimensionsFrom (suc i) p ds d h.1 e ∙ ap pos (omega arith)

-- A coordinate that is in bounds keeps the coordinates in the box.
pub InBox-set :
    (vs ns : List ℕ) (p q n : ℕ)
    → InBox vs ns
    → get_elem? ns p ≡ some n
    → q < n
    → InBox (set vs p q) ns
InBox-set [] [] p q n h e l = tt
InBox-set [] (m ∷ ns) p q n h e l = elim h [ ]
InBox-set (v ∷ vs) [] p q n h e l = elim h [ ]
InBox-set (v ∷ vs) (m ∷ ns) zero q n h e l = (subst (λ k. q < k) (sym (some-inj e)) l, h.1)
InBox-set (v ∷ vs) (m ∷ ns) (suc p) q n h e l = (h.0, InBox-set vs ns p q n h.1 e l)

InBox-lt : (vs ns : List ℕ) (p n : ℕ) → InBox vs ns → get_elem? ns p ≡ some n → p < length vs
InBox-lt [] [] p n h e = cc
InBox-lt [] (m ∷ ns) p n h e = elim h [ ]
InBox-lt (v ∷ vs) [] p n h e = elim h [ ]
InBox-lt (v ∷ vs) (m ∷ ns) zero n h e = omega arith
InBox-lt (v ∷ vs) (m ∷ ns) (suc p) n h e = omega (arith, InBox-lt vs ns p n h.1 e)

-- a write in bounds
store_at-inside :
    (vs : List ℕ) (p v : ℕ)
    → p < length vs
    → store_at (map pos vs) (pos p) (pos v) ≡ ok (map pos (set vs p v))
store_at-inside vs p v h = rw (length-map, map-set) (ground arith)

-- What the coordinates choose for a requested dimension, at the stored place of its key.
pub record IsHit (stored : List Dimension) (vs : List ℕ) (r : SelectionDimension) (c : ℕ)
    : Type 0 where
  pub dimension : Dimension
  pub place : ℕ
  pub at : get_elem? stored place ≡ some dimension
  pub same_key : dimension.code.key ≡ r.code.key
  pub category : ℕ
  pub value : get_elem? vs place ≡ some category
  pub same_category :
      get_elem? (category_keys dimension.categories) category ≡ get_elem? (code_keys r.categories) c

place_coordinates-round :
    (by_key : List (Bytes × Dimension)) (c : ℕ) (coords : List ℤ) (r : SelectionDimension)
    (requested : List SelectionDimension) (positions : List ℤ) (selected : List (List ℤ))
    (vs : List ℕ) (d : Dimension) (p q : ℕ)
    → get_elem? positions c ≡ some (pos q)
    → lookup r.code.key by_key ≡ some d
    → d.position ≡ pos p
    → p < length vs
    → place_coordinates by_key (pos c ∷ coords) (r ∷ requested) (positions ∷ selected) (map pos vs)
      ≡ place_coordinates by_key coords requested selected (map pos (set vs p q))
unfolding place_coordinates
place_coordinates-round by_key c coords r requested positions selected vs d p q at found stands
      inside =
    rw (at, found, stands, store_at-inside vs p q inside)

module _ (stored : List Dimension) (numbered : DimensionsFrom 0 stored) where
  -- The coordinates at stored dimensions that are not requested do not change.
  abbrev IsKept : List SelectionDimension → List ℕ → List ℕ → Type 0
  IsKept requested vs ws =
      (p : ℕ) (d : Dimension)
      → get_elem? stored p ≡ some d
      → Fresh d.code.key (selected_keys requested)
      → get_elem? ws p ≡ get_elem? vs p

  IsKept-set :
      (r : SelectionDimension) (requested : List SelectionDimension) (vs ws : List ℕ)
      (d : Dimension) (p q : ℕ)
      → get_elem? stored p ≡ some d
      → d.code.key ≡ r.code.key
      → IsKept requested (set vs p q) ws
      → IsKept (r ∷ requested) vs ws
  IsKept-set r requested vs ws d p q at same kept p' d' at' (ne, f) =
      kept p' d' at' f
      ∙ get_elem?-set_ne vs p p' q (λ e.
        let here : some d' ≡ some d = sym at' ∙ ap (get_elem? stored) (sym e) ∙ at in
        ne (ap (λ (x : Dimension). x.code.key) (some-inj here) ∙ same))

  IsHit-head :
      (r : SelectionDimension) (positions : List ℤ) (requested : List SelectionDimension)
      (vs ws : List ℕ) (c q : ℕ) (code : Code)
      → (t : IsTarget stored r positions) → get_elem? r.categories c ≡ some code
      → get_elem? (category_keys t.dimension.categories) q ≡ some code.key
      → t.place < length vs
      → Fresh r.code.key (selected_keys requested)
      → IsKept requested (set vs t.place q) ws
      → IsHit stored ws r c
  IsHit-head r positions requested vs ws c q code t here key inside fresh kept = record {
    dimension = t.dimension;
    place = t.place;
    at = t.at;
    same_key = t.same_key;
    category = q;
    value =
        kept t.place t.dimension t.at
          (subst (λ k. Fresh k (selected_keys requested)) (sym t.same_key) fresh)
        ∙ get_elem?-set_self vs t.place q inside;
    same_category = key ∙ sym (get_elem?-map (λ (x : Code). x.key) r.categories c code here);
  }

  -- The loop ends with coordinates in the box that have every requested category at its place.
  pub place_coordinates-IsHit :
      (requested : List SelectionDimension) (selected : List (List ℤ)) (cs vs : List ℕ)
      → AllPairs (IsTarget stored) requested selected
      → Along (λ r c. c < length r.categories) requested cs
      → Distinct (selected_keys requested)
      → InBox vs (cube_sizes stored)
      → (ws : List ℕ) × (place_coordinates
            (stored_by_key stored)
            (map pos cs)
            requested
            selected
            (map pos vs)
          ≡ ok (map pos ws))
        × InBox ws (cube_sizes stored)
        × Along (IsHit stored ws) requested cs
        × IsKept requested vs ws
  place_coordinates-IsHit [] [] [] vs t b u inside =
      (vs, unfold place_coordinates in refl, inside, tt, λ p d at f. refl)
  place_coordinates-IsHit [] [] (c ∷ cs) vs t b u inside = elim b [ ]
  place_coordinates-IsHit [] (ps ∷ selected) cs vs t b u inside = elim t [ ]
  place_coordinates-IsHit (r ∷ requested) [] cs vs t b u inside = elim t [ ]
  place_coordinates-IsHit (r ∷ requested) (ps ∷ selected) [] vs t b u inside = elim b [ ]
  place_coordinates-IsHit (r ∷ requested) (ps ∷ selected) (c ∷ cs) vs (t, ts) (below, b) (fresh, u)
        inside =
      let (code, here) = get_elem?-in_bounds r.categories c below in
      let (q, at, key) = t.chosen c code here in
      let size =
        get_elem?-map (λ (d : Dimension). length d.categories) stored t.place t.dimension t.at in
      let small : q < length t.dimension.categories = omega (
        arith,
        lt_of_get_elem? (category_keys t.dimension.categories) q code.key key,
        length-map (λ (x : Category). x.code.key) t.dimension.categories,
      ) in
      let within = InBox-lt vs (cube_sizes stored) t.place _ inside size in
      let (ws, run, box, hits, kept) =
        place_coordinates-IsHit requested selected cs (set vs t.place q) ts b u
          (InBox-set vs (cube_sizes stored) t.place q _ inside size small) in
      (
        ws,
        place_coordinates-round (stored_by_key stored) c (map pos cs) r requested ps selected vs
              t.dimension t.place q at t.found
              (position_of_DimensionsFrom 0 t.place stored t.dimension numbered t.at
                ∙ ap pos (omega arith))
              within
            ∙ run,
        box,
        (IsHit-head r ps requested vs ws c q code t here key within fresh kept, hits),
        IsKept-set r requested vs ws t.dimension t.place q t.at t.same_key kept,
      )
