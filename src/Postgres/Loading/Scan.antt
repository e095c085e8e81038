-- ===== src/Postgres/Loading/Scan.antt =====
-- What the queries of `loadStructure` select among the rows of all datasets, and what its two loops
-- make of them.
use nordicintel_storage_api.Prelude.{
  ℕ, suc, ◌<◌, ◌≡◌, ◌≢◌, refl, ap, ◌∙◌, List, [], ◌∷◌, ◌++◌, map, sort, nat_beq, nat_eq, ==_refl,
  ==_of_ne, find_by, filter_by, filter_by-none, filter_by-append, Has, none, some, arith,
}
use nordicintel_storage_api.Domain.Model.{Category, Dimension}
use nordicintel_storage_api.Postgres.Tables.{
  DimensionRow, CategoryRow, position_less, join_categories, dimension_rows,
}
use nordicintel_storage_api.Postgres.Replace.{category_row}
use nordicintel_storage_api.Postgres.Loading.{dimension_row, new_rows, new_categories, Increasing}
use nordicintel_storage_api.Postgres.Loading.Order.{
  sort-InOrder, new_rows-InOrder, joined_rows, tagged, DimensionPlaces,
}

module _ (id : ℕ) where
  all_mine :
      (ks : List ℕ) (ds : List Dimension)
      → filter_by (λ (r : DimensionRow). nat_beq r.dataset_id id) (new_rows id ks ds)
        ≡ new_rows id ks ds
  all_mine [] ds = refl
  all_mine (k ∷ ks) [] = refl
  all_mine (k ∷ ks) (d ∷ ds) = rw (==_refl id) (ap (◌∷◌ (dimension_row id k d)) (all_mine ks ds))

  pub dimension_rows-new :
      (old : List DimensionRow) (ks : List ℕ) (ds : List Dimension)
      → ((r : DimensionRow) → Has r old → r.dataset_id ≢ id)
      → DimensionPlaces 0 ds
      → dimension_rows id (old ++ new_rows id ks ds) ≡ new_rows id ks ds
  unfolding dimension_rows
  dimension_rows-new old ks ds unseen w =
      let mine = λ (r : DimensionRow). nat_beq r.dataset_id id in
      ap (sort position_less) (
        filter_by-append mine old (new_rows id ks ds)
        ∙ rw (filter_by-none mine old (λ r at. ==_of_ne r.dataset_id id (unseen r at)))
            (all_mine ks ds))
      ∙ sort-InOrder position_less (new_rows id ks ds) (new_rows-InOrder id 0 ks ds w)

  -- The row of each id is found among the rows.
  abbrev Found : List DimensionRow → List ℕ → List Dimension → Type 0
  Found rows (k ∷ ks) (d ∷ ds) =
      (find_by (λ (r : DimensionRow). nat_beq r.id k) rows ≡ some (dimension_row id k d))
      × Found rows ks ds
  Found rows _ _ = Unit

  Found-cons :
      (r : DimensionRow) (rows : List DimensionRow) (n : ℕ) (ks : List ℕ) (ds : List Dimension)
      → r.id < n
      → Increasing n ks
      → Found rows ks ds
      → Found (r ∷ rows) ks ds
  Found-cons r rows n [] ds h inc f = tt
  Found-cons r rows n (k ∷ ks) [] h inc f = tt
  Found-cons r rows n (k ∷ ks) (d ∷ ds) h (le, inc) (here, f) = (
    rw (==_of_ne r.id k (λ same. absurd (omega arith))) here,
    Found-cons r rows (suc k) ks ds (omega arith) inc f,
  )

  pub new_rows-Found :
      (n : ℕ) (ks : List ℕ) (ds : List Dimension)
      → Increasing n ks
      → Found (new_rows id ks ds) ks ds
  new_rows-Found n [] ds inc = tt
  new_rows-Found n (k ∷ ks) [] inc = tt
  new_rows-Found n (k ∷ ks) (d ∷ ds) (le, inc) = (
    rw (==_refl k) refl,
    Found-cons (dimension_row id k d) (new_rows id ks ds) (suc k) ks ds (omega arith) inc
        (new_rows-Found (suc k) ks ds inc),
  )

  not_found_below :
      (m n : ℕ) (ks : List ℕ) (ds : List Dimension)
      → m < n
      → Increasing n ks
      → find_by (λ (r : DimensionRow). nat_beq r.id m) (new_rows id ks ds) ≡ none
  not_found_below m n [] ds h inc = refl
  not_found_below m n (k ∷ ks) [] h inc = refl
  not_found_below m n (k ∷ ks) (d ∷ ds) h (le, inc) =
      rw (==_of_ne k m (λ same. absurd (omega arith)))
        (not_found_below m (suc k) ks ds (omega arith) inc)

  join_dimension :
      (rows : List DimensionRow) (k : ℕ) (d : Dimension) (cs : List Category)
      (rest : List CategoryRow)
      → find_by (λ (r : DimensionRow). nat_beq r.id k) rows ≡ some (dimension_row id k d)
      → join_categories rows (map (category_row k) cs ++ rest)
        ≡ map (tagged d.position k) cs ++ join_categories rows rest
  unfolding join_categories
  join_dimension rows k d [] rest f = refl
  join_dimension rows k d (c ∷ cs) rest f =
      rw f (ap (◌∷◌ (tagged d.position k c)) (join_dimension rows k d cs rest f))

  pub join_new :
      (rows : List DimensionRow) (ks : List ℕ) (ds : List Dimension)
      → Found rows ks ds
      → join_categories rows (new_categories ks ds) ≡ joined_rows ks ds
  unfolding join_categories
  join_new rows [] ds f = refl
  join_new rows (k ∷ ks) [] f = refl
  join_new rows (k ∷ ks) (d ∷ ds) (here, f) =
      join_dimension rows k d d.categories (new_categories ks ds) here
      ∙ ap (◌++◌ (map (tagged d.position k) d.categories)) (join_new rows ks ds f)

  pub join_old :
      (n : ℕ) (ks : List ℕ) (ds : List Dimension) (old new : List CategoryRow)
      → Increasing n ks
      → ((c : CategoryRow) → Has c old → c.dimension_id < n)
      → join_categories (new_rows id ks ds) (old ++ new) ≡ join_categories (new_rows id ks ds) new
  unfolding join_categories
  join_old n ks ds [] new inc below = refl
  join_old n ks ds (c ∷ old) new inc below =
      rw (not_found_below c.dimension_id n ks ds (below c (0, refl)) inc)
        (join_old n ks ds old new inc (λ x (i, at). below x (suc i, at)))
