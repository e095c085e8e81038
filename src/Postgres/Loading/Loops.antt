-- ===== src/Postgres/Loading/Loops.antt =====
-- What the two loops of `loadStructure` make of the rows that a replacement inserted.
use nordicintel_storage_api.Prelude.{
  ℕ, suc, ◌<◌, ℤ, ◌≡◌, ◌≢◌, refl, ap, sym, subst, ◌∙◌, List, [], ◌∷◌, ◌++◌, map, length,
  length-append, nat_eq, ==_refl, ==_of_ne, Has, some, lookup, insert, lookup-insert,
  modify_at-append, append_cons, sort, ok, arith,
}
use nordicintel_storage_api.Domain.Model.{Category, Dimension}
use nordicintel_storage_api.Postgres.Tables.{
  DimensionRow, CategoryRow, joined_less, join_categories, scan_dimensions, scan_categories,
  append_category, load_structure,
}
use nordicintel_storage_api.Postgres.Loading.{append_nil, new_rows, new_categories, Increasing}
use nordicintel_storage_api.Postgres.Loading.Order.{
  sort-InOrder, joined_rows-InOrder, joined_rows, tagged, DimensionPlaces,
}
use nordicintel_storage_api.Postgres.Loading.Scan.{
  dimension_rows-new, new_rows-Found, join_new, join_old,
}

abbrev with_categories : Dimension → List Category → Dimension
with_categories d cs = record d { categories = cs }

abbrev bare : Dimension → Dimension
bare d = with_categories d []

-- Each id has the place of its dimension, counted from `j`.
abbrev Indexed : List (ℕ × ℕ) → ℕ → List ℕ → Type 0
Indexed indexes j [] = Unit
Indexed indexes j (k ∷ ks) = (lookup k indexes ≡ some j) × Indexed indexes (suc j) ks

module _ (id : ℕ) where
  scanned :
      (ks : List ℕ) (ds done : List Dimension) (indexes : List (ℕ × ℕ))
      → length ks ≡ length ds
      → (scan_dimensions (new_rows id ks ds) done indexes).0 ≡ done ++ map bare ds
  unfolding scan_dimensions
  scanned [] [] done indexes h = sym (append_nil done)
  scanned [] (d ∷ ds) done indexes h = absurd (omega arith)
  scanned (k ∷ ks) [] done indexes h = absurd (omega arith)
  scanned (k ∷ ks) (d ∷ ds) done indexes h =
      scanned ks ds (done ++ (bare d ∷ [])) (insert k (length done) indexes) (omega arith)
      ∙ append_cons done (map bare ds) (bare d)

  -- The loop leaves the entries of smaller ids.
  scanned_below :
      (m n : ℕ) (ks : List ℕ) (ds done : List Dimension) (indexes : List (ℕ × ℕ))
      → m < n
      → Increasing n ks
      → lookup m (scan_dimensions (new_rows id ks ds) done indexes).1 ≡ lookup m indexes
  unfolding scan_dimensions
  scanned_below m n [] ds done indexes h inc = refl
  scanned_below m n (k ∷ ks) [] done indexes h inc = refl
  scanned_below m n (k ∷ ks) (d ∷ ds) done indexes h (le, inc) =
      scanned_below m (suc k) ks ds (done ++ (bare d ∷ [])) (insert k (length done) indexes)
        (omega arith) inc
      ∙ lookup-insert k m (length done) indexes
      ∙ rw (==_of_ne k m (λ same. absurd (omega arith))) refl

  scanned_indexes :
      (n : ℕ) (ks : List ℕ) (ds done : List Dimension) (indexes : List (ℕ × ℕ))
      → length ks ≡ length ds
      → Increasing n ks
      → Indexed (scan_dimensions (new_rows id ks ds) done indexes).1 (length done) ks
  unfolding scan_dimensions
  scanned_indexes n [] ds done indexes h inc = tt
  scanned_indexes n (k ∷ ks) [] done indexes h inc = absurd (omega arith)
  scanned_indexes n (k ∷ ks) (d ∷ ds) done indexes h (le, inc) =
      let next = insert k (length done) indexes in
      let more = done ++ (bare d ∷ []) in
      let one : length more ≡ suc (length done) = omega (arith, length-append done (bare d ∷ [])) in
      (
        scanned_below k (suc k) ks ds more next (omega arith) inc
            ∙ lookup-insert k k (length done) indexes
            ∙ rw (==_refl k) refl,
        subst (λ j. Indexed (scan_dimensions (new_rows id ks ds) more next).1 j ks) one
            (scanned_indexes (suc k) ks ds more next (omega arith) inc),
      )

-- The categories of one dimension are appended to it.
scan_dimension :
    (indexes : List (ℕ × ℕ)) (k : ℕ) (p : ℤ) (done after : List Dimension) (d : Dimension)
    (before cs : List Category) (rest : List (ℤ × CategoryRow))
    → lookup k indexes ≡ some (length done)
    → scan_categories indexes
        (map (tagged p k) cs ++ rest)
        (done ++ (with_categories d before ∷ after))
      ≡ scan_categories indexes rest (done ++ (with_categories d (before ++ cs) ∷ after))
unfolding scan_categories
scan_dimension indexes k p done after d before [] rest h =
    ap (λ z. scan_categories indexes rest (done ++ (with_categories d z ∷ after)))
      (sym (append_nil before))
scan_dimension indexes k p done after d before (c ∷ cs) rest h =
    rw (h, modify_at-append (append_category c) done after (with_categories d before))
      (scan_dimension indexes k p done after d (before ++ (c ∷ [])) cs rest h
        ∙ ap (λ z. scan_categories indexes rest (done ++ (with_categories d z ∷ after)))
            (append_cons before cs c))

scan_all :
    (indexes : List (ℕ × ℕ)) (ks : List ℕ) (ds done : List Dimension)
    → length ks ≡ length ds
    → Indexed indexes (length done) ks
    → scan_categories indexes (joined_rows ks ds) (done ++ map bare ds) ≡ ok (done ++ ds)
unfolding scan_categories
scan_all indexes [] [] done h f = refl
scan_all indexes [] (d ∷ ds) done h f = absurd (omega arith)
scan_all indexes (k ∷ ks) [] done h f = absurd (omega arith)
scan_all indexes (k ∷ ks) (d ∷ ds) done h (here, f) =
    let one : length (done ++ (d ∷ [])) ≡ suc (length done) =
      omega (arith, length-append done (d ∷ [])) in
    scan_dimension indexes k d.position done (map bare ds) d [] d.categories (joined_rows ks ds)
      here
    ∙ ap (scan_categories indexes (joined_rows ks ds)) (sym (append_cons done (map bare ds) d))
    ∙ scan_all indexes ks ds (done ++ (d ∷ [])) (omega arith)
        (subst (λ j. Indexed indexes j ks) (sym one) f)
    ∙ ap ok (append_cons done ds d)

-- The structure that is loaded is the one whose rows were inserted.
pub load_structure-new :
    (id n : ℕ) (ks : List ℕ) (ds : List Dimension) (old : List DimensionRow)
    (old_categories : List CategoryRow)
    → length ks ≡ length ds
    → Increasing n ks
    → DimensionPlaces 0 ds
    → ((r : DimensionRow) → Has r old → r.dataset_id ≢ id)
    → ((c : CategoryRow) → Has c old_categories → c.dimension_id < n)
    → load_structure id (old ++ new_rows id ks ds) (old_categories ++ new_categories ks ds) ≡ ok ds
unfolding load_structure
load_structure-new id n ks ds old old_categories as_many inc w unseen below =
    let rows = new_rows id ks ds in
    let joined : join_categories rows (old_categories ++ new_categories ks ds) ≡ joined_rows ks ds =
      join_old id n ks ds old_categories (new_categories ks ds) inc below
      ∙ join_new id rows ks ds (new_rows-Found id n ks ds inc) in
    let sorted : sort joined_less (joined_rows ks ds) ≡ joined_rows ks ds =
      sort-InOrder joined_less (joined_rows ks ds) (joined_rows-InOrder 0 ks ds w) in
    rw (dimension_rows-new id old ks ds unseen w, joined, sorted, scanned id ks ds [] [] as_many)
      (scan_all (scan_dimensions rows [] []).1 ks ds [] as_many
        (scanned_indexes id n ks ds [] [] as_many inc))
