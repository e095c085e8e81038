-- ===== src/Postgres/Loading/Order.antt =====
-- The order that the queries of `loadStructure` ask for is the order in which the rows were inserted.
use nordicintel_storage_api.Prelude.{IsSorted, negsuc}
use nordicintel_storage_api.Prelude.{
  ℕ, suc, ◌<◌, ◌≤◌, ℤ, pos, lt_ℤ, eq_ℤ, ◌≡◌, refl, Bool, true, false, ◌&&◌, List, [], ◌∷◌, ◌++◌,
  map, All, sort, insert_sorted, ge→ltb, nat_eq, ==_of_ne, suc, arith,
}
use nordicintel_storage_api.Domain.Model.{Category, Cell, Dimension}
use nordicintel_storage_api.Domain.Axes.{CategoriesFrom, DimensionsFrom, IsNumbered, IsStored}
use nordicintel_storage_api.Domain.Remap.{cell_less}
use nordicintel_storage_api.Postgres.Tables.{DimensionRow, CategoryRow, position_less, joined_less}
use nordicintel_storage_api.Postgres.Replace.{category_row}
use nordicintel_storage_api.Postgres.Loading.{new_rows}

-- Nothing later is less.
abbrev pub InOrder {ℓ} : {A : Type ℓ} → (A → A → Bool) → List A → Type 0
InOrder less [] = Unit
InOrder less (x ∷ xs) = All (λ y. less y x ≡ false) xs × InOrder less xs

pub sort-InOrder {ℓ} :
    {A : Type ℓ} (less : A → A → Bool) (xs : List A) → InOrder less xs → sort less xs ≡ xs
unfolding sort insert_sorted
sort-InOrder less [] h = refl
sort-InOrder less (x ∷ []) h = refl
sort-InOrder less (x ∷ y ∷ ys) ((first, _), h) = rw (sort-InOrder less (y ∷ ys) h, first) refl

-- Every position is a place: of the dimensions from `i`, of their categories from 0.
abbrev pub DimensionPlaces : ℕ → List Dimension → Type 0
DimensionPlaces i [] = Unit
DimensionPlaces i (d ∷ ds) =
    (d.position ≡ pos i) × CategoriesFrom 0 d.categories × DimensionPlaces (suc i) ds

pub IsStored-DimensionPlaces : (ds : List Dimension) → IsStored ds → DimensionPlaces 0 ds
IsStored-DimensionPlaces ds w = both 0 ds w.numbered w.categories
  where
    both :
        (i : ℕ) (ds : List Dimension)
        → DimensionsFrom i ds
        → All IsNumbered ds
        → DimensionPlaces i ds
    both i [] numbered categories = tt
    both i (d ∷ ds) (at, numbered) (places, categories) =
        (at, places.numbered, both (suc i) ds numbered categories)

-- Cells sorted by index are in order.
cell_less_trans :
    (a b c : Cell) → cell_less b a ≡ false → cell_less c b ≡ false → cell_less c a ≡ false
cell_less_trans a b c h h' = lt_ℤ_trans a.index b.index c.index h h'
  where
    lt_ℤ_trans : (x y z : ℤ) → lt_ℤ y x ≡ false → lt_ℤ z y ≡ false → lt_ℤ z x ≡ false
    lt_ℤ_trans (pos x) (pos y) (pos z) h h' = ground arith
    lt_ℤ_trans (pos x) (pos y) (negsuc z) h h' = ground arith
    lt_ℤ_trans (pos x) (negsuc y) (pos z) h h' = ground arith
    lt_ℤ_trans (pos x) (negsuc y) (negsuc z) h h' = ground arith
    lt_ℤ_trans (negsuc x) (pos y) (pos z) h h' = ground arith
    lt_ℤ_trans (negsuc x) (pos y) (negsuc z) h h' = ground arith
    lt_ℤ_trans (negsuc x) (negsuc y) (pos z) h h' = ground arith
    lt_ℤ_trans (negsuc x) (negsuc y) (negsuc z) h h' = ground arith

pub IsSorted-InOrder : (cells : List Cell) → IsSorted cell_less cells → InOrder cell_less cells
IsSorted-InOrder [] h = tt
IsSorted-InOrder (c ∷ []) h = (tt, tt)
IsSorted-InOrder (c ∷ x ∷ cells) (first, h) =
    let (later, rest) = IsSorted-InOrder (x ∷ cells) h in
    ((first, after cells later), (later, rest))
  where
    after :
        (cs : List Cell) → All (λ y. cell_less y x ≡ false) cs → All (λ y. cell_less y c ≡ false) cs
    after [] hs = tt
    after (y ∷ cs) (h, hs) = (cell_less_trans c x y first h, after cs hs)

lt_ℤ_later : (i j : ℕ) → i ≤ j → lt_ℤ (pos j) (pos i) ≡ false
lt_ℤ_later i j h = ge→ltb j i h

rows_later :
    (id i j : ℕ) (ks : List ℕ) (ds : List Dimension)
    → i ≤ j
    → DimensionPlaces j ds
    → All (λ (r : DimensionRow). lt_ℤ r.position (pos i) ≡ false) (new_rows id ks ds)
rows_later id i j [] ds h w = tt
rows_later id i j (k ∷ ks) [] h w = tt
rows_later id i j (k ∷ ks) (d ∷ ds) h (at, _, w) =
    (rw at (lt_ℤ_later i j h), rows_later id i (suc j) ks ds (omega arith) w)

pub new_rows-InOrder :
    (id i : ℕ) (ks : List ℕ) (ds : List Dimension)
    → DimensionPlaces i ds
    → InOrder position_less (new_rows id ks ds)
new_rows-InOrder id i [] ds w = tt
new_rows-InOrder id i (k ∷ ks) [] w = tt
new_rows-InOrder id i (k ∷ ks) (d ∷ ds) (at, _, w) =
    (rw at (rows_later id i (suc i) ks ds (omega arith) w), new_rows-InOrder id (suc i) ks ds w)

-- What the join selects for the rows inserted.
abbrev pub tagged : ℤ → ℕ → Category → ℤ × CategoryRow
tagged p k c = (p, category_row k c)

abbrev pub joined_rows : List ℕ → List Dimension → List (ℤ × CategoryRow)
joined_rows (k ∷ ks) (d ∷ ds) = map (tagged d.position k) d.categories ++ joined_rows ks ds
joined_rows _ _ = []

-- In no row of the list the position is below `i`.
joined_later :
    (i j : ℕ) (ks : List ℕ) (ds : List Dimension)
    → i < j
    → DimensionPlaces j ds
    → (c : CategoryRow) → All (λ z. joined_less z (pos i, c) ≡ false) (joined_rows ks ds)
joined_later i j [] ds h w c = tt
joined_later i j (k ∷ ks) [] h w c = tt
joined_later i j (k ∷ ks) (d ∷ ds) h (at, _, w) c =
    here d.categories (joined_later i (suc j) ks ds (omega arith) w c)
  where
    here :
        (cs : List Category)
        → All (λ z. joined_less z (pos i, c) ≡ false) (joined_rows ks ds)
        → All
            (λ z. joined_less z (pos i, c) ≡ false)
            (map (tagged d.position k) cs ++ joined_rows ks ds)
    here [] rest = rest
    here (x ∷ cs) rest =
        (rw at (cc (lt_ℤ_later i j (omega arith), ==_of_ne j i (omega arith))), here cs rest)

and_false : (b : Bool) → (b && false) ≡ false
and_false true = refl
and_false false = refl

categories_later :
    (p : ℤ) (k i j : ℕ) (c : Category) (cs : List Category) (rest : List (ℤ × CategoryRow))
    → i < j
    → c.position ≡ pos i
    → CategoriesFrom j cs
    → All (λ z. joined_less z (p, category_row k c) ≡ false) rest
    → lt_ℤ p p ≡ false
    → All (λ z. joined_less z (p, category_row k c) ≡ false) (map (tagged p k) cs ++ rest)
categories_later p k i j c [] rest h at w after irr = after
categories_later p k i j c (x ∷ cs) rest h at (here, w) after irr = (
  (let later : lt_ℤ x.position c.position ≡ false = rw (here, at) (lt_ℤ_later i j (omega arith)) in
      rw (irr, later) (and_false (eq_ℤ p p))),
  categories_later p k i (suc j) c cs rest (omega arith) at w after irr,
)

categories-InOrder :
    (p : ℤ) (k i : ℕ) (cs : List Category) (rest : List (ℤ × CategoryRow))
    → CategoriesFrom i cs
    → lt_ℤ p p ≡ false
    → ((c : CategoryRow) → All (λ z. joined_less z (p, c) ≡ false) rest)
    → InOrder joined_less rest
    → InOrder joined_less (map (tagged p k) cs ++ rest)
categories-InOrder p k i [] rest w irr after h = h
categories-InOrder p k i (c ∷ cs) rest (at, w) irr after h = (
  categories_later p k i (suc i) c cs rest (omega arith) at w (after (category_row k c)) irr,
  categories-InOrder p k (suc i) cs rest w irr after h,
)

pub joined_rows-InOrder :
    (i : ℕ) (ks : List ℕ) (ds : List Dimension)
    → DimensionPlaces i ds
    → InOrder joined_less (joined_rows ks ds)
joined_rows-InOrder i [] ds w = tt
joined_rows-InOrder i (k ∷ ks) [] w = tt
joined_rows-InOrder i (k ∷ ks) (d ∷ ds) (at, places, w) =
    categories-InOrder d.position k 0 d.categories (joined_rows ks ds) places
      (rw at (lt_ℤ_later i i (omega arith)))
      (λ c. rw at (joined_later i (suc i) ks ds (omega arith) w c))
      (joined_rows-InOrder (suc i) ks ds w)
