-- ===== src/Domain/Remap/Positions.antt =====
-- What the position maps of `remapReplacement` hold for a stored structure.
use nordicintel_storage_api.Prelude.{
  ℕ, zero, suc, ◌+◌, ◌≡◌, refl, sym, ap, ◌∙◌, ℤ, pos, Bytes, bytes_eq, some, List, [], ◌∷◌, map,
  get_elem?, Fresh, Distinct, lookup, insert, lookup-insert, insert_all-present, some-inj, ==_of_ne,
  ==_refl, arith,
}
use nordicintel_storage_api.Domain.Model.{Category, Dimension}
use nordicintel_storage_api.Domain.Axes.{IsNumbered, IsStored, position_of_CategoriesFrom}
use nordicintel_storage_api.Domain.Remap.{dimension_positions, positions_of, category_positions}
use nordicintel_storage_api.Domain.Remap.Stored.{map-map}

abbrev pub stored_keys : List Dimension → List Bytes
stored_keys ds = map (λ (d : Dimension). d.code.key) ds

pub stored_keys-Distinct : (ds : List Dimension) → IsStored ds → Distinct (stored_keys ds)
stored_keys-Distinct ds s = rw map-map at s.distinct

dimension_positions-absent :
    (k : Bytes) (i : ℕ) (ds : List Dimension) (m : List (Bytes × ℤ))
    → Fresh k (stored_keys ds)
    → lookup k (dimension_positions i ds m) ≡ lookup k m
unfolding dimension_positions
dimension_positions-absent k i [] m f = refl
dimension_positions-absent k i (d ∷ ds) m (ne, f) =
    dimension_positions-absent k (suc i) ds (insert d.code.key (pos i) m) f
    ∙ lookup-insert d.code.key k (pos i) m
    ∙ rw (==_of_ne d.code.key k (λ e. ne (sym e)))

dimension_positions-from :
    (i j : ℕ) (ds : List Dimension) (d : Dimension) (m : List (Bytes × ℤ))
    → Distinct (stored_keys ds)
    → get_elem? ds j ≡ some d
    → lookup d.code.key (dimension_positions i ds m) ≡ some (pos (i + j))
unfolding dimension_positions
dimension_positions-from i j [] d m h e = cc
dimension_positions-from i zero (d' ∷ ds) d m (f, h) e =
    let same : d' ≡ d = some-inj e in
    rw (← same) (
      dimension_positions-absent d'.code.key (suc i) ds (insert d'.code.key (pos i) m) f
      ∙ lookup-insert d'.code.key d'.code.key (pos i) m
      ∙ rw (==_refl d'.code.key) (ap (λ n. some (pos n)) (omega arith)))
dimension_positions-from i (suc j) (d' ∷ ds) d m (f, h) e =
    dimension_positions-from (suc i) j ds d (insert d'.code.key (pos i) m) h e
    ∙ ap (λ n. some (pos n)) (omega arith)

module _ (ds : List Dimension) (s : IsStored ds) where
  -- `dimensionPosition` has the place of each stored dimension.
  pub dimension_positions-present :
      (j : ℕ) (d : Dimension)
      → get_elem? ds j ≡ some d
      → lookup d.code.key (dimension_positions 0 ds []) ≡ some (pos j)
  dimension_positions-present j d e =
      dimension_positions-from 0 j ds d [] (stored_keys-Distinct ds s) e
      ∙ ap (λ n. some (pos n)) (omega arith)

  -- `categoryPositions` has the category positions of each stored dimension.
  pub category_positions-present :
      (j : ℕ) (d : Dimension)
      → get_elem? ds j ≡ some d
      → lookup d.code.key (category_positions ds) ≡ some (positions_of d.categories)
  unfolding category_positions
  category_positions-present j d e =
      insert_all-present (λ (x : Dimension). x.code.key) (λ x. positions_of x.categories) ds [] j d
        (stored_keys-Distinct ds s) e

-- The categories of a numbered dimension are found at their places.
pub positions_of-present :
    (d : Dimension) (j : ℕ) (c : Category)
    → IsNumbered d
    → get_elem? d.categories j ≡ some c
    → lookup c.code.key (positions_of d.categories) ≡ some (pos j)
unfolding positions_of
positions_of-present d j c n e =
    insert_all-present (λ (x : Category). x.code.key) (λ x. x.position) d.categories [] j c
      n.distinct e
    ∙ ap some (position_of_CategoriesFrom 0 j d.categories c n.numbered e ∙ ap pos (omega arith))
