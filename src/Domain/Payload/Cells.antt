-- ===== src/Domain/Payload/Cells.antt =====
-- What the cells of an accepted replacement satisfy.
use nordicintel_storage_api.Prelude.{
  ℕ, zero, suc, ◌≡◌, ◌≢◌, refl, ℤ, pos, negsuc, int_eq, eq_ℤ, lt_ℤ, Bytes, true, false, not, ◌||◌,
  ◌⊎◌, inl, inr, Option, none, some, List, [], ◌∷◌, All, insert, ok, >>=-eq-ok, ok-inj, Bool-cases,
}
use nordicintel_storage_api.Domain.Model.{Cell, Float64}
use nordicintel_storage_api.Domain.Structure.{RequestDimension, category_counts}
use nordicintel_storage_api.Domain.Index.{strides}
use nordicintel_storage_api.Domain.Remap.{remap_cells, remap_cell_index, Targets}
use nordicintel_storage_api.Domain.Payload.{
  zero_cell, cell_at, add_numeric, is_some, add_text, add_status, fill_status, add_scalar_status,
}

-- A number or a text, not both.
abbrev pub IsOneValue : Cell → Type 0
IsOneValue cell = (cell.numeric ≡ none) ⊎ (cell.text ≡ none)

abbrev pub AllCells : (Cell → Type 0) → List (ℤ × Cell) → Type 0
AllCells P cells = All (λ (e : ℤ × Cell). P e.1) cells

module _ (P : Cell → Type 0) where
  AllCells-insert :
      (i : ℤ) (c : Cell) (m : List (ℤ × Cell)) → P c → AllCells P m → AllCells P (insert i c m)
  AllCells-insert i c [] p h = (p, tt)
  AllCells-insert i c ((k, d) ∷ m) p (q, h) = elim (Bool-cases (eq_ℤ k i)) [
    | inl same ↦ rw same (p, h)
    | inr other ↦ rw other (q, AllCells-insert i c m p h)
  ]

  AllCells-cell_at : (i : ℤ) (m : List (ℤ × Cell)) → P zero_cell → AllCells P m → P (cell_at i m)
  unfolding cell_at
  AllCells-cell_at i [] z h = z
  AllCells-cell_at i ((k, d) ∷ m) z (p, h) = elim (Bool-cases (eq_ℤ k i)) [
    | inl same ↦ rw same p
    | inr other ↦ rw other (unfold cell_at in AllCells-cell_at i m z h)
  ]

abbrev pub NoText : Cell → Type 0
NoText cell = cell.text ≡ none

pub add_numeric-NoText :
    (values : List (ℤ × Float64)) (m : List (ℤ × Cell))
    → AllCells NoText m
    → AllCells NoText (add_numeric values m)
unfolding add_numeric
add_numeric-NoText [] m h = h
add_numeric-NoText ((i, v) ∷ values) m h =
    add_numeric-NoText values _
      (AllCells-insert NoText i _ m (AllCells-cell_at NoText i m refl h) h)

pub AllCells-map :
    (P Q : Cell → Type 0)
    → ((c : Cell) → P c → Q c)
    → (m : List (ℤ × Cell)) → AllCells P m
    → AllCells Q m
AllCells-map P Q f [] h = tt
AllCells-map P Q f ((i, c) ∷ m) (p, h) = (f c p, AllCells-map P Q f m h)

pub ne_none_of_is_some : {A : Type 0} (o : Option A) → is_some o ≡ true → o ≢ none
ne_none_of_is_some none h = absurd (cc)
ne_none_of_is_some (some a) h = λ e. cc

pub none_of_is_some : {A : Type 0} (o : Option A) → is_some o ≡ false → o ≡ none
none_of_is_some none h = refl
none_of_is_some (some a) h = absurd (cc)

pub add_text-IsOneValue :
    (values : List (ℤ × Bytes)) (m out : List (ℤ × Cell))
    → AllCells IsOneValue m
    → add_text values m ≡ ok out
    → AllCells IsOneValue out
unfolding add_text
add_text-IsOneValue [] m out h e = let same : m ≡ out = cc in rw (← same) h
add_text-IsOneValue ((i, v) ∷ values) m out h e =
    elim (Bool-cases (is_some (cell_at i m).numeric)) [
      | inl both ↦ absurd (cc (rw both at e))
      | inr free ↦
          add_text-IsOneValue values _ out
            (AllCells-insert IsOneValue i _ m (inl (none_of_is_some _ free)) h) (rw free at e)
    ]

pub add_status-IsOneValue :
    (values : List (ℤ × Bytes)) (m : List (ℤ × Cell))
    → AllCells IsOneValue m
    → AllCells IsOneValue (add_status values m)
unfolding add_status
add_status-IsOneValue [] m h = h
add_status-IsOneValue ((i, v) ∷ values) m h =
    add_status-IsOneValue values _
      (AllCells-insert IsOneValue i _ m (AllCells-cell_at IsOneValue i m (inl refl) h) h)

fill_status-IsOneValue :
    (v : Bytes) (i n : ℕ) (m : List (ℤ × Cell))
    → AllCells IsOneValue m
    → AllCells IsOneValue (fill_status v i n m)
unfolding fill_status
fill_status-IsOneValue v i zero m h = h
fill_status-IsOneValue v i (suc n) m h =
    fill_status-IsOneValue v (suc i) n _ (
      AllCells-insert IsOneValue (pos i) _ m (AllCells-cell_at IsOneValue (pos i) m (inl refl) h) h)

pub add_scalar_status-IsOneValue :
    (o : Option Bytes) (count : ℤ) (m : List (ℤ × Cell))
    → AllCells IsOneValue m
    → AllCells IsOneValue (add_scalar_status o count m)
unfolding add_scalar_status
add_scalar_status-IsOneValue none count m h = h
add_scalar_status-IsOneValue (some v) (pos n) m h = fill_status-IsOneValue v 0 n m h
add_scalar_status-IsOneValue (some v) (negsuc n) m h = h

pub remap_cells-IsOneValue :
    (ds : List RequestDimension) (t : Targets) (count : ℤ) (m : List (ℤ × Cell)) (out : List Cell)
    → AllCells IsOneValue m
    → remap_cells ds t count m ≡ ok out
    → All IsOneValue out
unfolding remap_cells
remap_cells-IsOneValue ds t count [] out h e = let same : [] ≡ out = cc in rw (← same) tt
remap_cells-IsOneValue ds t count ((i, c) ∷ m) out (p, h) e =
    elim (Bool-cases (lt_ℤ i (pos 0) || not (lt_ℤ i count))) [
      | inl outside ↦ absurd (cc (rw outside at e))
      | inr inside ↦
          let (s, _, e₁) =
            >>=-eq-ok (remap_cell_index t i ds (category_counts ds) (strides (category_counts ds)))
              _ (rw inside at e) in
          let (rest, got, e₂) = >>=-eq-ok (remap_cells ds t count m) _ e₁ in
          let same : record c { index = s } ∷ rest ≡ out = ok-inj e₂ in
          rw (← same) (p, remap_cells-IsOneValue ds t count m rest h got)
    ]
