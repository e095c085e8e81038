-- ===== src/Domain/Payload/WellFormed.antt =====
-- What `ParseReplacement` hands to the store.
use nordicintel_storage_api.Prelude.{
  ℕ, zero, suc, ◌≤◌, ◌≡◌, ◌≢◌, ◌⊎◌, none, Bool-cases, inl, sym, ap, ◌∙◌, ℤ, pos, negsuc, lt_ℤ,
  Bytes, true, false, List, [], ◌∷◌, All, All-sort, inr, ok, map_err, require, >>=-eq-ok,
  map_err-eq-ok, ok-inj, arith, IsSorted, sort, sort-IsSorted, max_int64,
}
use nordicintel_storage_api.Domain.Model.{Cell, Dimension, Replacement}
use nordicintel_storage_api.Domain.Normalize.{Unicode, normalize_code}
use nordicintel_storage_api.Domain.Index.Spec.{product}
use nordicintel_storage_api.Domain.Axes.{IsStored, cube_sizes}
use nordicintel_storage_api.Domain.Structure.{RequestDimension, parse_request_dimensions}
use nordicintel_storage_api.Domain.Structure.Laws.{
  IsStructure, parse_request_dimensions-IsStructure,
}
use nordicintel_storage_api.Domain.Remap.{
  remap_cells, remap_replacement, cell_less, targets, stored_dimensions,
}
use nordicintel_storage_api.Domain.Remap.Stored.{stored_dimensions-IsStored, product-stored}
use nordicintel_storage_api.Domain.Remap.Accepted.{IsStructure-IsRequest}
use nordicintel_storage_api.Domain.Channels.{
  Json, parse_numeric_channel, parse_string_channel, parse_status_channel,
}
use nordicintel_storage_api.Domain.Payload.{
  ReplacementPayload, BodyDecoder, value_channel, text_channel, status_channel, provider_code,
  dataset_code, invalid_json, structure, stored_order, source_stamp_required, value_required,
  add_numeric, add_text, is_some, valued_cells, parse_cells, parse_replacement,
}
use nordicintel_storage_api.Domain.Payload.Cells.{
  none_of_is_some, ne_none_of_is_some, IsOneValue, AllCells, AllCells-map, NoText,
  add_numeric-NoText, add_text-IsOneValue, add_status-IsOneValue, add_scalar_status-IsOneValue,
  remap_cells-IsOneValue,
}
use nordicintel_storage_api.Jsonx.{decode_strict}

module _ (u : Unicode) (j : Json) (d : BodyDecoder ReplacementPayload) where
  parse_cells-IsOneValue :
      (payload : ReplacementPayload) (value : Bytes) (count : ℤ) (cells : List (ℤ × Cell))
      → parse_cells u j d payload value count ≡ ok cells
      → AllCells IsOneValue cells
  unfolding parse_cells
  parse_cells-IsOneValue payload value count cells e =
      let ((numeric, r), _, e₁) =
        >>=-eq-ok (map_err value_channel (parse_numeric_channel j value count)) _ e in
      let (texts, _, e₂) =
        >>=-eq-ok (map_err text_channel (parse_string_channel j payload.text count r false)) _ e₁ in
      let ((statuses, scalar), _, e₃) =
        >>=-eq-ok (map_err status_channel (parse_status_channel j payload.status count)) _ e₂ in
      let (with_text, added, e₄) = >>=-eq-ok (add_text texts (add_numeric numeric [])) _ e₃ in
      let same = ok-inj e₄ in
      rw (← same) (
        add_scalar_status-IsOneValue scalar count _ (
          add_status-IsOneValue statuses _ (
            add_text-IsOneValue texts _ with_text
              (AllCells-map NoText IsOneValue (λ c h. inr h) _ (add_numeric-NoText numeric [] tt))
              added)))

less_asym : (a b : Cell) → cell_less a b ≡ true → cell_less b a ≡ false
less_asym a b h = lt_asym a.index b.index h
  where
    lt_asym : (x y : ℤ) → lt_ℤ x y ≡ true → lt_ℤ y x ≡ false
    lt_asym (pos x) (pos y) h = ground arith
    lt_asym (pos x) (negsuc y) h = ground arith
    lt_asym (negsuc x) (pos y) h = ground arith
    lt_asym (negsuc x) (negsuc y) h = ground arith

-- The cells, of which `n` have a number or a text.
pub data ValuedCells : List Cell → ℕ → Type 0 where
  no_cells : ValuedCells [] zero
  valued :
      (c : Cell) {cells : List Cell} {n : ℕ}
      → (c.numeric ≢ none) ⊎ (c.text ≢ none)
      → ValuedCells cells n
      → ValuedCells (c ∷ cells) (suc n)
  empty :
      (c : Cell) {cells : List Cell} {n : ℕ}
      → c.numeric ≡ none
      → c.text ≡ none
      → ValuedCells cells n
      → ValuedCells (c ∷ cells) n

valued_cells-ValuedCells : (cells : List Cell) → ValuedCells cells (valued_cells cells)
unfolding valued_cells
valued_cells-ValuedCells [] = no_cells
valued_cells-ValuedCells (c ∷ cells) =
    let rest = valued_cells-ValuedCells cells in
    elim (Bool-cases (is_some c.numeric)) [
      | inl number ↦ rw number (valued c (inl (ne_none_of_is_some _ number)) rest)
      | inr no_number ↦ elim (Bool-cases (is_some c.text)) [
        | inl text ↦ rw (no_number, text) (valued c (inr (ne_none_of_is_some _ text)) rest)
        | inr no_text ↦
            rw (no_number, no_text)
              (empty c (none_of_is_some _ no_number) (none_of_is_some _ no_text) rest)
      ]
    ]

-- What the store relies on.
pub record IsWellFormed (limit : ℕ) (r : Replacement) : Type 0 where
  pub is_stored : IsStored r.dimensions
  pub count_exact : r.cell_count ≡ pos (product (cube_sizes r.dimensions))
  pub in_limit : product (cube_sizes r.dimensions) ≤ limit
  pub valued_exact : (n : ℕ) × (r.valued_count ≡ pos n) × ValuedCells r.cells n
  pub one_value : All IsOneValue r.cells
  pub sorted : IsSorted cell_less r.cells

remap_replacement-Parts :
    (ds : List RequestDimension) (request_cells : List (ℤ × Cell)) (count : ℤ)
    (stored : List Dimension) (cells : List Cell)
    → AllCells IsOneValue request_cells
    → remap_replacement ds request_cells count ≡ ok (stored, cells)
    → (stored_dimensions ds ≡ stored) × All IsOneValue cells × IsSorted cell_less cells
unfolding remap_replacement
remap_replacement-Parts ds request_cells count stored cells h e =
    let (remapped, got, e') =
      >>=-eq-ok (remap_cells ds (targets (stored_dimensions ds)) count request_cells) _ e in
    let pair = ok-inj e' in
    let same : sort cell_less remapped ≡ cells = ap (λ p. p.1) pair in
    (
      ap (λ p. p.0) pair,
      rw (← same) (
          All-sort cell_less IsOneValue remapped (
            remap_cells-IsOneValue ds (targets (stored_dimensions ds)) count request_cells remapped
              h got)),
      rw (← same) (sort-IsSorted cell_less less_asym remapped),
    )

assemble :
    (u : Unicode) (ids : List Bytes) (payload : ReplacementPayload) (limit : ℕ)
    (ds : List RequestDimension) (count : ℤ) (stored : List Dimension) (cells : List Cell)
    (r : Replacement)
    → IsStructure u payload.id payload.dimension limit ds count
    → (stored_dimensions ds ≡ stored) × All IsOneValue cells × IsSorted cell_less cells
    → r.dimensions ≡ stored
    → r.cells ≡ cells
    → r.cell_count ≡ count
    → r.valued_count ≡ pos (valued_cells cells)
    → IsWellFormed limit r
assemble u ids payload limit ds count stored cells r s (same, ones, sorted) same_ds same_cells
      same_count same_valued =
    let request = IsStructure-IsRequest u payload.dimension payload.id limit ds count s in
    let at : r.dimensions ≡ stored_dimensions ds = same_ds ∙ sym same in
    record {
      is_stored = rw at (stored_dimensions-IsStored ds request);
      count_exact = rw (at, product-stored) (same_count ∙ s.count_exact);
      in_limit = rw (at, product-stored) s.in_limit;
      valued_exact =
          (valued_cells cells, same_valued, rw same_cells (valued_cells-ValuedCells cells));
      one_value = rw same_cells ones;
      sorted = rw same_cells sorted;
    }

module _ (u : Unicode) (j : Json) (d : BodyDecoder ReplacementPayload) where
  -- A replacement that `ParseReplacement` accepts under a positive limit that an int64 holds,
  -- whatever the Unicode tables and the JSON decoder return, has dimensions and categories numbered
  -- by place with distinct keys, `CellCount` equal to the number of cells of their cube and within
  -- the limit, `ValuedCount` equal to the number of its cells that have a number or a text, no cell
  -- with both, and its cells in the order of their indexes.
  pub parse_replacement-IsWellFormed :
      (provider dataset body : Bytes) (limit : ℕ) (r : Replacement)
      → 1 ≤ limit
      → limit ≤ max_int64
      → parse_replacement u j d provider dataset body (pos limit) ≡ ok r
      → IsWellFormed limit r
  unfolding parse_replacement
  parse_replacement-IsWellFormed provider dataset body limit r low high e =
      let (p, _, e₁) = >>=-eq-ok (map_err provider_code (normalize_code u provider)) _ e in
      let (q, _, e₂) = >>=-eq-ok (map_err dataset_code (normalize_code u dataset)) _ e₁ in
      let (payload, _, e₃) =
        >>=-eq-ok (map_err invalid_json (decode_strict d.valid_utf8 d.tokens d.decode body)) _ e₂ in
      let (stamp, _, e₄) = >>=-eq-ok (require source_stamp_required payload.source_stamp) _ e₃ in
      let (value, _, e₅) = >>=-eq-ok (require value_required payload.value) _ e₄ in
      let ((ds, count), parsed, e₆) =
        >>=-eq-ok
          (map_err structure (parse_request_dimensions u payload.id payload.dimension (pos limit)))
          _ e₅ in
      let (request_cells, got, e₇) = >>=-eq-ok (parse_cells u j d payload value count) _ e₆ in
      let ((stored, cells), remapped, e₈) =
        >>=-eq-ok (map_err stored_order (remap_replacement ds request_cells count)) _ e₇ in
      let same = sym (ok-inj e₈) in
      assemble u payload.id payload limit ds count stored cells r
        (parse_request_dimensions-IsStructure u payload.id payload.dimension limit ds count low high
          (map_err-eq-ok structure _ parsed))
        (remap_replacement-Parts ds request_cells count stored cells
          (parse_cells-IsOneValue u j d payload value count request_cells got)
          (map_err-eq-ok stored_order _ remapped))
        (ap (λ (x : Replacement). x.dimensions) same) (ap (λ (x : Replacement). x.cells) same)
        (ap (λ (x : Replacement). x.cell_count) same)
        (ap (λ (x : Replacement). x.valued_count) same)
