-- ===== src/Domain/Structure/Laws.antt =====
-- What an accepted request structure satisfies.
use mathlib.Core.List.{Memᴰ}
use nordicintel_storage_api.Prelude.{
  unseen-cons, ℕ, ◌≤◌, ◌≡◌, ◌≢◌, refl, sym, ap, ◌∙◌, ℤ, pos, max_int64, Bytes, bytes_eq, false,
  some, List, [], ◌∷◌, map, length, lookup, insert, lookup-insert, contains, ok, map_err, arith,
  Bool-cases, Option-cases, some-inj, ok-inj, inl, inr, >>=-eq-ok, map_err-eq-ok, ltb, nat_beq,
  ◌||◌, Distinct, All, eq_of_==, subst,
}
use nordicintel_storage_api.Domain.Model.{Code, max_dimensions}
use nordicintel_storage_api.Domain.Normalize.{Unicode, normalize_code}
use nordicintel_storage_api.Domain.Index.{checked_product}
use nordicintel_storage_api.Domain.Index.Spec.{product}
use nordicintel_storage_api.Domain.Index.Product.{checked_product_iff}
use nordicintel_storage_api.Domain.Index.Agreement.{IsCube}
use nordicintel_storage_api.Domain.Structure.{
  DimensionPayload, RequestDimension, dimension_code, id_dimension_code, cube, dimensions_by_key,
  parse_categories, parse_entry, parse_ids, category_counts, parse_request_dimensions,
}
use nordicintel_storage_api.Domain.Structure.Layout.{IsLayout, parse_categories-IsLayout}

-- The number of categories of each dimension.
abbrev pub sizes : List RequestDimension → List ℕ
sizes ds = map (λ (d : RequestDimension). length d.categories) ds

abbrev pub dimension_keys : List RequestDimension → List Bytes
dimension_keys ds = map (λ (d : RequestDimension). d.code.key) ds

pub category_counts-sizes : (ds : List RequestDimension) → category_counts ds ≡ map pos (sizes ds)
unfolding category_counts
category_counts-sizes [] = refl
category_counts-sizes (d ∷ ds) = ap (◌∷◌ (pos (length d.categories))) (category_counts-sizes ds)

module _ (u : Unicode) (payload : List (Bytes × DimensionPayload)) where
  -- A code and an index object that the payload declares.
  pub record IsMember (code : Code) (members : DimensionPayload) : Type 0 where
    pub spelling : Bytes
    pub listed : Memᴰ (spelling, members) payload
    pub normalized : normalize_code u spelling ≡ ok code

  -- The dimension that the payload declares for an `id` spelling.
  pub record IsDeclared (id : Bytes) (d : RequestDimension) : Type 0 where
    pub id_code : Code
    pub id_normalized : normalize_code u id ≡ ok id_code
    pub same_key : d.code.key ≡ id_code.key
    pub members : DimensionPayload
    pub member : IsMember d.code members
    pub layout : IsLayout u members.index d.categories

  -- One declared dimension for each id, in the order of the ids.
  abbrev pub AllDeclared : List Bytes → List RequestDimension → Type 0
  AllDeclared [] [] = Unit
  AllDeclared (id ∷ ids) (d ∷ ds) = IsDeclared id d × AllDeclared ids ds
  AllDeclared _ _ = ⊥

  abbrev IsIndexed : List (Bytes × (Code × DimensionPayload)) → Type 0
  IsIndexed by_key =
      (k : Bytes) (code : Code) (members : DimensionPayload)
      → lookup k by_key ≡ some (code, members)
      → (code.key ≡ k) × IsMember code members

  IsIndexed-insert :
      (by_key : List (Bytes × (Code × DimensionPayload))) (code : Code) (members : DimensionPayload)
      → IsIndexed by_key
      → IsMember code members
      → IsIndexed (insert code.key (code, members) by_key)
  IsIndexed-insert by_key code members h m k c ms e = elim (Bool-cases (bytes_eq.same code.key k)) [
    | inl same ↦
        let at = eq_of_== code.key k same in
        let entry : some (code, members) ≡ some (c, ms) =
          sym (rw same at (lookup-insert code.key k (code, members) by_key)) ∙ e in
        let pair = some-inj entry in
        (
          ap (λ (p : Code × DimensionPayload). p.0.key) (sym pair) ∙ at,
          subst (λ (p : Code × DimensionPayload). IsMember p.0 p.1) pair m,
        )
    | inr other ↦ h k c ms (sym (rw other at (lookup-insert code.key k (code, members) by_key)) ∙ e)
  ]

  dimensions_by_key-IsIndexed :
      (rest : List (Bytes × DimensionPayload))
      (by_key out : List (Bytes × (Code × DimensionPayload)))
      → ((m : Bytes × DimensionPayload) → Memᴰ m rest → Memᴰ m payload)
      → IsIndexed by_key
      → dimensions_by_key u rest by_key ≡ ok out
      → IsIndexed out
  unfolding dimensions_by_key
  dimensions_by_key-IsIndexed [] by_key out sub h e = let same : by_key ≡ out = cc in rw (← same) h
  dimensions_by_key-IsIndexed ((spelling, members) ∷ rest) by_key out sub h e =
      let (code, normalized, e') =
        >>=-eq-ok (map_err dimension_code (normalize_code u spelling)) _ e in
      let m : IsMember code members = record {
        spelling = spelling;
        listed = sub (spelling, members) (Memᴰ.head refl);
        normalized = map_err-eq-ok dimension_code _ normalized;
      } in
      dimensions_by_key-IsIndexed rest (insert code.key (code, members) by_key) out
        (λ m' h'. sub m' (Memᴰ.tail h')) (IsIndexed-insert by_key code members h m) (ground arith)

  parse_entry-IsDeclared :
      (id : Bytes) (id_code : Code) (by_key : List (Bytes × (Code × DimensionPayload)))
      (d : RequestDimension)
      → IsIndexed by_key
      → normalize_code u id ≡ ok id_code
      → parse_entry u id (lookup id_code.key by_key) ≡ ok d
      → IsDeclared id d × (d.code.key ≡ id_code.key)
  unfolding parse_entry
  parse_entry-IsDeclared id id_code by_key d h n e =
      elim (Option-cases (lookup id_code.key by_key)) [
        | inl missing ↦ absurd (cc (rw missing at e))
        | inr ((code, members), found) ↦
            let (at, m) = h id_code.key code members found in
            let (categories, parsed, made) =
              >>=-eq-ok (parse_categories u members.index) _ (rw found at e) in
            let same : record { code = code; categories = categories } ≡ d = cc in
            rw (← same) (
              record {
                id_code = id_code;
                id_normalized = n;
                same_key = at;
                members = members;
                member = m;
                layout = parse_categories-IsLayout u members.index categories parsed;
              },
              at,
            )
      ]

  -- one round of the loop over the ids, read off its success
  parse_ids-round :
      (by_key : List (Bytes × (Code × DimensionPayload))) (id : Bytes) (ids seen : List Bytes)
      (ds : List RequestDimension)
      → parse_ids u by_key (id ∷ ids) seen ≡ ok ds
      → (id_code : Code) × (d : RequestDimension) × (rest : List RequestDimension) × (normalize_code
            u id
          ≡ ok id_code)
        × (contains id_code.key seen ≡ false)
        × (parse_entry u id (lookup id_code.key by_key) ≡ ok d)
        × (parse_ids u by_key ids (id_code.key ∷ seen) ≡ ok rest)
        × (d ∷ rest ≡ ds)
  unfolding parse_ids
  parse_ids-round by_key id ids seen ds e =
      let (id_code, normalized, e₁) =
        >>=-eq-ok (map_err id_dimension_code (normalize_code u id)) _ e in
      let new : contains id_code.key seen ≡ false = ground arith in
      let (d, parsed, e₂) =
        >>=-eq-ok (parse_entry u id (lookup id_code.key by_key)) _ (rw new at e₁) in
      let (rest, parsed_rest, e₃) = >>=-eq-ok (parse_ids u by_key ids (id_code.key ∷ seen)) _ e₂ in
      (
        id_code,
        d,
        rest,
        map_err-eq-ok id_dimension_code _ normalized,
        new,
        parsed,
        parsed_rest,
        ok-inj e₃,
      )

  parse_ids-AllDeclared :
      (by_key : List (Bytes × (Code × DimensionPayload))) (ids seen : List Bytes)
      (ds : List RequestDimension)
      → IsIndexed by_key
      → parse_ids u by_key ids seen ≡ ok ds
      → AllDeclared ids ds
        × Distinct (dimension_keys ds)
        × All (λ k. contains k seen ≡ false) (dimension_keys ds)
  parse_ids-AllDeclared by_key [] seen ds h e =
      let same : [] ≡ ds = unfold parse_ids in cc in rw (← same) (tt, tt, tt)
  parse_ids-AllDeclared by_key (id ∷ ids) seen ds h e =
      assemble (parse_ids-round by_key id ids seen ds e)
        (λ k rest. parse_ids-AllDeclared by_key ids (k ∷ seen) rest h)
    where
      assemble :
          ((id_code : Code) × (d : RequestDimension) × (rest : List RequestDimension)
            × (normalize_code u id ≡ ok id_code)
            × (contains id_code.key seen ≡ false)
            × (parse_entry u id (lookup id_code.key by_key) ≡ ok d)
            × (parse_ids u by_key ids (id_code.key ∷ seen) ≡ ok rest)
            × (d ∷ rest ≡ ds))
          → ((k : Bytes) (rest : List RequestDimension)
              → parse_ids u by_key ids (k ∷ seen) ≡ ok rest
              → AllDeclared ids rest
                × Distinct (dimension_keys rest)
                × All (λ j. contains j (k ∷ seen) ≡ false) (dimension_keys rest))
          → AllDeclared (id ∷ ids) ds
            × Distinct (dimension_keys ds)
            × All (λ k. contains k seen ≡ false) (dimension_keys ds)
      assemble (id_code, d, rest, normalized, new, parsed, parsed_rest, same) ih =
          let (declared, distinct, unseen) = ih id_code.key rest parsed_rest in
          let (here, at) = parse_entry-IsDeclared id id_code by_key d h normalized parsed in
          let (fresh, unseen') = unseen-cons id_code.key seen (dimension_keys rest) unseen in
          rw (← same) ((here, declared), (rw at fresh, distinct), (rw at new, unseen'))

-- What `parseRequestDimensions` promises of the dimensions and the count that it returns.
pub record IsStructure (u : Unicode) (ids : List Bytes) (payload : List (Bytes × DimensionPayload))
    (limit : ℕ) (dimensions : List RequestDimension) (count : ℤ) : Type 0 where
  pub dimension_bound : (1 ≤ length ids) × (length ids ≤ max_dimensions)
  pub declared : AllDeclared u payload ids dimensions
  pub distinct : Distinct (dimension_keys dimensions)
  pub nonempty : sizes dimensions ≢ []
  pub cube : IsCube (sizes dimensions)
  pub count_exact : count ≡ pos (product (sizes dimensions))
  pub in_limit : product (sizes dimensions) ≤ limit

pos_list-inj : (ms ns : List ℕ) → map pos ms ≡ map pos ns → ms ≡ ns
pos_list-inj [] [] e = refl
pos_list-inj [] (n ∷ ns) e = cc
pos_list-inj (m ∷ ms) [] e = cc
pos_list-inj (m ∷ ms) (n ∷ ns) e =
    let tails : map pos ms ≡ map pos ns = cc in cc (pos_list-inj ms ns tails)

-- The stages of `parseRequestDimensions`, read off its success.
record Stages (u : Unicode) (ids : List Bytes) (payload : List (Bytes × DimensionPayload))
    (limit : ℤ) (dimensions : List RequestDimension) (count : ℤ) : Type 0 where
  by_key : List (Bytes × (Code × DimensionPayload))
  low : 1 ≤ length ids
  high : length ids ≤ max_dimensions
  indexed : dimensions_by_key u payload [] ≡ ok by_key
  parsed : parse_ids u by_key ids [] ≡ ok dimensions
  counted : checked_product (category_counts dimensions) limit ≡ ok count

parse_request_dimensions-Stages :
    (u : Unicode) (ids : List Bytes) (payload : List (Bytes × DimensionPayload)) (limit : ℤ)
    (dimensions : List RequestDimension) (count : ℤ)
    → parse_request_dimensions u ids payload limit ≡ ok (dimensions, count)
    → Stages u ids payload limit dimensions count
unfolding parse_request_dimensions
parse_request_dimensions-Stages u ids payload limit dimensions count e =
    elim (Bool-cases (ltb (length ids) 1 || ltb max_dimensions (length ids))) [
      | inl bad ↦ absurd (ground arith)
      | inr good ↦
          let (by_key, indexed, e₁) = >>=-eq-ok (dimensions_by_key u payload []) _ (rw good at e) in
          elim (Bool-cases (nat_beq (length by_key) (length ids))) [
            | inr bad ↦ absurd (ground arith)
            | inl same ↦
                let (ds, parsed, e₂) = >>=-eq-ok (parse_ids u by_key ids []) _ (rw same at e₁) in
                let (n, counted, e₃) =
                  >>=-eq-ok (map_err cube (checked_product (category_counts ds) limit)) _ e₂ in
                let pair = ok-inj e₃ in
                let same_ds : ds ≡ dimensions = ap (λ p. p.0) pair in
                let same_n : n ≡ count = ap (λ p. p.1) pair in
                record {
                  by_key = by_key;
                  low = ground arith;
                  high = ground arith;
                  indexed = indexed;
                  parsed = rw same_ds at parsed;
                  counted = rw (same_ds, same_n) at (map_err-eq-ok cube _ counted);
                }
          ]
    ]

-- An accepted structure has between 1 and 64 ids; for each id, in order, it has the dimension that
-- the payload declares under the same key, with the categories of its index object laid out by
-- position; no two dimensions have one key; and the count is the product of the numbers of
-- categories, at most the limit.
pub parse_request_dimensions-IsStructure :
    (u : Unicode) (ids : List Bytes) (payload : List (Bytes × DimensionPayload)) (limit : ℕ)
    (dimensions : List RequestDimension) (count : ℤ)
    → 1 ≤ limit
    → limit ≤ max_int64
    → parse_request_dimensions u ids payload (pos limit) ≡ ok (dimensions, count)
    → IsStructure u ids payload limit dimensions count
parse_request_dimensions-IsStructure u ids payload limit dimensions count low high e =
    let st = parse_request_dimensions-Stages u ids payload (pos limit) dimensions count e in
    let indexed =
      dimensions_by_key-IsIndexed u payload payload [] st.by_key (λ m h. h) (λ k c m h. absurd (cc))
        st.indexed in
    let (declared, distinct, _) =
      parse_ids-AllDeclared u payload st.by_key ids [] dimensions indexed st.parsed in
    let (ns, same, ne, all_pos, fits, value) =
      (checked_product_iff _ limit count low high).0 st.counted in
    let shape : ns ≡ sizes dimensions =
      pos_list-inj ns (sizes dimensions) (sym same ∙ category_counts-sizes dimensions) in
    let whole : IsCube ns = record { all_pos = all_pos; fits = omega arith } in
    record {
      dimension_bound = (st.low, st.high);
      declared = declared;
      distinct = distinct;
      nonempty = rw shape at ne;
      cube = rw shape at whole;
      count_exact = rw shape at value;
      in_limit = rw shape at fits;
    }
