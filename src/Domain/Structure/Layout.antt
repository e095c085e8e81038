-- ===== src/Domain/Structure/Layout.antt =====
-- `parseCategories` puts every member at its position and leaves no position free.
use mathlib.Core.List.{Memᴰ}
use nordicintel_storage_api.Prelude.{
  ℕ, zero, suc, ◌+◌, ◌≤◌, ◌<◌, ◌≡◌, ◌≢◌, refl, sym, ap, ◌∙◌, ℤ, pos, negsuc, Bytes, bytes_eq, Bool,
  true, false, some, List, [], ◌∷◌, map, length, get_elem?, get_or, set, replicate, contains, ok,
  map_err, arith, nat_beq, nat_beq_iff, Bool-cases, some-inj, ◌⊎◌, inl, inr, get_elem?-set_self,
  get_elem?-set_ne, length-set, length-replicate, >>=-eq-ok, map_err-eq-ok, ==_refl,
  lt_of_get_elem?, Distinct, Distinct-of_get_elem?,
}
use nordicintel_storage_api.Domain.Model.{Code}
use nordicintel_storage_api.Domain.Normalize.{Unicode, normalize_code}
use nordicintel_storage_api.Domain.Structure.{
  category_code, zero_code, parse_categories_from, parse_categories,
}

abbrev count_true : List Bool → ℕ
count_true [] = 0
count_true (true ∷ bs) = suc (count_true bs)
count_true (false ∷ bs) = count_true bs

count_true-set :
    (bs : List Bool) (p : ℕ)
    → p < length bs
    → get_or bs p false ≡ false
    → count_true (set bs p true) ≡ suc (count_true bs)
count_true-set [] p h e = elim h [ ]
count_true-set (true ∷ bs) zero h e = absurd (cc)
count_true-set (false ∷ bs) zero h e = refl
count_true-set (true ∷ bs) (suc p) h e = ap suc (count_true-set bs p (omega arith) e)
count_true-set (false ∷ bs) (suc p) h e = count_true-set bs p (omega arith) e

count_true-le-length : (bs : List Bool) → count_true bs ≤ length bs
count_true-le-length [] = omega arith
count_true-le-length (true ∷ bs) = omega (arith, count_true-le-length bs)
count_true-le-length (false ∷ bs) = omega (arith, count_true-le-length bs)

all_true :
    (bs : List Bool) (p : ℕ)
    → count_true bs ≡ length bs
    → p < length bs
    → get_elem? bs p ≡ some true
all_true [] p e h = elim h [ ]
all_true (true ∷ bs) zero e h = refl
all_true (true ∷ bs) (suc p) e h = all_true bs p (omega arith) (omega arith)
all_true (false ∷ bs) p e h = absurd (omega (arith, count_true-le-length bs))

count_true-replicate : (n : ℕ) → count_true (replicate n false) ≡ 0
count_true-replicate zero = refl
count_true-replicate (suc n) = count_true-replicate n

not_occupied : (n p : ℕ) → get_elem? (replicate n false) p ≢ some true
not_occupied zero p e = cc
not_occupied (suc n) zero e = cc
not_occupied (suc n) (suc p) e = not_occupied n p e

module _ (u : Unicode) (all : List (Bytes × ℤ)) where
  -- The code at a place is that of a member with this position.
  pub record IsPlaced (p : ℕ) (code : Code) : Type 0 where
    pub spelling : Bytes
    pub listed : Memᴰ (spelling, pos p) all
    pub normalized : normalize_code u spelling ≡ ok code

  -- The loop invariant: what stands at the occupied places.
  record Filled (categories : List Code) (occupied : List Bool) (keys : List Bytes) : Type 0 where
    same_length : length occupied ≡ length categories
    placed :
        (p : ℕ) (code : Code)
        → get_elem? occupied p ≡ some true
        → get_elem? categories p ≡ some code
        → IsPlaced p code × (contains code.key keys ≡ true)
    separate :
        (p q : ℕ) (a b : Code)
        → get_elem? occupied p ≡ some true
        → get_elem? occupied q ≡ some true
        → get_elem? categories p ≡ some a
        → get_elem? categories q ≡ some b
        → a.key ≡ b.key
        → p ≡ q

  Filled-start : (n : ℕ) → Filled (replicate n zero_code) (replicate n false) []
  Filled-start n = record {
    same_length = length-replicate n false ∙ sym (length-replicate n zero_code);
    placed = λ p code e. absurd (not_occupied n p e);
    separate = λ p q a b e. absurd (not_occupied n p e);
  }

  module _ {categories : List Code} {occupied : List Bool} {keys : List Bytes}
      (f : Filled categories occupied keys) (p : ℕ) (code : Code) (below : p < length categories)
      (new : contains code.key keys ≡ false) (here : IsPlaced p code) where
    placed-step :
        (q : ℕ) (c : Code)
        → get_elem? (set occupied p true) q ≡ some true
        → get_elem? (set categories p code) q ≡ some c
        → ((q ≡ p) × (c ≡ code))
          ⊎ ((q ≢ p) × (get_elem? occupied q ≡ some true) × (get_elem? categories q ≡ some c))
    placed-step q c o e = elim (Bool-cases (nat_beq p q)) [
      | inl same ↦
          let at : p ≡ q = (nat_beq_iff p q).0 same in
          inl (sym at, some-inj (sym (rw (← at) at e) ∙ get_elem?-set_self categories p code below))
      | inr other ↦
          let ne : p ≢ q = (λ s. absurd (cc ((nat_beq_iff p q).1 s))) in
          inr (
            (λ s. ne (sym s)),
            sym (get_elem?-set_ne occupied p q true ne) ∙ o,
            sym (get_elem?-set_ne categories p q code ne) ∙ e,
          )
    ]

    old-key-ne-code :
        (q : ℕ) (c : Code)
        → get_elem? occupied q ≡ some true
        → get_elem? categories q ≡ some c
        → c.key ≢ code.key
    old-key-ne-code q c o e same =
        let seen = (f.placed q c o e).1 in absurd (cc (seen, new, ap (λ k. contains k keys) same))

    Filled-step : Filled (set categories p code) (set occupied p true) (code.key ∷ keys)
    Filled-step = record {
      same_length = length-set occupied p true ∙ f.same_length ∙ sym (length-set categories p code);
      placed = λ q c o e. elim (placed-step q c o e) [
        | inl (at, same) ↦ (rw (at, same) here, rw (same, ==_refl code.key))
        | inr (ne, o', e') ↦
            let (placed, seen) = f.placed q c o' e' in (placed, ground (arith, seen))
      ];
      separate = λ q r a b oq or eq er same. elim (placed-step q a oq eq) [
        | inl (at, ea) ↦ elim (placed-step r b or er) [
          | inl (at', eb) ↦ at ∙ sym at'
          | inr (ne, o', e') ↦
              absurd (old-key-ne-code r b o' e' (sym same ∙ ap (λ (c : Code). c.key) ea))
        ]
        | inr (ne, o', e') ↦ elim (placed-step r b or er) [
          | inl (at', eb) ↦ absurd (old-key-ne-code q a o' e' (same ∙ ap (λ (c : Code). c.key) eb))
          | inr (ne', o'', e'') ↦ f.separate q r a b o' o'' e' e'' same
        ]
      ];
    }

  -- what the loop has established at its end
  record Done (count : ℕ) (categories : List Code) : Type 0 where
    occupied : List Bool
    keys : List Bytes
    filled : Filled categories occupied keys
    size : length categories ≡ count
    full : count_true occupied ≡ count

  -- the tests of one round, read off its success
  round-checks :
      (count : ℕ) (spelling : Bytes) (position : ℤ) (rest : List (Bytes × ℤ))
      (categories : List Code) (occupied : List Bool) (keys : List Bytes) (out : List Code)
      → parse_categories_from u count ((spelling, position) ∷ rest) categories occupied keys
        ≡ ok out
      → (code : Code) × (p : ℕ) × (normalize_code u spelling ≡ ok code)
        × (position ≡ pos p)
        × (p < count)
        × (contains code.key keys ≡ false)
        × (get_or occupied p false ≡ false)
        × (parse_categories_from u count rest
              (set categories p code)
              (set occupied p true)
              (code.key ∷ keys)
            ≡ ok out)
  unfolding parse_categories_from
  round-checks count spelling (negsuc k) rest categories occupied keys out e =
      let (code, normalized, e') =
        >>=-eq-ok (map_err category_code (normalize_code u spelling)) _ e in
      absurd (ground arith)
  round-checks count spelling (pos p) rest categories occupied keys out e =
      let (code, normalized, e') =
        >>=-eq-ok (map_err category_code (normalize_code u spelling)) _ e in
      (
        code,
        p,
        map_err-eq-ok category_code _ normalized,
        refl,
        ground arith,
        ground arith,
        ground arith,
        ground arith,
      )

  parse_categories_from-Done :
      (count : ℕ) (rest : List (Bytes × ℤ)) (categories : List Code) (occupied : List Bool)
      (keys : List Bytes) (out : List Code)
      → ((m : Bytes × ℤ) → Memᴰ m rest → Memᴰ m all)
      → Filled categories occupied keys
      → length categories ≡ count
      → count_true occupied + length rest ≡ count
      → parse_categories_from u count rest categories occupied keys ≡ ok out
      → Done count out
  parse_categories_from-Done count [] categories occupied keys out sub f l t e =
      let same : categories ≡ out = unfold parse_categories_from in cc in
      rw (← same)
        (record { occupied = occupied; keys = keys; filled = f; size = l; full = omega arith })
  parse_categories_from-Done count ((spelling, position) ∷ rest) categories occupied keys out sub f
        l t e =
      let (code, p, normalized, at, below, new, free, e') =
        round-checks count spelling position rest categories occupied keys out e in
      let here : IsPlaced p code = record {
        spelling = spelling;
        listed = rw at at (sub (spelling, position) (Memᴰ.head refl));
        normalized = normalized;
      } in
      let inside : p < length categories = omega arith in
      let counted = count_true-set occupied p (omega (arith, f.same_length)) free in
      parse_categories_from-Done count rest (set categories p code) (set occupied p true)
        (code.key ∷ keys) out (λ m h. sub m (Memᴰ.tail h)) (Filled-step f p code inside new here)
        (length-set categories p code ∙ l) (omega arith) e'

-- What `parseCategories` promises of the codes that it returns.
pub record IsLayout (u : Unicode) (index : List (Bytes × ℤ)) (categories : List Code) : Type 0 where
  pub same_size : length categories ≡ length index
  pub nonempty : 0 < length categories
  pub placed : (p : ℕ) (code : Code) → get_elem? categories p ≡ some code → IsPlaced u index p code
  pub distinct : Distinct (map (λ (c : Code). c.key) categories)

get_elem?-map :
    (cs : List Code) (i : ℕ) (k : Bytes)
    → get_elem? (map (λ (c : Code). c.key) cs) i ≡ some k
    → (c : Code) × (get_elem? cs i ≡ some c) × (c.key ≡ k)
get_elem?-map [] i k e = absurd (cc)
get_elem?-map (c ∷ cs) zero k e = (c, refl, some-inj e)
get_elem?-map (c ∷ cs) (suc i) k e = get_elem?-map cs i k e

-- When `parseCategories` accepts an index object, the codes that it returns are as many as the
-- members, at least one; at each place stands the normalized code of a member whose value is that
-- place; and no two of them have one key. So no place was left at its zero value.
pub parse_categories-IsLayout :
    (u : Unicode) (index : List (Bytes × ℤ)) (categories : List Code)
    → parse_categories u index ≡ ok categories
    → IsLayout u index categories
parse_categories-IsLayout u [] categories e = absurd (unfold parse_categories in cc)
parse_categories-IsLayout u (member ∷ index) categories e =
    let all = member ∷ index in
    let n = length all in
    let d =
      parse_categories_from-Done u all n all (replicate n zero_code) (replicate n false) []
        categories (λ m h. h) (Filled-start u all n) (length-replicate n zero_code)
        (omega (arith, count_true-replicate n)) (unfold parse_categories in e) in
    let full : count_true d.occupied ≡ length d.occupied =
      omega (arith, d.full, d.size, d.filled.same_length) in
    let occ = λ (p : ℕ) (c : Code) (at : get_elem? categories p ≡ some c).
      all_true d.occupied p full
        (omega (arith, lt_of_get_elem? categories p c at, d.filled.same_length)) in
    record {
      same_size = d.size;
      nonempty = omega (arith, d.size);
      placed = λ p code at. (d.filled.placed p code (occ p code at) at).0;
      distinct = Distinct-of_get_elem? _ (λ i j x y ei ej same.
          let (a, ea, ka) = get_elem?-map categories i x ei in
          let (b, eb, kb) = get_elem?-map categories j y ej in
          d.filled.separate i j a b (occ i a ea) (occ j b eb) ea eb (ka ∙ same ∙ sym kb));
    }
