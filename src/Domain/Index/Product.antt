-- ===== src/Domain/Index/Product.antt =====
-- What `CheckedProduct` accepts, and why it rejects.
use native.Mathlib.Nat.{le_trans, mul_assoc, mul-one}
use nordicintel_storage_api.Prelude.{
  ℕ, zero, suc, ◌*◌, ◌/◌, ◌≤◌, ◌<◌, ◌≡◌, ◌≢◌, ◌↔◌, refl, ◌∙◌, ap, List, [], ◌∷◌, map, All, ℤ, pos,
  negsuc, ltb, ltb→ge, Bool-cases, inl, inr, ok, err, wrap64-pos, max_int64, arith,
}
use nordicintel_storage_api.Domain.Index.{cell_limit, checked_product_from, checked_product}
use nordicintel_storage_api.Domain.Index.Spec.{product, AllPos, product-pos}

quotient_ge : (a n : ℕ) → 0 < n → a * n ≤ max_int64 → a ≤ max_int64 / n
quotient_ge a n h q = grind arith

quotient_le : (a n : ℕ) → 0 < n → a ≤ max_int64 / n → a * n ≤ max_int64
quotient_le a n h q = grind arith

mul-pos : (a n : ℕ) → 0 < a → 0 < n → 0 < a * n
mul-pos a n h q = grind arith

le-mul_pos : (m p : ℕ) → 0 < p → m ≤ m * p
le-mul_pos m p h = grind arith

-- one round of the loop, where the size is positive and the product stays in the limit
checked_product_from-step :
    (a n : ℕ) (ns : List ℕ) (limit : ℕ)
    → 0 < n
    → a * n ≤ limit
    → limit ≤ max_int64
    → checked_product_from (pos a) (map pos (n ∷ ns)) (pos limit)
      ≡ checked_product_from (pos (a * n)) (map pos ns) (pos limit)
unfolding checked_product_from
checked_product_from-step a n ns limit p fits small =
    let room = quotient_ge a n p (omega arith) in
    rw (wrap64-pos (a * n) (omega arith)) (ground arith)

checked_product_from_complete :
    (a : ℕ) (ns : List ℕ) (limit : ℕ)
    → 0 < a
    → AllPos ns
    → a * product ns ≤ limit
    → limit ≤ max_int64
    → checked_product_from (pos a) (map pos ns) (pos limit) ≡ ok (pos (a * product ns))
unfolding product
checked_product_from_complete a [] limit p h fits small =
    unfold checked_product_from in ap (λ k. ok (pos k)) (omega arith)
checked_product_from_complete a (n ∷ ns) limit p h fits small =
    let partial = le-mul_pos (a * n) (product ns) (product-pos ns h.1) in
    let regroup = mul_assoc a n (product ns) in
    let ih =
      checked_product_from_complete (a * n) ns limit (mul-pos a n p h.0) h.1 (omega arith) small in
    checked_product_from-step a n ns limit h.0 (omega arith) small
    ∙ ih
    ∙ ap (λ k. ok (pos k)) regroup

checked_product_from_sound :
    (a : ℕ) (sizes : List ℤ) (limit : ℕ) (k : ℤ)
    → a ≤ limit
    → limit ≤ max_int64
    → checked_product_from (pos a) sizes (pos limit) ≡ ok k
    → (ns : List ℕ) × (sizes ≡ map pos ns)
      × AllPos ns
      × (k ≡ pos (a * product ns))
      × (a * product ns ≤ limit)
unfolding checked_product_from product
checked_product_from_sound a [] limit k h small e = ([], refl, tt, cc (mul-one a), omega arith)
checked_product_from_sound a (negsuc n ∷ sizes) limit k h small e = absurd (ground arith)
checked_product_from_sound a (pos zero ∷ sizes) limit k h small e = absurd (ground arith)
checked_product_from_sound a (pos (suc n) ∷ sizes) limit k h small e =
    elim (Bool-cases (ltb (max_int64 / suc n) a)) [
      | inl overflow ↦ absurd (ground arith)
      | inr fits ↦
          let small_product = quotient_le a (suc n) (omega arith) (ltb→ge _ _ fits) in
          let e' = rw (wrap64-pos (a * suc n) small_product, fits) at e in
          elim (Bool-cases (ltb limit (a * suc n))) [
            | inl over ↦ absurd (ground arith)
            | inr under ↦
                let (ns, same, all_pos, value, bound) =
                  checked_product_from_sound (a * suc n) sizes limit k (ltb→ge _ _ under) small
                    (ground arith) in
                let regroup = mul_assoc a (suc n) (product ns) in
                (
                  suc n ∷ ns,
                  ap (◌∷◌ (pos (suc n))) same,
                  (omega arith, all_pos),
                  value ∙ ap pos regroup,
                  omega arith,
                )
          ]
    ]

mul_le-mul_right : (a b n : ℕ) → a ≤ b → a * n ≤ b * n
mul_le-mul_right a b n h = grind arith

checked_product_from_over :
    (a : ℕ) (ns : List ℕ) (limit : ℕ)
    → a ≤ limit
    → AllPos ns
    → All (λ n. limit * n ≤ max_int64) ns
    → limit < a * product ns
    → checked_product_from (pos a) (map pos ns) (pos limit) ≡ err (cell_limit (pos limit))
unfolding product checked_product_from
checked_product_from_over a [] limit h p small over = absurd (omega (arith, mul-one a))
checked_product_from_over a (n ∷ ns) limit h p small over =
    let regroup = mul_assoc a n (product ns) in
    let fits = le_trans (mul_le-mul_right a limit n h) small.0 in
    let room = quotient_ge a n p.0 fits in
    rw (wrap64-pos (a * n) fits) (elim (Bool-cases (ltb limit (a * n))) [
      | inl above ↦ ground arith
      | inr below ↦
          let ih =
            checked_product_from_over (a * n) ns limit (ltb→ge _ _ below) p.1 small.1
              (omega arith) in
          ground (arith, ih)
    ])

map-ne-nil : (ns : List ℕ) → map pos ns ≢ [] → ns ≢ []
map-ne-nil [] h e = h refl
map-ne-nil (n ∷ ns) h e = cc

checked_product-eq-from :
    (ns : List ℕ) (limit : ℤ)
    → ns ≢ []
    → checked_product (map pos ns) limit ≡ checked_product_from (pos 1) (map pos ns) limit
unfolding checked_product
checked_product-eq-from [] limit h = absurd (h refl)
checked_product-eq-from (n ∷ ns) limit h = refl

-- Under a positive limit that an int64 holds, `CheckedProduct` accepts exactly the non-empty lists
-- of positive sizes whose product is at most the limit, and returns that product.
pub checked_product_iff :
    (sizes : List ℤ) (limit : ℕ) (count : ℤ)
    → 1 ≤ limit
    → limit ≤ max_int64
    → (checked_product sizes (pos limit) ≡ ok count) ↔ (
        (ns : List ℕ) × (sizes ≡ map pos ns)
        × (ns ≢ [])
        × AllPos ns
        × (product ns ≤ limit)
        × (count ≡ pos (product ns)))
checked_product_iff sizes limit count low high = (
  sound sizes,
  λ (ns, same, ne, p, fits, value).
      rw (same, value, checked_product-eq-from ns (pos limit) ne)
        (checked_product_from_complete 1 ns limit (omega arith) p (omega arith) high
          ∙ ap (λ k. ok (pos k)) (omega arith)),
)
  where
    sound :
        (sizes : List ℤ)
        → checked_product sizes (pos limit) ≡ ok count
        → (ns : List ℕ) × (sizes ≡ map pos ns)
          × (ns ≢ [])
          × AllPos ns
          × (product ns ≤ limit)
          × (count ≡ pos (product ns))
    sound [] e = absurd (unfold checked_product in cc)
    sound (size ∷ sizes) e =
        let (ns, same, p, value, fits) =
          checked_product_from_sound 1 (size ∷ sizes) limit count low high
            (unfold checked_product in e) in
        (
          ns,
          same,
          map-ne-nil ns (λ empty. absurd (cc (same, empty))),
          p,
          omega arith,
          value ∙ ap pos (omega arith),
        )

-- A cube of positive sizes that has more cells than the limit is refused with `CellLimitError`,
-- where no size is so large that the limit times the size overflows an int64.
pub checked_product-over :
    (ns : List ℕ) (limit : ℕ)
    → 1 ≤ limit
    → AllPos ns
    → All (λ n. limit * n ≤ max_int64) ns
    → limit < product ns
    → checked_product (map pos ns) (pos limit) ≡ err (cell_limit (pos limit))
checked_product-over ns limit low p small over =
    rw (checked_product-eq-from ns (pos limit) (ne ns over))
      (checked_product_from_over 1 ns limit low p small (omega arith))
  where
    ne : (ns : List ℕ) → limit < product ns → ns ≢ []
    ne [] h e = absurd (unfold product in omega arith)
    ne (n ∷ ns) h e = cc
