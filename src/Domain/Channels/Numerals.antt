-- ===== src/Domain/Channels/Numerals.antt =====
-- `parseSparseIndex` and canonical decimal numerals.
use nordicintel_storage_api.Prelude.{
  ℕ, ◌+◌, ◌-◌, ◌*◌, ◌≤◌, ◌<◌, ◌≡◌, refl, sym, ◌∙◌, ℤ, pos, lt_ℤ, Bytes, true, false, [], ◌∷◌,
  length, ok, Bool-cases, inl, inr, ltb, ltb→lt, ◌⊎◌, arith,
}
use nordicintel_storage_api.Domain.Channels.{
  all_digits, is_digit, decimal_from, parse_digits, has_bad_start, parse_sparse_index,
}

-- Ten to the number of digits.
abbrev scale : Bytes → ℕ
scale [] = 1
scale (c ∷ cs) = 10 * scale cs

shift_bounds :
    (n d p v : ℕ)
    → d < 10
    → (n * 10 + d) * p ≤ v
    → v < (n * 10 + d + 1) * p
    → (n * (10 * p) ≤ v) × (v < (n + 1) * (10 * p))
shift_bounds n d p v small low high = (grind arith, grind arith)

-- The digits that follow a number leave the value between it and its successor, both scaled.
decimal_from-bounds :
    (n : ℕ) (cs : Bytes)
    → all_digits cs ≡ true
    → (n * scale cs ≤ decimal_from n cs) × (decimal_from n cs < (n + 1) * scale cs)
unfolding decimal_from all_digits
decimal_from-bounds n [] h = (omega arith, omega arith)
decimal_from-bounds n (c ∷ cs) h =
    let (low, high) = decimal_from-bounds (n * 10 + (c - 48)) cs (ground arith) in
    shift_bounds n (c - 48) (scale cs) _ (ground arith) low high

same_digit :
    (n m c d : ℕ)
    → is_digit c ≡ true
    → is_digit d ≡ true
    → n * 10 + (c - 48) ≡ m * 10 + (d - 48)
    → (n ≡ m) × (c ≡ d)
same_digit n m c d hc hd e = (ground arith, ground arith)

-- Digits of one number and one value are the same digits.
decimal_from-inj :
    (n m : ℕ) (cs ds : Bytes)
    → length cs ≡ length ds
    → all_digits cs ≡ true
    → all_digits ds ≡ true
    → decimal_from n cs ≡ decimal_from m ds
    → (n ≡ m) × (cs ≡ ds)
unfolding decimal_from all_digits
decimal_from-inj n m [] [] l hc hd e = (e, refl)
decimal_from-inj n m [] (d ∷ ds) l hc hd e = absurd (omega arith)
decimal_from-inj n m (c ∷ cs) [] l hc hd e = absurd (omega arith)
decimal_from-inj n m (c ∷ cs) (d ∷ ds) l hc hd e =
    let (heads, tails) =
      decimal_from-inj (n * 10 + (c - 48)) (m * 10 + (d - 48)) cs ds (omega arith) (ground arith)
        (ground arith) e in
    let (same_n, same_c) = same_digit n m c d (ground arith) (ground arith) heads in
    (same_n, cc (same_c, tails))

scale_mono : (cs ds : Bytes) → length cs ≤ length ds → scale cs ≤ scale ds
scale_mono [] [] h = omega arith
scale_mono [] (d ∷ ds) h = omega (arith, scale_mono [] ds (omega arith))
scale_mono (c ∷ cs) [] h = absurd (omega arith)
scale_mono (c ∷ cs) (d ∷ ds) h = omega (arith, scale_mono cs ds (omega arith))

-- A longer numeral has the greater value.
shorter_lt :
    (cs ds : Bytes)
    → has_bad_start cs ≡ false
    → has_bad_start ds ≡ false
    → all_digits cs ≡ true
    → all_digits ds ≡ true
    → length cs < length ds
    → decimal_from 0 cs < decimal_from 0 ds
unfolding has_bad_start all_digits decimal_from
shorter_lt [] ds bc bd hc hd l = absurd (cc)
shorter_lt (c ∷ cs) [] bc bd hc hd l = absurd (omega arith)
shorter_lt (c ∷ cs) (d ∷ []) bc bd hc hd l = absurd (omega arith)
shorter_lt (c ∷ cs) (d ∷ d' ∷ ds) bc bd hc hd l =
    let (low, _) = decimal_from-bounds (0 * 10 + (d - 48)) (d' ∷ ds) (ground arith) in
    let (_, high) = decimal_from-bounds (0 * 10 + (c - 48)) cs (ground arith) in
    let more : 10 * scale cs ≤ scale (d' ∷ ds) = omega (arith, scale_mono cs ds (omega arith)) in
    let nonzero : 1 ≤ 0 * 10 + (d - 48) = ground arith in
    let digit : 0 * 10 + (c - 48) < 10 = ground arith in
    between (0 * 10 + (c - 48)) (0 * 10 + (d - 48)) (scale cs) (scale (d' ∷ ds)) digit nonzero more
      low high
  where
    between :
        (a b p q : ℕ) {v w : ℕ} → a < 10 → 1 ≤ b → 10 * p ≤ q → b * q ≤ w → v < (a + 1) * p → v < w
    between a b p q digit nonzero more low high = grind arith

-- What an accepted key satisfies.
pub parse_sparse_index_sound :
    (key : Bytes) (count index : ℤ)
    → parse_sparse_index key count ≡ ok index
    → (has_bad_start key ≡ false)
      × (all_digits key ≡ true)
      × (index ≡ pos (decimal_from 0 key))
      × (lt_ℤ index (pos 0) ≡ false)
      × (lt_ℤ index count ≡ true)
unfolding parse_sparse_index parse_digits
parse_sparse_index_sound key count index e = ground arith

-- Two keys that `parseSparseIndex` reads as one index are the same text, so that no cell has two
-- keys in one payload.
pub parse_sparse_index-inj :
    (key other : Bytes) (count index : ℤ)
    → parse_sparse_index key count ≡ ok index
    → parse_sparse_index other count ≡ ok index
    → key ≡ other
parse_sparse_index-inj key other count index e f =
    let (bk, hk, vk, _, _) = parse_sparse_index_sound key count index e in
    let (bo, ho, vo, _, _) = parse_sparse_index_sound other count index f in
    let same : decimal_from 0 key ≡ decimal_from 0 other = cc (sym vk ∙ vo) in
    elim (compare_lengths (length key) (length other)) [
      | inl less ↦ absurd (omega (arith, shorter_lt key other bk bo hk ho less))
      | inr (inl more) ↦ absurd (omega (arith, shorter_lt other key bo bk ho hk more))
      | inr (inr l) ↦ (decimal_from-inj 0 0 key other l hk ho same).1
    ]
  where
    compare_lengths : (a b : ℕ) → (a < b) ⊎ ((b < a) ⊎ (a ≡ b))
    compare_lengths a b = elim (Bool-cases (ltb a b)) [
      | inl less ↦ inl (ltb→lt a b less)
      | inr ge ↦ elim (Bool-cases (ltb b a)) [
        | inl more ↦ inr (inl (ltb→lt b a more))
        | inr le ↦ inr (inr (ground arith))
      ]
    ]
