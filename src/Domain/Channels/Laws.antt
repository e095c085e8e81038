-- ===== src/Domain/Channels/Laws.antt =====
-- What the accepted channels hold: indexes of the cube, each at most once, and finite numbers.
use nordicintel_storage_api.Prelude.{
  ℕ, suc, ◌+◌, ◌≤◌, ◌≡◌, ◌≢◌, ap, ℤ, pos, int_eq, eq_ℤ, lt_ℤ, Bytes, true, false, List, [], ◌∷◌,
  map, length, insert, All, Fresh, Distinct, Result, ok, require, >>=-eq-ok, ok-inj, Bool-cases,
  inl, inr, nat_beq, arith, eq_of_==, eq_ℤ_iff,
}
use nordicintel_storage_api.Domain.Model.{Float64, RawMessage}
use nordicintel_storage_api.Domain.Channels.{
  Json, Representation, ChannelError, is_null, is_nan_or_inf, numeric_by_first, not_dense,
  not_sparse, not_a_number, not_finite, parse_finite_float, dense_entries, sparse_entries,
  dense_channel, sparse_channel, parse_numeric_channel, parse_sparse_index,
}
use nordicintel_storage_api.Domain.Channels.Numerals.{parse_sparse_index_sound}

abbrev pub IsInside : ℤ → ℤ → Type 0
IsInside count index = (lt_ℤ index (pos 0) ≡ false) × (lt_ℤ index count ≡ true)

module _ {A : Type 0} (P : A → Type 0) where
  -- Each entry has an index of the cube and a value with the property, and no index occurs twice.
  pub record IsChannel (count : ℤ) (values : List (ℤ × A)) : Type 0 where
    pub inside : All (λ (e : ℤ × A). IsInside count e.0 × P e.1) values
    pub distinct : Distinct (map (λ (e : ℤ × A). e.0) values)

  All-insert :
      (Q : ℤ × A → Type 0) (k : ℤ) (v : A) (m : List (ℤ × A))
      → Q (k, v)
      → All Q m
      → All Q (insert k v m)
  All-insert Q k v [] q h = (q, tt)
  All-insert Q k v ((j, w) ∷ m) q (p, h) = elim (Bool-cases (eq_ℤ j k)) [
    | inl same ↦ rw same (q, h)
    | inr other ↦ rw other (p, All-insert Q k v m q h)
  ]

  Fresh-insert :
      (i k : ℤ) (v : A) (m : List (ℤ × A))
      → i ≢ k
      → Fresh i (map (λ (e : ℤ × A). e.0) m)
      → Fresh i (map (λ (e : ℤ × A). e.0) (insert k v m))
  Fresh-insert i k v [] ne h = (ne, tt)
  Fresh-insert i k v ((j, w) ∷ m) ne (p, h) = elim (Bool-cases (eq_ℤ j k)) [
    | inl same ↦ rw same (ne, h)
    | inr other ↦ rw other (p, Fresh-insert i k v m ne h)
  ]

  Distinct-insert :
      (k : ℤ) (v : A) (m : List (ℤ × A))
      → Distinct (map (λ (e : ℤ × A). e.0) m)
      → Distinct (map (λ (e : ℤ × A). e.0) (insert k v m))
  Distinct-insert k v [] h = (tt, tt)
  Distinct-insert k v ((j, w) ∷ m) (f, h) = elim (Bool-cases (eq_ℤ j k)) [
    | inl same ↦ let at : j ≡ k = eq_of_== j k same in rw same (rw at at f, h)
    | inr other ↦ rw other (
      Fresh-insert j k v m (λ e. absurd (ground (arith, eq_ℤ_iff j k))) f,
      Distinct-insert k v m h,
    )
  ]

  IsChannel-insert :
      (count k : ℤ) (v : A) (m : List (ℤ × A))
      → IsInside count k
      → P v
      → IsChannel count m
      → IsChannel count (insert k v m)
  IsChannel-insert count k v m i p c = record {
    inside = All-insert _ k v m (i, p) c.inside;
    distinct = Distinct-insert k v m c.distinct;
  }

  module _ (j : Json) (parse : RawMessage → Result ChannelError A)
      (parsed : (raw : RawMessage) (a : A) → parse raw ≡ ok a → P a) where
    dense_entries-IsChannel :
        (i n : ℕ) (entries : List RawMessage) (values out : List (ℤ × A))
        → i + length entries ≤ n
        → IsChannel (pos n) values
        → dense_entries j parse i entries values ≡ ok out
        → IsChannel (pos n) out
    unfolding dense_entries
    dense_entries-IsChannel i n [] values out b c e = let same : values ≡ out = cc in rw (← same) c
    dense_entries-IsChannel i n (entry ∷ entries) values out b c e =
        elim (Bool-cases (is_null j entry)) [
          | inl skipped ↦
              dense_entries-IsChannel (suc i) n entries values out (omega arith) c (rw skipped at e)
          | inr kept ↦
              let (a, got, e') = >>=-eq-ok (parse entry) _ (rw kept at e) in
              dense_entries-IsChannel (suc i) n entries (insert (pos i) a values) out (omega arith)
                (IsChannel-insert (pos n) (pos i) a values (ground arith, ground arith)
                  (parsed entry a got) c)
                e'
        ]

    sparse_entries-IsChannel :
        (count : ℤ) (entries : List (Bytes × RawMessage)) (values out : List (ℤ × A))
        → IsChannel count values
        → sparse_entries j parse count entries values ≡ ok out
        → IsChannel count out
    unfolding sparse_entries
    sparse_entries-IsChannel count [] values out c e = let same : values ≡ out = cc in rw (← same) c
    sparse_entries-IsChannel count ((key, entry) ∷ entries) values out c e =
        let (index, read, e₁) = >>=-eq-ok (parse_sparse_index key count) _ e in
        let (_, _, _, low, high) = parse_sparse_index_sound key count index read in
        elim (Bool-cases (is_null j entry)) [
          | inl null ↦ absurd (cc (rw null at e₁))
          | inr kept ↦
              let (a, got, e₂) = >>=-eq-ok (parse entry) _ (rw kept at e₁) in
              sparse_entries-IsChannel count entries (insert index a values) out
                (IsChannel-insert count index a values (low, high) (parsed entry a got) c) e₂
        ]

    pub dense_channel-IsChannel :
        (raw : Bytes) (n : ℕ) (out : List (ℤ × A))
        → dense_channel j parse raw (pos n) ≡ ok out
        → IsChannel (pos n) out
    unfolding dense_channel
    dense_channel-IsChannel raw n out e =
        let (entries, _, e') = >>=-eq-ok (require not_dense (j.raw_array raw)) _ e in
        elim (Bool-cases (nat_beq (length entries) n)) [
          | inl fits ↦
              dense_entries-IsChannel 0 n entries [] out (ground arith)
                (record { inside = tt; distinct = tt }) (rw fits at e')
          | inr other ↦ absurd (cc (rw other at e'))
        ]

    pub sparse_channel-IsChannel :
        (raw : Bytes) (count : ℤ) (out : List (ℤ × A))
        → sparse_channel j parse raw count ≡ ok out
        → IsChannel count out
    unfolding sparse_channel
    sparse_channel-IsChannel raw count out e =
        let (entries, _, e') = >>=-eq-ok (require not_sparse (j.raw_object raw)) _ e in
        sparse_entries-IsChannel count entries [] out (record { inside = tt; distinct = tt }) e'

abbrev pub IsFinite : Float64 → Type 0
IsFinite value = is_nan_or_inf value ≡ false

parse_finite_float-IsFinite :
    (j : Json) (raw : RawMessage) (value : Float64)
    → parse_finite_float j raw ≡ ok value
    → IsFinite value
unfolding parse_finite_float
parse_finite_float-IsFinite j raw value e =
    let (number, _, e₁) = >>=-eq-ok (require not_a_number (j.number raw)) _ e in
    let (v, _, e₂) = >>=-eq-ok (require not_finite (j.parse_float number)) _ e₁ in
    elim (Bool-cases (is_nan_or_inf v)) [
      | inl bad ↦ absurd (cc (rw bad at e₂))
      | inr good ↦ let same : v ≡ value = ok-inj (rw good at e₂) in rw (← same) good
    ]

numeric_by_first-IsChannel :
    (j : Json) (raw : Bytes) (n : ℕ) (values : List (ℤ × Float64)) (r : Representation)
    → numeric_by_first j raw (pos n) ≡ ok (values, r)
    → IsChannel IsFinite (pos n) values
numeric_by_first-IsChannel j [] n values r e = absurd (cc)
numeric_by_first-IsChannel j (c ∷ raw) n values r e = elim (Bool-cases (nat_beq c 91)) [
  | inl array ↦
      let (vs, got, e') =
        >>=-eq-ok (dense_channel j (parse_finite_float j) (c ∷ raw) (pos n)) _ (rw array at e) in
      let same : vs ≡ values = ap (λ p. p.0) (ok-inj e') in
      rw (← same) (
        dense_channel-IsChannel IsFinite j (parse_finite_float j) (parse_finite_float-IsFinite j) _
          n vs got)
  | inr other ↦ elim (Bool-cases (nat_beq c 123)) [
    | inl object ↦
        let (vs, got, e') =
          >>=-eq-ok (sparse_channel j (parse_finite_float j) (c ∷ raw) (pos n)) _
            (rw (other, object) at e) in
        let same : vs ≡ values = ap (λ p. p.0) (ok-inj e') in
        rw (← same) (
          sparse_channel-IsChannel IsFinite j (parse_finite_float j) (parse_finite_float-IsFinite j)
            _ (pos n) vs got)
    | inr neither ↦ absurd (cc (rw (other, neither) at e))
  ]
]

-- Whatever the JSON decoder returns, an accepted numeric channel has only indexes from 0 to below
-- the number of cells, no index twice, and only numbers that are neither NaN nor infinite.
pub parse_numeric_channel-IsChannel :
    (j : Json) (raw : RawMessage) (n : ℕ) (values : List (ℤ × Float64)) (r : Representation)
    → parse_numeric_channel j raw (pos n) ≡ ok (values, r)
    → IsChannel IsFinite (pos n) values
unfolding parse_numeric_channel
parse_numeric_channel-IsChannel j raw n values r e =
    numeric_by_first-IsChannel j (j.trim_space raw) n values r e
