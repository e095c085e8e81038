-- ===== src/Postgres/Advisory/Distinct.antt =====
-- Different datasets of internal/store/postgres.go hash different texts for their locks.
use nordicintel_storage_api.Prelude.{
  ◌≢◌, ℕ, zero, suc, ◌*◌, ◌/◌, ◌%◌, ◌<◌, ◌≡◌, sym, refl, ◌∙◌, [], ◌∷◌, ◌++◌, Bytes, length,
  length-append, arith,
}
use nordicintel_storage_api.Postgres.Advisory.{big_endian, put_uint64, advisory_buffer}

-- Lists that begin with as many elements split at the same place.
append-inj :
    (xs ys xs' ys' : Bytes)
    → length xs ≡ length xs'
    → xs ++ ys ≡ xs' ++ ys'
    → (xs ≡ xs') × (ys ≡ ys')
append-inj [] ys [] ys' h e = (refl, e)
append-inj [] ys (x ∷ xs') ys' h e = absurd (omega arith)
append-inj (x ∷ xs) ys [] ys' h e = absurd (omega arith)
append-inj (x ∷ xs) ys (x' ∷ xs') ys' h e =
    let (same, rest) = append-inj xs ys xs' ys' (omega arith) (cc) in
    ((let first : x ≡ x' = cc in cc), rest)

-- The numbers that `n` bytes hold.
bytes_bound : ℕ → ℕ
bytes_bound zero = 1
bytes_bound (suc n) = bytes_bound n * 256

length-big_endian : (n v : ℕ) → length (big_endian n v) ≡ n
unfolding big_endian
length-big_endian zero v = refl
length-big_endian (suc n) v =
    length-append (big_endian n (v / 256)) ((v % 256) ∷ [])
    ∙ omega (arith, length-big_endian n (v / 256))

big_endian-inj :
    (n v w : ℕ) → v < bytes_bound n → w < bytes_bound n → big_endian n v ≡ big_endian n w → v ≡ w
unfolding big_endian bytes_bound
big_endian-inj zero v w hv hw e = omega arith
big_endian-inj (suc n) v w hv hw e =
    let (high, low) =
      append-inj (big_endian n (v / 256)) ((v % 256) ∷ []) (big_endian n (w / 256)) ((w % 256) ∷ [])
        (length-big_endian n (v / 256) ∙ sym (length-big_endian n (w / 256))) e in
    let same_low : v % 256 ≡ w % 256 = cc in
    let same_high = big_endian-inj n (v / 256) (w / 256) (omega arith) (omega arith) high in
    omega arith

advisory_buffer-inj :
    (provider_key dataset_key other_provider other_dataset : Bytes)
    → length provider_key < 18446744073709551616
    → length other_provider < 18446744073709551616
    → advisory_buffer provider_key dataset_key ≡ advisory_buffer other_provider other_dataset
    → (provider_key ≡ other_provider) × (dataset_key ≡ other_dataset)
unfolding advisory_buffer bytes_bound
advisory_buffer-inj p d p' d' hp hp' e =
    let eight = λ (v : ℕ) (w : ℕ). length-big_endian 8 v ∙ sym (length-big_endian 8 w) in
    let (sizes, rest) =
      append-inj (put_uint64 (length p)) _ (put_uint64 (length p')) _ (eight (length p) (length p'))
        e in
    let same_size = big_endian-inj 8 (length p) (length p') hp hp' sizes in
    let (same, tails) = append-inj p _ p' _ same_size rest in
    (
      same,
      (append-inj (put_uint64 (length d)) d (put_uint64 (length d')) d'
          (eight (length d) (length d')) tails).1,
    )

-- Two datasets that differ, with provider keys shorter than 2^64 bytes, have different texts under the
-- hash of `advisoryKey`, also where the keys run together to the same bytes.
pub advisory_buffer-ne :
    (provider_key dataset_key other_provider other_dataset : Bytes)
    → length provider_key < 18446744073709551616
    → length other_provider < 18446744073709551616
    → ¬ ((provider_key ≡ other_provider) × (dataset_key ≡ other_dataset))
    → advisory_buffer provider_key dataset_key ≢ advisory_buffer other_provider other_dataset
advisory_buffer-ne p d p' d' hp hp' differ e = differ (advisory_buffer-inj p d p' d' hp hp' e)
