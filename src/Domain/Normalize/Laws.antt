-- ===== src/Domain/Normalize/Laws.antt =====
-- The keys that normalization accepts, for every behaviour of the Unicode tables.
use nordicintel_storage_api.Prelude.{
  ℕ, zero, suc, ◌≤◌, ◌<◌, ◌≡◌, ◌≢◌, ◌↔◌, refl, ap, Bytes, bytes_beq, bytes_beq_iff, Option, none,
  some, [], ok, length, arith, ltb, ltb→ge, Bool-cases, inl, inr,
}
use nordicintel_storage_api.Domain.Model.{Code, max_code_bytes}
use nordicintel_storage_api.Domain.Normalize.{
  Unicode, normalization_round, converge, check_key, normalize_code, max_normalization_rounds,
}

module _ (u : Unicode) where
  -- the value after some rounds
  abbrev pub rounds : ℕ → Bytes → Bytes
  rounds zero value = value
  rounds (suc n) value = rounds n (normalization_round u value)

  rounds-fixed : (n : ℕ) (key : Bytes) → normalization_round u key ≡ key → rounds n key ≡ key
  rounds-fixed zero key h = refl
  rounds-fixed (suc n) key h = rw h (rounds-fixed n key h)

  converge_sound :
      (fuel : ℕ) (value key : Bytes)
      → converge u fuel value ≡ some key
      → (n : ℕ) × (n < fuel) × (rounds n value ≡ key) × (normalization_round u key ≡ key)
  unfolding converge
  converge_sound zero value key e = absurd (cc)
  converge_sound (suc fuel) value key e =
      elim (Bool-cases (bytes_beq (normalization_round u value) value)) [
        | inl same ↦ (
          0,
          omega arith,
          ground arith,
          ground (arith, bytes_beq_iff (normalization_round u value) value),
        )
        | inr changed ↦
            let (n, lt, reaches, fixed) =
              converge_sound fuel (normalization_round u value) key (ground arith) in
            (suc n, omega arith, reaches, fixed)
      ]

  converge_complete :
      (fuel n : ℕ) (value key : Bytes)
      → n < fuel
      → rounds n value ≡ key
      → normalization_round u key ≡ key
      → converge u fuel value ≡ some key
  unfolding converge
  converge_complete zero n value key lt e fixed = absurd (omega arith)
  converge_complete (suc fuel) zero value key lt e fixed =
      ground (arith, bytes_beq_iff (normalization_round u value) value)
  converge_complete (suc fuel) (suc n) value key lt e fixed =
      elim (Bool-cases (bytes_beq (normalization_round u value) value)) [
        | inl same ↦
            let still = (bytes_beq_iff _ _).0 same in
            ground (arith, rounds-fixed n value still, ap (rounds n) still)
        | inr changed ↦
            let ih =
              converge_complete fuel n (normalization_round u value) key (omega arith) e fixed in
            ground arith
      ]

  check_key_iff :
      (spelling : Bytes) (o : Option Bytes) (c : Code)
      → (check_key u spelling o ≡ ok c) ↔ (
          (o ≡ some c.key)
          × (c.spelling ≡ spelling)
          × (c.key ≢ [])
          × (length c.key ≤ max_code_bytes))
  unfolding check_key
  check_key_iff spelling none c = ground arith
  check_key_iff spelling (some key) c = ground (arith, bytes_beq_iff key [])

  -- A spelling is accepted exactly when it has at most 256 bytes and, after fewer than eight rounds
  -- of normalization, is a non-empty text of at most 256 bytes that a further round leaves alone.
  -- That text is the key, and the spelling is kept as it was submitted.
  pub normalize_code_iff :
      (spelling : Bytes) (c : Code)
      → (normalize_code u spelling ≡ ok c) ↔ (
          (c.spelling ≡ spelling)
          × (length spelling ≤ max_code_bytes)
          × ((n : ℕ) × (n < max_normalization_rounds) × (rounds n spelling ≡ c.key))
          × (normalization_round u c.key ≡ c.key)
          × (c.key ≢ [])
          × (length c.key ≤ max_code_bytes))
  unfolding normalize_code
  normalize_code_iff spelling c = elim (Bool-cases (ltb max_code_bytes (length spelling))) [
    | inl long ↦ (λ e. absurd (ground arith), λ h. absurd (ground arith))
    | inr short ↦ (
      λ e.
          let (found, same, ne, fits) =
            (check_key_iff spelling (converge u max_normalization_rounds spelling) c).0
              (rw short at e) in
          let (n, lt, reaches, fixed) =
            converge_sound max_normalization_rounds spelling c.key found in
          (same, ltb→ge _ _ short, (n, lt, reaches), fixed, ne, fits),
      λ (same, _, (n, lt, reaches), fixed, ne, fits). rw short (
          (check_key_iff spelling (converge u max_normalization_rounds spelling) c).1 (
            converge_complete max_normalization_rounds n spelling c.key lt reaches fixed,
            same,
            ne,
            fits,
          )),
    )
  ]

  -- Normalizing the key of an accepted code returns that key, whatever the Unicode tables do.
  pub normalize_code_idempotent :
      (spelling : Bytes) (c : Code)
      → normalize_code u spelling ≡ ok c
      → normalize_code u c.key ≡ ok (record { spelling = c.key; key = c.key })
  normalize_code_idempotent spelling c e =
      let (_, _, _, fixed, ne, fits) = (normalize_code_iff spelling c).0 e in
      (normalize_code_iff c.key (record { spelling = c.key; key = c.key })).1
        (refl, fits, (0, omega arith, refl), fixed, ne, fits)
