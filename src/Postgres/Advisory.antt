-- ===== src/Postgres/Advisory.antt =====
-- `advisoryKey` of internal/store/postgres.go: the number that the transactions of one dataset lock.
pub mod Distinct
use nordicintel_storage_api.Prelude.{
  ℕ, zero, suc, ◌+◌, ◌*◌, ◌/◌, ◌%◌, [], ◌∷◌, ◌++◌, ℤ, signed64, Bytes, length,
}
use nordicintel_storage_api.Postgres.Statements.{Backend}

-- The `n` lowest bytes of a number, the highest first.
pub big_endian : ℕ → ℕ → Bytes
big_endian zero v = []
big_endian (suc n) v = big_endian n (v / 256) ++ ((v % 256) ∷ [])

-- binary.BigEndian.PutUint64
abbrev pub put_uint64 : ℕ → Bytes
put_uint64 v = big_endian 8 v

-- binary.BigEndian.Uint64
pub uint64_from : ℕ → ℕ → Bytes → ℕ
uint64_from zero v bytes = v
uint64_from (suc n) v [] = v
uint64_from (suc n) v (b ∷ bytes) = uint64_from n (v * 256 + b) bytes

-- what `advisoryKey` hashes
unfoldable pub advisory_buffer : Bytes → Bytes → Bytes
unfolding big_endian
advisory_buffer provider_key dataset_key =
    put_uint64 (length provider_key)
    ++ (provider_key ++ (put_uint64 (length dataset_key) ++ dataset_key))

unfoldable pub advisory_key : Backend → Bytes → Bytes → ℤ
unfolding advisory_buffer uint64_from
advisory_key e provider_key dataset_key =
    signed64 (uint64_from 8 0 (e.sha256 (advisory_buffer provider_key dataset_key)))
