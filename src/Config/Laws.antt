-- ===== src/Config/Laws.antt =====
-- What a loaded configuration satisfies.
use nordicintel_storage_api.Prelude.{
  ◌≤◌, ◌≡◌, ◌≢◌, refl, pos, lt_ℤ, codes, bytes_beq, bytes_beq_iff, Bool, true, false, not, ◌||◌, [],
  length, Result, ok, ◌>>◌, >>=-eq-ok, ok-inj, ltb, arith,
}
use nordicintel_storage_api.Config.{
  Config, ConfigError, Environment, schema_max_cells, min_token_bytes, reject_if, validate,
  checked_config, load, env_int64, env_int32, env_duration, env_log_level, info_level,
}

-- The bounds that the service relies on.
pub record IsUsable (c : Config) : Type 0 where
  pub has_database : c.database_url ≢ []
  pub long_read_write : min_token_bytes ≤ length c.read_write_token
  pub long_read_only : min_token_bytes ≤ length c.read_only_token
  pub tokens_differ : c.read_write_token ≢ c.read_only_token
  pub port_in_range : (lt_ℤ c.port (pos 1) ≡ false) × (lt_ℤ (pos 65535) c.port ≡ false)
  pub some_request_bytes : lt_ℤ c.max_request_bytes (pos 1) ≡ false
  pub cells_in_range :
      (lt_ℤ c.max_cells (pos 1) ≡ false) × (lt_ℤ (pos schema_max_cells) c.max_cells ≡ false)
  pub some_connections : lt_ℤ c.db_max_conns (pos 1) ≡ false
  pub database_first :
      (lt_ℤ (pos 0) c.db_timeout ≡ true) × (lt_ℤ c.db_timeout c.request_timeout ≡ true)
  pub some_shutdown : lt_ℤ (pos 0) c.shutdown_timeout ≡ true

passed :
    (b : Bool) (e : ConfigError) (rest : Result ConfigError (Unit {0}))
    → (reject_if b e >> rest) ≡ ok tt
    → (b ≡ false) × (rest ≡ ok tt)
passed true e rest h = cc
passed false e rest h = (refl, h)

passed_last : (b : Bool) (e : ConfigError) → reject_if b e ≡ ok tt → b ≡ false
passed_last true e h = cc
passed_last false e h = refl

-- `Validate` accepts only a usable configuration.
pub validate-IsUsable : (c : Config) → validate c ≡ ok tt → IsUsable c
unfolding validate
validate-IsUsable c e =
    let (url, e₁) = passed (bytes_beq c.database_url []) _ _ e in
    let (write, e₂) = passed (ltb (length c.read_write_token) min_token_bytes) _ _ e₁ in
    let (read, e₃) = passed (ltb (length c.read_only_token) min_token_bytes) _ _ e₂ in
    let (differ, e₄) = passed (bytes_beq c.read_write_token c.read_only_token) _ _ e₃ in
    let (port, e₅) = passed (lt_ℤ c.port (pos 1) || lt_ℤ (pos 65535) c.port) _ _ e₄ in
    let (bytes, e₆) = passed (lt_ℤ c.max_request_bytes (pos 1)) _ _ e₅ in
    let (cells, e₇) =
      passed (lt_ℤ c.max_cells (pos 1) || lt_ℤ (pos schema_max_cells) c.max_cells) _ _ e₆ in
    let (connections, e₈) = passed (lt_ℤ c.db_max_conns (pos 1)) _ _ e₇ in
    let (request, e₉) = passed (not (lt_ℤ (pos 0) c.request_timeout)) _ _ e₈ in
    let (database, e₁₀) =
      passed (not (lt_ℤ (pos 0) c.db_timeout) || not (lt_ℤ c.db_timeout c.request_timeout)) _ _
        e₉ in
    let shutdown = passed_last (not (lt_ℤ (pos 0) c.shutdown_timeout)) _ e₁₀ in
    record {
      has_database = λ h. absurd (ground (arith, bytes_beq_iff c.database_url []));
      long_read_write = ground arith;
      long_read_only = ground arith;
      tokens_differ =
          λ h. absurd (ground (arith, bytes_beq_iff c.read_write_token c.read_only_token));
      port_in_range = (ground arith, ground arith);
      some_request_bytes = bytes;
      cells_in_range = (ground arith, ground arith);
      some_connections = connections;
      database_first = (ground arith, ground arith);
      some_shutdown = ground arith;
    }

checked_config-IsUsable : (built c : Config) → checked_config built ≡ ok c → IsUsable c
unfolding checked_config
checked_config-IsUsable built c e =
    let (_, valid, e') = >>=-eq-ok (validate built) _ e in
    let same : built ≡ c = ok-inj e' in rw (← same) (validate-IsUsable built valid)

-- Whatever the environment holds, a configuration that `Load` returns has a database URL, two
-- different tokens of at least 32 bytes, a port from 1 to 65535, between 1 and 1,000,000 cells,
-- positive limits of bytes and connections, positive timeouts of the database and the shutdown, and
-- a database timeout below that of the request.
pub load-IsUsable : (env : Environment) (c : Config) → load env ≡ ok c → IsUsable c
unfolding load
load-IsUsable env c e =
    let (port, _, e₁) = >>=-eq-ok (env_int64 env (codes "PORT") (pos 8080)) _ e in
    let (bytes, _, e₂) =
      >>=-eq-ok (env_int64 env (codes "MAX_REQUEST_BYTES") (pos 134_217_728)) _ e₁ in
    let (cells, _, e₃) =
      >>=-eq-ok (env_int64 env (codes "MAX_CELLS") (pos schema_max_cells)) _ e₂ in
    let (connections, _, e₄) = >>=-eq-ok (env_int32 env (codes "DB_MAX_CONNS") (pos 4)) _ e₃ in
    let (request, _, e₅) =
      >>=-eq-ok (env_duration env (codes "REQUEST_TIMEOUT") (pos 300_000_000_000)) _ e₄ in
    let (database, _, e₆) =
      >>=-eq-ok (env_duration env (codes "DB_TIMEOUT") (pos 270_000_000_000)) _ e₅ in
    let (shutdown, _, e₇) =
      >>=-eq-ok (env_duration env (codes "SHUTDOWN_TIMEOUT") (pos 30_000_000_000)) _ e₆ in
    let (level, _, e₈) = >>=-eq-ok (env_log_level env (codes "LOG_LEVEL") info_level) _ e₇ in
    checked_config-IsUsable _ c e₈
