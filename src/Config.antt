-- ===== src/Config.antt =====
-- internal/config/config.go: the configuration and its validation. Durations are int64 nanoseconds.
-- The environment and time.ParseDuration are parameters.
pub mod Laws
use nordicintel_storage_api.Prelude.{
  ℕ, ◌-◌, ◌^◌, ℤ, pos, negsuc, lt_ℤ, Bytes, bytes_beq, codes, Bool, not, ◌||◌, Option, none, some,
  List, [], length, if◌then◌else◌, ltb, Result, ok, err, ◌>>=◌, ◌>>◌, require,
}

abbrev pub schema_max_cells : ℕ
schema_max_cells = 1_000_000

abbrev pub min_token_bytes : ℕ
min_token_bytes = 32

pub data LogLevel : Type 0 where
  debug_level : LogLevel
  info_level : LogLevel
  warn_level : LogLevel
  error_level : LogLevel

pub record Config : Type 0 where
  pub database_url : Bytes
  pub read_write_token : Bytes
  pub read_only_token : Bytes
  pub port : ℤ
  pub max_request_bytes : ℤ
  pub max_cells : ℤ
  pub db_max_conns : ℤ
  pub request_timeout : ℤ
  pub db_timeout : ℤ
  pub shutdown_timeout : ℤ
  pub log_level : LogLevel

pub data ConfigError : Type 0 where
  database_url_required : ConfigError
  read_write_token_short : ConfigError
  read_only_token_short : ConfigError
  tokens_equal : ConfigError
  port_range : ConfigError
  max_request_bytes_range : ConfigError
  max_cells_range : ConfigError
  db_max_conns_range : ConfigError
  request_timeout_range : ConfigError
  db_timeout_range : ConfigError
  shutdown_timeout_range : ConfigError
  not_an_integer : Bytes → ConfigError
  not_a_duration : Bytes → ConfigError
  unsupported_range : Bytes → ConfigError
  unknown_log_level : ConfigError

-- one case of the switch in `Validate`
abbrev pub reject_if : Bool → ConfigError → Result ConfigError (Unit {0})
reject_if b e = if b then err e else ok tt

unfoldable pub validate : Config → Result ConfigError (Unit {0})
validate c = do
  reject_if (bytes_beq c.database_url []) database_url_required
  reject_if (ltb (length c.read_write_token) min_token_bytes) read_write_token_short
  reject_if (ltb (length c.read_only_token) min_token_bytes) read_only_token_short
  reject_if (bytes_beq c.read_write_token c.read_only_token) tokens_equal
  reject_if (lt_ℤ c.port (pos 1) || lt_ℤ (pos 65535) c.port) port_range
  reject_if (lt_ℤ c.max_request_bytes (pos 1)) max_request_bytes_range
  reject_if (lt_ℤ c.max_cells (pos 1) || lt_ℤ (pos schema_max_cells) c.max_cells) max_cells_range
  reject_if (lt_ℤ c.db_max_conns (pos 1)) db_max_conns_range
  reject_if (not (lt_ℤ (pos 0) c.request_timeout)) request_timeout_range
  reject_if (not (lt_ℤ (pos 0) c.db_timeout) || not (lt_ℤ c.db_timeout c.request_timeout))
      db_timeout_range
  reject_if (not (lt_ℤ (pos 0) c.shutdown_timeout)) shutdown_timeout_range

-- the end of `Load`
unfoldable pub checked_config : Config → Result ConfigError Config
unfolding validate
checked_config c = do validate c; ok c

-- os.Getenv, strconv.ParseInt and time.ParseDuration
pub record Environment : Type 0 where
  pub getenv : Bytes → Bytes
  pub parse_int : Bytes → Option ℤ
  pub parse_duration : Bytes → Option ℤ

module _ (env : Environment) where
  -- `envInt` and `envInt64`: an int has 64 bits
  unfoldable pub env_int64 : Bytes → ℤ → Result ConfigError ℤ
  env_int64 name fallback =
      if bytes_beq (env.getenv name) []
      then ok fallback
      else require (not_an_integer name) (env.parse_int (env.getenv name))

  unfoldable pub env_int32 : Bytes → ℤ → Result ConfigError ℤ
  unfolding env_int64
  env_int32 name fallback = do
    n ← env_int64 name fallback
    if lt_ℤ (pos (2 ^ 31 - 1)) n || lt_ℤ n (pos 0) then err (unsupported_range name) else ok n

  unfoldable pub env_duration : Bytes → ℤ → Result ConfigError ℤ
  env_duration name fallback =
      if bytes_beq (env.getenv name) []
      then ok fallback
      else require (not_a_duration name) (env.parse_duration (env.getenv name))

  unfoldable pub env_log_level : Bytes → LogLevel → Result ConfigError LogLevel
  env_log_level name fallback =
      let v = env.getenv name in
      if bytes_beq v []
      then ok fallback
      else if bytes_beq v (codes "debug")
      then ok debug_level
      else if bytes_beq v (codes "info")
      then ok info_level
      else if bytes_beq v (codes "warn")
      then ok warn_level
      else if bytes_beq v (codes "error")
      then ok error_level
      else err unknown_log_level

  unfoldable pub load : Result ConfigError Config
  load = do
    port ← env_int64 (codes "PORT") (pos 8080)
    max_request_bytes ← env_int64 (codes "MAX_REQUEST_BYTES") (pos 134_217_728)
    max_cells ← env_int64 (codes "MAX_CELLS") (pos schema_max_cells)
    db_max_conns ← env_int32 (codes "DB_MAX_CONNS") (pos 4)
    request_timeout ← env_duration (codes "REQUEST_TIMEOUT") (pos 300_000_000_000)
    db_timeout ← env_duration (codes "DB_TIMEOUT") (pos 270_000_000_000)
    shutdown_timeout ← env_duration (codes "SHUTDOWN_TIMEOUT") (pos 30_000_000_000)
    log_level ← env_log_level (codes "LOG_LEVEL") info_level
    checked_config (record {
      database_url = env.getenv (codes "DATABASE_URL");
      read_write_token = env.getenv (codes "API_READ_WRITE_TOKEN");
      read_only_token = env.getenv (codes "API_READ_ONLY_TOKEN");
      port = port;
      max_request_bytes = max_request_bytes;
      max_cells = max_cells;
      db_max_conns = db_max_conns;
      request_timeout = request_timeout;
      db_timeout = db_timeout;
      shutdown_timeout = shutdown_timeout;
      log_level = log_level;
    })
