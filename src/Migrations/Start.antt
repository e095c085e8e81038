-- ===== src/Migrations/Start.antt =====
-- `Open` of internal/store/postgres.go: a pool is handed out only on a database that the service can
-- work with.
use nordicintel_storage_api.Prelude.{Bool, true, false, Result, ok, err, ◌>>◌}
use nordicintel_storage_api.Migrations.{
  Client, Database, MigrationError, parse_config, new_pool, ping_database, try, check_server,
  check_version,
}

module _ (c : Client) where
  -- What follows the creation of the pool.
  unfoldable pub check_pool : Database → Result MigrationError (Unit {0})
  unfolding check_server check_version
  check_pool s = do try c ping_database s; check_server c s; check_version c s

  -- The result, and whether a pool is left open.
  unfoldable pub open_store : Database → Result MigrationError (Unit {0}) × Bool
  unfolding check_pool
  open_store s = created (do try c parse_config s; try c new_pool s)
    where
      checked : Result MigrationError (Unit {0}) → Result MigrationError (Unit {0}) × Bool
      checked (ok u) = (ok u, true)
      checked (err e) = (err e, false)

      created : Result MigrationError (Unit {0}) → Result MigrationError (Unit {0}) × Bool
      created (ok u) = checked (check_pool s)
      created (err e) = (err e, false)
