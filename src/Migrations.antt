-- ===== src/Migrations.antt =====
-- internal/migrations/migrations.go and downgrade.go. The database server, the migrator of tern and
-- the failures of a step are parameters. A run returns its result, the database that it leaves, and
-- the events of its session, in order.
pub mod Start
pub mod Protocol
pub mod Laws
use nordicintel_storage_api.Prelude.{
  ℤ, pos, ◌/ℤ◌, eq_ℤ, Bytes, codes, bytes_beq, Bool, true, false, not, Option, none, some, List, [],
  ◌∷◌, ◌++◌, if◌then◌else◌, Result, ok, err, ◌>>=◌, ◌>>◌, require,
}

abbrev pub expected_version : ℤ
expected_version = pos 1

abbrev pub advisory_lock_key : ℤ
advisory_lock_key = pos 7446213509137401

-- `Files`: the embedded files of internal/migrations/sql
abbrev pub migration_files : List Bytes
migration_files = codes "001_initial.sql" ∷ []

-- What the code reads and changes: the server's settings and public.schema_version.
pub record Database : Type 0 where
  pub version_num : ℤ
  pub encoding : Bytes
  pub schema_version : Option ℤ

pub data Step : Type 0 where
  connect : Step
  inspect_server : Step
  acquire_lock : Step
  new_migrator : Step
  load_migrations : Step
  apply_migrations : Step
  inspect_table : Step
  read_version : Step
  parse_config : Step
  new_pool : Step
  ping_database : Step

pub data MigrationError : Type 0 where
  step_failed : Step → MigrationError
  wrong_server : ℤ → MigrationError
  wrong_encoding : Bytes → MigrationError
  missing_table : MigrationError
  wrong_version : ℤ → MigrationError

-- What a session does: an unlock is an attempt, whose error the code ignores.
pub data Event : Type 0 where
  opened : Event
  locked : ℤ → Event
  table_made : Event
  migrated : Event
  interrupted : Event
  unlocked : ℤ → Event
  closed : Event

-- Whether a step fails; what other sessions do to the database while a run waits for the lock; and
-- what the migrator does to it: NewMigrator, which makes public.schema_version, a migration of the
-- loaded files to the latest version or to a given one, and a migration that fails.
pub record Client : Type 0 where
  pub fails : Step → Database → Bool
  pub meanwhile : Database → Database
  pub make_table : Database → Database
  pub migrate : List Bytes → Database → Database
  pub migrate_to : ℤ → List Bytes → Database → Database
  pub interrupt : Database → Database

pub record Run : Type 0 where
  pub result : Result MigrationError (Unit {0})
  pub database : Database
  pub events : List Event

abbrev pub stopped : MigrationError → Database → List Event → Run
stopped e s events = record { result = err e; database = s; events = events }

module _ (c : Client) where
  abbrev pub try : Step → Database → Result MigrationError (Unit {0})
  try step s = if c.fails step s then err (step_failed step) else ok tt

  unfoldable pub check_server : Database → Result MigrationError (Unit {0})
  check_server s = do
    try inspect_server s
    if not (eq_ℤ (s.version_num /ℤ pos 10000) (pos 18))
        then err (wrong_server s.version_num)
        else if not (bytes_beq s.encoding (codes "UTF8"))
        then err (wrong_encoding s.encoding)
        else ok tt

  unfoldable pub check_version : Database → Result MigrationError (Unit {0})
  check_version s = do
    try inspect_table s
    version ← require missing_table s.schema_version
    try read_version s
    if not (eq_ℤ version expected_version) then err (wrong_version version) else ok tt

  -- What follows the lock: NewMigrator, LoadMigrations and the migration.
  unfoldable pub run_migrator : (List Bytes → Database → Database) → Database → Run
  run_migrator apply s =
      let made = c.make_table s in
      if c.fails new_migrator s
      then stopped (step_failed new_migrator) s []
      else if c.fails load_migrations made
      then stopped (step_failed load_migrations) made (table_made ∷ [])
      else if c.fails apply_migrations made
      then stopped (step_failed apply_migrations) (c.interrupt made) (table_made ∷ interrupted ∷ [])
      else record {
        result = ok tt;
        database = apply migration_files made;
        events = table_made ∷ migrated ∷ [];
      }

  -- The lock, what follows it, and the deferred pg_advisory_unlock.
  unfoldable pub run_locked : (List Bytes → Database → Database) → Database → Run
  unfolding run_migrator
  run_locked apply s =
      let r = run_migrator apply (c.meanwhile s) in
      record r {
        events = locked advisory_lock_key ∷ (r.events ++ (unlocked advisory_lock_key ∷ []));
      }

  -- What follows the connection.
  unfoldable pub run_connected : (List Bytes → Database → Database) → Database → Run
  unfolding check_server run_locked
  run_connected apply s = checked (do check_server s; try acquire_lock s)
    where
      checked : Result MigrationError (Unit {0}) → Run
      checked (ok u) = run_locked apply s
      checked (err e) = stopped e s []

  -- The connection, what follows it, and the deferred Close.
  unfoldable pub run_with : (List Bytes → Database → Database) → Database → Run
  unfolding run_connected
  run_with apply s =
      let r = run_connected apply s in
      if c.fails connect s
      then stopped (step_failed connect) s []
      else record r { events = opened ∷ (r.events ++ (closed ∷ [])) }

  unfoldable pub run : Database → Run
  unfolding run_with
  run s = run_with c.migrate s

  unfoldable pub migrate_to : ℤ → Database → Run
  unfolding run_with
  migrate_to version s = run_with (c.migrate_to version) s
