-- ===== src/Migrations/Laws.antt =====
-- What a migration run of internal/migrations leaves, and when the store opens after it.
use nordicintel_storage_api.Prelude.{
  pos, eq_ℤ, bytes_beq, ◌≡◌, refl, sym, ap, Bytes, List, length, true, false, not, Bool-cases, inl,
  inr, some, Result, ok, err, if◌then◌else◌, Result-cases, >>=-eq-ok, ◌>>=◌, codes, subst, require,
  ◌/ℤ◌,
}
use nordicintel_storage_api.Migrations.{
  Client, Database, Step, MigrationError, connect, try, expected_version, migration_files,
  check_server, run_migrator, run_locked, run_connected, run_with, run, missing_table, wrong_server,
  wrong_encoding, inspect_server, parse_config, new_pool, ping_database, inspect_table,
  read_version, acquire_lock, new_migrator, load_migrations, apply_migrations, check_version,
}
use nordicintel_storage_api.Migrations.Start.{check_pool, open_store}

module _ (c : Client) (apply : List Bytes → Database → Database) (s : Database) where
  run_migrator-eq-ok :
      (run_migrator c apply s).result ≡ ok tt
      → (run_migrator c apply s).database ≡ apply migration_files (c.make_table s)
  unfolding run_migrator
  run_migrator-eq-ok h = elim (Bool-cases (c.fails new_migrator s)) [
    | inl failed ↦ absurd (cc (rw failed at h))
    | inr made ↦ elim (Bool-cases (c.fails load_migrations (c.make_table s))) [
      | inl failed ↦ absurd (cc (rw (made, failed) at h))
      | inr loaded ↦ elim (Bool-cases (c.fails apply_migrations (c.make_table s))) [
        | inl failed ↦ absurd (cc (rw (made, loaded, failed) at h))
        | inr applied ↦ rw (made, loaded, applied) refl
      ]
    ]
  ]

-- What a connected run that succeeds has checked, and what it leaves.
module _ (c : Client) (apply : List Bytes → Database → Database) (s : Database) where
  run_connected-eq-ok :
      (run_connected c apply s).result ≡ ok tt
      → (check_server c s ≡ ok tt)
        × ((run_connected c apply s).database
            ≡ apply migration_files (c.make_table (c.meanwhile s)))
  unfolding run_connected run_locked
  run_connected-eq-ok h = elim (Result-cases (check_server c s >>= λ _. try c acquire_lock s)) [
    | inr (e, refused) ↦ absurd (cc (rw refused at h))
    | inl (u, passed) ↦
        let (v, checked, _) = >>=-eq-ok (check_server c s) (λ _. try c acquire_lock s) passed in
        (checked, rw passed (run_migrator-eq-ok c apply (c.meanwhile s) (rw passed at h)))
  ]

  run_with-eq-ok :
      (run_with c apply s).result ≡ ok tt
      → (check_server c s ≡ ok tt)
        × ((run_with c apply s).database ≡ apply migration_files (c.make_table (c.meanwhile s)))
  unfolding run_with
  run_with-eq-ok h = elim (Bool-cases (c.fails connect s)) [
    | inl failed ↦ absurd (cc (rw failed at h))
    | inr opened ↦ rw opened (run_connected-eq-ok (rw opened at h))
  ]

-- What `CheckServer` and `CheckVersion` accept.
pub record IsReady (s : Database) : Type 0 where
  pub version : eq_ℤ (s.version_num /ℤ pos 10000) (pos 18) ≡ true
  pub encoding : bytes_beq s.encoding (codes "UTF8") ≡ true
  pub schema : s.schema_version ≡ some expected_version

check_server-eq-ok :
    (c : Client) (s : Database)
    → check_server c s ≡ ok tt
    → (eq_ℤ (s.version_num /ℤ pos 10000) (pos 18) ≡ true)
      × (bytes_beq s.encoding (codes "UTF8") ≡ true)
unfolding check_server
check_server-eq-ok c s h =
    let (_, _, h1) = >>=-eq-ok (try c inspect_server s) (λ _. checks) h in
    elim (Bool-cases (eq_ℤ (s.version_num /ℤ pos 10000) (pos 18))) [
      | inr other ↦ absurd (cc (rw other at h1))
      | inl same ↦ elim (Bool-cases (bytes_beq s.encoding (codes "UTF8"))) [
        | inr other ↦ absurd (cc (rw (same, other) at h1))
        | inl same' ↦ (same, same')
      ]
    ]
  where
    checks : Result MigrationError (Unit {0})
    checks =
        if not (eq_ℤ (s.version_num /ℤ pos 10000) (pos 18))
        then err (wrong_server s.version_num)
        else if not (bytes_beq s.encoding (codes "UTF8"))
        then err (wrong_encoding s.encoding)
        else ok tt

-- A store opens on a database that is ready, with no fault, and its pool stays open.
IsReady-open_store :
    (o : Client) (s : Database)
    → IsReady s
    → ((step : Step) → o.fails step s ≡ false)
    → open_store o s ≡ (ok tt, true)
unfolding open_store check_pool check_server check_version
IsReady-open_store o s w runs =
    let required : require missing_table s.schema_version ≡ ok expected_version =
      ap (require missing_table) w.schema in
    rw
      (
        runs parse_config,
        runs new_pool,
        runs ping_database,
        runs inspect_server,
        w.version,
        w.encoding,
        runs inspect_table,
        required,
        runs read_version,
      )
      refl

-- What leaves the settings of the server.
pub record KeepsServer (f : Database → Database) : Type 0 where
  pub version_num : (s : Database) → (f s).version_num ≡ s.version_num
  pub encoding : (s : Database) → (f s).encoding ≡ s.encoding

-- After a migration run that succeeds, `Open` succeeds on the database that it leaves and keeps its
-- pool open: the migrator, and other sessions while the run waits for the lock, leave the settings of
-- the server, a migration brings public.schema_version to the number of the files that were loaded,
-- and no step of `Open` fails.
pub run-open_store :
    (c o : Client) (s : Database)
    → KeepsServer c.meanwhile
    → KeepsServer c.make_table
    → KeepsServer (c.migrate migration_files)
    → ((files : List Bytes) (x : Database)
        → (c.migrate files x).schema_version ≡ some (pos (length files)))
    → (run c s).result ≡ ok tt
    → ((step : Step) → o.fails step (run c s).database ≡ false)
    → open_store o (run c s).database ≡ (ok tt, true)
unfolding run
run-open_store c o s meanwhile made migrates latest h runs =
    let (checked, left) = run_with-eq-ok c c.migrate s h in
    let (version, encoding) = check_server-eq-ok c s checked in
    let s1 = c.meanwhile s in
    let s2 = c.make_table s1 in
    IsReady-open_store o (run_with c c.migrate s).database
      (subst IsReady (sym left) (record {
        version =
            rw (migrates.version_num s2, made.version_num s1, meanwhile.version_num s) version;
        encoding = rw (migrates.encoding s2, made.encoding s1, meanwhile.encoding s) encoding;
        schema = latest migration_files s2;
      }))
      runs
