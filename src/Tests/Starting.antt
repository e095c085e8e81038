-- ===== src/Tests/Starting.antt =====
-- A migration run and a start of the service, and witnesses of the theorems about them.
use nordicintel_storage_api.Prelude.{
  pos, ◌≡◌, refl, codes, Bool, true, false, none, some, [], ◌∷◌, length, ok, err,
}
use nordicintel_storage_api.Migrations.{
  Client, Database, Step, apply_migrations, step_failed, wrong_server, opened, locked, table_made,
  migrated, interrupted, unlocked, closed, advisory_lock_key, expected_version, run_with, run,
}
use nordicintel_storage_api.Migrations.Start.{open_store}
use nordicintel_storage_api.Migrations.Protocol.{Allowed, idle, replay, run_with-Allowed}
use nordicintel_storage_api.Migrations.Laws.{run-open_store}

abbrev fresh_database : Database
fresh_database = record { version_num = pos 180002; encoding = codes "UTF8"; schema_version = none }

abbrev working : Client
working = record {
  fails = λ step s. false;
  meanwhile = λ s. s;
  make_table = λ s. record s { schema_version = some (pos 0) };
  migrate = λ files s. record s { schema_version = some (pos (length files)) };
  migrate_to = λ version files s. record s { schema_version = some version };
  interrupt = λ s. s;
}

abbrev fails_to_apply : Step → Bool
fails_to_apply apply_migrations = true
fails_to_apply _ = false

abbrev broken : Client
broken = record working { fails = λ step s. fails_to_apply step }

abbrev migrated_database : Database
migrated_database = record fresh_database { schema_version = some expected_version }

done_migration : run working fresh_database ≡ record {
  result = ok tt;
  database = migrated_database;
  events =
      opened
      ∷ locked advisory_lock_key
      ∷ table_made
      ∷ migrated
      ∷ unlocked advisory_lock_key
      ∷ closed
      ∷ [];
}
unfolding run
done_migration = refl

-- The table that NewMigrator makes stays.
stopped_migration : run broken fresh_database ≡ record {
  result = err (step_failed apply_migrations);
  database = record fresh_database { schema_version = some (pos 0) };
  events =
      opened
      ∷ locked advisory_lock_key
      ∷ table_made
      ∷ interrupted
      ∷ unlocked advisory_lock_key
      ∷ closed
      ∷ [];
}
unfolding run
stopped_migration = refl

old_server :
    open_store working (record migrated_database { version_num = pos 170004 })
    ≡ (err (wrong_server (pos 170004)), false)
unfolding open_store
old_server = refl

run_with-Allowed_example :
    Allowed idle (run_with broken broken.migrate fresh_database).events
    × (replay broken broken.migrate
          (run_with broken broken.migrate fresh_database).events
          fresh_database
        ≡ (run_with broken broken.migrate fresh_database).database)
run_with-Allowed_example = run_with-Allowed broken broken.migrate fresh_database

run-open_store_example : open_store working (run working fresh_database).database ≡ (ok tt, true)
unfolding run
run-open_store_example =
    run-open_store working working fresh_database
      (record { version_num = λ s. refl; encoding = λ s. refl })
      (record { version_num = λ s. refl; encoding = λ s. refl })
      (record { version_num = λ s. refl; encoding = λ s. refl }) (λ files s. refl) refl
      (λ step. refl)
