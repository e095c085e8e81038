-- ===== src/Migrations/Protocol.antt =====
-- In which order a session of internal/migrations takes and gives back what it holds.
use mathlib.Core.List.{append_assoc}
use nordicintel_storage_api.Prelude.{
  ℤ, ◌≡◌, refl, ◌∙◌, Bytes, Bool-cases, inl, inr, List, [], ◌∷◌, ◌++◌, Result-cases, ◌>>=◌,
}
use nordicintel_storage_api.Migrations.{
  Client, Database, Event, opened, locked, table_made, migrated, interrupted, unlocked, closed,
  migration_files, advisory_lock_key, connect, acquire_lock, new_migrator, load_migrations,
  apply_migrations, try, check_server, run_migrator, run_locked, run_connected, run_with,
}

-- No session, a session, and a session that holds the lock with a key.
pub data Phase : Type 0 where
  idle : Phase
  attached : Phase
  holding : ℤ → Phase

-- From the phase, the events are in order: only a session that holds the lock changes the database,
-- the key that was locked is unlocked, the session is closed after that, and nothing is left open.
abbrev pub Allowed : Phase → List Event → Type 0
Allowed idle [] = Unit
Allowed idle (opened ∷ events) = Allowed attached events
Allowed attached (locked k ∷ events) = Allowed (holding k) events
Allowed attached (closed ∷ events) = Allowed idle events
Allowed (holding k) (table_made ∷ events) = Allowed (holding k) events
Allowed (holding k) (migrated ∷ events) = Allowed (holding k) events
Allowed (holding k) (interrupted ∷ events) = Allowed (holding k) events
Allowed (holding k) (unlocked j ∷ events) = (j ≡ k) × Allowed attached events
Allowed _ _ = ⊥

module _ (c : Client) (apply : List Bytes → Database → Database) where
  -- What one event does to the database.
  abbrev pub effect : Event → Database → Database
  effect (locked k) s = c.meanwhile s
  effect table_made s = c.make_table s
  effect migrated s = apply migration_files s
  effect interrupted s = c.interrupt s
  effect _ s = s

  abbrev pub replay : List Event → Database → Database
  replay [] s = s
  replay (event ∷ events) s = replay events (effect event s)

  replay-append :
      (xs ys : List Event) (s : Database) → replay (xs ++ ys) s ≡ replay ys (replay xs s)
  replay-append [] ys s = refl
  replay-append (x ∷ xs) ys s = replay-append xs ys (effect x s)

  -- What the migrator does, before whatever the session does next.
  run_migrator-Allowed :
      (k : ℤ) (s : Database) (next : List Event)
      → Allowed (holding k) next
      → Allowed (holding k) ((run_migrator c apply s).events ++ next)
        × (replay (run_migrator c apply s).events s ≡ (run_migrator c apply s).database)
  unfolding run_migrator
  run_migrator-Allowed k s next h = elim (Bool-cases (c.fails new_migrator s)) [
    | inl failed ↦ rw failed (h, refl)
    | inr made ↦ elim (Bool-cases (c.fails load_migrations (c.make_table s))) [
      | inl failed ↦ rw (made, failed) (h, refl)
      | inr loaded ↦ elim (Bool-cases (c.fails apply_migrations (c.make_table s))) [
        | inl failed ↦ rw (made, loaded, failed) (h, refl)
        | inr applied ↦ rw (made, loaded, applied) (h, refl)
      ]
    ]
  ]

  run_locked-Allowed :
      (s : Database) (next : List Event)
      → Allowed attached next
      → Allowed attached ((run_locked c apply s).events ++ next)
        × (replay (run_locked c apply s).events s ≡ (run_locked c apply s).database)
  unfolding run_locked
  run_locked-Allowed s next h =
      let k = advisory_lock_key in
      let events = (run_migrator c apply (c.meanwhile s)).events in
      let (allowed, same) = run_migrator-Allowed k (c.meanwhile s) (unlocked k ∷ next) (refl, h) in
      (
        rw (append_assoc events (unlocked k ∷ []) next) allowed,
        replay-append events (unlocked k ∷ []) (c.meanwhile s) ∙ same,
      )

  run_connected-Allowed :
      (s : Database) (next : List Event)
      → Allowed attached next
      → Allowed attached ((run_connected c apply s).events ++ next)
        × (replay (run_connected c apply s).events s ≡ (run_connected c apply s).database)
  unfolding run_connected
  run_connected-Allowed s next h =
      elim (Result-cases (check_server c s >>= λ _. try c acquire_lock s)) [
        | inl (u, passed) ↦ rw passed (run_locked-Allowed s next h)
        | inr (e, refused) ↦ rw refused (h, refl)
      ]

  -- Whatever fails, the events of a run are in order: it changes the database only while it holds the
  -- advisory lock, it unlocks the key that it locked, it closes the connection after that, and nothing
  -- is left open; and the database that it leaves is the one that these events make.
  pub run_with-Allowed :
      (s : Database)
      → Allowed idle (run_with c apply s).events
        × (replay (run_with c apply s).events s ≡ (run_with c apply s).database)
  unfolding run_with
  run_with-Allowed s = elim (Bool-cases (c.fails connect s)) [
    | inl failed ↦ rw failed (tt, refl)
    | inr opened' ↦
        let (allowed, same) = run_connected-Allowed s (closed ∷ []) tt in
        rw opened' (allowed, replay-append (run_connected c apply s).events (closed ∷ []) s ∙ same)
  ]
