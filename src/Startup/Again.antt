-- ===== src/Startup/Again.antt =====
-- A hub that is stopped and started again.
use release_hub.Base.{ℕ, String, List, [], ◌∷◌, some, All, ◌≡◌, refl, sym, ap, ◌∙◌}
use release_hub.Result.{Result, ok, err}
use release_hub.Storage.{Storage}
use release_hub.Migrations.{Driver, number_of, execute_migration, run_migrations}
use release_hub.Migrations.Again.{Records, run_migrations-again}
use release_hub.Startup.{
  Machine, Server, Options, Flags, wrap, pragmas, prepared, after_pragma, with_pragmas, open_db,
  migrated, set_up_database, server_on, new, backend, s3_options, new_s3_storage, default_flags,
  env_or, name_or_unknown, server_for, run_with, run,
}

-- The machine on which the database file has this content, and all else is as it was.
abbrev pub reopened : {S : Type 0} → Machine S → S → Machine S
reopened m s = record m { open_path = λ path. ok s }

module _ {S : Type 0} (m : Machine S) (d : Driver S) where
  migrated-ok :
      (p : Result (Unit {0}) × S) (s : S) → migrated m d p ≡ ok s → (p.0 ≡ ok tt) × (s ≡ p.1)
  unfolding migrated
  migrated-ok (err e, s') s h = absurd (cc h)
  migrated-ok (ok _, s') s h = (refl, cc h)

  -- A database on which the migrations went through.
  abbrev IsMigrated : S → Type 0
  IsMigrated s = (s0 : S) × ((run_migrations d s0).0 ≡ ok tt) × (s ≡ (run_migrations d s0).1)

  IsMigrated-opened :
      (r : Result S) (s : S)
      → wrap "failed to open db: " r (λ s0. migrated m d (run_migrations d s0)) ≡ ok s
      → IsMigrated s
  IsMigrated-opened (err e) s h = absurd (cc h)
  IsMigrated-opened (ok s0) s h =
      let (done, left) = migrated-ok (run_migrations d s0) s h in (s0, done, left)

  prepared-same :
      (ps : List (String × String)) (s : S)
      → All (λ p. d.exec p.0 s ≡ (ok tt, s)) ps
      → prepared m d ps s ≡ ok s
  unfolding prepared after_pragma
  prepared-same [] s h = refl
  prepared-same ((pragma, text) ∷ ps) s (h, hs) = rw h (prepared-same ps s hs)

  abbrev db_of : Result (Server S) → Result S
  db_of (err e) = err e
  db_of (ok server) = ok server.db

  server_on-db :
      (opt : Options) (r : Result S) (server : Server S)
      → wrap "create server: " (server_on m d opt r) ok ≡ ok server
      → r ≡ ok server.db
  unfolding server_on
  server_on-db opt (err e) server h = absurd (cc h)
  server_on-db opt (ok s) server h = ap db_of h

module _ {S : Type 0} (d : Driver S)
    (records : (name : String) (n : ℕ) (s : S)
      → number_of name ≡ some n
      → (execute_migration d name s).0 ≡ ok tt
      → Records d s (execute_migration d name s).1 n) where
  set_up_database-again :
      (m : Machine S) (path : String) (s : S)
      → set_up_database m d path ≡ ok s
      → All (λ p. d.exec p.0 s ≡ (ok tt, s)) pragmas
      → (run_migrations d s ≡ (ok tt, s)) × (set_up_database (reopened m s) d path ≡ ok s)
  unfolding set_up_database open_db with_pragmas migrated
  set_up_database-again m path s h harmless =
      let (s0, done, left) = IsMigrated-opened m d (open_db m d path) s h in
      let again : run_migrations d s ≡ (ok tt, s) =
        rw left (run_migrations-again d records s0 done) in
      (again, rw (prepared-same (reopened m s) d pragmas s harmless, again) refl)

  server_for-again :
      (m : Machine S) (f : Flags) (st : Storage) (server : Server S)
      → server_for m d f st ≡ ok server
      → All (λ p. d.exec p.0 server.db ≡ (ok tt, server.db)) pragmas
      → (run_migrations d server.db ≡ (ok tt, server.db))
        × (server_for (reopened m server.db) d f st ≡ ok server)
  unfolding server_for new server_on
  server_for-again m f st server h harmless =
      let opt : Options = record {
        db_path = f.db_path;
        hostname = name_or_unknown m.host;
        base_url = f.base_url;
        storage = some st;
      } in
      let first = server_on-db m d opt (set_up_database m d f.db_path) server h in
      let (none_due, second) = set_up_database-again m f.db_path server.db first harmless in
      (none_due, ap (λ r. wrap "create server: " (server_on m d opt r) ok) (second ∙ sym first) ∙ h)

  run_with-again :
      (m : Machine S) (f : Flags) (r : Result Storage) (server : Server S)
      → run_with m d f r ≡ ok server
      → All (λ p. d.exec p.0 server.db ≡ (ok tt, server.db)) pragmas
      → (run_migrations d server.db ≡ (ok tt, server.db))
        × (run_with (reopened m server.db) d f r ≡ ok server)
  unfolding run_with
  run_with-again m f (err e) server h harmless = absurd (cc h)
  run_with-again m f (ok st) server h harmless = server_for-again m f st server h harmless

  -- A second start on the file as the first left it.
  pub run-again :
      (m : Machine S) (server : Server S)
      → run m d ≡ ok server
      → All (λ p. d.exec p.0 server.db ≡ (ok tt, server.db)) pragmas
      → (run_migrations d server.db ≡ (ok tt, server.db))
        × (run (reopened m server.db) d ≡ ok server)
  unfolding run backend s3_options new_s3_storage default_flags env_or
  run-again m server h harmless =
      run_with-again m (m.parse_flags (default_flags m d))
        (backend m d (m.parse_flags (default_flags m d))) server h harmless
