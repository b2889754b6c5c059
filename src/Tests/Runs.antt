-- ===== src/Tests/Runs.antt =====
-- Two migrations on a database that has none, whose text is its name and whose execution records its
-- number.
use release_hub.Base.{
  ℕ, String, true, false, Option, none, some, List, [], ◌∷◌, ◌≡◌, inl, refl, any_of, arith, keep_if,
  All,
}
use release_hub.Text.{ends_with, trim_space}
use release_hub.Result.{Result, ok}
use release_hub.Migrations.{
  DirEntry, Driver, number_of, is_recorded, migration_files, execute_migration, executed,
  run_migrations,
}
use release_hub.Db.Apps.{sort_by}
use release_hub.Migrations.Again.{Records, run_migrations-again}
use release_hub.Storage.{local}
use release_hub.Startup.{
  Machine, Server, Flags, pragmas, run, backend, set_up_database, new, open_db, env_or,
}
use release_hub.Startup.Again.{reopened}
use release_hub.Startup.Served.{IsSetting, IsStore, unset_flags, run-IsStore}

noted : Option ℕ → List ℕ → List ℕ
noted none ns = ns
noted (some n) ns = n ∷ ns

abbrev two_files : List DirEntry
two_files =
    record { name = "002-signing.sql"; is_dir = false }
    ∷ record { name = "README.md"; is_dir = false }
    ∷ record { name = "001-base.sql"; is_dir = false }
    ∷ []

abbrev by_number : Driver (List ℕ)
by_number = record {
  read_dir = ok two_files;
  read_file = λ name. ok name;
  has_table = λ ns. ok true;
  recorded = λ ns. ok (ok ns);
  exec = λ text ns. (ok tt, noted (number_of text) ns);
}

ok-inj : {ns ms : List ℕ} → Result.ok ns ≡ ok ms → ns ≡ ms
ok-inj h = cc

recorded_first : (n : ℕ) (s : List ℕ) → is_recorded n (n ∷ s) ≡ true
unfolding is_recorded any_of
recorded_first n s = ground arith

recorded_later : (n m : ℕ) (s : List ℕ) → is_recorded m s ≡ true → is_recorded m (n ∷ s) ≡ true
unfolding is_recorded any_of
recorded_later n m s h = ground (arith, h)

by_number-Records :
    (name : String) (n : ℕ) (s : List ℕ)
    → number_of name ≡ some n
    → (execute_migration by_number name s).0 ≡ ok tt
    → Records by_number s (execute_migration by_number name s).1 n
unfolding execute_migration executed is_recorded noted
by_number-Records name n s e h = record {
  later = n ∷ s;
  reads = rw e refl;
  has = recorded_first n s;
  includes = λ before read m h'. recorded_later n m s (rw (ok-inj read) h');
}

both_run : (run_migrations by_number []).0 ≡ ok tt
unfolding run_migrations migration_files sort_by number_of execute_migration executed is_recorded
    noted keep_if ends_with any_of
both_run = refl

run_migrations-again_example :
    run_migrations by_number (run_migrations by_number []).1
    ≡ (ok tt, (run_migrations by_number []).1)
run_migrations-again_example = run_migrations-again by_number by_number-Records [] both_run

-- a machine without a bucket, on which the database file is new
abbrev machine : Machine (List ℕ)
machine = record {
  env = λ k. "";
  parse_flags = λ f. record f { listen = ":80" };
  host = ok "box";
  has_templates = false;
  open_path = λ path. ok [];
  load_default_config = λ opt. ok tt;
}

abbrev started : Server (List ℕ)
started = record {
  db = 2 ∷ 1 ∷ [];
  hostname = "box";
  base_url = "http://localhost:9100";
  storage = local (record { dir = "artifacts"; base_url = "http://localhost:9100" });
  embedded_templates = true;
}

has_started : run machine by_number ≡ ok started
unfolding run backend set_up_database new open_db env_or run_migrations migration_files sort_by
    number_of execute_migration executed is_recorded noted keep_if ends_with any_of trim_space
has_started = refl

no_numbers : All (λ p. by_number.exec p.0 started.db ≡ (ok tt, started.db)) pragmas
unfolding number_of noted ends_with
no_numbers = (refl, (refl, (refl, tt)))

nothing_set : (key value : String) → IsSetting machine key value value
unfolding trim_space
nothing_set key value = inl (refl, refl)

-- the flags of that start
abbrev flags : Flags
flags = machine.parse_flags (unset_flags "http://localhost:9100" "us-east-1" "")

run-IsStore_example :
    IsStore flags started.storage
    × (started.base_url ≡ flags.base_url)
    × (run_migrations by_number started.db ≡ (ok tt, started.db))
    × (run (reopened machine started.db) by_number ≡ ok started)
run-IsStore_example =
    run-IsStore by_number by_number-Records machine started "http://localhost:9100" "us-east-1" ""
      has_started no_numbers (nothing_set "RELEASE_HUB_BASE_URL" "http://localhost:9100")
      (nothing_set "AWS_REGION" "us-east-1") (nothing_set "AWS_ENDPOINT_URL_S3" "")
