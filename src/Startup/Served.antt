-- ===== src/Startup/Served.antt =====
-- What a hub that was started serves: the flags and the environment that it was started with.
use release_hub.Base.{
  String, ◌==◌, All, false, ◌≡◌, ◌⊎◌, ap, ◌∙◌, inl, inr, refl, some, ℕ, eq_iff, Bool-cases,
}
use mathlib.Core.Path.{subst}
use release_hub.Result.{Result, ok, err}
use release_hub.Text.{trim_space}
use release_hub.Storage.{Storage, local, s3, trim_slash}
use release_hub.Migrations.{Driver, number_of, execute_migration, run_migrations}
use release_hub.Migrations.Again.{Records}
use release_hub.Startup.{
  Machine, Server, Options, Flags, wrap, pragmas, set_up_database, server_on, new, given_or_local,
  backend, s3_options, s3_storage, new_s3_storage, default_flags, env_or, name_or_unknown,
  server_for, run_with, run,
}
use release_hub.Startup.Again.{reopened, run-again}

-- The value is that of the environment, unless it is blank there.
abbrev pub IsSetting : {S : Type 0} → Machine S → String → String → String → Type 0
IsSetting m key fallback value =
    ((trim_space (m.env key) ≡ "") × (value ≡ fallback))
    ⊎ (((trim_space (m.env key) == "") ≡ false) × (value ≡ m.env key))

-- The flags where the command line sets none, with three settings of the environment.
abbrev pub unset_flags : String → String → String → Flags
unset_flags base_url region endpoint = record {
  listen = ":9100";
  db_path = "db.sqlite3";
  artifacts = "artifacts";
  base_url = base_url;
  s3_bucket = "";
  s3_region = region;
  s3_endpoint = endpoint;
  s3_prefix = "release-hub";
  s3_public = "";
}

-- The store that the flags ask for.
pub record IsStore (f : Flags) (st : Storage) : Type 0 where
  pub on_disk : f.s3_bucket ≡ "" → st ≡ local (record { dir = f.artifacts; base_url = f.base_url })
  pub in_bucket :
      (f.s3_bucket == "") ≡ false
      → st ≡ s3 (record { prefix = trim_slash f.s3_prefix; public_base = trim_slash f.s3_public })

module _ {S : Type 0} (m : Machine S) (d : Driver S) where
  env_or-IsSetting :
      (key fallback value : String)
      → IsSetting m key fallback value
      → env_or m d key fallback ≡ value
  unfolding env_or
  env_or-IsSetting key fallback value (inl (blank, e)) =
      rw ((eq_iff (trim_space (m.env key)) "").1 blank, e) refl
  env_or-IsSetting key fallback value (inr (there, e)) = rw (there, e) refl

  default_flags-unset :
      (base_url region endpoint : String)
      → IsSetting m "RELEASE_HUB_BASE_URL" "http://localhost:9100" base_url
      → IsSetting m "AWS_REGION" "us-east-1" region
      → IsSetting m "AWS_ENDPOINT_URL_S3" "" endpoint
      → default_flags m d ≡ unset_flags base_url region endpoint
  unfolding default_flags
  default_flags-unset base_url region endpoint b r e =
      rw
        (
          env_or-IsSetting "RELEASE_HUB_BASE_URL" "http://localhost:9100" base_url b,
          env_or-IsSetting "AWS_REGION" "us-east-1" region r,
          env_or-IsSetting "AWS_ENDPOINT_URL_S3" "" endpoint e,
        )
        refl

  s3_of-IsStore :
      (f : Flags) (r : Result (Unit {0})) (st : Storage)
      → wrap "s3 storage: " (s3_storage (s3_options m d f) r) (λ o. ok (s3 o)) ≡ ok st
      → (f.s3_bucket == "") ≡ false
      → IsStore f st
  unfolding s3_storage s3_options
  s3_of-IsStore f (err e) st h named = absurd (cc h)
  s3_of-IsStore f (ok _) st h named = record {
    on_disk = λ none. absurd (let e = (eq_iff f.s3_bucket "").1 none in cc (e, named));
    in_bucket = λ _. cc h;
  }

  backend-IsStore : (f : Flags) (st : Storage) → backend m d f ≡ ok st → IsStore f st
  unfolding backend new_s3_storage s3_options
  backend-IsStore f st h = elim (Bool-cases (f.s3_bucket == "")) [
    | inl none ↦ record {
      on_disk = λ _. let e = rw none at h in cc e;
      in_bucket = λ named. absurd (cc (none, named));
    }
    | inr named ↦
        s3_of-IsStore f (m.load_default_config (s3_options m d f)) st (rw named at h) named
  ]

  server_on-served :
      (opt : Options) (r : Result S) (server : Server S)
      → wrap "create server: " (server_on m d opt r) ok ≡ ok server
      → (server.storage ≡ given_or_local opt.base_url opt.storage)
        × (server.base_url ≡ opt.base_url)
  unfolding server_on
  server_on-served opt (err e) server h = absurd (cc h)
  server_on-served opt (ok s) server h = (cc h, cc h)

  run_with-served :
      (f : Flags) (r : Result Storage) (server : Server S)
      → run_with m d f r ≡ ok server
      → (r ≡ ok server.storage) × (server.base_url ≡ f.base_url)
  unfolding run_with server_for new server_on given_or_local
  run_with-served f (err e) server h = absurd (cc h)
  run_with-served f (ok st) server h =
      let opt : Options = record {
        db_path = f.db_path;
        hostname = name_or_unknown m.host;
        base_url = f.base_url;
        storage = some st;
      } in
      let (store, url) = server_on-served opt (set_up_database m d f.db_path) server h in
      (cc store, url)

  run-served :
      (server : Server S)
      → run m d ≡ ok server
      → IsStore (m.parse_flags (default_flags m d)) server.storage
        × (server.base_url ≡ (m.parse_flags (default_flags m d)).base_url)
  unfolding run
  run-served server h =
      let f = m.parse_flags (default_flags m d) in
      let (store, url) = run_with-served f (backend m d f) server h in
      (backend-IsStore f server.storage store, url)

module _ {S : Type 0} (d : Driver S)
    (records : (name : String) (n : ℕ) (s : S)
      → number_of name ≡ some n
      → (execute_migration d name s).0 ≡ ok tt
      → Records d s (execute_migration d name s).1 n) where
  -- If a hub was started, the pragmas change nothing in its database, and each migration that is
  -- executed records its number and loses none, then it serves what the flags say. Their defaults are
  -- written out, with three settings of the environment where those are not blank, and the command
  -- line is read over them. The store is the directory of the flags, or the bucket if one is named;
  -- the base URL is that of the flags; on the database no migration is due, and a start on the file
  -- as it is now gives the same server.
  pub run-IsStore :
      (m : Machine S) (server : Server S) (base_url region endpoint : String)
      → run m d ≡ ok server
      → All (λ p. d.exec p.0 server.db ≡ (ok tt, server.db)) pragmas
      → IsSetting m "RELEASE_HUB_BASE_URL" "http://localhost:9100" base_url
      → IsSetting m "AWS_REGION" "us-east-1" region
      → IsSetting m "AWS_ENDPOINT_URL_S3" "" endpoint
      → IsStore (m.parse_flags (unset_flags base_url region endpoint)) server.storage
        × (server.base_url ≡ (m.parse_flags (unset_flags base_url region endpoint)).base_url)
        × (run_migrations d server.db ≡ (ok tt, server.db))
        × (run (reopened m server.db) d ≡ ok server)
  run-IsStore m server base_url region endpoint h harmless b r e =
      let (store, url) = run-served m d server h in
      let defaults = default_flags-unset m d base_url region endpoint b r e in
      let (none_due, again) = run-again d records m server h harmless in
      (
        subst (λ f. IsStore (m.parse_flags f) server.storage) defaults store,
        url ∙ ap (λ f. (m.parse_flags f).base_url) defaults,
        none_due,
        again,
      )
