-- ===== src/Startup.antt =====
-- cmd/srv/main.go, srv/server.go, db.Open of db/db.go and NewS3Storage of srv/storage.go: from the flags
-- and the environment to a server.
pub mod Again
pub mod Served
use release_hub.Base.{
  String, Bool, true, false, not, Option, none, some, List, [], ◌∷◌, ◌==◌, if◌then◌else◌,
}
use release_hub.Text.{trim_space}
use release_hub.Result.{GoError, failure, Result, ok, err}
use release_hub.Storage.{Storage, LocalStorage, S3Storage, local, s3, trim_slash}
use release_hub.Migrations.{Driver, run_migrations}
use release_hub.World.{behind}

pub record S3Options : Type 0 where
  pub bucket : String
  pub region : String
  pub endpoint : String
  pub key_id : String
  pub secret : String
  pub prefix : String
  pub public_base : String

-- the flags of main.go, by their variables
pub record Flags : Type 0 where
  pub listen : String
  pub db_path : String
  pub artifacts : String
  pub base_url : String
  pub s3_bucket : String
  pub s3_region : String
  pub s3_endpoint : String
  pub s3_prefix : String
  pub s3_public : String

-- What the process finds: the environment, the flags that the command line sets over their defaults,
-- the name of the host, whether the templates stand on the disk, the opening of a database file, and
-- the configuration of the S3 client.
pub record Machine (S : Type 0) : Type 0 where
  pub env : String → String
  pub parse_flags : Flags → Flags
  pub host : Result String
  pub has_templates : Bool
  pub open_path : String → Result S
  pub load_default_config : S3Options → Result (Unit {0})

-- `Options`
pub record Options : Type 0 where
  pub db_path : String
  pub hostname : String
  pub base_url : String
  pub storage : Option Storage

pub record Server (S : Type 0) : Type 0 where
  pub db : S
  pub hostname : String
  pub base_url : String
  pub storage : Storage
  pub embedded_templates : Bool

-- `fmt.Errorf` with `%w`
abbrev pub wrap : {A B : Type 0} → String → Result A → (A → Result B) → Result B
wrap text (err e) f = err (behind text e)
wrap text (ok a) f = f a

-- the bucket of the options, without the client
s3_storage : S3Options → Result (Unit {0}) → Result S3Storage
s3_storage opt (err e) = err e
s3_storage opt (ok _) =
    ok (record { prefix = trim_slash opt.prefix; public_base = trim_slash opt.public_base })

-- a pragma, and the text in front of its error
abbrev pub pragmas : List (String × String)
pragmas =
    ("PRAGMA foreign_keys=ON;", "enable foreign keys: ")
    ∷ ("PRAGMA journal_mode=wal;", "set WAL: ")
    ∷ ("PRAGMA busy_timeout=1000;", "set busy_timeout: ")
    ∷ []

given_or_local : String → Option Storage → Storage
given_or_local base_url none = local (record { dir = "artifacts"; base_url = base_url })
given_or_local base_url (some st) = st

name_or_unknown : Result String → String
name_or_unknown (err e) = "unknown"
name_or_unknown (ok name) = name

module _ {S : Type 0} (m : Machine S) (d : Driver S) where
  -- `NewS3Storage`
  unfoldable pub new_s3_storage : S3Options → Result S3Storage
  unfolding s3_storage
  new_s3_storage opt =
      if opt.bucket == ""
      then err (failure "s3 storage requires bucket")
      else s3_storage opt (m.load_default_config opt)

  after_pragma : String → Result (Unit {0}) × S → (S → Result S) → Result S
  after_pragma text (err e, s) rest = err (behind text e)
  after_pragma text (ok _, s) rest = rest s

  prepared : List (String × String) → S → Result S
  prepared [] s = ok s
  prepared ((pragma, text) ∷ rest) s = after_pragma text (d.exec pragma s) (prepared rest)

  with_pragmas : Result S → Result S
  with_pragmas (err e) = err e
  with_pragmas (ok s) = prepared pragmas s

  -- `db.Open`; a database on which a pragma fails is closed
  unfoldable pub open_db : String → Result S
  unfolding after_pragma prepared with_pragmas
  open_db path = with_pragmas (m.open_path path)

  migrated : Result (Unit {0}) × S → Result S
  migrated (err e, s) = err (behind "failed to run migrations: " e)
  migrated (ok _, s) = ok s

  -- `setUpDatabase`
  unfoldable pub set_up_database : String → Result S
  unfolding migrated
  set_up_database path =
      wrap "failed to open db: " (open_db path) λ s. migrated (run_migrations d s)

  server_on : Options → Result S → Result (Server S)
  server_on opt (err e) = err e
  server_on opt (ok s) = ok (record {
    db = s;
    hostname = opt.hostname;
    base_url = opt.base_url;
    storage = given_or_local opt.base_url opt.storage;
    embedded_templates = not m.has_templates;
  })

  -- `New`
  unfoldable pub new : Options → Result (Server S)
  unfolding given_or_local server_on
  new opt = server_on opt (set_up_database opt.db_path)

  -- `envOr`
  unfoldable pub env_or : String → String → String
  env_or k def = if trim_space (m.env k) == "" then def else m.env k

  default_flags : Flags
  default_flags = record {
    listen = ":9100";
    db_path = "db.sqlite3";
    artifacts = "artifacts";
    base_url = env_or "RELEASE_HUB_BASE_URL" "http://localhost:9100";
    s3_bucket = "";
    s3_region = env_or "AWS_REGION" "us-east-1";
    s3_endpoint = env_or "AWS_ENDPOINT_URL_S3" "";
    s3_prefix = "release-hub";
    s3_public = "";
  }

  s3_options : Flags → S3Options
  s3_options f = record {
    bucket = f.s3_bucket;
    region = f.s3_region;
    endpoint = f.s3_endpoint;
    key_id = m.env "AWS_ACCESS_KEY_ID";
    secret = m.env "AWS_SECRET_ACCESS_KEY";
    prefix = f.s3_prefix;
    public_base = f.s3_public;
  }

  -- the local file system, unless a bucket is named
  unfoldable pub backend : Flags → Result Storage
  unfolding s3_options
  backend f =
      if f.s3_bucket == ""
      then ok (local (record { dir = f.artifacts; base_url = f.base_url }))
      else wrap "s3 storage: " (new_s3_storage (s3_options f)) λ st. ok (s3 st)

  server_for : Flags → Storage → Result (Server S)
  server_for f st =
      wrap "create server: "
        (new (record {
          db_path = f.db_path;
          hostname = name_or_unknown m.host;
          base_url = f.base_url;
          storage = some st;
        }))
        λ server. ok server

  run_with : Flags → Result Storage → Result (Server S)
  run_with f (err e) = err e
  run_with f (ok st) = server_for f st

  -- `run` up to `server.Serve`
  unfoldable pub run : Result (Server S)
  unfolding name_or_unknown server_for run_with default_flags
  run = run_with (m.parse_flags default_flags) (backend (m.parse_flags default_flags))
