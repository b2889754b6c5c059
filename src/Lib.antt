-- ===== src/Lib.antt =====
-- Verification of release-hub, the server that stores app releases, publishes them to Google Play and
-- tells devices about updates.
--
-- The program's parts, and the modules that model them:
--   db/dbgen, db/migrations   Db: a record for each row, Db/Releases, Db/Apps and Db/Config with one
--                             function for each query, the UNIQUE and foreign-key rules included
--   srv/storage.go            Storage: LocalStorage and S3Storage over one map of files
--   srv/play.go               Channel (trackFor, trackIsClosed), Play (the publisher), Play/Errors
--   srv/api_releases.go       Upload (handleApiUpload, handleApiDeleteRelease, publishToPlay),
--                             Accounts (playAccountCreds), Testers (playTesters), PlayAccounts (the
--                             endpoints on accounts, testers, tracks and the preflight), PlayStatus
--                             (handleApiReleases)
--   srv/prune.go              Retention
--   srv/secrets.go            Secrets
--   srv/auth.go               Auth
--   srv/public.go             Public
--   srv/api_apps.go           Platform (platformFromRequest, appFromSlug), Apps (the endpoints on apps,
--                             platforms and tokens, and their forms in srv/handlers_ui.go)
--   srv/handlers_ui.go        Pages (the forms for login, first run, Play, testers, retention and
--                             deletes), Pages/Settings, Pages/Overview (handleAppsPage), Pages/Detail
--                             (handleAppDetail), Pages/Settings/View (handleSettings for a GET), Page
--                             (the data of these pages), PlayStatus (settlePlayStatus), Accounts
--                             (playEmail, playAccountInfo), Testers (normalizeTesterGroups), Public
--                             (the links to Play)
--   srv/signing.go            Pkcs12 (the containers and their key derivation), Signing (the endpoints),
--                             Signing/Fetch (FetchSigningForBuild)
--   srv/templates.go          Assets (assetVersion, staticHandler), Request (flash)
--   srv/routes.go             Hub (each endpoint with its guard and its handler)
--   db/db.go                  Migrations (RunMigrations, executeMigration), Startup (Open)
--   cmd/srv/main.go           Startup (run, envOr), with New and setUpDatabase of srv/server.go and
--                             NewS3Storage of srv/storage.go
--
-- Invariant states what every handler keeps of the rows; the modules named Kept prove it of the
-- handlers of one file each, and Hub/Reachable puts them together over the route table.
--
-- A handler is an action of the state monad of World. Its state has the database, the files of the
-- artifact store, the clock, the log of the calls that Play has answered, and a fault for each call
-- that leaves the process (a query, a file operation, a request to Play or to a bucket): such a call
-- fails with a text or goes through, and one that fails has no effect. An action ends with a value,
-- with an answer (an early return), or with a panic. The stages of a handler are functions in the
-- order of the source; a handler's guards are `require`, `expect` and `given`, and a chain of calls
-- that return errors is `attempt`. Request has what a handler reads of *http.Request.
--
-- What the program calls and does not contain is the record World.Outside: hashes, base64, AES-GCM,
-- bcrypt, random bytes, the environment, Unicode's lower case, request signing, and what Play answers.
-- Text and its children are what the program uses of strings, strconv and path/filepath.
--
-- Numbers: an int64 is an integer of Base/Int where it can be negative, with its upper bound written
-- out where a value is parsed or counted up; the ids and codes in the tables are natural numbers. The
-- only fuel is that of `decimal`: a number has no more digits than its successor counts.
--
-- The certificates and their encoding are Signing.CertCalls and Pkcs12.Alias.Asn1, the database driver
-- of the migrations is Migrations.Driver, what the process finds when it starts is Startup.Machine, and
-- the order in which Go runs through a map is a function from a list to a list, an argument of what
-- depends on it.
--
-- Requests run one after another. The steps of a handler are single calls, each of which may fail, but
-- the steps of two requests are not interleaved.
--
-- Not modelled: the rendering of templates and the dates on the pages, the parsing of the command line
-- and the listening, the client of the S3 SDK, the queries that nothing calls, logging, headers but
-- those of keystores and static files, and the limits of the HTTP library. Columns that no modelled
-- query reads are left out of the rows.
pub mod Base
pub mod Result
pub mod Text
pub mod Channel
pub mod Db
pub mod World
pub mod Storage
pub mod Request
pub mod Platform
pub mod Retention
pub mod Secrets
pub mod Testers
pub mod Play
pub mod Accounts
pub mod Upload
pub mod Public
pub mod Auth
pub mod Apps
pub mod Assets
pub mod Hub
pub mod Invariant
pub mod Migrations
pub mod Page
pub mod Pages
pub mod Pkcs12
pub mod PlayAccounts
pub mod PlayStatus
pub mod Signing
pub mod Startup
pub mod Tests
