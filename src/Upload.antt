-- ===== src/Upload.antt =====
-- srv/api_releases.go: an upload, from its guards to the Play push and the pruning after it.
pub mod Kept
pub mod Codes
pub mod Rejections
pub mod Rows
pub mod Guards
pub mod Stored
use release_hub.Base.{
  ℕ, suc, String, Bool, not, ◌||◌, [], ◌∷◌, ◌++◌, Option, none, some, ◌==◌, ◌+++◌, leb, eqb, ltb,
  if◌then◌else◌,
}
use release_hub.Base.Int.{ℤ, pos, negsuc, max_int64}
use release_hub.Text.{trim_space, ends_with}
use release_hub.Text.Number.{parse_int, decimal}
use release_hub.Text.PathName.{base_name}
use release_hub.Channel.{track_for, is_some}
use release_hub.Result.{error_text, Result, ok, err}
use release_hub.Db.{AppPlatform, Release}
use release_hub.Db.Releases.{
  max_version_code, create_release, set_play_status, release_by_app_and_code,
}
use release_hub.Storage.{Storage, save, public_url, open_file, delete_file}
use release_hub.Request.{Request, FormFile, path_value, form_value}
use release_hub.Platform.{platform_from_request, non_empty_or}
use release_hub.Retention.{artifact_key, prune_config, prune_direct_releases, delete_release}
use release_hub.Testers.{play_testers}
use release_hub.Accounts.{play_account_creds}
use release_hub.Play.{new_play_publisher_from_json, publish}
use release_hub.World.{
  Outside, Json, Fields, Response, json, write_err, M, ◌>>=◌, ◌>>◌, pure, answer, expect, require,
  query, exec, call, unchanged, attempt, as_it_is, behind,
}

pub parse_form : Option String → M (Unit {0})
parse_form none = pure tt
parse_form (some text) = answer (write_err 400 ("bad multipart form (max 512MB): " +++ text))

pub known_channel : String → Bool
known_channel channel =
    channel == "public"
    || channel == "beta"
    || channel == "alpha"
    || channel == "internal"
    || channel == "direct"
    || is_some (track_for channel)

-- a requested code; it must be positive
positive : Option ℤ → Option ℤ
positive none = none
positive (some (negsuc n)) = none
positive (some (pos n)) = if eqb n 0 then none else some (pos n)

-- max + 1, on int64
next_code : ℕ → ℤ
next_code m = if leb max_int64 m then negsuc max_int64 else pos (suc m)

pub version_code : String → ℕ → Option ℤ
unfolding positive next_code
version_code v max = if v == "" then some (next_code max) else positive (parse_int v)

-- a code above the latest
pub newer : ℕ → ℤ → Option ℕ
newer max (negsuc n) = none
newer max (pos n) = if ltb max n then some n else none

pub given : {A : Type 0} → Response → Option A → M A
given r none = answer r
given r (some a) = pure a

-- What an upload that passes the guards is about.
pub record Accepted : Type 0 where
  pub plat : AppPlatform
  pub slug : String
  pub channel : String
  pub code : ℕ
  pub version_name : String
  pub notes : String
  pub file : FormFile

-- The guards of `handleApiUpload` behind that of the platform, in their order.
pub accept_for : Request → AppPlatform → M Accepted
unfolding parse_form known_channel version_code newer given
accept_for r plat = do
  parse_form r.form_error
  let channel = non_empty_or (form_value "channel" r) "direct"
  require (known_channel channel)
      (write_err 400 "channel must be direct, internal, alpha, beta or public")
  max_result ← query (λ db. ok (max_version_code plat.id db))
  max ← expect (λ e. write_err 500 (error_text e)) max_result
  wanted ←
      given (write_err 400 "invalid versionCode") (version_code (form_value "versionCode" r) max)
  code ←
      given
        (write_err 409 ("versionCode must be > " +++ (decimal max +++ " (latest for this app)")))
        (newer max wanted)
  file ← given (write_err 400 "missing file field") r.file
  pure (record {
    plat = plat;
    slug = path_value "slug" r;
    channel = channel;
    code = code;
    version_name = non_empty_or (trim_space (form_value "versionName" r)) (decimal code);
    notes = form_value "notes" r;
    file = file;
  })

-- All the guards.
unfoldable pub accept : Request → M Accepted
unfolding accept_for
accept r = do plat ← platform_from_request r (path_value "slug" r); accept_for r plat

unfoldable pub file_name_of : Accepted → String
file_name_of a = decimal a.code +++ ("_" +++ base_name a.file.filename)

abbrev pub key_of : Accepted → String
key_of a = artifact_key a.slug a.plat.platform (file_name_of a)

abbrev pub first_status : String → String
first_status channel = if is_some (track_for channel) then "error" else "pending"

abbrev pub new_release : Accepted → ℕ → String → Release
new_release a size sha = record {
  app_platform_id = a.plat.id;
  version_code = a.code;
  version_name = a.version_name;
  channel = a.channel;
  notes = a.notes;
  sha256 = sha;
  size_bytes = size;
  file_name = file_name_of a;
  play_status = first_status a.channel;
  play_error = "";
  play_release = "";
}

not_enabled : String
not_enabled = "Play publishing is not enabled for this platform (app page → Enable Play publishing)"

module _ (x : Outside) (st : Storage) where
  -- an artifact whose row is refused is deleted again
  pub recorded : Accepted → ℕ × String → Result (Unit {0}) → M (ℕ × String)
  recorded a stored (ok _) = pure stored
  recorded a stored (err e) = do
    delete_file st (key_of a)
    answer (write_err 500 ("record release: " +++ error_text e))

  pub record_row : Accepted → Result (ℕ × String) → M (ℕ × String)
  record_row a (err e) = answer (write_err 500 ("store artifact: " +++ error_text e))
  record_row a (ok stored) = do
    created ← exec (create_release (new_release a stored.0 stored.1))
    recorded a stored created

  -- the artifact, then its row
  unfoldable pub store_release : Accepted → M (ℕ × String)
  unfolding record_row recorded
  store_release a = do saved ← save x st (key_of a) a.file.content; record_row a saved

  push_with : AppPlatform → String → String → String → String → Option ℕ → M (Result String)
  push_with plat key channel version_name notes none = pure (ok "")
  push_with plat key channel version_name notes (some account) =
      attempt (play_account_creds x account) (behind "play account: ") λ creds.
        attempt (new_play_publisher_from_json x plat.package_name creds) as_it_is λ _.
          attempt (call (λ w. (ok (x.temp_name w.tick), w))) as_it_is λ name. do
            released ← attempt (open_file st key) as_it_is λ bytes.
                attempt (call unchanged) as_it_is λ _. attempt (call unchanged) as_it_is λ _. do
                  testers ← play_testers x
                  publish x ("hub-aab-" +++ (name +++ ".aab")) bytes channel version_name notes
                      testers
            call unchanged
            pure released

  -- `publishToPlay`; no release name and no error where it does not apply
  unfoldable pub publish_to_play :
      AppPlatform → String → String → String → String → M (Result String)
  unfolding push_with
  publish_to_play plat key channel version_name notes =
      if eqb plat.play_enabled 0 || not (ends_with (x.lower key) ".aab")
      then pure (ok "")
      else push_with plat key channel version_name notes plat.play_account_id

  abbrev when_play : String → M (Unit {0}) → M (Unit {0})
  when_play channel m = if is_some (track_for channel) then m else pure tt

  -- the outcome of the push is stored; failing to store it is only logged
  set_play : Accepted → String → String → String → M (Unit {0})
  set_play a status error name = do
    exec (set_play_status status error name a.plat.id (pos a.code))
    pure tt

  settle : Accepted → Result String → M Fields
  settle a (err e) = do
    when_play a.channel (set_play a "error" (error_text e) "")
    pure (("playError", Json.str (error_text e)) ∷ [])
  settle a (ok name) =
      if name == ""
      then (when_play a.channel (set_play a "error" not_enabled "") >> pure [])
      else (set_play a "ok" "" name >> pure (("playRelease", Json.str name) ∷ []))

  pruned_field : ℕ → Fields
  pruned_field n = if eqb n 0 then [] else ("pruned", Json.num n) ∷ []

  prune_after : Accepted → M Fields
  prune_after a =
      if not (a.channel == "direct")
      then pure []
      else prune_config a.plat >>= λ keep.
          prune_direct_releases st a.plat a.slug keep >>= λ n. pure (pruned_field n)

  -- what follows the storing
  unfoldable pub announce : Accepted → ℕ × String → M (Unit {0})
  unfolding settle set_play prune_after pruned_field not_enabled
  announce a stored = do
    located ← public_url x st (key_of a)
    url ← expect (λ e. write_err 500 ("sign url: " +++ error_text e)) located
    pushed ← publish_to_play a.plat (key_of a) a.channel a.version_name a.notes
    play_fields ← settle a pushed
    prune_fields ← prune_after a
    answer (
        json 201 (
          ("slug", Json.str a.slug)
          ∷ ("platform", Json.str a.plat.platform)
          ∷ ("versionCode", Json.num a.code)
          ∷ ("versionName", Json.str a.version_name)
          ∷ ("channel", Json.str a.channel)
          ∷ ("sha256", Json.str stored.1)
          ∷ ("size", Json.num stored.0)
          ∷ ("apkUrl", Json.str url)
          ∷ (play_fields ++ prune_fields)))

  -- `handleApiUpload`
  unfoldable pub handle_api_upload : Request → M (Unit {0})
  handle_api_upload r = do a ← accept r; stored ← store_release a; announce a stored

  pub require_direct : Result Release → M (Unit {0})
  require_direct (err e) = answer (write_err 404 "no such release")
  require_direct (ok rel) = require (rel.channel == "direct") (
      write_err 400
        "only direct-channel releases can be deleted (Play channels are managed by Play)")

  pub deleted_answer : Result Bool → M (Unit {0})
  deleted_answer (err e) = answer (write_err 500 (error_text e))
  deleted_answer (ok found) = do
    require found (write_err 404 "no such release")
    answer (json 200 (("ok", Json.bool Bool.true) ∷ []))

  -- `handleApiDeleteRelease`
  unfoldable pub handle_api_delete_release : Request → M (Unit {0})
  unfolding require_direct deleted_answer given
  handle_api_delete_release r = do
    plat ← platform_from_request r (path_value "slug" r)
    code ← given (write_err 400 "invalid versionCode") (parse_int (path_value "versionCode" r))
    found ← query (release_by_app_and_code plat.id code)
    require_direct found
    deleted ← delete_release st plat (path_value "slug" r) code
    deleted_answer deleted
