-- ===== src/Tests.antt =====
-- The theorems at concrete inputs: a hub with one app and a few releases.
pub mod Faithful
pub mod Containers
pub mod Keys
pub mod Hubs
pub mod Runs
pub mod Settlings
pub mod Logins
pub mod Downloads
pub mod Manifests
pub mod Sessions
pub mod Channels
use release_hub.Base.{
  ℕ, zero, suc, String, List, [], ◌∷◌, Option, none, some, ◌≡◌, ◌≢◌, refl, All, Bool, true, false,
  take, keep_if, arith, ◌+++◌, length, ◌≤◌, ◌<◌, ◌-◌, ◌+◌, ltb, ◌++◌, find_first, any_of, ◌⊎◌,
}
use release_hub.Base.Int.{ℤ, pos}
use release_hub.Result.{GoError, no_rows, Result, ok, err}
use release_hub.Text.Number.{parse_int, decimal}
use release_hub.Upload.Codes.{version_code-decimal}
use release_hub.Channel.{alpha_track, closed_track_name, track_for, track_is_closed}
use release_hub.Db.{App, AppPlatform, Release, Database, empty_database}
use release_hub.Db.Apps.{new_platform, platform_by_slug_and_platform}
use release_hub.Db.Order.{sort_desc, keep_if-Distinct}
use release_hub.Platform.{platform_name, platform_from_request}
use release_hub.Request.{path_value, query_value, form_value, Request, FormFile}
use release_hub.World.{
  call, World, Outside, Outcome, done, panicked, answered, Bytes, Response, write_err, PlayCall,
}
use release_hub.Text.{trim_space, ends_with, drop_chars}
use release_hub.Db.Releases.{
  code_of, on_platform, max_version_code, list_releases_by_channel, create_release,
}
use release_hub.Db.Integrity.{HasUniqueCodes}
use release_hub.Public.{handle_manifest}
use release_hub.Play.{publish}
use release_hub.Play.Released.{release_name, pushed, publish-pushed}
use release_hub.Testers.{normalize_tester_groups}
use release_hub.Testers.Groups.{IsClean, normalize_tester_groups-IsClean}
use release_hub.Storage.{save, LocalStorage, Storage, local, local_path, save_local}
use release_hub.Storage.Files.{put_file, remove_file, file_at}
use release_hub.Storage.RoundTrip.{AllOrNothing, save_local-AllOrNothing}
use release_hub.Storage.Contained.{local_path-IsEntryName}
use release_hub.Retention.{prune_direct_releases}
use release_hub.Retention.Prunes.{
  prune_direct_releases-take, prune_direct_releases-others, prune_direct_releases_panics,
}
use release_hub.Secrets.{load_secret_key, encrypt_creds, decrypt_creds}
use release_hub.Secrets.RoundTrip.{decrypt_creds-encrypt_creds}
use release_hub.Auth.{
  random_token, require_api, set_session, valid_session, clear_session, session_ttl,
}
use release_hub.Auth.Sessions.{
  require_api-Refused, Refused, valid_session-set_session, valid_session-clear_session,
}
use release_hub.Db.Config.{api_token_by_hash, create_session}
use release_hub.Text.PathName.{clean_rooted, base_name, or_root}
use release_hub.Text.PathName.Contained.{IsEntryName}
use release_hub.Upload.{
  file_name_of, version_code, Accepted, handle_api_upload, handle_api_delete_release, store_release,
  accept,
}
use release_hub.Upload.Stored.{RowWithArtifact, store_release-RowWithArtifact}
use release_hub.Upload.Rejections.{SameState, handle_api_upload-SameState}
use release_hub.Tests.Faithful.{encode, zeros, outside, outside-IsFaithful}

abbrev pub demo : AppPlatform
demo = new_platform 1 1 "android" "com.example.demo"

abbrev release : ℕ → Release
release code = record {
  app_platform_id = 1;
  version_code = code;
  version_name = "1.0";
  channel = "direct";
  notes = "";
  sha256 = "sha";
  size_bytes = 2;
  file_name = "app.apk";
  play_status = "pending";
  play_error = "";
  play_release = "";
}

abbrev pub hub : Database
hub = record empty_database {
  apps = record { id = 1; slug = "demo" } ∷ [];
  platforms = demo ∷ [];
  releases = release 1 ∷ release 2 ∷ release 3 ∷ [];
}

abbrev pub calm : World
calm = record { db = hub; files = []; now = 100; play = []; fault = λ n. none; tick = 0 }

abbrev pub disk : LocalStorage
disk = record { dir = "/data"; base_url = "http://hub" }

abbrev pub request : Request
request = record {
  method = "POST";
  path = "/api/apps/demo/android/releases";
  path_values = ("slug", "demo") ∷ ("platform", "android") ∷ [];
  query_values = [];
  post_form = ("versionCode", "3") ∷ [];
  multipart = true;
  form_error = none;
  file = some (record { filename = "app.apk"; content = 1 ∷ 2 ∷ [] });
  authorization = "Bearer unknown";
  cookie = none;
  flash_cookie = none;
}

hub-HasUniqueCodes : HasUniqueCodes hub
hub-HasUniqueCodes id =
    keep_if-Distinct code_of (on_platform id) hub.releases
      ((refl, (refl, tt)), ((refl, tt), (tt, tt)))

abbrev pub accepted : Accepted
accepted = record {
  plat = demo;
  slug = "demo";
  channel = "direct";
  code = 4;
  version_name = "1.1";
  notes = "";
  file = record { filename = "app.apk"; content = 1 ∷ 2 ∷ [] };
}

store_release-RowWithArtifact_example :
    RowWithArtifact outside disk accepted calm (store_release outside (local disk) accepted calm)
store_release-RowWithArtifact_example = store_release-RowWithArtifact outside disk accepted calm

pub stored_now : (store_release outside (local disk) accepted calm).0 ≡ done (2, "sha")
unfolding store_release save save_local local_path clean_rooted file_name_of base_name decimal call
    file_at put_file remove_file create_release any_of
stored_now = refl

abbrev pub manifest_request : Request
manifest_request = record request { post_form = []; file = none; authorization = "" }

too_old :
    (handle_api_upload outside (local disk) request calm).0
    ≡ answered (write_err 409 "versionCode must be > 3 (latest for this app)")
unfolding handle_api_upload accept platform_from_request platform_name path_value query_value
    form_value call platform_by_slug_and_platform max_version_code find_first any_of keep_if
    parse_int decimal track_for trim_space
too_old = refl

handle_api_upload-SameState_example :
    SameState calm (handle_api_upload outside (local disk) request calm).1
handle_api_upload-SameState_example =
    handle_api_upload-SameState calm outside (local disk) request
      (write_err 409 "versionCode must be > 3 (latest for this app)") too_old
      (omega arith, omega arith)

save_local-AllOrNothing_example :
    AllOrNothing outside
      (1 ∷ 2 ∷ [])
      (file_at (local_path disk "demo/1_app.apk") [])
      (save_local outside disk "demo/1_app.apk" (1 ∷ 2 ∷ []) calm).0
      (file_at
        (local_path disk "demo/1_app.apk")
        (save_local outside disk "demo/1_app.apk" (1 ∷ 2 ∷ []) calm).1.files)
save_local-AllOrNothing_example =
    save_local-AllOrNothing outside disk "demo/1_app.apk" (1 ∷ 2 ∷ []) calm

version_code-decimal_example : version_code (decimal 10203) 77 ≡ some (pos 10203)
version_code-decimal_example = version_code-decimal 10203 77 (omega arith) (omega arith)

local_path-IsEntryName_example :
    (names : List String) × (All IsEntryName names
      × (local_path disk "demo/../../etc" ≡ "/data" +++ or_root names))
local_path-IsEntryName_example = local_path-IsEntryName disk "demo/../../etc"

three_direct : 2 ≤ length (list_releases_by_channel 1 "direct" hub)
unfolding list_releases_by_channel sort_desc keep_if
three_direct = omega arith

prune_direct_releases-take_example :
    ((prune_direct_releases (local disk) demo "demo" 2 calm).0
      ≡ done (length (list_releases_by_channel 1 "direct" hub) - 2))
    × (list_releases_by_channel 1 "direct"
          (prune_direct_releases (local disk) demo "demo" 2 calm).1.db
        ≡ take 2 (list_releases_by_channel 1 "direct" hub))
prune_direct_releases-take_example =
    prune_direct_releases-take (local disk) demo "demo" 1 calm (λ n. refl) hub-HasUniqueCodes
      three_direct

prune_direct_releases-others_example :
    list_releases_by_channel 2 "direct" (prune_direct_releases (local disk) demo "demo" 2 calm).1.db
    ≡ list_releases_by_channel 2 "direct" hub
prune_direct_releases-others_example =
    prune_direct_releases-others (local disk) demo "demo" 1 calm (λ n. refl) hub-HasUniqueCodes
      three_direct 2 "direct" (λ e. absurd (omega arith))

few_direct : length (list_releases_by_channel 1 "direct" hub) < 10
unfolding list_releases_by_channel sort_desc keep_if
few_direct = omega arith

prune_direct_releases_panics_example :
    ((prune_direct_releases (local disk) demo "demo" 10 calm).0 ≡ panicked)
    × ((prune_direct_releases (local disk) demo "demo" 10 calm).1.db ≡ hub)
prune_direct_releases_panics_example =
    prune_direct_releases_panics (local disk) demo "demo" 9 calm (λ n. refl) few_direct
