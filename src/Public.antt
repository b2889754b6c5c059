-- ===== src/Public.antt =====
-- srv/public.go: the endpoints that devices and share links call, without authentication.
pub mod Served
pub mod Fetched
pub mod Kept
use release_hub.Base.{String, ◌||◌, List, [], ◌∷◌, ◌==◌, ◌+++◌, if◌then◌else◌}
use release_hub.Result.{error_text, Result, ok, err}
use release_hub.Text.PathName.{base_name}
use release_hub.Db.{AppPlatform, Release}
use release_hub.Db.Releases.{latest_release_for_channel}
use release_hub.Storage.{Storage, local, s3, public_url, open_file}
use release_hub.Request.{Request, path_value, query_value}
use release_hub.Platform.{platform_from_request, non_empty_or}
use release_hub.Retention.{artifact_key}
use release_hub.World.{
  Outside, Bytes, Json, Response, json, plain, redirect, write_err, M, ◌>>=◌, pure, answer, expect,
  query,
}

-- `playInternalTestingURL`, `playOpenTestingURL` and `playStoreURL`
abbrev pub play_internal_testing_url : String → String
play_internal_testing_url pkg = "https://play.google.com/apps/testing/" +++ pkg

abbrev pub play_open_testing_url : String → String
play_open_testing_url pkg = "https://play.google.com/apps/testing/" +++ pkg

abbrev pub play_store_url : String → String
play_store_url pkg = "https://play.google.com/store/apps/details?id=" +++ pkg

-- `http.NotFound`
abbrev pub not_found : Response
not_found = plain 404 "404 page not found"

-- the first release listed, if there is one
pub first_release : String → List Release → M Release
first_release channel [] = answer (write_err 404 ("no release on channel " +++ channel))
first_release channel (rel ∷ rels) = pure rel

-- the newest release of a channel
pub newest : AppPlatform → String → M Release
unfolding first_release
newest plat channel = do
  listed ← query (λ db. ok (latest_release_for_channel plat.id channel db))
  releases ← expect (λ e. write_err 500 (error_text e)) listed
  first_release channel releases

abbrev pub manifest_of : Release → String → Response
manifest_of rel url = json 200 (
    ("versionCode", Json.num rel.version_code)
    ∷ ("versionName", Json.str rel.version_name)
    ∷ ("apkUrl", Json.str url)
    ∷ ("sha256", Json.str rel.sha256)
    ∷ ("size", Json.num rel.size_bytes)
    ∷ [])

module _ (x : Outside) (st : Storage) where
  pub release_url : AppPlatform → String → Release → M String
  release_url plat slug rel = do
    located ← public_url x st (artifact_key slug plat.platform rel.file_name)
    expect (λ e. write_err 500 ("sign url: " +++ error_text e)) located

  -- `handleManifest`
  unfoldable pub handle_manifest : Request → M (Unit {0})
  unfolding newest release_url
  handle_manifest r = do
    let slug = path_value "slug" r
    plat ← platform_from_request r slug
    rel ← newest plat (non_empty_or (query_value "channel" r) "direct")
    url ← release_url plat slug rel
    answer (manifest_of rel url)

  pub redirect_to_newest : AppPlatform → String → String → M (Unit {0})
  redirect_to_newest plat slug channel = do
    rel ← newest plat channel
    url ← release_url plat slug rel
    answer (redirect url)

  pub download : AppPlatform → String → String → M (Unit {0})
  download plat slug channel =
      if channel == "internal"
      then answer (redirect (play_internal_testing_url plat.package_name))
      else if channel == "beta" || channel == "open"
      then answer (redirect (play_open_testing_url plat.package_name))
      else if channel == "public"
      then answer (redirect (play_store_url plat.package_name))
      else if channel == "direct"
      then redirect_to_newest plat slug channel
      else answer (write_err 400 "channel must be direct, internal, beta or public")

  -- `handleGetRelease`
  unfoldable pub handle_get_release : Request → M (Unit {0})
  unfolding download redirect_to_newest newest release_url
  handle_get_release r = do
    let slug = path_value "slug" r
    plat ← platform_from_request r slug
    download plat slug (non_empty_or (query_value "channel" r) "direct")

  served : Result Bytes → M Bytes
  served (err e) = answer not_found
  served (ok bytes) = pure bytes

  -- the bytes of a local artifact, or a redirect to the bucket
  serve : String → Storage → M Bytes
  serve key (s3 s) = do
    located ← public_url x (s3 s) key
    url ← expect (λ e. not_found) located
    answer (redirect url)
  serve key (local l) = do opened ← open_file (local l) key; served opened

  unfoldable pub requested_key : Request → String
  requested_key r =
      let file = base_name (path_value "file" r) in
      if path_value "platform" r == ""
      then path_value "slug" r +++ ("/" +++ file)
      else artifact_key (path_value "slug" r) (path_value "platform" r) file

  -- `handleArtifact`; it ends with the bytes that it streams
  unfoldable pub handle_artifact : Request → M Bytes
  unfolding serve served requested_key
  handle_artifact r = serve (requested_key r) st
