-- ===== src/PlayStatus.antt =====
-- srv/handlers_ui.go (`settlePlayStatus`) and srv/api_releases.go (`handleApiReleases`): the outcome of
-- pushes whose answer was lost, read off Play's tracks.
pub mod Kept
pub mod Names
pub mod Outcome
pub mod Settled
pub mod Settling
use release_hub.Base.{
  ℕ, String, Bool, ◌&&◌, Option, none, some, List, [], ◌∷◌, ◌++◌, ◌==◌, ◌+++◌, eqb, if◌then◌else◌,
  any_of, find_first, starts_with,
}
use release_hub.Base.Int.{pos}
use release_hub.Text.Number.{decimal}
use release_hub.Result.{error_text, Result, ok, err}
use release_hub.Db.{AppPlatform, Release}
use release_hub.Db.Releases.{list_releases, set_play_status}
use release_hub.Channel.{track_for, is_some}
use release_hub.Storage.{Storage, public_url}
use release_hub.Retention.{artifact_key}
use release_hub.Request.{Request, path_value}
use release_hub.Platform.{platform_from_request}
use release_hub.Accounts.{play_account_creds}
use release_hub.Play.{new_play_publisher_from_json, list_tracks}
use release_hub.World.{
  Outside, Bytes, Json, Fields, rows, write_err, M, ◌>>=◌, ◌>>◌, pure, answer, expect, query, exec,
}

-- a row whose push on a Play channel has no outcome yet
unfoldable pub is_unsettled : Release → Bool
is_unsettled rel = rel.play_status == "pending" && is_some (track_for rel.channel)

-- the names on a track; a later entry for the same track replaces an earlier one
pub names_on : String → List (String × List String) → Option (List String)
names_on track [] = none
names_on track ((t, names) ∷ tracks) = elim (names_on track tracks) [
  | some later ↦ some later
  | none ↦ if t == track then some names else none
]

-- "versionName (bundleVersionCode)"
unfoldable pub wanted_name : Release → String
wanted_name rel = rel.version_name +++ (" (" +++ (decimal rel.version_code +++ ")"))

module _ (x : Outside) (order : List String → List String) where
  -- the name itself, else the first one of that version; `order` is that of Go's map
  unfoldable pub matching : Release → List String → Option String
  matching rel names =
      if any_of (λ n. n == wanted_name rel) names
      then some (wanted_name rel)
      else find_first (λ n. starts_with n (rel.version_name +++ " (")) (order names)

  matched_in : Release → Option String → List (String × List String) → Option String
  matched_in rel none tracks = none
  matched_in rel (some track) tracks = elim (names_on track tracks) [
    | none ↦ none
    | some names ↦ matching rel names
  ]

  settle_as : ℕ → Release → Option String → M (Unit {0})
  settle_as id rel none = pure tt
  settle_as id rel (some name) = do
    exec (set_play_status "ok" "" name id (pos rel.version_code))
    pure tt

  settle_one : ℕ → List (String × List String) → Release → M (Unit {0})
  settle_one id tracks rel =
      if rel.play_status == "pending"
      then settle_as id rel (matched_in rel (track_for rel.channel) tracks)
      else pure tt

  pub settle_all : ℕ → List (String × List String) → List Release → M (Unit {0})
  settle_all id tracks [] = pure tt
  settle_all id tracks (rel ∷ rels) = do settle_one id tracks rel; settle_all id tracks rels

  with_tracks : ℕ → List Release → Result (List (String × List String)) → M (Unit {0})
  with_tracks id rels (err e) = pure tt
  with_tracks id rels (ok tracks) = settle_all id tracks rels

  with_publisher : ℕ → List Release → Result (Unit {0}) → M (Unit {0})
  with_publisher id rels (err e) = pure tt
  with_publisher id rels (ok _) = do found ← list_tracks x; with_tracks id rels found

  with_creds : AppPlatform → List Release → Result Bytes → M (Unit {0})
  with_creds plat rels (err e) = pure tt
  with_creds plat rels (ok creds) = do
    publisher ← new_play_publisher_from_json x plat.package_name creds
    with_publisher plat.id rels publisher

  with_account : AppPlatform → List Release → Option ℕ → M (Unit {0})
  with_account plat rels none = pure tt
  with_account plat rels (some account) = do
    opened ← play_account_creds x account
    with_creds plat rels opened

  -- `settlePlayStatus`
  unfoldable pub settle_play_status : AppPlatform → List Release → M (Unit {0})
  unfolding names_on matched_in settle_as settle_one settle_all with_tracks with_publisher
      with_creds with_account
  settle_play_status plat rels =
      if any_of is_unsettled rels then with_account plat rels plat.play_account_id else pure tt

  unfoldable pub settle_if_enabled : AppPlatform → List Release → M (Unit {0})
  settle_if_enabled plat rels =
      if eqb plat.play_enabled 1 then settle_play_status plat rels else pure tt

  url_text : Result String → String
  url_text (err e) = ""
  url_text (ok url) = url

  field_unless_empty : String → String → Fields
  field_unless_empty key v = if v == "" then [] else (key, Json.str v) ∷ []

  release_fields : Release → String → Fields
  release_fields rel url =
      ("versionCode", Json.num rel.version_code)
      ∷ ("versionName", Json.str rel.version_name)
      ∷ ("channel", Json.str rel.channel)
      ∷ ("sha256", Json.str rel.sha256)
      ∷ ("size", Json.num rel.size_bytes)
      ∷ ("url", Json.str url)
      ∷ ("playStatus", Json.str rel.play_status)
      ∷ (field_unless_empty "playError" rel.play_error
          ++ field_unless_empty "playRelease" rel.play_release)

  module _ (st : Storage) where
    release_rows : String → AppPlatform → List Release → M (List Fields)
    release_rows slug plat [] = pure []
    release_rows slug plat (rel ∷ rels) = do
      located ← public_url x st (artifact_key slug plat.platform rel.file_name)
      more ← release_rows slug plat rels
      pure (release_fields rel (url_text located) ∷ more)

    -- `handleApiReleases`; the rows are those read before the settling
    unfoldable pub handle_api_releases : Request → M (Unit {0})
    unfolding settle_if_enabled url_text field_unless_empty release_fields release_rows
    handle_api_releases r = do
      plat ← platform_from_request r (path_value "slug" r)
      found ← query (λ db. ok (list_releases plat.id db))
      rels ← expect (λ e. write_err 500 (error_text e)) found
      settle_if_enabled plat rels
      out ← release_rows (path_value "slug" r) plat rels
      answer (rows 200 out)
