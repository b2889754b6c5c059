-- ===== src/Db/Releases.antt =====
-- The queries on `releases` of db/dbgen/releasehub.sql.go.
pub mod Greatest
pub mod Newest
use release_hub.Base.{
  ℕ, String, Bool, false, ◌&&◌, not, List, [], ◌∷◌, ◌++◌, map, take, eqb, leb, ◌==◌, keep_if,
  find_first, any_of, if◌then◌else◌, Option, none, some,
}
use release_hub.Base.Int.{ℤ, pos, negsuc}
use release_hub.Result.{no_rows, failure, Result, ok, err}
use release_hub.Db.{Database, Release}
use release_hub.Db.Order.{sort_desc}

abbrev pub code_of : Release → ℕ
code_of r = r.version_code

abbrev pub on_platform : ℕ → Release → Bool
on_platform id r = eqb r.app_platform_id id

abbrev pub on_channel : ℕ → String → Release → Bool
on_channel id channel r = eqb r.app_platform_id id && r.channel == channel

-- version_code = ?; the codes in the table are positive, the argument is any int64
abbrev pub has_code : ℤ → Release → Bool
has_code (pos n) r = eqb r.version_code n
has_code (negsuc n) r = false

abbrev pub is_release : ℕ → ℤ → Release → Bool
is_release id code r = eqb r.app_platform_id id && has_code code r

-- `ListReleases`
unfoldable pub list_releases : ℕ → Database → List Release
list_releases id db = sort_desc code_of (keep_if (on_platform id) db.releases)

-- `ListReleasesByChannel`
unfoldable pub list_releases_by_channel : ℕ → String → Database → List Release
list_releases_by_channel id channel db =
    sort_desc code_of (keep_if (on_channel id channel) db.releases)

-- `LatestReleaseForChannel`: LIMIT 1
unfoldable pub latest_release_for_channel : ℕ → String → Database → List Release
unfolding list_releases_by_channel
latest_release_for_channel id channel db = take 1 (list_releases_by_channel id channel db)

-- one row, or `sql.ErrNoRows`
abbrev pub one_row : {A : Type 0} → Option A → Result A
one_row none = err no_rows
one_row (some a) = ok a

-- `ReleaseByAppAndCode`
unfoldable pub release_by_app_and_code : ℕ → ℤ → Database → Result Release
release_by_app_and_code id code db = one_row (find_first (is_release id code) db.releases)

max_of : List Release → ℕ
max_of [] = 0
max_of (r ∷ rs) = let m = max_of rs in if leb m r.version_code then r.version_code else m

-- `MaxVersionCode`, with COALESCE
unfoldable pub max_version_code : ℕ → Database → ℕ
unfolding max_of
max_version_code id db = max_of (keep_if (on_platform id) db.releases)

-- `CreateRelease`, under UNIQUE(app_platform_id, version_code)
unfoldable pub create_release : Release → Database → Result (Unit {0}) × Database
create_release r db =
    if any_of (is_release r.app_platform_id (pos r.version_code)) db.releases
    then (
      err (failure "UNIQUE constraint failed: releases.app_platform_id, releases.version_code"),
      db,
    )
    else (ok tt, record db { releases = db.releases ++ r ∷ [] })

-- `DeleteRelease`
unfoldable pub delete_release_row : ℕ → ℤ → Database → Result (Unit {0}) × Database
delete_release_row id code db =
    (ok tt, record db { releases = keep_if (λ r. not (is_release id code r)) db.releases })

abbrev pub with_play_status : String → String → String → Release → Release
with_play_status status error name r = record r {
  play_status = status;
  play_error = error;
  play_release = name;
}

-- `SetPlayStatus`
unfoldable pub set_play_status :
    String → String → String → ℕ → ℤ → Database → Result (Unit {0}) × Database
set_play_status status error name id code db = (
  ok tt,
  record db {
    releases =
        map (λ r. if is_release id code r then with_play_status status error name r else r)
          db.releases;
  },
)
