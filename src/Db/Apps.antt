-- ===== src/Db/Apps.antt =====
-- The queries on `apps` and `app_platforms` of db/dbgen.
use release_hub.Base.{
  ℕ, String, code, Bool, true, false, ◌&&◌, List, ltb, keep_if, [], ◌∷◌, ◌++◌, map, eqb, ◌==◌,
  find_first, any_of, if◌then◌else◌, Option, none, ◌+◌,
}
use release_hub.Result.{failure, Result, ok, err}
use release_hub.Db.{Database, App, AppPlatform}
use release_hub.Db.Releases.{one_row}

-- `AppBySlug`
unfoldable pub app_by_slug : String → Database → Result App
app_by_slug slug db = one_row (find_first (λ a. a.slug == slug) db.apps)

-- `ORDER BY` of a text column: by bytes, which is by code points
text_leb : String → String → Bool
text_leb String.[] t = true
text_leb (String.◌∷◌ c s) String.[] = false
text_leb (String.◌∷◌ c s) (String.◌∷◌ d t) =
    let rest = text_leb s t in
    if ltb (code c) (code d) then true else if eqb (code c) (code d) then rest else false

insert_by : {A : Type 0} → (A → String) → A → List A → List A
insert_by key x [] = x ∷ []
insert_by key x (y ∷ ys) =
    let later = y ∷ insert_by key x ys in if text_leb (key x) (key y) then x ∷ y ∷ ys else later

unfoldable pub sort_by : {A : Type 0} → (A → String) → List A → List A
unfolding text_leb insert_by
sort_by key [] = []
sort_by key (x ∷ xs) = insert_by key x (sort_by key xs)

-- `ListApps`
unfoldable pub list_apps : Database → List App
unfolding text_leb insert_by sort_by
list_apps db = sort_by (λ a. a.slug) db.apps

-- `ListPlatformsByApp`
unfoldable pub list_platforms_by_app : ℕ → Database → List AppPlatform
unfolding text_leb insert_by sort_by
list_platforms_by_app app_id db =
    sort_by (λ p. p.platform) (keep_if (λ p. eqb p.app_id app_id) db.platforms)

-- `CreateApp`, under the UNIQUE slug
unfoldable pub create_app : String → Database → Result ℕ × Database
create_app slug db =
    if any_of (λ a. a.slug == slug) db.apps
    then (err (failure "UNIQUE constraint failed: apps.slug"), db)
    else (
      ok (db.app_seq + 1),
      record db {
        apps = db.apps ++ record { id = db.app_seq + 1; slug = slug } ∷ [];
        app_seq = db.app_seq + 1;
      },
    )

abbrev pub new_platform : ℕ → ℕ → String → String → AppPlatform
new_platform id app_id platform pkg = record {
  id = id;
  app_id = app_id;
  platform = platform;
  package_name = pkg;
  play_enabled = 0;
  sign_keystore = "";
  sign_config = "";
  sign_sha256 = "";
  play_account_id = none;
  prune_keep = none;
}

-- `CreateAppPlatform`, under UNIQUE(app_id, platform) and the foreign key of app_id
unfoldable pub create_app_platform : ℕ → String → String → Database → Result ℕ × Database
create_app_platform app_id platform pkg db =
    if any_of (λ p. eqb p.app_id app_id && p.platform == platform) db.platforms
    then (
      err (failure "UNIQUE constraint failed: app_platforms.app_id, app_platforms.platform"),
      db,
    )
    else if any_of (λ a. eqb a.id app_id) db.apps
    then (
      ok (db.platform_seq + 1),
      record db {
        platforms = db.platforms ++ new_platform (db.platform_seq + 1) app_id platform pkg ∷ [];
        platform_seq = db.platform_seq + 1;
      },
    )
    else (err (failure "FOREIGN KEY constraint failed"), db)

-- `PlatformBySlugAndPlatform`: the join of a platform with the app of that slug
unfoldable pub platform_by_slug_and_platform : String → String → Database → Result AppPlatform
platform_by_slug_and_platform slug platform db = one_row (
    find_first
      (λ p. p.platform == platform && any_of (λ a. eqb a.id p.app_id && a.slug == slug) db.apps)
      db.platforms)

abbrev pub update_platform : ℕ → (AppPlatform → AppPlatform) → Database → Database
update_platform id f db = record db {
  platforms = map (λ p. if eqb p.id id then f p else p) db.platforms;
}

-- `SetPlayAccountForPlatform`
unfoldable pub set_play_account_for_platform :
    ℕ → Option ℕ → ℕ → Database → Result (Unit {0}) × Database
set_play_account_for_platform enabled account id db = (
  ok tt,
  update_platform id (λ p. record p { play_enabled = enabled; play_account_id = account }) db,
)

-- `SetPruneKeep`
unfoldable pub set_prune_keep : Option ℕ → ℕ → Database → Result (Unit {0}) × Database
set_prune_keep keep id db = (ok tt, update_platform id (λ p. record p { prune_keep = keep }) db)

-- `SetSigningConfig`
unfoldable pub set_signing_config :
    String → String → String → ℕ → Database → Result (Unit {0}) × Database
set_signing_config keystore config sha256 id db = (
  ok tt,
  update_platform id
      (λ p. record p { sign_keystore = keystore; sign_config = config; sign_sha256 = sha256 }) db,
)

-- `ListPlatformsWithPlay`
unfoldable pub list_platforms_with_play : Database → List AppPlatform
list_platforms_with_play db = keep_if (λ p. eqb p.play_enabled 1) db.platforms
