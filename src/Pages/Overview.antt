-- ===== src/Pages/Overview.antt =====
-- srv/handlers_ui.go: the list of apps.
pub mod Kept
use release_hub.Base.{ℕ, String, false, true, List, [], ◌∷◌, ◌++◌, ◌+++◌}
use release_hub.Text.Number.{decimal}
use release_hub.Result.{Result, ok, err}
use release_hub.Db.{App, AppPlatform, Release}
use release_hub.Db.Apps.{list_apps, list_platforms_by_app}
use release_hub.Db.Releases.{latest_release_for_channel}
use release_hub.Request.{Request}
use release_hub.Page.{AppRow}
use release_hub.World.{Response, plain, apps_page, M, ◌>>=◌, pure, answer, expect, query}

-- "versionName (versionCode)" of the latest direct release
latest_text : Result (List Release) → String
latest_text (err e) = "—"
latest_text (ok []) = "—"
latest_text (ok (rel ∷ rels)) = rel.version_name +++ (" (" +++ (decimal rel.version_code +++ ")"))

platform_rows : App → List AppPlatform → M (List AppRow)
platform_rows a [] = pure []
platform_rows a (p ∷ plats) = do
  found ← query (λ db. ok (latest_release_for_channel p.id "direct" db))
  more ← platform_rows a plats
  let row : AppRow = record {
    slug = a.slug;
    package_name = p.package_name;
    platform = p.platform;
    latest = latest_text found;
    has_platforms = true;
  }
  pure (row ∷ more)

-- an app without a platform is listed too
rows_of : App → List AppPlatform → M (List AppRow)
rows_of a [] = pure (
    record { slug = a.slug; package_name = ""; platform = ""; latest = ""; has_platforms = false }
    ∷ [])
rows_of a (p ∷ plats) = platform_rows a (p ∷ plats)

app_rows_of : List App → M (List AppRow)
app_rows_of [] = pure []
app_rows_of (a ∷ apps) = do
  found ← query (λ db. ok (list_platforms_by_app a.id db))
  plats ← expect (λ e. plain 500 "db error") found
  rows ← rows_of a plats
  more ← app_rows_of apps
  pure (rows ++ more)

-- `handleAppsPage`
unfoldable pub handle_apps_page : Request → M (Unit {0})
unfolding latest_text platform_rows rows_of app_rows_of
handle_apps_page r = do
  found ← query (λ db. ok (list_apps db))
  apps ← expect (λ e. plain 500 "db error") found
  rows ← app_rows_of apps
  answer (apps_page rows)
