-- ===== src/Pages/Overview/Kept.antt =====
-- What the list of apps keeps: every invariant of the database.
use release_hub.Base.{List, [], ◌∷◌}
use release_hub.Db.{Database, App, AppPlatform}
use release_hub.Invariant.{Safe, Safe-bind, Safe-query, Safe-expect, Safe-pure, Safe-answer}
use release_hub.Request.{Request}
use release_hub.Pages.Overview.{platform_rows, rows_of, app_rows_of, handle_apps_page}

module _ {I : Database → Type 0} where
  Safe-platform_rows : (a : App) (plats : List AppPlatform) → Safe I (platform_rows a plats)
  unfolding platform_rows
  Safe-platform_rows a [] = Safe-pure _
  Safe-platform_rows a (p ∷ plats) =
      Safe-bind _ _ (Safe-query _)
        λ found. Safe-bind _ _ (Safe-platform_rows a plats) λ more. Safe-pure _

  Safe-rows_of : (a : App) (plats : List AppPlatform) → Safe I (rows_of a plats)
  unfolding rows_of
  Safe-rows_of a [] = Safe-pure _
  Safe-rows_of a (p ∷ plats) = Safe-platform_rows a (p ∷ plats)

  Safe-app_rows_of : (apps : List App) → Safe I (app_rows_of apps)
  unfolding app_rows_of
  Safe-app_rows_of [] = Safe-pure _
  Safe-app_rows_of (a ∷ apps) = Safe-bind _ _ (Safe-query _) λ found.
      Safe-bind _ _ (Safe-expect _ found) λ plats.
        Safe-bind _ _ (Safe-rows_of a plats)
          λ rows. Safe-bind _ _ (Safe-app_rows_of apps) λ more. Safe-pure _

  pub Safe-handle_apps_page : (r : Request) → Safe I (handle_apps_page r)
  unfolding handle_apps_page
  Safe-handle_apps_page r = Safe-bind _ _ (Safe-query _) λ found.
      Safe-bind _ _ (Safe-expect _ found)
        λ apps. Safe-bind _ _ (Safe-app_rows_of apps) λ rows. Safe-answer _
