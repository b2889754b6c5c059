-- ===== src/Platform.antt =====
-- srv/api_apps.go: which platform of which app a request is about.
use release_hub.Base.{String, ◌==◌, ◌+++◌, ◌||◌, if◌then◌else◌}
use release_hub.Result.{GoError}
use release_hub.Db.{AppPlatform, App}
use release_hub.Db.Apps.{platform_by_slug_and_platform, app_by_slug}
use release_hub.Request.{Request, path_value, query_value}
use release_hub.World.{Response, M, ◌>>=◌, ◌>>◌, require, expect, query, write_err}

abbrev pub non_empty_or : String → String → String
non_empty_or s default = if s == "" then default else s

-- the platform's name: from the path, else the query, else android
unfoldable pub platform_name : Request → String
platform_name r =
    non_empty_or (non_empty_or (path_value "platform" r) (query_value "platform" r)) "android"

abbrev pub unknown_platform : String → String → GoError → Response
unknown_platform slug platform e =
    write_err 404 ("unknown app/platform: " +++ (slug +++ ("/" +++ platform)))

-- `platformFromRequest`
unfoldable pub platform_from_request : Request → String → M AppPlatform
platform_from_request r slug = do
  let platform = platform_name r
  require (platform == "android" || platform == "ios")
      (write_err 400 "platform must be android or ios")
  found ← query (platform_by_slug_and_platform slug platform)
  expect (unknown_platform slug platform) found

-- `appFromSlug`
unfoldable pub app_from_slug : String → M App
app_from_slug slug = do
  found ← query (app_by_slug slug)
  expect (λ e. write_err 404 ("unknown app: " +++ slug)) found
