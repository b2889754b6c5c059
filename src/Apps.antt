-- ===== src/Apps.antt =====
-- srv/api_apps.go and its twins in srv/handlers_ui.go: apps, their platforms, and API tokens.
pub mod Kept
pub mod Tokens
use release_hub.Base.{
  ℕ, zero, String, Char, code, Bool, true, false, not, ◌&&◌, ◌||◌, List, [], ◌∷◌, ◌==◌, ◌+++◌, leb,
  eqb, if◌then◌else◌, map, suc, ◌≡◌, refl,
}
use release_hub.Text.{trim_space, contains}
use release_hub.Result.{GoError, error_text, Result, ok, err}
use release_hub.Db.{App, AppPlatform}
use release_hub.Db.Apps.{create_app, create_app_platform, list_apps, list_platforms_by_app}
use release_hub.Db.Config.{create_api_token}
use release_hub.Auth.{random_token}
use release_hub.Request.{Request, path_value, form_value}
use release_hub.Platform.{app_from_slug}
use release_hub.Pkcs12.Alias.{Asn1}
use release_hub.Signing.{CertCalls, generate_and_store_signing}
use release_hub.World.{
  Outside, Json, Fields, Response, json, app_rows, plain, redirect, flash, write_err, M, ◌>>=◌,
  ◌>>◌, pure, answer, expect, require, query, exec, call, attempt, behind,
}

is_lower_or_digit : Char → Bool
is_lower_or_digit c =
    (leb b'a' (code c) && leb (code c) b'z') || (leb b'0' (code c) && leb (code c) b'9')

-- `[a-z0-9-]{0,n}` up to the end
slug_rest : ℕ → String → Bool
slug_rest n String.[] = true
slug_rest zero (String.◌∷◌ c s) = false
slug_rest (suc n) (String.◌∷◌ c s) = (is_lower_or_digit c || eqb (code c) b'-') && slug_rest n s

-- `slugRe`
unfoldable pub is_slug : String → Bool
unfolding is_lower_or_digit slug_rest
is_slug String.[] = false
is_slug (String.◌∷◌ c s) = is_lower_or_digit c && slug_rest 63 s

slugs : (is_slug "tiny-firewall2" ≡ true) × (is_slug "-a" ≡ false) × (is_slug "a.b" ≡ false)
unfolding is_slug
slugs = (refl, refl, refl)

abbrev pub exists_or_invalid : String → GoError → Response
exists_or_invalid text e = write_err 409 (text +++ error_text e)

-- `addPlatform`
unfoldable pub add_platform : ℕ → String → String → M (Result ℕ)
add_platform app_id platform pkg =
    attempt (exec (create_app_platform app_id platform pkg))
      (behind "platform already exists or invalid: ") λ id. pure (ok id)

-- `handleApiListApps`
platform_fields : AppPlatform → Fields
platform_fields p =
    ("platform", Json.str p.platform) ∷ ("packageName", Json.str p.package_name) ∷ []

app_entries : List App → M (List (String × List Fields))
app_entries [] = pure []
app_entries (a ∷ apps) = do
  found ← query (λ db. ok (list_platforms_by_app a.id db))
  plats ← expect (λ e. write_err 500 (error_text e)) found
  more ← app_entries apps
  pure ((a.slug, map platform_fields plats) ∷ more)

unfoldable pub handle_api_list_apps : Request → M (Unit {0})
unfolding platform_fields app_entries
handle_api_list_apps r = do
  found ← query (λ db. ok (list_apps db))
  apps ← expect (λ e. write_err 500 (error_text e)) found
  out ← app_entries apps
  answer (app_rows 200 out)

module _ (x : Outside) where
  slug_from : Request → String
  slug_from r = x.lower (trim_space (form_value "slug" r))

  -- `handleApiCreateApp`
  unfoldable pub handle_api_create_app : Request → M (Unit {0})
  unfolding slug_from
  handle_api_create_app r = do
    require (is_slug (slug_from r))
        (write_err 400 "invalid slug: lowercase letters, digits and dashes")
    created ← exec (create_app (slug_from r))
    expect (exists_or_invalid "app already exists or invalid: ") created
    answer (json 201 (("slug", Json.str (slug_from r)) ∷ []))

  taken_slug : String → GoError → Response
  taken_slug slug e =
      if contains (error_text e) "UNIQUE constraint failed"
      then plain 409 ("an app with this slug already exists — open its page: /apps/" +++ slug)
      else plain 409 ("create failed: " +++ error_text e)

  -- `handleCreateAppUI`
  unfoldable pub handle_create_app_ui : Request → M (Unit {0})
  unfolding slug_from taken_slug
  handle_create_app_ui r = do
    require (is_slug (slug_from r)) (plain 400 "invalid slug")
    created ← exec (create_app (slug_from r))
    expect (taken_slug (slug_from r)) created
    answer (flash "App registered. Add its android/ios platform next." ("/apps/" +++ slug_from r))

  issue_token : String → String → M (Unit {0})
  issue_token name token = do
    created ← exec (create_api_token name (x.hash_text token))
    expect (λ e. write_err 500 (error_text e)) created
    answer (json 201 (("name", Json.str name) ∷ ("token", Json.str token) ∷ []))

  -- `handleApiCreateToken`
  unfoldable pub handle_api_create_token : Request → M (Unit {0})
  unfolding issue_token
  handle_api_create_token r = do
    let name = trim_space (form_value "name" r)
    require (not (name == "")) (write_err 400 "name required")
    made ← random_token x "rh"
    token ← expect (λ e. write_err 500 (error_text e)) made
    issue_token name token

  -- `handleCreateTokenUI`
  unfoldable pub handle_create_token_ui : Request → M (Unit {0})
  handle_create_token_ui r = do
    let name = trim_space (form_value "name" r)
    require (not (name == "")) (plain 400 "name required")
    made ← call (λ w. (ok (x.random w.tick 32), w))
    raw ← expect (λ e. plain 500 "token error") made
    let token = "rh_" +++ x.hex_encode raw
    created ← exec (create_api_token name (x.hash_text token))
    expect (λ e. plain 500 ("create failed: " +++ error_text e)) created
    answer (flash token "/settings")

module _ {Key Cert : Type 0} (certs : CertCalls Key Cert) (asn : Asn1) (x : Outside) where
  signing_fields : Result String → Fields
  signing_fields (err e) = []
  signing_fields (ok sum) =
      ("signingKey", Json.str "generated") ∷ ("signingSha256", Json.str sum) ∷ []

  generated : ℕ → String → M Fields
  generated id slug = do
    made ← generate_and_store_signing certs asn x id slug
    pure (signing_fields made)

  -- the signing key of a new android platform; failing to make it is only logged
  new_signing : ℕ → String → String → M Fields
  new_signing id slug platform = if platform == "android" then generated id slug else pure []

  -- `handleApiAddPlatform`
  unfoldable pub handle_api_add_platform : Request → M (Unit {0})
  unfolding generated new_signing signing_fields
  handle_api_add_platform r = do
    let slug = path_value "slug" r
    app ← app_from_slug slug
    let platform = trim_space (form_value "platform" r)
    let pkg = trim_space (form_value "packageName" r)
    require (platform == "android" || platform == "ios")
        (write_err 400 "platform must be android or ios")
    require (not (pkg == "")) (write_err 400 "packageName required")
    added ← add_platform app.id platform pkg
    id ← expect (exists_or_invalid "") added
    more ← new_signing id slug platform
    answer (json 201 (("slug", Json.str slug) ∷ ("platform", Json.str platform) ∷ more))

  -- `handleAddPlatformUI`
  unfoldable pub handle_add_platform_ui : Request → M (Unit {0})
  unfolding generated new_signing signing_fields
  handle_add_platform_ui r = do
    let slug = path_value "slug" r
    app ← app_from_slug slug
    let platform = form_value "platform" r
    require (platform == "android" || platform == "ios") (plain 400 "invalid platform")
    let pkg = trim_space (form_value "packageName" r)
    require (not (pkg == "")) (plain 400 "packageName required")
    added ← add_platform app.id platform pkg
    id ← expect (λ e. plain 409 ("add platform failed: " +++ error_text e)) added
    new_signing id slug platform
    answer (redirect ("/apps/" +++ slug))
