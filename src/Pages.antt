-- ===== src/Pages.antt =====
-- srv/handlers_ui.go: the forms of the browser pages. Errors and outcomes go into the flash cookie.
pub mod Kept
pub mod Linked
pub mod Overview
pub mod Detail
pub mod FirstRun
pub mod Settings
use release_hub.Base.{
  ℕ, ◌+◌, String, Char, code, Bool, true, false, not, ◌&&◌, ◌||◌, Option, none, some, List, [], ◌∷◌,
  ◌==◌, ◌+++◌, eqb, ltb, if◌then◌else◌, length, ◌≡◌, refl,
}
use release_hub.Base.Int.{ℤ, pos, negsuc}
use release_hub.Text.{trim_space}
use release_hub.Text.Number.{parse_int, decimal}
use release_hub.Result.{GoError, no_rows, failure, error_text, Result, ok, err}
use release_hub.Db.{AppPlatform, Release}
use release_hub.Db.Apps.{set_play_account_for_platform, set_prune_keep}
use release_hub.Db.Releases.{release_by_app_and_code}
use release_hub.Db.Config.{
  get_config, set_config, play_account_by_int64, disable_play_on, delete_play_account_by_int64,
}
use release_hub.Auth.{valid_password, set_session, clear_session}
use release_hub.Channel.{track_is_closed}
use release_hub.Storage.{Storage}
use release_hub.Retention.{delete_release, parse_keep}
use release_hub.Request.{Request, FormFile, path_value, form_value}
use release_hub.Platform.{platform_from_request, non_empty_or}
use release_hub.Testers.{play_testers}
use release_hub.Accounts.{play_account_creds, play_email}
use release_hub.Play.{new_play_publisher_from_json, ensure_closed_track, set_testers}
use release_hub.Upload.{given}
use release_hub.PlayAccounts.{file_with_bytes, linked, upsert_play_account_from_request}
use release_hub.World.{
  Outside, Response, plain, redirect, flash, page, M, ◌>>=◌, ◌>>◌, pure, panic, answer, expect,
  require, query, exec, call,
}

-- `backTo`
unfoldable pub back_to : String → Request → String
back_to slug r =
    if form_value "back" r == "distribution" || form_value "back" r == "configuration"
    then "/apps/" +++ (slug +++ ("?tab=" +++ form_value "back" r))
    else "/apps/" +++ slug

-- the bytes of a text in UTF-8
utf8_size : Char → ℕ
utf8_size c =
    if ltb (code c) 0x80
    then 1
    else if ltb (code c) 0x800
    then 2
    else if ltb (code c) 0x10000
    then 3
    else 4

unfoldable pub byte_length : String → ℕ
unfolding utf8_size
byte_length String.[] = 0
byte_length (String.◌∷◌ c s) = utf8_size c + byte_length s

is_set : Result String → Result Bool
is_set (ok hash) = ok true
is_set (err no_rows) = ok false
is_set (err e) = err e

-- `hasPassword`
unfoldable pub has_password : M (Result Bool)
unfolding is_set
has_password = do found ← query (get_config "admin_password_hash"); pure (is_set found)

module _ (x : Outside) where
  signed_in : Request → M (Unit {0})
  signed_in r = do
    right ← valid_password x (form_value "password" r)
    require right (page 401 "Wrong password")
    started ← set_session x
    expect (λ e. plain 500 "session error") started
    answer (redirect "/apps")

  -- `handleLogin`
  unfoldable pub handle_login : Request → M (Unit {0})
  unfolding signed_in
  handle_login r = if r.method == "GET" then answer (page 200 "") else signed_in r

  -- `handleLogout`
  unfoldable pub handle_logout : Request → M (Unit {0})
  handle_logout r = do clear_session x r; answer (redirect "/login")

  saved_hash : Result String → M (Result (Unit {0}))
  saved_hash (err e) = pure (err e)
  saved_hash (ok hash) = exec (set_config "admin_password_hash" hash)

  abbrev save_failed : GoError → Response
  save_failed e = page 500 ("Failed to save: " +++ error_text e)

  -- that the session is not stored is ignored
  store_password : Request → M (Unit {0})
  store_password r = do
    hashed ← call (λ w. (x.bcrypt_hash w.tick (form_value "password" r), w))
    saved ← saved_hash hashed
    expect save_failed saved
    set_session x
    answer (redirect "/apps")

  choose_password : Request → M (Unit {0})
  choose_password r = do
    require (not (ltb (byte_length (form_value "password" r)) 8))
        (page 400 "Password must be at least 8 characters")
    require (form_value "password" r == form_value "password2" r) (page 400 "Passwords don't match")
    store_password r

  -- `handleFirstRun`
  unfoldable pub handle_first_run : Request → M (Unit {0})
  unfolding choose_password store_password saved_hash byte_length utf8_size
  handle_first_run r = do
    found ← has_password
    set ← expect (λ e. plain 500 "db error") found
    require (not set) (redirect "/login")
    if r.method == "GET" then answer (page 200 "") else choose_password r

  picked_account : String → String → M (ℕ × String)
  picked_account back account = do
    id ← given (flash "Play setup failed: bad account id." back) (parse_int account)
    found ← query (play_account_by_int64 id)
    acct ← expect (λ e. flash "Play setup failed: unknown service account." back) found
    pure (acct.id, play_email x acct.credentials)

  uploaded_account : String → Request → M (ℕ × String)
  uploaded_account back r = do
    made ← upsert_play_account_from_request x r
    expect (λ e. flash ("Play setup failed: " +++ error_text e) back) made

  chosen_account : String → Request → Option FormFile → M (ℕ × String)
  chosen_account back r (some file) = uploaded_account back r
  chosen_account back r none =
      if trim_space (form_value "account" r) == ""
      then answer (flash "Play setup failed: pick a service account or upload a JSON key." back)
      else picked_account back (trim_space (form_value "account" r))

  play_off : AppPlatform → String → M (Unit {0})
  play_off plat back = do
    done ← exec (set_play_account_for_platform 0 none plat.id)
    expect (λ e. plain 500 ("disable failed: " +++ error_text e)) done
    answer (flash "Google Play publishing disabled." back)

  play_on : AppPlatform → String → Request → M (Unit {0})
  play_on plat back r = do
    acct ← chosen_account back r (file_with_bytes r.form_error r.file)
    done ← exec (set_play_account_for_platform 1 (some acct.0) plat.id)
    expect (λ e. plain 500 ("enable failed: " +++ error_text e)) done
    answer (flash ("Google Play publishing enabled via " +++ (acct.1 +++ ".")) back)

  -- `handlePlayConfigUI`
  unfoldable pub handle_play_config_ui : Request → M (Unit {0})
  unfolding picked_account uploaded_account chosen_account play_off play_on file_with_bytes
  handle_play_config_ui r = do
    plat ← platform_from_request r (path_value "slug" r)
    let back = back_to (path_value "slug" r) r
    if form_value "enable" r == "false" then play_off plat back else play_on plat back r

  -- `handleInviteTestersUI`
  unfoldable pub handle_invite_testers_ui : Request → M (Unit {0})
  unfolding linked
  handle_invite_testers_ui r = do
    let back = back_to (path_value "slug" r) r
    plat ← platform_from_request r (path_value "slug" r)
    groups ← play_testers x
    require (not (eqb (length groups) 0))
        (flash "No beta testers configured — add Google Group addresses in Settings." back)
    account ←
        given (flash "Enable Play publishing first — the invite uses its service account." back)
          (linked plat)
    let channel = non_empty_or (form_value "channel" r) "alpha"
    require (track_is_closed channel)
        (flash "Testers can only be invited to the alpha (closed testing) track." back)
    opened ← play_account_creds x account
    creds ← expect (λ e. flash ("Play account failed: " +++ error_text e) back) opened
    publisher ← new_play_publisher_from_json x plat.package_name creds
    expect (λ e. flash ("Play setup failed: " +++ error_text e) back) publisher
    ensured ← ensure_closed_track x channel
    track ← expect (λ e. flash ("Closed track failed: " +++ error_text e) back) ensured
    invited ← set_testers x track groups
    expect (λ e. flash ("Inviting testers failed: " +++ error_text e) back) invited
    answer (
        flash
          ("Invited "
            +++ (decimal (length groups)
                +++ " tester group(s) to the alpha (closed testing) track."))
          back)

  account_deleted : Result (Unit {0}) → M (Unit {0})
  account_deleted (err e) =
      answer (flash ("Play account: delete failed — " +++ error_text e) "/settings")
  account_deleted (ok _) = answer (flash "Play service account removed." "/settings")

  flags_cleared : ℤ → Result (Unit {0}) → M (Unit {0})
  flags_cleared id (err e) =
      answer (flash ("Play account: clearing linked apps failed — " +++ error_text e) "/settings")
  flags_cleared id (ok _) = do
    deleted ← exec (delete_play_account_by_int64 id)
    account_deleted deleted

  remove_account : Request → M (Unit {0})
  remove_account r = do
    id ←
        given (flash "Play account: bad id." "/settings")
          (parse_int (trim_space (form_value "id" r)))
    cleared ← exec (disable_play_on id)
    flags_cleared id cleared

  save_account : Request → M (Unit {0})
  save_account r = do
    made ← upsert_play_account_from_request x r
    acct ← expect (λ e. flash ("Play account failed: " +++ error_text e) "/settings") made
    answer (
        flash
          ("Service account " +++ (acct.1 +++ " saved — enable it per app from the app's page."))
          "/settings")

  -- `handlePlayAccountsUI`
  unfoldable pub handle_play_accounts_ui : Request → M (Unit {0})
  unfolding account_deleted flags_cleared remove_account save_account
  handle_play_accounts_ui r =
      if form_value "action" r == "delete" then remove_account r else save_account r

-- `inheritLabel`
unfoldable pub inherit_label : Option ℕ → String
inherit_label none = "the global setting (inherit)"
inherit_label (some keep) =
    if eqb keep 0
    then "everything (never prune)"
    else "newest " +++ (decimal keep +++ " direct releases")

form_parsed : Option String → String → M (Unit {0})
form_parsed none back = pure tt
form_parsed (some text) back = answer (flash "Bad form." back)

-- `handleRetentionUI`
unfoldable pub handle_retention_ui : Request → M (Unit {0})
unfolding form_parsed
handle_retention_ui r = do
  let back = back_to (path_value "slug" r) r
  plat ← platform_from_request r (path_value "slug" r)
  form_parsed r.form_error back
  keep ←
      given (flash "Retention: keep must be a number ≥ 0 (0 = keep everything)" back)
        (parse_keep (form_value "keep" r))
  done ← exec (set_prune_keep keep plat.id)
  expect (λ e. flash ("Retention: save failed — " +++ error_text e) back) done
  answer (flash ("Retention set: keep " +++ (inherit_label keep +++ ".")) back)

module _ (st : Storage) where
  -- the error's text is read where there is none
  told : Release → ℕ → String → Result Bool → M (Unit {0})
  told rel n back (err e) = answer (flash ("Delete failed: " +++ error_text e) back)
  told rel n back (ok false) = panic
  told rel n back (ok true) =
      answer
        (flash ("Deleted release " +++ (rel.version_name +++ (" (" +++ (decimal n +++ ").")))) back)

  delete_direct : AppPlatform → ℤ → String → String → Release → M (Unit {0})
  delete_direct plat code slug back rel = do
    require (rel.channel == "direct") (
        flash "Only direct-channel releases can be deleted (internal/public are managed by Play)."
          back)
    deleted ← delete_release st plat slug code
    told rel rel.version_code back deleted

  -- `handleDeleteReleaseUI`; the code that it prints is that of the release
  unfoldable pub handle_delete_release_ui : Request → M (Unit {0})
  unfolding told delete_direct
  handle_delete_release_ui r = do
    let slug = path_value "slug" r
    let back = back_to slug r
    plat ← platform_from_request r slug
    code ← given (flash "Bad version code." back) (parse_int (path_value "versionCode" r))
    found ← query (release_by_app_and_code plat.id code)
    rel ← expect (λ e. flash "No such release." back) found
    delete_direct plat code slug back rel
