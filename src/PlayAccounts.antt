-- ===== src/PlayAccounts.antt =====
-- srv/api_releases.go: the API of the shared Play accounts, of a platform's link to one, and of the
-- testers and tracks behind it.
pub mod Kept
pub mod Linked
use release_hub.Base.{
  ℕ, String, Bool, true, false, not, ◌||◌, Option, none, some, List, [], ◌∷◌, ◌==◌, ◌+++◌, eqb,
  if◌then◌else◌, map, length, take, ◌^◌,
}
use release_hub.Text.{trim_space}
use release_hub.Text.Number.{parse_int}
use release_hub.Result.{GoError, error_text, failure, Result, ok, err}
use release_hub.Db.{AppPlatform, PlayAccount}
use release_hub.Db.Apps.{set_play_account_for_platform}
use release_hub.Db.Config.{
  play_account_by_int64, list_play_accounts, create_play_account, delete_play_account,
  delete_play_account_by_int64, disable_play_on,
}
use release_hub.Channel.{track_is_closed, alpha_track}
use release_hub.Secrets.{encrypt_creds}
use release_hub.Request.{Request, FormFile, path_value, form_value}
use release_hub.Platform.{platform_from_request, non_empty_or}
use release_hub.Testers.{play_testers, tester_emails}
use release_hub.Accounts.{play_account_creds, play_email}
use release_hub.Play.{
  new_play_publisher_from_json, ensure_closed_track, set_testers, list_tracks, preflight,
}
use release_hub.Upload.{given}
use release_hub.World.{
  Outside, Bytes, Json, Fields, Response, json, rows, write_err, M, ◌>>=◌, ◌>>◌, pure, answer,
  expect, require, query, exec, call, attempt, as_it_is, behind,
}

abbrev pub failed_with : String → GoError → Response
failed_with text e = write_err 500 (text +++ error_text e)

-- a file in the form that has bytes
unfoldable pub file_with_bytes : Option String → Option FormFile → Option FormFile
file_with_bytes (some text) file = none
file_with_bytes none none = none
file_with_bytes none (some file) = if eqb (length file.content) 0 then none else some file

-- the account of a platform that has Play enabled
unfoldable pub linked : AppPlatform → Option ℕ
linked plat = if eqb plat.play_enabled 0 then none else plat.play_account_id

listed : Result (List PlayAccount) → List PlayAccount
listed (err e) = []
listed (ok accounts) = accounts

-- `mustListPlayAccounts`
unfoldable pub must_list_play_accounts : M (List PlayAccount)
unfolding listed
must_list_play_accounts = do found ← query (λ db. ok (list_play_accounts db)); pure (listed found)

abbrev play_not_enabled : Response
play_not_enabled = write_err 400 "Play publishing is not enabled for this platform"

-- the hub's channel of a track, and whether tester groups reach it
unfoldable pub channel_of_track : String → String × Bool
channel_of_track track =
    if track == "production"
    then ("public", false)
    else if track == "beta"
    then ("beta", false)
    else if track == "internal" || track == "qa"
    then ("internal", false)
    else if track == alpha_track
    then ("alpha", true)
    else ("closed:" +++ track, true)

track_fields : String × List String → Fields
track_fields (track, releases) =
    ("track", Json.str track)
    ∷ ("isClosed", Json.bool (channel_of_track track).1)
    ∷ ("channel", Json.str (channel_of_track track).0)
    ∷ ("releases", Json.strs releases)
    ∷ []

module _ (x : Outside) where
  -- the first account with that address is deleted
  pub replace_account : String → List PlayAccount → M (Result (Unit {0}))
  replace_account email [] = pure (ok tt)
  replace_account email (acct ∷ accounts) =
      let rest = replace_account email accounts in
      if play_email x acct.credentials == email then exec (delete_play_account acct.id) else rest

  store_account : Bytes → String → Result (Unit {0}) → M (Result (ℕ × String))
  store_account raw email (err e) = pure (err e)
  store_account raw email (ok _) = attempt (encrypt_creds x raw) as_it_is λ enc.
      attempt (exec (create_play_account email enc)) as_it_is λ acct. pure (ok (acct.id, email))

  account_from : Bytes → Option String → M (Result (ℕ × String))
  account_from raw none =
      pure (err (failure "file is not a service-account JSON (missing client_email)"))
  account_from raw (some email) =
      if email == ""
      then pure (err (failure "file is not a service-account JSON (missing client_email)"))
      else must_list_play_accounts >>= λ accounts.
          replace_account email accounts >>= store_account raw email

  account_file : Option FormFile → M (Result (ℕ × String))
  account_file none = pure (err (failure "multipart file field with service-account JSON required"))
  account_file (some file) =
      attempt (call (λ w. (ok (take (2 ^ 20) file.content), w))) (behind "read file: ")
        λ raw. account_from raw (x.client_email raw)

  -- `upsertPlayAccountFromRequest`
  unfoldable pub upsert_play_account_from_request : Request → M (Result (ℕ × String))
  unfolding file_with_bytes replace_account store_account account_from account_file
  upsert_play_account_from_request r = account_file (file_with_bytes r.form_error r.file)

  abbrev disable : AppPlatform → M (Unit {0})
  disable plat = do
    done ← exec (set_play_account_for_platform 0 none plat.id)
    expect (failed_with "") done
    answer (json 200 (("playEnabled", Json.bool false) ∷ []))

  abbrev pub enable : AppPlatform → ℕ → String → M (Unit {0})
  enable plat account email = do
    done ← exec (set_play_account_for_platform 1 (some account) plat.id)
    expect (failed_with "") done
    answer (json 200 (("playEnabled", Json.bool true) ∷ ("serviceAccount", Json.str email) ∷ []))

  -- the credentials in the request, the legacy form
  set_play_file : AppPlatform → Request → M (Unit {0})
  set_play_file plat r = do
    made ← upsert_play_account_from_request r
    acct ← expect (λ e. write_err 400 (error_text e)) made
    enable plat acct.0 acct.1

  set_play_account : AppPlatform → String → M (Unit {0})
  set_play_account plat account = do
    require (not (account == "")) (
        write_err 400
          "account=<id> required (or file=<service-account.json> to add one); enable=false disables)")
    id ← given (write_err 400 "account must be a numeric id") (parse_int account)
    found ← query (play_account_by_int64 id)
    acct ← expect (λ e. write_err 404 ("unknown play account " +++ account)) found
    enable plat acct.id (play_email x acct.credentials)

  set_play_on : AppPlatform → Request → Option FormFile → M (Unit {0})
  set_play_on plat r (some file) = set_play_file plat r
  set_play_on plat r none = set_play_account plat (trim_space (form_value "account" r))

  -- `handleApiSetPlay`
  unfoldable pub handle_api_set_play : Request → M (Unit {0})
  unfolding set_play_file set_play_account set_play_on file_with_bytes
  handle_api_set_play r = do
    plat ← platform_from_request r (path_value "slug" r)
    if form_value "enable" r == "false"
        then disable plat
        else set_play_on plat r (file_with_bytes r.form_error r.file)

  account_row : PlayAccount → Fields
  account_row acct =
      ("id", Json.num acct.id)
      ∷ ("email", Json.str (play_email x acct.credentials))
      ∷ ("label", Json.str acct.label)
      ∷ []

  account_list : M (Unit {0})
  account_list = do accounts ← must_list_play_accounts; answer (rows 200 (map account_row accounts))

  account_added : Request → M (Unit {0})
  account_added r = do
    made ← upsert_play_account_from_request r
    acct ← expect (λ e. write_err 400 (error_text e)) made
    answer (json 200 (("id", Json.num acct.0) ∷ ("serviceAccount", Json.str acct.1) ∷ []))

  -- `handleApiPlayAccounts`
  unfoldable pub handle_api_play_accounts : Request → M (Unit {0})
  unfolding account_row account_list account_added
  handle_api_play_accounts r =
      if r.method == "GET"
      then account_list
      else if r.method == "POST"
      then account_added r
      else answer (write_err 405 "method not allowed")

  -- `handleApiDeletePlayAccount`: the flags first, then the account
  unfoldable pub handle_api_delete_play_account : Request → M (Unit {0})
  handle_api_delete_play_account r = do
    id ← given (write_err 400 "id required") (parse_int (trim_space (form_value "id" r)))
    found ← query (play_account_by_int64 id)
    expect (λ e. write_err 404 "unknown play account") found
    cleared ← exec (disable_play_on id)
    expect (failed_with "") cleared
    deleted ← exec (delete_play_account_by_int64 id)
    expect (failed_with "") deleted
    answer (json 200 (("deleted", Json.bool true) ∷ []))

  -- `handleApiInviteTesters`
  unfoldable pub handle_api_invite_testers : Request → M (Unit {0})
  unfolding linked
  handle_api_invite_testers r = do
    plat ← platform_from_request r (path_value "slug" r)
    account ← given play_not_enabled (linked plat)
    let channel = non_empty_or (form_value "channel" r) "alpha"
    require (track_is_closed channel)
        (write_err 400 "testers can only be set on the alpha (closed testing) track")
    groups ← play_testers x
    require (not (eqb (length groups) 0))
        (write_err 400 "no beta testers configured — add Google Group addresses in Settings")
    opened ← play_account_creds x account
    creds ← expect (failed_with "play account: ") opened
    publisher ← new_play_publisher_from_json x plat.package_name creds
    expect (failed_with "") publisher
    ensured ← ensure_closed_track x channel
    track ← expect (λ e. write_err 502 (error_text e)) ensured
    invited ← set_testers x track groups
    expect (λ e. write_err 502 (error_text e)) invited
    answer (
        json 200
          (("ok", Json.bool true) ∷ ("track", Json.str track) ∷ ("groups", Json.strs groups) ∷ []))

  -- `handleApiGetTesters`; the hint is a fixed text
  unfoldable pub handle_api_get_testers : Request → M (Unit {0})
  handle_api_get_testers r = do
    platform_from_request r (path_value "slug" r)
    groups ← play_testers x
    emails ← tester_emails x
    answer (
        json 200 (
          ("groups", Json.strs groups)
          ∷ ("emails", Json.strs emails)
          ∷ (
            "hint",
            Json.str
                "groups: pushable to the alpha (closed testing) track (POST channel=alpha); emails: paste into Play Console email lists — the API cannot accept individual addresses",
          )
          ∷ []))

  -- `handleApiListTracks`
  unfoldable pub handle_api_list_tracks : Request → M (Unit {0})
  unfolding linked channel_of_track track_fields
  handle_api_list_tracks r = do
    plat ← platform_from_request r (path_value "slug" r)
    account ← given play_not_enabled (linked plat)
    opened ← play_account_creds x account
    creds ← expect (failed_with "play account: ") opened
    publisher ← new_play_publisher_from_json x plat.package_name creds
    expect (failed_with "") publisher
    found ← list_tracks x
    tracks ← expect (λ e. write_err 502 (error_text e)) found
    answer (rows 200 (map track_fields tracks))

  abbrev verdict : Bool → String → Response
  verdict b detail = json 200 (("ok", Json.bool b) ∷ ("detail", Json.str detail) ∷ [])

  -- `handleApiPlayPreflight`
  unfoldable pub handle_api_play_preflight : Request → M (Unit {0})
  unfolding linked
  handle_api_play_preflight r = do
    plat ← platform_from_request r (path_value "slug" r)
    account ←
        given
          (verdict false "Play publishing is not enabled for this app (no linked service account).")
          (linked plat)
    opened ← play_account_creds x account
    creds ← expect (λ e. verdict false (error_text e)) opened
    publisher ← new_play_publisher_from_json x plat.package_name creds
    expect (λ e. verdict false (error_text e)) publisher
    checked ← preflight x
    expect (λ e. verdict false (error_text e)) checked
    answer (
        verdict true
          ("Play wiring OK for " +++ (plat.package_name +++ " — ready to publish .aab releases.")))
