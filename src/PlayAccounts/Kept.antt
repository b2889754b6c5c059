-- ===== src/PlayAccounts/Kept.antt =====
-- What the handlers of Play accounts keep: every invariant of the database.
use release_hub.Base.{ℕ, String, Option, none, some, List, [], ◌∷◌}
use release_hub.Result.{Result, ok, err}
use release_hub.Db.{Database, AppPlatform, PlayAccount}
use release_hub.Invariant.{IsInvariant, Safe, Safe-exec, Safe-if, of_database, safe_rules}
use release_hub.Request.{Request, FormFile}
use release_hub.Testers.{play_testers, tester_emails}
use release_hub.Accounts.{play_account_creds}
use release_hub.Play.{
  new_play_publisher_from_json, ensure_closed_track, set_testers, list_tracks, preflight,
}
use release_hub.Play.Kept.{
  Keeps-new_play_publisher_from_json, Keeps-ensure_closed_track, Keeps-list_tracks,
  Keeps-set_testers, Keeps-preflight,
}
use release_hub.Storage.Kept.{IsOfDb-IsApart}
use release_hub.Signing.Kept.{Safe-encrypt_creds}
use release_hub.World.{Outside, Bytes}
use release_hub.PlayAccounts.{
  must_list_play_accounts, replace_account, store_account, account_from, account_file,
  upsert_play_account_from_request, set_play_file, set_play_account, set_play_on,
  handle_api_set_play, account_list, account_added, handle_api_play_accounts,
  handle_api_delete_play_account, handle_api_invite_testers, handle_api_get_testers,
  handle_api_list_tracks, handle_api_play_preflight,
}

module _ (x : Outside) {I : Database → Type 0} where
  pub Safe-new_play_publisher_from_json :
      (pkg : String) (creds : Bytes) → Safe I (new_play_publisher_from_json x pkg creds)
  Safe-new_play_publisher_from_json pkg creds = record {
    kept = Keeps-new_play_publisher_from_json x (IsOfDb-IsApart (of_database I)) pkg creds;
  }

  pub Safe-ensure_closed_track : (channel : String) → Safe I (ensure_closed_track x channel)
  Safe-ensure_closed_track channel = record {
    kept = Keeps-ensure_closed_track x (IsOfDb-IsApart (of_database I)) channel;
  }

  pub Safe-list_tracks : Safe I (list_tracks x)
  Safe-list_tracks = record { kept = Keeps-list_tracks x (IsOfDb-IsApart (of_database I)) }

  pub Safe-set_testers :
      (track : String) (groups : List String) → Safe I (set_testers x track groups)
  Safe-set_testers track groups = record {
    kept = Keeps-set_testers x (IsOfDb-IsApart (of_database I)) track groups;
  }

  pub Safe-preflight : Safe I (preflight x)
  Safe-preflight = record { kept = Keeps-preflight x (IsOfDb-IsApart (of_database I)) }

  pub Safe-play_testers : Safe I (play_testers x)
  unfolding play_testers
  Safe-play_testers = search safe_rules

  pub Safe-tester_emails : Safe I (tester_emails x)
  unfolding tester_emails
  Safe-tester_emails = search safe_rules

  pub Safe-play_account_creds : (id : ℕ) → Safe I (play_account_creds x id)
  unfolding play_account_creds
  Safe-play_account_creds id = search safe_rules depth 40 fits 6000

  pub ruleset play_rules = (
    Safe-new_play_publisher_from_json, Safe-ensure_closed_track, Safe-list_tracks, Safe-set_testers,
    Safe-preflight, Safe-play_testers, Safe-tester_emails, Safe-play_account_creds,
  )

module _ (x : Outside) {I : Database → Type 0} where
  pub Safe-must_list_play_accounts : Safe I must_list_play_accounts
  unfolding must_list_play_accounts
  Safe-must_list_play_accounts = search safe_rules

  pub Safe-handle_api_invite_testers : (r : Request) → Safe I (handle_api_invite_testers x r)
  unfolding handle_api_invite_testers
  Safe-handle_api_invite_testers r = search (safe_rules, play_rules) depth 40 fits 6000

  pub Safe-handle_api_get_testers : (r : Request) → Safe I (handle_api_get_testers x r)
  unfolding handle_api_get_testers
  Safe-handle_api_get_testers r = search (safe_rules, play_rules) depth 40 fits 6000

  pub Safe-handle_api_list_tracks : (r : Request) → Safe I (handle_api_list_tracks x r)
  unfolding handle_api_list_tracks
  Safe-handle_api_list_tracks r = search (safe_rules, play_rules) depth 40 fits 6000

  pub Safe-handle_api_play_preflight : (r : Request) → Safe I (handle_api_play_preflight x r)
  unfolding handle_api_play_preflight
  Safe-handle_api_play_preflight r = search (safe_rules, play_rules) depth 40 fits 6000

module _ (x : Outside) {I : Database → Type 0} (inv : IsInvariant I) where
  Safe-replace_account :
      (email : String) (accounts : List PlayAccount) → Safe I (replace_account x email accounts)
  unfolding replace_account
  Safe-replace_account email [] = search safe_rules
  Safe-replace_account email (acct ∷ accounts) =
      Safe-if _ _ _ (Safe-exec _ (inv.account_deleted _)) (Safe-replace_account email accounts)

  Safe-store_account :
      (raw : Bytes) (email : String) (r : Result (Unit {0})) → Safe I (store_account x raw email r)
  unfolding store_account
  Safe-store_account raw email (err e) = search safe_rules
  Safe-store_account raw email (ok _) =
      search (safe_rules, Safe-encrypt_creds, Safe-exec, inv.account_created) depth 40 fits 6000

  Safe-account_from : (raw : Bytes) (o : Option String) → Safe I (account_from x raw o)
  unfolding account_from
  Safe-account_from raw none = search safe_rules
  Safe-account_from raw (some email) =
      search (safe_rules, Safe-must_list_play_accounts x, Safe-replace_account, Safe-store_account)
        depth 40 fits 6000

  Safe-account_file : (file : Option FormFile) → Safe I (account_file x file)
  unfolding account_file
  Safe-account_file none = search safe_rules
  Safe-account_file (some file) = search (safe_rules, Safe-account_from) depth 40 fits 6000

  pub Safe-upsert_play_account_from_request :
      (r : Request) → Safe I (upsert_play_account_from_request x r)
  unfolding upsert_play_account_from_request
  Safe-upsert_play_account_from_request r = Safe-account_file _

  Safe-set_play_on :
      (plat : AppPlatform) (r : Request) (file : Option FormFile)
      → Safe I (set_play_on x plat r file)
  unfolding set_play_on set_play_file set_play_account
  Safe-set_play_on plat r none =
      search (safe_rules, Safe-exec, inv.account_linked) depth 40 fits 6000
  Safe-set_play_on plat r (some file) =
      search (safe_rules, Safe-upsert_play_account_from_request, Safe-exec, inv.account_linked)
        depth 40 fits 6000

  pub Safe-handle_api_set_play : (r : Request) → Safe I (handle_api_set_play x r)
  unfolding handle_api_set_play
  Safe-handle_api_set_play r =
      search (safe_rules, Safe-exec, inv.account_linked, Safe-set_play_on) depth 40 fits 6000

  pub Safe-handle_api_play_accounts : (r : Request) → Safe I (handle_api_play_accounts x r)
  unfolding handle_api_play_accounts account_list account_added
  Safe-handle_api_play_accounts r =
      search (safe_rules, Safe-must_list_play_accounts x, Safe-upsert_play_account_from_request)
        depth 40 fits 6000

  pub Safe-handle_api_delete_play_account :
      (r : Request) → Safe I (handle_api_delete_play_account x r)
  unfolding handle_api_delete_play_account
  Safe-handle_api_delete_play_account r =
      search (safe_rules, Safe-exec, inv.play_disabled, inv.account_removed) depth 40 fits 6000
