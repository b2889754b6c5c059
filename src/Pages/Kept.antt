-- ===== src/Pages/Kept.antt =====
-- What the forms of the pages keep: every invariant of the database.
use release_hub.Base.{not, ◌==◌, ℕ, String, Bool, Option, none, some, true, false}
use release_hub.Base.Int.{ℤ}
use release_hub.Result.{Result, ok, err}
use release_hub.Db.{Database, AppPlatform, Release}
use release_hub.Invariant.{
  IsInvariant, Safe, Safe-exec, Safe-bind, Safe-if, Safe-pure_call, Safe-require, Safe-expect,
  Safe-answer, of_uploads, safe_rules,
}
use release_hub.Storage.{Storage}
use release_hub.Request.{form_value, Request, FormFile}
use release_hub.Retention.{delete_release}
use release_hub.Retention.Kept.{Keeps-delete_release}
use release_hub.Auth.Kept.{Safe-valid_password, Safe-set_session, Safe-clear_session}
use release_hub.PlayAccounts.Kept.{play_rules, Safe-upsert_play_account_from_request}
use release_hub.World.{page, redirect, Outside}
use release_hub.Pages.{
  save_failed, store_password, has_password, signed_in, handle_login, handle_logout, saved_hash,
  choose_password, handle_first_run, picked_account, uploaded_account, chosen_account, play_off,
  play_on, handle_play_config_ui, handle_invite_testers_ui, account_deleted, flags_cleared,
  remove_account, save_account, handle_play_accounts_ui, form_parsed, handle_retention_ui, told,
  delete_direct, handle_delete_release_ui,
}

module _ (x : Outside) {I : Database → Type 0} where
  pub Safe-handle_invite_testers_ui : (r : Request) → Safe I (handle_invite_testers_ui x r)
  unfolding handle_invite_testers_ui
  Safe-handle_invite_testers_ui r = search (safe_rules, play_rules) depth 40 fits 6000

  Safe-has_password : Safe I has_password
  unfolding has_password
  Safe-has_password = search safe_rules

  Safe-picked_account : (back account : String) → Safe I (picked_account x back account)
  unfolding picked_account
  Safe-picked_account back account = search safe_rules depth 40 fits 6000

  Safe-form_parsed : (o : Option String) (back : String) → Safe I (form_parsed o back)
  unfolding form_parsed
  Safe-form_parsed none back = search safe_rules
  Safe-form_parsed (some text) back = search safe_rules

module _ (x : Outside) {I : Database → Type 0} (inv : IsInvariant I) where
  Safe-signed_in : (r : Request) → Safe I (signed_in x r)
  unfolding signed_in
  Safe-signed_in r = Safe-bind _ _ (Safe-valid_password x _) λ right.
      Safe-bind _ _ (Safe-require _ _) λ _.
        Safe-bind _ _ (Safe-set_session x inv)
          λ started. Safe-bind _ _ (Safe-expect _ started) λ _. Safe-answer _

  pub Safe-handle_login : (r : Request) → Safe I (handle_login x r)
  unfolding handle_login
  Safe-handle_login r = Safe-if _ _ _ (Safe-answer _) (Safe-signed_in r)

  pub Safe-handle_logout : (r : Request) → Safe I (handle_logout x r)
  unfolding handle_logout
  Safe-handle_logout r = search (safe_rules, Safe-clear_session x inv) depth 40 fits 6000

  Safe-saved_hash : (r : Result String) → Safe I (saved_hash x r)
  unfolding saved_hash
  Safe-saved_hash (err e) = search safe_rules
  Safe-saved_hash (ok hash) = search (safe_rules, Safe-exec, inv.config_set) depth 40 fits 6000

  Safe-store_password : (r : Request) → Safe I (store_password x r)
  unfolding store_password
  Safe-store_password r =
      Safe-bind _ _ (Safe-pure_call (λ w. x.bcrypt_hash w.tick (form_value "password" r))) λ hashed.
        Safe-bind _ _ (Safe-saved_hash hashed) λ saved.
          Safe-bind _ _ (Safe-expect (save_failed x) saved)
            λ _. Safe-bind _ _ (Safe-set_session x inv) λ _. Safe-answer (redirect "/apps")

  Safe-choose_password : (r : Request) → Safe I (choose_password x r)
  unfolding choose_password
  Safe-choose_password r = search (safe_rules, Safe-store_password) depth 24

  pub Safe-handle_first_run : (r : Request) → Safe I (handle_first_run x r)
  unfolding handle_first_run
  Safe-handle_first_run r = Safe-bind _ _ (Safe-has_password x) λ found.
      Safe-bind _ _ (Safe-expect _ found) λ set.
        Safe-bind _ _ (Safe-require (not set) (redirect "/login"))
          λ _. Safe-if (r.method == "GET") _ _ (Safe-answer (page 200 "")) (Safe-choose_password r)

  Safe-chosen_account :
      (back : String) (r : Request) (file : Option FormFile) → Safe I (chosen_account x back r file)
  unfolding chosen_account uploaded_account
  Safe-chosen_account back r none = search (safe_rules, Safe-picked_account) depth 40 fits 6000
  Safe-chosen_account back r (some file) =
      search (safe_rules, Safe-upsert_play_account_from_request x inv) depth 40 fits 6000

  pub Safe-handle_play_config_ui : (r : Request) → Safe I (handle_play_config_ui x r)
  unfolding handle_play_config_ui play_off play_on
  Safe-handle_play_config_ui r =
      search (safe_rules, Safe-exec, inv.account_linked, Safe-chosen_account) depth 40 fits 6000

  Safe-account_deleted : (r : Result (Unit {0})) → Safe I (account_deleted x r)
  unfolding account_deleted
  Safe-account_deleted (err e) = search safe_rules
  Safe-account_deleted (ok _) = search safe_rules

  Safe-flags_cleared : (id : ℤ) (r : Result (Unit {0})) → Safe I (flags_cleared x id r)
  unfolding flags_cleared
  Safe-flags_cleared id (err e) = search safe_rules
  Safe-flags_cleared id (ok _) =
      search (safe_rules, Safe-exec, inv.account_removed, Safe-account_deleted) depth 40 fits 6000

  pub Safe-handle_play_accounts_ui : (r : Request) → Safe I (handle_play_accounts_ui x r)
  unfolding handle_play_accounts_ui remove_account save_account
  Safe-handle_play_accounts_ui r =
      search
        (
          safe_rules,
          Safe-exec,
          inv.play_disabled,
          Safe-flags_cleared,
          Safe-upsert_play_account_from_request x inv,
        )
        depth 40 fits 6000

  pub Safe-handle_retention_ui : (r : Request) → Safe I (handle_retention_ui r)
  unfolding handle_retention_ui
  Safe-handle_retention_ui r =
      search (safe_rules, Safe-form_parsed x, Safe-exec, inv.keep_set) depth 40 fits 6000

module _ (st : Storage) {I : Database → Type 0} (inv : IsInvariant I) where
  Safe-delete_release :
      (plat : AppPlatform) (slug : String) (code : ℤ) → Safe I (delete_release st plat slug code)
  Safe-delete_release plat slug code = record {
    kept = let rows = (of_uploads inv).of_rows in Keeps-delete_release rows st plat slug code;
  }

  Safe-told :
      (rel : Release) (n : ℕ) (back : String) (r : Result Bool) → Safe I (told st rel n back r)
  unfolding told
  Safe-told rel n back (err e) = search safe_rules
  Safe-told rel n back (ok true) = search safe_rules
  Safe-told rel n back (ok false) = search safe_rules

  pub Safe-handle_delete_release_ui : (r : Request) → Safe I (handle_delete_release_ui st r)
  unfolding handle_delete_release_ui delete_direct
  Safe-handle_delete_release_ui r =
      search (safe_rules, Safe-delete_release, Safe-told) depth 40 fits 6000
