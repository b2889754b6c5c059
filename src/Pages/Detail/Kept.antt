-- ===== src/Pages/Detail/Kept.antt =====
-- What the page of an app keeps: every invariant of the database.
use release_hub.Base.{ℕ, String, List, [], ◌∷◌, Option, none, some}
use release_hub.Db.{Database, App, AppPlatform}
use release_hub.Accounts.{play_account_info, account_info}
use release_hub.Invariant.{
  IsInvariant, Safe, Safe-bind, Safe-query, Safe-expect, Safe-pure, Safe-answer, Safe-app_from_slug,
  of_database,
}
use release_hub.Request.{Request}
use release_hub.Retention.Kept.{Keeps-prune_config}
use release_hub.Signing.{CertCalls}
use release_hub.PlayStatus.Kept.{Safe-settle_if_enabled}
use release_hub.PlayAccounts.Kept.{
  Safe-play_testers, Safe-tester_emails, Safe-must_list_play_accounts,
}
use release_hub.Pages.Settings.{bundle_prefix}
use release_hub.World.{Outside}
use release_hub.Pages.Detail.{sections_of, handle_app_detail}

module _ {I : Database → Type 0} where
  pub Safe-bundle_prefix : Safe I bundle_prefix
  unfolding bundle_prefix
  Safe-bundle_prefix = Safe-bind _ _ (Safe-query _) λ v. Safe-pure _

  Safe-account_info : (x : Outside) (o : Option ℕ) → Safe I (account_info x o)
  unfolding account_info
  Safe-account_info x none = Safe-pure _
  Safe-account_info x (some id) = Safe-bind _ _ (Safe-query _) λ acct. Safe-pure _

  Safe-play_account_info : (x : Outside) (p : AppPlatform) → Safe I (play_account_info x p)
  unfolding play_account_info
  Safe-play_account_info x p = Safe-account_info x p.play_account_id

module _ (base_url : String) {Key Cert : Type 0} (certs : CertCalls Key Cert) (x : Outside)
    (order : List String → List String) {I : Database → Type 0} (inv : IsInvariant I) where
  Safe-sections_of :
      (app : App) (beta emails : String) (plats : List AppPlatform)
      → Safe I (sections_of base_url certs x order app beta emails plats)
  unfolding sections_of
  Safe-sections_of app beta emails [] = Safe-pure _
  Safe-sections_of app beta emails (p ∷ plats) = Safe-bind _ _ (Safe-query _) λ found.
      Safe-bind _ _ (Safe-expect _ found) λ rels.
        Safe-bind _ _ (Safe-settle_if_enabled x order inv p rels) λ _.
          Safe-bind _ _ (Safe-play_account_info x p) λ acct.
            Safe-bind _ _ (record { kept = Keeps-prune_config (of_database I) p })
              λ keep. Safe-bind _ _ (Safe-sections_of app beta emails plats) λ more. Safe-pure _

  pub Safe-handle_app_detail : (r : Request) → Safe I (handle_app_detail base_url certs x order r)
  unfolding handle_app_detail
  Safe-handle_app_detail r = Safe-bind _ _ (Safe-app_from_slug _) λ app.
      Safe-bind _ _ (Safe-query _) λ found. Safe-bind _ _ (Safe-expect _ found) λ plats.
        Safe-bind _ _ (Safe-play_testers x) λ beta. Safe-bind _ _ (Safe-tester_emails x) λ emails.
          Safe-bind _ _ (Safe-sections_of app _ _ plats) λ sections.
            Safe-bind _ _ (Safe-must_list_play_accounts x)
              λ accounts. Safe-bind _ _ Safe-bundle_prefix λ prefix. Safe-answer _
