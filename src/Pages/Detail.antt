-- ===== src/Pages/Detail.antt =====
-- srv/handlers_ui.go: the page of an app.
pub mod Kept
use release_hub.Base.{
  ℕ, String, Bool, false, true, not, Option, none, some, List, [], ◌∷◌, ◌++◌, ◌+++◌, ◌==◌, ◌||◌,
  eqb, map, any_of, if◌then◌else◌,
}
use release_hub.Text.Number.{decimal}
use release_hub.Result.{Result, ok, err}
use release_hub.Db.{App, AppPlatform, Release, PlayAccount}
use release_hub.Db.Apps.{list_platforms_by_app}
use release_hub.Db.Releases.{list_releases}
use release_hub.Request.{Request, path_value, query_value, flash_of}
use release_hub.Platform.{app_from_slug}
use release_hub.Secrets.{decrypt_creds}
use release_hub.Accounts.{play_email, play_account_info}
use release_hub.Testers.{play_testers, tester_emails}
use release_hub.Retention.{prune_config, artifact_key}
use release_hub.Signing.{CertCalls}
use release_hub.PlayStatus.{settle_if_enabled}
use release_hub.PlayAccounts.{must_list_play_accounts}
use release_hub.Page.{RelRow, ShareRow, PlatSection, AccountOption, AppPage}
use release_hub.Pages.{inherit_label}
use release_hub.Pages.Settings.{joined, bundle_prefix, suggest_package}
use release_hub.World.{Outside, Bytes, plain, app_page, M, ◌>>=◌, ◌>>◌, pure, answer, expect, query}

rel_row : App → AppPlatform → Release → RelRow
rel_row app p rel = record {
  version_name = rel.version_name;
  channel = rel.channel;
  notes = rel.notes;
  url = "/artifacts/" +++ artifact_key app.slug p.platform rel.file_name;
  version_code = rel.version_code;
  size_bytes = rel.size_bytes;
  play_status = rel.play_status;
  play_error = rel.play_error;
  play_release = rel.play_release;
}

-- the rows are those of the highest code first
latest_name : List RelRow → String
latest_name [] = ""
latest_name (row ∷ rows) = row.version_name

override_text : Option ℕ → String
override_text none = ""
override_text (some keep) = decimal keep

tab_of : String → String
tab_of tab = if tab == "distribution" || tab == "configuration" then tab else "releases"

module _ (base_url : String) where
  download_url : App → String → String
  download_url app channel =
      base_url +++ ("/apps/" +++ (app.slug +++ ("/download?channel=" +++ channel)))

  share_row : App → String → ShareRow
  share_row app channel = record { label = channel; url = download_url app channel }

  -- the Play channels only while the platform publishes to Play
  shares_of : App → AppPlatform → List ShareRow
  shares_of app p =
      share_row app "direct"
      ∷ (if eqb p.play_enabled 1
          then share_row app "internal" ∷ share_row app "beta" ∷ share_row app "public" ∷ []
          else [])

  module _ {Key Cert : Type 0} (certs : CertCalls Key Cert) (x : Outside)
      (order : List String → List String) where
    alias_in : Option String → String
    alias_in none = ""
    alias_in (some alias) = alias

    alias_opened : Result Bytes → String
    alias_opened (err e) = ""
    alias_opened (ok raw) = alias_in (certs.alias_of_json raw)

    alias_of : AppPlatform → String
    alias_of p = if p.sign_config == "" then "" else alias_opened (decrypt_creds x p.sign_config)

    api_url : App → AppPlatform → String → String
    api_url app p what =
        base_url +++ ("/api/apps/" +++ (app.slug +++ ("/" +++ (p.platform +++ what))))

    section_of : App → AppPlatform → String → String → List Release → ℕ × String → ℕ → PlatSection
    section_of app p beta emails rels acct keep = record {
      platform = p.platform;
      package_name = p.package_name;
      latest_version = latest_name (map (rel_row app p) rels);
      releases = map (rel_row app p) rels;
      manifest_url = api_url app p "/manifest";
      upload_url = api_url app p "/releases";
      shares = shares_of app p;
      beta_testers = beta;
      tester_emails = emails;
      prune_keep_override = override_text p.prune_keep;
      prune_keep_effective = inherit_label (some keep);
      has_signing_key = not (p.sign_sha256 == "");
      sign_sha256 = p.sign_sha256;
      sign_alias = alias_of p;
      play_enabled = eqb p.play_enabled 1;
      play_account_id = acct.0;
      play_email = acct.1;
    }

    -- the rows are those read before the settling
    sections_of : App → String → String → List AppPlatform → M (List PlatSection)
    sections_of app beta emails [] = pure []
    sections_of app beta emails (p ∷ plats) = do
      found ← query (λ db. ok (list_releases p.id db))
      rels ← expect (λ e. plain 500 "db error") found
      settle_if_enabled x order p rels
      acct ← play_account_info x p
      keep ← prune_config p
      more ← sections_of app beta emails plats
      pure (section_of app p beta emails rels acct keep ∷ more)

    account_option : PlayAccount → AccountOption
    account_option acct = record { id = acct.id; email = play_email x acct.credentials }

    -- `handleAppDetail`
    unfoldable pub handle_app_detail : Request → M (Unit {0})
    unfolding rel_row latest_name override_text tab_of download_url share_row shares_of alias_in
        alias_opened alias_of api_url section_of sections_of account_option
    handle_app_detail r = do
      app ← app_from_slug (path_value "slug" r)
      found ← query (λ db. ok (list_platforms_by_app app.id db))
      plats ← expect (λ e. plain 500 "db error") found
      beta ← play_testers x
      emails ← tester_emails x
      sections ← sections_of app (joined beta) (joined emails) plats
      accounts ← must_list_play_accounts
      prefix ← bundle_prefix
      answer (
          app_page (record {
            title = app.slug;
            app = app;
            flash = flash_of r;
            tab = tab_of (query_value "tab" r);
            platforms = sections;
            suggested_pkg = suggest_package prefix app.slug;
            has_android = any_of (λ p. p.platform == "android") plats;
            play_accounts = map account_option accounts;
          }))
