-- ===== src/Page.antt =====
-- The data of the pages of srv/handlers_ui.go: what a handler hands to its template. The dates and the
-- texts that are the same on every page are left out, and a size is in bytes.
use release_hub.Base.{ℕ, String, Bool, List}
use release_hub.Db.{App, ApiToken}

-- a line of the list of apps
pub record AppRow : Type 0 where
  pub slug : String
  pub package_name : String
  pub platform : String
  pub latest : String
  pub has_platforms : Bool

-- a release on an app's page
pub record RelRow : Type 0 where
  pub version_name : String
  pub channel : String
  pub notes : String
  pub url : String
  pub version_code : ℕ
  pub size_bytes : ℕ
  pub play_status : String
  pub play_error : String
  pub play_release : String

-- a link to share
pub record ShareRow : Type 0 where
  pub label : String
  pub url : String

pub record PlatSection : Type 0 where
  pub platform : String
  pub package_name : String
  pub latest_version : String
  pub releases : List RelRow
  pub manifest_url : String
  pub upload_url : String
  pub shares : List ShareRow
  pub beta_testers : String
  pub tester_emails : String
  pub prune_keep_override : String
  pub prune_keep_effective : String
  pub has_signing_key : Bool
  pub sign_sha256 : String
  pub sign_alias : String
  pub play_enabled : Bool
  pub play_account_id : ℕ
  pub play_email : String

pub record AccountOption : Type 0 where
  pub id : ℕ
  pub email : String

-- the page of an app
pub record AppPage : Type 0 where
  pub title : String
  pub app : App
  pub flash : String
  pub tab : String
  pub platforms : List PlatSection
  pub suggested_pkg : String
  pub has_android : Bool
  pub play_accounts : List AccountOption

-- a setting of the certificate's subject
pub record SettingsField : Type 0 where
  pub name : String
  pub value : String
  pub label : String
  pub hint : String
  pub placeholder : String

pub record PlayAcctRow : Type 0 where
  pub id : String
  pub email : String
  pub platforms : List String

pub record SettingsPage : Type 0 where
  pub fields : List SettingsField
  pub bundle_prefix : String
  pub beta_testers : String
  pub tester_emails : String
  pub prune_keep : String
  pub tokens : List ApiToken
  pub new_token : String
  pub play_accounts : List PlayAcctRow
