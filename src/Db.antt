-- ===== src/Db.antt =====
-- db/dbgen/models.go and the schema of db/migrations: the tables as lists of rows in order of
-- insertion. No query of the program reads `created_at` of an app, a platform or an account, nor a
-- release's `id`, so those columns are left out; `AUTOINCREMENT` is a counter beside the table.
pub mod Order
pub mod Releases
pub mod Apps
pub mod Config
pub mod Integrity
use release_hub.Base.{ℕ, String, Option, List, []}

pub record App : Type 0 where
  pub id : ℕ
  pub slug : String

pub record AppPlatform : Type 0 where
  pub id : ℕ
  pub app_id : ℕ
  pub platform : String
  pub package_name : String
  pub play_enabled : ℕ
  pub sign_keystore : String
  pub sign_config : String
  pub sign_sha256 : String
  pub play_account_id : Option ℕ
  pub prune_keep : Option ℕ

pub record Release : Type 0 where
  pub app_platform_id : ℕ
  pub version_code : ℕ
  pub version_name : String
  pub channel : String
  pub notes : String
  pub sha256 : String
  pub size_bytes : ℕ
  pub file_name : String
  pub play_status : String
  pub play_error : String
  pub play_release : String

pub record ApiToken : Type 0 where
  pub id : ℕ
  pub name : String
  pub token_hash : String
  pub last_used_at : Option ℕ

pub record Session : Type 0 where
  pub token_hash : String
  pub created_at : ℕ
  pub expires_at : ℕ

pub record PlayAccount : Type 0 where
  pub id : ℕ
  pub label : String
  pub credentials : String

pub record Database : Type 0 where
  pub apps : List App
  pub app_seq : ℕ
  pub platforms : List AppPlatform
  pub platform_seq : ℕ
  pub releases : List Release
  pub api_tokens : List ApiToken
  pub token_seq : ℕ
  pub sessions : List Session
  pub config : List (String × String)
  pub play_accounts : List PlayAccount
  pub account_seq : ℕ

abbrev pub empty_database : Database
empty_database = record {
  apps = [];
  app_seq = 0;
  platforms = [];
  platform_seq = 0;
  releases = [];
  api_tokens = [];
  token_seq = 0;
  sessions = [];
  config = [];
  play_accounts = [];
  account_seq = 0;
}
