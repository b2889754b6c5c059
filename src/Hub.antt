-- ===== src/Hub.antt =====
-- srv/routes.go: the endpoints and the guard that each one stands behind.
pub mod Reachable
pub mod Refusals
use release_hub.Base.{String, List, [], ◌∷◌}
use release_hub.Storage.{Storage}
use release_hub.Request.{Request}
use release_hub.Auth.{require_ui, require_api}
use release_hub.Pkcs12.Alias.{Asn1}
use release_hub.Signing.{
  CertCalls, handle_api_set_signing, handle_api_get_signing, handle_api_delete_signing,
}
use release_hub.Apps.{
  handle_api_list_apps, handle_api_create_app, handle_create_app_ui, handle_api_create_token,
  handle_create_token_ui, handle_api_add_platform, handle_add_platform_ui,
}
use release_hub.Upload.{handle_api_upload, handle_api_delete_release}
use release_hub.PlayStatus.{handle_api_releases}
use release_hub.PlayAccounts.{
  handle_api_set_play, handle_api_play_accounts, handle_api_delete_play_account,
  handle_api_invite_testers, handle_api_get_testers, handle_api_list_tracks,
  handle_api_play_preflight,
}
use release_hub.Pages.{
  handle_login, handle_logout, handle_first_run, handle_play_config_ui, handle_invite_testers_ui,
  handle_play_accounts_ui, handle_retention_ui, handle_delete_release_ui,
}
use release_hub.Pages.Settings.{handle_settings_post}
use release_hub.Pages.Settings.View.{handle_settings_get}
use release_hub.Pages.Overview.{handle_apps_page}
use release_hub.Pages.Detail.{handle_app_detail}
use release_hub.Assets.{EmbeddedFiles, versioned_asset, current_asset}
use release_hub.Public.{handle_manifest, handle_get_release, handle_artifact}
use release_hub.World.{Outside, plain, redirect, M, ◌>>=◌, pure, answer}

-- One for each handler and guard; the patterns that share them (a platform in the path or not, and
-- the legacy aliases) are one endpoint.
pub data Endpoint : Type 0 where
  setup : Endpoint
  login : Endpoint
  logout : Endpoint
  home : Endpoint
  apps_page : Endpoint
  app_page : Endpoint
  settings_page : Endpoint
  create_app_form : Endpoint
  add_platform_form : Endpoint
  play_form : Endpoint
  play_check : Endpoint
  testers_form : Endpoint
  delete_release_form : Endpoint
  retention_form : Endpoint
  settings_form : Endpoint
  play_accounts_form : Endpoint
  create_token_form : Endpoint
  list_apps : Endpoint
  create_app : Endpoint
  create_token : Endpoint
  add_platform : Endpoint
  upload : Endpoint
  delete_release : Endpoint
  releases : Endpoint
  set_play : Endpoint
  invite_testers : Endpoint
  get_testers : Endpoint
  list_tracks : Endpoint
  play_preflight : Endpoint
  play_accounts : Endpoint
  delete_play_account : Endpoint
  set_signing : Endpoint
  get_signing : Endpoint
  delete_signing : Endpoint
  manifest : Endpoint
  get_release : Endpoint
  artifact : Endpoint
  versioned_file : Endpoint
  current_file : Endpoint
  health : Endpoint

pub data Guard : Type 0 where
  everyone : Guard
  session : Guard
  bearer : Guard

-- The guard of the route table.
unfoldable pub guard_of : Endpoint → Guard
guard_of Endpoint.setup = everyone
guard_of Endpoint.login = everyone
guard_of Endpoint.logout = everyone
guard_of Endpoint.home = session
guard_of Endpoint.apps_page = session
guard_of Endpoint.app_page = session
guard_of Endpoint.settings_page = session
guard_of Endpoint.create_app_form = session
guard_of Endpoint.add_platform_form = session
guard_of Endpoint.play_form = session
guard_of Endpoint.play_check = session
guard_of Endpoint.testers_form = session
guard_of Endpoint.delete_release_form = session
guard_of Endpoint.retention_form = session
guard_of Endpoint.settings_form = session
guard_of Endpoint.play_accounts_form = session
guard_of Endpoint.create_token_form = session
guard_of Endpoint.manifest = everyone
guard_of Endpoint.get_release = everyone
guard_of Endpoint.artifact = everyone
guard_of Endpoint.versioned_file = everyone
guard_of Endpoint.current_file = everyone
guard_of Endpoint.health = everyone
guard_of _ = bearer

module _ {Key Cert : Type 0} (certs : CertCalls Key Cert) (asn : Asn1) (x : Outside) (st : Storage)
    (order : List String → List String) (base_url : String) (files : EmbeddedFiles) where
  -- the streamed bytes are not a value of the handler's type
  streamed : Request → M (Unit {0})
  streamed r = handle_artifact x st r >>= λ bytes. pure tt

  -- The handler of the route table.
  unfoldable pub handler_of : Endpoint → Request → M (Unit {0})
  unfolding streamed
  handler_of Endpoint.setup = handle_first_run x
  handler_of Endpoint.login = handle_login x
  handler_of Endpoint.logout = handle_logout x
  handler_of Endpoint.home = λ r. answer (redirect "/apps")
  handler_of Endpoint.apps_page = handle_apps_page
  handler_of Endpoint.app_page = handle_app_detail base_url certs x order
  handler_of Endpoint.settings_page = handle_settings_get x
  handler_of Endpoint.create_app_form = handle_create_app_ui x
  handler_of Endpoint.add_platform_form = handle_add_platform_ui certs asn x
  handler_of Endpoint.play_form = handle_play_config_ui x
  handler_of Endpoint.play_check = handle_api_play_preflight x
  handler_of Endpoint.testers_form = handle_invite_testers_ui x
  handler_of Endpoint.delete_release_form = handle_delete_release_ui st
  handler_of Endpoint.retention_form = handle_retention_ui
  handler_of Endpoint.settings_form = handle_settings_post x
  handler_of Endpoint.play_accounts_form = handle_play_accounts_ui x
  handler_of Endpoint.create_token_form = handle_create_token_ui x
  handler_of Endpoint.list_apps = handle_api_list_apps
  handler_of Endpoint.create_app = handle_api_create_app x
  handler_of Endpoint.create_token = handle_api_create_token x
  handler_of Endpoint.add_platform = handle_api_add_platform certs asn x
  handler_of Endpoint.upload = handle_api_upload x st
  handler_of Endpoint.delete_release = handle_api_delete_release x st
  handler_of Endpoint.releases = handle_api_releases x order st
  handler_of Endpoint.set_play = handle_api_set_play x
  handler_of Endpoint.invite_testers = handle_api_invite_testers x
  handler_of Endpoint.get_testers = handle_api_get_testers x
  handler_of Endpoint.list_tracks = handle_api_list_tracks x
  handler_of Endpoint.play_preflight = handle_api_play_preflight x
  handler_of Endpoint.play_accounts = handle_api_play_accounts x
  handler_of Endpoint.delete_play_account = handle_api_delete_play_account x
  handler_of Endpoint.set_signing = handle_api_set_signing certs asn x
  handler_of Endpoint.get_signing = handle_api_get_signing certs asn x
  handler_of Endpoint.delete_signing = handle_api_delete_signing certs asn x
  handler_of Endpoint.manifest = handle_manifest x st
  handler_of Endpoint.get_release = handle_get_release x st
  handler_of Endpoint.artifact = streamed
  handler_of Endpoint.versioned_file = versioned_asset x files
  handler_of Endpoint.current_file = current_asset x files
  handler_of Endpoint.health = λ r. answer (plain 200 "ok")

  behind_guard : Guard → (Request → M (Unit {0})) → Request → M (Unit {0})
  behind_guard everyone handler = handler
  behind_guard session handler = require_ui x handler
  behind_guard bearer handler = require_api x handler

  -- `routes`: what a request to an endpoint runs
  unfoldable pub dispatch : Endpoint → Request → M (Unit {0})
  unfolding behind_guard
  dispatch e r = behind_guard (guard_of e) (handler_of e) r
