-- ===== src/Hub/Reachable.antt =====
-- The hub as a system of steps: any request to any endpoint, with any faults, at any time.
use release_hub.Base.{ℕ, ◌+◌, String, Option, List, ◌≡◌, keep_if}
use release_hub.Db.{Database, empty_database}
use release_hub.Invariant.{Holds, Safe, IsInvariant, Safe-bind, Safe-pure, Safe-answer, of_uploads}
use release_hub.Invariant.Sound.{IsSound, IsSound-IsInvariant}
use release_hub.World.{World, Outside, M}
use release_hub.World.Calls.{Ends-kept}
use release_hub.Storage.{Storage}
use release_hub.Request.{Request}
use release_hub.Pkcs12.Alias.{Asn1}
use release_hub.Signing.{CertCalls}
use release_hub.Auth.Kept.{Safe-require_ui, Safe-require_api}
use release_hub.Signing.Kept.{
  Safe-handle_api_set_signing, Safe-handle_api_get_signing, Safe-handle_api_delete_signing,
}
use release_hub.Apps.Kept.{
  Safe-handle_api_list_apps, Safe-handle_api_create_app, Safe-handle_create_app_ui,
  Safe-handle_api_create_token, Safe-handle_create_token_ui, Safe-handle_api_add_platform,
  Safe-handle_add_platform_ui,
}
use release_hub.Upload.Rows.{Keeps-handle_api_upload, Keeps-handle_api_delete_release}
use release_hub.PlayStatus.Kept.{Safe-handle_api_releases}
use release_hub.PlayAccounts.Kept.{
  Safe-handle_api_set_play, Safe-handle_api_play_accounts, Safe-handle_api_delete_play_account,
  Safe-handle_api_invite_testers, Safe-handle_api_get_testers, Safe-handle_api_list_tracks,
  Safe-handle_api_play_preflight,
}
use release_hub.Pages.Kept.{
  Safe-handle_login, Safe-handle_logout, Safe-handle_first_run, Safe-handle_play_config_ui,
  Safe-handle_invite_testers_ui, Safe-handle_play_accounts_ui, Safe-handle_retention_ui,
  Safe-handle_delete_release_ui,
}
use release_hub.Pages.Settings.Kept.{Safe-handle_settings_post}
use release_hub.Pages.Settings.View.Kept.{Safe-handle_settings_get}
use release_hub.Pages.Overview.Kept.{Safe-handle_apps_page}
use release_hub.Pages.Detail.Kept.{Safe-handle_app_detail}
use release_hub.Assets.{EmbeddedFiles}
use release_hub.Assets.Kept.{Safe-versioned_asset, Safe-current_asset}
use release_hub.Public.Kept.{Safe-handle_manifest, Safe-handle_get_release, Safe-handle_artifact}
use release_hub.Hub.{
  Endpoint, Guard, everyone, session, bearer, guard_of, streamed, handler_of, behind_guard,
  dispatch,
}

empty_database-IsSound : IsSound empty_database
unfolding keep_if
empty_database-IsSound = record {
  codes = λ id. tt;
  slugs = tt;
  variants = tt;
  valid = tt;
  known = tt;
}

module _ {Key Cert : Type 0} (certs : CertCalls Key Cert) (asn : Asn1) (x : Outside) (st : Storage)
    (order : List String → List String) (base_url : String) (files : EmbeddedFiles) where
  -- A request runs its endpoint's handler to the end; time passes; other calls begin to fail.
  pub data Step : World → World → Type 0 where
    request :
        (e : Endpoint) (r : Request) (w : World)
        → Step w (dispatch certs asn x st order base_url files e r w).1
    time : (n : ℕ) (w : World) → Step w (record w { now = w.now + n })
    weather : (fault : ℕ → Option String) (w : World) → Step w (record w { fault = fault })

  -- The hub is started on an empty database, and runs.
  pub data Reachable : World → Type 0 where
    start : (w : World) → w.db ≡ empty_database → Reachable w
    after : (w w' : World) → Reachable w → Step w w' → Reachable w'

  module _ {I : Database → Type 0} (inv : IsInvariant I) where
    Safe-handler_of :
        (e : Endpoint) (r : Request) → Safe I (handler_of certs asn x st order base_url files e r)
    unfolding handler_of streamed
    Safe-handler_of Endpoint.setup r = Safe-handle_first_run x inv r
    Safe-handler_of Endpoint.login r = Safe-handle_login x inv r
    Safe-handler_of Endpoint.logout r = Safe-handle_logout x inv r
    Safe-handler_of Endpoint.home r = Safe-answer _
    Safe-handler_of Endpoint.apps_page r = Safe-handle_apps_page r
    Safe-handler_of Endpoint.app_page r = Safe-handle_app_detail base_url certs x order inv r
    Safe-handler_of Endpoint.settings_page r = Safe-handle_settings_get x r
    Safe-handler_of Endpoint.create_app_form r = Safe-handle_create_app_ui inv x r
    Safe-handler_of Endpoint.add_platform_form r = Safe-handle_add_platform_ui inv certs asn x r
    Safe-handler_of Endpoint.play_form r = Safe-handle_play_config_ui x inv r
    Safe-handler_of Endpoint.play_check r = Safe-handle_api_play_preflight x r
    Safe-handler_of Endpoint.testers_form r = Safe-handle_invite_testers_ui x r
    Safe-handler_of Endpoint.delete_release_form r = Safe-handle_delete_release_ui st inv r
    Safe-handler_of Endpoint.retention_form r = Safe-handle_retention_ui x inv r
    Safe-handler_of Endpoint.settings_form r = Safe-handle_settings_post inv x r
    Safe-handler_of Endpoint.play_accounts_form r = Safe-handle_play_accounts_ui x inv r
    Safe-handler_of Endpoint.create_token_form r = Safe-handle_create_token_ui inv x r
    Safe-handler_of Endpoint.list_apps r = Safe-handle_api_list_apps r
    Safe-handler_of Endpoint.create_app r = Safe-handle_api_create_app inv x r
    Safe-handler_of Endpoint.create_token r = Safe-handle_api_create_token inv x r
    Safe-handler_of Endpoint.add_platform r = Safe-handle_api_add_platform inv certs asn x r
    Safe-handler_of Endpoint.upload r = record {
      kept = Keeps-handle_api_upload (of_uploads inv) x st r;
    }
    Safe-handler_of Endpoint.delete_release r = record {
      kept = Keeps-handle_api_delete_release (of_uploads inv) x st r;
    }
    Safe-handler_of Endpoint.releases r = Safe-handle_api_releases x order inv st r
    Safe-handler_of Endpoint.set_play r = Safe-handle_api_set_play x inv r
    Safe-handler_of Endpoint.invite_testers r = Safe-handle_api_invite_testers x r
    Safe-handler_of Endpoint.get_testers r = Safe-handle_api_get_testers x r
    Safe-handler_of Endpoint.list_tracks r = Safe-handle_api_list_tracks x r
    Safe-handler_of Endpoint.play_preflight r = Safe-handle_api_play_preflight x r
    Safe-handler_of Endpoint.play_accounts r = Safe-handle_api_play_accounts x inv r
    Safe-handler_of Endpoint.delete_play_account r = Safe-handle_api_delete_play_account x inv r
    Safe-handler_of Endpoint.set_signing r = Safe-handle_api_set_signing certs asn x inv r
    Safe-handler_of Endpoint.get_signing r = Safe-handle_api_get_signing certs asn x r
    Safe-handler_of Endpoint.delete_signing r = Safe-handle_api_delete_signing certs asn x inv r
    Safe-handler_of Endpoint.manifest r = Safe-handle_manifest x st r
    Safe-handler_of Endpoint.get_release r = Safe-handle_get_release x st r
    Safe-handler_of Endpoint.artifact r =
        Safe-bind _ _ (Safe-handle_artifact x st r) λ bytes. Safe-pure tt
    Safe-handler_of Endpoint.versioned_file r = Safe-versioned_asset x files r
    Safe-handler_of Endpoint.current_file r = Safe-current_asset x files r
    Safe-handler_of Endpoint.health r = Safe-answer _

    Safe-behind_guard :
        (g : Guard) (handler : Request → M (Unit {0}))
        → ((r : Request) → Safe I (handler r))
        → (r : Request) → Safe I (behind_guard certs asn x st order base_url files g handler r)
    unfolding behind_guard
    Safe-behind_guard everyone handler safe r = safe r
    Safe-behind_guard session handler safe r = Safe-require_ui x handler safe r
    Safe-behind_guard bearer handler safe r = Safe-require_api x handler safe inv r

    Safe-dispatch :
        (e : Endpoint) (r : Request) → Safe I (dispatch certs asn x st order base_url files e r)
    unfolding dispatch
    Safe-dispatch e r = Safe-behind_guard (guard_of e) _ (Safe-handler_of e) r

    Step-Holds : (w w' : World) → Step w w' → I w.db → I w'.db
    Step-Holds _ _ (request e r w) h =
        Ends-kept (Holds I) (dispatch certs asn x st order base_url files e r w)
          ((Safe-dispatch e r).kept.at w h)
    Step-Holds _ _ (time n w) h = h
    Step-Holds _ _ (weather fault w) h = h

  -- Whatever requests a hub has answered since it was started on an empty database, in whatever order,
  -- and whatever calls failed in them: no platform has two releases of one version code, no two apps
  -- have one slug, no app has two variants of one platform, each slug is one that the pattern admits,
  -- and each platform is android or ios.
  pub Reachable-IsSound : (w : World) → Reachable w → IsSound w.db
  Reachable-IsSound _ (start w e) = rw e empty_database-IsSound
  Reachable-IsSound _ (after v w before step) =
      Step-Holds IsSound-IsInvariant v w step (Reachable-IsSound v before)
