-- ===== src/Apps/Kept.antt =====
-- What the handlers of apps, platforms and tokens keep: every invariant of the database.
use release_hub.Base.{ℕ, String, List, [], ◌∷◌, ◌||◌, ◌==◌, ◌≡◌, true}
use release_hub.Db.{Database, App}
use release_hub.Invariant.{
  IsInvariant, Safe, Safe-exec, Safe-bind, Safe-attempt, Safe-pure, Safe-require, Safe-answer,
  Safe-query, Safe-expect, Safe-app_from_slug, Safe-guarded, safe_rules,
}
use release_hub.Text.{trim_space}
use release_hub.Request.{form_value, Request}
use release_hub.Auth.Kept.{Safe-random_token}
use release_hub.World.{Outside}
use release_hub.Pkcs12.Alias.{Asn1}
use release_hub.Signing.{CertCalls}
use release_hub.Signing.Kept.{Safe-generate_and_store_signing}
use release_hub.Apps.{
  add_platform, app_entries, handle_api_list_apps, slug_from, handle_api_create_app,
  handle_create_app_ui, handle_api_create_token, handle_create_token_ui, generated, new_signing,
  handle_api_add_platform, handle_add_platform_ui,
}

module _ {I : Database → Type 0} where
  Safe-app_entries : (apps : List App) → Safe I (app_entries apps)
  unfolding app_entries
  Safe-app_entries [] = search safe_rules
  Safe-app_entries (a ∷ apps) = Safe-bind _ _ (Safe-query _) λ found.
      Safe-bind _ _ (Safe-expect _ found)
        λ plats. Safe-bind _ _ (Safe-app_entries apps) λ more. Safe-pure _

  pub Safe-handle_api_list_apps : (r : Request) → Safe I (handle_api_list_apps r)
  unfolding handle_api_list_apps
  Safe-handle_api_list_apps r = search (safe_rules, Safe-app_entries) depth 40 fits 6000

module _ {I : Database → Type 0} (inv : IsInvariant I) where
  Safe-add_platform :
      (app_id : ℕ) (platform pkg : String)
      → (platform == "android" || platform == "ios") ≡ true
      → Safe I (add_platform app_id platform pkg)
  unfolding add_platform
  Safe-add_platform app_id platform pkg known =
      Safe-attempt _ _ _ (Safe-exec _ (λ db. inv.platform_created app_id platform pkg db known))
        λ id. Safe-pure _

  module _ (x : Outside) where
    pub Safe-handle_api_create_app : (r : Request) → Safe I (handle_api_create_app x r)
    unfolding handle_api_create_app
    Safe-handle_api_create_app r = Safe-guarded _ _ _ λ valid.
        Safe-bind _ _ (Safe-exec _ (λ db. inv.app_created (slug_from x r) db valid))
          λ created. search safe_rules depth 40 fits 6000

    pub Safe-handle_create_app_ui : (r : Request) → Safe I (handle_create_app_ui x r)
    unfolding handle_create_app_ui
    Safe-handle_create_app_ui r = Safe-guarded _ _ _ λ valid.
        Safe-bind _ _ (Safe-exec _ (λ db. inv.app_created (slug_from x r) db valid))
          λ created. search safe_rules depth 40 fits 6000

    pub Safe-handle_api_create_token : (r : Request) → Safe I (handle_api_create_token x r)
    unfolding handle_api_create_token
    Safe-handle_api_create_token r =
        search (safe_rules, Safe-random_token, Safe-exec, inv.token_created) depth 40 fits 6000

    pub Safe-handle_create_token_ui : (r : Request) → Safe I (handle_create_token_ui x r)
    unfolding handle_create_token_ui
    Safe-handle_create_token_ui r =
        search (safe_rules, Safe-exec, inv.token_created) depth 40 fits 6000

  module _ {Key Cert : Type 0} (certs : CertCalls Key Cert) (asn : Asn1) (x : Outside) where
    Safe-new_signing :
        (id : ℕ) (slug platform : String) → Safe I (new_signing certs asn x id slug platform)
    unfolding new_signing generated
    Safe-new_signing id slug platform =
        search (safe_rules, Safe-generate_and_store_signing certs asn x inv) depth 40 fits 6000

    pub Safe-handle_api_add_platform :
        (r : Request) → Safe I (handle_api_add_platform certs asn x r)
    unfolding handle_api_add_platform
    Safe-handle_api_add_platform r = Safe-bind {A = App} _ _ (Safe-app_from_slug _) λ app.
        Safe-guarded
          (trim_space (form_value "platform" r) == "android"
            || trim_space (form_value "platform" r) == "ios")
          _ _
          λ known. Safe-bind _ _ (Safe-require _ _) λ _.
            Safe-bind _ _
              (Safe-add_platform app.id (trim_space (form_value "platform" r))
                (trim_space (form_value "packageName" r)) known)
              λ added.
                Safe-bind _ _ (Safe-expect _ added)
                  λ id. Safe-bind _ _ (Safe-new_signing id _ _) λ more. Safe-answer _

    pub Safe-handle_add_platform_ui : (r : Request) → Safe I (handle_add_platform_ui certs asn x r)
    unfolding handle_add_platform_ui
    Safe-handle_add_platform_ui r = Safe-bind {A = App} _ _ (Safe-app_from_slug _) λ app.
        Safe-guarded (form_value "platform" r == "android" || form_value "platform" r == "ios") _ _
          λ known. Safe-bind _ _ (Safe-require _ _) λ _.
            Safe-bind _ _
              (Safe-add_platform app.id (form_value "platform" r)
                (trim_space (form_value "packageName" r)) known)
              λ added.
                Safe-bind _ _ (Safe-expect _ added)
                  λ id. Safe-bind _ _ (Safe-new_signing id _ _) λ more. Safe-answer _
