-- ===== src/Tests/Hubs.antt =====
-- The theorems on the whole hub at concrete inputs: requests to a hub that was just started.
use release_hub.Base.{
  inr, some, none, ◌⊎◌, true, ◌==◌, any_of, ◌+++◌, [], ◌∷◌, String, List, ◌≡◌, ◌≢◌, refl,
  find_first,
}
use release_hub.Db.Apps.{new_platform}
use release_hub.Pages.{handle_play_accounts_ui}
use release_hub.Pages.Linked.{handle_play_accounts_ui-EnabledIsLinked}
use release_hub.PlayAccounts.{handle_api_delete_play_account}
use release_hub.PlayAccounts.Linked.{
  EnabledIsLinked, handle_api_delete_play_account-EnabledIsLinked,
}
use release_hub.Apps.{handle_api_create_token, handle_api_list_apps}
use release_hub.Apps.Tokens.{created, used, require_api-handle_api_create_token}
use release_hub.Auth.{random_token, require_api}
use release_hub.Request.{Request, form_value, path_value}
use release_hub.World.{answered, call, World}
use release_hub.Result.{no_rows, err}
use release_hub.Db.{empty_database}
use release_hub.Db.Config.{api_token_by_hash, create_api_token}
use release_hub.Text.{drop_chars, trim_space}
use release_hub.Storage.{local}
use release_hub.Assets.{
  EmbeddedFiles, asset_version, read_embedded, no_file, versioned_asset, current_asset,
}
use release_hub.Assets.Contained.{Serves, versioned_asset-Serves}
use release_hub.Hub.{Endpoint, guard_of, everyone, dispatch}
use release_hub.Hub.Reachable.{Reachable, Step, Reachable-IsSound}
use release_hub.Hub.Refusals.{IsRefusal, dispatch-IsRefusal}
use release_hub.Invariant.Sound.{IsSound}
use release_hub.Upload.Rejections.{SameState}
use release_hub.Tests.{calm, request, disk}
use release_hub.Tests.Keys.{asn, certs}
use release_hub.Tests.Faithful.{outside}

abbrev as_listed : List String → List String
as_listed names = names

abbrev hub_url : String
hub_url = "https://hub.example"

abbrev static_files : EmbeddedFiles
static_files = ("static/app.css", 97 ∷ 98 ∷ []) ∷ ("templates/base.html", 99 ∷ []) ∷ []

abbrev fresh : World
fresh = record calm { db = empty_database }

abbrev set_up : World
set_up =
    (dispatch certs asn outside (local disk) as_listed hub_url static_files Endpoint.setup request
      fresh).1

set_up-Reachable : Reachable certs asn outside (local disk) as_listed hub_url static_files set_up
set_up-Reachable =
    Reachable.after fresh set_up (Reachable.start fresh refl)
      (Step.request Endpoint.setup request fresh)

Reachable-IsSound_example : IsSound set_up.db
Reachable-IsSound_example =
    Reachable-IsSound certs asn outside (local disk) as_listed hub_url static_files set_up
      set_up-Reachable

unknown_here :
    api_token_by_hash (outside.hash_text (drop_chars "Bearer " request.authorization)) calm.db
    ≡ err no_rows
unfolding api_token_by_hash find_first
unknown_here = refl

guarded_upload : guard_of Endpoint.upload ≢ everyone
unfolding guard_of
guarded_upload = λ e. cc e

dispatch-IsRefusal_example :
    IsRefusal
      (dispatch certs asn outside
        (local disk)
        as_listed
        hub_url
        static_files
        Endpoint.upload
        request
        calm).0
    × SameState calm
        (dispatch certs asn outside
          (local disk)
          as_listed
          hub_url
          static_files
          Endpoint.upload
          request
          calm).1
dispatch-IsRefusal_example =
    dispatch-IsRefusal certs asn outside (local disk) as_listed hub_url static_files request calm
      unknown_here (λ value e. absurd (cc e)) Endpoint.upload guarded_upload

abbrev naming : Request
naming = record request { post_form = ("name", "ci") ∷ [] }

abbrev issued : String
issued = "rh" +++ ("_" +++ outside.hex_encode (outside.random 0 32))

was_issued : (handle_api_create_token outside naming calm).0 ≡ answered (created "ci" issued)
unfolding handle_api_create_token random_token create_api_token form_value trim_space call any_of
was_issued = refl

abbrev with_it : Request
with_it = record request { authorization = "Bearer " +++ issued }

require_api-handle_api_create_token_example :
    require_api outside handle_api_list_apps with_it (handle_api_create_token outside naming calm).1
    ≡ handle_api_list_apps with_it
        (used outside (handle_api_create_token outside naming calm).1 issued)
unfolding handle_api_create_token trim_space form_value random_token call create_api_token any_of
require_api-handle_api_create_token_example =
    require_api-handle_api_create_token outside handle_api_list_apps naming calm "ci" issued
      was_issued with_it (handle_api_create_token outside naming calm).1 refl refl (λ n. refl)

-- a hub with one account and a platform that publishes with it
abbrev publishing : World
publishing = record calm {
  db = record empty_database {
    platforms =
        record (new_platform 1 1 "android" "com.example") {
          play_enabled = 1;
          play_account_id = some 1;
        }
        ∷ [];
    play_accounts = record { id = 1; label = "main"; credentials = "plain:" } ∷ [];
  };
}

abbrev of_account : Request
of_account = record request { post_form = ("id", "1") ∷ [] }

handle_api_delete_play_account-EnabledIsLinked_example :
    EnabledIsLinked (handle_api_delete_play_account outside of_account publishing).1.db
handle_api_delete_play_account-EnabledIsLinked_example =
    handle_api_delete_play_account-EnabledIsLinked outside of_account publishing (inr (1, refl), tt)

abbrev delete_form : Request
delete_form = record request { post_form = ("action", "delete") ∷ ("id", "1") ∷ [] }

asks_to_delete : (form_value "action" delete_form == "delete") ≡ true
unfolding form_value
asks_to_delete = refl

handle_play_accounts_ui-EnabledIsLinked_example :
    EnabledIsLinked (handle_play_accounts_ui outside delete_form publishing).1.db
handle_play_accounts_ui-EnabledIsLinked_example =
    handle_play_accounts_ui-EnabledIsLinked outside delete_form publishing asks_to_delete
      (inr (1, refl), tt)

-- a URL that climbs out of the directory
abbrev climbing : Request
climbing = record request {
  path_values = ("v", asset_version outside static_files) ∷ ("file", "../app.css") ∷ [];
  path = "/static/../templates/base.html";
}

no_root : read_embedded "static//" static_files ≡ none
unfolding read_embedded
no_root = refl

versioned_asset-Serves_example :
    ((versioned_asset outside static_files climbing calm).0 ≡ answered no_file
      ⊎ ((path_value "v" climbing ≡ asset_version outside static_files)
          × Serves outside static_files "public, max-age=31536000, immutable"
              (versioned_asset outside static_files climbing calm).0))
    × Serves outside static_files "no-cache" (current_asset outside static_files climbing calm).0
versioned_asset-Serves_example = versioned_asset-Serves outside static_files climbing calm no_root
