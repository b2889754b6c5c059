-- ===== src/Tests/Manifests.antt =====
-- An upload and the manifest after it at a concrete input: 1.2 with code 4 on the direct channel.
use release_hub.Base.{[], ◌∷◌, ◌≡◌, refl, true, any_of, find_first, keep_if, ◌==◌, ◌||◌}
use release_hub.Result.{ok}
use release_hub.Text.{trim_space, ends_with}
use release_hub.Text.Number.{decimal, parse_int}
use release_hub.Text.PathName.{clean_rooted, base_name}
use release_hub.Channel.{track_for}
use release_hub.Db.Apps.{platform_by_slug_and_platform}
use release_hub.Db.Config.{get_config}
use release_hub.Db.Releases.{create_release, max_version_code}
use release_hub.Platform.{platform_from_request, platform_name, non_empty_or}
use release_hub.Request.{Request, path_value, query_value, form_value}
use release_hub.Retention.{prune_config, prune_direct_releases}
use release_hub.Storage.{local, save, save_local, local_path, public_url}
use release_hub.Storage.Files.{file_at, put_file, remove_file}
use release_hub.World.{World, done, call}
use release_hub.Upload.{
  Accepted, accept, announce, file_name_of, handle_api_upload, publish_to_play, store_release,
}
use release_hub.Public.{handle_manifest}
use release_hub.Public.Served.{uploaded, handle_manifest-handle_api_upload}
use release_hub.Tests.{calm, request, disk, demo, manifest_request}
use release_hub.Tests.Faithful.{outside}

abbrev upload : Request
upload = record request { post_form = ("versionCode", "4") ∷ ("versionName", "1.2") ∷ [] }

abbrev taken : Accepted
taken = record {
  plat = demo;
  slug = "demo";
  channel = "direct";
  code = 4;
  version_name = "1.2";
  notes = "";
  file = record { filename = "app.apk"; content = 1 ∷ 2 ∷ [] };
}

passes : (accept upload calm).0 ≡ done taken
unfolding accept platform_from_request platform_name path_value query_value form_value call
    platform_by_slug_and_platform max_version_code find_first any_of keep_if parse_int decimal
    track_for trim_space
passes = refl

is_stored : (store_release outside (local disk) taken (accept upload calm).1).0 ≡ done (2, "sha")
unfolding accept platform_from_request platform_name path_value query_value form_value call
    platform_by_slug_and_platform max_version_code find_first any_of keep_if parse_int decimal
    track_for trim_space store_release save save_local local_path clean_rooted file_name_of
    base_name file_at put_file remove_file create_release
is_stored = refl

abbrev after_upload : World
after_upload = record calm { db = (handle_api_upload outside (local disk) upload calm).1.db }

known_platform :
    platform_by_slug_and_platform
      (path_value "slug" manifest_request)
      (platform_name manifest_request)
      after_upload.db
    ≡ ok taken.plat
unfolding handle_api_upload accept announce platform_from_request platform_name path_value
    query_value form_value call platform_by_slug_and_platform max_version_code find_first any_of
    keep_if parse_int decimal track_for trim_space store_release save save_local local_path
    clean_rooted file_name_of base_name file_at put_file remove_file create_release public_url
    publish_to_play prune_config get_config ends_with prune_direct_releases
known_platform = refl

names_it :
    (platform_name manifest_request == "android" || platform_name manifest_request == "ios") ≡ true
unfolding platform_name path_value
names_it = refl

its_channel : non_empty_or (query_value "channel" manifest_request) "direct" ≡ taken.channel
unfolding query_value
its_channel = refl

handle_manifest-handle_api_upload_example :
    (handle_manifest outside (local disk) manifest_request after_upload).0
    ≡ uploaded outside disk taken (2, "sha") (path_value "slug" manifest_request)
handle_manifest-handle_api_upload_example =
    handle_manifest-handle_api_upload outside disk upload calm taken (2, "sha") passes is_stored
      manifest_request after_upload refl (λ n. refl) names_it known_platform its_channel
