-- ===== src/Tests/Downloads.antt =====
-- An upload and its download at a concrete input.
use release_hub.Base.{ℕ, String, [], ◌∷◌, ◌≡◌, refl, arith, length}
use release_hub.Text.Number.{decimal}
use release_hub.Text.PathName.{base_name}
use release_hub.Text.PathName.Contained.{HasNoSlash}
use release_hub.Request.{Request, path_value}
use release_hub.Storage.{local}
use release_hub.World.{World, Bytes, done}
use release_hub.Upload.{file_name_of, store_release}
use release_hub.Public.{handle_artifact}
use release_hub.Public.Fetched.{handle_artifact-store_release}
use release_hub.Tests.{calm, request, disk, accepted, stored_now}
use release_hub.Tests.Faithful.{outside}

abbrev on_disk : World
on_disk = record calm { files = (store_release outside (local disk) accepted calm).1.files }

abbrev download_request : Request
download_request = record request {
  path_values = ("slug", "demo") ∷ ("platform", "android") ∷ ("file", "4_app.apk") ∷ [];
  authorization = "";
}

abbrev sent : Bytes
sent = 1 ∷ 2 ∷ []

abbrev its_size_and_hash : ℕ × String
its_size_and_hash = (2, "sha")

plain_name : HasNoSlash (base_name accepted.file.filename)
unfolding base_name
plain_name = (
  (λ e. ground arith),
  (
    (λ e. ground arith),
    (
      (λ e. ground arith),
      (
        (λ e. ground arith),
        ((λ e. ground arith), ((λ e. ground arith), ((λ e. ground arith), tt))),
      ),
    ),
  ),
)

its_file : path_value "file" download_request ≡ file_name_of accepted
unfolding path_value file_name_of decimal base_name
its_file = refl

its_slug : path_value "slug" download_request ≡ accepted.slug
unfolding path_value
its_slug = refl

its_platform : path_value "platform" download_request ≡ accepted.plat.platform
unfolding path_value
its_platform = refl

handle_artifact-store_release_example :
    ((handle_artifact outside (local disk) download_request on_disk).0 ≡ done sent)
    × (its_size_and_hash ≡ (length sent, outside.sha256_hex sent))
handle_artifact-store_release_example =
    handle_artifact-store_release outside disk accepted calm its_size_and_hash plain_name refl
      stored_now download_request on_disk refl (λ n. refl) its_slug its_platform its_file
