-- ===== src/Public/Fetched.antt =====
-- What a device downloads after an upload.
use mathlib.Core.Path.{subst}
use release_hub.Base.{ℕ, String, ◌≡◌, refl, sym, ◌==◌, false, length, arith}
use release_hub.Text.Prefix.{prefixed-ne}
use release_hub.Text.Number.{decimal}
use release_hub.Text.Number.Digits.{decimal-HasNoSlash}
use release_hub.Text.PathName.{base_name}
use release_hub.Text.PathName.Contained.{HasNoSlash}
use release_hub.Text.PathName.Names.{base_name-name, append-HasNoSlash, append-ne}
use release_hub.Request.{Request, path_value}
use release_hub.Storage.{LocalStorage, local, location, open_file}
use release_hub.World.{World, Outside, done}
use release_hub.World.Calls.{NoFaults, fine_call}
use release_hub.Upload.{Accepted, file_name_of, key_of, store_release}
use release_hub.Upload.Stored.{RowWithArtifact, store_release-RowWithArtifact}
use release_hub.Public.{requested_key, serve, served, handle_artifact}

-- the name of an artifact is no path
base_name-file_name_of :
    (a : Accepted)
    → HasNoSlash (base_name a.file.filename)
    → base_name (file_name_of a) ≡ file_name_of a
unfolding file_name_of
base_name-file_name_of a h =
    let tail = append-HasNoSlash "_" (base_name a.file.filename) ((λ e. ground arith), tt) h in
    base_name-name _ (append-HasNoSlash (decimal a.code) _ (decimal-HasNoSlash a.code) tail)
      (append-ne (decimal a.code) _ (prefixed-ne "_" (base_name a.file.filename) "" refl))

module _ (x : Outside) (l : LocalStorage) (a : Accepted) where
  -- Whatever calls failed while a release was stored on the local store: if it was stored under a file
  -- name without a slash, for a platform with a name, then as long as the files are as then, a request
  -- for its artifact, by its slug, platform and file name, in which no call fails is answered with
  -- exactly the bytes that were uploaded, and the size and hash that were stored are theirs.
  pub handle_artifact-store_release :
      (w : World) (stored : ℕ × String)
      → HasNoSlash (base_name a.file.filename)
      → (a.plat.platform == "") ≡ false
      → (store_release x (local l) a w).0 ≡ done stored
      → (r : Request) (later : World) → later.files ≡ (store_release x (local l) a w).1.files
      → NoFaults later
      → path_value "slug" r ≡ a.slug
      → path_value "platform" r ≡ a.plat.platform
      → path_value "file" r ≡ file_name_of a
      → ((handle_artifact x (local l) r later).0 ≡ done a.file.content)
        × (stored ≡ (length a.file.content, x.sha256_hex a.file.content))
  unfolding handle_artifact serve served requested_key open_file location
  handle_artifact-store_release w stored plain named e r later files h slug platform file =
      let row : RowWithArtifact x l a w (done stored, (store_release x (local l) a w).1) =
        subst (λ o. RowWithArtifact x l a w (o, (store_release x (local l) a w).1)) e
          (store_release-RowWithArtifact x l a w) in
      let key : requested_key x (local l) r ≡ key_of a =
        rw (file, base_name-file_name_of a plain, platform, named, slug) refl in
      (
        fine_call (λ (o, w'). o ≡ done a.file.content) _ _ later h
            (rw (key, files, row.1.1.1) refl),
        rw (sym row.0, sym row.1.0) refl,
      )
