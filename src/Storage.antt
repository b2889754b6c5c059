-- ===== src/Storage.antt =====
-- srv/storage.go: the artifact store, on the local file system or in a bucket.
pub mod Files
pub mod RoundTrip
pub mod Untouched
pub mod Kept
pub mod Contained
use release_hub.Base.{
  ℕ, String, Bool, true, false, Option, none, some, List, [], ◌∷◌, ◌++◌, ◌≡◌, refl, ◌==◌, ◌+++◌,
  length, if◌then◌else◌,
}
use release_hub.Result.{GoError, failure, Result, ok, err}
use release_hub.Text.PathName.{clean_rooted}
use release_hub.Storage.Files.{file_at, put_file, remove_file}
use release_hub.World.{World, Outside, Bytes, M, ◌>>=◌, ◌>>◌, pure, call, unchanged}

-- The last character, if it is a slash.
unfoldable pub trim_slash : String → String
trim_slash String.[] = ""
trim_slash (String.◌∷◌ c String.[]) = if String.◌∷◌ c "" == "/" then "" else String.◌∷◌ c ""
trim_slash (String.◌∷◌ c (String.◌∷◌ d s)) = String.◌∷◌ c (trim_slash (String.◌∷◌ d s))

pub record LocalStorage : Type 0 where
  pub dir : String
  pub base_url : String

pub record S3Storage : Type 0 where
  pub prefix : String
  pub public_base : String

-- The two implementations of the interface `Storage`.
pub data Storage : Type 0 where
  local : LocalStorage → Storage
  s3 : S3Storage → Storage

-- `LocalStorage.path` and `S3Storage.objKey`
unfoldable pub local_path : LocalStorage → String → String
local_path l key = l.dir +++ clean_rooted key

unfoldable pub obj_key : S3Storage → String → String
obj_key s key = s.prefix +++ ("/" +++ key)

unfoldable pub location : Storage → String → String
unfolding local_path obj_key
location (local l) key = local_path l key
location (s3 s) key = obj_key s key

abbrev write_at : String → Bytes → World → Result (Unit {0}) × World
write_at path bytes w = (ok tt, record w { files = put_file path bytes w.files })

abbrev missing : String → GoError
missing path = failure ("remove " +++ (path +++ ": no such file or directory"))

abbrev remove_at : String → World → Result (Unit {0}) × World
remove_at path w = elim (file_at path w.files) [
  | none ↦ (err (missing path), w)
  | some bytes ↦ (ok tt, record w { files = remove_file path w.files })
]

abbrev rename_to : String → String → World → Result (Unit {0}) × World
rename_to from to w = elim (file_at from w.files) [
  | none ↦ (err (missing from), w)
  | some bytes ↦ (ok tt, record w { files = put_file to bytes (remove_file from w.files) })
]

-- the first error of the copy and of closing the file
abbrev first_error : Result (Unit {0}) → Result (Unit {0}) → Result (Unit {0})
first_error (ok _) r = r
first_error (err e) r = err e

module _ (x : Outside) where
  saved : Bytes → Result (ℕ × String)
  saved bytes = ok (length bytes, x.sha256_hex bytes)

  -- `_ = os.Remove(tmp)`, and the error
  clean_up : String → GoError → M (Result (ℕ × String))
  clean_up tmp e = do call (remove_at tmp); pure (err e)

  rename_part : String → String → Bytes → Result (Unit {0}) → M (Result (ℕ × String))
  rename_part tmp full bytes (err e) = clean_up tmp e
  rename_part tmp full bytes (ok _) = pure (saved bytes)

  close_part : String → String → Bytes → Result (Unit {0}) → M (Result (ℕ × String))
  close_part tmp full bytes (err e) = clean_up tmp e
  close_part tmp full bytes (ok _) = do
    renamed ← call (rename_to tmp full)
    rename_part tmp full bytes renamed

  -- `io.Copy` goes into the open file; one that fails leaves the temporary file empty
  copy_part : String → String → Bytes → Result (Unit {0}) → M (Result (ℕ × String))
  copy_part tmp full bytes (err e) = pure (err e)
  copy_part tmp full bytes (ok _) = do
    copied ← call (write_at tmp bytes)
    closed ← call unchanged
    close_part tmp full bytes (first_error copied closed)

  create_part : String → Bytes → Result (Unit {0}) → M (Result (ℕ × String))
  create_part full bytes (err e) = pure (err e)
  create_part full bytes (ok _) = do
    let tmp = full +++ ".part"
    created ← call (write_at tmp [])
    copy_part tmp full bytes created

  -- `LocalStorage.Save`
  unfoldable pub save_local : LocalStorage → String → Bytes → M (Result (ℕ × String))
  unfolding create_part copy_part close_part rename_part clean_up saved
  save_local l key bytes = do
    let full = local_path l key
    made ← call unchanged
    create_part full bytes made

  head_object : Bytes → Result (Unit {0}) → Result (ℕ × String)
  head_object bytes (err e) = err e
  head_object bytes (ok _) = saved bytes

  upload_object : Bytes → Result (Unit {0}) → M (Result (ℕ × String))
  upload_object bytes (err e) = pure (err e)
  upload_object bytes (ok _) = do head ← call unchanged; pure (head_object bytes head)

  -- `S3Storage.Save`: the upload, then a HEAD for the size
  unfoldable pub save_s3 : S3Storage → String → Bytes → M (Result (ℕ × String))
  unfolding upload_object head_object saved
  save_s3 s key bytes = do
    uploaded ← call (write_at (obj_key s key) bytes)
    upload_object bytes uploaded

  unfoldable pub save : Storage → String → Bytes → M (Result (ℕ × String))
  save (local l) key bytes = save_local l key bytes
  save (s3 s) key bytes = save_s3 s key bytes

  presigned : S3Storage → String → Bool → M (Result String)
  presigned s key true = call (λ w. (ok (x.presign (obj_key s key)), w))
  presigned s key false = pure (ok (s.public_base +++ ("/" +++ obj_key s key)))

  -- `PublicURL`
  unfoldable pub public_url : Storage → String → M (Result String)
  unfolding presigned trim_slash
  public_url (local l) key = pure (ok (trim_slash l.base_url +++ ("/artifacts/" +++ key)))
  public_url (s3 s) key = presigned s key (s.public_base == "")

found_file : String → Option Bytes → Result Bytes
found_file path none = err (missing path)
found_file path (some bytes) = ok bytes

-- `Open`, and reading what it returns
unfoldable pub open_file : Storage → String → M (Result Bytes)
unfolding found_file
open_file st key = call (λ w. (found_file (location st key) (file_at (location st key) w.files), w))

abbrev delete_object : String → World → Result (Unit {0}) × World
delete_object path w = (ok tt, record w { files = remove_file path w.files })

-- `Delete`; a bucket does not mind a missing object
unfoldable pub delete_file : Storage → String → M (Result (Unit {0}))
delete_file (local l) key = call (remove_at (local_path l key))
delete_file (s3 s) key = call (delete_object (obj_key s key))
