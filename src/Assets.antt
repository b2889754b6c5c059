-- ===== src/Assets.antt =====
-- srv/templates.go: the embedded CSS and JavaScript, and the version in their URLs.
pub mod Contained
pub mod Kept
use release_hub.Base.{
  ℕ, zero, suc, String, code, List, [], ◌∷◌, ◌++◌, Option, none, some, ◌+++◌, ◌==◌, not,
  if◌then◌else◌, ◌≡◌, refl,
}
use release_hub.Text.{ends_with}
use release_hub.Text.PathName.{base_name}
use release_hub.Request.{Request, path_value}
use release_hub.World.{
  Outside, Bytes, Json, Fields, Response, plain, binary, M, ◌>>=◌, ◌>>◌, answer, require,
}

-- the bytes of an embedded name, which is of ASCII
text_bytes : String → Bytes
text_bytes String.[] = []
text_bytes (String.◌∷◌ c s) = code c ∷ text_bytes s

first_chars : ℕ → String → String
first_chars zero s = ""
first_chars (suc n) String.[] = ""
first_chars (suc n) (String.◌∷◌ c s) = String.◌∷◌ c (first_chars n s)

-- The files of the embedded directory with their paths, in the order of `fs.WalkDir`.
abbrev pub EmbeddedFiles : Type 0
EmbeddedFiles = List (String × Bytes)

-- `embeddedStaticFS.ReadFile`
unfoldable pub read_embedded : String → EmbeddedFiles → Option Bytes
read_embedded path [] = none
read_embedded path ((p, b) ∷ files) = if p == path then some b else read_embedded path files

hash_input : EmbeddedFiles → Bytes
hash_input [] = []
hash_input ((p, b) ∷ files) = text_bytes p ++ (b ++ hash_input files)

abbrev pub no_file : Response
no_file = plain 404 "404 page not found"

type_of_file : String → Fields
type_of_file file =
    if ends_with file ".css"
    then ("Content-Type", Json.str "text/css; charset=utf-8") ∷ []
    else if ends_with file ".js"
    then ("Content-Type", Json.str "application/javascript; charset=utf-8") ∷ []
    else if ends_with file ".woff2"
    then ("Content-Type", Json.str "font/woff2") ∷ []
    else []

asset_answer : String → String → Option Bytes → Response
asset_answer cache file none = no_file
asset_answer cache file (some b) = binary (("Cache-Control", Json.str cache) ∷ type_of_file file) b

abbrev pub asset_path : String → String
asset_path path = "static/" +++ base_name path

module _ (x : Outside) (files : EmbeddedFiles) where
  -- `assetVersion`
  unfoldable pub asset_version : String
  unfolding text_bytes first_chars hash_input
  asset_version = first_chars 10 (x.sha256_hex (hash_input files))

  -- `staticHandler`: a versioned URL, which may be cached forever
  unfoldable pub versioned_asset : Request → M (Unit {0})
  unfolding type_of_file asset_answer
  versioned_asset r = do
    require (path_value "v" r == asset_version) no_file
    let file = asset_path (path_value "file" r)
    answer (asset_answer "public, max-age=31536000, immutable" file (read_embedded file files))

  -- any other URL below /static/, which may not
  unfoldable pub current_asset : Request → M (Unit {0})
  unfolding type_of_file asset_answer
  current_asset r =
      answer (asset_answer "no-cache" (asset_path r.path) (read_embedded (asset_path r.path) files))
