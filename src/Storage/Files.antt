-- ===== src/Storage/Files.antt =====
-- A directory tree or a bucket, as the contents at each path.
use release_hub.Base.{
  String, Option, none, some, List, [], ◌∷◌, ◌≡◌, ◌==◌, arith, eq_iff, if◌then◌else◌,
}
use release_hub.World.{Bytes}

unfoldable pub file_at : String → List (String × Bytes) → Option Bytes
file_at path [] = none
file_at path ((p, bytes) ∷ files) = if p == path then some bytes else file_at path files

unfoldable pub remove_file : String → List (String × Bytes) → List (String × Bytes)
remove_file path [] = []
remove_file path ((p, bytes) ∷ files) =
    let rest = remove_file path files in if p == path then rest else (p, bytes) ∷ rest

unfoldable pub put_file : String → Bytes → List (String × Bytes) → List (String × Bytes)
put_file path bytes files = (path, bytes) ∷ remove_file path files

pub file_at-remove_file :
    (path other : String) (files : List (String × Bytes))
    → file_at other (remove_file path files) ≡ (if path == other then none else file_at other files)
unfolding file_at remove_file
file_at-remove_file path other [] = ground arith
file_at-remove_file path other ((p, bytes) ∷ files) =
    ground (
      arith,
      eq_iff p path,
      eq_iff p other,
      eq_iff path other,
      file_at-remove_file path other files,
    )

pub file_at-put_file :
    (path other : String) (bytes : Bytes) (files : List (String × Bytes))
    → file_at other (put_file path bytes files)
      ≡ (if path == other then some bytes else file_at other files)
unfolding file_at put_file
file_at-put_file path other bytes files = ground (arith, file_at-remove_file path other files)
