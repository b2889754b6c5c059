-- ===== src/Storage/Contained.antt =====
-- A local artifact lies below the artifact directory.
use release_hub.Base.{String, List, All, ◌≡◌, refl, ◌+++◌}
use release_hub.Text.PathName.{clean_rooted, or_root, names_of}
use release_hub.Text.PathName.Contained.{IsEntryName, names_of-IsEntryName}
use release_hub.Storage.{LocalStorage, local_path}

-- Whatever the key, with any `..` and slashes in it, the path of a local artifact is the artifact
-- directory followed by a slash, or by names of entries below it, each behind a slash: none of them is
-- empty, `.` or `..`, and none has a slash in it.
pub local_path-IsEntryName :
    (l : LocalStorage) (key : String)
    → (names : List String) × (All IsEntryName names × (local_path l key ≡ l.dir +++ or_root names))
unfolding local_path clean_rooted
local_path-IsEntryName l key = (names_of key, (names_of-IsEntryName key, refl))
