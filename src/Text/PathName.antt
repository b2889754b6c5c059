-- ===== src/Text/PathName.antt =====
-- Go's `path.Clean` on a rooted path, and `filepath.Base` (with "/" as the separator).
pub mod Contained
pub mod Names
use mathlib.Core.List.{tail}
use release_hub.Base.{
  String, Char, code, Bool, true, false, ◌||◌, ◌≡◌, refl, List, [], ◌∷◌, ◌==◌, ◌+++◌, eqb,
  if◌then◌else◌,
}

add_to_first : Char → List String → List String
add_to_first c [] = String.◌∷◌ c "" ∷ []
add_to_first c (p ∷ ps) = String.◌∷◌ c p ∷ ps

-- The parts of a text between slashes.
unfoldable pub segments : String → List String
unfolding add_to_first
segments String.[] = "" ∷ []
segments (String.◌∷◌ c s) =
    let rest = segments s in if eqb (code c) b'/' then "" ∷ rest else add_to_first c rest

-- What `Clean` makes of one part below the root; the names so far have the last one first.
step_into : List String → String → List String
step_into names part =
    if part == "" || part == "." then names else if part == ".." then tail names else part ∷ names

walk : List String → List String → List String
walk names [] = names
walk names (part ∷ parts) = walk (step_into names part) parts

-- Each name behind a slash.
unfoldable pub rooted : List String → String
rooted [] = ""
rooted (name ∷ names) = rooted names +++ ("/" +++ name)

unfoldable pub names_of : String → List String
unfolding step_into walk
names_of path = walk [] (segments path)

abbrev pub or_root : List String → String
or_root [] = "/"
or_root (name ∷ names) = rooted (name ∷ names)

-- `path.Clean("/" + key)`
unfoldable pub clean_rooted : String → String
unfolding names_of rooted
clean_rooted key = or_root (names_of key)

last_nonempty : List String → String
last_nonempty [] = ""
last_nonempty (p ∷ ps) = let later = last_nonempty ps in if later == "" then p else later

-- `filepath.Base`: "." of the empty text, "/" of slashes only, else the last part that is not empty
unfoldable pub base_name : String → String
unfolding segments last_nonempty
base_name path =
    let last = last_nonempty (segments path) in
    if path == "" then "." else if last == "" then "/" else last

cleans :
    (clean_rooted "a/../../etc//./x" ≡ "/etc/x")
    × (clean_rooted "../.." ≡ "/")
    × (clean_rooted "app/android/1_a.apk" ≡ "/app/android/1_a.apk")
unfolding clean_rooted segments
cleans = (refl, refl, refl)

bases :
    (base_name "../../x.apk" ≡ "x.apk")
    × (base_name "a/b//" ≡ "b")
    × (base_name "//" ≡ "/")
    × (base_name "" ≡ ".")
    × (base_name "a/.." ≡ "..")
unfolding base_name
bases = (refl, refl, refl, refl, refl)
