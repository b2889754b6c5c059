-- ===== src/Text/PathName/Contained.antt =====
-- A cleaned path has no part that leaves its root.
use Prim.Native.Char.{code}
use release_hub.Base.{
  String, Char, ◌≢◌, List, [], ◌∷◌, eq_iff, arith, eqb, All, Bool-cases, inl, inr, ◌==◌, ◌≡◌, ◌⊎◌,
  refl,
}
use release_hub.Text.PathName.{
  add_to_first, segments, step_into, walk, names_of, last_nonempty, base_name,
}

abbrev pub HasNoSlash : String → Type 0
HasNoSlash String.[] = Unit
HasNoSlash (String.◌∷◌ c s) = (code c ≢ b'/') × HasNoSlash s

-- The name of an entry of a directory: it is neither empty nor a way up, and holds no separator.
abbrev pub IsEntryName : String → Type 0
IsEntryName name = (name ≢ "") × ((name ≢ ".") × ((name ≢ "..") × HasNoSlash name))

add_to_first-HasNoSlash :
    (c : Char) (ps : List String)
    → code c ≢ b'/'
    → All HasNoSlash ps
    → All HasNoSlash (add_to_first c ps)
unfolding add_to_first
add_to_first-HasNoSlash c [] h k = ((h, tt), tt)
add_to_first-HasNoSlash c (p ∷ ps) h (k, ks) = ((h, k), ks)

pub segments-HasNoSlash : (s : String) → All HasNoSlash (segments s)
unfolding segments
segments-HasNoSlash String.[] = (tt, tt)
segments-HasNoSlash (String.◌∷◌ c s) = elim (Bool-cases (eqb (code c) b'/')) [
  | inl slash ↦ rw slash (tt, segments-HasNoSlash s)
  | inr other ↦
      rw other (add_to_first-HasNoSlash c (segments s) (λ e. ground arith) (segments-HasNoSlash s))
]

step_into-IsEntryName :
    (names : List String) (part : String)
    → All IsEntryName names
    → HasNoSlash part
    → All IsEntryName (step_into names part)
unfolding step_into
step_into-IsEntryName names part h k =
    ground (arith, eq_iff part "", eq_iff part ".", eq_iff part "..")

walk-IsEntryName :
    (names parts : List String)
    → All IsEntryName names
    → All HasNoSlash parts
    → All IsEntryName (walk names parts)
unfolding walk
walk-IsEntryName names [] h k = h
walk-IsEntryName names (part ∷ parts) h (k, ks) =
    walk-IsEntryName (step_into names part) parts (step_into-IsEntryName names part h k) ks

-- Every name on the cleaned path of any key is the name of an entry below the root.
pub names_of-IsEntryName : (key : String) → All IsEntryName (names_of key)
unfolding names_of
names_of-IsEntryName key = walk-IsEntryName [] (segments key) tt (segments-HasNoSlash key)

last_nonempty-HasNoSlash :
    (parts : List String) → All HasNoSlash parts → HasNoSlash (last_nonempty parts)
unfolding last_nonempty
last_nonempty-HasNoSlash [] h = tt
last_nonempty-HasNoSlash (p ∷ ps) (hp, h) = elim (Bool-cases (last_nonempty ps == "")) [
  | inl none_left ↦ rw none_left hp
  | inr later ↦ rw later (last_nonempty-HasNoSlash ps h)
]

-- The base of a path is the root or has no slash in it.
pub base_name-HasNoSlash : (path : String) → (base_name path ≡ "/") ⊎ HasNoSlash (base_name path)
unfolding base_name
base_name-HasNoSlash path = elim (Bool-cases (path == "")) [
  | inl empty ↦ rw empty (inr ((λ e. ground arith), tt))
  | inr filled ↦ elim (Bool-cases (last_nonempty (segments path) == "")) [
    | inl slashes ↦ rw (filled, slashes) (inl refl)
    | inr name ↦
        rw (filled, name)
          (inr (last_nonempty-HasNoSlash (segments path) (segments-HasNoSlash path)))
  ]
]
