-- ===== src/Text.antt =====
-- What srv/*.go uses of Go's `strings`, `unicode` and `strconv`: white space, suffixes, decimals.
pub mod Prefix
pub mod Number
pub mod PathName
use release_hub.Base.{
  ℕ, String, Char, code, Bool, true, false, ◌||◌, ◌&&◌, ◌≡◌, ◌+++◌, refl, leb, ltb, eqb,
  starts_with, ◌==◌, if◌then◌else◌,
}
use Prim.Native.String.{[], ◌∷◌}

-- `unicode.IsSpace`: the Latin-1 spaces, then the category Z and the property Pattern_White_Space.
unfoldable pub is_space : Char → Bool
is_space c =
    let n = code c in
    (leb 9 n && leb n 13)
    || eqb n 32
    || eqb n 0x85
    || eqb n 0xA0
    || eqb n 0x1680
    || (leb 0x2000 n && leb n 0x200a)
    || eqb n 0x2028
    || eqb n 0x2029
    || eqb n 0x202f
    || eqb n 0x205f
    || eqb n 0x3000

trim_left : String → String
trim_left [] = []
trim_left (c ∷ s) = let rest = trim_left s in if is_space c then rest else c ∷ s

all_space : String → Bool
all_space [] = true
all_space (c ∷ s) = is_space c && all_space s

trim_right : String → String
trim_right [] = []
trim_right (c ∷ s) = let rest = c ∷ trim_right s in if is_space c && all_space s then [] else rest

-- `strings.TrimSpace`
unfoldable pub trim_space : String → String
unfolding is_space trim_left all_space trim_right
trim_space s = trim_right (trim_left s)

-- `strings.CutPrefix` and `strings.TrimPrefix` on a text that has the prefix
unfoldable pub drop_chars : String → String → String
drop_chars [] s = s
drop_chars (c ∷ p) [] = []
drop_chars (c ∷ p) (d ∷ s) = drop_chars p s

-- `strings.HasSuffix`
unfoldable pub ends_with : String → String → Bool
ends_with [] suffix = [] == suffix
ends_with (c ∷ s) suffix = (c ∷ s) == suffix || ends_with s suffix

-- `strings.Contains`
unfoldable pub contains : String → String → Bool
contains [] part = [] == part
contains (c ∷ s) part = starts_with (c ∷ s) part || contains s part

finds : (contains "it is disabled." "is dis" ≡ true) × (ends_with "a.aab" ".aab" ≡ true)
unfolding contains ends_with
finds = (refl, refl)

trims : trim_space " \ta b\n " ≡ "a b"
unfolding trim_space
trims = refl

cuts : drop_chars "closed:" "closed:qa" ≡ "qa"
unfolding drop_chars
cuts = refl
