-- ===== src/Testers.antt =====
-- srv/handlers_ui.go and srv/api_releases.go: the tester groups of Settings.
pub mod Groups
use Prim.Native.String.{[], ◌∷◌}
use release_hub.Base.{
  String, Char, code, Bool, ◌||◌, List, ◌++◌, ◌==◌, ◌+++◌, eqb, any_of, if◌then◌else◌, ◌≡◌, refl,
}
use release_hub.Text.{trim_space}
use release_hub.Result.{Result, ok, err}
use release_hub.Db.Config.{get_config}
use release_hub.World.{Outside, M, ◌>>=◌, pure, query}

is_separator : Char → Bool
is_separator c =
    let n = code c in eqb n b',' || eqb n 10 || eqb n 13 || eqb n 9 || eqb n b' ' || eqb n b';'

-- a field that is not empty, and those after it
with_field : String → List String → List String
with_field field rest = if field == "" then rest else List.◌∷◌ field rest

-- `strings.FieldsFunc`: the non-empty runs between separators, after the run that is being read
unfoldable pub fields : String → String → List String
unfolding is_separator with_field
fields field [] = with_field field List.[]
fields field (c ∷ s) =
    let split = fields "" s in
    let on = fields (field +++ (c ∷ "")) s in if is_separator c then with_field field split else on

-- the groups seen so far, and the next
unfoldable pub add_group : List String → String → List String
add_group seen g = if g == "" || any_of (λ s. s == g) seen then seen else seen ++ List.◌∷◌ g List.[]

unfoldable pub add_groups : (String → String) → List String → List String → List String
unfolding add_group
add_groups lower seen List.[] = seen
add_groups lower seen (List.◌∷◌ g rest) =
    add_groups lower (add_group seen (lower (trim_space g))) rest

module _ (x : Outside) where
  -- `normalizeTesterGroups`
  unfoldable pub normalize_tester_groups : String → List String
  unfolding add_groups fields
  normalize_tester_groups v = add_groups x.lower List.[] (fields "" v)

  read_groups : Result String → List String
  read_groups (err e) = List.[]
  read_groups (ok v) = normalize_tester_groups v

  -- `playTesters` and `testerEmails`
  unfoldable pub play_testers : M (List String)
  unfolding read_groups
  play_testers = do v ← query (get_config "play_testers"); pure (read_groups v)

  unfoldable pub tester_emails : M (List String)
  unfolding read_groups
  tester_emails = do v ← query (get_config "play_tester_emails"); pure (read_groups v)

splits :
    add_groups (λ s. s) List.[] (fields "" "a@g.co,b@g.co;; a@g.co\n")
    ≡ List.◌∷◌ "a@g.co" (List.◌∷◌ "b@g.co" List.[])
unfolding add_groups fields trim_space any_of
splits = refl
