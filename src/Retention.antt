-- ===== src/Retention.antt =====
-- srv/prune.go: how many direct releases a platform keeps, deletes, and the pruning after an upload.
pub mod Deletes
pub mod Prunes
pub mod Kept
use release_hub.Base.{
  ℕ, zero, suc, ◌+◌, String, List, [], ◌∷◌, Option, none, some, ◌==◌, ◌+++◌, if◌then◌else◌, Bool,
  true, false, leb, ltb, length, drop, ◌≡◌, refl,
}
use release_hub.Base.Int.{ℤ, pos, negsuc}
use release_hub.Text.{trim_space}
use release_hub.Text.Number.{parse_int}
use release_hub.Result.{GoError, Result, ok, err}
use release_hub.Db.{AppPlatform, Release}
use release_hub.Db.Releases.{release_by_app_and_code, delete_release_row, list_releases_by_channel}
use release_hub.Db.Config.{get_config}
use release_hub.Storage.{Storage, delete_file}
use release_hub.World.{M, ◌>>=◌, ◌>>◌, pure, panic, query, exec}

-- `strconv.Atoi`, with 0 where it fails or is negative
abbrev keep_count : Option ℤ → ℕ
keep_count none = 0
keep_count (some (negsuc n)) = 0
keep_count (some (pos n)) = n

configured_keep : Result String → ℕ
configured_keep (err e) = 0
configured_keep (ok v) = if trim_space v == "" then 0 else keep_count (parse_int (trim_space v))

hub_wide_keep : Option ℕ → M ℕ
hub_wide_keep (some n) = pure n
hub_wide_keep none = do v ← query (get_config "prune_keep"); pure (configured_keep v)

-- `pruneConfig`
unfoldable pub prune_config : AppPlatform → M ℕ
unfolding hub_wide_keep configured_keep
prune_config plat = hub_wide_keep plat.prune_keep

-- `parseKeep`: `none` is the error, `some none` is "inherit"
keep_override : Option ℤ → Option (Option ℕ)
keep_override none = none
keep_override (some (negsuc n)) = none
keep_override (some (pos n)) = if leb n 10000 then some (some n) else none

unfoldable pub parse_keep : String → Option (Option ℕ)
unfolding keep_override
parse_keep v = if trim_space v == "" then some none else keep_override (parse_int (trim_space v))

abbrev pub artifact_key : String → String → String → String
artifact_key slug platform file_name = slug +++ ("/" +++ (platform +++ ("/" +++ file_name)))

module _ (st : Storage) (plat : AppPlatform) (slug : String) where
  delete_artifact : Release → Result (Unit {0}) → M (Result Bool)
  delete_artifact rel (err e) = pure (err e)
  delete_artifact rel (ok _) = do
    delete_file st (artifact_key slug plat.platform rel.file_name)
    pure (ok true)

  delete_found : ℤ → Result Release → M (Result Bool)
  delete_found code (err e) = pure (ok false)
  delete_found code (ok rel) = do
    deleted ← exec (delete_release_row plat.id code)
    delete_artifact rel deleted

  -- `deleteRelease`; the error comes with "found"
  unfoldable pub delete_release : ℤ → M (Result Bool)
  unfolding delete_found delete_artifact
  delete_release code = do
    found ← query (release_by_app_and_code plat.id code)
    delete_found code found

  abbrev pub counted : Result Bool → ℕ → ℕ
  counted (ok found) pruned = suc pruned
  counted (err e) pruned = pruned

  -- the loop over `rels[keep:]`
  pub prune_loop : List Release → ℕ → M ℕ
  prune_loop [] pruned = pure pruned
  prune_loop (rel ∷ rels) pruned = do
    deleted ← delete_release (pos rel.version_code)
    prune_loop rels (counted deleted pruned)

  -- Go panics where the lower bound of a slice is past its length.
  pub prune_listed : ℕ → Result (List Release) → M ℕ
  prune_listed keep (err e) = pure 0
  prune_listed keep (ok rels) =
      if ltb (length rels) keep then panic else prune_loop (drop keep rels) 0

  -- `pruneDirectReleases`
  unfoldable pub prune_direct_releases : ℕ → M ℕ
  prune_direct_releases zero = pure 0
  prune_direct_releases (suc keep) = do
    listed ← query (λ db. ok (list_releases_by_channel plat.id "direct" db))
    prune_listed (suc keep) listed

keeps :
    (parse_keep " 10 " ≡ some (some 10))
    × (parse_keep "" ≡ some none)
    × (parse_keep "-1" ≡ none)
    × (parse_keep "10001" ≡ none)
    × (parse_keep "ten" ≡ none)
unfolding parse_keep parse_int trim_space
keeps = (refl, refl, refl, refl, refl)
