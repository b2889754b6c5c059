-- ===== src/Retention/Kept.antt =====
-- What deletes and pruning keep: what the removal of a direct release's row keeps.
use release_hub.Base.{ℕ, zero, suc, String, List, [], ◌∷◌, Option, none, some, refl, All, drop}
use release_hub.Base.Int.{ℤ, pos}
use release_hub.Result.{Result, ok, err}
use release_hub.Db.{AppPlatform, Release}
use release_hub.Db.Releases.{delete_release_row, list_releases_by_channel}
use release_hub.Storage.{Storage}
use release_hub.Storage.Kept.{IsOfDb, Keeps-call_of_db, Keeps-delete_file}
use release_hub.Retention.{
  delete_artifact, delete_found, delete_release, prune_loop, prune_listed, prune_direct_releases,
  prune_config, hub_wide_keep,
}
use release_hub.World.{World, Response}
use release_hub.World.Calls.{
  Ends, after_call, Keeps, Keeps-call, Keeps-pure, Keeps-panic, Keeps-bind, Keeps-if,
}

-- A predicate on the database that the removal of a row keeps.
pub record IsOfRows (P : World → Type 0) : Type 0 where
  pub of_db : IsOfDb P
  pub deleted :
      (id : ℕ) (code : ℤ) (w : World)
      → P w
      → P (record w { db = (delete_release_row id code w.db).1 })

-- A predicate outlives the row of a code on a platform.
abbrev pub Outlives : (World → Type 0) → ℕ → ℤ → Type 0
Outlives P id code = (w : World) → P w → P (record w { db = (delete_release_row id code w.db).1 })

-- It outlives those of a list.
abbrev pub OutlivesAll : (World → Type 0) → ℕ → List Release → Type 0
OutlivesAll P id = All (λ rel. Outlives P id (pos rel.version_code))

outlives_all :
    {P : World → Type 0} → IsOfRows P → (id : ℕ) (rels : List Release) → OutlivesAll P id rels
outlives_all of id [] = tt
outlives_all of id (rel ∷ rels) = (of.deleted id (pos rel.version_code), outlives_all of id rels)

module _ {P : World → Type 0} {E : Response → World → Type 0} (of : IsOfDb P) (st : Storage)
    (plat : AppPlatform) (slug : String) where
  Keeps-delete_artifact :
      (rel : Release) (r : Result (Unit {0})) → Keeps P P E (delete_artifact st plat slug rel r)
  unfolding delete_artifact
  Keeps-delete_artifact rel (err e) = Keeps-pure _
  Keeps-delete_artifact rel (ok _) = Keeps-bind _ _ (Keeps-delete_file of st _) λ _. Keeps-pure _

  Keeps-delete_found :
      (code : ℤ)
      → Outlives P plat.id code
      → (r : Result Release) → Keeps P P E (delete_found st plat slug code r)
  unfolding delete_found
  Keeps-delete_found code deleted (err e) = Keeps-pure _
  Keeps-delete_found code deleted (ok rel) =
      Keeps-bind _ _
        (Keeps-call _ (λ w h. of.carry _ _ refl (deleted w h)) (λ w h. of.carry w _ refl h))
        (Keeps-delete_artifact rel)

  Keeps-delete_one :
      (code : ℤ) → Outlives P plat.id code → Keeps P P E (delete_release st plat slug code)
  unfolding delete_release
  Keeps-delete_one code deleted =
      Keeps-bind _ _ (Keeps-call_of_db of _ (λ w. refl)) (Keeps-delete_found code deleted)

  Keeps-delete_all :
      (rels : List Release) (n : ℕ)
      → OutlivesAll P plat.id rels
      → Keeps P P E (prune_loop st plat slug rels n)
  unfolding prune_loop
  Keeps-delete_all [] n h = Keeps-pure n
  Keeps-delete_all (rel ∷ rels) n (hr, hs) =
      Keeps-bind _ _ (Keeps-delete_one (pos rel.version_code) hr) λ d. Keeps-delete_all rels _ hs

  -- What is pruned may depend on what holds when the rows are listed.
  pub Keeps-prune_outlived :
      ((keep : ℕ) (w : World)
        → P w
        → OutlivesAll P plat.id (drop (suc keep) (list_releases_by_channel plat.id "direct" w.db)))
      → (keep : ℕ) → Keeps P P E (prune_direct_releases st plat slug keep)
  unfolding prune_direct_releases prune_listed
  Keeps-prune_outlived outlived zero = Keeps-pure 0
  Keeps-prune_outlived outlived (suc keep) = record {
    at = λ w h.
        after_call (Ends P E) _ _ w (λ t. of.carry w _ refl h)
          ((Keeps-if _ _ _ Keeps-panic (Keeps-delete_all _ 0 (outlived keep w h))).at _
            (of.carry w _ refl h));
  }

module _ {P : World → Type 0} {E : Response → World → Type 0} (of : IsOfRows P) (st : Storage)
    (plat : AppPlatform) (slug : String) where
  pub Keeps-delete_release : (code : ℤ) → Keeps P P E (delete_release st plat slug code)
  Keeps-delete_release code = Keeps-delete_one of.of_db st plat slug code (of.deleted plat.id code)

  pub Keeps-prune_direct_releases :
      (keep : ℕ) → Keeps P P E (prune_direct_releases st plat slug keep)
  Keeps-prune_direct_releases =
      Keeps-prune_outlived of.of_db st plat slug (λ keep w h. outlives_all of plat.id _)

module _ {P : World → Type 0} {E : Response → World → Type 0} (of : IsOfDb P) where
  Keeps-hub_wide_keep : (keep : Option ℕ) → Keeps P P E (hub_wide_keep keep)
  unfolding hub_wide_keep
  Keeps-hub_wide_keep none = Keeps-bind _ _ (Keeps-call_of_db of _ (λ w. refl)) λ v. Keeps-pure _
  Keeps-hub_wide_keep (some n) = Keeps-pure n

  pub Keeps-prune_config : (plat : AppPlatform) → Keeps P P E (prune_config plat)
  unfolding prune_config
  Keeps-prune_config plat = Keeps-hub_wide_keep plat.prune_keep
