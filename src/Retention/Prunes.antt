-- ===== src/Retention/Prunes.antt =====
-- What pruning leaves, and where it stops with a panic.
use mathlib.Core.Path.{subst}
use release_hub.Db.Integrity.{HasUniqueCodes}
use release_hub.Base.{
  ◌==◌, keep_if-keep_if, ℕ, zero, suc, ◌+◌, ◌-◌, ◌≤◌, ◌<◌, ◌≢◌, String, List, [], ◌∷◌, ◌++◌, ◌≡◌,
  refl, ap, sym, ◌∙◌, arith, length, take, drop, keep_if, length-drop, ltb, true, false,
}
use release_hub.Base.Int.{pos}
use release_hub.Db.{AppPlatform, Release, Database}
use release_hub.Db.Order.{
  sort_desc, keep_if-Distinct, Distinct, IsStrictDesc, without_all, without_all-back,
  sort_desc-IsStrictDesc,
}
use release_hub.Db.Releases.{on_platform, code_of, on_channel, list_releases_by_channel}
use release_hub.Storage.{Storage}
use release_hub.World.{World, Outcome, done, panicked, M, ◌>>=◌, continue, pure}
use release_hub.World.Calls.{NoFaults, fine_call, on_its_own}
use release_hub.Retention.{prune_loop, prune_listed, prune_direct_releases}
use release_hub.Retention.Deletes.{others, list-others, list-others_ne, after_delete}

-- The rows that are left when those of `gone` are deleted one by one.
pub others_all : ℕ → List Release → List Release → List Release
others_all id [] rs = rs
others_all id (g ∷ gone) rs = others_all id gone (others id (pos g.version_code) rs)

abbrev pruned_db : ℕ → List Release → Database → Database
pruned_db id gone db = record db { releases = others_all id gone db.releases }

list-others_all :
    (id : ℕ) (channel : String) (gone rs : List Release)
    → sort_desc code_of (keep_if (on_channel id channel) (others_all id gone rs))
      ≡ without_all code_of gone (sort_desc code_of (keep_if (on_channel id channel) rs))
unfolding others_all without_all
list-others_all id channel [] rs = refl
list-others_all id channel (g ∷ gone) rs =
    list-others_all id channel gone (others id (pos g.version_code) rs)
    ∙ ap (without_all code_of gone) (list-others id g.version_code channel rs)

list-others_all_ne :
    (id other : ℕ) (channel : String) (gone rs : List Release)
    → other ≢ id
    → keep_if (on_channel other channel) (others_all id gone rs)
      ≡ keep_if (on_channel other channel) rs
unfolding others_all
list-others_all_ne id other channel [] rs h = refl
list-others_all_ne id other channel (g ∷ gone) rs h =
    list-others_all_ne id other channel gone (others id (pos g.version_code) rs) h
    ∙ list-others_ne id other (pos g.version_code) channel rs h

take-append-drop {ℓ} : {A : Type ℓ} (n : ℕ) (xs : List A) → take n xs ++ drop n xs ≡ xs
take-append-drop zero xs = refl
take-append-drop (suc n) [] = refl
take-append-drop (suc n) (x ∷ xs) = ap (◌∷◌ x) (take-append-drop n xs)

-- Deleting all but the first items of a strictly descending listing leaves those.
without_all-drop :
    (n : ℕ) (rs : List Release)
    → IsStrictDesc code_of rs
    → without_all code_of (drop n rs) rs ≡ take n rs
without_all-drop n rs h =
    sym (ap (without_all code_of (drop n rs)) (take-append-drop n rs))
    ∙ without_all-back code_of (take n rs) (drop n rs) (rw (take-append-drop n rs) h)

module _ (st : Storage) (plat : AppPlatform) (slug : String) where
  module _ {B : Type 0} (R : Outcome B × World → Type 0) where
    pub after_prune_loop :
        (gone : List Release) (pruned : ℕ) (k : ℕ → M B) (w : World)
        → NoFaults w
        → ((n : ℕ) (w' : World)
            → n ≡ pruned + length gone
            → w'.db ≡ pruned_db plat.id gone w.db
            → NoFaults w'
            → R (k n w'))
        → R ((prune_loop st plat slug gone pruned >>= k) w)
    unfolding prune_loop others_all
    after_prune_loop [] pruned k w h next = next pruned w (omega arith) refl h
    after_prune_loop (g ∷ gone) pruned k w h next =
        after_delete (λ (o, w'). R (continue o k w')) st plat slug _ _ w h
          λ b w1 e nf.
            after_prune_loop gone (suc pruned) k w1 nf
              λ n w2 en e2 nf2. next n w2 (omega arith) (rw e at e2) nf2

    -- What follows a pruning that keeps no more releases than there are.
    pub after_prune :
        (keep : ℕ) (k : ℕ → M B) (w : World)
        → NoFaults w
        → suc keep ≤ length (list_releases_by_channel plat.id "direct" w.db)
        → ((n : ℕ) (w' : World)
            → suc keep + n ≡ length (list_releases_by_channel plat.id "direct" w.db)
            → w'.db
              ≡ pruned_db plat.id
                  (drop (suc keep) (list_releases_by_channel plat.id "direct" w.db))
                  w.db
            → NoFaults w'
            → R (k n w'))
        → R ((prune_direct_releases st plat slug (suc keep) >>= k) w)
    unfolding prune_direct_releases prune_listed
    after_prune keep k w h enough next =
        fine_call (λ (o, w'). R (continue o k w')) _ _ _ h
          (rw (not_past enough) (
            after_prune_loop (drop (suc keep) listing) 0 k _ h
              λ n w' en e nf. next n w' (count n en) e nf))
      where
        listing : List Release
        listing = list_releases_by_channel plat.id "direct" w.db

        not_past : suc keep ≤ length listing → ltb (length listing) (suc keep) ≡ false
        not_past le = ground arith

        count : (n : ℕ) → n ≡ 0 + length (drop (suc keep) listing) → suc keep + n ≡ length listing
        count n en = omega (arith, length-drop (suc keep) listing)

module _ (st : Storage) (plat : AppPlatform) (slug : String) (keep : ℕ) (w : World) where
  abbrev before : List Release
  before = list_releases_by_channel plat.id "direct" w.db

  -- What a pruning that goes through has done.
  abbrev Pruned : Outcome ℕ × World → Type 0
  Pruned (o, w') =
      (o ≡ done (length before - suc keep))
      × ((list_releases_by_channel plat.id "direct" w'.db ≡ take (suc keep) before)
          × ((other : ℕ) (channel : String)
              → other ≢ plat.id
              → list_releases_by_channel other channel w'.db
                ≡ list_releases_by_channel other channel w.db))

  direct-Distinct :
      HasUniqueCodes w.db → Distinct code_of (keep_if (on_channel plat.id "direct") w.db.releases)
  direct-Distinct h =
      subst (Distinct code_of)
        (keep_if-keep_if (λ r. r.channel == "direct") (on_platform plat.id) w.db.releases)
        (keep_if-Distinct code_of (λ r. r.channel == "direct") _ (h plat.id))

  prune_direct_releases-Pruned :
      NoFaults w
      → Distinct code_of (keep_if (on_channel plat.id "direct") w.db.releases)
      → suc keep ≤ length before
      → Pruned (prune_direct_releases st plat slug (suc keep) w)
  unfolding list_releases_by_channel
  prune_direct_releases-Pruned h distinct enough =
      on_its_own Pruned (prune_direct_releases st plat slug (suc keep)) w (
        after_prune st plat slug Pruned keep pure w h enough λ n w' en e nf. (
          ap {B = Outcome ℕ} done (omega arith),
          (
            rw e (
                list-others_all plat.id "direct" (drop (suc keep) before) w.db.releases
                ∙ without_all-drop (suc keep) before (sort_desc-IsStrictDesc code_of _ distinct)),
            λ other channel ne. rw e (
                ap (sort_desc code_of) (
                  list-others_all_ne plat.id other channel (drop (suc keep) before) w.db.releases
                    ne)),
          ),
        ))

  -- If no call fails, no platform has two releases of one version code, and the platform has at least
  -- as many direct releases as its positive keep count, pruning keeps exactly that many of the newest
  -- and returns how many it deleted.
  pub prune_direct_releases-take :
      NoFaults w
      → HasUniqueCodes w.db
      → suc keep ≤ length before
      → ((prune_direct_releases st plat slug (suc keep) w).0 ≡ done (length before - suc keep))
        × (list_releases_by_channel plat.id "direct"
              (prune_direct_releases st plat slug (suc keep) w).1.db
            ≡ take (suc keep) before)
  prune_direct_releases-take h distinct enough =
      let p = prune_direct_releases-Pruned h (direct-Distinct distinct) enough in (p.0, p.1.0)

  -- Under the same conditions, pruning leaves every listing of another platform as it was.
  pub prune_direct_releases-others :
      NoFaults w
      → HasUniqueCodes w.db
      → suc keep ≤ length before
      → (other : ℕ) (channel : String) → other ≢ plat.id
      → list_releases_by_channel other channel
          (prune_direct_releases st plat slug (suc keep) w).1.db
        ≡ list_releases_by_channel other channel w.db
  prune_direct_releases-others h distinct enough =
      let p = prune_direct_releases-Pruned h (direct-Distinct distinct) enough in p.1.1

  -- If no call fails and the platform has fewer direct releases than its positive keep count, pruning
  -- panics on the slice bounds instead of keeping them all; the database is as it was.
  pub prune_direct_releases_panics :
      NoFaults w
      → length before < suc keep
      → ((prune_direct_releases st plat slug (suc keep) w).0 ≡ panicked)
        × ((prune_direct_releases st plat slug (suc keep) w).1.db ≡ w.db)
  unfolding prune_direct_releases prune_listed
  prune_direct_releases_panics h few =
      fine_call (λ (o, w'). (o ≡ panicked) × (w'.db ≡ w.db)) _ _ w h (rw (past few) (refl, refl))
    where
      past : length before < suc keep → ltb (length before) (suc keep) ≡ true
      past lt = ground arith
