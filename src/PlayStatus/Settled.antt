-- ===== src/PlayStatus/Settled.antt =====
-- The rows of a platform while `settlePlayStatus` settles them one by one.
use mathlib.Core.List.{map-map, map-id}
use release_hub.Base.{
  ℕ, suc, String, true, false, Option, none, some, List, [], ◌∷◌, ◌==◌, ◌≡◌, refl, ◌∙◌, ap, arith,
  All, any_of, keep_if, map, eqb, eqb_iff, if◌then◌else◌, inl, inr, Bool-cases, Option-cases,
}
use release_hub.Base.Int.{pos}
use release_hub.Db.{Release, Database}
use release_hub.Db.Order.{Distinct, sort_desc, sort_desc-map, sort_desc-All, sort_desc-Distinct}
use release_hub.Db.Integrity.{HasUniqueCodes}
use release_hub.Db.Releases.{
  code_of, on_platform, is_release, list_releases, with_play_status, set_play_status,
}
use release_hub.World.{World, Outside, call, Outcome, done}
use release_hub.World.Calls.{NoFaults}
use release_hub.Channel.{track_for}
use release_hub.PlayStatus.{is_unsettled, matched_in, settle_as, settle_one, settle_all}

-- the release with the name under which Play has it
abbrev pub settled_as : Release → Option String → Release
settled_as rel none = rel
settled_as rel (some name) = with_play_status "ok" "" name rel

map-same : {A : Type 0} (f : A → A) (xs : List A) → ((a : A) → f a ≡ a) → map f xs ≡ xs
map-same f [] h = refl
map-same f (a ∷ xs) h = rw (h a, map-same f xs h) refl

module _ (x : Outside) (order : List String → List String)
    (tracks : List (String × List String)) where
  -- the name under which Play has a pending release, if it has
  unfoldable pub found_name : Release → Option String
  unfolding matched_in
  found_name rel =
      if rel.play_status == "pending"
      then matched_in x order rel (track_for rel.channel) tracks
      else none

  -- A pending release whose name, or whose version, is on the track of its channel is settled.
  unfoldable pub settled : Release → Release
  unfolding found_name matched_in
  settled rel = settled_as rel (found_name rel)

  update_as : ℕ → Release → Option String → Release → Release
  update_as id rel o r = if is_release id (pos rel.version_code) r then settled_as r o else r

  pub updates : ℕ → List Release → Release → Release
  updates id [] r = r
  updates id (rel ∷ rels) r = updates id rels (update_as id rel (found_name rel) r)

  update_as-none : (id : ℕ) (rel r : Release) → update_as id rel none r ≡ r
  unfolding update_as
  update_as-none id rel r = ground arith

  -- the world after the rows have changed so, at some number of calls
  abbrev pub Rewrites : (Release → Release) → World → Outcome (Unit {0}) × World → Type 0
  Rewrites f w p =
      (n : ℕ) × (p
        ≡ (done tt, record w { db = record w.db { releases = map f w.db.releases }; tick = n }))

  settle_as-Rewrites :
      (id : ℕ) (rel : Release) (o : Option String) (w : World)
      → NoFaults w
      → Rewrites (update_as id rel o) w (settle_as x order id rel o w)
  unfolding settle_as set_play_status call
  settle_as-Rewrites id rel none w h =
      (w.tick, rw (map-same (update_as id rel none) w.db.releases (update_as-none id rel)) refl)
  settle_as-Rewrites id rel (some name) w h =
      (suc w.tick, unfold update_as in rw (h w.tick, call) refl)

  settle_one-Rewrites :
      (id : ℕ) (rel : Release) (w : World)
      → NoFaults w
      → Rewrites (update_as id rel (found_name rel)) w (settle_one x order id tracks rel w)
  unfolding settle_one found_name settle_as
  settle_one-Rewrites id rel w h = elim (Bool-cases (rel.play_status == "pending")) [
    | inl pending ↦ rw pending (settle_as-Rewrites id rel _ w h)
    | inr other ↦ rw other (settle_as-Rewrites id rel none w h)
  ]

  pub settle_all-Rewrites :
      (id : ℕ) (rels : List Release) (w : World)
      → NoFaults w
      → Rewrites (updates id rels) w (settle_all x order id tracks rels w)
  unfolding settle_all updates
  settle_all-Rewrites id [] w h = (w.tick, rw (map-id w.db.releases) refl)
  settle_all-Rewrites id (rel ∷ rels) w h =
      let (n, one) = settle_one-Rewrites id rel w h in
      let (m, all) =
        settle_all-Rewrites id rels
          (record w {
            db = record w.db { releases = map (update_as id rel (found_name rel)) w.db.releases };
            tick = n;
          })
          h in
      (m, rw (one, all, map-map) refl)

  -- the updates of the rows of one platform
  module _ (id : ℕ) where
    update_as-kept :
        (rel r : Release) (o : Option String)
        → ((update_as id rel o r).version_code ≡ r.version_code)
          × ((update_as id rel o r).app_platform_id ≡ r.app_platform_id)
    unfolding update_as
    update_as-kept rel r none = ground arith
    update_as-kept rel r (some name) = ground arith

    updates-kept :
        (rels : List Release) (r : Release)
        → ((updates id rels r).version_code ≡ r.version_code)
          × ((updates id rels r).app_platform_id ≡ r.app_platform_id)
    unfolding updates
    updates-kept [] r = (refl, refl)
    updates-kept (rel ∷ rels) r =
        let (code, plat) = updates-kept rels (update_as id rel (found_name rel) r) in
        let (code', plat') = update_as-kept rel r (found_name rel) in (code ∙ code', plat ∙ plat')

    -- rows of another platform
    updates-other :
        (rels : List Release) (r : Release)
        → eqb r.app_platform_id id ≡ false
        → updates id rels r ≡ r
    unfolding updates update_as
    updates-other [] r h = refl
    updates-other (rel ∷ rels) r h = rw h (updates-other rels r h)

    update_as-apart :
        (rel r : Release) (o : Option String)
        → eqb (code_of rel) (code_of r) ≡ false
        → update_as id rel o r ≡ r
    unfolding update_as
    update_as-apart rel r o h = ground arith

    update_as-apart' :
        (rel r : Release) (o : Option String)
        → eqb (code_of r) (code_of rel) ≡ false
        → update_as id rel o r ≡ r
    unfolding update_as
    update_as-apart' rel r o h = ground arith

    -- a row whose code is none of those
    updates-apart :
        (rels : List Release) (r : Release)
        → All (λ y. eqb (code_of y) (code_of r) ≡ false) rels
        → updates id rels r ≡ r
    unfolding updates update_as
    updates-apart [] r h = refl
    updates-apart (rel ∷ rels) r (hr, h) =
        rw (update_as-apart rel r (found_name rel) hr) (updates-apart rels r h)

    settled_as-code : (r : Release) (o : Option String) → code_of (settled_as r o) ≡ code_of r
    settled_as-code r none = refl
    settled_as-code r (some name) = refl

    update_as-itself :
        (r : Release) (o : Option String)
        → eqb r.app_platform_id id ≡ true
        → update_as id r o r ≡ settled_as r o
    unfolding update_as
    update_as-itself r o h = rw (h, (eqb_iff r.version_code r.version_code).1 refl) refl

    -- the first row is settled by its own update only
    updates-first :
        (r : Release) (rs : List Release)
        → eqb r.app_platform_id id ≡ true
        → All (λ y. eqb (code_of y) (code_of r) ≡ false) rs
        → updates id (r ∷ rs) r ≡ settled r
    unfolding updates settled
    updates-first r rs h apart =
        ap (updates id rs) (update_as-itself r (found_name r) h)
        ∙ updates-apart rs (settled_as r (found_name r))
            (rw (settled_as-code r (found_name r)) apart)

    -- its update leaves the others alone
    updates-skip :
        (r : Release) (rs ys : List Release)
        → All (λ y. eqb (code_of y) (code_of r) ≡ false) ys
        → map (updates id (r ∷ rs)) ys ≡ map (updates id rs) ys
    unfolding updates
    updates-skip r rs [] h = refl
    updates-skip r rs (y ∷ ys) (hy, h) =
        rw (update_as-apart' r y (found_name r) hy, updates-skip r rs ys h) refl

    map-updates :
        (rs : List Release)
        → All (λ r. eqb r.app_platform_id id ≡ true) rs
        → Distinct code_of rs
        → map (updates id rs) rs ≡ map settled rs
    map-updates [] here apart = refl
    map-updates (r ∷ rs) (hr, here) (ar, apart) =
        rw (updates-first r rs hr ar, updates-skip r rs rs ar, map-updates rs here apart) refl

    keep_if-updates :
        (other : ℕ) (rels rows : List Release)
        → keep_if (on_platform other) (map (updates id rels) rows)
          ≡ map (updates id rels) (keep_if (on_platform other) rows)
    unfolding keep_if
    keep_if-updates other rels [] = refl
    keep_if-updates other rels (r ∷ rows) =
        ground (arith, updates-kept rels r, keep_if-updates other rels rows)

    on_this :
        (rows : List Release)
        → All (λ r. eqb r.app_platform_id id ≡ true) (keep_if (on_platform id) rows)
    unfolding keep_if
    on_this [] = tt
    on_this (r ∷ rows) = elim (Bool-cases (on_platform id r)) [
      | inl here ↦ rw here (here, on_this rows)
      | inr elsewhere ↦ rw elsewhere (on_this rows)
    ]

    abbrev pub updated : List Release → Database → Database
    updated rels db = record db { releases = map (updates id rels) db.releases }

    pub list_releases-updated :
        (db : Database)
        → HasUniqueCodes db
        → list_releases id (updated (list_releases id db) db) ≡ map settled (list_releases id db)
    unfolding list_releases
    list_releases-updated db unique =
        let rows = keep_if (on_platform id) db.releases in
        let rels = sort_desc code_of rows in
        ap (sort_desc code_of) (keep_if-updates id rels db.releases)
        ∙ sort_desc-map code_of (updates id rels) (λ r. (updates-kept rels r).0) rows
        ∙ map-updates rels
            (sort_desc-All code_of (λ r. eqb r.app_platform_id id ≡ true) rows
              (on_this db.releases))
            (sort_desc-Distinct code_of rows (unique id))

    keep_if-updates_ne :
        (other : ℕ) (rels rows : List Release)
        → eqb other id ≡ false
        → keep_if (on_platform other) (map (updates id rels) rows)
          ≡ keep_if (on_platform other) rows
    unfolding keep_if
    keep_if-updates_ne other rels [] ne = refl
    keep_if-updates_ne other rels (r ∷ rows) ne = elim (Bool-cases (on_platform other r)) [
      | inl here ↦
          let same = updates-other rels r (ground arith) in
          rw (same, here, keep_if-updates_ne other rels rows ne) refl
      | inr elsewhere ↦
          rw ((updates-kept rels r).1, elsewhere) (keep_if-updates_ne other rels rows ne)
    ]

    pub list_releases-updated_ne :
        (other : ℕ) (rels : List Release) (db : Database)
        → eqb other id ≡ false
        → list_releases other (updated rels db) ≡ list_releases other db
    unfolding list_releases
    list_releases-updated_ne other rels db ne =
        ap (sort_desc code_of) (keep_if-updates_ne other rels db.releases ne)

  found_name-none : (r : Release) → is_unsettled r ≡ false → found_name r ≡ none
  unfolding found_name is_unsettled matched_in
  found_name-none r h = elim (Bool-cases (r.play_status == "pending")) [
    | inl pending ↦ elim (Option-cases (track_for r.channel)) [
      | inl no_track ↦ rw (pending, no_track) refl
      | inr (track, e) ↦ cc (rw (pending, e) at h)
    ]
    | inr other ↦ rw other refl
  ]

  -- where nothing is open, nothing is settled
  pub map-settled_none :
      (rels : List Release) → any_of is_unsettled rels ≡ false → map settled rels ≡ rels
  unfolding any_of settled
  map-settled_none [] h = refl
  map-settled_none (r ∷ rels) h =
      rw (found_name-none r (ground (arith, h)), map-settled_none rels (ground (arith, h))) refl
