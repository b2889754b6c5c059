-- ===== src/PlayStatus/Settling.antt =====
-- What `settlePlayStatus` makes of the releases of a platform.
use mathlib.Core.Path.{subst}
use release_hub.Base.{
  ℕ, suc, String, true, false, ◌↔◌, [], some, List, ◌∷◌, ◌==◌, ◌≡◌, refl, sym, any_of, map, eqb,
  inl, inr, Bool-cases,
}
use release_hub.Result.{ok}
use release_hub.Db.{AppPlatform, Release, PlayAccount}
use release_hub.Db.Integrity.{HasUniqueCodes}
use release_hub.Db.Releases.{list_releases}
use release_hub.Db.Config.{play_account_by_id}
use release_hub.Secrets.{decrypt_creds}
use release_hub.Accounts.{play_account_creds}
use release_hub.Play.{new_play_publisher_from_json, new_play_publisher, list_tracks}
use release_hub.World.{World, Outside, Bytes, PlayCall, call, Outcome, done}
use release_hub.World.Calls.{NoFaults, call_fine}
use release_hub.PlayStatus.{
  is_unsettled, settle_all, with_account, with_creds, with_publisher, with_tracks,
  settle_play_status,
}
use release_hub.PlayStatus.Names.{IsAmong}
use release_hub.PlayStatus.Outcome.{Becomes, Becomes-settled}
use release_hub.PlayStatus.Settled.{
  settled, settle_all-Rewrites, map-settled_none, list_releases-updated, list_releases-updated_ne,
}

-- The two lists have the same length, and the elements at each place are related.
unfoldable pub Pairwise : {A : Type 0} → (A → A → Type 0) → List A → List A → Type 0
Pairwise R [] [] = Unit
Pairwise R [] (y ∷ ys) = true ≡ false
Pairwise R (x ∷ xs) [] = true ≡ false
Pairwise R (x ∷ xs) (y ∷ ys) = R x y × Pairwise R xs ys

Pairwise-map :
    {A : Type 0} (R : A → A → Type 0) (f : A → A)
    → ((a : A) → R a (f a))
    → (xs : List A) → Pairwise R xs (map f xs)
unfolding Pairwise
Pairwise-map R f h [] = tt
Pairwise-map R f h (x ∷ xs) = (h x, Pairwise-map R f h xs)

-- What the calls before the settling give where none fails.
module _ (x : Outside) (v : World) (h : NoFaults v) where
  play_account_creds-found :
      (account : ℕ) (acct : PlayAccount) (creds : Bytes)
      → play_account_by_id account v.db ≡ ok acct
      → decrypt_creds x acct.credentials ≡ ok creds
      → play_account_creds x account v ≡ (done (ok creds), record v { tick = suc v.tick })
  unfolding play_account_creds
  play_account_creds-found account acct creds found opened = simp (call_fine _ v h, found, opened)

  new_play_publisher-made :
      (pkg : String) (creds : Bytes) (email : String)
      → (pkg == "") ≡ false
      → x.client_email creds ≡ some email
      → (email == "") ≡ false
      → new_play_publisher x pkg creds v
        ≡ (done (ok tt), record v { tick = suc (suc (suc v.tick)) })
  unfolding new_play_publisher call
  new_play_publisher-made pkg creds email has_name client filled =
      rw has_name (simp (h, call, client, filled))

  new_play_publisher_from_json-made :
      (pkg : String) (creds : Bytes) (n : ℕ)
      → new_play_publisher x pkg creds (record v { tick = suc (suc (suc v.tick)) })
        ≡ (done (ok tt), record v { tick = n })
      → new_play_publisher_from_json x pkg creds v ≡ (done (ok tt), record v { tick = suc n })
  unfolding new_play_publisher_from_json call
  new_play_publisher_from_json-made pkg creds n made = simp (h, call, made)

  list_tracks-now :
      (n : ℕ) × (m : List PlayCall) × (list_tracks x v ≡ (
        done (ok (x.live_tracks (PlayCall.edit_insert ∷ v.play))),
        record v { play = m; tick = n },
      ))
  unfolding list_tracks call
  list_tracks-now = (
    suc (suc (suc v.tick)),
    PlayCall.edit_delete ∷ PlayCall.tracks_list ∷ PlayCall.edit_insert ∷ v.play,
    simp (h, call),
  )

module _ (x : Outside) (order : List String → List String) (plat : AppPlatform) (w : World) where
  abbrev tracks_now : List (String × List String)
  tracks_now = x.live_tracks (PlayCall.edit_insert ∷ w.play)

  abbrev listed : List Release
  listed = list_releases plat.id w.db

  -- The rows of the platform are rewritten, and those of the others are as they were.
  abbrev Rewritten : Outcome (Unit {0}) × World → Type 0
  Rewritten (o, w') =
      (o ≡ done tt)
      × (list_releases plat.id w'.db
          ≡ map (settled x order tracks_now) (list_releases plat.id w.db))
      × ((other : ℕ)
          → eqb other plat.id ≡ false
          → list_releases other w'.db ≡ list_releases other w.db)

  Rewritten-settle_all :
      (later : World)
      → NoFaults later
      → HasUniqueCodes w.db
      → later.db ≡ w.db
      → Rewritten (settle_all x order plat.id tracks_now listed later)
  Rewritten-settle_all later h unique same =
      let (n, e) = settle_all-Rewrites x order tracks_now plat.id listed later h in
      rw (e, same)
        (
          refl,
          list_releases-updated x order tracks_now plat.id w.db unique,
          λ other ne. list_releases-updated_ne x order tracks_now plat.id other listed w.db ne,
        )

  Rewritten-with_account :
      (account : ℕ) (acct : PlayAccount) (creds : Bytes) (email : String)
      → NoFaults w
      → HasUniqueCodes w.db
      → play_account_by_id account w.db ≡ ok acct
      → decrypt_creds x acct.credentials ≡ ok creds
      → (plat.package_name == "") ≡ false
      → x.client_email creds ≡ some email
      → (email == "") ≡ false
      → Rewritten (with_account x order plat listed (some account) w)
  unfolding with_account with_creds with_publisher with_tracks
  Rewritten-with_account account acct creds email h unique found opened has_name client filled =
      let w1 : World = record w { tick = suc w.tick } in
      let made = new_play_publisher_from_json-made x w1 h plat.package_name creds _ (
        new_play_publisher-made x (record w1 { tick = suc (suc (suc w1.tick)) }) h plat.package_name
          creds email has_name client filled) in
      let (m, log, tracks) =
        list_tracks-now x (record w1 { tick = suc (suc (suc (suc (suc (suc (suc w1.tick)))))) })
          h in
      rw (play_account_creds-found x w h account acct creds found opened, made, tracks)
        (Rewritten-settle_all (record w { play = log; tick = m }) h unique refl)

  Rewritten-settle_play_status :
      (account : ℕ) (acct : PlayAccount) (creds : Bytes) (email : String)
      → NoFaults w
      → HasUniqueCodes w.db
      → plat.play_account_id ≡ some account
      → play_account_by_id account w.db ≡ ok acct
      → decrypt_creds x acct.credentials ≡ ok creds
      → (plat.package_name == "") ≡ false
      → x.client_email creds ≡ some email
      → (email == "") ≡ false
      → Rewritten (settle_play_status x order plat (list_releases plat.id w.db) w)
  unfolding settle_play_status
  Rewritten-settle_play_status account acct creds email h unique linked found opened has_name client
        filled =
      elim (Bool-cases (any_of is_unsettled listed)) [
        | inl open_rows ↦ rw open_rows (
            subst (λ o. Rewritten (with_account x order plat listed o w)) (sym linked)
              (Rewritten-with_account account acct creds email h unique found opened has_name client
                filled))
        | inr closed ↦
            rw (closed, map-settled_none x order tracks_now listed closed)
              (refl, refl, λ other ne. refl)
      ]

  -- The settling goes through: each release of the platform becomes what Play's tracks make of it, in
  -- its place in the listing, and the listings of the other platforms are as they were.
  pub record Settles (out : Outcome (Unit {0}) × World) : Type 0 where
    pub finishes : out.0 ≡ done tt
    pub rows :
        Pairwise (Becomes tracks_now) (list_releases plat.id w.db) (list_releases plat.id out.1.db)
    pub others :
        (other : ℕ)
        → eqb other plat.id ≡ false
        → list_releases other out.1.db ≡ list_releases other w.db

  -- If no call fails, no platform has two releases of one version code, the platform's account is
  -- known and opens to a service account's JSON, and Go's iteration over a map gives just its keys,
  -- then the settling goes through. A pending release with a name of its version, "<name> (…", on
  -- the last entry that Play lists for the track of its channel becomes ok with such a name, and with
  -- "<name> (<code>)" if that is there. Every other release of the platform stays as it was, and so
  -- do the listings of the other platforms.
  pub settle_play_status-Settles :
      ((names : List String) (name : String) → IsAmong name (order names) ↔ IsAmong name names)
      → (account : ℕ) (acct : PlayAccount) (creds : Bytes) (email : String) → NoFaults w
      → HasUniqueCodes w.db
      → plat.play_account_id ≡ some account
      → play_account_by_id account w.db ≡ ok acct
      → decrypt_creds x acct.credentials ≡ ok creds
      → (plat.package_name == "") ≡ false
      → x.client_email creds ≡ some email
      → (email == "") ≡ false
      → Settles (settle_play_status x order plat (list_releases plat.id w.db) w)
  settle_play_status-Settles same_names account acct creds email h unique linked found opened
        has_name client filled =
      let (o, rows, others) =
        Rewritten-settle_play_status account acct creds email h unique linked found opened has_name
          client filled in
      record {
        finishes = o;
        rows = subst (Pairwise (Becomes tracks_now) listed) (sym rows) (
            Pairwise-map (Becomes tracks_now) (settled x order tracks_now)
              (Becomes-settled x order same_names tracks_now) listed);
        others = others;
      }
