-- ===== src/PlayStatus/Kept.antt =====
-- What the listing of releases keeps: every invariant of the database.
use release_hub.Base.{any_of, eqb, ℕ, String, Option, none, some, List, [], ◌∷◌}
use release_hub.Result.{Result, ok, err}
use release_hub.Db.{Database, AppPlatform, Release}
use release_hub.Invariant.{
  IsInvariant, Safe, Safe-exec, Safe-bind, Safe-pure, Safe-if, Safe-query, Safe-expect, Safe-answer,
  Safe-platform_from_request, of_database,
}
use release_hub.Storage.{Storage, public_url}
use release_hub.Storage.Kept.{Keeps-public_url}
use release_hub.Request.{Request}
use release_hub.PlayAccounts.Kept.{
  Safe-play_account_creds, Safe-new_play_publisher_from_json, Safe-list_tracks,
}
use release_hub.World.{Outside, Bytes}
use release_hub.PlayStatus.{
  is_unsettled, settle_as, settle_one, settle_all, with_tracks, with_publisher, with_creds,
  with_account, settle_play_status, settle_if_enabled, release_rows, handle_api_releases,
}

module _ (x : Outside) (order : List String → List String) {I : Database → Type 0}
    (inv : IsInvariant I) where
  Safe-settle_as :
      (id : ℕ) (rel : Release) (o : Option String) → Safe I (settle_as x order id rel o)
  unfolding settle_as
  Safe-settle_as id rel none = Safe-pure _
  Safe-settle_as id rel (some name) =
      Safe-bind _ _ (Safe-exec _ (inv.play_settled _ _ _ _ _)) λ _. Safe-pure _

  Safe-settle_all :
      (id : ℕ) (tracks : List (String × List String)) (rels : List Release)
      → Safe I (settle_all x order id tracks rels)
  unfolding settle_all settle_one
  Safe-settle_all id tracks [] = Safe-pure _
  Safe-settle_all id tracks (rel ∷ rels) =
      Safe-bind _ _ (Safe-if _ _ _ (Safe-settle_as id rel _) (Safe-pure _))
        λ _. Safe-settle_all id tracks rels

  Safe-with_tracks :
      (id : ℕ) (rels : List Release) (r : Result (List (String × List String)))
      → Safe I (with_tracks x order id rels r)
  unfolding with_tracks
  Safe-with_tracks id rels (err e) = Safe-pure _
  Safe-with_tracks id rels (ok tracks) = Safe-settle_all id tracks rels

  Safe-with_publisher :
      (id : ℕ) (rels : List Release) (r : Result (Unit {0}))
      → Safe I (with_publisher x order id rels r)
  unfolding with_publisher
  Safe-with_publisher id rels (err e) = Safe-pure _
  Safe-with_publisher id rels (ok _) = Safe-bind _ _ (Safe-list_tracks x) (Safe-with_tracks id rels)

  Safe-with_creds :
      (plat : AppPlatform) (rels : List Release) (r : Result Bytes)
      → Safe I (with_creds x order plat rels r)
  unfolding with_creds
  Safe-with_creds plat rels (err e) = Safe-pure _
  Safe-with_creds plat rels (ok creds) =
      Safe-bind _ _ (Safe-new_play_publisher_from_json x _ creds) (Safe-with_publisher plat.id rels)

  Safe-with_account :
      (plat : AppPlatform) (rels : List Release) (o : Option ℕ)
      → Safe I (with_account x order plat rels o)
  unfolding with_account
  Safe-with_account plat rels none = Safe-pure _
  Safe-with_account plat rels (some account) =
      Safe-bind _ _ (Safe-play_account_creds x account) (Safe-with_creds plat rels)

  Safe-settle_play_status :
      (plat : AppPlatform) (rels : List Release) → Safe I (settle_play_status x order plat rels)
  unfolding settle_play_status
  Safe-settle_play_status plat rels =
      Safe-if (any_of is_unsettled rels) _ _ (Safe-with_account plat rels plat.play_account_id)
        (Safe-pure _)

  pub Safe-settle_if_enabled :
      (plat : AppPlatform) (rels : List Release) → Safe I (settle_if_enabled x order plat rels)
  unfolding settle_if_enabled
  Safe-settle_if_enabled plat rels =
      Safe-if (eqb plat.play_enabled 1) _ _ (Safe-settle_play_status plat rels) (Safe-pure _)

  module _ (st : Storage) where
    Safe-public_url : (key : String) → Safe I (public_url x st key)
    Safe-public_url key = record { kept = Keeps-public_url (of_database I) x st key }

    Safe-release_rows :
        (slug : String) (plat : AppPlatform) (rels : List Release)
        → Safe I (release_rows x order st slug plat rels)
    unfolding release_rows
    Safe-release_rows slug plat [] = Safe-pure _
    Safe-release_rows slug plat (rel ∷ rels) =
        Safe-bind _ _ (Safe-public_url _)
          λ located. Safe-bind _ _ (Safe-release_rows slug plat rels) λ more. Safe-pure _

    pub Safe-handle_api_releases : (r : Request) → Safe I (handle_api_releases x order st r)
    unfolding handle_api_releases
    Safe-handle_api_releases r = Safe-bind _ _ (Safe-platform_from_request r _) λ plat.
        Safe-bind _ _ (Safe-query _) λ found. Safe-bind _ _ (Safe-expect _ found) λ rels.
          Safe-bind _ _ (Safe-settle_if_enabled plat rels)
            λ _. Safe-bind _ _ (Safe-release_rows _ plat rels) λ out. Safe-answer _
