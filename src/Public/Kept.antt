-- ===== src/Public/Kept.antt =====
-- What the public endpoints keep: every invariant of the database.
use release_hub.Base.{String, List, [], ◌∷◌}
use release_hub.Result.{Result, ok, err}
use release_hub.Db.{Database, AppPlatform, Release}
use release_hub.Invariant.{
  Safe, Safe-bind, Safe-pure, Safe-expect, Safe-answer, of_database, safe_rules,
}
use release_hub.Storage.{Storage, local, s3}
use release_hub.Storage.Kept.{Keeps-public_url, Keeps-open_file}
use release_hub.Request.{Request}
use release_hub.World.{Outside, Bytes}
use release_hub.Public.{
  first_release, newest, release_url, handle_manifest, redirect_to_newest, download,
  handle_get_release, served, serve, handle_artifact,
}

module _ {I : Database → Type 0} where
  Safe-first_release :
      (channel : String) (rels : List Release) → Safe I (first_release channel rels)
  unfolding first_release
  Safe-first_release channel [] = Safe-answer _
  Safe-first_release channel (rel ∷ rels) = Safe-pure _

  Safe-newest : (plat : AppPlatform) (channel : String) → Safe I (newest plat channel)
  unfolding newest
  Safe-newest plat channel = search (safe_rules, Safe-first_release) depth 24

module _ (x : Outside) (st : Storage) {I : Database → Type 0} where
  Safe-release_url :
      (plat : AppPlatform) (slug : String) (rel : Release) → Safe I (release_url x st plat slug rel)
  unfolding release_url
  Safe-release_url plat slug rel =
      Safe-bind _ _ (record { kept = Keeps-public_url (of_database I) x st _ }) (Safe-expect _)

  pub Safe-handle_manifest : (r : Request) → Safe I (handle_manifest x st r)
  unfolding handle_manifest
  Safe-handle_manifest r = search (safe_rules, Safe-newest, Safe-release_url) depth 24

  Safe-download :
      (plat : AppPlatform) (slug channel : String) → Safe I (download x st plat slug channel)
  unfolding download redirect_to_newest
  Safe-download plat slug channel = search (safe_rules, Safe-newest, Safe-release_url) depth 24

  pub Safe-handle_get_release : (r : Request) → Safe I (handle_get_release x st r)
  unfolding handle_get_release
  Safe-handle_get_release r = search (safe_rules, Safe-download) depth 24

  Safe-served : (r : Result Bytes) → Safe I (served x st r)
  unfolding served
  Safe-served (err e) = Safe-answer _
  Safe-served (ok bytes) = Safe-pure _

  Safe-serve : (key : String) (store : Storage) → Safe I (serve x st key store)
  unfolding serve
  Safe-serve key (s3 s) =
      Safe-bind _ _ (record { kept = Keeps-public_url (of_database I) x (s3 s) key })
        λ located. Safe-bind _ _ (Safe-expect _ located) λ url. Safe-answer _
  Safe-serve key (local l) =
      Safe-bind _ _ (record { kept = Keeps-open_file (of_database I) (local l) key }) Safe-served

  pub Safe-handle_artifact : (r : Request) → Safe I (handle_artifact x st r)
  unfolding handle_artifact
  Safe-handle_artifact r = Safe-serve _ st
