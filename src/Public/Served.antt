-- ===== src/Public/Served.antt =====
-- What devices are told after a whole upload.
use mathlib.Core.Path.{subst}
use release_hub.Base.{
  ◌+++◌, ℕ, suc, ◌<◌, ◌||◌, String, true, List, [], ◌∷◌, ◌++◌, ◌≡◌, refl, sym, ◌∙◌, ◌==◌, All,
}
use release_hub.Result.{ok}
use release_hub.Db.{Release}
use release_hub.Db.Apps.{platform_by_slug_and_platform}
use release_hub.Db.Releases.{latest_release_for_channel, max_version_code, code_of}
use release_hub.Db.Releases.Greatest.{All-max_version_code}
use release_hub.Db.Releases.Newest.{
  IsNewest, row_now, latest-IsNewest, drop-IsBelow, set_play_status-IsNewest,
  delete_release_row-IsNewest,
}
use release_hub.Platform.{platform_from_request, platform_name, non_empty_or}
use release_hub.Request.{Request, path_value, query_value}
use release_hub.Retention.Kept.{OutlivesAll, Keeps-prune_outlived}
use release_hub.Retention.{artifact_key}
use release_hub.Storage.{LocalStorage, local, public_url, trim_slash}
use release_hub.Storage.Kept.{IsOfDb}
use release_hub.World.{World, Outcome, Outside, done, answered, call}
use release_hub.World.Calls.{NoFaults, Keeps, Ends-kept}
use release_hub.Upload.{
  file_name_of, Accepted, new_release, accept, store_release, announce, handle_api_upload,
}
use release_hub.Upload.Guards.{accept-above}
use release_hub.Upload.Kept.{IsOfOutcomes, Keeps-announce_with}
use release_hub.Upload.Stored.{RowWithArtifact, store_release-RowWithArtifact}
use release_hub.Public.{handle_manifest, newest, first_release, release_url, manifest_of}

module _ (x : Outside) (l : LocalStorage) (a : Accepted) (stored : ℕ × String) where
  abbrev row : Release
  row = new_release a stored.0 stored.1

  -- the manifest of a stored release
  abbrev pub uploaded : String → Outcome (Unit {0})
  uploaded slug = answered (
      manifest_of row (
        trim_slash l.base_url
        +++ ("/artifacts/" +++ artifact_key slug a.plat.platform (file_name_of a))))

  abbrev Stands : World → Type 0
  Stands w = IsNewest row w.db

  of_db : IsOfDb Stands
  of_db = record { carry = λ w w' e h. subst (IsNewest row) (sym e) h }

  of_outcomes : IsOfOutcomes Stands (λ r. Stands)
  of_outcomes = record {
    of_db = of_db;
    settled = λ status error name id code w h.
        set_play_status-IsNewest row w.db h status error name id code;
    failed = λ text w h. h;
    created_answer = λ fields w h. h;
  }

  outlives :
      (rels : List Release)
      → All (λ q. code_of q < code_of row) rels
      → OutlivesAll Stands a.plat.id rels
  outlives [] h = tt
  outlives (q ∷ rels) (hq, h) =
      (λ w s. delete_release_row-IsNewest row w.db s a.plat.id q.version_code hq, outlives rels h)

  -- nothing that follows the storing takes the release from its place
  Keeps-Stands : Keeps Stands Stands (λ r. Stands) (announce x (local l) a stored)
  Keeps-Stands = Keeps-announce_with of_outcomes x (local l) a stored (
      Keeps-prune_outlived of_db (local l) a.plat a.slug
        (λ keep w h. outlives _ (drop-IsBelow row w.db h keep "direct")))

  Stands-stored :
      (w w' : World)
      → max_version_code a.plat.id w.db < a.code
      → w'.db ≡ record w.db { releases = w.db.releases ++ row ∷ [] }
      → Stands w'
  Stands-stored w w' above e = subst (IsNewest row) (sym e) (record {
    older = w.db.releases;
    status = row.play_status;
    error = row.play_error;
    name = row.play_release;
    stands = refl;
    below = All-max_version_code a.plat.id a.code w.db above;
  })

  Stands-store_release :
      (w : World)
      → max_version_code a.plat.id w.db < a.code
      → (store_release x (local l) a w).0 ≡ done stored
      → Stands (store_release x (local l) a w).1
  Stands-store_release w above e =
      let w1 = (store_release x (local l) a w).1 in
      let kept : RowWithArtifact x l a w (done stored, w1) =
        subst (λ o. RowWithArtifact x l a w (o, w1)) e (store_release-RowWithArtifact x l a w) in
      Stands-stored w w1 above kept.1.1.0

  Stands-announced :
      (w : World)
      → max_version_code a.plat.id w.db < a.code
      → (store_release x (local l) a w).0 ≡ done stored
      → Stands (announce x (local l) a stored (store_release x (local l) a w).1).1
  Stands-announced w above e =
      Ends-kept Stands (announce x (local l) a stored (store_release x (local l) a w).1)
        (Keeps-Stands.at (store_release x (local l) a w).1 (Stands-store_release w above e))

  handle_manifest-Stands :
      (r : Request) (later : World)
      → IsNewest row later.db
      → NoFaults later
      → (platform_name r == "android" || platform_name r == "ios") ≡ true
      → platform_by_slug_and_platform (path_value "slug" r) (platform_name r) later.db ≡ ok a.plat
      → non_empty_or (query_value "channel" r) "direct" ≡ a.channel
      → (handle_manifest x (local l) r later).0 ≡ uploaded (path_value "slug" r)
  unfolding handle_manifest platform_from_request newest first_release release_url public_url call
  handle_manifest-Stands r later n h valid found channel =
      rw (valid, h later.tick, found, h (suc later.tick), listed) refl
    where
      listed :
          latest_release_for_channel a.plat.id
            (non_empty_or (query_value "channel" r) "direct")
            later.db
          ≡ row_now n ∷ []
      listed = rw channel (latest-IsNewest row later.db n)

  -- A release that was stored with a code above the latest of its platform is what the manifest
  -- answers next, when the rows are as the storing left them and no call fails.
  handle_manifest-store_release :
      (w : World)
      → max_version_code a.plat.id w.db < a.code
      → (store_release x (local l) a w).0 ≡ done stored
      → (r : Request) (later : World) → later.db ≡ (store_release x (local l) a w).1.db
      → NoFaults later
      → (platform_name r == "android" || platform_name r == "ios") ≡ true
      → platform_by_slug_and_platform (path_value "slug" r) (platform_name r) later.db ≡ ok a.plat
      → non_empty_or (query_value "channel" r) "direct" ≡ a.channel
      → (handle_manifest x (local l) r later).0 ≡ uploaded (path_value "slug" r)
  handle_manifest-store_release w above e r later same =
      handle_manifest-Stands r later
        (of_db.carry (store_release x (local l) a w).1 later same (Stands-store_release w above e))

module _ (x : Outside) (l : LocalStorage) (upload : Request) (w : World) (a : Accepted)
    (stored : ℕ × String) where
  -- If an upload passes its guards and its release is stored on the local store, then however it ends
  -- after that, with whatever answer or a panic, and whatever calls failed in it, the push to Play and
  -- the pruning included: as long as the rows are as then, a request that names the platform and the
  -- release's channel and in which no call fails is answered with 200, the release's version, hash and
  -- size, and the link to its artifact.
  pub handle_manifest-handle_api_upload :
      (accept upload w).0 ≡ done a
      → (store_release x (local l) a (accept upload w).1).0 ≡ done stored
      → (r : Request) (later : World) → later.db ≡ (handle_api_upload x (local l) upload w).1.db
      → NoFaults later
      → (platform_name r == "android" || platform_name r == "ios") ≡ true
      → platform_by_slug_and_platform (path_value "slug" r) (platform_name r) later.db ≡ ok a.plat
      → non_empty_or (query_value "channel" r) "direct" ≡ a.channel
      → (handle_manifest x (local l) r later).0 ≡ uploaded x l a stored (path_value "slug" r)
  unfolding handle_api_upload
  handle_manifest-handle_api_upload accepts stores r later same =
      handle_manifest-Stands x l a stored r later (
        subst (IsNewest _) (sym (same ∙ rw (accepts, stores) refl)) (
          Stands-announced x l a stored (accept upload w).1 (accept-above upload w a accepts)
            stores))
