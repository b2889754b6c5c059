-- ===== src/Play/Kept.antt =====
-- What the calls to Play leave alone: whatever does not depend on the log and the number of calls.
use release_hub.Base.{ℕ, suc, String, Bool, true, false, List, Option, none, some}
use release_hub.Result.{GoError, Result, ok, err}
use release_hub.World.{World, Bytes, Outside, Response, PlayCall, M, call, unchanged, as_it_is}
use release_hub.World.Calls.{
  Keeps, Keeps-call, Keeps-pure, Keeps-bind, Keeps-attempt, Keeps-if, keeps_rules,
}
use release_hub.Play.{
  play_call, logged, with_edit, new_play_publisher, new_play_publisher_from_json, list_tracks,
  created_track, found_or_refused, create_track, ensure_track, ensure_closed_track, give_testers,
  release_bundle, publish_on, resolve_track, publish_to, publish, set_testers, preflight,
}

-- A predicate that the passing of a call and a line of Play's log do not touch.
pub record IsApart (P : World → Type 0) : Type 0 where
  pub ticked : (w : World) → P w → P (record w { tick = suc w.tick })
  pub logged_too : (c : PlayCall) (w : World) → P w → P (record (logged c w) { tick = suc w.tick })

module _ (x : Outside) {P : World → Type 0} {E : Response → World → Type 0} (ap : IsApart P) where
  pub Keeps-unchanged : Keeps P P E (call unchanged)
  Keeps-unchanged = Keeps-call unchanged ap.ticked ap.ticked

  pub Keeps-play_call : (c : PlayCall) → Keeps P P E (play_call c)
  Keeps-play_call c = Keeps-call _ (ap.logged_too c) ap.ticked

  pub Keeps-with_edit :
      {A : Type 0} (wrapped : GoError → GoError) (body : M (Result A))
      → Keeps P P E body
      → Keeps P P E (with_edit x wrapped body)
  unfolding with_edit
  Keeps-with_edit wrapped body kb =
      Keeps-attempt _ wrapped _ (Keeps-play_call PlayCall.edit_insert) λ _.
        Keeps-bind body _ kb λ r.
          Keeps-bind (play_call PlayCall.edit_delete) _ (Keeps-play_call PlayCall.edit_delete)
            λ _. Keeps-pure r

  pub Keeps-list_tracks : Keeps P P E (list_tracks x)
  unfolding list_tracks
  Keeps-list_tracks = Keeps-with_edit _ _ (
      Keeps-attempt _ _ _ (Keeps-call _ (ap.logged_too PlayCall.tracks_list) ap.ticked)
        λ tracks. Keeps-pure _)

  Keeps-found_or_refused :
      (track : String) (e : GoError) (b : Bool) → Keeps P P E (found_or_refused x track e b)
  unfolding found_or_refused
  Keeps-found_or_refused track e true = Keeps-pure _
  Keeps-found_or_refused track e false = Keeps-pure _

  Keeps-created_track :
      (track : String) (r : Result (Unit {0})) → Keeps P P E (created_track x track r)
  unfolding created_track
  Keeps-created_track track (ok _) = search (keeps_rules, Keeps-play_call)
  Keeps-created_track track (err e) =
      search (keeps_rules, Keeps-list_tracks, Keeps-found_or_refused)

  Keeps-create_track : (track : String) → Keeps P P E (create_track x track)
  unfolding create_track
  Keeps-create_track track = Keeps-with_edit _ _ (
      Keeps-bind (play_call (PlayCall.track_create track)) _ (Keeps-play_call _)
        (Keeps-created_track track))

  Keeps-ensure_track :
      (channel : String) (t : Option String) → Keeps P P E (ensure_track x channel t)
  unfolding ensure_track
  Keeps-ensure_track channel none = Keeps-pure _
  Keeps-ensure_track channel (some track) =
      Keeps-attempt _ as_it_is _ Keeps-list_tracks
        λ existing. Keeps-if _ _ _ (Keeps-pure _) (Keeps-create_track track)

  pub Keeps-ensure_closed_track : (channel : String) → Keeps P P E (ensure_closed_track x channel)
  unfolding ensure_closed_track
  Keeps-ensure_closed_track channel = Keeps-ensure_track channel _

  Keeps-give_testers :
      (channel track : String) (testers : List String)
      → Keeps P P E (give_testers x channel track testers)
  unfolding give_testers
  Keeps-give_testers channel track testers = Keeps-if _ _ _ (Keeps-pure _) (
      Keeps-attempt _ _ _ (Keeps-play_call (PlayCall.testers_update track testers))
        λ _. Keeps-pure _)

  Keeps-release_bundle :
      (channel track version_name notes : String) (testers : List String) (bundle : ℕ)
      → Keeps P P E (release_bundle x channel track version_name notes testers bundle)
  unfolding release_bundle
  Keeps-release_bundle channel track version_name notes testers bundle =
      Keeps-attempt _ _ _ (Keeps-play_call _) λ _.
        Keeps-attempt _ as_it_is _ (Keeps-give_testers channel track testers)
          λ _. Keeps-attempt _ _ _ (Keeps-play_call PlayCall.edit_commit) λ _. Keeps-pure _

  Keeps-publish_on :
      (channel track : String) (bytes : Bytes) (version_name notes : String) (testers : List String)
      → Keeps P P E (publish_on x channel track bytes version_name notes testers)
  unfolding publish_on
  Keeps-publish_on channel track bytes version_name notes testers = Keeps-with_edit _ _ (
      Keeps-attempt _ as_it_is _ Keeps-unchanged λ _.
        Keeps-attempt _ _ _ (Keeps-call _ (ap.logged_too (PlayCall.bundle_upload bytes)) ap.ticked)
          λ bundle. Keeps-release_bundle channel track version_name notes testers bundle)

  Keeps-resolve_track : (channel track : String) → Keeps P P E (resolve_track x channel track)
  unfolding resolve_track
  Keeps-resolve_track channel track =
      Keeps-if _ _ _ (Keeps-ensure_closed_track channel) (Keeps-pure _)

  Keeps-publish_to :
      (t : Option String) (path : String) (bytes : Bytes) (channel version_name notes : String)
      (testers : List String)
      → Keeps P P E (publish_to x t path bytes channel version_name notes testers)
  unfolding publish_to
  Keeps-publish_to none path bytes channel version_name notes testers = Keeps-pure _
  Keeps-publish_to (some track) path bytes channel version_name notes testers =
      Keeps-if _ _ _ (Keeps-pure _) (
        Keeps-attempt _ as_it_is _ (Keeps-resolve_track channel track)
          λ found. Keeps-publish_on channel found bytes version_name notes testers)

  pub Keeps-publish :
      (path : String) (bytes : Bytes) (channel version_name notes : String) (testers : List String)
      → Keeps P P E (publish x path bytes channel version_name notes testers)
  unfolding publish
  Keeps-publish path bytes channel version_name notes testers =
      Keeps-publish_to _ path bytes channel _ _ _

  Keeps-new_play_publisher :
      (pkg : String) (creds : Bytes) → Keeps P P E (new_play_publisher x pkg creds)
  unfolding new_play_publisher
  Keeps-new_play_publisher pkg creds = Keeps-if _ _ _ (Keeps-pure _) (
      Keeps-attempt _ _ _ Keeps-unchanged λ _.
        Keeps-attempt _ _ _ Keeps-unchanged λ _.
          Keeps-if _ _ _ (Keeps-pure _) (Keeps-attempt _ _ _ Keeps-unchanged λ _. Keeps-pure _))

  pub Keeps-new_play_publisher_from_json :
      (pkg : String) (creds : Bytes) → Keeps P P E (new_play_publisher_from_json x pkg creds)
  unfolding new_play_publisher_from_json
  Keeps-new_play_publisher_from_json pkg creds = Keeps-attempt _ as_it_is _ Keeps-unchanged λ _.
      Keeps-bind _ _
        (Keeps-attempt _ as_it_is _ Keeps-unchanged
          λ _. Keeps-attempt _ as_it_is _ Keeps-unchanged λ _. Keeps-new_play_publisher pkg creds)
        λ made. Keeps-bind _ _ Keeps-unchanged λ _. Keeps-pure made

  pub Keeps-set_testers :
      (track : String) (groups : List String) → Keeps P P E (set_testers x track groups)
  unfolding set_testers
  Keeps-set_testers track groups = Keeps-with_edit _ _ (
      Keeps-attempt _ _ _ (Keeps-play_call _)
        λ _. Keeps-attempt _ _ _ (Keeps-play_call _) λ _. Keeps-pure _)

  pub Keeps-preflight : Keeps P P E (preflight x)
  unfolding preflight
  Keeps-preflight = Keeps-attempt _ _ _ (Keeps-play_call _) λ _. Keeps-play_call _
