-- ===== src/Play.antt =====
-- srv/play.go: publishing through the Android Publisher API.
pub mod Errors
pub mod Kept
pub mod Released
use release_hub.Base.{
  ℕ, String, Bool, not, ◌||◌, ◌&&◌, List, [], ◌∷◌, Option, none, some, ◌==◌, ◌+++◌, any_of,
  if◌then◌else◌, leb, length,
}
use release_hub.Text.{ends_with}
use release_hub.Text.Number.{decimal}
use release_hub.Channel.{track_for, track_is_closed}
use release_hub.Result.{GoError, failure, Result, ok, err}
use release_hub.Play.Errors.{classify_play_error}
use release_hub.World.{
  World, Outside, Bytes, PlayCall, M, ◌>>=◌, ◌>>◌, pure, call, unchanged, attempt, or_return,
  as_it_is, behind,
}

-- A call of the API that Play answers is logged.
abbrev pub logged : PlayCall → World → World
logged c w = record w { play = c ∷ w.play }

abbrev pub play_call : PlayCall → M (Result (Unit {0}))
play_call c = call (λ w. (ok tt, logged c w))

module _ (x : Outside) where
  abbrev pub classified : String → GoError → GoError
  classified text e = behind text (classify_play_error x e)

  -- An edit, discarded on every way out by the deferred delete.
  pub with_edit : {A : Type 0} → (GoError → GoError) → M (Result A) → M (Result A)
  with_edit wrapped body =
      attempt (play_call PlayCall.edit_insert) wrapped
        λ _. do r ← body; play_call PlayCall.edit_delete; pure r

  no_email : Option String → Bool
  no_email none = Bool.true
  no_email (some email) = email == ""

  -- `NewPlayPublisher`: the checks of the package and of the credentials file, and the client
  unfoldable pub new_play_publisher : String → Bytes → M (Result (Unit {0}))
  unfolding no_email
  new_play_publisher pkg creds =
      if pkg == ""
      then pure (err (failure "play: packageName required"))
      else attempt (call unchanged) (behind "play: credentials file: ") λ _.
        attempt (call unchanged) (behind "play: read credentials: ") λ _.
          if no_email (x.client_email creds)
          then pure (err (failure "play: credentials file is not a service-account JSON"))
          else call unchanged >>= λ r.
              or_return (behind "play: create client: ") r λ _. pure (ok tt)

  -- the temporary file's creation, writing and closing; its removal is deferred
  unfoldable pub new_play_publisher_from_json : String → Bytes → M (Result (Unit {0}))
  unfolding new_play_publisher
  new_play_publisher_from_json pkg creds = attempt (call unchanged) as_it_is λ _. do
    made ←
        attempt (call unchanged) as_it_is
          λ _. attempt (call unchanged) as_it_is λ _. new_play_publisher pkg creds
    call unchanged
    pure made

  -- `Preflight`
  unfoldable pub preflight : M (Result (Unit {0}))
  preflight =
      attempt (play_call PlayCall.edit_insert) (classify_play_error x)
        λ _. play_call PlayCall.edit_delete

  -- `ListTracks`
  unfoldable pub list_tracks : M (Result (List (String × List String)))
  unfolding with_edit
  list_tracks = with_edit (classified "play: open edit: ") (
      attempt (call (λ w. (ok (x.live_tracks w.play), logged PlayCall.tracks_list w)))
        (classified "play: list tracks: ") λ tracks. pure (ok tracks))

  has_track : String → List (String × List String) → Bool
  has_track track tracks = any_of (λ t. t.0 == track) tracks

  has_track_now : String → Result (List (String × List String)) → Bool
  has_track_now track (err e) = Bool.false
  has_track_now track (ok tracks) = has_track track tracks

  found_or_refused : String → GoError → Bool → M (Result String)
  found_or_refused track e Bool.true = pure (ok track)
  found_or_refused track e Bool.false =
      pure (err (classified ("play: create track " +++ (track +++ ": ")) e))

  -- the answer to a create: committed; or refused, which is fine if the track is there by now
  created_track : String → Result (Unit {0}) → M (Result String)
  created_track track (ok _) =
      attempt (play_call PlayCall.edit_commit) (behind "play: commit track create: ")
        λ _. pure (ok track)
  created_track track (err e) = do
    again ← list_tracks
    found_or_refused track e (has_track_now track again)

  create_track : String → M (Result String)
  create_track track =
      with_edit (classified "play: open edit: ")
        (play_call (PlayCall.track_create track) >>= λ r. created_track track r)

  ensure_track : String → Option String → M (Result String)
  ensure_track channel none =
      pure (err (failure ("play: channel " +++ (channel +++ " is not a closed testing channel"))))
  ensure_track channel (some track) =
      attempt list_tracks as_it_is
        λ existing. if has_track track existing then pure (ok track) else create_track track

  -- `ensureClosedTrack`
  unfoldable pub ensure_closed_track : String → M (Result String)
  unfolding ensure_track create_track created_track found_or_refused has_track has_track_now
      list_tracks with_edit
  ensure_closed_track channel = ensure_track channel (track_for channel)

  -- `SetTesters`
  unfoldable pub set_testers : String → List String → M (Result (Unit {0}))
  unfolding with_edit
  set_testers track groups = with_edit (behind "play: open edit: ") (
      attempt (play_call (PlayCall.testers_update track groups))
        (behind ("play: set testers on " +++ (track +++ ": ")))
        λ _. attempt (play_call PlayCall.edit_commit) (behind "play: commit: ") λ _. pure (ok tt))

  -- the groups go with a release on a closed track only, and only if there are any
  give_testers : String → String → List String → M (Result (Unit {0}))
  give_testers channel track testers =
      if not (track_is_closed channel && leb 1 (length testers))
      then pure (ok tt)
      else attempt (play_call (PlayCall.testers_update track testers))
          (behind "play: set testers: ") λ _. pure (ok tt)

  -- what follows the upload of the bundle
  release_bundle : String → String → String → String → List String → ℕ → M (Result String)
  release_bundle channel track version_name notes testers bundle =
      let name = version_name +++ (" (" +++ (decimal bundle +++ ")")) in
      attempt (play_call (PlayCall.track_update track name bundle notes))
        (behind ("play: set track " +++ (track +++ ": ")))
        λ _. attempt (give_testers channel track testers) as_it_is λ _.
          attempt (play_call PlayCall.edit_commit) (behind "play: commit: ") λ _. pure (ok name)

  publish_on : String → String → Bytes → String → String → List String → M (Result String)
  publish_on channel track bytes version_name notes testers =
      with_edit (behind "play: open edit: ") (
        attempt (call unchanged) as_it_is λ _.
          attempt
            (call (λ w. (
              ok (x.bundle_code (PlayCall.bundle_upload bytes ∷ w.play)),
              logged (PlayCall.bundle_upload bytes) w,
            )))
            (behind "play: upload bundle: ")
            λ bundle. release_bundle channel track version_name notes testers bundle)

  resolve_track : String → String → M (Result String)
  resolve_track channel track =
      if track_is_closed channel then ensure_closed_track channel else pure (ok track)

  publish_to :
      Option String → String → Bytes → String → String → String → List String → M (Result String)
  publish_to none path bytes channel version_name notes testers =
      pure (err (failure ("play: channel " +++ (channel +++ " has no Play track"))))
  publish_to (some track) path bytes channel version_name notes testers =
      if not (ends_with (x.lower path) ".aab")
      then pure (err (failure ("play: artifact must be an .aab (got " +++ (path +++ ")"))))
      else attempt (resolve_track channel track) as_it_is
          λ found. publish_on channel found bytes version_name notes testers

  -- `Publish`
  unfoldable pub publish :
      String → Bytes → String → String → String → List String → M (Result String)
  unfolding publish_to resolve_track publish_on release_bundle give_testers with_edit
  publish path bytes channel version_name notes testers =
      publish_to (track_for channel) path bytes channel version_name notes testers
