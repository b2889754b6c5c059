-- ===== src/Play/Released.antt =====
-- What Play has answered when a push is reported as a success.
use mathlib.Core.Path.{subst}
use release_hub.Base.{
  ℕ, String, false, List, ◌∷◌, some, ◌≡◌, refl, ap, ◌⊎◌, inl, inr, ◌+++◌, Bool-cases,
}
use release_hub.Text.{ends_with}
use release_hub.Text.Number.{decimal}
use release_hub.Channel.{track_for, track_is_closed}
use release_hub.Result.{failure, Result, ok, err}
use release_hub.World.{
  World, Outside, Bytes, PlayCall, Outcome, done, M, ◌>>=◌, ◌>>◌, pure, continue, or_return,
  as_it_is,
}
use release_hub.World.Calls.{after_call}
use release_hub.Play.{
  play_call, publish, publish_to, publish_on, resolve_track, release_bundle, give_testers,
  with_edit,
}

module _ (x : Outside) (bytes : Bytes) (channel track version_name notes : String)
    (testers : List String) (w : World) where
  abbrev pub bundle : ℕ
  bundle = x.bundle_code (PlayCall.bundle_upload bytes ∷ PlayCall.edit_insert ∷ w.play)

  abbrev pub release_name : String
  release_name = version_name +++ (" (" +++ (decimal bundle +++ ")"))

  -- the calls of a push on a track that is not closed, latest first
  abbrev pub pushed : List PlayCall
  pushed =
      PlayCall.edit_commit
      ∷ PlayCall.track_update track release_name bundle notes
      ∷ PlayCall.bundle_upload bytes
      ∷ PlayCall.edit_insert
      ∷ w.play

  -- A success comes after these calls, and at most the deletion of the edit.
  abbrev IsPushed : Outcome (Result String) × World → Type 0
  IsPushed (o, w') =
      (name : String)
      → o ≡ done (ok name)
      → (name ≡ release_name) × ((w'.play ≡ pushed) ⊎ (w'.play ≡ PlayCall.edit_delete ∷ pushed))

  abbrev finish : Result String → M (Result String)
  finish r = play_call PlayCall.edit_delete >> pure r

  IsPushed-finish :
      (r : Result String) (w' : World)
      → ((name : String) → r ≡ ok name → (name ≡ release_name) × (w'.play ≡ pushed))
      → IsPushed (finish r w')
  IsPushed-finish r w' h =
      after_call IsPushed _ _ w' (λ t name e. let (n, p) = h name (cc e) in (n, inl p))
        (λ name e.
          let (n, p) = h name (cc e) in (n, inr (ap (λ log. PlayCall.edit_delete ∷ log) p)))

  abbrev BeforeFinish : Outcome (Result String) × World → Type 0
  BeforeFinish (o, w') = IsPushed (continue o finish w')

  IsPushed-publish_on :
      track_is_closed channel ≡ false
      → IsPushed (publish_on x channel track bytes version_name notes testers w)
  unfolding publish_on with_edit release_bundle give_testers
  IsPushed-publish_on public =
      after_call IsPushed _ _ w (λ t name e. absurd (cc e))
        (after_call BeforeFinish _ _ _
          (λ t. IsPushed-finish (err (failure t)) _ (λ name e. absurd (cc e)))
          (after_call BeforeFinish _ _ _ (λ t. IsPushed-finish _ _ (λ name e. absurd (cc e)))
            (after_call BeforeFinish _ _ _ (λ t. IsPushed-finish _ _ (λ name e. absurd (cc e)))
              (rw public (
                after_call BeforeFinish _ _ _ (λ t. IsPushed-finish _ _ (λ name e. absurd (cc e)))
                  (IsPushed-finish (ok release_name) _ (λ name e. (cc e, refl))))))))

  resolved : track_is_closed channel ≡ false → pure (ok track) ≡ resolve_track x channel track
  unfolding resolve_track
  resolved public = rw public refl

  -- If a push on a channel with a track that is not a closed testing track reports a release name,
  -- whatever calls failed, then Play has answered exactly these calls since it began, and perhaps the
  -- deletion of the edit: an edit was opened, the artifact's bytes uploaded, the channel's track set to
  -- the bundle under that name, and the edit committed. The name has the version name and the bundle's
  -- version code. No tester group was pushed and no track was created.
  pub publish-pushed :
      (path : String)
      → track_for channel ≡ some track
      → track_is_closed channel ≡ false
      → (name : String)
      → (publish x path bytes channel version_name notes testers w).0 ≡ done (ok name)
      → (name ≡ release_name)
        × (((publish x path bytes channel version_name notes testers w).1.play ≡ pushed)
            ⊎ ((publish x path bytes channel version_name notes testers w).1.play
                ≡ PlayCall.edit_delete ∷ pushed))
  unfolding publish publish_to
  publish-pushed path on_track public = elim (Bool-cases (ends_with (x.lower path) ".aab")) [
    | inl bundle_file ↦
        rw (on_track, bundle_file)
          (subst
            (λ m. IsPushed (
              (m >>= λ r.
              or_return as_it_is r
                λ found. publish_on x channel found bytes version_name notes testers)
                w))
            (resolved public) (IsPushed-publish_on public))
    | inr other_file ↦ rw (on_track, other_file) (λ name e. absurd (cc e))
  ]
