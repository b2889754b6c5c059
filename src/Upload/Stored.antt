-- ===== src/Upload/Stored.antt =====
-- A release's row and its artifact come together.
use release_hub.Base.{
  ℕ, String, [], ◌∷◌, ◌++◌, some, ◌≡◌, refl, ◌∙◌, length, any_of, Bool-cases, inl, inr,
}
use release_hub.Base.Int.{pos}
use release_hub.Result.{failure, GoError, Result, ok, err}
use release_hub.World.{write_err, World, Outside, Outcome, done, answered, panicked, continue}
use release_hub.World.Calls.{after_call, Ends-kept}
use release_hub.Db.Releases.{create_release, is_release}
use release_hub.Storage.{delete_file, LocalStorage, local, local_path, save}
use release_hub.Storage.Files.{file_at}
use release_hub.Storage.Kept.{IsOfDb, Keeps-save}
use release_hub.Storage.RoundTrip.{AllOrNothing, save_local-AllOrNothing}
use release_hub.Storage.Untouched.{remove_at-db}
use release_hub.Upload.{Accepted, key_of, new_release, recorded, record_row, store_release}

module _ (x : Outside) (l : LocalStorage) (a : Accepted) (w : World) where
  -- Either there is one row more, and at the artifact's path the bytes that its size and hash are
  -- of, or the answer is a 500 with a text and the database is as it was.
  abbrev pub RowWithArtifact : Outcome (ℕ × String) × World → Type 0
  RowWithArtifact (done (size, sha), w') =
      (size ≡ length a.file.content)
      × ((sha ≡ x.sha256_hex a.file.content)
          × ((w'.db ≡ record w.db { releases = w.db.releases ++ new_release a size sha ∷ [] })
              × (file_at (local_path l (key_of a)) w'.files ≡ some a.file.content)))
  RowWithArtifact (answered r, w') = ((text : String) × (r ≡ write_err 500 text)) × (w'.db ≡ w.db)
  RowWithArtifact (panicked, w') = ⊥

  of_db : IsOfDb (λ w'. w'.db ≡ w.db)
  of_db = record { carry = λ u v e h. e ∙ h }

  -- the row is refused: the artifact goes, and the answer is an error
  refused :
      (stored : ℕ × String) (e : GoError) (w' : World)
      → w'.db ≡ w.db
      → RowWithArtifact (recorded x (local l) a stored (err e) w')
  unfolding recorded delete_file
  refused stored e w' same =
      after_call RowWithArtifact _ _ w' (λ t. ((_, refl), same))
        ((_, refl), remove_at-db (local_path l (key_of a)) w' ∙ same)

  RowWithArtifact-record_row :
      (o : Outcome (Result (ℕ × String))) (w' : World)
      → w'.db ≡ w.db
      → AllOrNothing x a.file.content
          (file_at (local_path l (key_of a)) w.files)
          o
          (file_at (local_path l (key_of a)) w'.files)
      → RowWithArtifact (continue o (record_row x (local l) a) w')
  unfolding record_row create_release recorded
  RowWithArtifact-record_row (done (ok (size, sha))) w' same (there, (is_size, is_sha)) =
      after_call RowWithArtifact _ _ w' (λ t. refused (size, sha) (failure t) _ same)
        (elim (Bool-cases (any_of (is_release a.plat.id (pos a.code)) w.db.releases)) [
          | inl taken ↦
              rw (same, taken)
                (refused (size, sha)
                  (failure
                    "UNIQUE constraint failed: releases.app_platform_id, releases.version_code")
                  _ refl)
          | inr free ↦ rw (same, free) (is_size, (is_sha, (refl, there)))
        ])
  RowWithArtifact-record_row (done (err e)) w' same h = ((_, refl), same)
  RowWithArtifact-record_row (answered r) w' same h = absurd h
  RowWithArtifact-record_row panicked w' same h = absurd h

  -- Whatever calls fail, the storing part of an upload to a local store ends in one of two ways: there
  -- is one new row, with the size and the hash of the uploaded bytes, and these bytes are at its
  -- artifact's path; or the upload is answered with 500 and an error's text, and the database is as it was.
  pub store_release-RowWithArtifact : RowWithArtifact (store_release x (local l) a w)
  unfolding store_release
  store_release-RowWithArtifact =
      RowWithArtifact-record_row (save x (local l) (key_of a) a.file.content w).0
        (save x (local l) (key_of a) a.file.content w).1
        (Ends-kept (λ w'. w'.db ≡ w.db) (save x (local l) (key_of a) a.file.content w)
          ((Keeps-save of_db x (local l) (key_of a) a.file.content).at w refl))
        (unfold save in save_local-AllOrNothing x l (key_of a) a.file.content w)
