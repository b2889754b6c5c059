-- ===== src/Storage/RoundTrip.antt =====
-- What `Save` leaves in the store, whatever calls fail on the way.
use text.Mathlib.TextLemmas.{append_cancel_left, append-nil as text_append-nil}
use release_hub.Base.{
  List, [], ℕ, String, Option, some, ◌≡◌, ◌≢◌, refl, ◌∙◌, ◌+++◌, length, arith, eq_iff,
}
use release_hub.Result.{GoError, Result, ok, err}
use release_hub.World.{World, Outside, Bytes, Outcome, done, answered, panicked}
use release_hub.World.Calls.{after_call}
use release_hub.Storage.Files.{
  file_at, put_file, remove_file, file_at-put_file, file_at-remove_file,
}
use release_hub.Storage.{
  LocalStorage, local_path, save_local, clean_up, close_part, rename_part, saved,
}

part-ne : (full : String) → full ≢ full +++ ".part"
part-ne full e = cc (append_cancel_left full "" ".part" (text_append-nil full ∙ e))

-- An error leaves what stood at the path, and success the new bytes, measured and hashed.
abbrev pub AllOrNothing :
    Outside → Bytes → Option Bytes → Outcome (Result (ℕ × String)) → Option Bytes → Type 0
AllOrNothing x bytes before (done (ok (size, sha))) after =
    (after ≡ some bytes) × ((size ≡ length bytes) × (sha ≡ x.sha256_hex bytes))
AllOrNothing x bytes before (done (err e)) after = after ≡ before
AllOrNothing x bytes before (answered r) after = ⊥
AllOrNothing x bytes before panicked after = ⊥

-- The path and its temporary file after each step of a Save.
module _ (full : String) (bytes : Bytes) (files : List (String × Bytes)) where
  abbrev tmp : String
  tmp = full +++ ".part"

  abbrev opened : List (String × Bytes)
  opened = put_file tmp [] files

  abbrev written : List (String × Bytes)
  written = put_file tmp bytes opened

  tmp-opened : file_at tmp opened ≡ some []
  tmp-opened = rw file_at-put_file (ground (arith, eq_iff tmp tmp))

  tmp-written : file_at tmp written ≡ some bytes
  tmp-written = rw file_at-put_file (ground (arith, eq_iff tmp tmp))

  full-opened : file_at full opened ≡ file_at full files
  full-opened = rw file_at-put_file (ground (arith, eq_iff tmp full, part-ne full))

  full-written : file_at full written ≡ file_at full files
  full-written = rw file_at-put_file (ground (arith, eq_iff tmp full, part-ne full, full-opened))

  full-opened_removed : file_at full (remove_file tmp opened) ≡ file_at full files
  full-opened_removed =
      rw file_at-remove_file (ground (arith, eq_iff tmp full, part-ne full, full-opened))

  full-written_removed : file_at full (remove_file tmp written) ≡ file_at full files
  full-written_removed =
      rw file_at-remove_file (ground (arith, eq_iff tmp full, part-ne full, full-written))

  full-renamed : file_at full (put_file full bytes (remove_file tmp written)) ≡ some bytes
  full-renamed = rw file_at-put_file (ground (arith, eq_iff full full))

module _ (x : Outside) (l : LocalStorage) (key : String) (bytes : Bytes) (w : World) where
  abbrev Goal : Outcome (Result (ℕ × String)) × World → Type 0
  Goal (o, w') =
      AllOrNothing x bytes (file_at (local_path l key) w.files) o
        (file_at (local_path l key) w'.files)

  Goal-clean_up :
      (e : GoError) (w' : World)
      → file_at (local_path l key) w'.files ≡ file_at (local_path l key) w.files
      → file_at (local_path l key) (remove_file (local_path l key +++ ".part") w'.files)
        ≡ file_at (local_path l key) w.files
      → Goal (clean_up x (local_path l key +++ ".part") e w')
  unfolding clean_up
  Goal-clean_up e w' before removed = after_call Goal _ _ _ (λ t. before) (ground arith)

  Goal-close_part :
      (w' : World)
      → file_at (local_path l key +++ ".part") w'.files ≡ some bytes
      → file_at (local_path l key) w'.files ≡ file_at (local_path l key) w.files
      → file_at (local_path l key) (remove_file (local_path l key +++ ".part") w'.files)
        ≡ file_at (local_path l key) w.files
      → file_at
          (local_path l key)
          (put_file (local_path l key) bytes (remove_file (local_path l key +++ ".part") w'.files))
        ≡ some bytes
      → Goal (close_part x (local_path l key +++ ".part") (local_path l key) bytes (ok tt) w')
  unfolding close_part rename_part saved
  Goal-close_part w' ready before removed renamed =
      after_call Goal _ _ _ (λ t. Goal-clean_up _ _ before removed) (ground arith)

  -- Whatever calls fail, a local Save that reports an error leaves the artifact at its key as it was,
  -- and one that reports success leaves exactly the uploaded bytes, with their size and hash.
  pub save_local-AllOrNothing :
      AllOrNothing x bytes
        (file_at (local_path l key) w.files)
        (save_local x l key bytes w).0
        (file_at (local_path l key) (save_local x l key bytes w).1.files)
  unfolding save_local
  save_local-AllOrNothing =
      let full = local_path l key in
      let undo = λ (e : GoError) (n : ℕ).
        Goal-clean_up e (record w { files = opened full bytes w.files; tick = n })
          (full-opened full bytes w.files) (full-opened_removed full bytes w.files) in
      let undo_copy = λ (e : GoError) (n : ℕ).
        Goal-clean_up e (record w { files = written full bytes w.files; tick = n })
          (full-written full bytes w.files) (full-written_removed full bytes w.files) in
      after_call Goal _ _ _ (λ t. refl)
        (after_call Goal _ _ _ (λ t. refl)
          (after_call Goal _ _ _ (λ t. after_call Goal _ _ _ (λ s. undo _ _) (undo _ _))
            (after_call Goal _ _ _ (λ t. undo_copy _ _)
              (Goal-close_part _ (tmp-written full bytes w.files) (full-written full bytes w.files)
                (full-written_removed full bytes w.files) (full-renamed full bytes w.files)))))
