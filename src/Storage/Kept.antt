-- ===== src/Storage/Kept.antt =====
-- What the artifact store keeps: whatever depends on the database alone.
use release_hub.Base.{String, Bool, true, false, ◌≡◌, refl, arith}
use release_hub.Result.{GoError, Result, ok, err}
use release_hub.World.{World, Bytes, Outside, Response, call, unchanged}
use release_hub.World.Calls.{Keeps, Keeps-call, Keeps-pure, Keeps-bind}
use release_hub.Play.Kept.{IsApart}
use release_hub.Storage.{
  Storage, S3Storage, local, s3, clean_up, rename_part, close_part, copy_part, create_part,
  save_local, save_s3, save, upload_object, presigned, public_url, open_file, delete_file, write_at,
  remove_at, rename_to, local_path, obj_key,
}
use release_hub.Storage.Untouched.{remove_at-db}

-- A predicate on the database.
pub record IsOfDb (P : World → Type 0) : Type 0 where
  pub carry : (w w' : World) → w'.db ≡ w.db → P w → P w'

pub IsOfDb-IsApart : {P : World → Type 0} → IsOfDb P → IsApart P
IsOfDb-IsApart of = record {
  ticked = λ w h. of.carry w _ refl h;
  logged_too = λ c w h. of.carry w _ refl h;
}

rename_to-db : (from to : String) (w : World) → (rename_to from to w).1.db ≡ w.db
rename_to-db from to w = ground arith

module _ {P : World → Type 0} {E : Response → World → Type 0} (of : IsOfDb P) where
  -- a call that leaves the database
  pub Keeps-call_of_db :
      {A : Type 0} (f : World → Result A × World)
      → ((w : World) → (f w).1.db ≡ w.db)
      → Keeps P P E (call f)
  Keeps-call_of_db f same =
      Keeps-call f (λ w h. of.carry w _ (same w) h) (λ w h. of.carry w _ refl h)

  Keeps-step : Keeps P P E (call unchanged)
  Keeps-step = Keeps-call_of_db unchanged (λ w. refl)

  module _ (x : Outside) where
    Keeps-clean_up : (tmp : String) (e : GoError) → Keeps P P E (clean_up x tmp e)
    unfolding clean_up
    Keeps-clean_up tmp e =
        Keeps-bind _ _ (Keeps-call_of_db (remove_at tmp) (remove_at-db tmp)) λ _. Keeps-pure _

    Keeps-rename_part :
        (tmp full : String) (bytes : Bytes) (r : Result (Unit {0}))
        → Keeps P P E (rename_part x tmp full bytes r)
    unfolding rename_part
    Keeps-rename_part tmp full bytes (err e) = Keeps-clean_up tmp e
    Keeps-rename_part tmp full bytes (ok _) = Keeps-pure _

    Keeps-close_part :
        (tmp full : String) (bytes : Bytes) (r : Result (Unit {0}))
        → Keeps P P E (close_part x tmp full bytes r)
    unfolding close_part
    Keeps-close_part tmp full bytes (err e) = Keeps-clean_up tmp e
    Keeps-close_part tmp full bytes (ok _) =
        Keeps-bind _ _ (Keeps-call_of_db (rename_to tmp full) (rename_to-db tmp full))
          (Keeps-rename_part tmp full bytes)

    Keeps-copy_part :
        (tmp full : String) (bytes : Bytes) (r : Result (Unit {0}))
        → Keeps P P E (copy_part x tmp full bytes r)
    unfolding copy_part
    Keeps-copy_part tmp full bytes (err e) = Keeps-pure _
    Keeps-copy_part tmp full bytes (ok _) =
        Keeps-bind _ _ (Keeps-call_of_db (write_at tmp bytes) (λ w. refl))
          λ copied. Keeps-bind _ _ Keeps-step λ closed. Keeps-close_part tmp full bytes _

    Keeps-create_part :
        (full : String) (bytes : Bytes) (r : Result (Unit {0}))
        → Keeps P P E (create_part x full bytes r)
    unfolding create_part
    Keeps-create_part full bytes (err e) = Keeps-pure _
    Keeps-create_part full bytes (ok _) =
        Keeps-bind _ _ (Keeps-call_of_db (write_at _ _) (λ w. refl)) (Keeps-copy_part _ full bytes)

    Keeps-upload_object :
        (bytes : Bytes) (r : Result (Unit {0})) → Keeps P P E (upload_object x bytes r)
    unfolding upload_object
    Keeps-upload_object bytes (err e) = Keeps-pure _
    Keeps-upload_object bytes (ok _) = Keeps-bind _ _ Keeps-step λ head. Keeps-pure _

    pub Keeps-save :
        (st : Storage) (key : String) (bytes : Bytes) → Keeps P P E (save x st key bytes)
    unfolding save save_local save_s3
    Keeps-save (local l) key bytes =
        Keeps-bind _ _ Keeps-step (Keeps-create_part (local_path l key) bytes)
    Keeps-save (s3 s) key bytes =
        Keeps-bind _ _ (Keeps-call_of_db (write_at (obj_key s key) bytes) (λ w. refl))
          (Keeps-upload_object bytes)

    Keeps-presigned : (s : S3Storage) (key : String) (b : Bool) → Keeps P P E (presigned x s key b)
    unfolding presigned
    Keeps-presigned s key true = Keeps-call_of_db _ (λ w. refl)
    Keeps-presigned s key false = Keeps-pure _

    pub Keeps-public_url : (st : Storage) (key : String) → Keeps P P E (public_url x st key)
    unfolding public_url
    Keeps-public_url (local l) key = Keeps-pure _
    Keeps-public_url (s3 s) key = Keeps-presigned s key _

  pub Keeps-open_file : (st : Storage) (key : String) → Keeps P P E (open_file st key)
  unfolding open_file
  Keeps-open_file st key = Keeps-call_of_db _ (λ w. refl)

  pub Keeps-delete_file : (st : Storage) (key : String) → Keeps P P E (delete_file st key)
  unfolding delete_file
  Keeps-delete_file (local l) key = Keeps-call_of_db (remove_at (local_path l key)) (remove_at-db _)
  Keeps-delete_file (s3 s) key = Keeps-call_of_db _ (λ w. refl)
