-- ===== src/Upload/Rows.antt =====
-- Uploads and deletes keep what each of the rows that they write keeps.
use release_hub.Base.{suc, refl, Bool}
use release_hub.Result.{Result, ok, err}
use release_hub.Text.Number.{parse_int}
use release_hub.Db.{Release}
use release_hub.World.{World, Outside}
use release_hub.World.Calls.{Keeps, Keeps-bind, Keeps-answer, Keeps-require}
use release_hub.Storage.{Storage}
use release_hub.Storage.Kept.{Keeps-call_of_db}
use release_hub.Request.{Request, path_value}
use release_hub.Retention.Kept.{Keeps-delete_release}
use release_hub.Upload.{
  handle_api_upload, handle_api_delete_release, require_direct, deleted_answer,
}
use release_hub.Upload.Kept.{
  IsOfUploads, Keeps-accept, Keeps-store_release, Keeps-announce, Keeps-given,
  Keeps-platform_from_request,
}

-- Whatever the rows that they write keep, uploads and deletes keep.
module _ {P : World → Type 0} (of : IsOfUploads P (λ q. P)) (x : Outside) (st : Storage)
    (r : Request) where
  abbrev ticked : (w : World) → P w → P (record w { tick = suc w.tick })
  ticked w h = of.of_rows.of_db.carry w _ refl h

  pub Keeps-handle_api_upload : Keeps P P (λ q. P) (handle_api_upload x st r)
  unfolding handle_api_upload
  Keeps-handle_api_upload =
      Keeps-bind _ _ (Keeps-accept ticked (λ q w h. h) r)
        λ a. Keeps-bind _ _ (Keeps-store_release of x st a) (Keeps-announce of x st a)

  Keeps-require_direct : (found : Result Release) → Keeps P P (λ q. P) (require_direct x st found)
  unfolding require_direct
  Keeps-require_direct (err e) = Keeps-answer _ (λ w h. h)
  Keeps-require_direct (ok rel) = Keeps-require _ _ (λ w h. h)

  Keeps-deleted_answer : (found : Result Bool) → Keeps P P (λ q. P) (deleted_answer x st found)
  unfolding deleted_answer
  Keeps-deleted_answer (err e) = Keeps-answer _ (λ w h. h)
  Keeps-deleted_answer (ok found) =
      Keeps-bind _ _ (Keeps-require found _ (λ w h. h)) λ _. Keeps-answer _ (λ w h. h)

  pub Keeps-handle_api_delete_release : Keeps P P (λ q. P) (handle_api_delete_release x st r)
  unfolding handle_api_delete_release
  Keeps-handle_api_delete_release =
      Keeps-bind _ _ (Keeps-platform_from_request ticked (λ q w h. h) r _) λ plat.
        Keeps-bind _ _ (Keeps-given ticked (λ q w h. h) _ (parse_int (path_value "versionCode" r)))
          λ code. Keeps-bind _ _ (Keeps-call_of_db of.of_rows.of_db _ (λ w. refl)) λ found.
            Keeps-bind _ _ (Keeps-require_direct found) λ _.
              Keeps-bind _ _ (Keeps-delete_release of.of_rows st plat _ code) Keeps-deleted_answer
