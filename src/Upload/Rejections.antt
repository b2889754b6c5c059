-- ===== src/Upload/Rejections.antt =====
-- A rejected upload has no effect.
use release_hub.Base.{◌≡◌, refl, ◌≤◌, ◌<◌, arith}
use release_hub.World.{World, Outside, answered, Response, json}
use release_hub.World.Calls.{Keeps, Ends-answered, Keeps-then, Keeps-weaken}
use release_hub.Storage.{Storage}
use release_hub.Request.{Request}
use release_hub.Upload.{handle_api_upload}
use release_hub.Upload.Kept.{IsOfUploads, Keeps-accept, Keeps-store_release, Keeps-announce}

-- An answer that blames the request.
abbrev pub IsRejection : Response → Type 0
IsRejection (json status fields) = (400 ≤ status) × (status < 500)
IsRejection _ = ⊥

-- The same rows, artifacts and calls to Play.
abbrev pub SameState : World → World → Type 0
SameState w w' = (w'.db ≡ w.db) × ((w'.files ≡ w.files) × (w'.play ≡ w.play))

module _ (w0 : World) where
  abbrev Anything : World → Type 0
  Anything w = Unit

  abbrev Harmless : Response → World → Type 0
  Harmless r w = IsRejection r → SameState w0 w

  anything : IsOfUploads Anything Harmless
  anything = record {
    of_rows = record { of_db = record { carry = λ w w' e h. h }; deleted = λ id code w h. h };
    created = λ rel w h. h;
    settled = λ status error name id code w h. h;
    failed = λ text w h (lo, hi). absurd (omega arith);
    created_answer = λ fields w h (lo, hi). absurd (omega arith);
  }

  module _ (x : Outside) (st : Storage) (r : Request) where
    handle_api_upload-Harmless : Keeps (SameState w0) Anything Harmless (handle_api_upload x st r)
    unfolding handle_api_upload
    handle_api_upload-Harmless =
        Keeps-then _ _ (λ w h. tt) (Keeps-accept (λ w h. h) (λ response w h _. h) r)
          λ a.
            Keeps-weaken _ (λ w h. tt)
              (Keeps-then _ _ (λ w h. h) (Keeps-store_release anything x st a)
                λ stored. Keeps-announce anything x st a stored)

    -- An upload that is answered with a 4xx status, whatever calls fail, has changed no row and no
    -- artifact, and has not called Play.
    pub handle_api_upload-SameState :
        (response : Response)
        → (handle_api_upload x st r w0).0 ≡ answered response
        → IsRejection response
        → SameState w0 (handle_api_upload x st r w0).1
    handle_api_upload-SameState response e =
        Ends-answered Anything Harmless (handle_api_upload x st r w0) response e
          (handle_api_upload-Harmless.at w0 (refl, (refl, refl)))
