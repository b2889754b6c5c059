-- ===== src/Upload/Kept.antt =====
-- What an upload keeps, in each of its parts, whatever calls fail.
use release_hub.Base.{ℕ, suc, String, Option, none, some, refl}
use release_hub.Base.Int.{ℤ, pos}
use release_hub.Result.{Result, ok, err}
use release_hub.Db.{AppPlatform, Release}
use release_hub.Db.Releases.{create_release, set_play_status}
use release_hub.Secrets.{decrypt_creds}
use release_hub.Accounts.{play_account_creds}
use release_hub.Testers.{play_testers}
use release_hub.Storage.{Storage}
use release_hub.Storage.Kept.{
  IsOfDb, IsOfDb-IsApart, Keeps-call_of_db, Keeps-delete_file, Keeps-save, Keeps-public_url,
  Keeps-open_file,
}
use release_hub.Play.Kept.{Keeps-publish, Keeps-new_play_publisher_from_json, Keeps-unchanged}
use release_hub.Platform.{platform_from_request}
use release_hub.Request.{form_value, Request}
use release_hub.Retention.{prune_direct_releases}
use release_hub.Retention.Kept.{IsOfRows, Keeps-prune_direct_releases, Keeps-prune_config}
use release_hub.World.{World, Outside, Response, Fields, json, write_err, call, unchanged, as_it_is}
use release_hub.World.Calls.{
  Keeps, Keeps-call, Keeps-pure, Keeps-answer, Keeps-expect, Keeps-require, Keeps-bind, Keeps-if,
  Keeps-attempt, Keeps-or_return,
}
use release_hub.Upload.{
  newer, version_code, Accepted, parse_form, given, accept, accept_for, new_release, recorded,
  record_row, store_release, push_with, publish_to_play, set_play, settle, prune_after, announce,
}

-- Guards only read: they keep whatever the passing of a call keeps.
module _ {P : World → Type 0} {E : Response → World → Type 0}
    (ticked : (w : World) → P w → P (record w { tick = suc w.tick }))
    (answers : (r : Response) (w : World) → P w → E r w) where
  pub Keeps-platform_from_request :
      (r : Request) (slug : String) → Keeps P P E (platform_from_request r slug)
  unfolding platform_from_request
  Keeps-platform_from_request r slug = Keeps-bind _ _ (Keeps-require _ _ (answers _)) λ _.
      Keeps-bind _ _ (Keeps-call _ ticked ticked) λ found. Keeps-expect _ found (λ e. answers _)

  pub Keeps-given : {A : Type 0} (r : Response) (o : Option A) → Keeps P P E (given r o)
  unfolding given
  Keeps-given r none = Keeps-answer r (answers r)
  Keeps-given r (some a) = Keeps-pure a

  Keeps-parse_form : (o : Option String) → Keeps P P E (parse_form o)
  unfolding parse_form
  Keeps-parse_form none = Keeps-pure tt
  Keeps-parse_form (some text) = Keeps-answer _ (answers _)

  Keeps-accept_for : (r : Request) (plat : AppPlatform) → Keeps P P E (accept_for r plat)
  unfolding accept_for
  Keeps-accept_for r plat = Keeps-bind _ _ (Keeps-parse_form r.form_error) λ _.
      Keeps-bind _ _ (Keeps-require _ _ (answers _)) λ _.
        Keeps-bind _ _ (Keeps-call _ ticked ticked) λ max_result.
          Keeps-bind _ _ (Keeps-expect _ max_result (λ e. answers _)) λ max.
            Keeps-bind _ _ (Keeps-given _ (version_code (form_value "versionCode" r) max)) λ wanted.
              Keeps-bind _ _ (Keeps-given _ (newer max wanted))
                λ code. Keeps-bind _ _ (Keeps-given _ r.file) λ file. Keeps-pure _

  pub Keeps-accept : (r : Request) → Keeps P P E (accept r)
  unfolding accept
  Keeps-accept r = Keeps-bind _ _ (Keeps-platform_from_request r _) (Keeps-accept_for r)

-- What the stored outcome of a push keeps, and what holds of the answers.
pub record IsOfOutcomes (P : World → Type 0) (E : Response → World → Type 0) : Type 0 where
  pub of_db : IsOfDb P
  pub settled :
      (status error name : String) (id : ℕ) (code : ℤ) (w : World)
      → P w
      → P (record w { db = (set_play_status status error name id code w.db).1 })
  pub failed : (text : String) (w : World) → P w → E (write_err 500 text) w
  pub created_answer : (fields : Fields) (w : World) → P w → E (json 201 fields) w

-- The same with all the rows that an upload writes.
pub record IsOfUploads (P : World → Type 0) (E : Response → World → Type 0) : Type 0 where
  pub of_rows : IsOfRows P
  pub created :
      (rel : Release) (w : World) → P w → P (record w { db = (create_release rel w.db).1 })
  pub settled :
      (status error name : String) (id : ℕ) (code : ℤ) (w : World)
      → P w
      → P (record w { db = (set_play_status status error name id code w.db).1 })
  pub failed : (text : String) (w : World) → P w → E (write_err 500 text) w
  pub created_answer : (fields : Fields) (w : World) → P w → E (json 201 fields) w

module _ {P : World → Type 0} {E : Response → World → Type 0} (of : IsOfUploads P E) (x : Outside)
    (st : Storage) where
  abbrev db : IsOfDb P
  db = of.of_rows.of_db

  Keeps-recorded :
      (a : Accepted) (stored : ℕ × String) (r : Result (Unit {0}))
      → Keeps P P E (recorded x st a stored r)
  unfolding recorded
  Keeps-recorded a stored (ok _) = Keeps-pure stored
  Keeps-recorded a stored (err e) =
      Keeps-bind _ _ (Keeps-delete_file db st _) λ _. Keeps-answer _ (of.failed _)

  Keeps-record_row :
      (a : Accepted) (saved : Result (ℕ × String)) → Keeps P P E (record_row x st a saved)
  unfolding record_row
  Keeps-record_row a (err e) = Keeps-answer _ (of.failed _)
  Keeps-record_row a (ok stored) =
      Keeps-bind _ _
        (Keeps-call _ (λ w h. db.carry _ _ refl (of.created (new_release a stored.0 stored.1) w h))
          (λ w h. db.carry w _ refl h))
        (Keeps-recorded a stored)

  pub Keeps-store_release : (a : Accepted) → Keeps P P E (store_release x st a)
  unfolding store_release
  Keeps-store_release a = Keeps-bind _ _ (Keeps-save db x st _ _) (Keeps-record_row a)

module _ {P : World → Type 0} {E : Response → World → Type 0} (of : IsOfOutcomes P E) (x : Outside)
    (st : Storage) where
  Keeps-play_account_creds : (id : ℕ) → Keeps P P E (play_account_creds x id)
  unfolding play_account_creds
  Keeps-play_account_creds id =
      Keeps-attempt _ _ _ (Keeps-call_of_db of.of_db _ (λ w. refl))
        λ acct. Keeps-or_return _ (decrypt_creds x acct.credentials) _ λ creds. Keeps-pure _

  Keeps-play_testers : Keeps P P E (play_testers x)
  unfolding play_testers
  Keeps-play_testers = Keeps-bind _ _ (Keeps-call_of_db of.of_db _ (λ w. refl)) λ v. Keeps-pure _

  Keeps-push_with :
      (plat : AppPlatform) (key channel version_name notes : String) (account : Option ℕ)
      → Keeps P P E (push_with x st plat key channel version_name notes account)
  unfolding push_with
  Keeps-push_with plat key channel version_name notes none = Keeps-pure _
  Keeps-push_with plat key channel version_name notes (some account) =
      Keeps-attempt _ _ _ (Keeps-play_account_creds account) λ creds.
        Keeps-attempt _ as_it_is _
          (Keeps-new_play_publisher_from_json x (IsOfDb-IsApart of.of_db) plat.package_name creds)
          λ _. Keeps-attempt _ as_it_is _ (Keeps-call_of_db of.of_db _ (λ w. refl)) λ name.
            Keeps-bind _ _
              (Keeps-attempt _ as_it_is _ (Keeps-open_file of.of_db st key) λ bytes.
                Keeps-attempt _ as_it_is _ step λ _. Keeps-attempt _ as_it_is _ step λ _.
                  Keeps-bind _ _ Keeps-play_testers λ testers.
                    Keeps-publish x (IsOfDb-IsApart of.of_db) _ bytes channel version_name notes
                      testers)
              λ released. Keeps-bind _ _ step λ _. Keeps-pure released
    where
      step : Keeps P P E (call unchanged)
      step = Keeps-unchanged x (IsOfDb-IsApart of.of_db)

  Keeps-publish_to_play :
      (plat : AppPlatform) (key channel version_name notes : String)
      → Keeps P P E (publish_to_play x st plat key channel version_name notes)
  unfolding publish_to_play
  Keeps-publish_to_play plat key channel version_name notes =
      Keeps-if _ _ _ (Keeps-pure _) (Keeps-push_with plat key channel version_name notes _)

  Keeps-set_play :
      (a : Accepted) (status error name : String) → Keeps P P E (set_play x st a status error name)
  unfolding set_play
  Keeps-set_play a status error name =
      Keeps-bind _ _
        (Keeps-call _
          (λ w h. of.of_db.carry _ _ refl (of.settled status error name a.plat.id (pos a.code) w h))
          (λ w h. of.of_db.carry w _ refl h))
        λ _. Keeps-pure tt

  Keeps-settle : (a : Accepted) (r : Result String) → Keeps P P E (settle x st a r)
  unfolding settle
  Keeps-settle a (err e) =
      Keeps-bind _ _ (Keeps-if _ _ _ (Keeps-set_play a _ _ _) (Keeps-pure tt)) λ _. Keeps-pure _
  Keeps-settle a (ok name) =
      Keeps-if _ _ _
        (Keeps-bind _ _ (Keeps-if _ _ _ (Keeps-set_play a _ _ _) (Keeps-pure tt)) λ _. Keeps-pure _)
        (Keeps-bind _ _ (Keeps-set_play a _ _ _) λ _. Keeps-pure _)

  Keeps-prune_after :
      (a : Accepted)
      → ((keep : ℕ) → Keeps P P E (prune_direct_releases st a.plat a.slug keep))
      → Keeps P P E (prune_after x st a)
  unfolding prune_after
  Keeps-prune_after a pruning = Keeps-if _ _ _ (Keeps-pure _) (
      Keeps-bind _ _ (Keeps-prune_config of.of_db a.plat)
        λ keep. Keeps-bind _ _ (pruning keep) λ n. Keeps-pure _)

  pub Keeps-announce_with :
      (a : Accepted) (stored : ℕ × String)
      → ((keep : ℕ) → Keeps P P E (prune_direct_releases st a.plat a.slug keep))
      → Keeps P P E (announce x st a stored)
  unfolding announce
  Keeps-announce_with a stored pruning =
      Keeps-bind _ _ (Keeps-public_url of.of_db x st _) λ located.
        Keeps-bind _ _ (Keeps-expect _ located (λ e. of.failed _)) λ url.
          Keeps-bind _ _ (Keeps-publish_to_play _ _ _ _ _) λ pushed.
            Keeps-bind _ _ (Keeps-settle a pushed) λ play_fields.
              Keeps-bind _ _ (Keeps-prune_after a pruning)
                λ prune_fields. Keeps-answer _ (of.created_answer _)

module _ {P : World → Type 0} {E : Response → World → Type 0} (of : IsOfUploads P E) (x : Outside)
    (st : Storage) where
  of_outcomes : IsOfOutcomes P E
  of_outcomes = record {
    of_db = of.of_rows.of_db;
    settled = of.settled;
    failed = of.failed;
    created_answer = of.created_answer;
  }

  pub Keeps-announce : (a : Accepted) (stored : ℕ × String) → Keeps P P E (announce x st a stored)
  Keeps-announce a stored =
      Keeps-announce_with of_outcomes x st a stored
        (Keeps-prune_direct_releases of.of_rows st a.plat a.slug)
