-- ===== src/Invariant.antt =====
-- Invariants of the database: predicates that every statement of the program keeps, and the actions
-- that keep them whatever calls fail.
pub mod Sound
use mathlib.Core.Path.{subst}
use release_hub.Base.{ℕ, suc, String, Bool, ◌||◌, ◌==◌, Option, if◌then◌else◌, ◌≡◌, true, refl, sym}
use release_hub.Base.Int.{ℤ}
use release_hub.Result.{GoError, Result}
use release_hub.Db.{Database, Release, Session, App}
use release_hub.Db.Releases.{create_release, delete_release_row, set_play_status}
use release_hub.Db.Apps.{
  create_app, create_app_platform, set_signing_config, set_play_account_for_platform,
  set_prune_keep,
}
use release_hub.Db.Config.{
  set_config, create_api_token, touch_api_token, create_session, delete_session,
  create_play_account, delete_play_account, delete_play_account_by_int64, disable_play_on,
}
use release_hub.Storage.Kept.{IsOfDb}
use release_hub.Upload.{given}
use release_hub.Upload.Kept.{IsOfUploads, Keeps-platform_from_request, Keeps-given}
use release_hub.Platform.{platform_from_request, app_from_slug}
use release_hub.Request.{Request}
use release_hub.Apps.{is_slug}
use release_hub.World.{
  World, Response, M, pure, panic, attempt, or_return, call, query, exec, expect, require, answer,
  ◌>>=◌,
}
use release_hub.World.Calls.{
  Keeps, Keeps-pure, Keeps-bind, Keeps-attempt, Keeps-if, Keeps-or_return, Keeps-answer,
  Keeps-panic, Keeps-expect, Keeps-require, Keeps-call,
}

-- Kept by every statement; an app has a slug that the pattern admits, and a platform is android or ios.
pub record IsInvariant (I : Database → Type 0) : Type 0 where
  pub release_created : (rel : Release) (db : Database) → I db → I (create_release rel db).1
  pub release_deleted :
      (id : ℕ) (code : ℤ) (db : Database) → I db → I (delete_release_row id code db).1
  pub play_settled :
      (status error name : String) (id : ℕ) (code : ℤ) (db : Database)
      → I db
      → I (set_play_status status error name id code db).1
  pub app_created :
      (slug : String) (db : Database) → is_slug slug ≡ true → I db → I (create_app slug db).1
  pub platform_created :
      (app_id : ℕ) (platform pkg : String) (db : Database)
      → (platform == "android" || platform == "ios") ≡ true
      → I db
      → I (create_app_platform app_id platform pkg db).1
  pub signing_set :
      (keystore config sum : String) (id : ℕ) (db : Database)
      → I db
      → I (set_signing_config keystore config sum id db).1
  pub account_linked :
      (enabled : ℕ) (account : Option ℕ) (id : ℕ) (db : Database)
      → I db
      → I (set_play_account_for_platform enabled account id db).1
  pub keep_set : (keep : Option ℕ) (id : ℕ) (db : Database) → I db → I (set_prune_keep keep id db).1
  pub config_set : (key value : String) (db : Database) → I db → I (set_config key value db).1
  pub token_created :
      (name hash : String) (db : Database) → I db → I (create_api_token name hash db).1
  pub token_touched :
      (now : ℕ) (hash : String) (db : Database) → I db → I (touch_api_token now hash db).1
  pub session_created : (s : Session) (db : Database) → I db → I (create_session s db).1
  pub session_deleted : (hash : String) (db : Database) → I db → I (delete_session hash db).1
  pub account_created :
      (label credentials : String) (db : Database)
      → I db
      → I (create_play_account label credentials db).1
  pub account_deleted : (id : ℕ) (db : Database) → I db → I (delete_play_account id db).1
  pub account_removed : (id : ℤ) (db : Database) → I db → I (delete_play_account_by_int64 id db).1
  pub play_disabled : (id : ℤ) (db : Database) → I db → I (disable_play_on id db).1

abbrev pub Holds : (Database → Type 0) → World → Type 0
Holds I w = I w.db

-- However the action ends, and whatever calls fail in it.
pub record Safe (I : Database → Type 0) {A : Type 0} (m : M A) : Type 0 where
  pub kept : Keeps (Holds I) (Holds I) (λ r. Holds I) m

pub of_database : (I : Database → Type 0) → IsOfDb (Holds I)
of_database I = record { carry = λ w w' e h. subst I (sym e) h }

pub of_uploads : {I : Database → Type 0} → IsInvariant I → IsOfUploads (Holds I) (λ r. Holds I)
of_uploads {I} inv = record {
  of_rows = record {
    of_db = of_database I;
    deleted = λ id code w h. inv.release_deleted id code w.db h;
  };
  created = λ rel w h. inv.release_created rel w.db h;
  settled = λ status error name id code w h. inv.play_settled status error name id code w.db h;
  failed = λ text w h. h;
  created_answer = λ fields w h. h;
}

module _ {I : Database → Type 0} where
  pub Safe-pure : {A : Type 0} (a : A) → Safe I (pure a)
  Safe-pure a = record { kept = Keeps-pure a }

  pub Safe-bind :
      {A B : Type 0} (m : M A) (f : A → M B)
      → Safe I m
      → ((a : A) → Safe I (f a))
      → Safe I (m >>= f)
  Safe-bind m f hm hf = record { kept = Keeps-bind m f hm.kept (λ a. (hf a).kept) }

  pub Safe-attempt :
      {A B : Type 0} (m : M (Result A)) (wrapped : GoError → GoError) (f : A → M (Result B))
      → Safe I m
      → ((a : A) → Safe I (f a))
      → Safe I (attempt m wrapped f)
  Safe-attempt m wrapped f hm hf = record {
    kept = Keeps-attempt m wrapped f hm.kept (λ a. (hf a).kept);
  }

  pub Safe-or_return :
      {A B : Type 0} (wrapped : GoError → GoError) (r : Result A) (f : A → M (Result B))
      → ((a : A) → Safe I (f a))
      → Safe I (or_return wrapped r f)
  Safe-or_return wrapped r f hf = record { kept = Keeps-or_return wrapped r f (λ a. (hf a).kept) }

  pub Safe-if :
      {A : Type 0} (b : Bool) (m n : M A) → Safe I m → Safe I n → Safe I (if b then m else n)
  Safe-if b m n hm hn = record { kept = Keeps-if b m n hm.kept hn.kept }

  pub Safe-answer : {A : Type 0} (r : Response) → Safe I {A = A} (answer r)
  Safe-answer r = record { kept = Keeps-answer r (λ w h. h) }

  pub Safe-panic : {A : Type 0} → Safe I {A = A} panic
  Safe-panic = record { kept = Keeps-panic }

  pub Safe-expect : {A : Type 0} (f : GoError → Response) (r : Result A) → Safe I (expect f r)
  Safe-expect f r = record { kept = Keeps-expect f r (λ e w h. h) }

  pub Safe-require : (b : Bool) (r : Response) → Safe I (require b r)
  Safe-require b r = record { kept = Keeps-require b r (λ w h. h) }

  pub Safe-query : {A : Type 0} (f : Database → Result A) → Safe I (query f)
  Safe-query f = record { kept = Keeps-call _ (λ w h. h) (λ w h. h) }

  -- a call without an effect on the world
  pub Safe-pure_call : {A : Type 0} (f : World → Result A) → Safe I (call (λ w. (f w, w)))
  Safe-pure_call f = record { kept = Keeps-call _ (λ w h. h) (λ w h. h) }

  pub Safe-exec :
      {A : Type 0} (f : Database → Result A × Database)
      → ((db : Database) → I db → I (f db).1)
      → Safe I (exec f)
  Safe-exec f kept = record { kept = Keeps-call _ (λ w h. kept w.db h) (λ w h. h) }

  -- behind a guard its condition holds
  pub Safe-guarded :
      {A : Type 0} (b : Bool) (r : Response) (m : Unit {0} → M A)
      → (b ≡ true → Safe I (m tt))
      → Safe I (require b r >>= m)
  Safe-guarded true r m kept = kept refl
  Safe-guarded Bool.false r m kept = record { kept = record { at = λ w h. h } }

  pub Safe-given : {A : Type 0} (r : Response) (o : Option A) → Safe I (given r o)
  Safe-given r o = record { kept = Keeps-given (λ w h. h) (λ q w h. h) r o }

  pub Safe-platform_from_request :
      (r : Request) (slug : String) → Safe I (platform_from_request r slug)
  Safe-platform_from_request r slug = record {
    kept = Keeps-platform_from_request (λ w h. h) (λ q w h. h) r slug;
  }

  pub Safe-app_from_slug : (slug : String) → Safe I (app_from_slug slug)
  unfolding app_from_slug
  Safe-app_from_slug slug = Safe-bind _ _ (Safe-query _) (Safe-expect _)

pub ruleset safe_rules = (
  Safe-bind, Safe-attempt, Safe-if, Safe-or_return, Safe-pure, Safe-answer, Safe-panic, Safe-expect,
  Safe-require, Safe-query, Safe-pure_call, Safe-given, Safe-platform_from_request,
  Safe-app_from_slug,
)
