-- ===== src/Upload/Guards.antt =====
-- What an upload that passes the guards is known to have.
use mathlib.Core.Path.{subst}
use release_hub.Base.{
  ℕ, ◌<◌, String, Option, none, some, ◌≡◌, refl, ap, arith, ltb, ◌+++◌, Bool-cases, inl, inr,
}
use release_hub.Base.Int.{ℤ, pos, negsuc}
use release_hub.Result.{Result, ok, error_text}
use release_hub.Db.{AppPlatform}
use release_hub.Db.Releases.{max_version_code}
use release_hub.Platform.{platform_from_request, non_empty_or}
use release_hub.Text.{trim_space}
use release_hub.Text.Number.{decimal}
use release_hub.Request.{Request, FormFile, path_value, form_value}
use release_hub.World.{
  World, Outcome, done, answered, Response, M, ◌>>=◌, ◌>>◌, pure, expect, require, query, write_err,
}
use release_hub.World.Calls.{after_action, after_call, after_require}
use release_hub.Upload.{
  Accepted, given, newer, parse_form, known_channel, version_code, accept_for, accept,
}

newer-above : (max : ℕ) (wanted : ℤ) (code : ℕ) → newer max wanted ≡ some code → max < code
unfolding newer
newer-above max (negsuc n) code e = absurd (cc e)
newer-above max (pos n) code e = elim (Bool-cases (ltb max n)) [
  | inl above ↦ ground (arith, rw above at e)
  | inr below ↦ absurd (cc (rw below at e))
]

module _ {A B : Type 0} (R : Outcome B × World → Type 0) where
  after_given :
      (q : Response) (o : Option A) (k : A → M B) (w : World)
      → ((a : A) → o ≡ some a → R (k a w))
      → R (answered q, w)
      → R ((given q o >>= k) w)
  unfolding given
  after_given q none k w on_some on_none = on_none
  after_given q (some a) k w on_some on_none = on_some a refl

abbrev accepted_of : Accepted → Outcome Accepted → Accepted
accepted_of a (done b) = b
accepted_of a _ = a

-- An upload that is accepted has a code above the latest.
abbrev IsAbove : Outcome Accepted × World → Type 0
IsAbove (o, w) = (a : Accepted) → o ≡ done a → max_version_code a.plat.id w.db < a.code

module _ (r : Request) (plat : AppPlatform) where
  abbrev channel : String
  channel = non_empty_or (form_value "channel" r) "direct"

  abbrev upload_of : ℕ → FormFile → Accepted
  upload_of code file = record {
    plat = plat;
    slug = path_value "slug" r;
    channel = channel;
    code = code;
    version_name = non_empty_or (trim_space (form_value "versionName" r)) (decimal code);
    notes = form_value "notes" r;
    file = file;
  }

  -- the guards of `accept_for`, from the last to the first
  abbrev with_code : ℕ → M Accepted
  with_code code = do
    file ← given (write_err 400 "missing file field") r.file
    pure (upload_of code file)

  abbrev too_low : ℕ → Response
  too_low max =
      write_err 409 ("versionCode must be > " +++ (decimal max +++ " (latest for this app)"))

  abbrev with_wanted : ℕ → ℤ → M Accepted
  with_wanted max wanted = given (too_low max) (newer max wanted) >>= with_code

  abbrev with_max : ℕ → M Accepted
  with_max max =
      given (write_err 400 "invalid versionCode") (version_code (form_value "versionCode" r) max)
      >>= with_wanted max

  abbrev with_listed : Result ℕ → M Accepted
  with_listed found = expect (λ e. write_err 500 (error_text e)) found >>= with_max

  abbrev with_channel : M Accepted
  with_channel = do
    require (known_channel channel)
        (write_err 400 "channel must be direct, internal, alpha, beta or public")
    query (λ db. ok (max_version_code plat.id db)) >>= with_listed

  IsAbove-with_max :
      (max : ℕ) (w : World) → max ≡ max_version_code plat.id w.db → IsAbove (with_max max w)
  IsAbove-with_max max w is_max =
      after_given IsAbove _ _ (with_wanted max) w
        (λ wanted _.
          after_given IsAbove _ _ with_code w
            (λ code fits.
              after_given IsAbove _ _ (λ file. pure (upload_of code file)) w
                (λ file _ a e.
                  subst (λ b. max_version_code b.plat.id w.db < b.code) (ap (accepted_of a) e)
                    (subst (λ m. m < code) is_max (newer-above max wanted code fits)))
                (λ a e. absurd (cc e)))
            (λ a e. absurd (cc e)))
        (λ a e. absurd (cc e))

  IsAbove-with_channel : (w : World) → IsAbove (with_channel w)
  IsAbove-with_channel w =
      after_require IsAbove _ _
        (λ _. query (λ db. ok (max_version_code plat.id db)) >>= with_listed) w
        (λ _.
          after_call IsAbove _ with_listed w (λ t a e. absurd (cc e)) (IsAbove-with_max _ _ refl))
        (λ _ a e. absurd (cc e))

  IsAbove-accept_for : (w : World) → IsAbove (accept_for r plat w)
  unfolding accept_for
  IsAbove-accept_for w =
      after_action IsAbove (parse_form r.form_error) (λ _. with_channel) w
        (λ _ _. IsAbove-with_channel _) (λ q _ a e. absurd (cc e)) (λ _ a e. absurd (cc e))

pub accept-above :
    (r : Request) (w : World) (a : Accepted)
    → (accept r w).0 ≡ done a
    → max_version_code a.plat.id (accept r w).1.db < a.code
unfolding accept
accept-above r w =
    after_action IsAbove (platform_from_request r (path_value "slug" r)) (accept_for r) w
      (λ plat _. IsAbove-accept_for r plat _) (λ q _ a e. absurd (cc e)) (λ _ a e. absurd (cc e))
