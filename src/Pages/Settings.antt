-- ===== src/Pages/Settings.antt =====
-- srv/handlers_ui.go: the settings form, and the prefix of package names.
pub mod Kept
pub mod View
use release_hub.Base.{
  String, code, Bool, true, false, ◌&&◌, ◌||◌, Option, none, some, List, [], ◌∷◌, ◌==◌, ◌+++◌, eqb,
  if◌then◌else◌, any_of, ◌≡◌, refl,
}
use release_hub.Base.Int.{ℤ, pos, negsuc}
use release_hub.Text.{trim_space}
use release_hub.Text.Number.{parse_int}
use release_hub.Result.{error_text, Result, ok, err}
use release_hub.Db.Config.{get_config, set_config}
use release_hub.Request.{Request, form_value}
use release_hub.Testers.{normalize_tester_groups}
use release_hub.World.{
  Outside, plain, flash, M, ◌>>=◌, ◌>>◌, pure, answer, expect, require, query, exec,
}
use release_hub.Pages.{handle_play_accounts_ui}

-- `strings.Trim(…, ".")`
left_dots : String → String
left_dots String.[] = String.[]
left_dots (String.◌∷◌ c s) =
    let rest = left_dots s in if eqb (code c) b'.' then rest else String.◌∷◌ c s

all_dots : String → Bool
all_dots String.[] = true
all_dots (String.◌∷◌ c s) = eqb (code c) b'.' && all_dots s

right_dots : String → String
right_dots String.[] = String.[]
right_dots (String.◌∷◌ c s) =
    let rest = String.◌∷◌ c (right_dots s) in
    if eqb (code c) b'.' && all_dots s then String.[] else rest

unfoldable pub trim_dots : String → String
unfolding left_dots all_dots right_dots
trim_dots s = right_dots (left_dots s)

configured_prefix : Result String → String
configured_prefix (err e) = ""
configured_prefix (ok v) = trim_dots (trim_space v)

-- `bundlePrefix`
unfoldable pub bundle_prefix : M String
unfolding configured_prefix
bundle_prefix = do v ← query (get_config "bundle_prefix"); pure (configured_prefix v)

-- `strings.ReplaceAll(slug, "-", "_")`
dashes_out : String → String
dashes_out String.[] = String.[]
dashes_out (String.◌∷◌ c s) = String.◌∷◌ (if eqb (code c) b'-' then "_" else c) (dashes_out s)

-- `suggestPackage`
unfoldable pub suggest_package : String → String → String
unfolding dashes_out
suggest_package prefix slug = if prefix == "" then "" else prefix +++ ("." +++ dashes_out slug)

suggests : suggest_package "io.nesin" "tiny-firewall" ≡ "io.nesin.tiny_firewall"
unfolding suggest_package
suggests = refl

-- `posted.Has`, on a form that was parsed
posted_in : Option String → String → List (String × String) → Bool
posted_in (some text) field form = false
posted_in none field form = any_of (λ kv. kv.0 == field) form

abbrev has_field : String → Request → Bool
has_field field r = posted_in r.form_error field r.post_form

-- `strings.Join(…, ", ")`
pub joined : List String → String
joined [] = ""
joined (s ∷ []) = s
joined (s ∷ t ∷ ts) = s +++ (", " +++ joined (t ∷ ts))

save_key : String → String → M (Unit {0})
save_key key value = do
  saved ← exec (set_config key value)
  expect (λ e. plain 500 ("save failed: " +++ error_text e)) saved

-- a key is written only if the form carries its field
save_field : String → String → String → Request → M (Unit {0})
save_field field key value r = if has_field field r then save_key key value else pure tt

-- the certificate fields, in the order of `signingSettingsFields`
subject_fields : List (String × String)
subject_fields =
    ("org", "sign_org")
    ∷ ("ou", "sign_ou")
    ∷ ("locality", "sign_locality")
    ∷ ("state", "sign_state")
    ∷ ("country", "sign_country")
    ∷ []

save_subject : List (String × String) → Request → M (Unit {0})
save_subject [] r = pure tt
save_subject ((field, key) ∷ fields) r = do
  save_field field key (trim_space (form_value field r)) r
  save_subject fields r

-- `strconv.Atoi`, and the bound
is_count : Option ℤ → Bool
is_count none = false
is_count (some (negsuc n)) = false
is_count (some (pos n)) = true

save_keep : String → M (Unit {0})
save_keep v = do
  require (v == "" || is_count (parse_int v)) (plain 400 "release retention must be a number ≥ 0")
  save_key "prune_keep" v

module _ (x : Outside) where
  save_settings : Request → M (Unit {0})
  save_settings r = do
    save_subject subject_fields r
    save_field "bundle_prefix" "bundle_prefix"
        (trim_dots (trim_space (form_value "bundle_prefix" r))) r
    save_field "play_testers" "play_testers"
        (joined (normalize_tester_groups x (form_value "play_testers" r))) r
    save_field "play_tester_emails" "play_tester_emails"
        (joined (normalize_tester_groups x (form_value "play_tester_emails" r))) r
    if has_field "prune_keep" r then save_keep (trim_space (form_value "prune_keep" r)) else pure tt
    answer (flash "Settings saved. New keys will use this certificate name." "/settings")

  -- `handleSettings` for a POST
  unfoldable pub handle_settings_post : Request → M (Unit {0})
  unfolding posted_in joined save_key save_field subject_fields save_subject is_count save_keep
      save_settings
  handle_settings_post r =
      if r.path == "/settings/play" then handle_play_accounts_ui x r else save_settings r
