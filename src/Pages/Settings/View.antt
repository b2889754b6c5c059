-- ===== src/Pages/Settings/View.antt =====
-- srv/handlers_ui.go: the settings page, `handleSettings` for a GET.
pub mod Kept
use release_hub.Base.{
  ℕ, String, Bool, false, Option, none, some, List, [], ◌∷◌, ◌+++◌, eqb, map, keep_if,
}
use release_hub.Text.Number.{decimal}
use release_hub.Result.{Result, ok, err}
use release_hub.Db.{AppPlatform, PlayAccount, ApiToken}
use release_hub.Db.Apps.{list_platforms_with_play}
use release_hub.Db.Config.{get_config, list_api_tokens, is_account}
use release_hub.Request.{Request, flash_of}
use release_hub.Accounts.{play_email}
use release_hub.PlayAccounts.{must_list_play_accounts}
use release_hub.Page.{SettingsField, PlayAcctRow, SettingsPage}
use release_hub.Pages.Settings.{bundle_prefix}
use release_hub.World.{Outside, settings_page, M, ◌>>=◌, pure, answer, query}

-- an element of `signingSettingsFields`
record FieldSpec : Type 0 where
  field_name : String
  key : String
  label : String
  hint : String
  placeholder : String

abbrev field_spec : String → String → String → String → String → FieldSpec
field_spec name key label hint placeholder = record {
  field_name = name;
  key = key;
  label = label;
  hint = hint;
  placeholder = placeholder;
}

signing_settings_fields : List FieldSpec
signing_settings_fields =
    field_spec "org" "sign_org" "Organization (O)"
      "Company name baked into every generated signing certificate." "release-hub"
    ∷ field_spec "ou" "sign_ou" "Organizational unit (OU)" "Team or division." "Mobile"
    ∷ field_spec "locality" "sign_locality" "Locality (L)" "City." "Bengaluru"
    ∷ field_spec "state" "sign_state" "State (ST)" "State or province." "Karnataka"
    ∷ field_spec "country" "sign_country" "Country (C)" "Two-letter code." "IN"
    ∷ []

-- a value that is read with its error dropped
text_or_empty : Result String → String
text_or_empty (err e) = ""
text_or_empty (ok v) = v

setting_text : String → M String
setting_text key = do v ← query (get_config key); pure (text_or_empty v)

settings_fields : List FieldSpec → M (List SettingsField)
settings_fields [] = pure []
settings_fields (f ∷ fs) = do
  value ← setting_text f.key
  more ← settings_fields fs
  let row : SettingsField = record {
    name = f.field_name;
    value = value;
    label = f.label;
    hint = f.hint;
    placeholder = f.placeholder;
  }
  pure (row ∷ more)

tokens_or_none : Result (List ApiToken) → List ApiToken
tokens_or_none (err e) = []
tokens_or_none (ok tokens) = tokens

platform_text : AppPlatform → String
platform_text p = decimal p.app_id +++ ("/" +++ p.platform)

platforms_on : ℕ → Result (List AppPlatform) → List String
platforms_on id (err e) = []
platforms_on id (ok plats) =
    map platform_text (keep_if (λ p. is_account id p.play_account_id) plats)

module _ (x : Outside) where
  account_rows : List PlayAccount → M (List PlayAcctRow)
  account_rows [] = pure []
  account_rows (acct ∷ accounts) = do
    found ← query (λ db. ok (list_platforms_with_play db))
    more ← account_rows accounts
    let row : PlayAcctRow = record {
      id = decimal acct.id;
      email = play_email x acct.credentials;
      platforms = platforms_on acct.id found;
    }
    pure (row ∷ more)

  -- `handleSettings` for a GET; any message in the flash cookie is shown as the new token
  unfoldable pub handle_settings_get : Request → M (Unit {0})
  unfolding signing_settings_fields text_or_empty setting_text settings_fields tokens_or_none
      platform_text platforms_on account_rows
  handle_settings_get r = do
    fields ← settings_fields signing_settings_fields
    tokens ← query (λ db. ok (list_api_tokens db))
    beta ← setting_text "play_testers"
    emails ← setting_text "play_tester_emails"
    keep ← setting_text "prune_keep"
    accounts ← must_list_play_accounts
    rows ← account_rows accounts
    prefix ← bundle_prefix
    answer (
        settings_page (record {
          fields = fields;
          bundle_prefix = prefix;
          beta_testers = beta;
          tester_emails = emails;
          prune_keep = keep;
          tokens = tokens_or_none tokens;
          new_token = flash_of r;
          play_accounts = rows;
        }))
