-- ===== src/Pages/Settings/View/Kept.antt =====
-- What the settings page keeps: every invariant of the database.
use release_hub.Base.{String, List, [], ◌∷◌}
use release_hub.Db.{Database, PlayAccount}
use release_hub.Invariant.{Safe, Safe-bind, Safe-query, Safe-pure, Safe-answer}
use release_hub.Request.{Request}
use release_hub.PlayAccounts.Kept.{Safe-must_list_play_accounts}
use release_hub.Pages.Settings.{bundle_prefix}
use release_hub.World.{Outside}
use release_hub.Pages.Settings.View.{
  FieldSpec, signing_settings_fields, setting_text, settings_fields, account_rows,
  handle_settings_get,
}

module _ {I : Database → Type 0} where
  Safe-setting_text : (key : String) → Safe I (setting_text key)
  unfolding setting_text
  Safe-setting_text key = Safe-bind _ _ (Safe-query _) λ v. Safe-pure _

  Safe-settings_fields : (fs : List FieldSpec) → Safe I (settings_fields fs)
  unfolding settings_fields
  Safe-settings_fields [] = Safe-pure _
  Safe-settings_fields (f ∷ fs) =
      Safe-bind _ _ (Safe-setting_text _)
        λ value. Safe-bind _ _ (Safe-settings_fields fs) λ more. Safe-pure _

  module _ (x : Outside) where
    Safe-account_rows : (accounts : List PlayAccount) → Safe I (account_rows x accounts)
    unfolding account_rows
    Safe-account_rows [] = Safe-pure _
    Safe-account_rows (acct ∷ accounts) =
        Safe-bind _ _ (Safe-query _)
          λ found. Safe-bind _ _ (Safe-account_rows accounts) λ more. Safe-pure _

    pub Safe-handle_settings_get : (r : Request) → Safe I (handle_settings_get x r)
    unfolding handle_settings_get bundle_prefix
    Safe-handle_settings_get r =
        Safe-bind _ _ (Safe-settings_fields signing_settings_fields) λ fields.
          Safe-bind _ _ (Safe-query _) λ tokens. Safe-bind _ _ (Safe-setting_text _) λ beta.
            Safe-bind _ _ (Safe-setting_text _) λ emails.
              Safe-bind _ _ (Safe-setting_text _) λ keep.
                Safe-bind _ _ (Safe-must_list_play_accounts x) λ accounts.
                  Safe-bind _ _ (Safe-account_rows accounts) λ rows.
                    Safe-bind _ _ (Safe-bind _ _ (Safe-query _) λ v. Safe-pure _)
                      λ prefix. Safe-answer _
