-- ===== src/Pages/Settings/Kept.antt =====
-- What the settings form keeps: every invariant of the database.
use release_hub.Base.{String, List, [], ◌∷◌, ◌==◌}
use release_hub.Db.{Database}
use release_hub.Invariant.{
  IsInvariant, Safe, Safe-exec, Safe-bind, Safe-pure, Safe-if, Safe-expect, Safe-require,
  Safe-answer,
}
use release_hub.Request.{Request}
use release_hub.Pages.Kept.{Safe-handle_play_accounts_ui}
use release_hub.World.{Outside}
use release_hub.Pages.Settings.{
  save_key, save_field, save_subject, subject_fields, save_keep, save_settings,
  handle_settings_post, has_field,
}

module _ {I : Database → Type 0} (inv : IsInvariant I) where
  Safe-save_key : (key value : String) → Safe I (save_key key value)
  unfolding save_key
  Safe-save_key key value =
      Safe-bind _ _ (Safe-exec _ (inv.config_set key value)) λ saved. Safe-expect _ saved

  Safe-save_field : (field key value : String) (r : Request) → Safe I (save_field field key value r)
  unfolding save_field
  Safe-save_field field key value r =
      Safe-if (has_field field r) _ _ (Safe-save_key key value) (Safe-pure _)

  Safe-save_subject :
      (fields : List (String × String)) (r : Request) → Safe I (save_subject fields r)
  unfolding save_subject
  Safe-save_subject [] r = Safe-pure _
  Safe-save_subject ((field, key) ∷ fields) r =
      Safe-bind _ _ (Safe-save_field field key _ r) λ _. Safe-save_subject fields r

  Safe-save_keep : (v : String) → Safe I (save_keep v)
  unfolding save_keep
  Safe-save_keep v = Safe-bind _ _ (Safe-require _ _) λ _. Safe-save_key "prune_keep" v

  module _ (x : Outside) where
    Safe-save_settings : (r : Request) → Safe I (save_settings x r)
    unfolding save_settings
    Safe-save_settings r = Safe-bind _ _ (Safe-save_subject subject_fields r) λ _.
        Safe-bind _ _ (Safe-save_field _ _ _ r) λ _. Safe-bind _ _ (Safe-save_field _ _ _ r) λ _.
          Safe-bind _ _ (Safe-save_field _ _ _ r) λ _.
            Safe-bind _ _ (Safe-if (has_field "prune_keep" r) _ _ (Safe-save_keep _) (Safe-pure _))
              λ _. Safe-answer _

    pub Safe-handle_settings_post : (r : Request) → Safe I (handle_settings_post x r)
    unfolding handle_settings_post
    Safe-handle_settings_post r =
        Safe-if (r.path == "/settings/play") _ _ (Safe-handle_play_accounts_ui x inv r)
          (Safe-save_settings r)
