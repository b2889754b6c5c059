-- ===== src/Assets/Kept.antt =====
-- What the static files keep: every invariant of the database.
use release_hub.Base.{◌==◌}
use release_hub.Db.{Database}
use release_hub.Invariant.{Safe, Safe-bind, Safe-answer, Safe-require}
use release_hub.Request.{Request, path_value}
use release_hub.World.{Outside}
use release_hub.Assets.{EmbeddedFiles, asset_version, no_file, versioned_asset, current_asset}

module _ {I : Database → Type 0} (x : Outside) (files : EmbeddedFiles) where
  pub Safe-versioned_asset : (r : Request) → Safe I (versioned_asset x files r)
  unfolding versioned_asset
  Safe-versioned_asset r =
      Safe-bind _ _ (Safe-require (path_value "v" r == asset_version x files) no_file)
        λ _. Safe-answer _

  pub Safe-current_asset : (r : Request) → Safe I (current_asset x files r)
  unfolding current_asset
  Safe-current_asset r = Safe-answer _
