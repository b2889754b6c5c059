-- ===== src/Assets/Contained.antt =====
-- What the static files give away.
use release_hub.Base.{
  String, ◌∷◌, none, some, ◌≡◌, sym, ap, ◌∙◌, refl, ◌⊎◌, inl, inr, ◌+++◌, ◌==◌, Bool-cases,
  Option-cases, eq_iff,
}
use release_hub.Text.PathName.{base_name}
use release_hub.Text.PathName.Contained.{HasNoSlash, base_name-HasNoSlash}
use release_hub.Request.{Request, path_value}
use release_hub.World.{World, Outside, Outcome, Bytes, Fields, Json, binary, answered}
use release_hub.Assets.{
  EmbeddedFiles, read_embedded, asset_version, asset_answer, asset_path, no_file, versioned_asset,
  current_asset,
}

module _ (x : Outside) (files : EmbeddedFiles) where
  -- The answer is that nothing is there, or a file that stands in the static directory itself, with this
  -- word on caching.
  abbrev pub Serves : String → Outcome (Unit {0}) → Type 0
  Serves cache o =
      (o ≡ answered no_file)
      ⊎ ((name : String) × HasNoSlash name
          × (b : Bytes) × (read_embedded ("static/" +++ name) files ≡ some b)
          × (type : Fields) × (o ≡ answered (binary (("Cache-Control", Json.str cache) ∷ type) b)))

  asset_answer-Serves :
      (cache path : String)
      → read_embedded "static//" files ≡ none
      → Serves cache
          (answered (asset_answer cache (asset_path path) (read_embedded (asset_path path) files)))
  unfolding asset_answer
  asset_answer-Serves cache path no_root =
      elim (Option-cases (read_embedded (asset_path path) files)) [
        | inl missing ↦ rw missing (inl refl)
        | inr (b, found) ↦ elim (base_name-HasNoSlash path) [
          | inl root ↦
              absurd
                (cc (sym found ∙ ap (λ s. read_embedded ("static/" +++ s) files) root ∙ no_root))
          | inr name ↦ rw found (inr (base_name path, name, b, found, _, refl))
        ]
      ]

  -- If the static directory is no file, then whatever the URL of a request for a static file, with any
  -- slashes and `..` in it, the answer is that nothing is there, or a file that stands in that directory
  -- itself: with leave to keep it forever only at a URL with the version of these files, and without such
  -- leave at any other URL.
  pub versioned_asset-Serves :
      (r : Request) (w : World)
      → read_embedded "static//" files ≡ none
      → (((versioned_asset x files r w).0 ≡ answered no_file)
          ⊎ ((path_value "v" r ≡ asset_version x files)
              × Serves "public, max-age=31536000, immutable" (versioned_asset x files r w).0))
        × Serves "no-cache" (current_asset x files r w).0
  unfolding versioned_asset current_asset
  versioned_asset-Serves r w no_root = (
    elim (Bool-cases (path_value "v" r == asset_version x files)) [
      | inl current ↦
          rw current
            (inr ((eq_iff _ _).0 current, asset_answer-Serves _ (path_value "file" r) no_root))
      | inr old ↦ rw old (inl refl)
    ],
    asset_answer-Serves _ r.path no_root,
  )
