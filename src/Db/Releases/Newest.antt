-- ===== src/Db/Releases/Newest.antt =====
-- A release above all others of its platform, and the statements that leave it there.
use mathlib.Core.Path.{subst}
use release_hub.Base.{
  ℕ, zero, suc, ◌<◌, String, Bool, true, false, not, List, [], ◌∷◌, ◌++◌, ◌≡◌, refl, ap, ◌==◌,
  arith, map, drop, All, All-keep_if, keep_if, keep_if-append, keep_if-keep_if, keep_if_comm,
  append-nil, eq_iff, Bool-cases, inl, inr, if◌then◌else◌,
}
use release_hub.Base.Int.{ℤ, pos}
use release_hub.Db.{Database, Release}
use release_hub.Db.Order.{sort_desc, sort_desc-append_max, sort_desc-All}
use release_hub.Db.Releases.{
  code_of, on_platform, on_channel, is_release, with_play_status, list_releases_by_channel,
  latest_release_for_channel, set_play_status, delete_release_row,
}

-- The release's row is the last of the table, with some status at Play, and those of its platform
-- before it have smaller codes.
pub record IsNewest (r : Release) (db : Database) : Type 0 where
  pub older : List Release
  pub status : String
  pub error : String
  pub name : String
  pub stands : db.releases ≡ older ++ with_play_status status error name r ∷ []
  pub below : All (λ q. code_of q < code_of r) (keep_if (on_platform r.app_platform_id) older)

-- The row as it stands.
abbrev pub row_now : {r : Release} {db : Database} → IsNewest r db → Release
row_now {r} n = with_play_status n.status n.error n.name r

All-drop : (P : Release → Type 0) (n : ℕ) (rs : List Release) → All P rs → All P (drop n rs)
All-drop P zero rs h = h
All-drop P (suc n) [] h = tt
All-drop P (suc n) (r ∷ rs) (hr, h) = All-drop P n rs h

module _ (r : Release) (db : Database) (n : IsNewest r db) where
  abbrev pub IsBelow : Release → Type 0
  IsBelow q = code_of q < code_of r

  -- those of a channel are below it too
  keep_if-IsBelow :
      (channel : String) → All IsBelow (keep_if (on_channel r.app_platform_id channel) n.older)
  keep_if-IsBelow channel =
      subst (All (λ q. code_of q < code_of r))
        (keep_if-keep_if (λ q. q.channel == channel) (on_platform r.app_platform_id) n.older)
        (All-keep_if (λ q. code_of q < code_of r) (λ q. q.channel == channel) _ n.below)

  listed_on :
      (channel : String)
      → (r.channel == channel) ≡ true
      → list_releases_by_channel r.app_platform_id channel db
        ≡ row_now n ∷ sort_desc code_of (keep_if (on_channel r.app_platform_id channel) n.older)
  unfolding list_releases_by_channel
  listed_on channel e =
      rw
        (
          n.stands,
          keep_if-append (on_channel r.app_platform_id channel) n.older (row_now n ∷ []),
          itself,
        )
        (sort_desc-append_max code_of _ (row_now n) (keep_if-IsBelow channel))
    where
      itself : keep_if (on_channel r.app_platform_id channel) (row_now n ∷ []) ≡ row_now n ∷ []
      itself = unfold keep_if in ground (arith, e)

  not_listed_on :
      (channel : String)
      → (r.channel == channel) ≡ false
      → list_releases_by_channel r.app_platform_id channel db
        ≡ sort_desc code_of (keep_if (on_channel r.app_platform_id channel) n.older)
  unfolding list_releases_by_channel
  not_listed_on channel e =
      rw
        (
          n.stands,
          keep_if-append (on_channel r.app_platform_id channel) n.older (row_now n ∷ []),
          itself,
          append-nil (keep_if (on_channel r.app_platform_id channel) n.older),
        )
        refl
    where
      itself : keep_if (on_channel r.app_platform_id channel) (row_now n ∷ []) ≡ []
      itself = unfold keep_if in ground (arith, e)

  pub latest-IsNewest : latest_release_for_channel r.app_platform_id r.channel db ≡ row_now n ∷ []
  unfolding latest_release_for_channel
  latest-IsNewest = rw (listed_on r.channel ((eq_iff r.channel r.channel).1 refl)) refl

  -- All but the first on a channel are below it.
  pub drop-IsBelow :
      (keep : ℕ) (channel : String)
      → All IsBelow (drop (suc keep) (list_releases_by_channel r.app_platform_id channel db))
  drop-IsBelow keep channel =
      let rest = sort_desc-All code_of IsBelow _ (keep_if-IsBelow channel) in
      elim (Bool-cases (r.channel == channel)) [
        | inl here ↦ rw (listed_on channel here) (All-drop IsBelow keep _ rest)
        | inr elsewhere ↦ rw (not_listed_on channel elsewhere) (All-drop IsBelow (suc keep) _ rest)
      ]

-- An update that leaves platforms and codes alone leaves them below.
map-below :
    (bound id : ℕ) (f : Release → Release)
    → ((q : Release) → (code_of (f q) ≡ code_of q) × (on_platform id (f q) ≡ on_platform id q))
    → (rs : List Release) → All (λ q. code_of q < bound) (keep_if (on_platform id) rs)
    → All (λ q. code_of q < bound) (keep_if (on_platform id) (map f rs))
unfolding keep_if
map-below bound id f same [] h = tt
map-below bound id f same (q ∷ rs) h = elim (Bool-cases (on_platform id q)) [
  | inl here ↦
      let (hq, hs) = rw here at h in
      rw ((same q).1, here) (rw (same q).0 hq, map-below bound id f same rs hs)
  | inr elsewhere ↦ rw ((same q).1, elsewhere) (map-below bound id f same rs (rw elsewhere at h))
]

map-append :
    (f : Release → Release) (rs : List Release) (q : Release)
    → map f (rs ++ q ∷ []) ≡ map f rs ++ f q ∷ []
map-append f [] q = refl
map-append f (r ∷ rs) q = ap (λ qs. f r ∷ qs) (map-append f rs q)

module _ (r : Release) (db : Database) (n : IsNewest r db) where
  pub set_play_status-IsNewest :
      (status error name : String) (id : ℕ) (code : ℤ)
      → IsNewest r (set_play_status status error name id code db).1
  unfolding set_play_status
  set_play_status-IsNewest status error name id code =
      elim (Bool-cases (is_release id code (row_now n))) [
        | inl this ↦ record {
          older = map update n.older;
          status = status;
          error = error;
          name = name;
          stands = rw (n.stands, map-append update n.older (row_now n), this) refl;
          below = map-below r.version_code r.app_platform_id update same n.older n.below;
        }
        | inr other ↦ record {
          older = map update n.older;
          status = n.status;
          error = n.error;
          name = n.name;
          stands = rw (n.stands, map-append update n.older (row_now n), other) refl;
          below = map-below r.version_code r.app_platform_id update same n.older n.below;
        }
      ]
    where
      update : Release → Release
      update q = if is_release id code q then with_play_status status error name q else q

      same :
          (q : Release)
          → (code_of (update q) ≡ code_of q)
            × (on_platform r.app_platform_id (update q) ≡ on_platform r.app_platform_id q)
      same q = elim (Bool-cases (is_release id code q)) [
        | inl this ↦ rw this (refl, refl)
        | inr other ↦ rw other (refl, refl)
      ]

  pub delete_release_row-IsNewest :
      (id code : ℕ) → code < r.version_code → IsNewest r (delete_release_row id (pos code) db).1
  unfolding delete_release_row
  delete_release_row-IsNewest id code less = record {
    older = keep_if p n.older;
    status = n.status;
    error = n.error;
    name = n.name;
    stands = rw (n.stands, keep_if-append p n.older (row_now n ∷ []), stays) refl;
    below =
        rw (keep_if_comm (on_platform r.app_platform_id) p n.older)
          (All-keep_if (λ q. code_of q < code_of r) p _ n.below);
  }
    where
      p : Release → Bool
      p q = not (is_release id (pos code) q)

      stays : keep_if p (row_now n ∷ []) ≡ row_now n ∷ []
      stays = unfold keep_if in ground (arith, less)
