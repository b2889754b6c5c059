-- ===== src/PlayAccounts/Linked.antt =====
-- The delete of a Play account in srv/api_releases.go, and the platforms that publish with it.
use release_hub.Base.{
  ℕ, true, some, none, List, [], ◌∷◌, ◌≡◌, refl, ◌⊎◌, inl, inr, Bool-cases, All, map, if◌then◌else◌,
}
use release_hub.Base.Int.{ℤ, pos, negsuc}
use release_hub.Db.{AppPlatform, Database}
use release_hub.Db.Config.{
  is_account, disable_play_on, delete_play_account_by_int64, delete_play_account,
}
use release_hub.Request.{Request}
use release_hub.World.{World, Outside, M, ◌>>=◌, ◌>>◌, expect, exec, answer, json, Json}
use release_hub.World.Calls.{Ends, after_call, Ends-kept}
use release_hub.Invariant.{Holds, Safe, Safe-bind, Safe-given, Safe-query, Safe-expect}
use release_hub.PlayAccounts.{failed_with, handle_api_delete_play_account}

-- A platform that publishes to Play has an account to do it with.
abbrev pub IsLinked : AppPlatform → Type 0
IsLinked p = (p.play_enabled ≡ 0) ⊎ ((id : ℕ) × (p.play_account_id ≡ some id))

abbrev pub EnabledIsLinked : Database → Type 0
EnabledIsLinked db = All IsLinked db.platforms

abbrev pub cleared_flag : ℕ → AppPlatform → AppPlatform
cleared_flag id p = if is_account id p.play_account_id then record p { play_enabled = 0 } else p

abbrev pub unlinked : ℕ → AppPlatform → AppPlatform
unlinked id p = if is_account id p.play_account_id then record p { play_account_id = none } else p

IsLinked-cleared_flag : (id : ℕ) (p : AppPlatform) → IsLinked p → IsLinked (cleared_flag id p)
IsLinked-cleared_flag id p h = elim (Bool-cases (is_account id p.play_account_id)) [
  | inl uses ↦ rw uses (inl refl)
  | inr other ↦ rw other h
]

IsLinked-unlinked :
    (id : ℕ) (p : AppPlatform) → IsLinked p → IsLinked (unlinked id (cleared_flag id p))
IsLinked-unlinked id p h = elim (Bool-cases (is_account id p.play_account_id)) [
  | inl uses ↦ rw (uses, uses) (inl refl)
  | inr other ↦ rw (other, other) h
]

pub All-cleared :
    (id : ℕ) (ps : List AppPlatform) → All IsLinked ps → All IsLinked (map (cleared_flag id) ps)
All-cleared id [] h = tt
All-cleared id (p ∷ ps) (hp, h) = (IsLinked-cleared_flag id p hp, All-cleared id ps h)

pub All-unlinked :
    (id : ℕ) (ps : List AppPlatform)
    → All IsLinked ps
    → All IsLinked (map (unlinked id) (map (cleared_flag id) ps))
All-unlinked id [] h = tt
All-unlinked id (p ∷ ps) (hp, h) = (IsLinked-unlinked id p hp, All-unlinked id ps h)

abbrev removed : ℤ → M (Unit {0})
removed id = do
  cleared ← exec (disable_play_on id)
  expect (failed_with "") cleared
  deleted ← exec (delete_play_account_by_int64 id)
  expect (failed_with "") deleted
  answer (json 200 (("deleted", Json.bool true) ∷ []))

-- The flags are cleared before the account goes, so a failure between the two leaves nothing enabled
-- without an account.
Safe-removed : (id : ℤ) → Safe EnabledIsLinked (removed id)
unfolding disable_play_on delete_play_account_by_int64 delete_play_account is_account
Safe-removed (pos id) = record {
  kept = record {
    at = λ w h.
        after_call (Ends (Holds EnabledIsLinked) (λ q. Holds EnabledIsLinked)) _ _ w (λ text. h)
          (after_call (Ends (Holds EnabledIsLinked) (λ q. Holds EnabledIsLinked)) _ _ _
            (λ text. All-cleared id w.db.platforms h) (All-unlinked id w.db.platforms h));
  };
}
Safe-removed (negsuc n) = record {
  kept = record {
    at = λ w h.
        after_call (Ends (Holds EnabledIsLinked) (λ q. Holds EnabledIsLinked)) _ _ w (λ text. h)
          (after_call (Ends (Holds EnabledIsLinked) (λ q. Holds EnabledIsLinked)) _ _ _ (λ text. h)
            h);
  };
}

-- If every platform that publishes to Play has an account, so it is after a delete of an account,
-- however the delete ends and whatever calls fail in it.
pub handle_api_delete_play_account-EnabledIsLinked :
    (x : Outside) (r : Request) (w : World)
    → EnabledIsLinked w.db
    → EnabledIsLinked (handle_api_delete_play_account x r w).1.db
unfolding handle_api_delete_play_account
handle_api_delete_play_account-EnabledIsLinked x r w h = Ends-kept (Holds EnabledIsLinked) _ (
    (Safe-bind _ _ (Safe-given _ _) λ id.
        Safe-bind _ _ (Safe-query _)
          λ found. Safe-bind _ _ (Safe-expect _ found) λ acct. Safe-removed id).kept.at
      w h)
