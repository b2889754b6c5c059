-- ===== src/Pages/Linked.antt =====
-- The delete of a Play account from the settings page of srv/handlers_ui.go, and the platforms that
-- publish with it.
use release_hub.Base.{true, ◌==◌, ◌≡◌}
use release_hub.Base.Int.{ℤ, pos, negsuc}
use release_hub.Db.Config.{
  is_account, disable_play_on, delete_play_account_by_int64, delete_play_account,
}
use release_hub.Request.{Request, form_value}
use release_hub.World.{World, Outside, ◌>>=◌, exec}
use release_hub.World.Calls.{Ends, after_call, Ends-kept}
use release_hub.Invariant.{Holds, Safe, Safe-bind, Safe-given}
use release_hub.PlayAccounts.Linked.{EnabledIsLinked, All-cleared, All-unlinked}
use release_hub.Pages.{account_deleted, flags_cleared, remove_account, handle_play_accounts_ui}

module _ (x : Outside) where
  Safe-flags_cleared :
      (id : ℤ) → Safe EnabledIsLinked (exec (disable_play_on id) >>= flags_cleared x id)
  unfolding flags_cleared account_deleted disable_play_on delete_play_account_by_int64
      delete_play_account is_account
  Safe-flags_cleared (pos id) = record {
    kept = record {
      at = λ w h.
          after_call (Ends (Holds EnabledIsLinked) (λ q. Holds EnabledIsLinked)) _ _ w (λ text. h)
            (after_call (Ends (Holds EnabledIsLinked) (λ q. Holds EnabledIsLinked)) _ _ _
              (λ text. All-cleared id w.db.platforms h) (All-unlinked id w.db.platforms h));
    };
  }
  Safe-flags_cleared (negsuc n) = record {
    kept = record {
      at = λ w h.
          after_call (Ends (Holds EnabledIsLinked) (λ q. Holds EnabledIsLinked)) _ _ w (λ text. h)
            (after_call (Ends (Holds EnabledIsLinked) (λ q. Holds EnabledIsLinked)) _ _ _
              (λ text. h) h);
    };
  }

  -- If every platform that publishes to Play has an account, so it is after the settings page has
  -- deleted an account, however the delete ends and whatever calls fail in it.
  pub handle_play_accounts_ui-EnabledIsLinked :
      (r : Request) (w : World)
      → (form_value "action" r == "delete") ≡ true
      → EnabledIsLinked w.db
      → EnabledIsLinked (handle_play_accounts_ui x r w).1.db
  unfolding handle_play_accounts_ui remove_account
  handle_play_accounts_ui-EnabledIsLinked r w delete h = rw delete (
      Ends-kept (Holds EnabledIsLinked) _
        ((Safe-bind _ _ (Safe-given _ _) Safe-flags_cleared).kept.at w h))
