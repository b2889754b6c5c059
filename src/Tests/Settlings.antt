-- ===== src/Tests/Settlings.antt =====
-- The settling of Play's answers at a concrete input: a platform with a release of which Play has the
-- name.
use release_hub.Base.{String, List, [], ◌∷◌, some, ◌≡◌, refl, find_first}
use release_hub.Result.{ok}
use release_hub.Db.{AppPlatform, PlayAccount, empty_database}
use release_hub.Db.Config.{play_account_by_id}
use release_hub.Db.Integrity.{HasUniqueCodes}
use release_hub.Db.Order.{keep_if-Distinct}
use release_hub.Db.Releases.{code_of, on_platform, list_releases}
use release_hub.Secrets.{decrypt_creds}
use release_hub.PlayStatus.{settle_play_status}
use release_hub.PlayStatus.Settling.{Settles, settle_play_status-Settles}
use release_hub.World.{World, Outside}
use release_hub.Tests.{demo, calm, release}
use release_hub.Tests.Faithful.{outside, decode}

abbrev linked : AppPlatform
linked = record demo { play_enabled = 1; play_account_id = some 1 }

abbrev account : PlayAccount
account = record { id = 1; label = "main"; credentials = "plain:" }

abbrev waiting : World
waiting = record calm {
  db = record empty_database {
    platforms = linked ∷ [];
    play_accounts = account ∷ [];
    releases = release 3 ∷ record (release 4) { channel = "beta" } ∷ [];
  };
}

abbrev with_tracks : Outside
with_tracks = record outside { live_tracks = λ log. ("beta", "1.0 (4)" ∷ []) ∷ [] }

abbrev same_order : List String → List String
same_order names = names

waiting-HasUniqueCodes : HasUniqueCodes waiting.db
waiting-HasUniqueCodes id =
    keep_if-Distinct code_of (on_platform id) waiting.db.releases ((refl, tt), (tt, tt))

account_found : play_account_by_id 1 waiting.db ≡ ok account
unfolding play_account_by_id find_first
account_found = refl

account_opened : decrypt_creds with_tracks "plain:" ≡ ok []
unfolding decrypt_creds decode
account_opened = refl

settle_play_status-Settles_example :
    Settles with_tracks same_order linked waiting
      (settle_play_status with_tracks same_order linked (list_releases 1 waiting.db) waiting)
settle_play_status-Settles_example =
    settle_play_status-Settles with_tracks same_order linked waiting
      (λ names name. (λ h. h, λ h. h)) 1 account [] "hub@example.com" (λ n. refl)
      waiting-HasUniqueCodes refl account_found account_opened refl refl refl
