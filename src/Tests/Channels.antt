-- ===== src/Tests/Channels.antt =====
-- The theorems on channels, tester groups and pushes to Play at concrete inputs.
use release_hub.Base.{◌≤◌, String, Char, code, ◌+++◌, [], ◌∷◌, some, ◌≡◌, refl, false, ◌⊎◌}
use release_hub.Result.{ok}
use Prim.Native.String.{count}
use release_hub.Channel.Reached.{IsNameCode, track_for-IsNameCode}
use release_hub.Channel.{track_for, track_is_closed}
use release_hub.World.{call, done, PlayCall}
use release_hub.Play.{publish}
use release_hub.Play.Released.{release_name, pushed, publish-pushed}
use release_hub.Text.{ends_with}
use release_hub.Testers.{normalize_tester_groups}
use release_hub.Testers.Groups.{IsClean, normalize_tester_groups-IsClean}
use release_hub.Tests.Faithful.{outside}
use release_hub.Tests.{calm}

named_track : track_for "closed:qa-team" ≡ some "qa-team"
unfolding track_for
named_track = refl

track_for-IsNameCode_example :
    (2 ≤ count "qa-team")
    × (count "qa-team" ≤ 29)
    × ((before after : String) (c : Char)
        → "qa-team" ≡ before +++ String.◌∷◌ c after
        → IsNameCode (code c))
track_for-IsNameCode_example = track_for-IsNameCode "closed:qa-team" "qa-team" named_track

public_track : track_for "public" ≡ some "production"
unfolding track_for
public_track = refl

public_is_open : track_is_closed "public" ≡ false
unfolding track_is_closed
public_is_open = refl

pushed_now :
    (publish outside "hub-aab-1.aab" (1 ∷ 2 ∷ []) "public" "1.0" "" [] calm).0
    ≡ done (ok (release_name outside (1 ∷ 2 ∷ []) "public" "production" "1.0" "" [] calm))
unfolding publish track_for track_is_closed ends_with call
pushed_now = refl

publish-pushed_example :
    (release_name outside (1 ∷ 2 ∷ []) "public" "production" "1.0" "" [] calm
      ≡ release_name outside (1 ∷ 2 ∷ []) "public" "production" "1.0" "" [] calm)
    × (((publish outside "hub-aab-1.aab" (1 ∷ 2 ∷ []) "public" "1.0" "" [] calm).1.play
          ≡ pushed outside (1 ∷ 2 ∷ []) "public" "production" "1.0" "" [] calm)
        ⊎ ((publish outside "hub-aab-1.aab" (1 ∷ 2 ∷ []) "public" "1.0" "" [] calm).1.play
            ≡ PlayCall.edit_delete
              ∷ pushed outside (1 ∷ 2 ∷ []) "public" "production" "1.0" "" [] calm))
publish-pushed_example =
    publish-pushed outside (1 ∷ 2 ∷ []) "public" "production" "1.0" "" [] calm "hub-aab-1.aab"
      public_track public_is_open
      (release_name outside (1 ∷ 2 ∷ []) "public" "production" "1.0" "" [] calm) pushed_now

normalize_tester_groups-IsClean_example :
    IsClean (normalize_tester_groups outside "qa@example.com, qa@example.com;; dev@example.com")
normalize_tester_groups-IsClean_example =
    normalize_tester_groups-IsClean outside "qa@example.com, qa@example.com;; dev@example.com"
