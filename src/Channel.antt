-- ===== src/Channel.antt =====
-- srv/play.go: the hub's channels and the Play tracks that they stand for.
pub mod Reached
use Prim.Native.String.{[], ◌∷◌, count}
use release_hub.Base.{
  String, Char, code, Bool, true, false, ◌&&◌, ◌||◌, ◌≡◌, refl, Option, none, some, leb, eqb, ◌==◌,
  starts_with, if◌then◌else◌,
}
use release_hub.Text.{drop_chars}

is_alnum : Char → Bool
is_alnum c =
    let n = code c in
    (leb b'a' n && leb n b'z') || (leb b'A' n && leb n b'Z') || (leb b'0' n && leb n b'9')

alnum_or_dash : String → Bool
alnum_or_dash [] = true
alnum_or_dash (c ∷ s) = (is_alnum c || eqb (code c) b'-') && alnum_or_dash s

-- `closedTrackNameRx`: ^[a-zA-Z0-9][a-zA-Z0-9-]{1,28}$
unfoldable pub closed_track_name : String → Bool
unfolding is_alnum alnum_or_dash
closed_track_name [] = false
closed_track_name (c ∷ s) = is_alnum c && alnum_or_dash s && leb 1 (count s) && leb (count s) 28

abbrev pub alpha_track : String
alpha_track = "alpha"

-- `trackFor`; `none` is the result ("", false).
unfoldable pub track_for : String → Option String
unfolding closed_track_name drop_chars
track_for channel =
    if channel == "public"
    then some "production"
    else if channel == "beta" || channel == "open"
    then some "beta"
    else if channel == "alpha"
    then some alpha_track
    else if channel == "internal"
    then some "internal"
    else if channel == "direct"
    then none
    else if channel == "closed"
    then some alpha_track
    else if starts_with channel "closed:" && closed_track_name (drop_chars "closed:" channel)
    then some (drop_chars "closed:" channel)
    else none

abbrev pub is_some {ℓ} : {A : Type ℓ} → Option A → Bool
is_some none = false
is_some (some a) = true

-- `trackIsClosed`
unfoldable pub track_is_closed : String → Bool
unfolding track_for
track_is_closed channel =
    is_some (track_for channel)
    && (channel == "alpha" || channel == "closed" || starts_with channel "closed:")

tracks : (track_for "closed:qa-team" ≡ some "qa-team")
unfolding track_for
tracks = refl
