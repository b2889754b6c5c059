-- ===== src/Play/Errors.antt =====
-- `classifyPlayError` of srv/play.go: the hints behind the API's errors.
use release_hub.Base.{ℕ, String, ◌||◌, Option, none, some, ◌+++◌, if◌then◌else◌, eqb}
use release_hub.Text.{contains}
use release_hub.Result.{GoError, failure, error_text}
use release_hub.World.{Outside}

abbrev invalid_grant : String
invalid_grant =
    "credentials rejected (invalid_grant) — the service-account JSON key is wrong or revoked; upload a fresh key in Settings"

abbrev revoked : String
revoked = " — the service-account JSON key is wrong or revoked; upload a fresh key in Settings"

abbrev api_disabled : String
api_disabled =
    " — open the URL in this message and click Enable, wait a few minutes, then test again. (This is the Google Play Android Developer API switch in the service account's Cloud project; normally the Play Console → Setup → API access link enables it automatically.)"

abbrev no_access : String
no_access =
    " — no access to this package. Causes in order of likelihood: (1) app not created in Play yet (the API cannot create apps), (2) service account not invited in Play Console → Users & permissions → Invite new users with 'Create and manage releases', (3) API access not linked in Play Console → Setup → API access. Note: a newly invited service account or fresh API link can take up to 24h (usually minutes) to take effect."

abbrev no_such_app : String
no_such_app =
    " — no app with this package exists in Play yet; create it in Play Console first (the API cannot create apps)"

abbrev still_draft : String
still_draft =
    " — the app is still in DRAFT state on Play: non-internal 'completed' releases are blocked until the app has been sent for review at least once. In Play Console: Publishing overview → send the pending internal release for review (or create the closed release as a draft there and send it). After the app leaves draft, retry this upload (bump versionCode)."

forbidden : String → GoError
forbidden message =
    if contains message "has not been used in project" || contains message "it is disabled"
    then failure (message +++ api_disabled)
    else failure (message +++ no_access)

other_error : GoError → String → GoError
other_error e message =
    if contains message "Only releases with status draft may be created on draft app"
    then failure (message +++ still_draft)
    else e

of_code : GoError → ℕ → String → GoError
of_code e code message =
    if eqb code 401
    then failure (message +++ revoked)
    else if eqb code 403
    then forbidden message
    else if eqb code 404
    then failure (message +++ no_such_app)
    else other_error e message

with_hint : GoError → Option (ℕ × String) → GoError
with_hint e (some (code, message)) = of_code e code message
with_hint e none =
    if contains (error_text e) "invalid_grant" || contains (error_text e) "invalid_client"
    then failure invalid_grant
    else e

-- `classifyPlayError` on an error
unfoldable pub classify_play_error : Outside → GoError → GoError
unfolding with_hint of_code forbidden other_error
classify_play_error x e = with_hint e (x.api_error (error_text e))
