-- ===== src/Tests/Sessions.antt =====
-- The theorems on credentials, tokens and sessions at concrete inputs.
use release_hub.Base.{String, [], ◌∷◌, some, ◌≡◌, refl, false, ◌+++◌, ◌+◌, ltb, ◌++◌, any_of}
use release_hub.Result.{ok}
use release_hub.World.{call, World, done}
use release_hub.Request.{Request}
use release_hub.Secrets.{load_secret_key, encrypt_creds, decrypt_creds}
use release_hub.Secrets.RoundTrip.{decrypt_creds-encrypt_creds}
use release_hub.Auth.{random_token, set_session, valid_session, clear_session, session_ttl}
use release_hub.Auth.Sessions.{valid_session-set_session, valid_session-clear_session}
use release_hub.Db.Config.{create_session}
use release_hub.Tests.Faithful.{encode, zeros, outside, outside-IsFaithful}
use release_hub.Tests.{calm, request}

abbrev sealed : String
sealed = "aes:" +++ encode (zeros 12 ++ 7 ∷ 9 ∷ [])

encrypted : (encrypt_creds outside (7 ∷ 9 ∷ []) calm).0 ≡ done (ok sealed)
unfolding encrypt_creds load_secret_key call
encrypted = refl

decrypt_creds-encrypt_creds_example : decrypt_creds outside sealed ≡ ok (7 ∷ 9 ∷ [])
decrypt_creds-encrypt_creds_example =
    decrypt_creds-encrypt_creds outside outside-IsFaithful (7 ∷ 9 ∷ []) sealed calm encrypted

abbrev token : String
token = "sess" +++ ("_" +++ encode (zeros 32))

logged_in : (set_session outside calm).0 ≡ done (ok token)
unfolding set_session random_token call create_session any_of
logged_in = refl

abbrev with_cookie : Request
with_cookie = record request { cookie = some token }

abbrev later : World
later = record calm { db = (set_session outside calm).1.db; now = 200 }

valid_session-set_session_example :
    (valid_session outside with_cookie later).0 ≡ done (ltb 200 (100 + session_ttl))
valid_session-set_session_example =
    valid_session-set_session outside calm token logged_in with_cookie later refl refl (λ n. refl)

valid_session-clear_session_example :
    (valid_session outside with_cookie (clear_session outside with_cookie later).1).0 ≡ done false
valid_session-clear_session_example =
    valid_session-clear_session outside with_cookie later (λ n. refl)
