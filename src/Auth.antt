-- ===== src/Auth.antt =====
-- srv/auth.go: bearer tokens of the API, and sessions of the pages.
pub mod Sessions
pub mod Opening
pub mod Kept
use release_hub.Base.{
  ℕ, ◌+◌, ◌*◌, String, Bool, Option, none, some, ◌==◌, ◌+++◌, if◌then◌else◌, ltb, starts_with, List,
  [],
}
use release_hub.Text.{drop_chars}
use release_hub.Result.{GoError, Result, ok, err}
use release_hub.Db.{ApiToken, Session}
use release_hub.Db.Config.{
  get_config, api_token_by_hash, touch_api_token, session_by_hash, create_session, delete_session,
}
use release_hub.Request.{Request}
use release_hub.World.{
  done, World, Outside, Bytes, Response, plain, redirect, M, ◌>>=◌, ◌>>◌, pure, answer, expect,
  require, query, exec, call, attempt, as_it_is,
}

-- 30 days, in seconds
abbrev pub session_ttl : ℕ
session_ttl = 30 * 24 * 3600

module _ (x : Outside) where
  -- `randomToken`
  unfoldable pub random_token : String → M (Result String)
  random_token prefix =
      attempt (call (λ w. (ok (x.random w.tick 32), w))) as_it_is
        λ b. pure (ok (prefix +++ ("_" +++ x.hex_encode b)))

  matches : String → Result String → Bool
  matches password (err e) = Bool.false
  matches password (ok hash) = if hash == "" then Bool.false else x.bcrypt_matches hash password

  -- `validPassword`
  unfoldable pub valid_password : String → M Bool
  unfolding matches
  valid_password password = do
    hash ← query (get_config "admin_password_hash")
    pure (matches password hash)

  -- `time.Now`
  abbrev pub clock : M ℕ
  clock w = (done w.now, w)

  not_expired : Result Session → M Bool
  not_expired (err e) = pure Bool.false
  not_expired (ok sess) = do now ← clock; pure (ltb now sess.expires_at)

  -- a cookie that is missing or empty is no session
  live_cookie : Option String → M Bool
  live_cookie none = pure Bool.false
  live_cookie (some value) =
      if value == ""
      then pure Bool.false
      else query (session_by_hash (x.hash_text value)) >>= not_expired

  -- `validSession`
  unfoldable pub valid_session : Request → M Bool
  unfolding live_cookie not_expired
  valid_session r = live_cookie r.cookie

  -- `requireUI`
  unfoldable pub require_ui : {A : Type 0} → (Request → M A) → Request → M A
  require_ui next r = do valid ← valid_session r; require valid (redirect "/login"); next r

  -- `requireAPI`
  unfoldable pub require_api : {A : Type 0} → (Request → M A) → Request → M A
  require_api next r = do
    require (starts_with r.authorization "Bearer ") (plain 401 "missing bearer token")
    let hash = x.hash_text (drop_chars "Bearer " r.authorization)
    found ← query (api_token_by_hash hash)
    expect (λ e. plain 401 "invalid token") found
    now ← clock
    exec (touch_api_token now hash)
    next r

  pub store_session : String → M (Result String)
  store_session token = do
    now ← clock
    let session : Session = record {
      token_hash = x.hash_text token;
      created_at = now;
      expires_at = now + session_ttl;
    }
    attempt (exec (create_session session)) as_it_is λ _. pure (ok token)

  -- `setSession`: the value of the cookie
  unfoldable pub set_session : M (Result String)
  unfolding store_session
  set_session = attempt (random_token "sess") as_it_is store_session

  drop_session : Option String → M (Unit {0})
  drop_session none = pure tt
  drop_session (some value) =
      if value == "" then pure tt else exec (delete_session (x.hash_text value)) >>= λ _. pure tt

  -- `clearSession`; the cookie is removed
  unfoldable pub clear_session : Request → M (Unit {0})
  unfolding drop_session
  clear_session r = drop_session r.cookie
