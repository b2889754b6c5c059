-- ===== src/Auth/Kept.antt =====
-- What tokens and sessions keep: every invariant of the database.
use release_hub.Base.{String, Option, none, some}
use release_hub.Result.{Result, ok, err}
use release_hub.Db.{Database, Session}
use release_hub.Invariant.{
  IsInvariant, Safe, Safe-exec, Safe-bind, Safe-require, Safe-expect, Safe-query, safe_rules,
}
use release_hub.Request.{Request}
use release_hub.World.{Outside, M}
use release_hub.Auth.{
  random_token, valid_password, clock, not_expired, live_cookie, valid_session, require_ui,
  require_api, store_session, set_session, drop_session, clear_session,
}

module _ (x : Outside) {I : Database → Type 0} where
  Safe-clock : Safe I (clock x)
  Safe-clock = record { kept = record { at = λ w h. h } }

  pub Safe-random_token : (prefix : String) → Safe I (random_token x prefix)
  unfolding random_token
  Safe-random_token prefix = search safe_rules

  pub Safe-valid_password : (password : String) → Safe I (valid_password x password)
  unfolding valid_password
  Safe-valid_password password = search safe_rules

  Safe-not_expired : (r : Result Session) → Safe I (not_expired x r)
  unfolding not_expired
  Safe-not_expired (err e) = search safe_rules
  Safe-not_expired (ok sess) = search (safe_rules, Safe-clock)

  Safe-live_cookie : (cookie : Option String) → Safe I (live_cookie x cookie)
  unfolding live_cookie
  Safe-live_cookie none = search safe_rules
  Safe-live_cookie (some value) = search (safe_rules, Safe-not_expired)

  pub Safe-valid_session : (r : Request) → Safe I (valid_session x r)
  unfolding valid_session
  Safe-valid_session r = Safe-live_cookie r.cookie

  module _ {A : Type 0} (next : Request → M A) (safe : (r : Request) → Safe I (next r)) where
    pub Safe-require_ui : (r : Request) → Safe I (require_ui x next r)
    unfolding require_ui
    Safe-require_ui r = search (safe_rules, Safe-valid_session, safe)

    pub Safe-require_api : IsInvariant I → (r : Request) → Safe I (require_api x next r)
    unfolding require_api
    Safe-require_api inv r = Safe-bind _ _ (Safe-require _ _) λ _.
        Safe-bind _ _ (Safe-query _) λ found. Safe-bind _ _ (Safe-expect _ found) λ token.
          Safe-bind _ _ Safe-clock
            λ now. Safe-bind _ _ (Safe-exec _ (inv.token_touched now _)) λ _. safe r

module _ (x : Outside) {I : Database → Type 0} (inv : IsInvariant I) where
  Safe-store_session : (token : String) → Safe I (store_session x token)
  unfolding store_session
  Safe-store_session token =
      search (safe_rules, Safe-clock, Safe-exec, inv.session_created) depth 24

  pub Safe-set_session : Safe I (set_session x)
  unfolding set_session
  Safe-set_session = search (safe_rules, Safe-random_token, Safe-store_session)

  Safe-drop_session : (cookie : Option String) → Safe I (drop_session x cookie)
  unfolding drop_session
  Safe-drop_session none = search safe_rules
  Safe-drop_session (some value) = search (safe_rules, Safe-exec, inv.session_deleted)

  pub Safe-clear_session : (r : Request) → Safe I (clear_session x r)
  unfolding clear_session
  Safe-clear_session r = Safe-drop_session r.cookie
