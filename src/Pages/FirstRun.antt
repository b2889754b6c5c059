-- ===== src/Pages/FirstRun.antt =====
-- srv/handlers_ui.go: from the first run to the login.
use release_hub.Base.{
  suc, String, Bool, true, false, not, ◌≡◌, refl, ◌∙◌, ◌==◌, ltb, if◌then◌else◌, Bool-cases, inl,
  inr,
}
use release_hub.Result.{no_rows, Result, ok, err}
use release_hub.Db.Config.{get_config, set_config}
use release_hub.Db.Config.Lookup.{get_config-set_config}
use release_hub.Auth.{set_session, valid_password}
use release_hub.Auth.Opening.{Continues-set_session, set_session-done, IsFresh}
use release_hub.Request.{Request, form_value}
use release_hub.Pages.{
  has_password, is_set, byte_length, saved_hash, store_password, choose_password, handle_first_run,
  signed_in, handle_login,
}
use release_hub.World.{
  World, Outside, Outcome, answered, plain, page, redirect, M, ◌>>=◌, ◌>>◌, continue, answer,
  expect, require,
}
use release_hub.World.Calls.{NoFaults, fine_call}

abbrev pub key : String
key = "admin_password_hash"

abbrev pub password : Request → String
password r = form_value "password" r

module _ (x : Outside) where
  -- The first run is over, and this hash is stored.
  abbrev Chosen : String → Outcome (Unit {0}) × World → Type 0
  Chosen hash (o, w') = (o ≡ answered (redirect "/apps")) × (get_config key w'.db ≡ ok hash)

  Chosen-set_session :
      (hash : String) (w : World)
      → get_config key w.db ≡ ok hash
      → Chosen hash ((set_session x >> answer (redirect "/apps")) w)
  Chosen-set_session hash w stored =
      let (a, over, kept) = Continues-set_session x key w in rw over (refl, kept ∙ stored)

  -- the rest of `handleFirstRun`
  abbrev first_run_on : Request → Result Bool → M (Unit {0})
  first_run_on r found = do
    set ← expect (λ e. plain 500 "db error") found
    require (not set) (redirect "/login")
    if r.method == "GET" then answer (page 200 "") else choose_password x r

  Chosen-handle_first_run :
      (r : Request) (w : World) (hash : String)
      → NoFaults w
      → get_config key w.db ≡ err no_rows
      → (r.method == "GET") ≡ false
      → ltb (byte_length (password r)) 8 ≡ false
      → (password r == form_value "password2" r) ≡ true
      → x.bcrypt_hash (suc w.tick) (password r) ≡ ok hash
      → Chosen hash (handle_first_run x r w)
  unfolding handle_first_run has_password is_set choose_password store_password saved_hash
      set_config
  Chosen-handle_first_run r w hash h none_yet post long same hashed =
      fine_call (λ (o, w'). Chosen hash (continue o (first_run_on r) w')) _ _ w h
        (rw (none_yet, post, long, same)
          (fine_call (Chosen hash) _ _ _ h (
            rw hashed (
              fine_call (Chosen hash) _ _ _ h
                (Chosen-set_session hash _ (get_config-set_config key hash w.db))))))

  -- the rest of `handleLogin`
  abbrev login_on : Bool → M (Unit {0})
  login_on right = do
    require right (page 401 "Wrong password")
    started ← set_session x
    expect (λ e. plain 500 "session error") started
    answer (redirect "/apps")

  abbrev pub login_answer : String → Request → Outcome (Unit {0})
  login_answer hash r =
      if x.bcrypt_matches hash (password r)
      then answered (redirect "/apps")
      else answered (page 401 "Wrong password")

  login_on-login_answer :
      (hash : String) (r : Request) (w : World)
      → NoFaults w
      → IsFresh x w.tick w
      → (login_on (x.bcrypt_matches hash (password r)) w).0 ≡ login_answer hash r
  login_on-login_answer hash r w h fresh = elim (Bool-cases (x.bcrypt_matches hash (password r))) [
    | inl right ↦ rw (right, set_session-done x w h fresh) refl
    | inr wrong ↦ rw wrong refl
  ]

  handle_login-login_answer :
      (hash : String) (r : Request) (w : World)
      → NoFaults w
      → get_config key w.db ≡ ok hash
      → (hash == "") ≡ false
      → (r.method == "GET") ≡ false
      → IsFresh x (suc w.tick) w
      → (handle_login x r w).0 ≡ login_answer hash r
  unfolding handle_login signed_in valid_password
  handle_login-login_answer hash r w h stored filled post fresh = rw post (
      fine_call (λ (o, w'). (continue o login_on w').0 ≡ login_answer hash r) _ _ w h
        (rw (stored, filled) (login_on-login_answer hash r _ h fresh)))

  handle_first_run-closed :
      (hash : String) (r : Request) (w : World)
      → NoFaults w
      → get_config key w.db ≡ ok hash
      → (handle_first_run x r w).0 ≡ answered (redirect "/login")
  unfolding handle_first_run has_password is_set
  handle_first_run-closed hash r w h stored =
      fine_call (λ (o, w'). (continue o (first_run_on r) w').0 ≡ answered (redirect "/login")) _ _ w
        h (rw stored refl)

  -- On a hub without a password, where no call fails and bcrypt hashes the password to a text that is
  -- not empty, a first run in which a password of 8 bytes or more is typed twice goes through to the
  -- apps. In any later state that has the same settings, in which no call fails, and no session has
  -- the token that is drawn next, the login form is answered by what bcrypt says of that hash: it goes
  -- through to the apps, or the page says that the password is wrong; and no first run is let in
  -- again.
  pub handle_first_run-handle_login :
      (first : Request) (w : World) (hash : String)
      → NoFaults w
      → get_config key w.db ≡ err no_rows
      → (first.method == "GET") ≡ false
      → ltb (byte_length (password first)) 8 ≡ false
      → (password first == form_value "password2" first) ≡ true
      → x.bcrypt_hash (suc w.tick) (password first) ≡ ok hash
      → (hash == "") ≡ false
      → (later : World) → later.db.config ≡ (handle_first_run x first w).1.db.config
      → NoFaults later
      → IsFresh x (suc later.tick) later
      → (form : Request) → (form.method == "GET") ≡ false
      → ((handle_first_run x first w).0 ≡ answered (redirect "/apps"))
        × ((handle_login x form later).0 ≡ login_answer hash form)
        × ((again : Request) → (handle_first_run x again later).0 ≡ answered (redirect "/login"))
  unfolding get_config
  handle_first_run-handle_login first w hash h none_yet post long same hashed filled later settings
        h' fresh form posted =
      let (through, set) = Chosen-handle_first_run first w hash h none_yet post long same hashed in
      let stored : get_config key later.db ≡ ok hash = rw settings set in
      (
        through,
        handle_login-login_answer hash form later h' stored filled posted fresh,
        λ again. handle_first_run-closed hash again later h' stored,
      )
