-- ===== src/Auth/Sessions.antt =====
-- Who gets through the two guards of srv/auth.go.
use release_hub.Base.{
  ℕ, ◌+◌, String, false, Option, none, some, ◌≡◌, refl, sym, ◌∙◌, ◌==◌, ◌⊎◌, Bool-cases, inl, inr,
  starts_with, Bool, ltb, arith, List, [], ◌∷◌, ◌++◌, any_of, find_first, keep_if, not, eq_iff,
}
use release_hub.Text.Prefix.{prefixed-ne}
use release_hub.Result.{no_rows, GoError, Result, ok, err}
use release_hub.Text.{drop_chars}
use release_hub.Db.{Session}
use release_hub.Db.Config.{api_token_by_hash, session_by_hash, create_session, delete_session}
use release_hub.Request.{Request}
use release_hub.World.{
  World, Outside, Outcome, done, answered, plain, redirect, M, ◌>>=◌, or_return, query, as_it_is,
  continue,
}
use release_hub.World.Calls.{NoFaults, after_call, fine_call}
use release_hub.Auth.{
  random_token, require_ui, require_api, valid_session, set_session, session_ttl, live_cookie,
  not_expired, clear_session, drop_session, store_session,
}

module _ (x : Outside) {A : Type 0} (next : Request → M A) (r : Request) (w : World) where
  -- A request refused with 401, and nothing changed but the number of calls.
  abbrev pub Refused : Outcome A → World → Type 0
  Refused o w' =
      ((o ≡ answered (plain 401 "missing bearer token"))
        ⊎ (o ≡ answered (plain 401 "invalid token")))
      × ((w'.db ≡ w.db) × ((w'.files ≡ w.files) × (w'.play ≡ w.play)))

  -- A request without a bearer token of which the hub stores the hash is refused with 401, whatever
  -- calls fail: the guarded handler is not run, and no state is changed.
  pub require_api-Refused :
      (e : GoError)
      → api_token_by_hash (x.hash_text (drop_chars "Bearer " r.authorization)) w.db ≡ err e
      → Refused (require_api x next r w).0 (require_api x next r w).1
  unfolding require_api
  require_api-Refused e unknown = elim (Bool-cases (starts_with r.authorization "Bearer ")) [
    | inl bearer ↦ rw bearer (
        after_call (λ (o, w'). Refused o w') _ _ w (λ t. (inr refl, (refl, (refl, refl))))
          (rw unknown (inr refl, (refl, (refl, refl)))))
    | inr other ↦ rw other (inl refl, (refl, (refl, refl)))
  ]

module _ (x : Outside) {A : Type 0} (next : Request → M A) (r : Request) (w : World) where
  -- No session, and nothing changed but the number of calls.
  abbrev Unrecognised : Outcome Bool × World → Type 0
  Unrecognised (o, w') =
      (o ≡ done false) × ((w'.db ≡ w.db) × ((w'.files ≡ w.files) × (w'.play ≡ w.play)))

  live_cookie-Unrecognised :
      (cookie : Option String)
      → ((value : String)
          → cookie ≡ some value
          → session_by_hash (x.hash_text value) w.db ≡ err no_rows)
      → Unrecognised (live_cookie x cookie w)
  unfolding live_cookie not_expired
  live_cookie-Unrecognised none missing = (refl, (refl, (refl, refl)))
  live_cookie-Unrecognised (some value) missing = elim (Bool-cases (value == "")) [
    | inl empty ↦ rw empty (refl, (refl, (refl, refl)))
    | inr other ↦ rw other (
        after_call Unrecognised _ _ w (λ text. (refl, (refl, (refl, refl))))
          (rw (missing value refl) (refl, (refl, (refl, refl)))))
  ]

  -- A request without a session that the hub stores is sent to the login, whatever calls fail: the
  -- guarded handler is not run, and no state is changed.
  pub require_ui-Redirected :
      ((value : String)
        → r.cookie ≡ some value
        → session_by_hash (x.hash_text value) w.db ≡ err no_rows)
      → ((require_ui x next r w).0 ≡ answered (redirect "/login"))
        × (((require_ui x next r w).1.db ≡ w.db)
            × (((require_ui x next r w).1.files ≡ w.files)
                × ((require_ui x next r w).1.play ≡ w.play)))
  unfolding require_ui valid_session
  require_ui-Redirected missing =
      let (no_session, same) = live_cookie-Unrecognised r.cookie missing in
      rw no_session (refl, same)

module _ (x : Outside) where
  find_first-append :
      (h : String) (s : Session) (ss : List Session)
      → any_of (λ t. t.token_hash == h) ss ≡ false
      → s.token_hash ≡ h
      → find_first (λ t. t.token_hash == h) (ss ++ s ∷ []) ≡ some s
  unfolding any_of find_first
  find_first-append h s [] free e = ground (arith, eq_iff s.token_hash h)
  find_first-append h s (t ∷ ss) free e =
      ground (arith, find_first-append h s ss (ground (arith, free)) e)

  -- A session that `set_session` stored under a token.
  abbrev Opened : World → Outcome (Result String) × World → Type 0
  Opened w (o, w') =
      (token : String)
      → o ≡ done (ok token)
      → (r : Request) (later : World) → r.cookie ≡ some token
      → later.db.sessions ≡ w'.db.sessions
      → NoFaults later
      → (valid_session x r later).0 ≡ done (ltb later.now (w.now + session_ttl))

  abbrev opened_at : ℕ → String → Session
  opened_at now token = record {
    token_hash = x.hash_text token;
    created_at = now;
    expires_at = now + session_ttl;
  }

  -- what a request with the cookie of a stored session finds
  valid_session-stored :
      (now : ℕ) (token : String) (sessions : List Session) (r : Request) (later : World)
      → (token == "") ≡ false
      → any_of (λ t. t.token_hash == x.hash_text token) sessions ≡ false
      → r.cookie ≡ some token
      → later.db.sessions ≡ sessions ++ opened_at now token ∷ []
      → NoFaults later
      → (valid_session x r later).0 ≡ done (ltb later.now (now + session_ttl))
  unfolding valid_session live_cookie not_expired session_by_hash
  valid_session-stored now token sessions r later filled free cookie stored h =
      rw (cookie, filled)
        (fine_call (λ (o, w'). o ≡ done (ltb later.now (now + session_ttl))) _ _ later h
          (rw
            (stored, find_first-append (x.hash_text token) (opened_at now token) sessions free refl)
            refl))

  Opened-store_session :
      (w w1 : World) (token : String)
      → (token == "") ≡ false
      → w1.now ≡ w.now
      → Opened w (store_session x token w1)
  unfolding store_session create_session
  Opened-store_session w w1 token filled now =
      after_call (Opened w) _ _ w1 (λ t tok e. absurd (cc e))
        (elim (Bool-cases (any_of (λ t. t.token_hash == x.hash_text token) w1.db.sessions)) [
          | inl taken ↦ rw taken (λ tok e. absurd (cc e))
          | inr free ↦
              rw (free, sym now)
                (λ tok e r later cookie stored h.
                  valid_session-stored w1.now token w1.db.sessions r later filled free
                    (cookie ∙ cc e) stored h)
        ])

  Opened-set_session : (w : World) → Opened w (set_session x w)
  unfolding set_session random_token
  Opened-set_session w =
      after_call (λ (o, w'). Opened w (continue o (λ r. or_return as_it_is r (store_session x)) w'))
        _ _ w (λ t tok e. absurd (cc e))
        (Opened-store_session w _ _ (prefixed-ne "sess" _ "" refl) refl)

  -- When a login stored its session, whatever other calls failed, a request with the cookie that it
  -- set is authenticated as long as the sessions are as then and no query fails: until 30 days have
  -- passed since the login, and not after.
  pub valid_session-set_session :
      (w : World) (token : String)
      → (set_session x w).0 ≡ done (ok token)
      → (r : Request) (later : World) → r.cookie ≡ some token
      → later.db.sessions ≡ (set_session x w).1.db.sessions
      → NoFaults later
      → (valid_session x r later).0 ≡ done (ltb later.now (w.now + session_ttl))
  valid_session-set_session w = Opened-set_session w

  find_first-deleted :
      (h : String) (ss : List Session)
      → find_first (λ s. s.token_hash == h) (keep_if (λ s. not (s.token_hash == h)) ss) ≡ none
  unfolding find_first keep_if
  find_first-deleted h [] = refl
  find_first-deleted h (s ∷ ss) = ground (arith, find_first-deleted h ss)

  valid_session-dropped :
      (r : Request) (cookie : Option String) (w : World)
      → r.cookie ≡ cookie
      → NoFaults w
      → (valid_session x r (drop_session x cookie w).1).0 ≡ done false
  unfolding drop_session valid_session live_cookie not_expired session_by_hash delete_session
  valid_session-dropped r none w e h = rw e refl
  valid_session-dropped r (some value) w e h = elim (Bool-cases (value == "")) [
    | inl empty ↦ rw (e, empty) refl
    | inr filled ↦
        rw (e, filled)
          (fine_call
            (λ (o, w').
              ((query (session_by_hash (x.hash_text value)) >>= not_expired x) w').0 ≡ done false)
            _ _ w h
            (fine_call (λ (o, w'). o ≡ done false) _ _ _ h
              (rw (find_first-deleted (x.hash_text value) w.db.sessions) refl)))
  ]

  -- After a logout in which no call fails, a request with the same cookie is not authenticated.
  pub valid_session-clear_session :
      (r : Request) (w : World)
      → NoFaults w
      → (valid_session x r (clear_session x r w).1).0 ≡ done false
  unfolding clear_session
  valid_session-clear_session r w h = valid_session-dropped r r.cookie w refl h
