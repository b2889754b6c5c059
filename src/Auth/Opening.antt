-- ===== src/Auth/Opening.antt =====
-- How `set_session` of srv/auth.go ends, and what it keeps of the settings.
use release_hub.Base.{String, ℕ, ◌≡◌, refl, false, ◌==◌, ◌+++◌, any_of, Bool-cases, inl, inr}
use release_hub.Result.{Result, ok}
use release_hub.Db.{Database}
use release_hub.Db.Config.{get_config, create_session}
use release_hub.World.{World, Outside, Outcome, done, continue, or_return, as_it_is}
use release_hub.World.Calls.{NoFaults, after_call, fine_call}
use release_hub.Auth.{random_token, set_session, store_session}

module _ (x : Outside) where
  -- An action that comes to its end with the settings of this database.
  abbrev pub Continues : String → Database → Outcome (Result String) × World → Type 0
  Continues key db (o, w') =
      (a : Result String) × (o ≡ done a) × (get_config key w'.db ≡ get_config key db)

  Continues-store_session :
      (key token : String) (w : World) → Continues key w.db (store_session x token w)
  unfolding store_session create_session get_config
  Continues-store_session key token w =
      after_call (Continues key w.db) _ _ w (λ t. (_, refl, refl))
        (elim (Bool-cases (any_of (λ t. t.token_hash == x.hash_text token) w.db.sessions)) [
          | inl taken ↦ rw taken (_, refl, refl)
          | inr free ↦ rw free (_, refl, refl)
        ])

  pub Continues-set_session : (key : String) (w : World) → Continues key w.db (set_session x w)
  unfolding set_session random_token get_config
  Continues-set_session key w =
      after_call
        (λ (o, w').
          Continues key w.db (continue o (λ r. or_return as_it_is r (store_session x)) w'))
        _ _ w (λ t. (_, refl, refl)) (Continues-store_session key _ _)

  -- The token that a session gets that is begun at this call.
  abbrev pub token_at : ℕ → String
  token_at tick = "sess" +++ ("_" +++ x.hex_encode (x.random tick 32))

  abbrev pub IsFresh : ℕ → World → Type 0
  IsFresh tick w = any_of (λ t. t.token_hash == x.hash_text (token_at tick)) w.db.sessions ≡ false

  pub set_session-done :
      (w : World)
      → NoFaults w
      → IsFresh w.tick w
      → (set_session x w).0 ≡ done (ok (token_at w.tick))
  unfolding set_session random_token store_session create_session
  set_session-done w h fresh =
      fine_call
        (λ (o, w').
          (continue o (λ r. or_return as_it_is r (store_session x)) w').0
          ≡ done (ok (token_at w.tick)))
        _ _ w h (fine_call (λ (o, w'). o ≡ done (ok (token_at w.tick))) _ _ _ h (rw fresh refl))
