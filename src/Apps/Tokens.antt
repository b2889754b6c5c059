-- ===== src/Apps/Tokens.antt =====
-- What a token that srv/api_apps.go hands out is good for.
use text.Mathlib.TextPositions.{starts_with-append}
use release_hub.Base.{
  suc, String, Bool, true, some, List, [], ◌∷◌, ◌++◌, ◌+++◌, ◌==◌, ◌≡◌, refl, ◌∙◌, ap, any_of,
  find_first, starts_with, Bool-cases, inl, inr, eq_iff,
}
use release_hub.Text.{drop_chars, trim_space}
use release_hub.Text.Prefix.{drop_chars-append}
use release_hub.Result.{ok, error_text}
use release_hub.Db.{ApiToken, Database}
use release_hub.Db.Config.{api_token_by_hash, create_api_token, touch_api_token}
use release_hub.Request.{Request, form_value}
use release_hub.World.{
  World, Outside, Outcome, answered, Response, Json, json, write_err, M, continue, expect, ◌>>=◌,
}
use release_hub.World.Calls.{NoFaults, after_call, fine_call}
use release_hub.Auth.{random_token, require_api}
use release_hub.Apps.{handle_api_create_token, issue_token}

find_first-last :
    {A : Type 0} (p : A → Bool) (a : A) (xs : List A)
    → p a ≡ true
    → (b : A) × (find_first p (xs ++ a ∷ []) ≡ some b)
unfolding find_first
find_first-last p a [] e = (a, rw e refl)
find_first-last p a (x ∷ xs) e = elim (Bool-cases (p x)) [
  | inl here ↦ (x, rw here refl)
  | inr other ↦ let (b, found) = find_first-last p a xs e in (b, rw other found)
]

abbrev pub created : String → String → Response
created name token = json 201 (("name", Json.str name) ∷ ("token", Json.str token) ∷ [])

module _ (x : Outside) where
  -- the hub after a request with the token: the use is recorded, and two calls have passed
  abbrev pub used : World → String → World
  used w token = record w {
    db = (touch_api_token w.now (x.hash_text token) w.db).1;
    tick = suc (suc w.tick);
  }

  stored-known :
      (token : String) (db : Database) (tokens : List ApiToken) (t : ApiToken)
      → db.api_tokens ≡ tokens ++ t ∷ []
      → t.token_hash ≡ x.hash_text token
      → (b : ApiToken) × (api_token_by_hash (x.hash_text token) db ≡ ok b)
  unfolding api_token_by_hash
  stored-known token db tokens t stored hash =
      let (b, found) =
        find_first-last (λ s. s.token_hash == x.hash_text token) t tokens
          ((eq_iff t.token_hash (x.hash_text token)).1 hash) in
      (b, rw (stored, found) refl)

  require_api-stored :
      {A : Type 0} (next : Request → M A) (r : Request) (w : World) (token : String) (t : ApiToken)
      → r.authorization ≡ "Bearer " +++ token
      → api_token_by_hash (x.hash_text token) w.db ≡ ok t
      → NoFaults w
      → require_api x next r w ≡ next r (used w token)
  unfolding require_api
  require_api-stored next r w token t sent known h =
      let bearer : starts_with r.authorization "Bearer " ≡ true =
        ap (λ s. starts_with s "Bearer ") sent ∙ starts_with-append "Bearer " token in
      let cut : drop_chars "Bearer " r.authorization ≡ token =
        ap (drop_chars "Bearer ") sent ∙ drop_chars-append "Bearer " token in
      rw (bearer, cut)
        (fine_call (λ p. p ≡ next r (used w token)) _ _ w h
          (rw known (fine_call (λ p. p ≡ next r (used w token)) _ _ _ h refl)))

  -- A token that was handed out is stored.
  abbrev Stores : Outcome (Unit {0}) × World → Type 0
  Stores (o, w') =
      (name token : String)
      → o ≡ answered (created name token)
      → (tokens : List ApiToken) × (t : ApiToken) × (w'.db.api_tokens ≡ tokens ++ t ∷ [])
        × (t.token_hash ≡ x.hash_text token)

  Stores-issue_token : (name token : String) (w : World) → Stores (issue_token x name token w)
  unfolding issue_token create_api_token
  Stores-issue_token name token w =
      after_call Stores _ _ w (λ text n t e. absurd (cc e))
        (elim (Bool-cases (any_of (λ t. t.token_hash == x.hash_text token) w.db.api_tokens)) [
          | inl taken ↦ rw taken (λ n t e. absurd (cc e))
          | inr free ↦ rw free (λ n t e. (_, _, refl, ap x.hash_text (cc e)))
        ])

  Stores-handle_api_create_token :
      (q : Request) (w : World) → Stores (handle_api_create_token x q w)
  unfolding handle_api_create_token random_token
  Stores-handle_api_create_token q w =
      let name = trim_space (form_value "name" q) in
      elim (Bool-cases (name == "")) [
        | inl empty ↦ rw empty (λ n t e. absurd (cc e))
        | inr filled ↦ rw filled (
            after_call
              (λ (o, w'). Stores (
                continue o
                  (λ made. expect (λ e. write_err 500 (error_text e)) made >>= issue_token x name)
                  w'))
              _ _ w (λ text n t e. absurd (cc e)) (Stores-issue_token name _ _))
      ]

module _ (x : Outside) {A : Type 0} (next : Request → M A) where
  -- A token that the API has handed out, whatever calls failed until then, is good for every endpoint
  -- of the API: as long as the tokens are as then, a request that bears it, in which no call fails, runs
  -- the guarded handler, with the time of the token's use recorded and nothing else changed.
  pub require_api-handle_api_create_token :
      (q : Request) (w : World) (name token : String)
      → (handle_api_create_token x q w).0 ≡ answered (created name token)
      → (r : Request) (later : World) → r.authorization ≡ "Bearer " +++ token
      → later.db.api_tokens ≡ (handle_api_create_token x q w).1.db.api_tokens
      → NoFaults later
      → require_api x next r later ≡ next r (used x later token)
  require_api-handle_api_create_token q w name token e r later sent same h =
      let (tokens, t, stored, hash) = Stores-handle_api_create_token x q w name token e in
      let (b, known) = stored-known x token later.db tokens t (same ∙ stored) hash in
      require_api-stored x next r later token b sent known h
