-- ===== src/Tests/Logins.antt =====
-- From the first run to the login at a concrete input: a password, a login with it, and one without.
use release_hub.Base.{false, true, [], ◌∷◌, ◌≡◌, refl, ◌+++◌, ◌==◌, any_of, ltb}
use release_hub.Result.{no_rows, ok, err}
use release_hub.Db.Config.{get_config, set_config, create_session}
use release_hub.Auth.{set_session, random_token}
use release_hub.Auth.Opening.{IsFresh}
use release_hub.Request.{Request, form_value}
use release_hub.Pages.{byte_length, has_password, handle_first_run, handle_login}
use release_hub.Pages.FirstRun.{key, password, login_answer, handle_first_run-handle_login}
use release_hub.World.{World, Outside, answered, redirect, call}
use release_hub.Tests.{calm, request}
use release_hub.Tests.Faithful.{outside, encode}

-- random bytes that differ from call to call, and hashes that can be told apart
abbrev hashing : Outside
hashing = record outside {
  random = λ tick n. tick ∷ [];
  bcrypt_matches = λ hash p. hash == ("bcrypt of " +++ p);
}

abbrev chosen : Request
chosen = record request {
  post_form = ("password", "long enough") ∷ ("password2", "long enough") ∷ [];
}

abbrev mistaken : Request
mistaken = record request { post_form = ("password", "a guess") ∷ [] }

abbrev a_day_later : World
a_day_later = record calm {
  db = (handle_first_run hashing chosen calm).1.db;
  now = 86500;
  tick = 9;
}

none_yet : get_config key calm.db ≡ err no_rows
unfolding get_config
none_yet = refl

long : ltb (byte_length (password chosen)) 8 ≡ false
unfolding byte_length form_value
long = refl

twice : (password chosen == form_value "password2" chosen) ≡ true
unfolding form_value
twice = refl

bcrypted : hashing.bcrypt_hash 1 (password chosen) ≡ ok "bcrypt of long enough"
unfolding form_value
bcrypted = refl

fresh : IsFresh hashing 10 a_day_later
unfolding handle_first_run has_password get_config set_config set_session random_token
    create_session byte_length form_value call encode any_of
fresh = refl

handle_first_run-handle_login_example :
    ((handle_first_run hashing chosen calm).0 ≡ answered (redirect "/apps"))
    × ((handle_login hashing mistaken a_day_later).0
        ≡ login_answer hashing "bcrypt of long enough" mistaken)
    × ((again : Request)
        → (handle_first_run hashing again a_day_later).0 ≡ answered (redirect "/login"))
handle_first_run-handle_login_example =
    handle_first_run-handle_login hashing chosen calm "bcrypt of long enough" (λ n. refl) none_yet
      refl long twice bcrypted refl a_day_later refl (λ n. refl) fresh mistaken refl
