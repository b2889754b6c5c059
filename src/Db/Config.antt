-- ===== src/Db/Config.antt =====
-- The queries on `config`, `api_tokens`, `sessions` and `play_accounts` of db/dbgen.
pub mod Lookup
use release_hub.Base.{
  ℕ, String, Bool, false, not, List, [], ◌∷◌, ◌++◌, map, eqb, ◌==◌, keep_if, leb, find_first,
  any_of, if◌then◌else◌, Option, none, some, ◌+◌,
}
use release_hub.Base.Int.{ℤ, pos, negsuc}
use release_hub.Result.{no_rows, failure, Result, ok, err}
use release_hub.Db.{Database, ApiToken, Session, PlayAccount}
use release_hub.Db.Releases.{one_row}

config_value : String → List (String × String) → Option String
config_value key [] = none
config_value key ((k, v) ∷ rest) = if k == key then some v else config_value key rest

-- `GetConfig`
unfoldable pub get_config : String → Database → Result String
unfolding config_value
get_config key db = one_row (config_value key db.config)

config_put : String → String → List (String × String) → List (String × String)
config_put key value [] = (key, value) ∷ []
config_put key value ((k, v) ∷ rest) =
    if k == key then (key, value) ∷ rest else (k, v) ∷ config_put key value rest

-- `SetConfig`: insert, or replace on conflict
unfoldable pub set_config : String → String → Database → Result (Unit {0}) × Database
unfolding config_put
set_config key value db = (ok tt, record db { config = config_put key value db.config })

-- `ApiTokenByHash`
unfoldable pub api_token_by_hash : String → Database → Result ApiToken
api_token_by_hash hash db = one_row (find_first (λ t. t.token_hash == hash) db.api_tokens)

-- `CreateApiToken`, under the UNIQUE hash
unfoldable pub create_api_token : String → String → Database → Result (Unit {0}) × Database
create_api_token name hash db =
    if any_of (λ t. t.token_hash == hash) db.api_tokens
    then (err (failure "UNIQUE constraint failed: api_tokens.token_hash"), db)
    else (
      ok tt,
      record db {
        api_tokens =
            db.api_tokens
            ++ record { id = db.token_seq + 1; name = name; token_hash = hash; last_used_at = none }
              ∷ [];
        token_seq = db.token_seq + 1;
      },
    )

-- `ListApiTokens`: by the time of creation, which is the order of the rows
abbrev pub list_api_tokens : Database → List ApiToken
list_api_tokens db = db.api_tokens

-- `TouchApiToken`
unfoldable pub touch_api_token : ℕ → String → Database → Result (Unit {0}) × Database
touch_api_token now hash db = (
  ok tt,
  record db {
    api_tokens =
        map (λ t. if t.token_hash == hash then record t { last_used_at = some now } else t)
          db.api_tokens;
  },
)

-- `SessionByHash`
unfoldable pub session_by_hash : String → Database → Result Session
session_by_hash hash db = one_row (find_first (λ s. s.token_hash == hash) db.sessions)

-- `CreateSession`: the hash is the primary key
unfoldable pub create_session : Session → Database → Result (Unit {0}) × Database
create_session s db =
    if any_of (λ t. t.token_hash == s.token_hash) db.sessions
    then (err (failure "UNIQUE constraint failed: sessions.token_hash"), db)
    else (ok tt, record db { sessions = db.sessions ++ s ∷ [] })

-- `DeleteSession`
unfoldable pub delete_session : String → Database → Result (Unit {0}) × Database
delete_session hash db =
    (ok tt, record db { sessions = keep_if (λ s. not (s.token_hash == hash)) db.sessions })

-- `PlayAccountByID`
unfoldable pub play_account_by_id : ℕ → Database → Result PlayAccount
play_account_by_id id db = one_row (find_first (λ a. eqb a.id id) db.play_accounts)

-- WHERE id = ? at any int64
unfoldable pub play_account_by_int64 : ℤ → Database → Result PlayAccount
unfolding play_account_by_id
play_account_by_int64 (pos id) db = play_account_by_id id db
play_account_by_int64 (negsuc n) db = err no_rows

insert_account : PlayAccount → List PlayAccount → List PlayAccount
insert_account a [] = a ∷ []
insert_account a (b ∷ bs) =
    let later = b ∷ insert_account a bs in if leb a.id b.id then a ∷ b ∷ bs else later

sort_accounts : List PlayAccount → List PlayAccount
sort_accounts [] = []
sort_accounts (a ∷ accounts) = insert_account a (sort_accounts accounts)

-- `ListPlayAccounts`
unfoldable pub list_play_accounts : Database → List PlayAccount
unfolding insert_account sort_accounts
list_play_accounts db = sort_accounts db.play_accounts

-- `CreatePlayAccount`, with RETURNING
unfoldable pub create_play_account : String → String → Database → Result PlayAccount × Database
create_play_account label credentials db =
    let account : PlayAccount = record {
      id = db.account_seq + 1;
      label = label;
      credentials = credentials;
    } in
    (
      ok account,
      record db {
        play_accounts = db.play_accounts ++ account ∷ [];
        account_seq = db.account_seq + 1;
      },
    )

unfoldable pub is_account : ℕ → Option ℕ → Bool
is_account id none = false
is_account id (some n) = eqb n id

-- `DeletePlayAccount`, with the foreign key's ON DELETE SET NULL
unfoldable pub delete_play_account : ℕ → Database → Result (Unit {0}) × Database
unfolding is_account
delete_play_account id db = (
  ok tt,
  record db {
    play_accounts = keep_if (λ a. not (eqb a.id id)) db.play_accounts;
    platforms =
        map
          (λ p. if is_account id p.play_account_id then record p { play_account_id = none } else p)
          db.platforms;
  },
)

-- `UPDATE app_platforms SET play_enabled = 0 WHERE play_account_id = ?`
unfoldable pub disable_play_on : ℤ → Database → Result (Unit {0}) × Database
unfolding is_account
disable_play_on (negsuc n) db = (ok tt, db)
disable_play_on (pos id) db = (
  ok tt,
  record db {
    platforms =
        map (λ p. if is_account id p.play_account_id then record p { play_enabled = 0 } else p)
          db.platforms;
  },
)

-- `DeletePlayAccount` at any int64
unfoldable pub delete_play_account_by_int64 : ℤ → Database → Result (Unit {0}) × Database
unfolding delete_play_account
delete_play_account_by_int64 (pos id) db = delete_play_account id db
delete_play_account_by_int64 (negsuc n) db = (ok tt, db)
