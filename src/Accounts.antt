-- ===== src/Accounts.antt =====
-- srv/api_releases.go and srv/handlers_ui.go: the credentials of a shared Play account.
use release_hub.Base.{ℕ, String, Option, none, some, ◌==◌, ◌+++◌, if◌then◌else◌}
use release_hub.Text.Number.{decimal}
use release_hub.Result.{Result, ok, err}
use release_hub.Db.{AppPlatform, PlayAccount}
use release_hub.Db.Config.{play_account_by_id}
use release_hub.Secrets.{decrypt_creds}
use release_hub.World.{Outside, Bytes, M, ◌>>=◌, pure, query, attempt, or_return, behind}

module _ (x : Outside) where
  -- `playAccountCreds`
  unfoldable pub play_account_creds : ℕ → M (Result Bytes)
  play_account_creds id =
      attempt (query (play_account_by_id id))
        (behind ("account " +++ (decimal id +++ " not found: ")))
        λ acct.
          or_return (behind "decrypt play credentials: ") (decrypt_creds x acct.credentials)
            λ creds. pure (ok creds)

  email_of : Option String → String
  email_of none = ""
  email_of (some email) = email

  probed : Result Bytes → String
  probed (err e) = ""
  probed (ok raw) = email_of (x.client_email raw)

  -- `playEmail`
  unfoldable pub play_email : String → String
  unfolding probed email_of
  play_email creds = if creds == "" then "" else probed (decrypt_creds x creds)

  info_of : ℕ → Result PlayAccount → ℕ × String
  info_of id (err e) = (id, "")
  info_of id (ok acct) = (acct.id, play_email acct.credentials)

  unfoldable pub account_info : Option ℕ → M (ℕ × String)
  unfolding info_of
  account_info none = pure (0, "")
  account_info (some id) = do acct ← query (play_account_by_id id); pure (info_of id acct)

  -- `playAccountInfo`
  unfoldable pub play_account_info : AppPlatform → M (ℕ × String)
  unfolding account_info info_of
  play_account_info p = account_info p.play_account_id
