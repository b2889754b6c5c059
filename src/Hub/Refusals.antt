-- ===== src/Hub/Refusals.antt =====
-- Who has no token and no session changes nothing at a guarded endpoint.
use release_hub.Base.{String, some, List, ◌≡◌, ◌≢◌, refl, ◌⊎◌, inl, inr}
use release_hub.Result.{no_rows, err}
use release_hub.Db.Config.{api_token_by_hash, session_by_hash}
use release_hub.Text.{drop_chars}
use release_hub.Auth.Sessions.{require_api-Refused, require_ui-Redirected}
use release_hub.Request.{Request}
use release_hub.Storage.{Storage}
use release_hub.Pkcs12.Alias.{Asn1}
use release_hub.Signing.{CertCalls}
use release_hub.World.{World, Outside, Outcome, M, answered, plain, redirect}
use release_hub.Upload.Rejections.{SameState}
use release_hub.Assets.{EmbeddedFiles}
use release_hub.Hub.{Endpoint, Guard, everyone, session, bearer, guard_of, behind_guard, dispatch}

-- The answers of the two guards.
abbrev pub IsRefusal : Outcome (Unit {0}) → Type 0
IsRefusal o =
    (o ≡ answered (redirect "/login"))
    ⊎ ((o ≡ answered (plain 401 "missing bearer token"))
        ⊎ (o ≡ answered (plain 401 "invalid token")))

module _ {Key Cert : Type 0} (certs : CertCalls Key Cert) (asn : Asn1) (x : Outside) (st : Storage)
    (order : List String → List String) (base_url : String) (files : EmbeddedFiles) (r : Request)
    (w : World)
    (no_token : api_token_by_hash (x.hash_text (drop_chars "Bearer " r.authorization)) w.db
      ≡ err no_rows)
    (no_session : (value : String)
      → r.cookie ≡ some value
      → session_by_hash (x.hash_text value) w.db ≡ err no_rows) where
  behind_guard-IsRefusal :
      (g : Guard) (handler : Request → M (Unit {0}))
      → g ≢ everyone
      → IsRefusal (behind_guard certs asn x st order base_url files g handler r w).0
        × SameState w (behind_guard certs asn x st order base_url files g handler r w).1
  unfolding behind_guard
  behind_guard-IsRefusal everyone handler guarded = absurd (guarded refl)
  behind_guard-IsRefusal session handler guarded =
      let (answer, same) = require_ui-Redirected x handler r w no_session in (inl answer, same)
  behind_guard-IsRefusal bearer handler guarded =
      let (answer, same) = require_api-Refused x handler r w no_rows no_token in (inr answer, same)

  -- At an endpoint that is not open to everyone, a request without a token of which the hub stores
  -- the hash and without a session that it stores is refused, with 401 or to the login, whatever calls
  -- fail: no row, no artifact and nothing at Play is changed.
  pub dispatch-IsRefusal :
      (e : Endpoint)
      → guard_of e ≢ everyone
      → IsRefusal (dispatch certs asn x st order base_url files e r w).0
        × SameState w (dispatch certs asn x st order base_url files e r w).1
  unfolding dispatch
  dispatch-IsRefusal e guarded = behind_guard-IsRefusal (guard_of e) _ guarded
