-- ===== src/Signing/Fetch.antt =====
-- srv/signing.go (`FetchSigningForBuild`): the client with which a build fetches its signing key, over
-- the requests and the file system of its process.
pub mod RoundTrip
use release_hub.Base.{ℕ, String, not, List, [], ◌∷◌, ◌+++◌, eqb, if◌then◌else◌}
use release_hub.Result.{GoError, failure, Result, ok, err}
use release_hub.Request.{find_value, or_empty}
use release_hub.World.{Bytes}

-- `http.Response`: the status line, the headers, and the body, which may fail to be read
pub record Reply : Type 0 where
  pub status : ℕ
  pub status_text : String
  pub headers : List (String × String)
  pub body : Result Bytes

-- `http.NewRequest` on a URL, `http.DefaultClient.Do` with a URL and an Authorization header, and
-- `os.WriteFile` with the mode 0600.
pub record Client (S : Type 0) : Type 0 where
  pub new_request : String → Result (Unit {0})
  pub do_request : String → String → S → Result Reply × S
  pub write_file : String → Bytes → S → Result (Unit {0}) × S

-- the results of `FetchSigningForBuild`
pub record Fetched : Type 0 where
  pub store_password : String
  pub key_alias : String
  pub key_password : String
  pub sha : String

-- `resp.Header.Get`
abbrev header : String → Reply → String
header name reply = or_empty (find_value name reply.headers)

abbrev pub fetched : Reply → Fetched
fetched reply = record {
  store_password = header "X-Hub-Store-Password" reply;
  key_alias = header "X-Hub-Key-Alias" reply;
  key_password = header "X-Hub-Key-Password" reply;
  sha = header "X-Hub-Keystore-Sha256" reply;
}

abbrev pub signing_url : String → String → String
signing_url base slug = base +++ ("/api/apps/" +++ (slug +++ "/signing"))

module _ {S : Type 0} (c : Client S) where
  written : Reply → Result (Unit {0}) × S → Result Fetched × S
  written reply (err e, s) = (err e, s)
  written reply (ok _, s) = (ok (fetched reply), s)

  with_body : String → Reply → S → Result Bytes → Result Fetched × S
  with_body out reply s (err e) = (err e, s)
  with_body out reply s (ok ks) = written reply (c.write_file out ks s)

  with_reply : String → Result Reply × S → Result Fetched × S
  with_reply out (err e, s) = (err e, s)
  with_reply out (ok reply, s) =
      if not (eqb reply.status 200)
      then (err (failure ("fetch signing: " +++ reply.status_text)), s)
      else with_body out reply s reply.body

  with_request : String → String → String → S → Result (Unit {0}) → Result Fetched × S
  with_request url token out s (err e) = (err e, s)
  with_request url token out s (ok _) = with_reply out (c.do_request url ("Bearer " +++ token) s)

  -- `FetchSigningForBuild`: the results, and the files after it
  unfoldable pub fetch_signing_for_build :
      String → String → String → String → S → Result Fetched × S
  unfolding written with_body with_reply with_request
  fetch_signing_for_build base slug token out s =
      with_request (signing_url base slug) token out s (c.new_request (signing_url base slug))
