-- ===== src/Signing.antt =====
-- srv/signing.go: the signing key of a platform, uploaded or generated, stored encrypted and handed
-- out to builds.
pub mod RoundTrip
pub mod Kept
pub mod Fetch
use release_hub.Base.{
  ℕ, ◌-◌, ◌*◌, ◌^◌, String, Bool, not, ◌||◌, ◌&&◌, Option, none, some, List, [], ◌∷◌, ◌==◌, ◌+++◌,
  length, take, eqb, if◌then◌else◌,
}
use release_hub.Text.{trim_space}
use release_hub.Result.{error_text, GoError, failure, Result, ok, err}
use release_hub.Db.{AppPlatform}
use release_hub.Db.Config.{get_config}
use release_hub.Db.Apps.{set_signing_config}
use release_hub.Secrets.{encrypt_creds, decrypt_creds}
use release_hub.Request.{Request, FormFile, path_value, form_value}
use release_hub.Platform.{platform_from_request, non_empty_or}
use release_hub.Upload.{given}
use release_hub.Pkcs12.Alias.{Asn1, with_key_bag_friendly_name}
use release_hub.World.{
  done, Outside, Json, Bytes, Response, json, binary, write_err, M, ◌>>=◌, ◌>>◌, pure, answer,
  expect, require, query, exec, call, unchanged, attempt, or_return, as_it_is, behind,
}

-- `signingConfig`
pub record SigningConfig : Type 0 where
  pub store_password : String
  pub key_alias : String
  pub key_password : String

-- `certSubject`
pub record CertSubject : Type 0 where
  pub organization : String
  pub org_unit : String
  pub locality : String
  pub state : String
  pub country : String

-- `pkix.Name`, as far as it is filled in
pub record DistinguishedName : Type 0 where
  pub common_name : String
  pub organizations : List String
  pub org_units : List String
  pub localities : List String
  pub provinces : List String
  pub countries : List String

-- `x509.Certificate`, as far as the program chooses it
pub record CertTemplate : Type 0 where
  pub serial : ℕ
  pub subject : DistinguishedName
  pub not_before : ℕ
  pub not_after : ℕ

-- crypto/rsa, crypto/rand, crypto/x509, go-pkcs12, encoding/pem, encoding/json of a `signingConfig`, and
-- the calendar. What a random call gives depends on its number.
pub record CertCalls (Key Cert : Type 0) : Type 0 where
  pub generate_key : ℕ → Key
  pub random_below : ℕ → ℕ → ℕ
  pub create_certificate : ℕ → CertTemplate → Key → Result Bytes
  pub parse_certificate : Bytes → Result Cert
  pub encode_pkcs12 : ℕ → Key → Cert → String → Result Bytes
  pub pem_certificate : Bytes → Bytes
  pub config_json : SigningConfig → Bytes
  pub config_of_json : Bytes → SigningConfig
  pub alias_of_json : Bytes → Option String
  pub add_years : ℕ → ℕ → ℕ

abbrev optional : String → List String
optional s = if s == "" then [] else s ∷ []

-- `pkixName`
unfoldable pub pkix_name : CertSubject → String → DistinguishedName
pkix_name c common_name = record {
  common_name = common_name;
  organizations = optional c.organization;
  org_units = optional c.org_unit;
  localities = optional c.locality;
  provinces = optional c.state;
  countries = optional c.country;
}

trimmed : Result String → String
trimmed (err e) = ""
trimmed (ok v) = trim_space v

setting : String → M String
setting key = do v ← query (get_config key); pure (trimmed v)

-- `subjectFromConfig`
unfoldable pub subject_from_config : M CertSubject
unfolding trimmed setting
subject_from_config = do
  organization ← setting "sign_org"
  org_unit ← setting "sign_ou"
  locality ← setting "sign_locality"
  state ← setting "sign_state"
  country ← setting "sign_country"
  pure (record {
    organization = non_empty_or organization "release-hub";
    org_unit = org_unit;
    locality = locality;
    state = state;
    country = country;
  })

-- What guards of `handleApiSetSigning` let through.
pub record Keystore : Type 0 where
  pub bytes : Bytes
  pub config : SigningConfig

-- a file in the form that has bytes
some_bytes : Option String → Option FormFile → Option FormFile
some_bytes (some text) file = none
some_bytes none none = none
some_bytes none (some file) = if eqb (length file.content) 0 then none else some file

-- 8 MiB
abbrev keystore_limit : ℕ
keystore_limit = 8 * 2 ^ 20

keystore_from : Request → M Keystore
keystore_from r = do
  file ←
      given (write_err 400 "multipart file field with keystore required")
        (some_bytes r.form_error r.file)
  read ← call (λ w. (ok (take keystore_limit file.content), w))
  bytes ← expect (λ e. write_err 400 ("read keystore: " +++ error_text e)) read
  let store_password = form_value "storePassword" r
  let key_alias = form_value "keyAlias" r
  require (not (store_password == "" || key_alias == ""))
      (write_err 400 "storePassword and keyAlias required")
  pure (record {
    bytes = bytes;
    config = record {
      store_password = store_password;
      key_alias = key_alias;
      key_password = non_empty_or (form_value "keyPassword" r) store_password;
    };
  })

module _ {Key Cert : Type 0} (certs : CertCalls Key Cert) (asn : Asn1) (x : Outside) where
  internal_error : GoError → Response
  internal_error e = write_err 500 (error_text e)

  key_row : AppPlatform → Keystore → String → String → M String
  key_row plat ks enc_ks enc_cfg = do
    stored ← exec (set_signing_config enc_ks enc_cfg (x.sha256_hex ks.bytes) plat.id)
    expect internal_error stored
    pure (x.sha256_hex ks.bytes)

  with_config : AppPlatform → Keystore → String → M String
  with_config plat ks enc_ks = do
    sealed_cfg ← encrypt_creds x (certs.config_json ks.config)
    enc_cfg ← expect internal_error sealed_cfg
    key_row plat ks enc_ks enc_cfg

  -- the keystore and its configuration encrypted and stored; the hash of the keystore
  unfoldable pub store_signing : AppPlatform → Keystore → M String
  unfolding internal_error key_row with_config
  store_signing plat ks = do
    sealed_ks ← encrypt_creds x ks.bytes
    enc_ks ← expect internal_error sealed_ks
    with_config plat ks enc_ks

  -- `handleApiSetSigning`
  unfoldable pub handle_api_set_signing : Request → M (Unit {0})
  unfolding keystore_from some_bytes
  handle_api_set_signing r = do
    plat ← platform_from_request r (path_value "slug" r)
    ks ← keystore_from r
    sum ← store_signing plat ks
    answer (json 200 (("stored", Json.bool Bool.true) ∷ ("keystoreSha256", Json.str sum) ∷ []))

  abbrev pub signing_answer : Bytes → SigningConfig → Response
  signing_answer ks cfg =
      binary
        (("X-Hub-Keystore-Sha256", Json.str (x.sha256_hex ks))
          ∷ ("X-Hub-Store-Password", Json.str cfg.store_password)
          ∷ ("X-Hub-Key-Alias", Json.str cfg.key_alias)
          ∷ ("X-Hub-Key-Password", Json.str cfg.key_password)
          ∷ [])
        ks

  signing_of : AppPlatform → M (Unit {0})
  signing_of plat = do
    require (not (plat.sign_keystore == ""))
        (write_err 404 "no signing keystore stored for this app")
    ks ←
        expect (λ e. write_err 500 ("decrypt keystore: " +++ error_text e))
          (decrypt_creds x plat.sign_keystore)
    raw ←
        expect (λ e. write_err 500 ("decrypt config: " +++ error_text e))
          (decrypt_creds x plat.sign_config)
    answer (signing_answer ks (certs.config_of_json raw))

  -- `handleApiGetSigning`
  unfoldable pub handle_api_get_signing : Request → M (Unit {0})
  unfolding signing_of
  handle_api_get_signing r = do
    plat ← platform_from_request r (path_value "slug" r)
    signing_of plat

  wiped : Result (Unit {0}) → M (Unit {0})
  wiped (err e) = answer (write_err 500 (error_text e))
  wiped (ok _) = answer (json 200 (("stored", Json.bool Bool.false) ∷ []))

  -- `handleApiDeleteSigning`
  unfoldable pub handle_api_delete_signing : Request → M (Unit {0})
  unfolding wiped
  handle_api_delete_signing r = do
    plat ← platform_from_request r (path_value "slug" r)
    stored ← exec (set_signing_config "" "" "" plat.id)
    wiped stored

  -- the certificate, and the container under a random password
  sealed_key : String → DistinguishedName → Key → ℕ → ℕ → M (Result (Bytes × SigningConfig × Bytes))
  sealed_key common_name name key serial now =
      attempt
        (call (λ w. (
          certs.create_certificate w.tick
              (record {
                serial = serial;
                subject = name;
                not_before = now - 3600;
                not_after = certs.add_years 30 now;
              })
              key,
          w,
        )))
        (behind "create certificate: ")
        λ der. or_return (behind "parse certificate: ") (certs.parse_certificate der) λ cert.
          attempt (call (λ w. (ok (x.random w.tick 16), w))) (behind "generate password: ") λ raw.
            attempt (call (λ w. (certs.encode_pkcs12 w.tick key cert (x.hex_encode raw), w)))
              (behind "encode pkcs12: ")
              λ p12.
                attempt (with_key_bag_friendly_name asn p12 "release" (x.hex_encode raw))
                  (behind "set keystore alias: ")
                  λ named. pure (
                    ok (
                      named,
                      record {
                        store_password = x.hex_encode raw;
                        key_alias = "release";
                        key_password = x.hex_encode raw;
                      },
                      certs.pem_certificate der,
                    ))

  time_now : M ℕ
  time_now w = (done w.now, w)

  -- `generateKeystoreWithSubject`
  unfoldable pub generate_keystore_with_subject :
      String → CertSubject → M (Result (Bytes × SigningConfig × Bytes))
  unfolding sealed_key time_now
  generate_keystore_with_subject common_name subj =
      attempt (call (λ w. (ok (certs.generate_key w.tick), w))) (behind "generate rsa key: ") λ key.
        attempt (call (λ w. (ok (certs.random_below w.tick (2 ^ 127)), w)))
          (behind "generate serial: ")
          λ serial.
            time_now >>= λ now. sealed_key common_name (pkix_name subj common_name) key serial now

  error_or_nil : Result String → String
  error_or_nil (err e) = error_text e
  error_or_nil (ok _) = "<nil>"

  store_generated : ℕ → Bytes → Result String → Result String → M (Result String)
  store_generated id p12 (ok enc_ks) (ok enc_cfg) =
      attempt (exec (set_signing_config enc_ks enc_cfg (x.sha256_hex p12) id)) (behind "store: ")
        λ _. pure (ok (x.sha256_hex p12))
  store_generated id p12 e1 e2 =
      pure (err (failure ("encrypt: " +++ (error_or_nil e1 +++ (" " +++ error_or_nil e2)))))

  -- `generateAndStoreSigning`
  unfoldable pub generate_and_store_signing : ℕ → String → M (Result String)
  unfolding store_generated error_or_nil
  generate_and_store_signing id slug = do
    sub ← subject_from_config
    attempt (generate_keystore_with_subject ("Android App: " +++ slug) sub) (behind "generate: ")
        λ made. do
          e1 ← encrypt_creds x made.0
          e2 ← encrypt_creds x (certs.config_json made.1)
          store_generated id made.0 e1 e2
