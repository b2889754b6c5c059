-- ===== src/Signing/RoundTrip.antt =====
-- A keystore that was stored is what builds get.
use release_hub.Base.{
  ℕ, String, Bool, true, false, Option, none, some, List, [], ◌∷◌, ◌==◌, ◌≡◌, ◌≢◌, refl, ◌∙◌, ap,
  map, find_first, eqb, eqb_iff, Bool-cases, inl, inr, if◌then◌else◌, ◌||◌, Text-cases,
}
use release_hub.Result.{ok}
use release_hub.Db.{AppPlatform, Database}
use release_hub.Db.Apps.{platform_by_slug_and_platform, set_signing_config, update_platform}
use release_hub.Db.Releases.{one_row}
use release_hub.Secrets.{encrypt_creds, decrypt_creds}
use release_hub.Secrets.Kept.{Keeps-encrypt_creds}
use release_hub.Secrets.RoundTrip.{IsFaithful, decrypt_creds-encrypt_creds}
use release_hub.Request.{Request, path_value}
use release_hub.Platform.{platform_from_request, platform_name}
use release_hub.World.{◌>>=◌, expect, World, Outcome, Outside, done, answered, Bytes}
use release_hub.World.Calls.{Ends-kept, NoFaults, after_call, call_fine, after_action, after_expect}
use release_hub.Pkcs12.Alias.{Asn1}
use release_hub.Signing.{
  key_row, with_config, internal_error, CertCalls, Keystore, store_signing, handle_api_get_signing,
  signing_of, signing_answer,
}

abbrev with_key : String → String → String → AppPlatform → AppPlatform
with_key keystore config sha256 p = record p {
  sign_keystore = keystore;
  sign_config = config;
  sign_sha256 = sha256;
}

-- encryption changes no row
encrypt_creds_rows :
    (x : Outside) (plain : Bytes) (db : Database) (w : World)
    → w.db ≡ db
    → (encrypt_creds x plain w).1.db ≡ db
encrypt_creds_rows x plain db w h =
    Ends-kept (λ v. v.db ≡ db) (encrypt_creds x plain w)
      ((Keeps-encrypt_creds x (λ v e. e) plain).at w h)

module _ {Key Cert : Type 0} (certs : CertCalls Key Cert) (asn : Asn1) (x : Outside)
    (f : IsFaithful x) (plat : AppPlatform) (ks : Keystore) where
  -- The row has texts that are decrypted to the keystore and to its configuration.
  HasKey : Database → Database → Type 0
  HasKey before after =
      (keystore config sum : String) × (decrypt_creds x keystore ≡ ok ks.bytes)
      × (decrypt_creds x config ≡ ok (certs.config_json ks.config))
      × (after ≡ update_platform plat.id (with_key keystore config sum) before)

  abbrev Stores : Database → Outcome String × World → Type 0
  Stores db (o, w) = (sum : String) → o ≡ done sum → HasKey db w.db

  key_row-HasKey :
      (enc_ks enc_cfg : String) (db : Database) (w : World)
      → decrypt_creds x enc_ks ≡ ok ks.bytes
      → decrypt_creds x enc_cfg ≡ ok (certs.config_json ks.config)
      → w.db ≡ db
      → Stores db (key_row certs asn x plat ks enc_ks enc_cfg w)
  unfolding key_row HasKey set_signing_config
  key_row-HasKey enc_ks enc_cfg db w h1 h2 same =
      after_call (Stores db) _ _ w (λ text sum h. absurd (cc h))
        (λ sum h.
          (enc_ks, enc_cfg, x.sha256_hex ks.bytes, h1, h2, ap (update_platform plat.id _) same))

  with_config-HasKey :
      (enc_ks : String) (db : Database) (w : World)
      → decrypt_creds x enc_ks ≡ ok ks.bytes
      → w.db ≡ db
      → Stores db (with_config certs asn x plat ks enc_ks w)
  unfolding with_config
  with_config-HasKey enc_ks db w h1 same =
      after_action (Stores db) (encrypt_creds x (certs.config_json ks.config))
        (λ sealed.
          expect (internal_error certs asn x) sealed >>= key_row certs asn x plat ks enc_ks)
        w
        (λ sealed e.
          after_expect (Stores db) (internal_error certs asn x) sealed
            (key_row certs asn x plat ks enc_ks) _
            (λ enc_cfg e'.
              key_row-HasKey enc_ks enc_cfg db _ h1
                (decrypt_creds-encrypt_creds x f (certs.config_json ks.config) enc_cfg w
                  (e ∙ ap done e'))
                (encrypt_creds_rows x (certs.config_json ks.config) db w same))
            (λ e' _ sum h. absurd (cc h)))
        (λ r e sum h. absurd (cc h)) (λ e sum h. absurd (cc h))

  store_signing-HasKey : (w : World) → Stores w.db (store_signing certs asn x plat ks w)
  unfolding store_signing
  store_signing-HasKey w =
      after_action (Stores w.db) (encrypt_creds x ks.bytes)
        (λ sealed. expect (internal_error certs asn x) sealed >>= with_config certs asn x plat ks) w
        (λ sealed e.
          after_expect (Stores w.db) (internal_error certs asn x) sealed
            (with_config certs asn x plat ks) _
            (λ enc_ks e'.
              with_config-HasKey enc_ks w.db _
                (decrypt_creds-encrypt_creds x f ks.bytes enc_ks w (e ∙ ap done e'))
                (encrypt_creds_rows x ks.bytes w.db w refl))
            (λ e' _ sum h. absurd (cc h)))
        (λ r e sum h. absurd (cc h)) (λ e sum h. absurd (cc h))

-- A row is found after an update that leaves what it is found by.
module _ (p : AppPlatform → Bool) (id : ℕ) (g : AppPlatform → AppPlatform)
    (same : (a : AppPlatform) → p (g a) ≡ p a) where
  abbrev changed : AppPlatform → AppPlatform
  changed a = if eqb a.id id then g a else a

  changed-pass : (a : AppPlatform) → p (changed a) ≡ p a
  changed-pass a = elim (Bool-cases (eqb a.id id)) [ inl e ↦ rw e (same a) | inr e ↦ rw e refl ]

  find_first-changed :
      (rows : List AppPlatform) (a : AppPlatform)
      → find_first p rows ≡ some a
      → find_first p (map changed rows) ≡ some (changed a)
  unfolding find_first
  find_first-changed [] a h = absurd (cc h)
  find_first-changed (b ∷ rows) a h = elim (Bool-cases (p b)) [
    | inl pass ↦
        rw (changed-pass b, pass) (ap (λ o. some o) (ap changed (let e = rw pass at h in cc e)))
    | inr fail ↦ rw (changed-pass b, fail) (find_first-changed rows a (rw fail at h))
  ]

one_row-some : {A : Type 0} (o : Option A) (a : A) → one_row o ≡ ok a → o ≡ some a
one_row-some none a h = absurd (cc h)
one_row-some (some b) a h = cc h

-- A platform is found with its new key.
platform_by_slug_and_platform-with_key :
    (slug platform keystore config sum : String) (plat : AppPlatform) (db : Database)
    → platform_by_slug_and_platform slug platform db ≡ ok plat
    → platform_by_slug_and_platform slug platform
        (update_platform plat.id (with_key keystore config sum) db)
      ≡ ok (with_key keystore config sum plat)
unfolding platform_by_slug_and_platform
platform_by_slug_and_platform-with_key slug platform keystore config sum plat db h =
    rw
      (
        find_first-changed _ plat.id (with_key keystore config sum) (λ a. refl) db.platforms plat
            (one_row-some _ plat h),
        (eqb_iff plat.id plat.id).1 refl,
      )
      refl

module _ {Key Cert : Type 0} (certs : CertCalls Key Cert) (asn : Asn1) (x : Outside)
    (f : IsFaithful x) where
  empty_text : (plain : Bytes) → decrypt_creds x "" ≢ ok plain
  unfolding decrypt_creds
  empty_text plain = λ e. cc e

  -- a text that decrypts is not empty
  decrypts-ne :
      (stored : String) (plain : Bytes) → decrypt_creds x stored ≡ ok plain → (stored == "") ≡ false
  decrypts-ne stored plain h = elim (Text-cases stored "") [
    | inl empty ↦ absurd (empty_text plain (rw empty at h))
    | inr other ↦ other
  ]

  signing_of-with_key :
      (keystore config sum : String) (plat : AppPlatform) (ks : Keystore) (w : World)
      → decrypt_creds x keystore ≡ ok ks.bytes
      → decrypt_creds x config ≡ ok (certs.config_json ks.config)
      → certs.config_of_json (certs.config_json ks.config) ≡ ks.config
      → (signing_of certs asn x (with_key keystore config sum plat) w).0
        ≡ answered (signing_answer certs asn x ks.bytes ks.config)
  unfolding signing_of
  signing_of-with_key keystore config sum plat ks w h1 h2 json_again =
      rw (decrypts-ne keystore ks.bytes h1, h1, h2, json_again) refl

  -- If base64, AES-GCM and the random source behave as documented, and the keystore's configuration
  -- is read back from its JSON, a keystore that was stored for
  -- a platform is what a build gets: when the rows are as the storing left them, no call fails, and a
  -- request names the platform, the answer has the bytes of the keystore, its hash, the alias and the
  -- two passwords as they were uploaded.
  pub handle_api_get_signing-store_signing :
      (plat : AppPlatform) (ks : Keystore) (sum : String) (w later : World) (r : Request)
      → certs.config_of_json (certs.config_json ks.config) ≡ ks.config
      → (store_signing certs asn x plat ks w).0 ≡ done sum
      → later.db ≡ (store_signing certs asn x plat ks w).1.db
      → NoFaults later
      → (platform_name r == "android" || platform_name r == "ios") ≡ true
      → platform_by_slug_and_platform (path_value "slug" r) (platform_name r) w.db ≡ ok plat
      → (handle_api_get_signing certs asn x r later).0
        ≡ answered (signing_answer certs asn x ks.bytes ks.config)
  unfolding handle_api_get_signing platform_from_request HasKey
  handle_api_get_signing-store_signing plat ks sum w later r json_again e same calm valid found =
      let (keystore, config, sum', h1, h2, rows) =
        store_signing-HasKey certs asn x f plat ks w sum e in
      rw
        (
          valid,
          call_fine
              (λ v. (platform_by_slug_and_platform (path_value "slug" r) (platform_name r) v.db, v))
              later calm,
          same,
          rows,
          platform_by_slug_and_platform-with_key (path_value "slug" r) (platform_name r) keystore
              config sum' plat w.db found,
        )
        (signing_of-with_key keystore config sum' plat ks _ h1 h2 json_again)
