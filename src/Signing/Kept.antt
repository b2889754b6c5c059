-- ===== src/Signing/Kept.antt =====
-- What the signing handlers keep: every invariant of the database.
use release_hub.Base.{ℕ, String}
use release_hub.Result.{Result, ok, err}
use release_hub.Db.{Database, AppPlatform}
use release_hub.Invariant.{IsInvariant, Safe, Safe-exec, safe_rules}
use release_hub.Secrets.Kept.{Keeps-encrypt_creds}
use release_hub.Request.{Request}
use release_hub.World.{Outside, Bytes}
use release_hub.Secrets.{encrypt_creds}
use release_hub.Pkcs12.Alias.{Asn1}
use release_hub.Pkcs12.Alias.Kept.{Safe-with_key_bag_friendly_name}
use release_hub.Signing.{
  CertCalls, Keystore, DistinguishedName, CertSubject, setting, subject_from_config, keystore_from,
  key_row, with_config, store_signing, handle_api_set_signing, signing_of, handle_api_get_signing,
  wiped, handle_api_delete_signing, time_now, sealed_key, generate_keystore_with_subject,
  store_generated, generate_and_store_signing,
}

module _ {I : Database → Type 0} where
  pub Safe-encrypt_creds : (x : Outside) (plain : Bytes) → Safe I (encrypt_creds x plain)
  Safe-encrypt_creds x plain = record { kept = Keeps-encrypt_creds x (λ w h. h) plain }

  Safe-setting : (key : String) → Safe I (setting key)
  unfolding setting
  Safe-setting key = search safe_rules depth 24

  Safe-subject_from_config : Safe I subject_from_config
  unfolding subject_from_config
  Safe-subject_from_config = search (safe_rules, Safe-setting) depth 24

  Safe-keystore_from : (r : Request) → Safe I (keystore_from r)
  unfolding keystore_from
  Safe-keystore_from r = search safe_rules depth 24

module _ {Key Cert : Type 0} (certs : CertCalls Key Cert) (asn : Asn1) (x : Outside)
    {I : Database → Type 0} where
  Safe-signing_of : (plat : AppPlatform) → Safe I (signing_of certs asn x plat)
  unfolding signing_of
  Safe-signing_of plat = search safe_rules depth 24

  pub Safe-handle_api_get_signing : (r : Request) → Safe I (handle_api_get_signing certs asn x r)
  unfolding handle_api_get_signing
  Safe-handle_api_get_signing r = search (safe_rules, Safe-signing_of) depth 24

  Safe-time_now : Safe I (time_now certs asn x)
  unfolding time_now
  Safe-time_now = record { kept = record { at = λ w h. h } }

  Safe-sealed_key :
      (common_name : String) (name : DistinguishedName) (key : Key) (serial now : ℕ)
      → Safe I (sealed_key certs asn x common_name name key serial now)
  unfolding sealed_key
  Safe-sealed_key common_name name key serial now =
      search (safe_rules, Safe-with_key_bag_friendly_name) depth 24

  Safe-generate_keystore_with_subject :
      (common_name : String) (subj : CertSubject)
      → Safe I (generate_keystore_with_subject certs asn x common_name subj)
  unfolding generate_keystore_with_subject
  Safe-generate_keystore_with_subject common_name subj =
      search (safe_rules, Safe-time_now, Safe-sealed_key) depth 24

module _ {Key Cert : Type 0} (certs : CertCalls Key Cert) (asn : Asn1) (x : Outside)
    {I : Database → Type 0} (inv : IsInvariant I) where
  Safe-key_row :
      (plat : AppPlatform) (ks : Keystore) (enc_ks enc_cfg : String)
      → Safe I (key_row certs asn x plat ks enc_ks enc_cfg)
  unfolding key_row
  Safe-key_row plat ks enc_ks enc_cfg = search (safe_rules, Safe-exec, inv.signing_set) depth 24

  Safe-store_signing :
      (plat : AppPlatform) (ks : Keystore) → Safe I (store_signing certs asn x plat ks)
  unfolding store_signing with_config
  Safe-store_signing plat ks = search (safe_rules, Safe-encrypt_creds, Safe-key_row) depth 24

  pub Safe-handle_api_set_signing : (r : Request) → Safe I (handle_api_set_signing certs asn x r)
  unfolding handle_api_set_signing
  Safe-handle_api_set_signing r =
      search (safe_rules, Safe-keystore_from, Safe-store_signing) depth 24

  Safe-wiped : (r : Result (Unit {0})) → Safe I (wiped certs asn x r)
  unfolding wiped
  Safe-wiped (err e) = search safe_rules depth 24
  Safe-wiped (ok _) = search safe_rules depth 24

  pub Safe-handle_api_delete_signing :
      (r : Request) → Safe I (handle_api_delete_signing certs asn x r)
  unfolding handle_api_delete_signing
  Safe-handle_api_delete_signing r =
      search (safe_rules, Safe-exec, inv.signing_set, Safe-wiped) depth 24

  Safe-store_generated :
      (id : ℕ) (p12 : Bytes) (e1 e2 : Result String)
      → Safe I (store_generated certs asn x id p12 e1 e2)
  unfolding store_generated
  Safe-store_generated id p12 (ok a) (ok b) =
      search (safe_rules, Safe-exec, inv.signing_set) depth 24
  Safe-store_generated id p12 (ok a) (err e) = search safe_rules depth 24
  Safe-store_generated id p12 (err e) (ok b) = search safe_rules depth 24
  Safe-store_generated id p12 (err e) (err e') = search safe_rules depth 24

  pub Safe-generate_and_store_signing :
      (id : ℕ) (slug : String) → Safe I (generate_and_store_signing certs asn x id slug)
  unfolding generate_and_store_signing
  Safe-generate_and_store_signing id slug =
      search
        (
          safe_rules, Safe-subject_from_config, Safe-generate_keystore_with_subject,
          Safe-encrypt_creds, Safe-store_generated,
        )
        depth 24
