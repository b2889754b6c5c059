-- ===== src/Signing/Fetch/RoundTrip.antt =====
-- What a build fetches from the hub.
use release_hub.Base.{String, List, [], ◌∷◌, true, ◌||◌, ◌==◌, ◌≡◌, refl, ◌+++◌}
use release_hub.Result.{ok}
use release_hub.Db.{AppPlatform}
use release_hub.Db.Apps.{platform_by_slug_and_platform}
use release_hub.Secrets.RoundTrip.{IsFaithful}
use release_hub.Request.{Request, path_value, find_value}
use release_hub.Platform.{platform_name}
use release_hub.World.{World, Outside, Json, Fields, Bytes, binary, answered, done}
use release_hub.World.Calls.{NoFaults}
use release_hub.Pkcs12.Alias.{Asn1}
use release_hub.Signing.{CertCalls, Keystore, store_signing, handle_api_get_signing}
use release_hub.Signing.RoundTrip.{handle_api_get_signing-store_signing}
use release_hub.Signing.Fetch.{Reply, Client, signing_url, fetch_signing_for_build}

-- the headers that have a text
abbrev texts : Fields → List (String × String)
texts [] = []
texts ((name, Json.str value) ∷ fields) = (name, value) ∷ texts fields
texts (_ ∷ fields) = texts fields

-- A binary answer as it arrives at a client.
abbrev pub arrived : Fields → Bytes → Reply
arrived fields body = record {
  status = 200;
  status_text = "200 OK";
  headers = texts fields;
  body = ok body;
}

module _ {Key Cert : Type 0} (certs : CertCalls Key Cert) (asn : Asn1) (x : Outside)
    (f : IsFaithful x) {S : Type 0} (c : Client S) where
  -- If base64, AES-GCM and the random source behave as documented, and a keystore was stored, then
  -- what a build fetches is what was stored: when the rows are as the storing left them, no call of
  -- the hub fails, the request names the platform, the configuration is read back from its JSON,
  -- the binary answer of the hub arrives at the client as it is, the URL is well-formed and the
  -- file is written, `FetchSigningForBuild` writes the bytes of the keystore and gives its alias,
  -- its two passwords, and its hash.
  pub fetch_signing_for_build-store_signing :
      (plat : AppPlatform) (ks : Keystore) (sum : String) (w later : World) (r : Request)
      → certs.config_of_json (certs.config_json ks.config) ≡ ks.config
      → (store_signing certs asn x plat ks w).0 ≡ done sum
      → later.db ≡ (store_signing certs asn x plat ks w).1.db
      → NoFaults later
      → (platform_name r == "android" || platform_name r == "ios") ≡ true
      → platform_by_slug_and_platform (path_value "slug" r) (platform_name r) w.db ≡ ok plat
      → (base slug token out : String) (s asked : S) → c.new_request (signing_url base slug) ≡ ok tt
      → ((fields : Fields) (body : Bytes)
          → (handle_api_get_signing certs asn x r later).0 ≡ answered (binary fields body)
          → c.do_request (signing_url base slug) ("Bearer " +++ token) s
            ≡ (ok (arrived fields body), asked))
      → (c.write_file out ks.bytes asked).0 ≡ ok tt
      → fetch_signing_for_build c base slug token out s ≡ (
        ok (record {
          store_password = ks.config.store_password;
          key_alias = ks.config.key_alias;
          key_password = ks.config.key_password;
          sha = x.sha256_hex ks.bytes;
        }),
        (c.write_file out ks.bytes asked).1,
      )
  unfolding fetch_signing_for_build find_value
  fetch_signing_for_build-store_signing plat ks sum w later r again e same calm valid found base
        slug token out s asked url sent went =
      let got =
        handle_api_get_signing-store_signing certs asn x f plat ks sum w later r again e same calm
          valid found in
      rw (url, sent _ _ got, went) refl
