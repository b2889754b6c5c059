-- ===== src/Tests/Keys.antt =====
-- The theorems on signing keys at concrete inputs: a toy ASN.1, and a keystore that is stored and got.
use release_hub.Base.{
  [], ◌∷◌, ◌≡◌, ◌≢◌, refl, length, true, ◌||◌, ◌==◌, find_first, any_of, List, String, ap, some,
}
use release_hub.Base.Int.{pos}
use release_hub.Result.{ok}
use release_hub.World.{World, Bytes, done, panicked, answered, call, Outcome, binary}
use release_hub.Db.Apps.{platform_by_slug_and_platform, set_signing_config}
use release_hub.Platform.{platform_name}
use release_hub.Request.{path_value}
use release_hub.Secrets.{encrypt_creds, load_secret_key}
use release_hub.Pkcs12.Alias.{Asn1, RawValue, Pfx, oid_sha1, with_key_bag_friendly_name}
use release_hub.Pkcs12.Alias.Total.{with_key_bag_friendly_name-ne}
use release_hub.Signing.{
  CertCalls, Keystore, SigningConfig, store_signing, handle_api_get_signing, signing_answer,
}
use release_hub.Signing.Fetch.{Client, Reply, fetch_signing_for_build}
use release_hub.Signing.Fetch.RoundTrip.{arrived, fetch_signing_for_build-store_signing}
use release_hub.Signing.RoundTrip.{handle_api_get_signing-store_signing}
use release_hub.Tests.{demo, calm, manifest_request}
use release_hub.Tests.Containers.{flat}
use release_hub.Tests.Faithful.{outside, outside-IsFaithful}

abbrev raw : Bytes → RawValue
raw bs = record { tag = 4; bytes = bs; full_bytes = bs }

abbrev pfx : Pfx
pfx = record {
  version = 3;
  content_type = 1 ∷ 2 ∷ [];
  content = raw (1 ∷ []);
  mac_algorithm = oid_sha1;
  digest = [];
  mac_salt = 9 ∷ [];
  iterations = pos 2;
}

-- one content with one key bag that has no name
abbrev pub asn : Asn1
asn = record {
  parse_pfx = λ bs. ok (pfx, []);
  parse_raw = λ bs. ok (raw bs, []);
  parse_raws = λ bs. ok (raw bs ∷ [], []);
  parse_header = λ bs. ok (1 ∷ 2 ∷ 840 ∷ 113549 ∷ 1 ∷ 7 ∷ 1 ∷ [], raw bs);
  parse_bag = λ bs. ok (record {
    id = 1 ∷ 2 ∷ 840 ∷ 113549 ∷ 1 ∷ 12 ∷ 10 ∷ 1 ∷ 2 ∷ [];
    value = raw bs;
    attributes = [];
  });
  marshal_bag = λ bag. ok (length bag.attributes ∷ []);
  marshal_raws = λ rvs. ok (length rvs ∷ []);
  marshal_octets = λ bs. ok (4 ∷ length bs ∷ bs);
  marshal_oid = λ oid. ok (6 ∷ []);
  marshal_bmp = λ bs. ok (30 ∷ length bs ∷ bs);
  marshal_pfx = λ p. ok p.digest;
  sha1 = flat;
  hmac_sha1 = λ key message. length key ∷ message;
}

abbrev container : Bytes
container = 1 ∷ []

with_key_bag_friendly_name-ne_example :
    (with_key_bag_friendly_name asn container "release" "pw" calm).0 ≢ panicked
with_key_bag_friendly_name-ne_example =
    with_key_bag_friendly_name-ne asn (λ bs. refl) container "release" "pw" calm

abbrev config : SigningConfig
config = record { store_password = "pw"; key_alias = "release"; key_password = "pw" }

-- keys and certificates are nothing here
abbrev pub certs : CertCalls (Unit {0}) (Unit {0})
certs = record {
  generate_key = λ n. tt;
  random_below = λ n bound. 1;
  create_certificate = λ n template key. ok (1 ∷ []);
  parse_certificate = λ bs. ok tt;
  encode_pkcs12 = λ n key cert password. ok (1 ∷ []);
  pem_certificate = λ bs. bs;
  config_json = λ c. [];
  config_of_json = λ bs. config;
  alias_of_json = λ bs. some "release";
  add_years = λ n t. t;
}

abbrev keystore : Keystore
keystore = record { bytes = 7 ∷ 8 ∷ []; config = config }

stored_key : (store_signing certs asn outside demo keystore calm).0 ≡ done "sha"
unfolding store_signing encrypt_creds load_secret_key call set_signing_config
stored_key = refl

abbrev after_storing : World
after_storing = record calm { db = (store_signing certs asn outside demo keystore calm).1.db }

demo_found : platform_by_slug_and_platform "demo" (platform_name manifest_request) calm.db ≡ ok demo
unfolding platform_by_slug_and_platform platform_name path_value find_first any_of
demo_found = refl

android :
    (platform_name manifest_request == "android" || platform_name manifest_request == "ios") ≡ true
unfolding platform_name path_value
android = refl

slug_demo : path_value "slug" manifest_request ≡ "demo"
unfolding path_value
slug_demo = refl

handle_api_get_signing-store_signing_example :
    (handle_api_get_signing certs asn outside manifest_request after_storing).0
    ≡ answered (signing_answer certs asn outside (7 ∷ 8 ∷ []) config)
unfolding path_value
handle_api_get_signing-store_signing_example =
    handle_api_get_signing-store_signing certs asn outside outside-IsFaithful demo keystore "sha"
      calm after_storing manifest_request refl stored_key refl (λ n. refl) android demo_found

reply_of : Outcome (Unit {0}) → Reply
reply_of (answered (binary fields body)) = arrived fields body
reply_of _ = record { status = 500; status_text = "500"; headers = []; body = ok [] }

-- a build that asks this hub, and the files that it has written
abbrev build : Client (List (String × Bytes))
build = record {
  new_request = λ url. ok tt;
  do_request = λ url authorization files. (
    ok (reply_of (handle_api_get_signing certs asn outside manifest_request after_storing).0),
    files,
  );
  write_file = λ path bytes files. (ok tt, (path, bytes) ∷ files);
}

fetch_signing_for_build-store_signing_example :
    fetch_signing_for_build build "https://hub" "demo" "rh_1" "release.p12" [] ≡ (
      ok (record {
        store_password = "pw";
        key_alias = "release";
        key_password = "pw";
        sha = "sha";
      }),
      ("release.p12", 7 ∷ 8 ∷ []) ∷ [],
    )
unfolding reply_of path_value
fetch_signing_for_build-store_signing_example =
    fetch_signing_for_build-store_signing certs asn outside outside-IsFaithful build demo keystore
      "sha" calm after_storing manifest_request refl stored_key refl (λ n. refl) android demo_found
      "https://hub" "demo" "rh_1" "release.p12" [] [] refl
      (λ fields body e. ap (λ o. (ok (reply_of o), [])) e) refl
