-- ===== src/Secrets.antt =====
-- srv/secrets.go: credentials at rest. The key is of 32 bytes on every branch, so `aes.NewCipher` and
-- `cipher.NewGCM` do not fail.
pub mod RoundTrip
pub mod Kept
use release_hub.Base.{
  ℕ, zero, suc, ◌+◌, ◌*◌, ◌-◌, String, Char, code, List, [], ◌∷◌, ◌++◌, Option, none, some, ◌==◌,
  ◌+++◌, if◌then◌else◌, Bool, true, false, leb, ltb, eqb, ◌&&◌, length, drop, take, ◌≡◌, refl,
  starts_with,
}
use Prim.Native.String.{len}
use release_hub.Text.{drop_chars}
use release_hub.Result.{GoError, failure, Result, ok, err}
use release_hub.World.{Outside, Bytes, M, ◌>>=◌, ◌>>◌, pure, call}

hex_digit : Char → Option ℕ
hex_digit c =
    let n = code c in
    if leb b'0' n && leb n b'9'
    then some (n - b'0')
    else if leb b'a' n && leb n b'f'
    then some (n - 87)
    else if leb b'A' n && leb n b'F'
    then some (n - 55)
    else none

hex_byte : Option ℕ → Option ℕ → Option Bytes → Option Bytes
hex_byte (some h) (some l) (some rest) = some ((h * 16 + l) ∷ rest)
hex_byte _ _ _ = none

-- `hex.DecodeString`
hex_bytes : String → Option Bytes
hex_bytes String.[] = some []
hex_bytes (String.◌∷◌ c String.[]) = none
hex_bytes (String.◌∷◌ c (String.◌∷◌ d s)) = hex_byte (hex_digit c) (hex_digit d) (hex_bytes s)

-- `hexDecode`
unfoldable pub hex_decode : String → Option Bytes
unfolding hex_digit hex_byte hex_bytes
hex_decode s = if eqb (len s) 64 then hex_bytes s else none

of_32_bytes : Option Bytes → Option Bytes
of_32_bytes none = none
of_32_bytes (some b) = if eqb (length b) 32 then some b else none

or_else : Option Bytes → Bytes → Bytes
or_else none b = b
or_else (some a) b = a

abbrev nonce_size : ℕ
nonce_size = 12

module _ (x : Outside) where
  -- the two encodings of a key, and the hash of any other passphrase
  key_bytes : String → Bytes
  key_bytes k =
      or_else (of_32_bytes (x.base64_decode k))
        (or_else (of_32_bytes (hex_decode k)) (x.sha256_bytes k))

  -- `loadSecretKey`; it returns no error
  unfoldable pub load_secret_key : Option Bytes
  unfolding key_bytes of_32_bytes or_else hex_decode
  load_secret_key =
      if x.env "RELEASE_HUB_SECRET_KEY" == ""
      then none
      else some (key_bytes (x.env "RELEASE_HUB_SECRET_KEY"))

  sealed_text : Bytes → Bytes → Result Bytes → Result String
  sealed_text key plain (err e) = err e
  sealed_text key plain (ok nonce) =
      ok ("aes:" +++ x.base64_encode (nonce ++ x.aes_seal key nonce plain))

  encrypt_with : Option Bytes → Bytes → M (Result String)
  encrypt_with none plain =
      if x.env "ALLOW_PLAINTEXT_CREDS" == "1"
      then pure (ok ("plain:" +++ x.base64_encode plain))
      else pure (
          err (failure "set RELEASE_HUB_SECRET_KEY (32-byte base64/hex) to store Play credentials"))
  encrypt_with (some key) plain = do
    nonce ← call (λ w. (ok (x.random w.tick nonce_size), w))
    pure (sealed_text key plain nonce)

  -- `encryptCreds`
  unfoldable pub encrypt_creds : Bytes → M (Result String)
  unfolding encrypt_with sealed_text
  encrypt_creds plain = encrypt_with load_secret_key plain

  bytes_or : String → Option Bytes → Result Bytes
  bytes_or text none = err (failure text)
  bytes_or text (some b) = ok b

  open_raw : Bytes → Option Bytes → Result Bytes
  open_raw key none = err (failure "illegal base64 data")
  open_raw key (some raw) =
      if ltb (length raw) nonce_size
      then err (failure "ciphertext too short")
      else bytes_or "cipher: message authentication failed"
          (x.aes_open key (take nonce_size raw) (drop nonce_size raw))

  decrypt_with : Option Bytes → String → Result Bytes
  decrypt_with none stored =
      err (failure "credentials are encrypted but RELEASE_HUB_SECRET_KEY is not set")
  decrypt_with (some key) stored = open_raw key (x.base64_decode (drop_chars "aes:" stored))

  -- `decryptCreds`
  unfoldable pub decrypt_creds : String → Result Bytes
  unfolding decrypt_with open_raw bytes_or drop_chars
  decrypt_creds stored =
      if starts_with stored "aes:"
      then decrypt_with load_secret_key stored
      else if starts_with stored "plain:"
      then bytes_or "illegal base64 data" (x.base64_decode (drop_chars "plain:" stored))
      else err (failure "unknown credential format")

hex : hex_bytes "0aFf" ≡ some (10 ∷ 255 ∷ [])
unfolding hex_bytes hex_byte hex_digit
hex = refl
