-- ===== src/Tests/Faithful.antt =====
-- An outside world in which encoding, sealing and random bytes behave as documented.
use release_hub.Base.{
  Bool, ℕ, zero, suc, ◌+◌, String, [], ◌∷◌, Option, none, some, ◌≡◌, refl, ap, arith, ◌∙◌, length,
  eqb, code, ◌+++◌, if◌then◌else◌,
}
use release_hub.Result.{ok}
use release_hub.World.{Outside, Bytes}
use release_hub.Secrets.RoundTrip.{IsFaithful}

-- a byte as that many strokes and a stop
strokes : ℕ → String → String
strokes zero s = String.◌∷◌ "." s
strokes (suc n) s = String.◌∷◌ "|" (strokes n s)

unfoldable pub encode : Bytes → String
unfolding strokes
encode [] = ""
encode (b ∷ bytes) = strokes b (encode bytes)

with_byte : ℕ → Option Bytes → Option Bytes
with_byte n none = none
with_byte n (some bytes) = some (n ∷ bytes)

unfoldable pub decode : ℕ → String → Option Bytes
unfolding with_byte
decode n String.[] = some []
decode n (String.◌∷◌ c s) =
    let stop = decode 0 s in
    let on = decode (suc n) s in if eqb (code c) b'.' then with_byte n stop else on

decode-strokes : (n b : ℕ) (s : String) → decode n (strokes b s) ≡ with_byte (n + b) (decode 0 s)
unfolding decode strokes
decode-strokes n zero s = ap (λ k. with_byte k (decode 0 s)) (omega arith)
decode-strokes n (suc b) s =
    decode-strokes (suc n) b s ∙ ap (λ k. with_byte k (decode 0 s)) (omega arith)

decode-encode : (bytes : Bytes) → decode 0 (encode bytes) ≡ some bytes
unfolding encode with_byte
decode-encode [] = unfold decode in refl
decode-encode (b ∷ bytes) =
    rw (decode-strokes 0 b (encode bytes), decode-encode bytes)
      (ap (λ n. some (n ∷ bytes)) (omega arith))

unfoldable pub zeros : ℕ → Bytes
zeros zero = []
zeros (suc n) = 0 ∷ zeros n

length-zeros : (n : ℕ) → length (zeros n) ≡ n
unfolding zeros
length-zeros zero = refl
length-zeros (suc n) = ap suc (length-zeros n)

abbrev pub outside : Outside
outside = record {
  lower = λ s. s;
  temp_name = λ n. "1";
  sha256_hex = λ b. "sha";
  sha256_bytes = λ s. zeros 32;
  hash_text = λ s. "hash of " +++ s;
  random = λ tick n. zeros n;
  hex_encode = λ b. encode b;
  bcrypt_matches = λ h p. Bool.false;
  bcrypt_hash = λ n p. ok ("bcrypt of " +++ p);
  base64_encode = encode;
  base64_decode = decode 0;
  aes_seal = λ key nonce plain. plain;
  aes_open = λ key nonce sealed. some sealed;
  env = λ name. "secret";
  presign = λ key. key;
  client_email = λ b. some "hub@example.com";
  api_error = λ t. none;
  bundle_code = λ log. 1;
  live_tracks = λ log. [];
}

pub outside-IsFaithful : IsFaithful outside
outside-IsFaithful = record {
  base64 = decode-encode;
  aes = λ key nonce plain. refl;
  random = λ tick n. length-zeros n;
}
