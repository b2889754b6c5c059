-- ===== src/Secrets/RoundTrip.antt =====
-- What was encrypted is decrypted.
use text.Mathlib.TextPositions.{starts_with-append}
use text.Mathlib.TextEquality.{starts_with_iff}
use text.Mathlib.TextLemmas.{cons-append}
use release_hub.Base.{
  code, ℕ, zero, suc, String, [], ◌∷◌, ◌++◌, Option, none, some, ◌≡◌, refl, ap, sym, ◌∙◌, arith,
  length, take, drop, length-append, ◌+++◌, starts_with, Bool-cases, inl, inr, ◌==◌, ltb, false,
}
use release_hub.Text.Prefix.{drop_chars-append}
use release_hub.Result.{Result, ok}
use release_hub.World.{Outside, Bytes, World, Outcome, done}
use release_hub.World.Calls.{after_call}
use release_hub.Secrets.{
  load_secret_key, encrypt_with, encrypt_creds, decrypt_creds, decrypt_with, open_raw, sealed_text,
  bytes_or,
}

-- The documented behaviour of encoding/base64, crypto/rand and crypto/cipher that the store rests on.
pub record IsFaithful (x : Outside) : Type 0 where
  pub base64 : (b : Bytes) → x.base64_decode (x.base64_encode b) ≡ some b
  pub aes :
      (key nonce plain : Bytes) → x.aes_open key nonce (x.aes_seal key nonce plain) ≡ some plain
  pub random : (tick n : ℕ) → length (x.random tick n) ≡ n

take-append : (n : ℕ) (xs ys : Bytes) → length xs ≡ n → take n (xs ++ ys) ≡ xs
take-append zero [] ys h = refl
take-append zero (x ∷ xs) ys h = absurd (omega arith)
take-append (suc n) [] ys h = absurd (omega arith)
take-append (suc n) (x ∷ xs) ys h = ap (◌∷◌ x) (take-append n xs ys (omega arith))

drop-append : (n : ℕ) (xs ys : Bytes) → length xs ≡ n → drop n (xs ++ ys) ≡ ys
drop-append zero [] ys h = refl
drop-append zero (x ∷ xs) ys h = absurd (omega arith)
drop-append (suc n) [] ys h = absurd (omega arith)
drop-append (suc n) (x ∷ xs) ys h = drop-append n xs ys (omega arith)

abbrev first_code : String → ℕ
first_code String.[] = 0
first_code (String.◌∷◌ c s) = code c

module _ (x : Outside) (f : IsFaithful x) where
  open_raw-seal :
      (key nonce plain : Bytes)
      → length nonce ≡ 12
      → open_raw x key (some (nonce ++ x.aes_seal key nonce plain)) ≡ ok plain
  unfolding open_raw bytes_or
  open_raw-seal key nonce plain h =
      rw
        (
          long_enough,
          take-append 12 nonce (x.aes_seal key nonce plain) h,
          drop-append 12 nonce (x.aes_seal key nonce plain) h,
          f.aes key nonce plain,
        )
        refl
    where
      long_enough : ltb (length (nonce ++ x.aes_seal key nonce plain)) 12 ≡ false
      long_enough = ground (arith, h, length-append {0} nonce (x.aes_seal key nonce plain))

  plain-starts_with : (t : String) → starts_with ("plain:" +++ t) "aes:" ≡ false
  plain-starts_with t = elim (Bool-cases (starts_with ("plain:" +++ t) "aes:")) [
    | inl e ↦
        let (r, p) = (starts_with_iff ("plain:" +++ t) "aes:").0 e in
        absurd (
          omega
            (arith, ap first_code (sym (cons-append "a" "es:" r) ∙ p ∙ cons-append "p" "lain:" t)))
    | inr e ↦ e
  ]

  decrypt_creds-sealed :
      (key nonce plain : Bytes)
      → load_secret_key x ≡ some key
      → length nonce ≡ 12
      → decrypt_creds x ("aes:" +++ x.base64_encode (nonce ++ x.aes_seal key nonce plain))
        ≡ ok plain
  unfolding decrypt_creds decrypt_with
  decrypt_creds-sealed key nonce plain e h =
      rw
        (
          starts_with-append "aes:" (x.base64_encode (nonce ++ x.aes_seal key nonce plain)),
          e,
          drop_chars-append "aes:" (x.base64_encode (nonce ++ x.aes_seal key nonce plain)),
          f.base64,
        )
        (open_raw-seal key nonce plain h)

  decrypt_creds-plain :
      (plain : Bytes) → decrypt_creds x ("plain:" +++ x.base64_encode plain) ≡ ok plain
  unfolding decrypt_creds bytes_or
  decrypt_creds-plain plain =
      rw
        (
          plain-starts_with (x.base64_encode plain),
          starts_with-append "plain:" (x.base64_encode plain),
          drop_chars-append "plain:" (x.base64_encode plain),
          f.base64,
        )
        refl

  -- What was stored can be read back.
  abbrev Readable : Bytes → Outcome (Result String) × World → Type 0
  Readable plain (o, w') =
      (stored : String) → o ≡ done (ok stored) → decrypt_creds x stored ≡ ok plain

  encrypt_with-Readable :
      (key : Option Bytes) (plain : Bytes) (w : World)
      → load_secret_key x ≡ key
      → Readable plain (encrypt_with x key plain w)
  unfolding encrypt_with sealed_text
  encrypt_with-Readable none plain w e = elim (Bool-cases (x.env "ALLOW_PLAINTEXT_CREDS" == "1")) [
    | inl allowed ↦ rw allowed (λ stored h. cc (h, decrypt_creds-plain plain))
    | inr refused ↦ rw refused (λ stored h. absurd (cc h))
  ]
  encrypt_with-Readable (some key) plain w e =
      after_call (Readable plain) _ _ w (λ t stored h. absurd (cc h))
        (λ stored h.
          cc (h, decrypt_creds-sealed key (x.random w.tick 12) plain e (f.random w.tick 12)))

  -- If base64, AES-GCM and the random source behave as documented, credentials that were encrypted
  -- successfully are decrypted to what they were, whether a key is configured or plaintext storage is
  -- allowed.
  pub decrypt_creds-encrypt_creds :
      (plain : Bytes) (stored : String) (w : World)
      → (encrypt_creds x plain w).0 ≡ done (ok stored)
      → decrypt_creds x stored ≡ ok plain
  unfolding encrypt_creds
  decrypt_creds-encrypt_creds plain stored w h =
      encrypt_with-Readable (load_secret_key x) plain w refl stored h
