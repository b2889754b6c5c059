-- ===== src/Pkcs12.antt =====
-- srv/signing.go: the bytes that a PKCS#12 container is put together from (lengths, names, and the
-- key derivation of its MAC). A byte is a number; `none` of `pkcs12_kdf` is a panic.
pub mod Der
pub mod Names
pub mod Derivation
pub mod Alias
use release_hub.Base.{
  ℕ, zero, suc, ◌+◌, ◌-◌, ◌*◌, ◌/◌, ◌%◌, ◌^◌, String, code, Option, none, some, List, [], ◌∷◌, ◌++◌,
  length, take, drop, ltb, leb, eqb, if◌then◌else◌, ◌+++◌, ◌≡◌, refl, Bool, not,
}
use release_hub.Base.Int.{ℤ, pos_part}
use release_hub.Text.Number.{decimal}
use release_hub.Result.{failure, Result, ok, err}
use release_hub.World.{Bytes}

-- Go's byte(n)
abbrev pub byte : ℕ → ℕ
byte n = n % 256

-- `derLength`; n >> 8 and n >> 16 are quotients
unfoldable pub der_length : ℕ → Bytes
der_length n =
    if ltb n 0x80
    then byte n ∷ []
    else if ltb n 0x100
    then 0x81 ∷ byte n ∷ []
    else if ltb n 0x10000
    then 0x82 ∷ byte (n / 256) ∷ byte n ∷ []
    else 0x83 ∷ byte (n / 65536) ∷ byte (n / 256) ∷ byte n ∷ []

-- the same ladder, with a limit
tlv_length : ℕ → Result Bytes
tlv_length n =
    if ltb n 0x80
    then ok (byte n ∷ [])
    else if ltb n 0x100
    then ok (0x81 ∷ byte n ∷ [])
    else if ltb n 0x10000
    then ok (0x82 ∷ byte (n / 256) ∷ byte n ∷ [])
    else if ltb n 0x1000000
    then ok (0x83 ∷ byte (n / 65536) ∷ byte (n / 256) ∷ byte n ∷ [])
    else err (failure ("tlv too large: " +++ decimal n))

tagged : ℕ → Bytes → Result Bytes → Result Bytes
tagged tag tlv (err e) = err e
tagged tag tlv (ok len_bytes) = ok (tag ∷ (len_bytes ++ tlv))

-- `wrapTLV`
unfoldable pub wrap_tlv : ℕ → Bytes → Result Bytes
unfolding tlv_length tagged
wrap_tlv tag tlv = tagged tag tlv (tlv_length (length tlv))

module _ {A : Type 0} (marshal_octets : Bytes → Result Bytes) (marshal_oid : List ℕ → Result Bytes)
    (raw_value : Bytes → Result A) where
  -- the element 30 <length> <object id> A0 <length> <octet string>
  pub content_info : Bytes → Result Bytes → Result A
  content_info octet (err e) = err e
  content_info octet (ok body) =
      let seq_rest = body ++ 0xA0 ∷ (der_length (length octet) ++ octet) in
      raw_value (0x30 ∷ (der_length (suc (length seq_rest) - 1) ++ seq_rest))

  content_of : Result Bytes → Result A
  content_of (err e) = err e
  content_of (ok octet) = content_info octet (marshal_oid (1 ∷ 2 ∷ 840 ∷ 113549 ∷ 1 ∷ 7 ∷ 1 ∷ []))

  -- `buildDataContentInfo`, over asn1.Marshal of octets and of an object id, and `rawValueOf`
  unfoldable pub build_data_content_info : Bytes → Result A
  unfolding content_info content_of
  build_data_content_info payload = content_of (marshal_octets payload)

with_unit : ℕ → Result Bytes → Result Bytes
with_unit r (err e) = err e
with_unit r (ok out) = ok (byte (r / 256) ∷ byte r ∷ out)

-- `bmpStringZeroTerm`: two bytes for each character, and two zeros at the end. The error is that of
-- the first character beyond the basic plane; its text names that character.
unfoldable pub bmp_string_zero_term : String → Result Bytes
unfolding with_unit
bmp_string_zero_term String.[] = ok (0 ∷ 0 ∷ [])
bmp_string_zero_term (String.◌∷◌ c s) =
    let rest = bmp_string_zero_term s in
    if ltb 0xFFFF (code c)
    then err
        (failure ("character '" +++ (String.◌∷◌ c String.[] +++ "' cannot be encoded in UCS-2")))
    else with_unit (code c) rest

-- `bytes.Repeat`
pub repeat : ℕ → Bytes → Bytes
repeat zero pattern = []
repeat (suc n) pattern = pattern ++ repeat n pattern

-- the length of `fillRepeats`: v times the quotient, rounded up
abbrev pub filled_length : Bytes → ℕ → ℕ
filled_length pattern v = v * ((length pattern + v - 1) / v)

-- `bs[:n]`, which panics where it ends past the bytes
slice : ℕ → Bytes → Option Bytes
slice n bs = if leb n (length bs) then some (take n bs) else none

-- `fillRepeats`
unfoldable pub fill_repeats : Bytes → ℕ → Option Bytes
unfolding repeat slice
fill_repeats pattern v =
    if eqb (length pattern) 0
    then some []
    else slice (filled_length pattern v)
        (repeat ((filled_length pattern v + length pattern - 1) / length pattern) pattern)

-- math/big: SetBytes, and FillBytes, which panics on a number that does not fit
pub big_endian : ℕ → Bytes → ℕ
big_endian n [] = n
big_endian n (b ∷ bs) = big_endian (n * 256 + b) bs

pub low_bytes : ℕ → ℕ → Bytes → Bytes
low_bytes zero n out = out
low_bytes (suc v) n out = low_bytes v (n / 256) (byte n ∷ out)

abbrev fill_bytes : ℕ → ℕ → Option Bytes
fill_bytes v n = if ltb n (256 ^ v) then some (low_bytes v n []) else none

abbrev bind_option : {A B : Type 0} → Option A → (A → Option B) → Option B
bind_option none f = none
bind_option (some a) f = f a

abbrev first_byte : Bytes → ℕ
first_byte [] = 0
first_byte (b ∷ bs) = b

-- u and v of SHA-1
abbrev pub u_bytes : ℕ
u_bytes = 20

abbrev pub v_bytes : ℕ
v_bytes = 64

module _ (sha1 : Bytes → Bytes) where
  -- the inner loop, over j
  pub rehash : ℕ → Bytes → Bytes
  rehash zero a = a
  rehash (suc j) a = rehash j (sha1 a)

  -- the loop over k: the first byte of B is added to each block of I
  add_blocks : ℕ → ℕ → Bytes → Option Bytes
  add_blocks zero b0 i = some i
  add_blocks (suc blocks) b0 i =
      let rest = add_blocks blocks b0 (drop v_bytes i) in
      bind_option (fill_bytes v_bytes (big_endian 0 (take v_bytes i) + b0))
        λ block. bind_option rest λ more. some (block ++ more)

  -- I for the next block, from the bytes of B
  next_i : Bytes → Option Bytes → Option Bytes
  next_i i none = none
  next_i i (some b) = add_blocks (length i / v_bytes) (first_byte b) i

  -- the loop over the blocks of A that are left, and the bytes they hold
  kdf_blocks : ℕ → ℤ → Bytes → Bytes → Option Bytes
  kdf_blocks zero iterations d i = some []
  kdf_blocks (suc c) iterations d i =
      let a_i = rehash (pos_part iterations - 1) (sha1 (d ++ i)) in
      bind_option
        (if eqb c 0
          then some i
          else next_i i (bind_option (fill_repeats a_i v_bytes) (slice v_bytes)))
        λ next. bind_option (kdf_blocks c iterations d next) λ more. some (a_i ++ more)

  -- `pkcs12KDF`; A is as long as its blocks, which have 20 bytes each
  unfoldable pub pkcs12_kdf : Bytes → Bytes → ℤ → ℕ → ℕ → Option Bytes
  unfolding slice repeat rehash add_blocks next_i kdf_blocks big_endian low_bytes
  pkcs12_kdf password salt iterations id size = bind_option (fill_repeats salt v_bytes) λ s.
      bind_option (fill_repeats password v_bytes) λ p.
        bind_option
          (kdf_blocks ((size + u_bytes - 1) / u_bytes) iterations (repeat v_bytes (id ∷ []))
            (s ++ p))
          (slice size)
