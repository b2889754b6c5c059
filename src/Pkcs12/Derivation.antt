-- ===== src/Pkcs12/Derivation.antt =====
-- The filling of a pattern to whole blocks, and the key of one block.
use native.Mathlib.Nat.{lt-div-mul-add, div-lt_iff_lt-mul, div-add-mod', mod-lt}
use release_hub.Base.{
  ℕ, zero, suc, ◌+◌, ◌-◌, ◌*◌, ◌/◌, ◌%◌, ◌<◌, ◌≤◌, Option, some, [], ◌∷◌, ◌++◌, length,
  length-append, length-take, take, drop, ◌≡◌, refl, ap, sym, ◌∙◌, arith, append-nil, head?,
}
use release_hub.Base.Int.{ℤ, pos_part}
use release_hub.World.{Bytes}
use release_hub.Pkcs12.{
  slice, repeat, filled_length, fill_repeats, pkcs12_kdf, kdf_blocks, rehash, u_bytes,
}

-- The byte at a position.
abbrev pub byte_at : ℕ → Bytes → Option ℕ
byte_at i bs = head? (drop i bs)

byte_at-take : (n i : ℕ) (bs : Bytes) → i < n → byte_at i (take n bs) ≡ byte_at i bs
byte_at-take zero i bs h = absurd (omega arith)
byte_at-take (suc n) i [] h = refl
byte_at-take (suc n) zero (b ∷ bs) h = refl
byte_at-take (suc n) (suc i) (b ∷ bs) h = byte_at-take n i bs (omega arith)

byte_at-append_left : (i : ℕ) (bs cs : Bytes) → i < length bs → byte_at i (bs ++ cs) ≡ byte_at i bs
byte_at-append_left i [] cs h = absurd (omega arith)
byte_at-append_left zero (b ∷ bs) cs h = refl
byte_at-append_left (suc i) (b ∷ bs) cs h = byte_at-append_left i bs cs (omega arith)

byte_at-append_right : (i : ℕ) (bs cs : Bytes) → byte_at (length bs + i) (bs ++ cs) ≡ byte_at i cs
byte_at-append_right i [] cs = ap (λ n. byte_at n cs) (omega arith)
byte_at-append_right i (b ∷ bs) cs =
    ap (λ n. byte_at n (b ∷ (bs ++ cs))) (reordered (length bs) i) ∙ byte_at-append_right i bs cs
  where
    reordered : (m n : ℕ) → suc m + n ≡ suc (m + n)
    reordered m n = omega arith

length-repeat : (n : ℕ) (p : Bytes) → length (repeat n p) ≡ n * length p
unfolding repeat
length-repeat zero p = omega arith
length-repeat (suc n) p = omega (arith, length-append p (repeat n p), length-repeat n p)

-- the copy of number q is the pattern
byte_at-repeat :
    (n q r : ℕ) (p : Bytes)
    → q < n
    → r < length p
    → byte_at (q * length p + r) (repeat n p) ≡ byte_at r p
unfolding repeat
byte_at-repeat zero q r p hq hr = absurd (omega arith)
byte_at-repeat (suc n) zero r p hq hr =
    ap (λ m. byte_at m (p ++ repeat n p)) (omega arith) ∙ byte_at-append_left r p (repeat n p) hr
byte_at-repeat (suc n) (suc q) r p hq hr =
    ap (λ m. byte_at m (p ++ repeat n p)) (omega arith)
    ∙ byte_at-append_right (q * length p + r) p (repeat n p)
    ∙ byte_at-repeat n q r p (omega arith) hr

-- enough copies are made for the length
copies-enough : (l n : ℕ) → 0 < n → l ≤ (l + n - 1) / n * n
copies-enough l n h = omega (arith, lt-div-mul-add {a = l + n - 1} {b = n} h)

copy-before : (i l n : ℕ) → 0 < n → i < l → i / n < (l + n - 1) / n
copy-before i l n h less = omega (
  arith,
  (div-lt_iff_lt-mul {k = n} {x = i} {y = (l + n - 1) / n} h).1
      (omega (arith, less, copies-enough l n h)),
)

length_of_copies :
    (l : ℕ) (p : Bytes)
    → 0 < length p
    → length (take l (repeat ((l + length p - 1) / length p) p)) ≡ l
length_of_copies l p h = omega (
  arith,
  length-take l (repeat ((l + length p - 1) / length p) p),
  length-repeat ((l + length p - 1) / length p) p,
  copies-enough l (length p) h,
)

byte_at_copies :
    (l i : ℕ) (p : Bytes)
    → 0 < length p
    → i < l
    → byte_at i (take l (repeat ((l + length p - 1) / length p) p)) ≡ byte_at (i % length p) p
byte_at_copies l i p h less =
    byte_at-take l i (repeat ((l + length p - 1) / length p) p) less
    ∙ ap (λ m. byte_at m (repeat ((l + length p - 1) / length p) p))
        (sym (div-add-mod' i (length p)))
    ∙ byte_at-repeat ((l + length p - 1) / length p) (i / length p) (i % length p) p
        (copy-before i l (length p) h less) (mod-lt i h)

-- A slice that ends within the bytes is cut off.
slice-within : (n : ℕ) (bs : Bytes) → n ≤ length bs → slice n bs ≡ some (take n bs)
unfolding slice
slice-within n bs h = ground (arith, h)

-- The pattern of `fillRepeats`, without its slice.
filled : Bytes → ℕ → Bytes
filled [] v = []
filled (b ∷ bs) v =
    take (filled_length (b ∷ bs) v)
      (repeat ((filled_length (b ∷ bs) v + length (b ∷ bs) - 1) / length (b ∷ bs)) (b ∷ bs))

fill_repeats-slice :
    (p : Bytes) (v : ℕ)
    → 0 < length p
    → fill_repeats p v
      ≡ slice (filled_length p v) (repeat ((filled_length p v + length p - 1) / length p) p)
unfolding fill_repeats
fill_repeats-slice p v h = ground arith

fill_repeats-filled : (p : Bytes) (v : ℕ) → fill_repeats p v ≡ some (filled p v)
unfolding filled
fill_repeats-filled [] v = unfold fill_repeats in refl
fill_repeats-filled (b ∷ bs) v =
    let l = filled_length (b ∷ bs) v in
    let copies = (l + length (b ∷ bs) - 1) / length (b ∷ bs) in
    fill_repeats-slice (b ∷ bs) v (omega arith)
    ∙ slice-within l (repeat copies (b ∷ bs)) (
        omega
          (arith, length-repeat copies (b ∷ bs), copies-enough l (length (b ∷ bs)) (omega arith)))

-- The least whole number of blocks of 64 bytes that has room for the pattern, and at each position the
-- byte of the pattern at that position modulo its length: S, P and D of RFC 7292, appendix B.2.
pub record IsFilled (p out : Bytes) : Type 0 where
  pub size : length out ≡ 64 * ((length p + 63) / 64)
  pub bytes : (i : ℕ) → i < length out → byte_at i out ≡ byte_at (i % length p) p

length-filled : (b : ℕ) (bs : Bytes) (v : ℕ) → length (filled (b ∷ bs) v) ≡ filled_length (b ∷ bs) v
unfolding filled
length-filled b bs v = length_of_copies (filled_length (b ∷ bs) v) (b ∷ bs) (omega arith)

filled-IsFilled : (p : Bytes) → IsFilled p (filled p 64)
filled-IsFilled [] = record {
  size = unfold filled in refl;
  bytes = λ i h. unfold filled in absurd (omega (arith, h));
}
filled-IsFilled (b ∷ bs) = record {
  size = length-filled b bs 64 ∙ ap (λ n. 64 * (n / 64)) (omega arith);
  bytes = λ i h.
      unfold filled in
      byte_at_copies (filled_length (b ∷ bs) 64) i (b ∷ bs) (omega arith)
        (rw (length-filled b bs 64) at h);
}

-- A function applied so often.
abbrev pub iterated : (Bytes → Bytes) → ℕ → Bytes → Bytes
iterated f zero a = a
iterated f (suc n) a = f (iterated f n a)

iterated-inside : (f : Bytes → Bytes) (n : ℕ) (a : Bytes) → iterated f n (f a) ≡ f (iterated f n a)
iterated-inside f zero a = refl
iterated-inside f (suc n) a = ap f (iterated-inside f n a)

-- one block of 20 bytes for 1 to 20 bytes of key
one_block : (size : ℕ) → 0 < size → size ≤ 20 → (size + u_bytes - 1) / u_bytes ≡ 1
one_block size h le = omega arith

module _ (sha1 : Bytes → Bytes) where
  rehash-iterated : (n : ℕ) (a : Bytes) → rehash sha1 n a ≡ iterated sha1 n a
  unfolding rehash
  rehash-iterated zero a = refl
  rehash-iterated (suc n) a = rehash-iterated n (sha1 a) ∙ iterated-inside sha1 n a

  length-iterated :
      ((bs : Bytes) → length (sha1 bs) ≡ 20)
      → (n : ℕ) (bs : Bytes) → length (iterated sha1 n (sha1 bs)) ≡ 20
  length-iterated twenty zero bs = twenty bs
  length-iterated twenty (suc n) bs = twenty _

  -- what one block is the hash of
  abbrev whole_input : Bytes → Bytes → ℕ → Bytes
  whole_input password salt id = filled (id ∷ []) 64 ++ (filled salt 64 ++ filled password 64)

  pkcs12_kdf-one :
      ((bs : Bytes) → length (sha1 bs) ≡ 20)
      → (password salt : Bytes) (iterations : ℤ) (id size : ℕ) → 0 < size
      → size ≤ 20
      → pkcs12_kdf sha1 password salt iterations id size
        ≡ some (
            take size
              (iterated sha1 (pos_part iterations - 1) (sha1 (whole_input password salt id))))
  unfolding pkcs12_kdf kdf_blocks filled
  pkcs12_kdf-one twenty password salt iterations id size h le =
      let n = pos_part iterations - 1 in
      let key = iterated sha1 n (sha1 (whole_input password salt id)) in
      rw
        (
          fill_repeats-filled salt 64,
          fill_repeats-filled password 64,
          one_block size h le,
          rehash-iterated n (sha1 (whole_input password salt id)),
          append-nil key,
        )
        (slice-within size key
          (omega (arith, le, length-iterated twenty n (whole_input password salt id))))

  -- If the hash has 20 bytes, then for a key of 1 to 20 bytes the derivation does not panic, and gives
  -- the leading bytes of the hash, iterated as often as asked for (once at least), of the purpose's
  -- byte, the salt and the password in turn. Each of these is repeated to the least whole number of
  -- blocks of 64 bytes that has room for it: at every position stands its byte at that position modulo
  -- its length.
  pub pkcs12_kdf-iterated :
      ((bs : Bytes) → length (sha1 bs) ≡ 20)
      → (password salt : Bytes) (iterations : ℤ) (id size : ℕ) → 0 < size
      → size ≤ 20
      → (d : Bytes) × (s : Bytes) × (p : Bytes) × IsFilled (id ∷ []) d
        × IsFilled salt s
        × IsFilled password p
        × (pkcs12_kdf sha1 password salt iterations id size
            ≡ some (take size (iterated sha1 (pos_part iterations - 1) (sha1 (d ++ (s ++ p))))))
  pkcs12_kdf-iterated twenty password salt iterations id size h le = (
    filled (id ∷ []) 64,
    filled salt 64,
    filled password 64,
    filled-IsFilled (id ∷ []),
    filled-IsFilled salt,
    filled-IsFilled password,
    pkcs12_kdf-one twenty password salt iterations id size h le,
  )

  pub length-pkcs12_kdf :
      ((bs : Bytes) → length (sha1 bs) ≡ 20)
      → (password salt : Bytes) (iterations : ℤ) (id size : ℕ) → 0 < size
      → size ≤ 20
      → (key : Bytes) × (pkcs12_kdf sha1 password salt iterations id size ≡ some key)
        × (length key ≡ size)
  length-pkcs12_kdf twenty password salt iterations id size h le =
      let n = pos_part iterations - 1 in
      let key = iterated sha1 n (sha1 (whole_input password salt id)) in
      (
        take size key,
        pkcs12_kdf-one twenty password salt iterations id size h le,
        omega (
          arith,
          le,
          length-take size key,
          length-iterated twenty n (whole_input password salt id),
        ),
      )
