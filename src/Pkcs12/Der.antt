-- ===== src/Pkcs12/Der.antt =====
-- Lengths and elements in DER, against a reader of the definite form (X.690, 8.1.3).
use release_hub.Base.{
  ℕ, zero, suc, ◌+◌, ◌-◌, ◌*◌, ◌%◌, ◌<◌, ◌≤◌, Option, none, some, [], ◌∷◌, ◌++◌, length, take, drop,
  ltb, eqb, if◌then◌else◌, ◌+++◌, ◌≡◌, refl, ap, sym, arith, Bool-cases, inl, inr, append_assoc,
  length-append, append-nil, List, false,
}
use release_hub.Text.Number.{decimal}
use release_hub.Result.{failure, Result, ok, err}
use release_hub.World.{Bytes}
use release_hub.Pkcs12.{
  der_length, wrap_tlv, build_data_content_info, content_info, content_of, tlv_length, tagged,
}

-- k octets, most significant first
octets : ℕ → ℕ → Bytes → Option (ℕ × Bytes)
octets zero n bs = some (n, bs)
octets (suc k) n [] = none
octets (suc k) n (b ∷ bs) = octets k (n * 256 + b) bs

-- A length and the bytes behind it: one octet below 128, else the count of octets that follow.
unfoldable pub read_length : Bytes → Option (ℕ × Bytes)
unfolding octets
read_length [] = none
read_length (b ∷ bs) =
    let long = octets (b - 128) 0 bs in
    if ltb b 128 then some (b, bs) else if eqb b 128 then none else long

-- An element: its tag, its content, and the bytes behind it.
content : ℕ → Option (ℕ × Bytes) → Option (ℕ × Bytes × Bytes)
content tag none = none
content tag (some (n, bs)) = if ltb (length bs) n then none else some (tag, take n bs, drop n bs)

unfoldable pub read_element : Bytes → Option (ℕ × Bytes × Bytes)
unfolding content
read_element [] = none
read_element (tag ∷ bs) = content tag (read_length bs)

-- The length that `derLength` writes is read as that length modulo 2^24: it is the length itself up
-- to 16 MiB, and loses its high bits beyond.
pub read_length-der_length :
    (n : ℕ) (rest : Bytes) → read_length (der_length n ++ rest) ≡ some (n % 16777216, rest)
unfolding read_length der_length octets
read_length-der_length n rest = ground arith

-- An element is wrapped as its tag, the length that `derLength` writes, and its bytes; from 16 MiB on
-- it is refused.
pub wrap_tlv-der_length :
    (tag : ℕ) (tlv : Bytes)
    → wrap_tlv tag tlv ≡ (
        if ltb (length tlv) 16777216
        then ok (tag ∷ (der_length (length tlv) ++ tlv))
        else err (failure ("tlv too large: " +++ decimal (length tlv))))
unfolding wrap_tlv tlv_length tagged der_length
wrap_tlv-der_length tag tlv = ground arith

take-all : (xs ys : Bytes) → take (length xs) (xs ++ ys) ≡ xs
take-all [] ys = refl
take-all (x ∷ xs) ys = ap (◌∷◌ x) (take-all xs ys)

drop-all : (xs ys : Bytes) → drop (length xs) (xs ++ ys) ≡ ys
drop-all [] ys = refl
drop-all (x ∷ xs) ys = drop-all xs ys

-- An element that is put together from its parts is read back, below 16 MiB.
read_element-parts :
    (tag : ℕ) (tlv rest : Bytes)
    → length tlv < 16777216
    → read_element ((tag ∷ (der_length (length tlv) ++ tlv)) ++ rest) ≡ some (tag, tlv, rest)
unfolding read_element content
read_element-parts tag tlv rest small =
    rw
      (
        append_assoc (der_length (length tlv)) tlv rest,
        read_length-der_length (length tlv) (tlv ++ rest),
        below,
        fits,
        take-all tlv rest,
        drop-all tlv rest,
      )
      refl
  where
    below : length tlv % 16777216 ≡ length tlv
    below = ground arith

    fits : ltb (length (tlv ++ rest)) (length tlv) ≡ false
    fits = ground (arith, length-append {0} tlv rest)

-- What was wrapped is read back, whatever bytes follow it.
pub read_element-wrap_tlv :
    (tag : ℕ) (tlv out rest : Bytes)
    → wrap_tlv tag tlv ≡ ok out
    → read_element (out ++ rest) ≡ some (tag, tlv, rest)
read_element-wrap_tlv tag tlv out rest h =
    let w = wrap_tlv-der_length tag tlv in
    elim (Bool-cases (ltb (length tlv) 16777216)) [
      | inl small ↦
          let e : out ≡ tag ∷ (der_length (length tlv) ++ tlv) = cc (h, rw small at w) in
          rw e (read_element-parts tag tlv rest (ground arith))
      | inr large ↦ absurd (cc (h, rw large at w))
    ]

one_less : (n : ℕ) → suc n - 1 ≡ n
one_less n = omega arith

length-der_length-le : (n : ℕ) → length (der_length n) ≤ 4
unfolding der_length
length-der_length-le n = ground arith

module _ {A : Type 0} (marshal_octets : Bytes → Result Bytes) (marshal_oid : List ℕ → Result Bytes)
    (raw_value : Bytes → Result A) where
  -- When the payload is marshalled to an octet string and the object id of PKCS#7 data to its element,
  -- and both are below 8 MiB less 8 bytes, the content info that is handed on is a sequence of that
  -- element and of an explicit tag 0 around that octet string, and nothing behind it.
  pub read_element-build_data_content_info :
      (payload octet body : Bytes)
      → marshal_octets payload ≡ ok octet
      → marshal_oid (1 ∷ 2 ∷ 840 ∷ 113549 ∷ 1 ∷ 7 ∷ 1 ∷ []) ≡ ok body
      → length octet < 8388600
      → length body < 8388600
      → (info inner : Bytes) × (build_data_content_info marshal_octets marshal_oid raw_value payload
          ≡ raw_value info)
        × (read_element info ≡ some (0x30, body ++ inner, []))
        × (read_element inner ≡ some (0xA0, octet, []))
  unfolding build_data_content_info content_info content_of
  read_element-build_data_content_info payload octet body eo eb small_octet small_body = (
    0x30 ∷ (der_length (length (body ++ inner)) ++ (body ++ inner)),
    inner,
    rw (eo, eb)
        (ap (λ n. raw_value (0x30 ∷ (der_length n ++ (body ++ inner))))
          (one_less (length (body ++ inner)))),
    rw (sym (append-nil (0x30 ∷ (der_length (length (body ++ inner)) ++ (body ++ inner)))))
        (read_element-parts 0x30 (body ++ inner) [] small),
    rw (sym (append-nil inner)) (read_element-parts 0xA0 octet [] (omega arith)),
  )
    where
      inner : Bytes
      inner = 0xA0 ∷ (der_length (length octet) ++ octet)

      small : length (body ++ inner) < 16777216
      small = omega (
        arith,
        length-append {0} body inner,
        length-append {0} (der_length (length octet)) octet,
        length-der_length-le (length octet),
      )
