-- ===== src/Tests/Containers.antt =====
-- The theorems on the bytes of a container at concrete inputs.
use release_hub.Base.{ℕ, some, List, [], ◌∷◌, ◌++◌, length, take, ◌≡◌, refl, arith}
use release_hub.Base.Int.{pos}
use release_hub.Result.{Result, ok}
use release_hub.World.{Bytes}
use release_hub.Pkcs12.{
  der_length, wrap_tlv, build_data_content_info, bmp_string_zero_term, pkcs12_kdf,
}
use release_hub.Pkcs12.Der.{
  read_length, read_element, read_length-der_length, wrap_tlv-der_length, read_element-wrap_tlv,
  read_element-build_data_content_info,
}
use release_hub.Pkcs12.Names.{units_of, units_of-bmp_string_zero_term}
use release_hub.Pkcs12.Derivation.{pkcs12_kdf-iterated, iterated, IsFilled}

-- 16 MiB and 5 bytes: the high byte is lost
read_length-der_length_example : read_length (der_length 16777221 ++ 1 ∷ []) ≡ some (5, 1 ∷ [])
read_length-der_length_example = read_length-der_length 16777221 (1 ∷ [])

wrap_tlv-der_length_example : wrap_tlv 0xA0 (4 ∷ 0 ∷ []) ≡ ok (0xA0 ∷ (der_length 2 ++ 4 ∷ 0 ∷ []))
wrap_tlv-der_length_example = wrap_tlv-der_length 0xA0 (4 ∷ 0 ∷ [])

wrapped : wrap_tlv 0xA0 (4 ∷ 0 ∷ []) ≡ ok (0xA0 ∷ 2 ∷ 4 ∷ 0 ∷ [])
unfolding wrap_tlv
wrapped = refl

read_element-wrap_tlv_example :
    read_element (0xA0 ∷ 2 ∷ 4 ∷ 0 ∷ 7 ∷ []) ≡ some (0xA0, 4 ∷ 0 ∷ [], 7 ∷ [])
read_element-wrap_tlv_example =
    read_element-wrap_tlv 0xA0 (4 ∷ 0 ∷ []) (0xA0 ∷ 2 ∷ 4 ∷ 0 ∷ []) (7 ∷ []) wrapped

-- short octet strings, and the element of one object id
abbrev octets : Bytes → Result Bytes
octets bs = ok (4 ∷ length bs ∷ bs)

abbrev object_id : List ℕ → Result Bytes
object_id ids = ok (6 ∷ 9 ∷ 42 ∷ 134 ∷ 72 ∷ 134 ∷ 247 ∷ 13 ∷ 1 ∷ 7 ∷ 1 ∷ [])

abbrev as_parsed : Bytes → Result Bytes
as_parsed bs = ok bs

read_element-build_data_content_info_example :
    (info inner : Bytes) × (build_data_content_info octets object_id as_parsed (8 ∷ [])
      ≡ as_parsed info)
    × (read_element info
        ≡ some (0x30, 6 ∷ 9 ∷ 42 ∷ 134 ∷ 72 ∷ 134 ∷ 247 ∷ 13 ∷ 1 ∷ 7 ∷ 1 ∷ inner, []))
    × (read_element inner ≡ some (0xA0, 4 ∷ 1 ∷ 8 ∷ [], []))
read_element-build_data_content_info_example =
    read_element-build_data_content_info octets object_id as_parsed (8 ∷ []) (4 ∷ 1 ∷ 8 ∷ [])
      (6 ∷ 9 ∷ 42 ∷ 134 ∷ 72 ∷ 134 ∷ 247 ∷ 13 ∷ 1 ∷ 7 ∷ 1 ∷ []) refl refl (omega arith)
      (omega arith)

units_of-bmp_string_zero_term_example :
    units_of (bmp_string_zero_term "né") ≡ some (110 ∷ 233 ∷ 0 ∷ [])
unfolding release_hub.Pkcs12.Names.is_basic release_hub.Pkcs12.Names.codes
units_of-bmp_string_zero_term_example = units_of-bmp_string_zero_term "né"

-- a hash of 20 bytes
abbrev pub flat : Bytes → Bytes
flat bs =
    1
    ∷ 2
    ∷ 3
    ∷ 4
    ∷ 5
    ∷ 6
    ∷ 7
    ∷ 8
    ∷ 9
    ∷ 10
    ∷ 11
    ∷ 12
    ∷ 13
    ∷ 14
    ∷ 15
    ∷ 16
    ∷ 17
    ∷ 18
    ∷ 19
    ∷ length bs
    ∷ []

pkcs12_kdf-iterated_example :
    (d : Bytes) × (s : Bytes) × (p : Bytes) × IsFilled (3 ∷ []) d
    × IsFilled (9 ∷ []) s
    × IsFilled (0 ∷ 120 ∷ 0 ∷ 0 ∷ []) p
    × (pkcs12_kdf flat (0 ∷ 120 ∷ 0 ∷ 0 ∷ []) (9 ∷ []) (pos 2) 3 20
        ≡ some (take 20 (iterated flat 1 (flat (d ++ (s ++ p))))))
pkcs12_kdf-iterated_example =
    pkcs12_kdf-iterated flat (λ bs. refl) (0 ∷ 120 ∷ 0 ∷ 0 ∷ []) (9 ∷ []) (pos 2) 3 20 (omega arith)
      (omega arith)
