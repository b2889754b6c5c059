-- ===== src/Pkcs12/Alias.antt =====
-- srv/signing.go: the name of a key inside a PKCS#12 container, over encoding/asn1 and crypto/hmac.
pub mod Total
pub mod Kept
use release_hub.Base.{
  ℕ, String, Bool, true, false, not, ◌&&◌, ◌||◌, Option, none, some, List, [], ◌∷◌, ◌++◌, length,
  take, ◌-◌, leb, eqb, if◌then◌else◌, ◌+++◌,
}
use release_hub.Base.Int.{ℤ}
use release_hub.Text.Number.{decimal}
use release_hub.Result.{error_text, GoError, failure, Result, ok, err}
use release_hub.World.{Bytes, M, pure, panic, or_return, attempt, as_it_is, behind}
use release_hub.Pkcs12.{bmp_string_zero_term, build_data_content_info, pkcs12_kdf, wrap_tlv}

abbrev pub Oid : Type 0
Oid = List ℕ

-- `asn1.RawValue`, as far as it is read
pub record RawValue : Type 0 where
  pub tag : ℕ
  pub bytes : Bytes
  pub full_bytes : Bytes

-- `pfxPduX`
pub record Pfx : Type 0 where
  pub version : ℕ
  pub content_type : Oid
  pub content : RawValue
  pub mac_algorithm : Oid
  pub digest : Bytes
  pub mac_salt : Bytes
  pub iterations : ℤ

-- `pkcs12AttrX`: the bytes of the value are those inside its SET
pub record Attr : Type 0 where
  pub id : Oid
  pub value : Bytes

pub record SafeBag : Type 0 where
  pub id : Oid
  pub value : RawValue
  pub attributes : List Attr

-- `asn1.Unmarshal` at the types that the program reads, with what is left over, `asn1.Marshal` at those
-- that it writes, and the two hashes.
pub record Asn1 : Type 0 where
  pub parse_pfx : Bytes → Result (Pfx × Bytes)
  pub parse_raw : Bytes → Result (RawValue × Bytes)
  pub parse_raws : Bytes → Result (List RawValue × Bytes)
  pub parse_header : Bytes → Result (Oid × RawValue)
  pub parse_bag : Bytes → Result SafeBag
  pub marshal_bag : SafeBag → Result Bytes
  pub marshal_raws : List RawValue → Result Bytes
  pub marshal_octets : Bytes → Result Bytes
  pub marshal_oid : Oid → Result Bytes
  pub marshal_bmp : Bytes → Result Bytes
  pub marshal_pfx : Pfx → Result Bytes
  pub sha1 : Bytes → Bytes
  pub hmac_sha1 : Bytes → Bytes → Bytes

-- `ObjectIdentifier.Equal`
oid_eq : Oid → Oid → Bool
oid_eq [] [] = true
oid_eq [] (n ∷ ns) = false
oid_eq (m ∷ ms) [] = false
oid_eq (m ∷ ms) (n ∷ ns) = eqb m n && oid_eq ms ns

-- `ObjectIdentifier.String`
oid_text : Oid → String
oid_text [] = ""
oid_text (n ∷ []) = decimal n
oid_text (n ∷ m ∷ ns) = decimal n +++ ("." +++ oid_text (m ∷ ns))

abbrev oid_data : Oid
oid_data = 1 ∷ 2 ∷ 840 ∷ 113549 ∷ 1 ∷ 7 ∷ 1 ∷ []

abbrev oid_shrouded_key_bag : Oid
oid_shrouded_key_bag = 1 ∷ 2 ∷ 840 ∷ 113549 ∷ 1 ∷ 12 ∷ 10 ∷ 1 ∷ 2 ∷ []

abbrev oid_friendly_name : Oid
oid_friendly_name = 1 ∷ 2 ∷ 840 ∷ 113549 ∷ 1 ∷ 9 ∷ 20 ∷ []

abbrev pub oid_sha1 : Oid
oid_sha1 = 1 ∷ 3 ∷ 14 ∷ 3 ∷ 2 ∷ 26 ∷ []

-- `hasAttrX`
pub has_attr : List Attr → Oid → Bool
has_attr [] id = false
has_attr (a ∷ attrs) id = oid_eq a.id id || has_attr attrs id

-- `bs[:len(bs)-2]`, which panics on fewer than two bytes
without_last_two : Bytes → Option Bytes
without_last_two bs = if leb 2 (length bs) then some (take (length bs - 2) bs) else none

-- nothing may be left over
whole : {A : Type 0} → String → Result (A × Bytes) → Result A
whole text (ok (a, [])) = ok a
whole text (ok (a, b ∷ bs)) = err (failure (text +++ "%!w(<nil>)"))
whole text (err e) = err (behind text e)

octet_string : Result (RawValue × Bytes) → Result RawValue
octet_string (err e) = err (behind "parse authSafe octet string: " e)
octet_string (ok (rv, rest)) =
    if eqb rv.tag 4 then ok rv else err (failure "parse authSafe octet string: %!w(<nil>)")

module _ (asn : Asn1) where
  name_attr : Option Bytes → M (Result Attr)
  name_attr none = panic
  name_attr (some name) =
      or_return as_it_is (asn.marshal_bmp name)
        λ tlv. pure (ok (record { id = oid_friendly_name; value = tlv }))

  -- `friendlyNameAttr`
  friendly_name_attr : String → M (Result Attr)
  friendly_name_attr alias =
      or_return as_it_is (bmp_string_zero_term alias) (λ bmp. name_attr (without_last_two bmp))

  abbrev named_bag : SafeBag → Attr → SafeBag
  named_bag sb friendly = record sb { attributes = sb.attributes ++ friendly ∷ [] }

  with_name : String → RawValue → SafeBag → M (Result (RawValue × Bool))
  with_name alias bag sb =
      if oid_eq sb.id oid_shrouded_key_bag && not (has_attr sb.attributes oid_friendly_name)
      then attempt (friendly_name_attr alias) as_it_is (λ friendly.
        or_return (behind "marshal safeBag: ") (asn.marshal_bag (named_bag sb friendly))
          λ nb. or_return as_it_is (asn.parse_raw nb) λ parsed. pure (ok (parsed.0, true)))
      else pure (ok (bag, false))

  bag_and_rest :
      String
      → RawValue
      → M (Result (List RawValue × Bool))
      → SafeBag
      → M (Result (List RawValue × Bool))
  bag_and_rest alias bag rest sb =
      attempt (with_name alias bag sb) as_it_is
        λ first. attempt rest as_it_is λ more. pure (ok (first.0 ∷ more.0, first.1 || more.1))

  -- the loop over the bags of one content, and whether one of them was named
  name_bags : String → List RawValue → M (Result (List RawValue × Bool))
  name_bags alias [] = pure (ok ([], false))
  name_bags alias (bag ∷ bags) =
      let rest = name_bags alias bags in
      or_return (behind "parse safeBag: ") (asn.parse_bag bag.full_bytes)
        (bag_and_rest alias bag rest)

  rebuilt : RawValue → List RawValue × Bool → M (Result (RawValue × Bool))
  rebuilt ci (bags, false) = pure (ok (ci, false))
  rebuilt ci (bags, true) = or_return as_it_is (asn.marshal_raws bags) λ nb.
      or_return as_it_is
        (build_data_content_info asn.marshal_octets asn.marshal_oid asn.parse_raw nb)
        λ parsed. pure (ok (parsed.0, true))

  in_bags : String → RawValue → Result (List RawValue × Bytes) → M (Result (RawValue × Bool))
  in_bags alias ci (ok (bags, [])) = attempt (name_bags alias bags) as_it_is (rebuilt ci)
  in_bags alias ci _ = pure (ok (ci, false))

  in_octets : String → RawValue → Result (RawValue × Bytes) → M (Result (RawValue × Bool))
  in_octets alias ci (err e) = pure (ok (ci, false))
  in_octets alias ci (ok (oct, rest)) =
      if eqb oct.tag 4 then in_bags alias ci (asn.parse_raws oct.bytes) else pure (ok (ci, false))

  in_data : String → RawValue → Result (Oid × RawValue) → M (Result (RawValue × Bool))
  in_data alias ci (err e) = pure (ok (ci, false))
  in_data alias ci (ok (content_type, content)) =
      if oid_eq content_type oid_data
      then in_octets alias ci (asn.parse_raw content.bytes)
      else pure (ok (ci, false))

  more_contents :
      RawValue
      → List RawValue
      → Bool
      → M (Result (List RawValue × Bool))
      → M (Result (List RawValue × Bool))
  more_contents ci cis true rest = pure (ok (ci ∷ cis, true))
  more_contents ci cis false rest = attempt rest as_it_is λ more. pure (ok (ci ∷ more.0, more.1))

  -- the loop over the contents, up to the first in which a bag is named
  name_contents : String → List RawValue → M (Result (List RawValue × Bool))
  name_contents alias [] = pure (ok ([], false))
  name_contents alias (ci ∷ cis) =
      let rest = name_contents alias cis in
      attempt (in_data alias ci (asn.parse_header ci.full_bytes)) as_it_is
        λ first. more_contents first.0 cis first.1 rest

  abbrev signed_pfx : Pfx → RawValue → Bytes → Pfx
  signed_pfx pfx wrapped mac = record pfx { content = wrapped; digest = mac }

  signed : Pfx → RawValue → Bytes → Option Bytes → M (Result Bytes)
  signed pfx wrapped inner none = panic
  signed pfx wrapped inner (some mac_key) =
      pure (asn.marshal_pfx (signed_pfx pfx wrapped (asn.hmac_sha1 mac_key inner)))

  with_password : Pfx → Bytes → RawValue → Bytes → M (Result Bytes)
  with_password pfx inner wrapped pw =
      signed pfx wrapped inner (pkcs12_kdf asn.sha1 pw pfx.mac_salt pfx.iterations 3 20)

  -- only SHA-1 is signed again
  with_content : String → Pfx → Bytes → RawValue × Bytes → M (Result Bytes)
  with_content password pfx inner (wrapped, rest) =
      if not (oid_eq pfx.mac_algorithm oid_sha1)
      then pure
          (err (failure ("unsupported MAC algorithm for re-sign: " +++ oid_text pfx.mac_algorithm)))
      else or_return as_it_is (bmp_string_zero_term password) (with_password pfx inner wrapped)

  with_element : String → Pfx → Bytes → Bytes → M (Result Bytes)
  with_element password pfx inner a0 =
      or_return as_it_is (asn.parse_raw a0) (with_content password pfx inner)

  with_octets : String → Pfx → Bytes → Bytes → M (Result Bytes)
  with_octets password pfx inner oct =
      or_return as_it_is (asn.parse_raw oct)
        λ _. or_return as_it_is (wrap_tlv 0xA0 oct) (with_element password pfx inner)

  with_inner : String → Pfx → Bytes → M (Result Bytes)
  with_inner password pfx inner =
      or_return as_it_is (asn.marshal_octets inner) (with_octets password pfx inner)

  sign_again : String → Pfx → List RawValue → M (Result Bytes)
  sign_again password pfx contents =
      or_return as_it_is (asn.marshal_raws contents) (with_inner password pfx)

  finish : Bytes → String → Pfx → List RawValue × Bool → M (Result Bytes)
  finish p12 password pfx (contents, false) = pure (ok p12)
  finish p12 password pfx (contents, true) = sign_again password pfx contents

  in_contents : Bytes → String → String → Pfx → List RawValue → M (Result Bytes)
  in_contents p12 alias password pfx contents =
      attempt (name_contents alias contents) as_it_is (finish p12 password pfx)

  in_octet : Bytes → String → String → Pfx → RawValue → M (Result Bytes)
  in_octet p12 alias password pfx octet =
      or_return as_it_is (whole "parse authSafe contents: " (asn.parse_raws octet.bytes))
        (in_contents p12 alias password pfx)

  in_pfx : Bytes → String → String → Pfx → M (Result Bytes)
  in_pfx p12 alias password pfx =
      or_return as_it_is (octet_string (asn.parse_raw pfx.content.bytes))
        (in_octet p12 alias password pfx)

  -- `withKeyBagFriendlyName`
  unfoldable pub with_key_bag_friendly_name : Bytes → String → String → M (Result Bytes)
  unfolding oid_eq oid_text has_attr without_last_two whole octet_string name_attr
      friendly_name_attr with_name bag_and_rest name_bags rebuilt in_bags in_octets in_data
      more_contents name_contents signed with_password with_content with_element with_octets
      with_inner sign_again finish in_contents in_octet in_pfx
  with_key_bag_friendly_name p12 alias password =
      or_return as_it_is (whole "parse pfx: " (asn.parse_pfx p12)) (in_pfx p12 alias password)
