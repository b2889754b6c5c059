-- ===== src/Pkcs12/Alias/Kept.antt =====
-- Naming a key keeps every invariant of the database.
use release_hub.Base.{String, Bool, true, false, Option, none, some, List, [], ◌∷◌}
use release_hub.Db.{Database}
use release_hub.Invariant.{Safe, Safe-or_return, Safe-attempt, safe_rules}
use release_hub.Result.{Result, ok, err}
use release_hub.World.{Bytes, M, behind, as_it_is}
use release_hub.Pkcs12.Alias.{
  Asn1, Oid, Pfx, RawValue, SafeBag, name_attr, friendly_name_attr, with_name, bag_and_rest,
  name_bags, rebuilt, in_bags, in_octets, in_data, more_contents, name_contents, signed, sign_again,
  finish, with_password, with_content, with_element, with_octets, with_inner, in_pfx, in_octet,
  in_contents, with_key_bag_friendly_name,
}

module _ (asn : Asn1) {I : Database → Type 0} where
  Safe-name_attr : (name : Option Bytes) → Safe I (name_attr asn name)
  unfolding name_attr
  Safe-name_attr none = search safe_rules depth 24
  Safe-name_attr (some name) = search safe_rules depth 24

  Safe-friendly_name_attr : (alias : String) → Safe I (friendly_name_attr asn alias)
  unfolding friendly_name_attr
  Safe-friendly_name_attr alias = search (safe_rules, Safe-name_attr) depth 24

  Safe-with_name :
      (alias : String) (bag : RawValue) (sb : SafeBag) → Safe I (with_name asn alias bag sb)
  unfolding with_name
  Safe-with_name alias bag sb = search (safe_rules, Safe-friendly_name_attr) depth 24

  Safe-bag_and_rest :
      (alias : String) (bag : RawValue) (rest : M (Result (List RawValue × Bool))) (sb : SafeBag)
      → Safe I rest
      → Safe I (bag_and_rest asn alias bag rest sb)
  unfolding bag_and_rest
  Safe-bag_and_rest alias bag rest sb h = search (safe_rules, Safe-with_name) depth 24

  Safe-name_bags : (alias : String) (bags : List RawValue) → Safe I (name_bags asn alias bags)
  unfolding name_bags
  Safe-name_bags alias [] = search safe_rules depth 24
  Safe-name_bags alias (bag ∷ bags) =
      Safe-or_return (behind "parse safeBag: ") (asn.parse_bag bag.full_bytes)
        (bag_and_rest asn alias bag (name_bags asn alias bags))
        λ sb. Safe-bag_and_rest alias bag _ sb (Safe-name_bags alias bags)

  Safe-rebuilt : (ci : RawValue) (named : List RawValue × Bool) → Safe I (rebuilt asn ci named)
  unfolding rebuilt
  Safe-rebuilt ci (bags, false) = search safe_rules depth 24
  Safe-rebuilt ci (bags, true) = search safe_rules depth 24

  Safe-in_bags :
      (alias : String) (ci : RawValue) (r : Result (List RawValue × Bytes))
      → Safe I (in_bags asn alias ci r)
  unfolding in_bags
  Safe-in_bags alias ci (ok (bags, [])) = search (safe_rules, Safe-name_bags, Safe-rebuilt) depth 24
  Safe-in_bags alias ci (ok (bags, b ∷ bs)) = search safe_rules depth 24
  Safe-in_bags alias ci (err e) = search safe_rules depth 24

  Safe-in_octets :
      (alias : String) (ci : RawValue) (r : Result (RawValue × Bytes))
      → Safe I (in_octets asn alias ci r)
  unfolding in_octets
  Safe-in_octets alias ci (ok (oct, rest)) = search (safe_rules, Safe-in_bags) depth 24
  Safe-in_octets alias ci (err e) = search safe_rules depth 24

  Safe-in_data :
      (alias : String) (ci : RawValue) (r : Result (Oid × RawValue))
      → Safe I (in_data asn alias ci r)
  unfolding in_data
  Safe-in_data alias ci (ok (content_type, content)) = search (safe_rules, Safe-in_octets) depth 24
  Safe-in_data alias ci (err e) = search safe_rules depth 24

  Safe-more_contents :
      (ci : RawValue) (cis : List RawValue) (stop : Bool) (rest : M (Result (List RawValue × Bool)))
      → Safe I rest
      → Safe I (more_contents asn ci cis stop rest)
  unfolding more_contents
  Safe-more_contents ci cis true rest h = search safe_rules depth 24
  Safe-more_contents ci cis false rest h = search safe_rules depth 24

  Safe-name_contents : (alias : String) (cis : List RawValue) → Safe I (name_contents asn alias cis)
  unfolding name_contents
  Safe-name_contents alias [] = search safe_rules depth 24
  Safe-name_contents alias (ci ∷ cis) =
      Safe-attempt (in_data asn alias ci (asn.parse_header ci.full_bytes)) as_it_is
        (λ first. more_contents asn first.0 cis first.1 (name_contents asn alias cis))
        (Safe-in_data alias ci (asn.parse_header ci.full_bytes))
        λ first. Safe-more_contents first.0 cis first.1 _ (Safe-name_contents alias cis)

  Safe-signed :
      (pfx : Pfx) (wrapped : RawValue) (inner : Bytes) (key : Option Bytes)
      → Safe I (signed asn pfx wrapped inner key)
  unfolding signed
  Safe-signed pfx wrapped inner none = search safe_rules depth 24
  Safe-signed pfx wrapped inner (some key) = search safe_rules depth 24

  Safe-with_content :
      (password : String) (pfx : Pfx) (inner : Bytes) (parsed : RawValue × Bytes)
      → Safe I (with_content asn password pfx inner parsed)
  unfolding with_content with_password
  Safe-with_content password pfx inner (wrapped, rest) = search (safe_rules, Safe-signed) depth 24

  Safe-finish :
      (p12 : Bytes) (password : String) (pfx : Pfx) (named : List RawValue × Bool)
      → Safe I (finish asn p12 password pfx named)
  unfolding finish sign_again with_inner with_octets with_element
  Safe-finish p12 password pfx (contents, false) = search safe_rules depth 24
  Safe-finish p12 password pfx (contents, true) = search (safe_rules, Safe-with_content) depth 24

  pub Safe-with_key_bag_friendly_name :
      (p12 : Bytes) (alias password : String)
      → Safe I (with_key_bag_friendly_name asn p12 alias password)
  unfolding with_key_bag_friendly_name in_pfx in_octet in_contents
  Safe-with_key_bag_friendly_name p12 alias password =
      search (safe_rules, Safe-name_contents, Safe-finish) depth 24
