-- ===== src/Pkcs12/Alias/Total.antt =====
-- Naming a key comes to no panic: each slice of it is within its bytes.
use mathlib.Core.Path.{subst}
use release_hub.Base.{
  ℕ, String, code, Bool, true, false, some, List, [], ◌∷◌, length, ◌≤◌, ◌≡◌, ◌≢◌, refl, arith, ltb,
  Bool-cases, inl, inr, if◌then◌else◌, take, ◌-◌,
}
use release_hub.Result.{GoError, Result, ok, err}
use release_hub.World.{
  World, Outcome, done, answered, panicked, continue, Bytes, M, pure, or_return, attempt, as_it_is,
  behind,
}
use release_hub.Pkcs12.{bmp_string_zero_term, with_unit}
use release_hub.Pkcs12.Derivation.{length-pkcs12_kdf}
use release_hub.Pkcs12.Alias.{
  Asn1, Oid, Pfx, RawValue, SafeBag, without_last_two, name_attr, friendly_name_attr, with_name,
  bag_and_rest, name_bags, rebuilt, in_bags, in_octets, in_data, more_contents, name_contents,
  signed, sign_again, finish, with_password, with_content, with_element, with_octets, with_inner,
  in_pfx, in_octet, in_contents, with_key_bag_friendly_name,
}

-- In every state the action ends without a panic.
record NoPanic {A : Type 0} (m : M A) : Type 0 where
  pub ends : (w : World) → (m w).0 ≢ panicked

NoPanic-pure : {A : Type 0} (a : A) → NoPanic (pure a)
NoPanic-pure a = record { ends = λ w e. cc e }

NoPanic-or_return :
    {A B : Type 0} (wrapped : GoError → GoError) (r : Result A) (f : A → M (Result B))
    → ((a : A) → r ≡ ok a → NoPanic (f a))
    → NoPanic (or_return wrapped r f)
NoPanic-or_return wrapped (ok a) f h = h a refl
NoPanic-or_return wrapped (err e) f h = record { ends = λ w e'. cc e' }

continue-ne :
    {A B : Type 0} (o : Outcome A) (f : A → M B) (w : World)
    → o ≢ panicked
    → ((a : A) → NoPanic (f a))
    → (continue o f w).0 ≢ panicked
continue-ne (done a) f w h hf = (hf a).ends w
continue-ne (answered r) f w h hf = λ e. cc e
continue-ne panicked f w h hf = absurd (h refl)

NoPanic-attempt :
    {A B : Type 0} (m : M (Result A)) (wrapped : GoError → GoError) (f : A → M (Result B))
    → NoPanic m
    → ((a : A) → NoPanic (f a))
    → NoPanic (attempt m wrapped f)
NoPanic-attempt m wrapped f hm hf = record {
  ends = λ w.
      continue-ne (m w).0 (λ r. or_return wrapped r f) (m w).1 (hm.ends w)
        (λ r. NoPanic-or_return wrapped r f (λ a _. hf a));
}

NoPanic-if :
    {A : Type 0} (b : Bool) (m n : M A) → NoPanic m → NoPanic n → NoPanic (if b then m else n)
NoPanic-if true m n hm hn = hm
NoPanic-if false m n hm hn = hn

ruleset ending_rules = (NoPanic-pure, NoPanic-or_return, NoPanic-attempt, NoPanic-if)

bytes_in : Result Bytes → ℕ
bytes_in (ok bs) = length bs
bytes_in (err e) = 0

with_unit-longer :
    (n : ℕ) (r : Result Bytes) (bmp : Bytes) → with_unit n r ≡ ok bmp → 2 ≤ length bmp
unfolding with_unit bytes_in
with_unit-longer n (ok out) bmp e = subst (λ o. 2 ≤ bytes_in o) e (omega arith)
with_unit-longer n (err e') bmp e = absurd (cc e)

-- an encoded name has the two zeros at least
bmp_string_zero_term-longer :
    (s : String) (bmp : Bytes) → bmp_string_zero_term s ≡ ok bmp → 2 ≤ length bmp
unfolding bmp_string_zero_term bytes_in
bmp_string_zero_term-longer String.[] bmp e = subst (λ o. 2 ≤ bytes_in o) e (omega arith)
bmp_string_zero_term-longer (String.◌∷◌ c s) bmp e = elim (Bool-cases (ltb 0xFFFF (code c))) [
  | inl beyond ↦ absurd (let no = rw beyond at e in cc no)
  | inr basic ↦ with_unit-longer (code c) (bmp_string_zero_term s) bmp (rw basic at e)
]

without_last_two-longer :
    (bs : Bytes) → 2 ≤ length bs → without_last_two bs ≡ some (take (length bs - 2) bs)
unfolding without_last_two
without_last_two-longer bs h = ground (arith, h)

module _ (asn : Asn1) where
  NoPanic-name_attr : (name : Bytes) → NoPanic (name_attr asn (some name))
  unfolding name_attr
  NoPanic-name_attr name = search ending_rules depth 24

  NoPanic-friendly_name_attr : (alias : String) → NoPanic (friendly_name_attr asn alias)
  unfolding friendly_name_attr
  NoPanic-friendly_name_attr alias =
      NoPanic-or_return as_it_is (bmp_string_zero_term alias) _ λ bmp e.
        rw (without_last_two-longer bmp (bmp_string_zero_term-longer alias bmp e))
          (NoPanic-name_attr (take (length bmp - 2) bmp))

  NoPanic-with_name :
      (alias : String) (bag : RawValue) (sb : SafeBag) → NoPanic (with_name asn alias bag sb)
  unfolding with_name
  NoPanic-with_name alias bag sb = search (ending_rules, NoPanic-friendly_name_attr) depth 24

  NoPanic-bag_and_rest :
      (alias : String) (bag : RawValue) (rest : M (Result (List RawValue × Bool))) (sb : SafeBag)
      → NoPanic rest
      → NoPanic (bag_and_rest asn alias bag rest sb)
  unfolding bag_and_rest
  NoPanic-bag_and_rest alias bag rest sb h = search (ending_rules, NoPanic-with_name) depth 24

  NoPanic-name_bags : (alias : String) (bags : List RawValue) → NoPanic (name_bags asn alias bags)
  unfolding name_bags
  NoPanic-name_bags alias [] = search ending_rules depth 24
  NoPanic-name_bags alias (bag ∷ bags) =
      NoPanic-or_return (behind "parse safeBag: ") (asn.parse_bag bag.full_bytes)
        (bag_and_rest asn alias bag (name_bags asn alias bags))
        λ sb _. NoPanic-bag_and_rest alias bag _ sb (NoPanic-name_bags alias bags)

  NoPanic-rebuilt : (ci : RawValue) (named : List RawValue × Bool) → NoPanic (rebuilt asn ci named)
  unfolding rebuilt
  NoPanic-rebuilt ci (bags, false) = search ending_rules depth 24
  NoPanic-rebuilt ci (bags, true) = search ending_rules depth 24

  NoPanic-in_bags :
      (alias : String) (ci : RawValue) (r : Result (List RawValue × Bytes))
      → NoPanic (in_bags asn alias ci r)
  unfolding in_bags
  NoPanic-in_bags alias ci (ok (bags, [])) =
      search (ending_rules, NoPanic-name_bags, NoPanic-rebuilt) depth 24
  NoPanic-in_bags alias ci (ok (bags, b ∷ bs)) = search ending_rules depth 24
  NoPanic-in_bags alias ci (err e) = search ending_rules depth 24

  NoPanic-in_octets :
      (alias : String) (ci : RawValue) (r : Result (RawValue × Bytes))
      → NoPanic (in_octets asn alias ci r)
  unfolding in_octets
  NoPanic-in_octets alias ci (ok (oct, rest)) = search (ending_rules, NoPanic-in_bags) depth 24
  NoPanic-in_octets alias ci (err e) = search ending_rules depth 24

  NoPanic-in_data :
      (alias : String) (ci : RawValue) (r : Result (Oid × RawValue))
      → NoPanic (in_data asn alias ci r)
  unfolding in_data
  NoPanic-in_data alias ci (ok (content_type, content)) =
      search (ending_rules, NoPanic-in_octets) depth 24
  NoPanic-in_data alias ci (err e) = search ending_rules depth 24

  NoPanic-more_contents :
      (ci : RawValue) (cis : List RawValue) (stop : Bool) (rest : M (Result (List RawValue × Bool)))
      → NoPanic rest
      → NoPanic (more_contents asn ci cis stop rest)
  unfolding more_contents
  NoPanic-more_contents ci cis true rest h = search ending_rules depth 24
  NoPanic-more_contents ci cis false rest h = search ending_rules depth 24

  NoPanic-name_contents :
      (alias : String) (cis : List RawValue) → NoPanic (name_contents asn alias cis)
  unfolding name_contents
  NoPanic-name_contents alias [] = search ending_rules depth 24
  NoPanic-name_contents alias (ci ∷ cis) =
      NoPanic-attempt (in_data asn alias ci (asn.parse_header ci.full_bytes)) as_it_is
        (λ first. more_contents asn first.0 cis first.1 (name_contents asn alias cis))
        (NoPanic-in_data alias ci (asn.parse_header ci.full_bytes))
        λ first. NoPanic-more_contents first.0 cis first.1 _ (NoPanic-name_contents alias cis)

  module _ (twenty : (bs : Bytes) → length (asn.sha1 bs) ≡ 20) where
    NoPanic-with_password :
        (pfx : Pfx) (inner : Bytes) (wrapped : RawValue) (pw : Bytes)
        → NoPanic (with_password asn pfx inner wrapped pw)
    unfolding with_password signed
    NoPanic-with_password pfx inner wrapped pw =
        let (key, derived, _) =
          length-pkcs12_kdf asn.sha1 twenty pw pfx.mac_salt pfx.iterations 3 20 (omega arith)
            (omega arith) in
        rw derived (NoPanic-pure _)

    NoPanic-with_content :
        (password : String) (pfx : Pfx) (inner : Bytes) (parsed : RawValue × Bytes)
        → NoPanic (with_content asn password pfx inner parsed)
    unfolding with_content
    NoPanic-with_content password pfx inner (wrapped, rest) =
        search (ending_rules, NoPanic-with_password) depth 24

    NoPanic-finish :
        (p12 : Bytes) (password : String) (pfx : Pfx) (named : List RawValue × Bool)
        → NoPanic (finish asn p12 password pfx named)
    unfolding finish sign_again with_inner with_octets with_element
    NoPanic-finish p12 password pfx (contents, false) = search ending_rules depth 24
    NoPanic-finish p12 password pfx (contents, true) =
        search (ending_rules, NoPanic-with_content) depth 24

    -- If SHA-1 gives 20 bytes, then giving a name to a key never panics, whatever bytes the container
    -- has.
    pub with_key_bag_friendly_name-ne :
        (p12 : Bytes) (alias password : String) (w : World)
        → (with_key_bag_friendly_name asn p12 alias password w).0 ≢ panicked
    unfolding with_key_bag_friendly_name in_pfx in_octet in_contents
    with_key_bag_friendly_name-ne p12 alias password =
        let never : NoPanic (with_key_bag_friendly_name asn p12 alias password) =
          search (ending_rules, NoPanic-name_contents, NoPanic-finish) depth 24 in
        never.ends
