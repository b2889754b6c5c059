-- ===== src/Pkcs12/Names.antt =====
-- Names as BMPStrings, read back as 16-bit units.
use release_hub.Base.{
  ℕ, ◌+◌, ◌*◌, String, code, Option, none, some, List, [], ◌∷◌, ◌++◌, leb, ◌≡◌, refl, arith, Bool,
  Bool-cases, inl, inr, true, ◌&&◌, if◌then◌else◌,
}
use release_hub.Result.{Result, ok, err}
use release_hub.World.{Bytes}
use release_hub.Pkcs12.{bmp_string_zero_term, with_unit}

-- pairs of bytes, the high one first
units : Bytes → List ℕ
units [] = []
units (b ∷ []) = []
units (b ∷ b' ∷ bs) = (b * 256 + b') ∷ units bs

unfoldable pub codes : String → List ℕ
codes String.[] = []
codes (String.◌∷◌ c s) = code c ∷ codes s

unfoldable pub is_basic : String → Bool
is_basic String.[] = true
is_basic (String.◌∷◌ c s) = leb (code c) 65535 && is_basic s

unfoldable pub units_of : Result Bytes → Option (List ℕ)
unfolding units
units_of (ok out) = some (units out)
units_of (err e) = none

units_of-with_unit :
    (n : ℕ) (r : Result Bytes) (ns : List ℕ)
    → leb n 65535 ≡ true
    → units_of r ≡ some ns
    → units_of (with_unit n r) ≡ some (n ∷ ns)
unfolding units_of with_unit units
units_of-with_unit n (ok out) ns h e = ground (arith, e)
units_of-with_unit n (err e) ns h eq = absurd (cc eq)

units_of-with_unit-none :
    (n : ℕ) (r : Result Bytes) → units_of r ≡ none → units_of (with_unit n r) ≡ none
unfolding units_of with_unit
units_of-with_unit-none n (ok out) e = absurd (cc e)
units_of-with_unit-none n (err e) eq = refl

-- A name is encoded just if all its characters are of the basic plane. The encoding, read as 16-bit
-- units, then is the code points of the name and a zero.
pub units_of-bmp_string_zero_term :
    (s : String)
    → units_of (bmp_string_zero_term s) ≡ (if is_basic s then some (codes s ++ 0 ∷ []) else none)
unfolding bmp_string_zero_term is_basic codes
units_of-bmp_string_zero_term String.[] = unfold units_of units in refl
units_of-bmp_string_zero_term (String.◌∷◌ c s) =
    let ih = units_of-bmp_string_zero_term s in
    elim (Bool-cases (leb (code c) 65535)) [
      | inl basic ↦ elim (Bool-cases (is_basic s)) [
        | inl all ↦ ground (
          arith,
          units_of-with_unit (code c) (bmp_string_zero_term s) (codes s ++ 0 ∷ []) basic
              (rw all at ih),
        )
        | inr some_not ↦
            ground
              (arith, units_of-with_unit-none (code c) (bmp_string_zero_term s) (rw some_not at ih))
      ]
      | inr large ↦ unfold units_of in ground arith
    ]
