-- ===== src/Text/Number.antt =====
-- `strconv.ParseInt(s, 10, 64)` and `fmt.Sprintf("%d", n)`.
pub mod RoundTrip
pub mod Digits
use release_hub.Base.{
  ℕ, zero, suc, ◌+◌, ◌-◌, ◌*◌, ◌/◌, ◌%◌, String, Char, code, Bool, ◌&&◌, ◌≡◌, refl, Option, none,
  some, leb, ltb, eqb, if◌then◌else◌,
}
use release_hub.Base.Int.{ℤ, pos, negsuc, max_int64}
use Prim.Native.String.{[], ◌∷◌}

-- The digits of a decimal, most significant first; `none` is a syntax error.
digits : ℕ → String → Option ℕ
digits n [] = some n
digits n (c ∷ s) =
    let rest = digits (n * 10 + (code c - b'0')) s in
    if leb b'0' (code c) && leb (code c) b'9' then rest else none

parse_digits : String → Option ℕ
parse_digits [] = none
parse_digits (c ∷ s) = digits 0 (c ∷ s)

-- A value below the range is an error too.
negated : ℕ → Option ℤ
negated zero = some (pos 0)
negated (suc n) = if leb n max_int64 then some (negsuc n) else none

in_range : Option ℕ → Option ℤ
in_range none = none
in_range (some n) = if leb n max_int64 then some (pos n) else none

negate : Option ℕ → Option ℤ
negate none = none
negate (some n) = negated n

-- One sign may stand in front.
unfoldable pub parse_int : String → Option ℤ
unfolding digits parse_digits negated in_range negate
parse_int [] = none
parse_int (c ∷ s) =
    if eqb (code c) b'-'
    then negate (parse_digits s)
    else if eqb (code c) b'+'
    then in_range (parse_digits s)
    else in_range (parse_digits (c ∷ s))

pub digit : ℕ → Char
digit zero = "0"
digit (suc zero) = "1"
digit (suc (suc zero)) = "2"
digit (suc (suc (suc zero))) = "3"
digit (suc (suc (suc (suc zero)))) = "4"
digit (suc (suc (suc (suc (suc zero))))) = "5"
digit (suc (suc (suc (suc (suc (suc zero)))))) = "6"
digit (suc (suc (suc (suc (suc (suc (suc zero))))))) = "7"
digit (suc (suc (suc (suc (suc (suc (suc (suc zero)))))))) = "8"
digit _ = "9"

-- One round for each digit; `n + 1` rounds are enough.
decimal_from : ℕ → ℕ → String → String
decimal_from zero n s = s
decimal_from (suc fuel) n s =
    let one_more = digit (n % 10) ∷ s in
    let rest = decimal_from fuel (n / 10) one_more in if eqb (n / 10) 0 then one_more else rest

unfoldable pub decimal : ℕ → String
unfolding digit decimal_from
decimal n = decimal_from (suc n) n []

parses :
    (parse_int "142" ≡ some (pos 142))
    × (parse_int "-7" ≡ some (negsuc 6))
    × (parse_int "9223372036854775808" ≡ none)
    × (parse_int "+5" ≡ some (pos 5))
    × (parse_int "" ≡ none)
    × (parse_int "1_0" ≡ none)
unfolding parse_int
parses = (refl, refl, refl, refl, refl, refl)

prints : decimal 1042 ≡ "1042"
unfolding decimal
prints = refl
