-- ===== src/Text/Number/RoundTrip.antt =====
-- A printed version code is read back.
use release_hub.Base.{
  ℕ, zero, suc, ◌+◌, ◌*◌, ◌/◌, ◌%◌, ◌≤◌, ◌<◌, String, code, ◌≡◌, refl, sym, ◌∙◌, ap, some, eqb,
  true, false, arith, inl, inr, Bool-cases, eqb_iff,
}
use release_hub.Base.Int.{pos, max_int64}
use release_hub.Text.Number.{digits, parse_int, digit, decimal_from, decimal}
use Prim.Native.String.{[], ◌∷◌}

pub code-digit : (d : ℕ) → d < 10 → code (digit d) ≡ d + 48
unfolding digit
code-digit zero h = refl
code-digit (suc zero) h = refl
code-digit (suc (suc zero)) h = refl
code-digit (suc (suc (suc zero))) h = refl
code-digit (suc (suc (suc (suc zero)))) h = refl
code-digit (suc (suc (suc (suc (suc zero))))) h = refl
code-digit (suc (suc (suc (suc (suc (suc zero)))))) h = refl
code-digit (suc (suc (suc (suc (suc (suc (suc zero))))))) h = refl
code-digit (suc (suc (suc (suc (suc (suc (suc (suc zero)))))))) h = refl
code-digit (suc (suc (suc (suc (suc (suc (suc (suc (suc d))))))))) h = omega arith

digits-digit : (n d : ℕ) (s : String) → d < 10 → digits n (digit d ∷ s) ≡ digits (n * 10 + d) s
unfolding digits
digits-digit n d s h = ground (arith, code-digit d h)

digits-decimal_from :
    (fuel n : ℕ) (s : String) → n < fuel → digits 0 (decimal_from fuel n s) ≡ digits n s
unfolding decimal_from
digits-decimal_from zero n s h = elim h [ ]
digits-decimal_from (suc fuel) n s h = elim (Bool-cases (eqb (n / 10) 0)) [
  | inl last ↦
      rw last (digits-digit 0 (n % 10) s (omega arith) ∙ ap (λ m. digits m s) (one_digit last))
  | inr more ↦ rw more (
      digits-decimal_from fuel (n / 10) (digit (n % 10) ∷ s) (shorter more)
      ∙ digits-digit (n / 10) (n % 10) s (omega arith)
      ∙ ap (λ m. digits m s) (omega arith))
]
  where
    one_digit : eqb (n / 10) 0 ≡ true → 0 * 10 + n % 10 ≡ n
    one_digit e = let q = (eqb_iff (n / 10) 0).0 e in omega arith

    shorter : eqb (n / 10) 0 ≡ false → n / 10 < fuel
    shorter e = ground arith

-- A decimal begins with a digit.
decimal_from-cons :
    (fuel n : ℕ) (s : String)
    → n < fuel
    → (d : ℕ) × (rest : String) × (d < 10) × (decimal_from fuel n s ≡ digit d ∷ rest)
unfolding decimal_from
decimal_from-cons zero n s h = elim h [ ]
decimal_from-cons (suc fuel) n s h = elim (Bool-cases (eqb (n / 10) 0)) [
  | inl last ↦ (n % 10, s, omega arith, rw last)
  | inr more ↦ rw more (decimal_from-cons fuel (n / 10) (digit (n % 10) ∷ s) (ground arith))
]

parse_int-digit :
    (d n : ℕ) (rest : String)
    → d < 10
    → digits 0 (digit d ∷ rest) ≡ some n
    → n ≤ max_int64
    → parse_int (digit d ∷ rest) ≡ some (pos n)
unfolding parse_int
parse_int-digit d n rest h e le = ground (arith, code-digit d h)

-- A version code that is printed with `%d`, as in a file name or a path of the API, is parsed back
-- to itself, if it fits an int64.
pub parse_int-decimal : (n : ℕ) → n ≤ max_int64 → parse_int (decimal n) ≡ some (pos n)
unfolding decimal
parse_int-decimal n h =
    let (d, rest, small, e) = decimal_from-cons (suc n) n [] (omega arith) in
    rw e (parse_int-digit d n rest small (sym (ap (digits 0) e) ∙ read_back) h)
  where
    read_back : digits 0 (decimal_from (suc n) n []) ≡ some n
    read_back = unfold digits in digits-decimal_from (suc n) n [] (omega arith)
