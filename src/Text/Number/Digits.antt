-- ===== src/Text/Number/Digits.antt =====
-- What a printed number is made of.
use release_hub.Base.{ℕ, zero, suc, ◌%◌, ◌/◌, String, code, ◌≢◌, eqb, arith, Bool-cases, inl, inr}
use release_hub.Text.Number.{digit, decimal_from, decimal}
use release_hub.Text.Number.RoundTrip.{code-digit}
use release_hub.Text.PathName.Contained.{HasNoSlash}

decimal_from-HasNoSlash :
    (fuel n : ℕ) (s : String) → HasNoSlash s → HasNoSlash (decimal_from fuel n s)
unfolding decimal_from
decimal_from-HasNoSlash zero n s h = h
decimal_from-HasNoSlash (suc fuel) n s h = elim (Bool-cases (eqb (n / 10) 0)) [
  | inl last ↦ rw last (no_slash, h)
  | inr more ↦ rw more (decimal_from-HasNoSlash fuel (n / 10) _ (no_slash, h))
]
  where
    no_slash : code (digit (n % 10)) ≢ b'/'
    no_slash e = let c = code-digit (n % 10) (omega arith) in omega arith

pub decimal-HasNoSlash : (n : ℕ) → HasNoSlash (decimal n)
unfolding decimal
decimal-HasNoSlash n = decimal_from-HasNoSlash (suc n) n "" tt
