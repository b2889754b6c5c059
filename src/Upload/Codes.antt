-- ===== src/Upload/Codes.antt =====
-- The version codes that an upload asks for.
use release_hub.Base.{
  ℕ, ◌≤◌, ◌<◌, none, some, ◌≡◌, refl, ap, arith, eq_iff, ◌==◌, Bool-cases, inl, inr,
}
use release_hub.Base.Int.{pos, max_int64}
use release_hub.Text.Number.{parse_int, decimal}
use release_hub.Text.Number.RoundTrip.{parse_int-decimal}
use release_hub.Upload.{version_code, positive}

-- A positive version code that fits an int64, printed with `%d` into the form of an upload, is the
-- code that the upload asks for, whatever the latest code is.
pub version_code-decimal :
    (n max : ℕ) → 0 < n → n ≤ max_int64 → version_code (decimal n) max ≡ some (pos n)
unfolding version_code positive
version_code-decimal n max lo hi = elim (Bool-cases (decimal n == "")) [
  | inl empty ↦
      absurd
        (cc (no_digits, ap parse_int ((eq_iff (decimal n) "").0 empty), parse_int-decimal n hi))
  | inr filled ↦ rw (filled, parse_int-decimal n hi) (ground arith)
]
  where
    no_digits : parse_int "" ≡ none
    no_digits = unfold parse_int in refl
