-- ===== src/Base/Int.antt =====
-- Go's int64 values before they are known to be positive: `negsuc n` is -(n + 1).
use Prim.Native.Nat.{ℕ, suc, ◌+◌, ◌^◌, ◌-◌}
use mathlib.Core.Bool.{Bool}
use release_hub.Base.Tests.{leb}

pub data ℤ : Type 0 where
  pos : ℕ → ℤ
  negsuc : ℕ → ℤ

abbrev pub pos_part : ℤ → ℕ
pos_part (pos n) = n
pos_part (negsuc n) = 0

abbrev pub neg_part : ℤ → ℕ
neg_part (pos n) = 0
neg_part (negsuc n) = suc n

abbrev pub leb_ℤ : ℤ → ℤ → Bool
leb_ℤ a b = leb (pos_part a + neg_part b) (pos_part b + neg_part a)

-- The largest int64.
abbrev pub max_int64 : ℕ
max_int64 = 2 ^ 63 - 1
