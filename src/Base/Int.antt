-- ===== src/Base/Int.antt =====
-- Signed integers over the native numbers, and what `%lld` prints of them.
use Prim.Native.Nat.{ℕ, suc, ◌≤◌}
use mathlib.Core.List.{List, ◌∷◌}
use native.Mathlib.Omega.{arith}
use ryzen_build.Base.Lists.{length}
use ryzen_build.Base.Decimal.{decimal, length-decimal}

-- `negsuc n` is -(n + 1).
pub data ℤ : Type 0 where
  pos : ℕ → ℤ
  negsuc : ℕ → ℤ

abbrev pub signed_decimal : ℤ → List ℕ
signed_decimal (pos n) = decimal n
signed_decimal (negsuc n) = b'-' ∷ decimal (suc n)

pub length-signed_decimal : (z : ℤ) → length (signed_decimal z) ≤ 21
length-signed_decimal (pos n) = omega (arith, length-decimal n)
length-signed_decimal (negsuc n) = omega (arith, length-decimal (suc n))
