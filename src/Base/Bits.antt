-- ===== src/Base/Bits.antt =====
-- Single bits of a mask: what `|`, `&` and `~` do to each of them, and the number of set bits.
use Prim.Native.Nat.{ℕ, zero, suc, ◌+◌, ◌-◌, ◌/◌, ◌%◌, ◌^◌, ◌≤◌, ◌<◌, min, max}
use Prim.Native.Nat.{bit_and, bit_or, digits, bit_and-bitwise, bit_or-bitwise}
use mathlib.Core.Path.{◌≡◌, refl}
use native.Mathlib.Nat.{pow-suc, one-le-pow}
use native.Mathlib.Omega.{arith}
use ryzen_build.Base.Tests.{◌==◌, if◌then◌else◌}

-- Bit `j` of `m`, 0 or 1.
unfoldable pub test_bit : ℕ → ℕ → ℕ
test_bit m zero = m % 2
test_bit m (suc j) = test_bit (m / 2) j

pub test_bit-zero : (j : ℕ) → test_bit 0 j ≡ 0
unfolding test_bit
test_bit-zero zero = refl
test_bit-zero (suc j) = test_bit-zero j

pub test_bit-le-one : (m j : ℕ) → test_bit m j ≤ 1
unfolding test_bit
test_bit-le-one m zero = omega arith
test_bit-le-one m (suc j) = test_bit-le-one (m / 2) j

-- An operation on native numbers that treats each bit by `f`, where `z` is what it does once the
-- first number is 0.
module _ (z : ℕ → ℕ) (f : ℕ → ℕ → ℕ) (bit : (x y : ℕ) → x ≤ 1 → y ≤ 1 → f x y ≤ 1)
    (rest : (b j : ℕ) → test_bit (z b) j ≡ f 0 (test_bit b j)) where
  ended : (b j : ℕ) → test_bit (z b) j ≡ f (test_bit 0 j) (test_bit b j)
  ended b j = rw (test_bit-zero j) (rest b j)

  pub test_bit-digits :
      (j n a b : ℕ) → a ≤ n → test_bit (digits z f n a b) j ≡ f (test_bit a j) (test_bit b j)
  unfolding test_bit
  test_bit-digits j zero zero b h = ended b j
  test_bit-digits j zero (suc a) b h = elim h [ ]
  test_bit-digits j (suc n) zero b h = ended b j
  test_bit-digits zero (suc n) (suc a) b h =
      omega (arith, bit (suc a % 2) (b % 2) (omega arith) (omega arith))
  test_bit-digits (suc j) (suc n) (suc a) b h =
      let lowest = bit (suc a % 2) (b % 2) (omega arith) (omega arith) in
      let half : digits z f (suc n) (suc a) b / 2 ≡ digits z f n (suc a / 2) (b / 2) =
        omega (arith, lowest) in
      rw half (test_bit-digits j n (suc a / 2) (b / 2) (omega arith))

pub test_bit-bit_or : (a b j : ℕ) → test_bit (bit_or a b) j ≡ max (test_bit a j) (test_bit b j)
test_bit-bit_or a b j = simp bit_or-bitwise (
    test_bit-digits (λ y. y) max (λ x y p q. omega arith) (λ y i. omega arith) j a a b
      (omega arith))

pub test_bit-bit_and : (a b j : ℕ) → test_bit (bit_and a b) j ≡ min (test_bit a j) (test_bit b j)
test_bit-bit_and a b j = simp bit_and-bitwise (
    test_bit-digits (λ y. 0) min (λ x y p q. omega arith) (λ y i. omega (arith, test_bit-zero i)) j
      a a b (omega arith))

pub test_bit-pow : (b j : ℕ) → test_bit (2 ^ b) j ≡ (if b == j then 1 else 0)
unfolding test_bit
test_bit-pow zero zero = refl
test_bit-pow zero (suc j) = ground (arith, test_bit-zero j)
test_bit-pow (suc b) zero = ground (arith, pow-suc 2 b)
test_bit-pow (suc b) (suc j) =
    let e : 2 ^ suc b / 2 ≡ 2 ^ b = omega (arith, pow-suc 2 b) in
    rw e (ground (arith, test_bit-pow b j))

-- `~x` at a width of `w` bits.
pub test_bit-complement :
    (w x j : ℕ) → x < 2 ^ w → j < w → test_bit (2 ^ w - 1 - x) j ≡ 1 - test_bit x j
unfolding test_bit
test_bit-complement zero x j h k = elim k [ ]
test_bit-complement (suc w) x zero h k = omega (arith, pow-suc 2 w, one-le-pow w 2)
test_bit-complement (suc w) x (suc j) h k =
    let e : (2 ^ suc w - 1 - x) / 2 ≡ 2 ^ w - 1 - x / 2 = omega (arith, pow-suc 2 w) in
    rw e (test_bit-complement w (x / 2) j (omega (arith, pow-suc 2 w)) (omega arith))

-- The number of set bits among the lowest `w`.
unfoldable pub hweight : ℕ → ℕ → ℕ
hweight zero m = 0
hweight (suc w) m = m % 2 + hweight w (m / 2)

pub hweight-le : (w m : ℕ) → hweight w m ≤ w
unfolding hweight
hweight-le zero m = omega arith
hweight-le (suc w) m = omega (arith, hweight-le w (m / 2))
