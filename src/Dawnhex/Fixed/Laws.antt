-- ===== src/Dawnhex/Fixed/Laws.antt =====
-- What the fixed-point helpers of dawnhex_kmod.c compute.
use ryzen_build.Base.{ℕ, ◌+◌, ◌-◌, ◌*◌, ◌/◌, ◌^◌, ◌≤◌, ◌<◌, ◌≡◌, arith}
use ryzen_build.Dawnhex.Fixed.{dh_clamp_u32, dh_mul_ppm, dh_mul_q16}

pub dh_clamp_u32_bounds :
    (v lo hi : ℕ) → lo ≤ hi → (lo ≤ dh_clamp_u32 v lo hi) × (dh_clamp_u32 v lo hi ≤ hi)
unfolding dh_clamp_u32
dh_clamp_u32_bounds v lo hi h = ground arith

pub dh_clamp_u32-le : (v lo hi : ℕ) → lo ≤ hi → dh_clamp_u32 v lo hi ≤ hi
dh_clamp_u32-le v lo hi h = (dh_clamp_u32_bounds v lo hi h).1

pub dh_clamp_u32_id : (v lo hi : ℕ) → lo ≤ v → v ≤ hi → dh_clamp_u32 v lo hi ≡ v
unfolding dh_clamp_u32
dh_clamp_u32_id v lo hi h k = ground arith

-- The product of two words fits 64 bits with the rounding added.
mul_words-lt : (a b : ℕ) → a < 2 ^ 32 → b < 2 ^ 32 → a * b ≤ (2 ^ 32 - 1) * (2 ^ 32 - 1)
mul_words-lt a b h k = grind arith

-- `dh_mul_ppm` rounds the exact product to the nearest, halves up, where that fits a word.
pub dh_mul_ppm_lem :
    (a b : ℕ) → a * b + 500000 < 2 ^ 32 * 1000000 → dh_mul_ppm a b ≡ (a * b + 500000) / 1000000
unfolding dh_mul_ppm
dh_mul_ppm_lem a b h = omega arith

pub dh_mul_q16_lem : (a q : ℕ) → a * q + 32768 < 2 ^ 48 → dh_mul_q16 a q ≡ (a * q + 32768) / 65536
unfolding dh_mul_q16
dh_mul_q16_lem a q h = omega arith

pub dh_mul_ppm-le : (a b m : ℕ) → b ≤ 1000000 → a ≤ m → m < 2 ^ 32 → dh_mul_ppm a b ≤ m
dh_mul_ppm-le a b m h k l = omega (arith, mul-mono, dh_mul_ppm_lem a b (omega (arith, mul-mono)))
  where
    mul-mono : a * b ≤ m * 1000000
    mul-mono = grind arith
