-- ===== src/Dawnhex/Fixed.antt =====
-- The fixed-point helpers of dawnhex_kmod.c: clamping, products of parts per million and of Q16
-- numbers, the nine mip levels and the Fibonacci ladder.
pub mod Laws
use ryzen_build.Base.{ℕ, zero, suc, ◌+◌, ◌-◌, ◌*◌, ◌/◌, ◌^◌, u32, u64, ltb, if◌then◌else◌}
use ryzen_build.Base.{List, [], ◌∷◌, map, get_or, set, replicate}

abbrev pub dh_ppm : ℕ
dh_ppm = 1000000

abbrev pub dh_q16 : ℕ
dh_q16 = 65536

abbrev pub simplex_levels : ℕ
simplex_levels = 22

unfoldable pub dh_clamp_u32 : ℕ → ℕ → ℕ → ℕ
dh_clamp_u32 v lo hi = if ltb v lo then lo else if ltb hi v then hi else v

unfoldable pub dh_mul_ppm : ℕ → ℕ → ℕ
dh_mul_ppm a b = let v = u64 (a * b) in let v' = u64 (v + dh_ppm / 2) in u32 (v' / dh_ppm)

unfoldable pub dh_mul_q16 : ℕ → ℕ → ℕ
dh_mul_q16 a q16 = let v = u64 (a * q16) in let v' = u64 (v + dh_q16 / 2) in u32 (v' / 2 ^ 16)

abbrev pub mip_weights_ppm : List ℕ
mip_weights_ppm =
    2400000 ∷ 1850000 ∷ 1400000 ∷ 1050000 ∷ 800000 ∷ 600000 ∷ 450000 ∷ 300000 ∷ 200000 ∷ []

-- One round of the loop of `dh_build_9_mips`.
unfoldable pub mip : ℕ → ℕ → ℕ
unfolding dh_clamp_u32
mip base weight =
    let v = u64 (base * weight) in
    let v' = u64 (v + dh_ppm / 2) in dh_clamp_u32 (u32 (v' / dh_ppm)) 1000 dh_ppm

unfoldable pub dh_build_9_mips : ℕ → List ℕ
unfolding mip
dh_build_9_mips base = map (mip base) mip_weights_ppm

-- The loop of `dh_fill_fib22` at index `i`, with `left` rounds to go.
unfoldable pub fill_fib_loop : ℕ → ℕ → List ℕ → ℕ → List ℕ × ℕ
fill_fib_loop zero i out total = (out, total)
fill_fib_loop (suc left) i out total =
    let x = u32 (get_or out (i - 1) 0 + get_or out (i - 2) 0) in
    fill_fib_loop left (i + 1) (set out i x) (u64 (total + x))

-- The ladder and its total.
unfoldable pub dh_fill_fib22 : List ℕ × ℕ
unfolding fill_fib_loop
dh_fill_fib22 =
    fill_fib_loop (simplex_levels - 2) 2 (set (set (replicate simplex_levels 0) 0 1) 1 1) 2
