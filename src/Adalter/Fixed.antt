-- ===== src/Adalter/Fixed.antt =====
-- The fixed-point helpers of simplex_adalter_kmod.c and its Fibonacci ladder.
pub mod Fib
use ryzen_build.Base.{ℕ, zero, suc, ◌+◌, ◌-◌, ◌*◌, ◌/◌, ◌^◌, u32, u64, ltb, ◌==◌, if◌then◌else◌}
use ryzen_build.Base.{List, [], ◌∷◌, map, get_or, set}

abbrev pub simplex_ppm : ℕ
simplex_ppm = 1000000

abbrev pub simplex_q16 : ℕ
simplex_q16 = 65536

unfoldable pub sa_clamp_u32 : ℕ → ℕ → ℕ → ℕ
sa_clamp_u32 v lo hi = if ltb v lo then lo else if ltb hi v then hi else v

unfoldable pub sa_mul_ppm : ℕ → ℕ → ℕ
sa_mul_ppm a b = let v = u64 (a * b) in let v' = u64 (v + simplex_ppm / 2) in u32 (v' / simplex_ppm)

unfoldable pub sa_mul_q16 : ℕ → ℕ → ℕ
sa_mul_q16 a q16 = let v = u64 (a * q16) in let v' = u64 (v + simplex_q16 / 2) in u32 (v' / 2 ^ 16)

abbrev pub sa_weights_ppm : List ℕ
sa_weights_ppm =
    2400000 ∷ 1850000 ∷ 1400000 ∷ 1050000 ∷ 800000 ∷ 600000 ∷ 450000 ∷ 300000 ∷ 200000 ∷ []

-- One round of the loop of `sa_build_9_mips`.
unfoldable pub sa_mip : ℕ → ℕ → ℕ
unfolding sa_clamp_u32
sa_mip base weight =
    let v = u64 (base * weight) in
    let v' = u64 (v + simplex_ppm / 2) in sa_clamp_u32 (u32 (v' / simplex_ppm)) 1000 simplex_ppm

unfoldable pub sa_build_9_mips : ℕ → List ℕ
unfolding sa_mip
sa_build_9_mips base = map (sa_mip base) sa_weights_ppm

-- The loop of `sa_fill_fib` at index `i`, with `left` rounds to go.
unfoldable pub sa_fib_loop : ℕ → ℕ → List ℕ → ℕ → List ℕ × ℕ
sa_fib_loop zero i out total = (out, total)
sa_fib_loop (suc left) i out total =
    let x = u32 (get_or out (i - 1) 0 + get_or out (i - 2) 0) in
    sa_fib_loop left (i + 1) (set out i x) (u64 (total + x))

-- The ladder that `out` becomes, and `*total`.
unfoldable pub sa_fill_fib : ℕ → List ℕ → List ℕ × ℕ
unfolding sa_fib_loop
sa_fill_fib count out =
    if count == 0
    then (out, 0)
    else if count == 1
    then (set out 0 1, 1)
    else sa_fib_loop (count - 2) 2 (set (set out 0 1) 1 1) 2
