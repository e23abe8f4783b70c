-- ===== src/Dawnhex/Simplex.antt =====
-- The simplex ladder of a pair: `dh_duo_base_retained_ppm_locked` and
-- `dh_duo_recompute_simplex_locked` of dawnhex_kmod.c. Each sum and difference of words wraps as
-- the C code's does.
pub mod Bounds
use ryzen_build.Base.{ℕ, zero, suc, ◌+◌, ◌-◌, ◌*◌, ◌/◌, ◌%◌, u32, u64, sub32}
use ryzen_build.Base.{◌==◌, if◌then◌else◌, bit_and, bit_or, List, [], get_or, set, replicate}
use ryzen_build.Dawnhex.Fixed.{dh_ppm, dh_clamp_u32, dh_mul_ppm, dh_mul_q16, dh_build_9_mips}
use ryzen_build.Dawnhex.Fixed.{dh_fill_fib22, simplex_levels}
use ryzen_build.Dawnhex.Types.{Pair, SimplexLevel, SimplexState, nodes_per_level}
use ryzen_build.Dawnhex.Types.{inout_inout_out, inout_inout_in, crossed}

abbrev pub min_retained_ppm : ℕ
min_retained_ppm = 10200

abbrev pub max_retained_ppm : ℕ
max_retained_ppm = 120000

abbrev pub flag_supercompute : ℕ
flag_supercompute = 1

abbrev pub flag_chip_relay : ℕ
flag_chip_relay = 2

unfoldable pub dh_duo_base_retained_ppm : Pair → ℕ
dh_duo_base_retained_ppm p =
    let base = u32 (min_retained_ppm + sub32 1000000 p.energy_ppm / 20) in
    let base' = u32 (base + p.pressure_ppm / 25) in
    let scaled =
      if p.mode == inout_inout_out
      then dh_mul_ppm base' 980000
      else if p.mode == inout_inout_in
      then dh_mul_ppm base' 1020000
      else if p.mode == crossed
      then dh_mul_ppm base' 960000
      else base' in
    dh_clamp_u32 scaled min_retained_ppm max_retained_ppm

-- The variables that one round of the inner loop adds to the sums of its level.
pub record NodeValues : Type 0 where
  pub v : ℕ
  pub cross_ppm : ℕ
  pub cold_ppm : ℕ
  pub energy_ppm : ℕ

-- The sums `level_*` of the inner loop and `acc_*` of the outer one.
pub record Sums : Type 0 where
  pub ret : ℕ
  pub red : ℕ
  pub cross : ℕ
  pub cold : ℕ
  pub energy : ℕ

abbrev pub zero_sums : Sums
zero_sums = record { ret = 0; red = 0; cross = 0; cold = 0; energy = 0 }

-- The three scalars of a node, from the level's weight and the indices of level and node.
unfoldable pub level_scalar : ℕ → ℕ
level_scalar fib_weight = sub32 dh_ppm (dh_mul_ppm fib_weight 144000)

unfoldable pub node_scalar : ℕ → ℕ
node_scalar n = sub32 dh_ppm (u32 (n * 21000) / (nodes_per_level - 1))

unfoldable pub phase_scalar : ℕ → ℕ → ℕ
phase_scalar i n = sub32 (sub32 dh_ppm (u32 ((i + 1) * 10200) / 100)) (u32 (n * 10200) / 200)

-- The retained share of a node before the scalars: base, ARM, u_scalar, ADDER and modifier.
unfoldable pub node_base : ℕ → ℕ → ℕ
node_base base n =
    let v1 = dh_mul_q16 base 77857 in
    let v2 = dh_mul_q16 v1 114688 in
    let v3 = dh_clamp_u32 v2 min_retained_ppm max_retained_ppm in
    let add = dh_mul_q16 (10200 + n % 4 * 1275) 27525 in
    let v4 = dh_clamp_u32 (u32 (v3 + add)) min_retained_ppm max_retained_ppm in dh_mul_q16 v4 67830

module _ (p : Pair) where
  unfoldable pub node_cross : ℕ → ℕ
  node_cross n =
      let c1 = u32 (p.quotient_ppm / 3 + dh_clamp_u32 p.refraction_ppm 0 1500000 / 4) in
      let c2 = u32 (c1 + p.energy_ppm / 5) in
      let c3 = u32 (c2 + p.pressure_ppm / 5) in
      dh_clamp_u32 (dh_mul_ppm c3 (sub32 dh_ppm (n % 4 * 15000))) 0 dh_ppm

  unfoldable pub node_cold : ℕ → ℕ → ℕ
  node_cold fib_weight n =
      let c1 = u32 (sub32 dh_ppm p.energy_ppm / 2 + p.pressure_ppm / 2) in
      let c2 = dh_mul_ppm c1 (u32 (dh_ppm + fib_weight / 8)) in
      let c3 = dh_mul_ppm c2 (u32 (dh_ppm + n % 3 * 10000)) in dh_clamp_u32 c3 0 dh_ppm

module _ (p : Pair) (base flags : ℕ) where
  unfoldable pub node_retained : ℕ → ℕ → ℕ → ℕ
  unfolding node_base level_scalar node_scalar phase_scalar
  node_retained fib_weight i n =
      let v1 = dh_mul_ppm (node_base base n) (level_scalar fib_weight) in
      let v2 = dh_mul_ppm v1 (node_scalar n) in
      let v3 = dh_mul_ppm v2 (phase_scalar i n) in
      let v4 = dh_mul_ppm v3 (dh_clamp_u32 p.refraction_ppm 900000 1200000) in
      let v5 = dh_mul_ppm v4 (dh_clamp_u32 p.quotient_ppm 800000 1250000) in
      let v6 = if p.mode == crossed then dh_mul_ppm v5 970000 else v5 in
      let v7 = if bit_and flags flag_supercompute == 0 then v6 else dh_mul_ppm v6 940000 in
      let v8 = if bit_and flags flag_chip_relay == 0 then v7 else dh_mul_ppm v7 980000 in
      dh_clamp_u32 v8 min_retained_ppm max_retained_ppm

  -- One round of the inner loop, at node `n` of level `i`.
  unfoldable pub simplex_node : ℕ → ℕ → ℕ → NodeValues
  simplex_node fib_weight i n =
      let v = node_retained fib_weight i n in
      record {
        v = v;
        cross_ppm = node_cross p n;
        cold_ppm = node_cold p fib_weight n;
        energy_ppm = dh_mul_q16 v 32086;
      }

  -- The inner loop at node `n`, with `left` rounds to go.
  unfoldable pub node_loop : ℕ → ℕ → ℕ → ℕ → Sums → Sums
  node_loop fib_weight i zero n s = s
  node_loop fib_weight i (suc left) n s =
      let x = simplex_node fib_weight i n in
      node_loop fib_weight i left (n + 1) (record {
        ret = u64 (s.ret + x.v);
        red = u64 (s.red + sub32 dh_ppm x.v);
        cross = u64 (s.cross + x.cross_ppm);
        cold = u64 (s.cold + x.cold_ppm);
        energy = u64 (s.energy + x.energy_ppm);
      })

  -- The body of the outer loop, at level `i`.
  unfoldable pub simplex_level : List ℕ → ℕ → ℕ → SimplexLevel
  simplex_level fib fib_total i =
      let fib_i = get_or fib i 0 in
      let weight = u32 (u64 (fib_i * dh_ppm) / fib_total) in
      let s = node_loop weight i nodes_per_level 0 zero_sums in
      record {
        level_index = i + 1;
        fib_value = fib_i;
        fib_weight_ppm = weight;
        node_count = nodes_per_level;
        retained_ppm = u32 (s.ret / nodes_per_level);
        reduction_ppm = u32 (s.red / nodes_per_level);
        crosshatch_ppm = u32 (s.cross / nodes_per_level);
        coldness_ppm = u32 (s.cold / nodes_per_level);
        energy_ppm = u32 (s.energy / nodes_per_level);
        pressure_ppm = p.pressure_ppm;
        mip_retained_ppm = dh_build_9_mips (u32 (s.ret / nodes_per_level));
      }

  -- The outer loop at level `i`, with `left` rounds to go.
  unfoldable pub level_loop :
      List ℕ → ℕ → ℕ → ℕ → List SimplexLevel → Sums → List SimplexLevel × Sums
  level_loop fib fib_total zero i levels s = (levels, s)
  level_loop fib fib_total (suc left) i levels s =
      let l = simplex_level fib fib_total i in
      level_loop fib fib_total left (i + 1) (set levels i l) (record {
        ret = u64 (s.ret + l.retained_ppm);
        red = u64 (s.red + l.reduction_ppm);
        cross = u64 (s.cross + l.crosshatch_ppm);
        cold = u64 (s.cold + l.coldness_ppm);
        energy = u64 (s.energy + l.energy_ppm);
      })

abbrev pub zero_level : SimplexLevel
zero_level = record {
  level_index = 0;
  fib_value = 0;
  fib_weight_ppm = 0;
  node_count = 0;
  retained_ppm = 0;
  reduction_ppm = 0;
  crosshatch_ppm = 0;
  coldness_ppm = 0;
  energy_ppm = 0;
  pressure_ppm = 0;
  mip_retained_ppm = [];
}

-- The simplex state that `dh_duo_recompute_simplex_locked` leaves in `p->simplex`.
unfoldable pub simplex_of : Pair → SimplexState
simplex_of p =
    let base = dh_duo_base_retained_ppm p in
    let flags = bit_or flag_supercompute flag_chip_relay in
    let (fib, total) = dh_fill_fib22 in
    let fib_total = if total == 0 then 1 else total in
    let (levels, s) =
      level_loop p base flags fib fib_total simplex_levels 0 (replicate simplex_levels zero_level)
        zero_sums in
    record {
      level_count = simplex_levels;
      node_count = nodes_per_level;
      base_retained_ppm = base;
      recursive_retained_ppm = u32 (s.ret / simplex_levels);
      recursive_reduction_ppm = u32 (s.red / simplex_levels);
      recursive_crosshatch_ppm = u32 (s.cross / simplex_levels);
      recursive_coldness_ppm = u32 (s.cold / simplex_levels);
      recursive_energy_ppm = u32 (s.energy / simplex_levels);
      flags = flags;
      levels = levels;
    }

unfoldable pub dh_duo_recompute_simplex : Pair → Pair
dh_duo_recompute_simplex p = record p { simplex = simplex_of p }
