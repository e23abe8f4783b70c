-- ===== src/Adalter/Report.antt =====
-- The report of simplex_adalter_kmod.c: `sa_recompute_locked`, a function of the configuration
-- and the base of the page. Each sum and difference of words wraps as the C code's does.
pub mod Bounds
use ryzen_build.Base.{ℕ, zero, suc, ◌+◌, ◌-◌, ◌*◌, ◌/◌, ◌%◌, u32, u64, sub32, ltb, ◌==◌}
use ryzen_build.Base.{if◌then◌else◌, bit_and, List, [], get_or, set, replicate}
use ryzen_build.Adalter.Fixed.{simplex_ppm, sa_clamp_u32, sa_mul_ppm, sa_mul_q16}
use ryzen_build.Adalter.Fixed.{sa_build_9_mips, sa_fill_fib}
use ryzen_build.Adalter.Types.{Cfg, PageBase, Level, zero_level, Report, State, key_of}
use ryzen_build.Adalter.Types.{max_levels, max_nodes_per_level, key_len}

abbrev pub simplex_flag_supercompute : ℕ
simplex_flag_supercompute = 1

abbrev pub simplex_flag_chip_relay : ℕ
simplex_flag_chip_relay = 2

-- The counts of levels and nodes that a report has: 0 stands for the default.
unfoldable pub level_count : Cfg → ℕ
level_count c =
    let levels = if c.recursion_levels == 0 then 22 else c.recursion_levels in
    if ltb max_levels levels then max_levels else levels

unfoldable pub node_count : Cfg → ℕ
node_count c =
    let nodes = if c.nodes_per_level == 0 then 12 else c.nodes_per_level in
    if ltb max_nodes_per_level nodes then max_nodes_per_level else nodes

-- The variables that one round of the inner loop adds to the sums of its level.
pub record NodeShares : Type 0 where
  pub v : ℕ
  pub cross_ppm : ℕ
  pub cold_ppm : ℕ
  pub energy_ppm : ℕ

-- The sums `level_*` of the inner loop and `acc_*` of the outer one.
pub record Totals : Type 0 where
  pub ret : ℕ
  pub red : ℕ
  pub cross : ℕ
  pub cold : ℕ
  pub energy : ℕ

abbrev pub zero_totals : Totals
zero_totals = record { ret = 0; red = 0; cross = 0; cold = 0; energy = 0 }

module _ (c : Cfg) (b : PageBase) where
  abbrev clamped : ℕ → ℕ
  clamped v = sa_clamp_u32 v c.min_retained_ppm c.max_retained_ppm

  -- The scalars of a level, of a node among `nodes`, and of both.
  unfoldable pub sa_level_scalar : ℕ → ℕ
  sa_level_scalar weight = sub32 simplex_ppm (sa_mul_ppm weight c.level_gain_ppm)

  unfoldable pub sa_node_scalar : ℕ → ℕ → ℕ
  sa_node_scalar nodes n =
      if ltb 1 nodes
      then sub32 simplex_ppm (u32 (n * c.node_gain_ppm) / (nodes - 1))
      else simplex_ppm

  unfoldable pub sa_phase_scalar : ℕ → ℕ → ℕ
  sa_phase_scalar i n =
      sub32 (sub32 simplex_ppm (u32 ((i + 1) * c.phase_gain_ppm) / 100))
        (u32 (n * c.phase_gain_ppm) / 200)

  -- The retained share of a node before the scalars: base, ARM, u_scalar, ADDER and modifier.
  unfoldable pub sa_node_base : ℕ → ℕ
  sa_node_base n =
      let v1 = sa_mul_q16 b.retained_ppm c.arm_q16 in
      let v2 = sa_mul_q16 v1 c.u_scalar_q16 in
      let v3 = clamped v2 in
      let add = sa_mul_q16 (10200 + n % 4 * 1275) c.adder_q16 in
      let v4 = clamped (u32 (v3 + add)) in sa_mul_q16 v4 c.modifier_q16

  unfoldable pub sa_node_retained : ℕ → ℕ → ℕ → ℕ → ℕ
  unfolding sa_node_base sa_level_scalar sa_node_scalar sa_phase_scalar
  sa_node_retained nodes weight i n =
      let v1 = sa_mul_ppm (sa_node_base n) (sa_level_scalar weight) in
      let v2 = sa_mul_ppm v1 (sa_node_scalar nodes n) in
      let v3 = sa_mul_ppm v2 (sa_phase_scalar i n) in
      let v4 =
        if bit_and c.flags simplex_flag_supercompute == 0 then v3 else sa_mul_ppm v3 940000 in
      let v5 = if bit_and c.flags simplex_flag_chip_relay == 0 then v4 else sa_mul_ppm v4 980000 in
      clamped v5

  unfoldable pub sa_node_cross : ℕ → ℕ → ℕ
  sa_node_cross weight n =
      let c1 =
        sa_mul_ppm b.crosshatch_ppm (u32 (simplex_ppm + u32 (weight * 120000) / simplex_ppm)) in
      sa_clamp_u32 (sa_mul_ppm c1 (sub32 simplex_ppm (n % 4 * 15000))) 0 simplex_ppm

  unfoldable pub sa_node_cold : ℕ → ℕ → ℕ
  sa_node_cold weight n =
      let c1 =
        sa_mul_ppm b.coldness_ppm (u32 (simplex_ppm + u32 (weight * 180000) / simplex_ppm)) in
      sa_clamp_u32 (sa_mul_ppm c1 (u32 (simplex_ppm + n % 3 * 10000))) 0 simplex_ppm

  -- One round of the inner loop, at node `n` of level `i`.
  unfoldable pub sa_node : ℕ → ℕ → ℕ → ℕ → NodeShares
  sa_node nodes weight i n =
      let v = sa_node_retained nodes weight i n in
      record {
        v = v;
        cross_ppm = sa_node_cross weight n;
        cold_ppm = sa_node_cold weight n;
        energy_ppm = sa_mul_q16 v c.knot_q16;
      }

  -- The inner loop at node `n`, with `left` rounds to go.
  unfoldable pub sa_node_loop : ℕ → ℕ → ℕ → ℕ → ℕ → Totals → Totals
  sa_node_loop nodes weight i zero n s = s
  sa_node_loop nodes weight i (suc left) n s =
      let x = sa_node nodes weight i n in
      sa_node_loop nodes weight i left (n + 1) (record {
        ret = u64 (s.ret + x.v);
        red = u64 (s.red + sub32 simplex_ppm x.v);
        cross = u64 (s.cross + x.cross_ppm);
        cold = u64 (s.cold + x.cold_ppm);
        energy = u64 (s.energy + x.energy_ppm);
      })

  -- The body of the outer loop, at level `i`.
  unfoldable pub sa_level : ℕ → List ℕ → ℕ → ℕ → Level
  sa_level nodes fib fib_total i =
      let fib_i = get_or fib i 0 in
      let weight = u32 (u64 (fib_i * simplex_ppm) / fib_total) in
      let s = sa_node_loop nodes weight i nodes 0 zero_totals in
      record {
        level_index = i + 1;
        fib_value = fib_i;
        fib_weight_ppm = weight;
        retained_ppm = u32 (s.ret / nodes);
        reduction_ppm = u32 (s.red / nodes);
        crosshatch_ppm = u32 (s.cross / nodes);
        coldness_ppm = u32 (s.cold / nodes);
        energy_ppm = u32 (s.energy / nodes);
        mip_retained_ppm = sa_build_9_mips (u32 (s.ret / nodes));
      }

  -- The outer loop at level `i`, with `left` rounds to go.
  unfoldable pub sa_level_loop : ℕ → List ℕ → ℕ → ℕ → ℕ → List Level → Totals → List Level × Totals
  sa_level_loop nodes fib fib_total zero i levels s = (levels, s)
  sa_level_loop nodes fib fib_total (suc left) i levels s =
      let l = sa_level nodes fib fib_total i in
      sa_level_loop nodes fib fib_total left (i + 1) (set levels i l) (record {
        ret = u64 (s.ret + l.retained_ppm);
        red = u64 (s.red + l.reduction_ppm);
        cross = u64 (s.cross + l.crosshatch_ppm);
        cold = u64 (s.cold + l.coldness_ppm);
        energy = u64 (s.energy + l.energy_ppm);
      })

-- The ladder of `levels` rungs, and its total, which is 1 where it would be 0.
unfoldable pub sa_ladder : ℕ → List ℕ × ℕ
sa_ladder levels =
    let (fib, total) = sa_fill_fib levels (replicate max_levels 0) in
    (fib, if total == 0 then 1 else total)

-- The report that `sa_recompute_locked` leaves in `st->report`.
unfoldable pub report_of : Cfg → PageBase → Report
report_of c b =
    let levels = level_count c in
    let nodes = node_count c in
    let (fib, fib_total) = sa_ladder levels in
    let (rungs, s) =
      sa_level_loop c b nodes fib fib_total levels 0 (replicate max_levels zero_level)
        zero_totals in
    record {
      key = key_of b.key;
      final_base = b.final_base;
      average_retained_ppm = u32 (s.ret / levels);
      average_reduction_ppm = u32 (s.red / levels);
      average_crosshatch_ppm = u32 (s.cross / levels);
      average_coldness_ppm = u32 (s.cold / levels);
      recursive_energy_ppm = u32 (s.energy / levels);
      recursion_levels = levels;
      nodes_per_level = nodes;
      levels = rungs;
    }

unfoldable pub sa_recompute : State → State
sa_recompute st = record st { report = report_of st.cfg st.base }
