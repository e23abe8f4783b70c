-- ===== src/Adalter/Report/Bounds.antt =====
-- The figures of a report of simplex_adalter_kmod.c stay in their ranges.
use native.Mathlib.Nat.{le-div_iff_mul-le, div-le_of_le-mul, mul_comm, mul-div-le, lt-mul-div-succ}
use native.Mathlib.Nat.{le_of_mul-le-mul_left, lt_of_mul-lt-mul_left}
use ryzen_build.Base.{ℕ, zero, suc, ◌+◌, ◌*◌, ◌/◌, ◌≤◌, ◌<◌, ◌≡◌, arith}
use ryzen_build.Base.{List, get_or, set, replicate, u32, u64, sub32}
use ryzen_build.Adalter.Fixed.{simplex_ppm, sa_clamp_u32}
use ryzen_build.Adalter.Types.{Cfg, PageBase, Level, zero_level}
use ryzen_build.Adalter.Types.{max_levels, max_nodes_per_level}
use ryzen_build.Adalter.Report.{level_count, node_count, Totals, zero_totals, sa_node}
use ryzen_build.Adalter.Report.{sa_node_retained, sa_node_cross, sa_node_cold, sa_node_loop}
use ryzen_build.Adalter.Report.{sa_level, sa_level_loop, sa_ladder, report_of}

pub level_count_bounds : (c : Cfg) → (1 ≤ level_count c) × (level_count c ≤ max_levels)
unfolding level_count
level_count_bounds c = ground arith

pub node_count_bounds : (c : Cfg) → (1 ≤ node_count c) × (node_count c ≤ max_nodes_per_level)
unfolding node_count
node_count_bounds c = ground arith

clamp_bounds : (v lo hi : ℕ) → lo ≤ hi → (lo ≤ sa_clamp_u32 v lo hi) × (sa_clamp_u32 v lo hi ≤ hi)
unfolding sa_clamp_u32
clamp_bounds v lo hi h = ground arith

-- The mean of `n` figures lies between bounds of each.
mean_bounds : (n s lo hi : ℕ) → 0 < n → n * lo ≤ s → s ≤ n * hi → (lo ≤ s / n) × (s / n ≤ hi)
mean_bounds n s lo hi h k l = ((le-div_iff_mul-le h).1 (rw (mul_comm lo n) k), div-le_of_le-mul n l)

-- Two means of sums that make up about `m` for each of `n` figures.
means_whole :
    (n s t m k : ℕ)
    → 0 < n
    → s + t ≤ n * m
    → n * k ≤ s + t
    → (s / n + t / n ≤ m) × (k ≤ s / n + t / n + 1)
means_whole n s t m k h p q =
    let a = mul-div-le s n in
    let b = mul-div-le t n in
    let c = lt-mul-div-succ s h in
    let d = lt-mul-div-succ t h in
    let top : n * (s / n + t / n) ≤ n * m = grind arith in
    let low : n * k < n * (s / n + t / n + 2) = grind arith in
    (le_of_mul-le-mul_left top h, omega (arith, lt_of_mul-lt-mul_left n low))

-- The sums after `n` rounds of the inner loop, and after `i` rounds of the outer one.
record NodeTotals (lo hi n : ℕ) (s : Totals) : Type 0 where
  low : n * lo ≤ s.ret
  high : s.ret ≤ n * hi
  whole : s.ret + s.red ≡ n * 1000000
  cross : s.cross ≤ n * 1000000
  cold : s.cold ≤ n * 1000000

record LevelTotals (lo hi i : ℕ) (s : Totals) : Type 0 where
  low : i * lo ≤ s.ret
  high : s.ret ≤ i * hi
  whole_low : i * 999999 ≤ s.ret + s.red
  whole_high : s.ret + s.red ≤ i * 1000000
  cross : s.cross ≤ i * 1000000
  cold : s.cold ≤ i * 1000000

-- The range of the shares of a level, or of the averages, between the limits `lo` and `hi`.
pub record SharesInRange (lo hi ret red cross cold : ℕ) : Type 0 where
  pub low : lo ≤ ret
  pub high : ret ≤ hi
  pub whole_low : 999998 ≤ ret + red
  pub whole_high : ret + red ≤ simplex_ppm
  pub cross_high : cross ≤ simplex_ppm
  pub cold_high : cold ≤ simplex_ppm

means-SharesInRange :
    (n lo hi k : ℕ) (s : Totals)
    → 0 < n
    → hi ≤ 1000000
    → 999999 ≤ k
    → (n * lo ≤ s.ret) × (s.ret ≤ n * hi)
    → (n * k ≤ s.ret + s.red) × (s.ret + s.red ≤ n * 1000000)
    → (s.cross ≤ n * 1000000) × (s.cold ≤ n * 1000000)
    → SharesInRange lo hi (u32 (s.ret / n)) (u32 (s.red / n)) (u32 (s.cross / n)) (u32 (s.cold / n))
      × (k ≤ u32 (s.ret / n) + u32 (s.red / n) + 1)
means-SharesInRange n lo hi k s h top near ret whole others =
    let a = mean_bounds n s.ret lo hi h ret.0 ret.1 in
    let b = means_whole n s.ret s.red 1000000 k h whole.1 whole.0 in
    let c = div-le_of_le-mul n others.0 in
    let d = div-le_of_le-mul n others.1 in
    (
      record {
        low = omega (arith, a, b, top);
        high = omega (arith, a, b, top);
        whole_low = omega (arith, a, b, near);
        whole_high = omega (arith, a, b);
        cross_high = omega (arith, c);
        cold_high = omega (arith, d);
      },
      omega (arith, a, b, top),
    )

module _ (c : Cfg) (b : PageBase) (ordered : c.min_retained_ppm ≤ c.max_retained_ppm)
    (capped : c.max_retained_ppm ≤ simplex_ppm) where
  abbrev lo : ℕ
  lo = c.min_retained_ppm

  abbrev hi : ℕ
  hi = c.max_retained_ppm

  retained_bounds :
      (nodes w i n : ℕ)
      → (lo ≤ sa_node_retained c b nodes w i n) × (sa_node_retained c b nodes w i n ≤ hi)
  unfolding sa_node_retained
  retained_bounds nodes w i n = clamp_bounds _ lo hi ordered

  cross-le : (w n : ℕ) → sa_node_cross c b w n ≤ simplex_ppm
  unfolding sa_node_cross
  cross-le w n = (clamp_bounds _ 0 simplex_ppm (omega arith)).1

  cold-le : (w n : ℕ) → sa_node_cold c b w n ≤ simplex_ppm
  unfolding sa_node_cold
  cold-le w n = (clamp_bounds _ 0 simplex_ppm (omega arith)).1

  abbrev node_added : ℕ → ℕ → ℕ → ℕ → Totals → Totals
  node_added nodes w i n s =
      let x = sa_node c b nodes w i n in
      record {
        ret = u64 (s.ret + x.v);
        red = u64 (s.red + sub32 simplex_ppm x.v);
        cross = u64 (s.cross + x.cross_ppm);
        cold = u64 (s.cold + x.cold_ppm);
        energy = u64 (s.energy + x.energy_ppm);
      }

  node_added-NodeTotals :
      (nodes w i n : ℕ) (s : Totals)
      → n < 12
      → NodeTotals lo hi n s
      → NodeTotals lo hi (n + 1) (node_added nodes w i n s)
  unfolding sa_node
  node_added-NodeTotals nodes w i n s h inv =
      ground (arith, inv, ordered, capped, retained_bounds nodes w i n, cross-le w n, cold-le w n)

  sa_node_loop-NodeTotals :
      (nodes w i left n : ℕ) (s : Totals)
      → left + n ≤ 12
      → NodeTotals lo hi n s
      → NodeTotals lo hi (left + n) (sa_node_loop c b nodes w i left n s)
  unfolding sa_node_loop
  sa_node_loop-NodeTotals nodes w i zero n s h inv = ground (arith, inv)
  sa_node_loop-NodeTotals nodes w i (suc left) n s h inv =
      let next =
        sa_node_loop-NodeTotals nodes w i left (n + 1) (node_added nodes w i n s) (omega arith)
          (node_added-NodeTotals nodes w i n s (omega arith) inv) in
      let e : left + (n + 1) ≡ suc left + n = omega arith in rw e at next

  module _ (nodes : ℕ) (some_nodes : 1 ≤ nodes) (few_nodes : nodes ≤ 12) where
    abbrev LevelInRange : Level → Type 0
    LevelInRange l =
        SharesInRange lo hi l.retained_ppm l.reduction_ppm l.crosshatch_ppm l.coldness_ppm
        × (1000000 ≤ l.retained_ppm + l.reduction_ppm + 1)

    sa_level-LevelInRange :
        (ladder : List ℕ) (total i : ℕ) → LevelInRange (sa_level c b nodes ladder total i)
    unfolding sa_level
    sa_level-LevelInRange ladder total i =
        let w = u32 (u64 (get_or ladder i 0 * simplex_ppm) / total) in
        let s = sa_node_loop c b nodes w i nodes 0 zero_totals in
        let none_yet : NodeTotals lo hi 0 zero_totals = omega arith in
        let e : nodes + 0 ≡ nodes = omega arith in
        let inv' = sa_node_loop-NodeTotals nodes w i nodes 0 zero_totals (omega arith) none_yet in
        let inv : NodeTotals lo hi nodes s = rw e at inv' in
        means-SharesInRange nodes lo hi 1000000 s some_nodes capped (omega arith)
          (inv.low, inv.high) (omega (arith, inv), omega (arith, inv)) (inv.cross, inv.cold)

    module _ (ladder : List ℕ) (total : ℕ) where
      abbrev level_added : ℕ → Totals → Totals
      level_added i s =
          let l = sa_level c b nodes ladder total i in
          record {
            ret = u64 (s.ret + l.retained_ppm);
            red = u64 (s.red + l.reduction_ppm);
            cross = u64 (s.cross + l.crosshatch_ppm);
            cold = u64 (s.cold + l.coldness_ppm);
            energy = u64 (s.energy + l.energy_ppm);
          }

      level_added-LevelTotals :
          (i : ℕ) (s : Totals)
          → i < 22
          → LevelTotals lo hi i s
          → LevelTotals lo hi (i + 1) (level_added i s)
      level_added-LevelTotals i s h inv =
          let here = sa_level-LevelInRange ladder total i in
          ground (arith, inv, here.0, here.1, capped)

      sa_level_loop-LevelTotals :
          (left i : ℕ) (levels : List Level) (s : Totals)
          → left + i ≤ 22
          → LevelTotals lo hi i s
          → LevelTotals lo hi (left + i) (sa_level_loop c b nodes ladder total left i levels s).1
      unfolding sa_level_loop
      sa_level_loop-LevelTotals zero i levels s h inv = ground (arith, inv)
      sa_level_loop-LevelTotals (suc left) i levels s h inv =
          let next =
            sa_level_loop-LevelTotals left (i + 1)
              (set levels i (sa_level c b nodes ladder total i)) (level_added i s) (omega arith)
              (level_added-LevelTotals i s (omega arith) inv) in
          let e : left + (i + 1) ≡ suc left + i = omega arith in rw e at next

-- Where the configured limits are in order and at most a million, every report keeps its averages
-- in range: the retained share between the limits, the retained and the reduced share together a
-- million but for the rounding, the others at most a million. The page's base is any.
pub report_of-SharesInRange :
    (c : Cfg) (b : PageBase)
    → c.min_retained_ppm ≤ c.max_retained_ppm
    → c.max_retained_ppm ≤ simplex_ppm
    → let r = report_of c b in
      SharesInRange c.min_retained_ppm c.max_retained_ppm r.average_retained_ppm
        r.average_reduction_ppm r.average_crosshatch_ppm r.average_coldness_ppm
unfolding report_of
report_of-SharesInRange c b ordered capped =
    let nodes = node_count c in
    let count = level_count c in
    let (ladder, total) = sa_ladder count in
    let zeros = replicate max_levels zero_level in
    let s = (sa_level_loop c b nodes ladder total count 0 zeros zero_totals).1 in
    let few = node_count_bounds c in
    let rungs = level_count_bounds c in
    let none_yet : LevelTotals c.min_retained_ppm c.max_retained_ppm 0 zero_totals = omega arith in
    let e : count + 0 ≡ count = omega arith in
    let inv' =
      sa_level_loop-LevelTotals c b ordered capped nodes few.0 few.1 ladder total count 0 zeros
        zero_totals (omega (arith, rungs)) none_yet in
    let inv : LevelTotals c.min_retained_ppm c.max_retained_ppm count s = rw e at inv' in
    (means-SharesInRange count c.min_retained_ppm c.max_retained_ppm 999999 s rungs.0 capped
      (omega arith) (inv.low, inv.high) (inv.whole_low, inv.whole_high) (inv.cross, inv.cold)).0
