-- ===== src/Dawnhex/Simplex/Bounds.antt =====
-- The ranges of the figures of a simplex ladder, whatever the pair holds.
use ryzen_build.Base.{ℕ, zero, suc, ◌+◌, ◌*◌, ◌/◌, ◌≤◌, ◌<◌, ◌≡◌, arith}
use ryzen_build.Base.{List, [], ◌∷◌, All, map, get_or, set, replicate, length, u32, u64, sub32}
use ryzen_build.Base.{leb, ltb, ◌==◌, ◌&&◌, if◌then◌else◌, length-set, get_or-set}
use ryzen_build.Dawnhex.Fixed.{dh_ppm, mip, mip_weights_ppm, dh_build_9_mips}
use ryzen_build.Dawnhex.Fixed.{dh_fill_fib22, simplex_levels}
use ryzen_build.Dawnhex.Fixed.Laws.{dh_clamp_u32_bounds, dh_clamp_u32-le, dh_mul_q16_lem}
use ryzen_build.Dawnhex.Types.{Pair, SimplexLevel, SimplexState}
use ryzen_build.Dawnhex.Simplex.{Sums, zero_sums, dh_duo_base_retained_ppm}
use ryzen_build.Dawnhex.Simplex.{node_retained, node_cross, node_cold, simplex_node, node_loop}
use ryzen_build.Dawnhex.Simplex.{simplex_level, level_loop, zero_level, simplex_of}
use ryzen_build.Dawnhex.Simplex.{min_retained_ppm, max_retained_ppm}

-- The range of a retained share, and of what it takes to the full million.
abbrev pub InRange : ℕ → ℕ → Type 0
InRange ret red =
    (min_retained_ppm ≤ ret)
    × (ret ≤ max_retained_ppm)
    × (dh_ppm ≤ ret + red + 1)
    × (ret + red ≤ dh_ppm)

abbrev pub MipInRange : ℕ → Type 0
MipInRange m = (1000 ≤ m) × (m ≤ dh_ppm)

pub record LevelInRange (l : SimplexLevel) : Type 0 where
  pub retained : InRange l.retained_ppm l.reduction_ppm
  pub crosshatch : l.crosshatch_ppm ≤ dh_ppm
  pub coldness : l.coldness_ppm ≤ dh_ppm
  pub energy : l.energy_ppm ≤ 58751
  pub mips : All MipInRange l.mip_retained_ppm

pub dh_duo_base_retained_ppm_bounds :
    (p : Pair)
    → (min_retained_ppm ≤ dh_duo_base_retained_ppm p)
      × (dh_duo_base_retained_ppm p ≤ max_retained_ppm)
unfolding dh_duo_base_retained_ppm
dh_duo_base_retained_ppm_bounds p = dh_clamp_u32_bounds _ _ _ (omega arith)

mip-MipInRange : (base w : ℕ) → MipInRange (mip base w)
unfolding mip
mip-MipInRange base w = ground arith

pub mips-MipInRange : (base : ℕ) → All MipInRange (dh_build_9_mips base)
unfolding dh_build_9_mips
mips-MipInRange base = over mip_weights_ppm
  where
    over : (ws : List ℕ) → All MipInRange (map (mip base) ws)
    over [] = tt
    over (w ∷ ws) = (mip-MipInRange base w, over ws)

-- The sums after `n` rounds of the inner loop.
record NodeSums (n : ℕ) (s : Sums) : Type 0 where
  low : n * 10200 ≤ s.ret
  high : s.ret ≤ n * 120000
  whole : s.ret + s.red ≡ n * 1000000
  cross : s.cross ≤ n * 1000000
  cold : s.cold ≤ n * 1000000
  energy : s.energy ≤ n * 58751

module _ (p : Pair) (base flags : ℕ) where
  retained_bounds :
      (w i n : ℕ)
      → (min_retained_ppm ≤ node_retained p base flags w i n)
        × (node_retained p base flags w i n ≤ max_retained_ppm)
  unfolding node_retained
  retained_bounds w i n = dh_clamp_u32_bounds _ _ _ (omega arith)

  cross-le : (n : ℕ) → node_cross p n ≤ dh_ppm
  unfolding node_cross
  cross-le n = dh_clamp_u32-le _ _ _ (omega arith)

  cold-le : (w n : ℕ) → node_cold p w n ≤ dh_ppm
  unfolding node_cold
  cold-le w n = dh_clamp_u32-le _ _ _ (omega arith)

  abbrev added : ℕ → ℕ → ℕ → Sums → Sums
  added w i n s =
      let x = simplex_node p base flags w i n in
      record {
        ret = u64 (s.ret + x.v);
        red = u64 (s.red + sub32 dh_ppm x.v);
        cross = u64 (s.cross + x.cross_ppm);
        cold = u64 (s.cold + x.cold_ppm);
        energy = u64 (s.energy + x.energy_ppm);
      }

  added-NodeSums : (w i n : ℕ) (s : Sums) → n < 12 → NodeSums n s → NodeSums (n + 1) (added w i n s)
  unfolding simplex_node
  added-NodeSums w i n s h inv = omega (
    arith,
    retained_bounds w i n,
    cross-le n,
    cold-le w n,
    dh_mul_q16_lem (node_retained p base flags w i n) 32086,
  )

  node_loop-NodeSums :
      (w i left n : ℕ) (s : Sums)
      → left + n ≤ 12
      → NodeSums n s
      → NodeSums (left + n) (node_loop p base flags w i left n s)
  unfolding node_loop simplex_node
  node_loop-NodeSums w i zero n s h inv = omega arith
  node_loop-NodeSums w i (suc left) n s h inv =
      let next : NodeSums (left + (n + 1))
          (node_loop p base flags w i left (n + 1) (added w i n s)) =
        node_loop-NodeSums w i left (n + 1) (added w i n s) (omega arith)
          (added-NodeSums w i n s (omega arith) inv) in
      omega (arith, next)

  simplex_level-LevelInRange :
      (fib : List ℕ) (total i : ℕ) → LevelInRange (simplex_level p base flags fib total i)
  unfolding simplex_level
  simplex_level-LevelInRange fib total i =
      let w = u32 (u64 (get_or fib i 0 * dh_ppm) / total) in
      let sums : NodeSums 12 (node_loop p base flags w i 12 0 zero_sums) =
        node_loop-NodeSums w i 12 0 zero_sums (omega arith) (omega arith) in
      record {
        retained = omega (arith, sums);
        crosshatch = omega (arith, sums);
        coldness = omega (arith, sums);
        energy = omega (arith, sums);
        mips = mips-MipInRange _;
      }

  -- The sums after `i` rounds of the outer loop.
  record LevelSums (i : ℕ) (s : Sums) : Type 0 where
    low : i * 10200 ≤ s.ret
    high : s.ret ≤ i * 120000
    whole_low : i * 999999 ≤ s.ret + s.red
    whole_high : s.ret + s.red ≤ i * 1000000
    cross : s.cross ≤ i * 1000000
    cold : s.cold ≤ i * 1000000
    energy : s.energy ≤ i * 58751

  module _ (fib : List ℕ) (total : ℕ) where
    abbrev level_added : ℕ → Sums → Sums
    level_added i s =
        let l = simplex_level p base flags fib total i in
        record {
          ret = u64 (s.ret + l.retained_ppm);
          red = u64 (s.red + l.reduction_ppm);
          cross = u64 (s.cross + l.crosshatch_ppm);
          cold = u64 (s.cold + l.coldness_ppm);
          energy = u64 (s.energy + l.energy_ppm);
        }

    level_loop-LevelSums :
        (left i : ℕ) (levels : List SimplexLevel) (s : Sums)
        → left + i ≤ 22
        → LevelSums i s
        → LevelSums (left + i) (level_loop p base flags fib total left i levels s).1
    unfolding level_loop
    level_loop-LevelSums zero i levels s h inv = omega arith
    level_loop-LevelSums (suc left) i levels s h inv =
        let l = simplex_level p base flags fib total i in
        let next =
          level_loop-LevelSums left (i + 1) (set levels i l) (level_added i s) (omega arith)
            (omega (arith, simplex_level-LevelInRange fib total i)) in
        omega (arith, next)

    -- Each round fills the slot of its own level and leaves the others alone.
    level_loop-levels :
        (left i j : ℕ) (levels : List SimplexLevel) (s : Sums)
        → left + i ≤ length levels
        → get_or (level_loop p base flags fib total left i levels s).0 j zero_level ≡ (
            if leb i j && ltb j (left + i)
            then simplex_level p base flags fib total j
            else get_or levels j zero_level)
    unfolding level_loop
    level_loop-levels zero i j levels s h = ground arith
    level_loop-levels (suc left) i j levels s h =
        let l = simplex_level p base flags fib total i in
        ground (
          arith,
          level_loop-levels left (i + 1) j (set levels i l) (level_added i s),
          length-set levels i l,
          get_or-set levels i j l zero_level,
        )

-- The slot of each level holds the figures of that level.
simplex_of-levels :
    (p : Pair) (i : ℕ)
    → i < simplex_levels
    → get_or (simplex_of p).levels i zero_level
      ≡ simplex_level p
          (dh_duo_base_retained_ppm p)
          3
          dh_fill_fib22.0
          (if dh_fill_fib22.1 == 0 then 1 else dh_fill_fib22.1)
          i
unfolding simplex_of
simplex_of-levels p i h =
    let total = if dh_fill_fib22.1 == 0 then 1 else dh_fill_fib22.1 in
    ground (
      arith,
      level_loop-levels p (dh_duo_base_retained_ppm p) 3 dh_fill_fib22.0 total 22 0 i
          (replicate simplex_levels zero_level) zero_sums,
    )

-- The figures of a whole ladder.
pub record SimplexInRange (x : SimplexState) : Type 0 where
  pub base_low : min_retained_ppm ≤ x.base_retained_ppm
  pub base_high : x.base_retained_ppm ≤ max_retained_ppm
  pub low : min_retained_ppm ≤ x.recursive_retained_ppm
  pub high : x.recursive_retained_ppm ≤ max_retained_ppm
  pub whole_low : 999998 ≤ x.recursive_retained_ppm + x.recursive_reduction_ppm
  pub whole_high : x.recursive_retained_ppm + x.recursive_reduction_ppm ≤ dh_ppm
  pub cross : x.recursive_crosshatch_ppm ≤ dh_ppm
  pub cold : x.recursive_coldness_ppm ≤ dh_ppm
  pub energy : x.recursive_energy_ppm ≤ 58751
  pub each_level : (i : ℕ) → i < simplex_levels → LevelInRange (get_or x.levels i zero_level)

-- For any contents of the pair, in its recomputed ladder: the base, the average and every level are
-- retained between 10200 and 120000; retained and reduced make up the million but for rounding; the
-- crosshatch and the coldness, on average and of each level, are at most a million, and the energy at
-- most 58751; and each level's retained mips are between 1000 and a million. Of the weight of a level
-- and of its pressure, which is the pair's, nothing is said.
pub simplex_of-SimplexInRange : (p : Pair) → SimplexInRange (simplex_of p)
unfolding simplex_of
simplex_of-SimplexInRange p =
    let base = dh_duo_base_retained_ppm p in
    let fib = dh_fill_fib22.0 in
    let total = if dh_fill_fib22.1 == 0 then 1 else dh_fill_fib22.1 in
    let zeros = replicate simplex_levels zero_level in
    let sums =
      level_loop-LevelSums p base 3 fib total 22 0 zeros zero_sums (omega arith) (omega arith) in
    let bounds = dh_duo_base_retained_ppm_bounds p in
    record {
      base_low = omega arith;
      base_high = omega arith;
      low = omega arith;
      high = omega arith;
      whole_low = omega arith;
      whole_high = omega arith;
      cross = omega arith;
      cold = omega arith;
      energy = omega arith;
      each_level =
          λ i h. rw (simplex_of-levels p i h) (simplex_level-LevelInRange p base 3 fib total i);
    }
