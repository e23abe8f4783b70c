-- ===== src/Adalter/Types.antt =====
-- The structures of simplex_adalter_uapi.h and the state of simplex_adalter_kmod.c. A key is the
-- array of its 128 bytes.
use ryzen_build.Base.{ℕ, ◌-◌, ◌==◌, if◌then◌else◌}
use ryzen_build.Base.{List, [], ◌∷◌, ◌++◌, take, replicate, length}

abbrev pub max_levels : ℕ
max_levels = 22

abbrev pub max_nodes_per_level : ℕ
max_nodes_per_level = 12

abbrev pub key_len : ℕ
key_len = 128

pub record Cfg : Type 0 where
  pub version : ℕ
  pub recursion_levels : ℕ
  pub nodes_per_level : ℕ
  pub min_retained_ppm : ℕ
  pub max_retained_ppm : ℕ
  pub level_gain_ppm : ℕ
  pub node_gain_ppm : ℕ
  pub phase_gain_ppm : ℕ
  pub arm_q16 : ℕ
  pub adder_q16 : ℕ
  pub modifier_q16 : ℕ
  pub u_scalar_q16 : ℕ
  pub knot_q16 : ℕ
  pub flags : ℕ
  pub reserved : List ℕ

-- `struct simplex_adalter_base` and, below, `_level` and `_report`.
pub record PageBase : Type 0 where
  pub key : List ℕ
  pub final_base : ℕ
  pub retained_ppm : ℕ
  pub crosshatch_ppm : ℕ
  pub coldness_ppm : ℕ

pub record Level : Type 0 where
  pub level_index : ℕ
  pub fib_value : ℕ
  pub fib_weight_ppm : ℕ
  pub retained_ppm : ℕ
  pub reduction_ppm : ℕ
  pub crosshatch_ppm : ℕ
  pub coldness_ppm : ℕ
  pub energy_ppm : ℕ
  pub mip_retained_ppm : List ℕ

-- A level of the report after `memset`.
abbrev pub zero_level : Level
zero_level = record {
  level_index = 0;
  fib_value = 0;
  fib_weight_ppm = 0;
  retained_ppm = 0;
  reduction_ppm = 0;
  crosshatch_ppm = 0;
  coldness_ppm = 0;
  energy_ppm = 0;
  mip_retained_ppm = replicate 9 0;
}

pub record Report : Type 0 where
  pub key : List ℕ
  pub final_base : ℕ
  pub average_retained_ppm : ℕ
  pub average_reduction_ppm : ℕ
  pub average_crosshatch_ppm : ℕ
  pub average_coldness_ppm : ℕ
  pub recursive_energy_ppm : ℕ
  pub recursion_levels : ℕ
  pub nodes_per_level : ℕ
  pub levels : List Level

abbrev pub zero_report : Report
zero_report = record {
  key = replicate key_len 0;
  final_base = 0;
  average_retained_ppm = 0;
  average_reduction_ppm = 0;
  average_crosshatch_ppm = 0;
  average_coldness_ppm = 0;
  recursive_energy_ppm = 0;
  recursion_levels = 0;
  nodes_per_level = 0;
  levels = replicate max_levels zero_level;
}

pub record State : Type 0 where
  pub cfg : Cfg
  pub base : PageBase
  pub report : Report

-- The bytes before the first NUL.
abbrev pub c_string : List ℕ → List ℕ
c_string [] = []
c_string (c ∷ cs) = if c == 0 then [] else c ∷ c_string cs

-- An array of `key_len` zero bytes after `strscpy` of the string in `src`.
abbrev pub key_of : List ℕ → List ℕ
key_of src =
    let text = take (key_len - 1) (c_string src) in text ++ replicate (key_len - length text) 0
