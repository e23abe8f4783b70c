-- ===== src/Adalter/Device.antt =====
-- The device file and the attributes of simplex_adalter_kmod.c: the ioctls, the key that can be
-- written, and the set-up of the module. Work that is queued is flushed at once, so it is a call.
pub mod Current
pub mod Run
use ryzen_build.Base.{ℕ, ◌-◌, ◌+◌, ltb, ◌==◌, if◌then◌else◌, min, bit_or}
use ryzen_build.Base.{Bool, true, false, not, ◌||◌, ◌&&◌, Option, none, some}
use ryzen_build.Base.{◌⊎◌, inl, inr}
use ryzen_build.Base.{List, [], ◌∷◌, ◌++◌, get_or, set, take, length, replicate}
use ryzen_build.Adalter.Types.{Cfg, PageBase, Report, zero_report, State, key_of, key_len}
use ryzen_build.Adalter.Types.{max_levels, max_nodes_per_level}
use ryzen_build.Adalter.Report.{sa_recompute, simplex_flag_supercompute, simplex_flag_chip_relay}

pub data Errno : Type 0 where
  einval : Errno
  efault : Errno
  enotty : Errno
  enomem : Errno

-- The ioctls, with what is copied in.
pub data Ioctl : Type 0 where
  set_cfg : Cfg → Ioctl
  get_cfg : Ioctl
  run_base : PageBase → Ioctl
  get_report : Ioctl
  unknown_ioctl : Ioctl

-- What an ioctl returns, with what it copies out.
pub data Reply : Type 0 where
  done : Reply
  cfg_out : Cfg → Reply
  report_out : Report → Reply
  error : Errno → Reply

-- The three guards of SET_CFG.
unfoldable pub accepts : Cfg → Bool
accepts c =
    (c.version == 1)
    && (not (c.recursion_levels == 0 || ltb max_levels c.recursion_levels)
        && not (c.nodes_per_level == 0 || ltb max_nodes_per_level c.nodes_per_level))

-- `readable` and `writable` say whether the copies from and to user space succeed.
unfoldable pub simplex_ioctl : State → Ioctl → Bool → Bool → State × Reply
unfolding sa_recompute
simplex_ioctl s (set_cfg c) readable writable =
    if not readable
    then (s, error efault)
    else if not (accepts c)
    then (s, error einval)
    else (sa_recompute (record s { cfg = c }), done)
simplex_ioctl s get_cfg readable writable = (s, if writable then cfg_out s.cfg else error efault)
simplex_ioctl s (run_base b) readable writable =
    if not readable
    then (s, error efault)
    else (sa_recompute (record s { base = record b { key = set b.key (key_len - 1) 0 } }), done)
simplex_ioctl s get_report readable writable =
    (s, if writable then report_out s.report else error efault)
simplex_ioctl s unknown_ioctl readable writable = (s, error enotty)

-- The array that `last_key_store` fills: at most 127 bytes, a final newline dropped.
unfoldable pub stored_key : List ℕ → List ℕ
stored_key buf =
    let n = min (length buf) (key_len - 1) in
    let key = take n buf ++ replicate (key_len - n) 0 in
    if not (n == 0) && (get_or key (n - 1) 0 == 10) then set key (n - 1) 0 else key

unfoldable pub last_key_store : State → List ℕ → State
unfolding stored_key sa_recompute
last_key_store s buf = sa_recompute (record s { base = record (s.base) { key = stored_key buf } })

-- The parameters of the module, by the names of the C variables.
pub record Params : Type 0 where
  pub recursion_levels : ℕ
  pub nodes_per_level : ℕ
  pub min_retained_ppm : ℕ
  pub max_retained_ppm : ℕ
  pub arm_q16 : ℕ
  pub adder_q16 : ℕ
  pub modifier_q16 : ℕ
  pub u_scalar_q16 : ℕ
  pub knot_q16 : ℕ
  pub level_gain_ppm : ℕ
  pub node_gain_ppm : ℕ
  pub phase_gain_ppm : ℕ
  pub supercompute_switcher : Bool
  pub chip_relay : Bool

abbrev pub default_params : Params
default_params = record {
  recursion_levels = 22;
  nodes_per_level = 12;
  min_retained_ppm = 10200;
  max_retained_ppm = 120000;
  arm_q16 = 77857;
  adder_q16 = 27525;
  modifier_q16 = 67830;
  u_scalar_q16 = 114688;
  knot_q16 = 32086;
  level_gain_ppm = 144000;
  node_gain_ppm = 21000;
  phase_gain_ppm = 10200;
  supercompute_switcher = true;
  chip_relay = true;
}

-- The configuration that `simplex_init` makes of the parameters.
unfoldable pub cfg_of : Params → Cfg
cfg_of p = record {
  version = 1;
  recursion_levels = p.recursion_levels;
  nodes_per_level = p.nodes_per_level;
  min_retained_ppm = p.min_retained_ppm;
  max_retained_ppm = p.max_retained_ppm;
  level_gain_ppm = p.level_gain_ppm;
  node_gain_ppm = p.node_gain_ppm;
  phase_gain_ppm = p.phase_gain_ppm;
  arm_q16 = p.arm_q16;
  adder_q16 = p.adder_q16;
  modifier_q16 = p.modifier_q16;
  u_scalar_q16 = p.u_scalar_q16;
  knot_q16 = p.knot_q16;
  flags =
      bit_or (if p.supercompute_switcher then simplex_flag_supercompute else 0)
        (if p.chip_relay then simplex_flag_chip_relay else 0);
  reserved = replicate 4 0;
}

-- "DAWNSTAR:page-0001"
abbrev pub first_key : List ℕ
first_key =
    68 ∷ 65 ∷ 87 ∷ 78 ∷ 83 ∷ 84 ∷ 65 ∷ 82 ∷ 58 ∷ 112 ∷ 97 ∷ 103 ∷ 101 ∷ 45 ∷ 48 ∷ 48 ∷ 48 ∷ 49 ∷ []

-- What `simplex_init` returns: the state of the loaded module, or an error. `allocated` says
-- whether there is a work queue, and `registered` holds the error of `misc_register`.
unfoldable pub simplex_init : Params → Bool → Option Errno → State ⊎ Errno
unfolding cfg_of sa_recompute
simplex_init p allocated registered = if not allocated then inr enomem else elim registered [
  | some e ↦ inr e
  | none ↦ inl (
      sa_recompute (record {
        cfg = cfg_of p;
        base = record {
          key = key_of first_key;
          final_base = 253821252;
          retained_ppm = 10200;
          crosshatch_ppm = 812500;
          coldness_ppm = 904400;
        };
        report = zero_report;
      }))
]
