-- ===== src/Dawnhex/Types.antt =====
-- The structures of dawnhex_kmod.c and its two headers. A text is the list of its bytes without
-- the closing NUL. The source declares the duo structures twice, and this is the fuller
-- declaration; it keeps the duo state as `g_dawnhex.duo`, which is a field here too.
use ryzen_build.Base.{ℕ, Bool, false, List, [], Option}
use ryzen_build.Dawnhex.Events.{EventRing}

abbrev pub Text : Type 0
Text = List ℕ

-- dawnhex_uapi.h and dawnhex_duo_uapi.h
abbrev pub max_nodes : ℕ
max_nodes = 64

abbrev pub name_len : ℕ
name_len = 32

abbrev pub max_pairs : ℕ
max_pairs = 128

abbrev pub nodes_per_level : ℕ
nodes_per_level = 12

-- `enum dawnhex_duo_mode`; a mode that comes from user space is any word.
abbrev pub inout_inout_out : ℕ
inout_inout_out = 1

abbrev pub inout_inout_in : ℕ
inout_inout_in = 2

abbrev pub crossed : ℕ
crossed = 3

pub record Node : Type 0 where
  pub id : ℕ
  pub name : Text
  pub present : Bool
  pub online : Bool
  pub energy_ppm : ℕ
  pub health_ppm : ℕ
  pub links_mask : ℕ

-- A node after `memset(n, 0, sizeof(*n))`.
abbrev pub zero_node : Node
zero_node = record {
  id = 0;
  name = [];
  present = false;
  online = false;
  energy_ppm = 0;
  health_ppm = 0;
  links_mask = 0;
}

pub record SimplexLevel : Type 0 where
  pub level_index : ℕ
  pub fib_value : ℕ
  pub fib_weight_ppm : ℕ
  pub node_count : ℕ
  pub retained_ppm : ℕ
  pub reduction_ppm : ℕ
  pub crosshatch_ppm : ℕ
  pub coldness_ppm : ℕ
  pub energy_ppm : ℕ
  pub pressure_ppm : ℕ
  pub mip_retained_ppm : List ℕ

pub record SimplexState : Type 0 where
  pub level_count : ℕ
  pub node_count : ℕ
  pub base_retained_ppm : ℕ
  pub recursive_retained_ppm : ℕ
  pub recursive_reduction_ppm : ℕ
  pub recursive_crosshatch_ppm : ℕ
  pub recursive_coldness_ppm : ℕ
  pub recursive_energy_ppm : ℕ
  pub flags : ℕ
  pub levels : List SimplexLevel

abbrev pub zero_simplex : SimplexState
zero_simplex = record {
  level_count = 0;
  node_count = 0;
  base_retained_ppm = 0;
  recursive_retained_ppm = 0;
  recursive_reduction_ppm = 0;
  recursive_crosshatch_ppm = 0;
  recursive_coldness_ppm = 0;
  recursive_energy_ppm = 0;
  flags = 0;
  levels = [];
}

pub record Pair : Type 0 where
  pub pair_id : ℕ
  pub a : ℕ
  pub b : ℕ
  pub mode : ℕ
  pub active : Bool
  pub quotient_ppm : ℕ
  pub refraction_ppm : ℕ
  pub energy_ppm : ℕ
  pub pressure_ppm : ℕ
  pub pulses : ℕ
  pub last_value_ppm : ℕ
  pub simplex : SimplexState

abbrev pub zero_pair : Pair
zero_pair = record {
  pair_id = 0;
  a = 0;
  b = 0;
  mode = 0;
  active = false;
  quotient_ppm = 0;
  refraction_ppm = 0;
  energy_ppm = 0;
  pressure_ppm = 0;
  pulses = 0;
  last_value_ppm = 0;
  simplex = zero_simplex;
}

pub record HookCtx : Type 0 where
  pub pair_id : ℕ
  pub a : ℕ
  pub b : ℕ
  pub mode : ℕ
  pub value_ppm : ℕ
  pub quotient_ppm : ℕ
  pub refraction_ppm : ℕ
  pub energy_ppm : ℕ
  pub pressure_ppm : ℕ
  pub simplex_base_retained_ppm : ℕ
  pub simplex_recursive_retained_ppm : ℕ
  pub simplex_recursive_reduction_ppm : ℕ
  pub simplex_recursive_energy_ppm : ℕ

-- A hook: `node` is its address, which names it in the list, and `fn` the address of its
-- function, `none` for NULL.
pub record Hook : Type 0 where
  pub node : ℕ
  pub name : Option Text
  pub fn : Option ℕ
  pub priv : ℕ

-- The calls `dh_emit_event_locked(format, ...)`: one constructor for each format, with the
-- arguments of the call. `blank` is the zeroed slot.
pub data Event : Type 0 where
  blank : Event
  add : ℕ → Text → Event
  del : ℕ → Event
  link unlink : ℕ → ℕ → Event
  tick : ℕ → ℕ → ℕ → ℕ → Event
  online energy health : ℕ → ℕ → Event
  interactive tick_ms : ℕ → Event
  snapshot : ℕ → ℕ → ℕ → Event
  help : Event
  duo_add : ℕ → ℕ → ℕ → ℕ → Event
  duo_del : ℕ → Event
  duo_pulse : ℕ → ℕ → ℕ → ℕ → Event
  duo_snapshot : ℕ → Event
  duo_hook_register duo_hook_unregister : Text → Event

pub record DuoState : Type 0 where
  pub pairs : List Pair
  pub pair_count : ℕ
  pub next_pair_id : ℕ
  pub hooks : List Hook

-- A call of a hook's function: its address, its context and `priv`.
pub record HookCall : Type 0 where
  pub fn : ℕ
  pub ctx : HookCtx
  pub priv : ℕ

-- `struct dawnhex_state`. `scheduled` says whether `tick_work` is queued, and `hook_calls` is the
-- trace of the calls out of the module, oldest first.
pub record State : Type 0 where
  pub ring : EventRing Event
  pub tick_ms : ℕ
  pub interactive : Bool
  pub generation : ℕ
  pub nodes : List Node
  pub duo : DuoState
  pub scheduled : Bool
  pub hook_calls : List HookCall

pub data Errno : Type 0 where
  einval eexist enoent enospc enotty efault : Errno

-- The `int` that an operation returns.
pub data Ret : Type 0 where
  ok : Ret
  err : Errno → Ret
