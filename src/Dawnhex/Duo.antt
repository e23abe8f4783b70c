-- ===== src/Dawnhex/Duo.antt =====
-- The duo pairs of dawnhex_kmod.c: hooks, lookup, add, delete and pulse.
pub mod Table
pub mod Order
pub mod Map
use ryzen_build.Base.{ℕ, zero, suc, ◌+◌, ◌-◌, ◌/◌, u32, sub32, leb, ◌==◌, if◌then◌else◌}
use ryzen_build.Base.{true, not, Option, none, some}
use ryzen_build.Base.{List, [], ◌∷◌, ◌++◌, get_or, set}
use ryzen_build.Dawnhex.Fixed.{dh_clamp_u32}
use ryzen_build.Dawnhex.Simplex.{dh_duo_recompute_simplex}
use ryzen_build.Dawnhex.Types.{Text, Node, Pair, zero_pair, State, Event, Ret, ok, err}
use ryzen_build.Dawnhex.Types.{Hook, HookCtx, HookCall, max_pairs}
use ryzen_build.Dawnhex.Types.{inout_inout_out, inout_inout_in, crossed}
use ryzen_build.Dawnhex.Types.Errno.{einval, enoent, enospc}
use ryzen_build.Dawnhex.Nodes.{emit, node_at, set_node, dh_lookup_node}

unfoldable pub dh_duo_default_quotient_ppm : ℕ → ℕ
dh_duo_default_quotient_ppm mode =
    if mode == inout_inout_out
    then 1000000
    else if mode == inout_inout_in
    then 1000000
    else if mode == crossed
    then 1250000
    else 0

unfoldable pub dh_duo_default_refraction_ppm : ℕ → ℕ
dh_duo_default_refraction_ppm mode =
    if mode == inout_inout_out
    then 1010200
    else if mode == inout_inout_in
    then 1020300
    else if mode == crossed
    then 1044400
    else 1000000

abbrev pub pair_at : State → ℕ → Pair
pair_at s i = get_or s.duo.pairs i zero_pair

abbrev pub set_pair : State → ℕ → Pair → State
set_pair s i p = record s { duo = record (s.duo) { pairs = set s.duo.pairs i p } }

-- The loop of `dh_duo_lookup_pair_locked` at index `i`: the slot of the first pair with that id
-- among the `left` slots from `i` on. The pointer that the C code returns is that slot.
unfoldable pub find_pair : List Pair → ℕ → ℕ → ℕ → Option ℕ
find_pair pairs zero i pair_id = none
find_pair pairs (suc left) i pair_id =
    if (get_or pairs i zero_pair).pair_id == pair_id
    then some i
    else find_pair pairs left (i + 1) pair_id

unfoldable pub dh_duo_lookup_pair : State → ℕ → Option ℕ
unfolding find_pair
dh_duo_lookup_pair s pair_id = find_pair s.duo.pairs s.duo.pair_count 0 pair_id

-- `dh_duo_emit_hooks_locked`: every hook with a function is called, in the order of the list.
unfoldable pub hook_calls_of : HookCtx → List Hook → List HookCall
hook_calls_of ctx [] = []
hook_calls_of ctx (h ∷ hs) = elim h.fn [
  | none ↦ hook_calls_of ctx hs
  | some f ↦ record { fn = f; ctx = ctx; priv = h.priv } ∷ hook_calls_of ctx hs
]

unfoldable pub dh_duo_emit_hooks : State → HookCtx → State
unfolding hook_calls_of
dh_duo_emit_hooks s ctx = record s { hook_calls = s.hook_calls ++ hook_calls_of ctx s.duo.hooks }

-- The pair that `dh_duo_add_pair_locked` writes.
unfoldable pub new_pair : ℕ → ℕ → ℕ → ℕ → Pair
unfolding dh_duo_default_quotient_ppm dh_duo_default_refraction_ppm dh_duo_recompute_simplex
new_pair pair_id a b mode = dh_duo_recompute_simplex (record zero_pair {
  pair_id = pair_id;
  a = a;
  b = b;
  mode = mode;
  active = true;
  quotient_ppm = dh_duo_default_quotient_ppm mode;
  refraction_ppm = dh_duo_default_refraction_ppm mode;
  energy_ppm = 500000;
  pressure_ppm = 500000;
})

-- The result is beside the id that goes through `out_pair_id`, on success.
unfoldable pub dh_duo_add_pair : State → ℕ → ℕ → ℕ → State × Ret × ℕ
dh_duo_add_pair s a b mode =
    if leb max_pairs s.duo.pair_count
    then (s, err enospc, 0)
    else if a == b
    then (s, err einval, 0)
    else elim (dh_lookup_node s a) [
      | none ↦ (s, err enoent, 0)
      | some na ↦ elim (dh_lookup_node s b) [
        | none ↦ (s, err enoent, 0)
        | some nb ↦
            let id = u32 (s.duo.next_pair_id + 1) in
            let duo = record (s.duo) {
              pairs = set s.duo.pairs s.duo.pair_count (new_pair id a b mode);
              pair_count = u32 (s.duo.pair_count + 1);
              next_pair_id = id;
            } in
            (emit (record s { duo = duo }) (Event.duo_add id a b mode), ok, id)
      ]
    ]

-- `memmove` of the `n` slots from `i + 1` on to the slots from `i` on.
unfoldable pub shift_down : List Pair → ℕ → ℕ → List Pair
shift_down pairs i zero = pairs
shift_down pairs i (suc n) = shift_down (set pairs i (get_or pairs (i + 1) zero_pair)) (i + 1) n

unfoldable pub dh_duo_del_pair : State → ℕ → State × Ret
unfolding dh_duo_lookup_pair
dh_duo_del_pair s pair_id = elim (find_pair s.duo.pairs s.duo.pair_count 0 pair_id) [
  | none ↦ (s, err enoent)
  | some i ↦
      let duo = record (s.duo) {
        pairs = shift_down s.duo.pairs i (s.duo.pair_count - i - 1);
        pair_count = s.duo.pair_count - 1;
      } in
      (emit (record s { duo = duo }) (Event.duo_del pair_id), ok)
]

-- The context that a pulse hands to the hooks.
abbrev pub pulse_ctx : Pair → HookCtx
pulse_ctx p = record {
  pair_id = p.pair_id;
  a = p.a;
  b = p.b;
  mode = p.mode;
  value_ppm = p.last_value_ppm;
  quotient_ppm = p.quotient_ppm;
  refraction_ppm = p.refraction_ppm;
  energy_ppm = p.energy_ppm;
  pressure_ppm = p.pressure_ppm;
  simplex_base_retained_ppm = p.simplex.base_retained_ppm;
  simplex_recursive_retained_ppm = p.simplex.recursive_retained_ppm;
  simplex_recursive_reduction_ppm = p.simplex.recursive_reduction_ppm;
  simplex_recursive_energy_ppm = p.simplex.recursive_energy_ppm;
}

-- The fields of the pair that a pulse writes before the ladder is recomputed.
unfoldable pub pulsed_pair : Pair → Node → Node → ℕ → Pair
unfolding dh_clamp_u32
pulsed_pair p na nb value =
    let base_energy = u32 (na.energy_ppm + nb.energy_ppm) / 2 in
    let base_pressure = u32 (na.health_ppm + nb.health_ppm) / 2 in
    record p {
      last_value_ppm = value;
      pulses = u32 (p.pulses + 1);
      energy_ppm = dh_clamp_u32 (u32 (base_energy + value) / 2) 0 1000000;
      pressure_ppm = dh_clamp_u32 (u32 (base_pressure + sub32 1000000 value) / 2) 0 1000000;
    }

-- `n->energy_ppm = clamp((n->energy_ppm + p->energy_ppm) / 2)` through the pointer to node `i`.
unfoldable pub feed_back : State → ℕ → ℕ → State
unfolding dh_clamp_u32
feed_back s i energy =
    let n = node_at s i in
    set_node s i
      (record n { energy_ppm = dh_clamp_u32 (u32 (n.energy_ppm + energy) / 2) 0 1000000 })

unfoldable pub dh_duo_pulse : State → ℕ → ℕ → State × Ret
dh_duo_pulse s pair_id value_ppm = elim (dh_duo_lookup_pair s pair_id) [
  | none ↦ (s, err enoent)
  | some k ↦
      let p = pair_at s k in
      if not p.active then (s, err enoent) else elim (dh_lookup_node s p.a) [
        | none ↦ (s, err enoent)
        | some na ↦ elim (dh_lookup_node s p.b) [
          | none ↦ (s, err enoent)
          | some nb ↦
              let value = dh_clamp_u32 value_ppm 0 1000000 in
              let p' = pulsed_pair p na nb value in
              let p'' = dh_duo_recompute_simplex p' in
              let s' = feed_back (feed_back s p.a p'.energy_ppm) p.b p'.energy_ppm in
              let called = dh_duo_emit_hooks (set_pair s' k p'') (pulse_ctx p'') in
              (
                emit called (
                    Event.duo_pulse p''.pair_id p''.last_value_ppm p''.energy_ppm p''.pressure_ppm),
                ok,
              )
        ]
      ]
]

-- The name that the event of an unregistered hook shows.
abbrev pub hook_name : Option Text → Text
hook_name none = b'u' ∷ b'n' ∷ b'k' ∷ b'n' ∷ b'o' ∷ b'w' ∷ b'n' ∷ []
hook_name (some t) = t

-- `none` is a NULL hook.
unfoldable pub dawnhex_duo_hook_register : State → Option Hook → State × Ret
dawnhex_duo_hook_register s none = (s, err einval)
dawnhex_duo_hook_register s (some h) = elim h.fn [
  | none ↦ (s, err einval)
  | some f ↦ elim h.name [
    | none ↦ (s, err einval)
    | some name ↦
        let duo = record (s.duo) { hooks = s.duo.hooks ++ (h ∷ []) } in
        (emit (record s { duo = duo }) (Event.duo_hook_register name), ok)
  ]
]

-- `list_del_init`: the entry with that address leaves the list.
unfoldable pub unlink_hook : ℕ → List Hook → List Hook
unlink_hook node [] = []
unlink_hook node (h ∷ hs) = if h.node == node then hs else h ∷ unlink_hook node hs

unfoldable pub dawnhex_duo_hook_unregister : State → Option Hook → State
unfolding unlink_hook
dawnhex_duo_hook_unregister s none = s
dawnhex_duo_hook_unregister s (some h) =
    let duo = record (s.duo) { hooks = unlink_hook h.node s.duo.hooks } in
    emit (record s { duo = duo }) (Event.duo_hook_unregister (hook_name h.name))
