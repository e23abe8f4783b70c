-- ===== src/Dawnhex/Tick.antt =====
-- The tick of dawnhex_kmod.c: `dh_tick_once_locked` and the work function that repeats it.
pub mod Laws
use ryzen_build.Base.{ℕ, zero, suc, ◌+◌, ◌-◌, ◌*◌, u32, ltb, if◌then◌else◌}
use ryzen_build.Base.{true, false, not, ◌||◌}
use ryzen_build.Base.Bits.{hweight}
use ryzen_build.Dawnhex.Fixed.{dh_clamp_u32}
use ryzen_build.Dawnhex.Types.{Node, State, Event, max_nodes}
use ryzen_build.Dawnhex.Nodes.{emit, node_at, set_node, bump}

-- A node after one tick.
unfoldable pub ticked_node : Node → Node
unfolding dh_clamp_u32
ticked_node n =
    let link_factor = u32 (hweight 64 n.links_mask * 5000) in
    record n {
      energy_ppm = dh_clamp_u32 (u32 (u32 (n.energy_ppm + 1000) + link_factor)) 10000 1000000;
      health_ppm = if ltb 250000 n.health_ppm then n.health_ppm - 250 else n.health_ppm;
    }

-- One round of the loop, at node `i`.
unfoldable pub tick_node : State → ℕ → State
unfolding ticked_node
tick_node s i =
    let n = node_at s i in
    let n' = ticked_node n in
    if not n.present || not n.online
    then s
    else emit (set_node s i n')
        (Event.tick n'.id n'.energy_ppm n'.health_ppm (hweight 64 n'.links_mask))

-- The loop at node `i`, with `left` rounds to go.
unfoldable pub tick_loop : ℕ → ℕ → State → State
tick_loop zero i s = s
tick_loop (suc left) i s = tick_loop left (i + 1) (tick_node s i)

unfoldable pub dh_tick_once : State → State
dh_tick_once s = tick_loop max_nodes 0 (bump s)

-- `dh_tick_workfn`, run by the work queue, which takes the work off the queue first.
unfoldable pub dh_tick_workfn : State → State
dh_tick_workfn s =
    let s1 = record s { scheduled = false } in
    let s2 = if s1.interactive then dh_tick_once s1 else s1 in
    if s2.interactive then record s2 { scheduled = true } else s2
