-- ===== src/Dawnhex/Tick/Laws.antt =====
-- What a tick of dawnhex_kmod.c does to the nodes, and where repeated ticks lead.
use ryzen_build.Base.{ℕ, zero, suc, ◌+◌, ◌-◌, ◌*◌, ◌≤◌, ◌<◌, ◌≡◌, refl, arith, min, max}
use ryzen_build.Base.{leb, ltb, ◌==◌, ◌&&◌, if◌then◌else◌}
use ryzen_build.Base.{length, length-set, get_or-set}
use ryzen_build.Base.Bits.{hweight, hweight-le}
use ryzen_build.Dawnhex.Types.{Node, zero_node, State, max_nodes}
use ryzen_build.Dawnhex.Nodes.{emit, node_at, bump}
use ryzen_build.Dawnhex.Tick.{ticked_node, tick_node, tick_loop, dh_tick_once}

-- A node after a tick: only one that is present and online changes.
unfoldable pub after_tick : Node → Node
after_tick n = if n.present && n.online then ticked_node n else n

tick_node_lem :
    (s : State) (i j : ℕ)
    → i < length s.nodes
    → (node_at (tick_node s i) j ≡ (if i == j then after_tick (node_at s j) else node_at s j))
      × (length (tick_node s i).nodes ≡ length s.nodes)
unfolding tick_node emit after_tick
tick_node_lem s i j h =
    let n = ticked_node (node_at s i) in
    ground (arith, get_or-set s.nodes i j n zero_node, length-set s.nodes i n)

tick_loop_lem :
    (left i j : ℕ) (s : State)
    → i + left ≤ length s.nodes
    → (node_at (tick_loop left i s) j
        ≡ (if leb i j && ltb j (i + left) then after_tick (node_at s j) else node_at s j))
      × (length (tick_loop left i s).nodes ≡ length s.nodes)
unfolding tick_loop
tick_loop_lem zero i j s h = (ground arith, refl)
tick_loop_lem (suc left) i j s h =
    let one = tick_node_lem s i j (omega arith) in
    let rest = tick_loop_lem left (i + 1) j (tick_node s i) (omega (arith, one)) in
    (ground (arith, one, rest), omega (arith, one, rest))

-- In a cluster of 64 slots, a tick takes each slot to its state after one tick.
pub node_at-dh_tick_once :
    (s : State) (i : ℕ)
    → length s.nodes ≡ max_nodes
    → i < max_nodes
    → (node_at (dh_tick_once s) i ≡ after_tick (node_at s i))
      × (length (dh_tick_once s).nodes ≡ max_nodes)
unfolding dh_tick_once
node_at-dh_tick_once s i slots h = ground (arith, tick_loop_lem 64 0 i (bump s))

-- A tick of a node with at most a million of energy adds 1000 and 5000 for each link, kept between
-- 10000 and a million, takes 250 off a health above 250000, and keeps its links.
pub ticked_node_lem :
    (n : Node)
    → n.energy_ppm ≤ 1000000
    → ((ticked_node n).energy_ppm
        ≡ max 10000 (min 1000000 (n.energy_ppm + 1000 + hweight 64 n.links_mask * 5000)))
      × ((ticked_node n).health_ppm
          ≡ (if ltb 250000 n.health_ppm then n.health_ppm - 250 else n.health_ppm))
      × ((ticked_node n).links_mask ≡ n.links_mask)
unfolding ticked_node
ticked_node_lem n h = ground (arith, hweight-le 64 n.links_mask)

-- `k` ticks of a node.
pub ticks : ℕ → Node → Node
ticks zero n = n
ticks (suc k) n = ticks k (ticked_node n)

-- A node with at most a million of energy that is ticked `k` times gains 1000 each time at least, up to a
-- million, and never has more than that.
pub energy-ticks :
    (k : ℕ) (n : Node)
    → n.energy_ppm ≤ 1000000
    → (min 1000000 (n.energy_ppm + k * 1000) ≤ (ticks k n).energy_ppm)
      × ((ticks k n).energy_ppm ≤ 1000000)
unfolding ticks
energy-ticks zero n h = omega arith
energy-ticks (suc k) n h =
    let one = ticked_node_lem n h in
    let rest = energy-ticks k (ticked_node n) (omega (arith, one)) in omega (arith, one, rest)
