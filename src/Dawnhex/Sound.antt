-- ===== src/Dawnhex/Sound.antt =====
-- The invariant of the whole state of dawnhex_kmod.c, and how it is carried from state to state.

pub mod Nodes
pub mod Pairs
pub mod Pulse
pub mod Ids
pub mod Entry
pub mod Run
use ryzen_build.Base.{ℕ, ◌≤◌, ◌<◌, ◌≡◌, refl, ◌∙◌, arith, length}
use ryzen_build.Dawnhex.Types.{Node, State, Pair, max_nodes}
use ryzen_build.Dawnhex.Events.Fifo.{IsValid}
use ryzen_build.Dawnhex.Simplex.Bounds.{SimplexInRange}
use ryzen_build.Dawnhex.Nodes.{node_at}
use ryzen_build.Dawnhex.Nodes.Links.{linked}
use ryzen_build.Dawnhex.Nodes.Wired.{IsWired}
use ryzen_build.Dawnhex.Duo.{pair_at}
use ryzen_build.Dawnhex.Duo.Table.{IsTable}

abbrev pub PowerInRange : Node → Type 0
PowerInRange n = (n.energy_ppm ≤ 1000000) × (n.health_ppm ≤ 1000000)

pub record PairInRange (p : Pair) : Type 0 where
  pub energy : p.energy_ppm ≤ 1000000
  pub pressure : p.pressure_ppm ≤ 1000000
  pub ladder : SimplexInRange p.simplex

-- The links are in order, no share of a node is above a million, the ring and the table of pairs
-- are in order, every pair in use has its figures in range, and the interval of the tick is from
-- 10 to 60000 ms.
pub record IsSound (s : State) : Type 0 where
  pub wired : IsWired s
  pub power : (i : ℕ) → i < max_nodes → PowerInRange (node_at s i)
  pub ring : IsValid s.ring
  pub table : IsTable s
  pub pairs : (i : ℕ) → i < s.duo.pair_count → PairInRange (pair_at s i)
  pub slow : 10 ≤ s.tick_ms
  pub quick : s.tick_ms ≤ 60000

-- Two states with the same links between the same nodes.
pub record SameLinks (s t : State) : Type 0 where
  pub slots : length t.nodes ≡ length s.nodes
  pub same :
      (i : ℕ)
      → i < max_nodes
      → ((node_at t i).links_mask ≡ (node_at s i).links_mask)
        × ((node_at t i).present ≡ (node_at s i).present)
        × ((node_at t i).id ≡ (node_at s i).id)

pub IsWired-SameLinks : {s t : State} → SameLinks s t → IsWired s → IsWired t
unfolding linked
IsWired-SameLinks k w = record {
  slots = k.slots ∙ w.slots;
  symmetric = λ i j hi hj. ground (arith, k.same i hi, k.same j hj, w.symmetric i j hi hj);
  irreflexive = λ i hi. ground (arith, k.same i hi, w.irreflexive i hi);
  ends_present = λ i j hi hj ne. ground (arith, k.same i hi, w.ends_present i j hi hj);
  own_id = λ i hi p. ground (arith, k.same i hi, w.own_id i hi);
}

pub IsWired_of_nodes : {s t : State} → t.nodes ≡ s.nodes → IsWired s → IsWired t
IsWired_of_nodes e w =
    IsWired-SameLinks (record { slots = rw e; same = λ i h. rw e (refl, refl, refl) }) w

pub IsTable_of_duo : {s t : State} → t.duo ≡ s.duo → IsTable s → IsTable t
IsTable_of_duo e t = record {
  slots = rw e t.slots;
  fits = rw e t.fits;
  growing = rw e t.growing;
  given = rw e t.given;
}
