-- ===== src/Dawnhex/Sound/Pulse.antt =====
-- A pulse of dawnhex_kmod.c keeps the state sound, and what it feeds back into the nodes.
use ryzen_build.Dawnhex.Fixed.Laws.{dh_clamp_u32-le}
use ryzen_build.Base.{ℕ, ◌+◌, ◌%◌, ◌^◌, ◌/◌, ◌<◌, ◌≡◌, inl, inr, refl, arith, length, ◌==◌}
use ryzen_build.Dawnhex.Nodes.Wired.{IsWired}
use ryzen_build.Base.{ap, some, length-set, get_or-set}
use ryzen_build.Dawnhex.Types.{Node, Pair, zero_node, State, Event, ok, max_nodes}
use ryzen_build.Dawnhex.Events.Fifo.{IsValid, push-IsValid}
use ryzen_build.Dawnhex.Fixed.{dh_clamp_u32}
use ryzen_build.Dawnhex.Simplex.{dh_duo_recompute_simplex}
use ryzen_build.Dawnhex.Nodes.{node_at, emit, dh_lookup_node}
use ryzen_build.Dawnhex.Duo.{pair_at, dh_duo_lookup_pair, dh_duo_pulse, pulsed_pair, feed_back}
use ryzen_build.Dawnhex.Duo.{dh_duo_emit_hooks}
use ryzen_build.Dawnhex.Duo.Order.{dh_duo_pulse_cases, dh_duo_pulse-IsTable, pair_at-dh_duo_pulse}
use ryzen_build.Dawnhex.Sound.{IsSound, PowerInRange, IsWired-SameLinks}
use ryzen_build.Dawnhex.Sound.Nodes.{KeepsNode}
use ryzen_build.Dawnhex.Sound.Pairs.{pulsed_pair-PairInRange, ite-PairInRange}

feed_back_lem :
    (s : State) (k e i : ℕ)
    → length s.nodes ≡ max_nodes
    → k < max_nodes
    → PowerInRange (node_at s i)
    → KeepsNode (node_at s i) (node_at (feed_back s k e) i)
      × (length (feed_back s k e).nodes ≡ max_nodes)
unfolding feed_back
feed_back_lem s k e i slots h power =
    let n = node_at s k in
    let n' : Node = record n {
      energy_ppm = dh_clamp_u32 ((n.energy_ppm + e) % 2 ^ 32 / 2) 0 1000000;
    } in
    ground (
      arith,
      get_or-set s.nodes k i n' zero_node,
      length-set s.nodes k n',
      dh_clamp_u32-le ((n.energy_ppm + e) % 2 ^ 32 / 2) 0 1000000,
    )

-- What feeding back leaves of the state.
ring_of_feed_back :
    (s : State) (k e : ℕ)
    → ((feed_back s k e).ring ≡ s.ring) × ((feed_back s k e).tick_ms ≡ s.tick_ms)
unfolding feed_back
ring_of_feed_back s k e = (refl, refl)

energy_kept : (p : Pair) → (dh_duo_recompute_simplex p).energy_ppm ≡ p.energy_ppm
unfolding dh_duo_recompute_simplex
energy_kept p = refl

-- The energy that a pulse with the value `value` gives the pair in slot `k`.
abbrev pulse_energy : State → ℕ → ℕ → ℕ
pulse_energy s k value =
    let p = pair_at s k in
    (pulsed_pair p (node_at s p.a) (node_at s p.b) (dh_clamp_u32 value 0 1000000)).energy_ppm

pulse_lem :
    (s : State) (id value k : ℕ)
    → IsValid s.ring
    → (dh_duo_pulse s id value).1 ≡ ok
    → dh_duo_lookup_pair s id ≡ some k
    → ((pair_at s k).a < max_nodes)
      × ((pair_at s k).b < max_nodes)
      × ((dh_duo_pulse s id value).0.nodes
          ≡ (feed_back
              (feed_back s (pair_at s k).a (pulse_energy s k value))
              (pair_at s k).b
              (pulse_energy s k value)).nodes)
      × ((dh_duo_pulse s id value).0.tick_ms ≡ s.tick_ms)
      × IsValid (dh_duo_pulse s id value).0.ring
unfolding dh_duo_pulse dh_lookup_node emit dh_duo_emit_hooks
pulse_lem s id value k v h e =
    let p = pair_at s k in
    let p' =
      dh_duo_recompute_simplex
        (pulsed_pair p (node_at s p.a) (node_at s p.b) (dh_clamp_u32 value 0 1000000)) in
    ground (
      arith,
      e,
      ring_of_feed_back s p.a (pulse_energy s k value),
      ring_of_feed_back (feed_back s p.a (pulse_energy s k value)) p.b (pulse_energy s k value),
      energy_kept (pulsed_pair p (node_at s p.a) (node_at s p.b) (dh_clamp_u32 value 0 1000000)),
      push-IsValid Event.blank v
          (Event.duo_pulse p'.pair_id p'.last_value_ppm p'.energy_ppm p'.pressure_ppm),
    )

-- A pulse keeps the state sound.
pub dh_duo_pulse-IsSound :
    {s : State} → IsSound s → (id value : ℕ) → IsSound (dh_duo_pulse s id value).0
dh_duo_pulse-IsSound {s} v id value = elim (dh_duo_pulse_cases s id value) [
  | inl same ↦ rw same v
  | inr (k, e, h) ↦
      let s' = (dh_duo_pulse s id value).0 in
      let p = pair_at s k in
      let x = pulse_energy s k value in
      let all = pulse_lem s id value k v.ring h e in
      let first = λ (i : ℕ) (hi : i < max_nodes).
        feed_back_lem s p.a x i v.wired.slots all.0 (v.power i hi) in
      let second = λ (i : ℕ) (hi : i < max_nodes).
        feed_back_lem (feed_back s p.a x) p.b x i (first i hi).1 all.1 (first i hi).0.3 in
      let wired : IsWired s' =
        IsWired-SameLinks
          (record {
            slots = omega (arith, ap length (all.2), second 0 (omega arith), v.wired.slots);
            same = λ i hi. rw (all.2) (ground (arith, first i hi, second i hi));
          })
          v.wired in
      record {
        wired = wired;
        power = λ i hi. rw (all.2) ((second i hi).0.3);
        ring = all.4;
        table = dh_duo_pulse-IsTable s id value v.table;
        pairs = λ i hi.
            let at = pair_at-dh_duo_pulse s v.table id value i k h e in
            rw (at.0) (
              ite-PairInRange (k == i) (pulsed_pair-PairInRange p _ _ _)
                (λ _. v.pairs i (omega (arith, at))));
        slow = omega (arith, all.3, v.slow);
        quick = omega (arith, all.3, v.quick);
      }
]
