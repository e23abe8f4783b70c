-- ===== src/Dawnhex/Sound/Pairs.antt =====
-- The operations on duo pairs of dawnhex_kmod.c keep the state sound.
use ryzen_build.Base.{ℕ, ◌+◌, ◌^◌, ◌<◌, ◌≡◌, inl, inr, refl, arith, u32}
use ryzen_build.Base.{Bool, true, false, ltb, ◌==◌, if◌then◌else◌}
use ryzen_build.Dawnhex.Types.{Node, Pair, State, Event}
use ryzen_build.Dawnhex.Events.Fifo.{IsValid, push-IsValid}
use ryzen_build.Dawnhex.Simplex.{dh_duo_recompute_simplex}
use ryzen_build.Dawnhex.Simplex.Bounds.{simplex_of-SimplexInRange}
use ryzen_build.Dawnhex.Nodes.{emit}
use ryzen_build.Dawnhex.Duo.{pair_at, dh_duo_add_pair, dh_duo_del_pair}
use ryzen_build.Dawnhex.Duo.{pulsed_pair, new_pair}
use ryzen_build.Dawnhex.Duo.Table.{IsTable, pair_at-dh_duo_add_pair}
use ryzen_build.Dawnhex.Duo.Table.{pair_at-dh_duo_del_pair}
use ryzen_build.Dawnhex.Duo.Order.{dh_duo_add_pair-unchanged, dh_duo_add_pair-IsTable}
use ryzen_build.Dawnhex.Duo.Order.{dh_duo_del_pair_cases, dh_duo_del_pair-IsTable}
use ryzen_build.Dawnhex.Sound.{IsSound, PairInRange}
use ryzen_build.Dawnhex.Sound.{IsWired_of_nodes}

-- A new pair has its figures in range.
new_pair-PairInRange : (id a b mode : ℕ) → PairInRange (new_pair id a b mode)
unfolding new_pair
new_pair-PairInRange id a b mode = record {
  energy = omega arith;
  pressure = omega arith;
  ladder = simplex_of-SimplexInRange _;
}

-- So has a pulsed one.
pub pulsed_pair-PairInRange :
    (p : Pair) (na nb : Node) (value : ℕ)
    → PairInRange (dh_duo_recompute_simplex (pulsed_pair p na nb value))
unfolding pulsed_pair dh_duo_recompute_simplex
pulsed_pair-PairInRange p na nb value = record {
  energy = ground arith;
  pressure = ground arith;
  ladder = simplex_of-SimplexInRange _;
}

-- What an operation on pairs leaves alone, and that it keeps the ring in order.
record PairsOnly (s t : State) : Type 0 where
  nodes : t.nodes ≡ s.nodes
  tick_ms : t.tick_ms ≡ s.tick_ms
  ring : IsValid t.ring

pub ite-PairInRange :
    (b : Bool) {p q : Pair}
    → PairInRange p
    → (b ≡ false → PairInRange q)
    → PairInRange (if b then p else q)
ite-PairInRange true p q = p
ite-PairInRange false p q = q refl

module _ {s : State} (v : IsSound s) where
  IsSound-PairsOnly :
      {t : State}
      → PairsOnly s t
      → IsTable t
      → ((i : ℕ) → i < t.duo.pair_count → PairInRange (pair_at t i))
      → IsSound t
  IsSound-PairsOnly only table pairs = record {
    wired = IsWired_of_nodes only.nodes v.wired;
    power = rw (only.nodes) v.power;
    ring = only.ring;
    table = table;
    pairs = pairs;
    slow = rw (only.tick_ms) v.slow;
    quick = rw (only.tick_ms) v.quick;
  }

  unchanged : {t : State} → t ≡ s → (i : ℕ) → i < t.duo.pair_count → PairInRange (pair_at t i)
  unchanged same = rw same v.pairs

  add_only : (a b mode : ℕ) → PairsOnly s (dh_duo_add_pair s a b mode).0
  unfolding dh_duo_add_pair emit
  add_only a b mode =
      let id = u32 (s.duo.next_pair_id + 1) in
      ground (arith, v.ring, push-IsValid Event.blank v.ring (Event.duo_add id a b mode))

  pub dh_duo_add_pair-IsSound :
      (a b mode : ℕ) → s.duo.next_pair_id + 1 < 2 ^ 32 → IsSound (dh_duo_add_pair s a b mode).0
  dh_duo_add_pair-IsSound a b mode room =
      IsSound-PairsOnly (add_only a b mode) (dh_duo_add_pair-IsTable s a b mode v.table room)
        (λ i h. elim (dh_duo_add_pair-unchanged s a b mode) [
          | inl done ↦
              let at = pair_at-dh_duo_add_pair s v.table a b mode i done in
              rw (at.0) (
                ite-PairInRange (s.duo.pair_count == i) (new_pair-PairInRange _ a b mode)
                  (λ e. v.pairs i (ground (arith, e, at))))
          | inr same ↦ unchanged same i h
        ])

  del_only : (id : ℕ) → PairsOnly s (dh_duo_del_pair s id).0
  unfolding dh_duo_del_pair emit
  del_only id = ground (arith, v.ring, push-IsValid Event.blank v.ring (Event.duo_del id))

  pub dh_duo_del_pair-IsSound : (id : ℕ) → IsSound (dh_duo_del_pair s id).0
  dh_duo_del_pair-IsSound id =
      IsSound-PairsOnly (del_only id) (dh_duo_del_pair-IsTable s id v.table) (λ i h.
        elim (dh_duo_del_pair_cases s id) [
          | inl (e, same) ↦ unchanged same i h
          | inr (k, e, done, count, next, len) ↦
              rw (pair_at-dh_duo_del_pair s v.table id k i e (omega arith)) (
                ite-PairInRange (ltb i k) (v.pairs i (omega arith))
                  (λ _. v.pairs (i + 1) (omega arith)))
        ])
