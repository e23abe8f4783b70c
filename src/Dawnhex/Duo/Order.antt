-- ===== src/Dawnhex/Duo/Order.antt =====
-- The operations on pairs keep the table in order.
use ryzen_build.Base.{ℕ, ◌+◌, ◌-◌, ◌^◌, ◌<◌, ◌≡◌, ◌≢◌, ◌⊎◌, inl, inr, refl, ◌∙◌, arith, u32}
use ryzen_build.Base.{◌==◌, if◌then◌else◌, none, some, Option-cases, length}
use ryzen_build.Base.{length-set, get_or-set}
use ryzen_build.Dawnhex.Types.{Node, Pair, zero_pair, State, Ret, ok, max_pairs}
use ryzen_build.Dawnhex.Simplex.{dh_duo_recompute_simplex}
use ryzen_build.Dawnhex.Fixed.{dh_clamp_u32}
use ryzen_build.Dawnhex.Nodes.{emit, node_at, dh_lookup_node}
use ryzen_build.Dawnhex.Duo.{pair_at, dh_duo_lookup_pair, dh_duo_add_pair, new_pair}
use ryzen_build.Dawnhex.Duo.{dh_duo_del_pair, dh_duo_pulse, pulsed_pair}
use ryzen_build.Dawnhex.Duo.{feed_back, dh_duo_emit_hooks}
use ryzen_build.Dawnhex.Duo.Table.{IsTable, dh_duo_lookup_pair_iff, pair_at-dh_duo_add_pair}
use ryzen_build.Dawnhex.Duo.Table.{pair_at-dh_duo_del_pair, length-shift_down}

pub pair_id-new_pair : (id a b mode : ℕ) → (new_pair id a b mode).pair_id ≡ id
unfolding new_pair
pair_id-new_pair id a b mode = refl

-- An operation on pairs that does not succeed leaves the state alone.
pub dh_duo_add_pair-unchanged :
    (s : State) (a b mode : ℕ)
    → ((dh_duo_add_pair s a b mode).1 ≡ ok) ⊎ ((dh_duo_add_pair s a b mode).0 ≡ s)
unfolding dh_duo_add_pair
dh_duo_add_pair-unchanged s a b mode = ground arith

-- Adding a pair keeps the table in order, as long as the ids have not run out.
pub dh_duo_add_pair-IsTable :
    (s : State) (a b mode : ℕ)
    → IsTable s
    → s.duo.next_pair_id + 1 < 2 ^ 32
    → IsTable (dh_duo_add_pair s a b mode).0
dh_duo_add_pair-IsTable s a b mode t room = elim (dh_duo_add_pair-unchanged s a b mode) [
  | inr same ↦ rw same t
  | inl h ↦
      let id = u32 (s.duo.next_pair_id + 1) in
      let at = λ (i : ℕ). pair_at-dh_duo_add_pair s t a b mode i h in
      record {
        slots = (at 0).2;
        fits = omega (arith, at 0);
        growing = λ i j p q.
            ground (arith, at i, at j, t.growing i j, t.given i, pair_id-new_pair id a b mode);
        given = λ i p. ground (arith, at i, t.given i, pair_id-new_pair id a b mode);
      }
]

pub dh_duo_del_pair_cases :
    (s : State) (id : ℕ)
    → ((dh_duo_lookup_pair s id ≡ none) × ((dh_duo_del_pair s id).0 ≡ s))
      ⊎ ((k : ℕ) × (dh_duo_lookup_pair s id ≡ some k)
          × ((dh_duo_del_pair s id).1 ≡ ok)
          × ((dh_duo_del_pair s id).0.duo.pair_count ≡ s.duo.pair_count - 1)
          × ((dh_duo_del_pair s id).0.duo.next_pair_id ≡ s.duo.next_pair_id)
          × (length (dh_duo_del_pair s id).0.duo.pairs ≡ length s.duo.pairs))
unfolding dh_duo_del_pair emit
dh_duo_del_pair_cases s id = elim (Option-cases (dh_duo_lookup_pair s id)) [
  | inl e ↦ inl (e, ground (arith, e))
  | inr (k, e) ↦ inr (
    k,
    e,
    ground (arith, e),
    ground (arith, e),
    ground (arith, e),
    ground (arith, e, length-shift_down s.duo.pairs k (s.duo.pair_count - k - 1)),
  )
]

-- Deleting a pair keeps the table in order.
pub dh_duo_del_pair-IsTable : (s : State) (id : ℕ) → IsTable s → IsTable (dh_duo_del_pair s id).0
dh_duo_del_pair-IsTable s id t = elim (dh_duo_del_pair_cases s id) [
  | inl (e, same) ↦ rw same t
  | inr (k, e, done, count, next, len) ↦
      let at = λ (i : ℕ). pair_at-dh_duo_del_pair s t id k i e in
      record {
        slots = len ∙ t.slots;
        fits = omega arith;
        growing = λ i j p q.
            ground
              (arith, at i, at j, t.growing i j, t.growing i (j + 1), t.growing (i + 1) (j + 1));
        given = λ i p. ground (arith, at i, t.given i, t.given (i + 1));
      }
]

-- What a pulse that succeeds does to the table: the slot of its pair is rewritten from the two
-- nodes, and no other slot changes.
pub pair_at-dh_duo_pulse :
    (s : State) (t : IsTable s) (id value i k : ℕ)
    → (dh_duo_pulse s id value).1 ≡ ok
    → dh_duo_lookup_pair s id ≡ some k
    → (pair_at (dh_duo_pulse s id value).0 i ≡ (
        if k == i
        then dh_duo_recompute_simplex (
            pulsed_pair
              (pair_at s k)
              (node_at s (pair_at s k).a)
              (node_at s (pair_at s k).b)
              (dh_clamp_u32 value 0 1000000))
        else pair_at s i))
      × ((dh_duo_pulse s id value).0.duo.pair_count ≡ s.duo.pair_count)
      × ((dh_duo_pulse s id value).0.duo.next_pair_id ≡ s.duo.next_pair_id)
      × (length (dh_duo_pulse s id value).0.duo.pairs ≡ max_pairs)
unfolding dh_duo_pulse dh_lookup_node emit feed_back dh_duo_emit_hooks
pair_at-dh_duo_pulse s t id value i k h e =
    let p = dh_duo_recompute_simplex (
      pulsed_pair (pair_at s k) (node_at s (pair_at s k).a) (node_at s (pair_at s k).b)
        (dh_clamp_u32 value 0 1000000)) in
    ground (
      arith,
      t.slots,
      t.fits,
      e,
      (dh_duo_lookup_pair_iff s id k t).0 e,
      get_or-set s.duo.pairs k i p zero_pair,
      length-set s.duo.pairs k p,
    )

pub pair_id-pulsed :
    (p : Pair) (na nb : Node) (v : ℕ)
    → (dh_duo_recompute_simplex (pulsed_pair p na nb v)).pair_id ≡ p.pair_id
unfolding dh_duo_recompute_simplex pulsed_pair
pair_id-pulsed p na nb v = refl

Ret-cases : (r : Ret) → (r ≡ ok) ⊎ (r ≢ ok)
Ret-cases r = ground arith

pub dh_duo_pulse_cases :
    (s : State) (id value : ℕ)
    → ((dh_duo_pulse s id value).0 ≡ s)
      ⊎ ((k : ℕ) × (dh_duo_lookup_pair s id ≡ some k) × ((dh_duo_pulse s id value).1 ≡ ok))
unfolding dh_duo_pulse
dh_duo_pulse_cases s id value = elim (Option-cases (dh_duo_lookup_pair s id)) [
  | inl e ↦ inl (ground (arith, e))
  | inr (k, e) ↦ pulsed k e
]
  where
    pulsed :
        (k : ℕ)
        → dh_duo_lookup_pair s id ≡ some k
        → ((dh_duo_pulse s id value).0 ≡ s)
          ⊎ ((k : ℕ) × (dh_duo_lookup_pair s id ≡ some k) × ((dh_duo_pulse s id value).1 ≡ ok))
    pulsed k e = elim (Ret-cases (dh_duo_pulse s id value).1) [
      | inl h ↦ inr (k, e, h)
      | inr h ↦ inl (ground (arith, e))
    ]

-- A pulse keeps the table in order: it changes no id.
pub dh_duo_pulse-IsTable :
    (s : State) (id value : ℕ) → IsTable s → IsTable (dh_duo_pulse s id value).0
dh_duo_pulse-IsTable s id value t = elim (dh_duo_pulse_cases s id value) [
  | inl same ↦ rw same t
  | inr (k, e, h) ↦
      let at = λ (i : ℕ). pair_at-dh_duo_pulse s t id value i k h e in
      record {
        slots = (at 0).3;
        fits = omega (arith, at 0, t.fits);
        growing = λ i j p q. ground (
          arith,
          at i,
          at j,
          t.growing i j,
          pair_id-pulsed (pair_at s k) (node_at s (pair_at s k).a) (node_at s (pair_at s k).b)
              (dh_clamp_u32 value 0 1000000),
        );
        given = λ i p. ground (
          arith,
          at i,
          t.given i,
          pair_id-pulsed (pair_at s k) (node_at s (pair_at s k).a) (node_at s (pair_at s k).b)
              (dh_clamp_u32 value 0 1000000),
        );
      }
]
