-- ===== src/Dawnhex/Duo/Map.antt =====
-- The table of duo pairs refines a finite map from ids to pairs.
use ryzen_build.Base.{ℕ, ◌+◌, ◌-◌, ◌^◌, ◌<◌, ◌≡◌, ◌≢◌, ◌⊎◌, inl, inr, ◌∙◌, sym, arith}
use ryzen_build.Base.{ltb, ◌==◌, if◌then◌else◌, Option, none, some, Option-cases, Bool-cases}
use ryzen_build.Dawnhex.Types.{Pair, State, ok}
use ryzen_build.Dawnhex.Simplex.{dh_duo_recompute_simplex}
use ryzen_build.Dawnhex.Fixed.{dh_clamp_u32}
use ryzen_build.Dawnhex.Nodes.{node_at}
use ryzen_build.Dawnhex.Duo.{pair_at, dh_duo_lookup_pair, dh_duo_add_pair, new_pair}
use ryzen_build.Dawnhex.Duo.{dh_duo_del_pair, dh_duo_pulse, pulsed_pair}
use ryzen_build.Dawnhex.Duo.Table.{IsTable, dh_duo_lookup_pair_iff, pair_at-dh_duo_add_pair}
use ryzen_build.Dawnhex.Duo.Table.{pair_at-dh_duo_del_pair}
use ryzen_build.Dawnhex.Duo.Order.{dh_duo_add_pair-IsTable, dh_duo_del_pair-IsTable}
use ryzen_build.Dawnhex.Duo.Order.{dh_duo_pulse-IsTable, dh_duo_del_pair_cases, pair_id-new_pair}
use ryzen_build.Dawnhex.Duo.Order.{pair_id-pulsed, pair_at-dh_duo_pulse}

-- The pair that an id stands for.
unfoldable pub pair_of : State → ℕ → Option Pair
pair_of s id = elim (dh_duo_lookup_pair s id) [ none ↦ none | some k ↦ some (pair_at s k) ]

module _ (s : State) (t : IsTable s) (id : ℕ) where
  pair_of-some :
      (k : ℕ)
      → k < s.duo.pair_count
      → (pair_at s k).pair_id ≡ id
      → pair_of s id ≡ some (pair_at s k)
  unfolding pair_of
  pair_of-some k h e = ground (arith, (dh_duo_lookup_pair_iff s id k t).1 (h, e))

  -- Either no slot in use has the id, or one has and holds the pair.
  pair_of_cases :
      ((pair_of s id ≡ none) × ((k : ℕ) → k < s.duo.pair_count → (pair_at s k).pair_id ≢ id))
      ⊎ ((k : ℕ) × (k < s.duo.pair_count)
          × ((pair_at s k).pair_id ≡ id)
          × (pair_of s id ≡ some (pair_at s k)))
  unfolding pair_of
  pair_of_cases = elim (Option-cases (dh_duo_lookup_pair s id)) [
    | inl e ↦
        inl (
          ground (arith, e),
          λ k h q. ground (arith, e, (dh_duo_lookup_pair_iff s id k t).1 (h, q)),
        )
    | inr (k, e) ↦
        let at = (dh_duo_lookup_pair_iff s id k t).0 e in inr (k, at.0, at.1, ground (arith, e))
  ]

pair_of-none : (s : State) (j : ℕ) → dh_duo_lookup_pair s j ≡ none → pair_of s j ≡ none
unfolding pair_of
pair_of-none s j e = ground (arith, e)

-- Two tables hold the same pair for an id if each pair of one with that id is a pair of the other.
pair_of_ext :
    (s s' : State) (id : ℕ)
    → IsTable s
    → IsTable s'
    → ((k : ℕ)
        → k < s.duo.pair_count
        → (pair_at s k).pair_id ≡ id
        → (k' : ℕ) × (k' < s'.duo.pair_count) × (pair_at s' k' ≡ pair_at s k))
    → ((k' : ℕ)
        → k' < s'.duo.pair_count
        → (pair_at s' k').pair_id ≡ id
        → (k : ℕ) × (k < s.duo.pair_count) × (pair_at s k ≡ pair_at s' k'))
    → pair_of s' id ≡ pair_of s id
pair_of_ext s s' id t t' there back = elim (pair_of_cases s t id) [
  | inl (e, no_slot) ↦ elim (pair_of_cases s' t' id) [
    | inl (e', no_slot') ↦ e' ∙ sym e
    | inr (k', h, q, e') ↦ let (k, hk, same) = back k' h q in absurd (no_slot k hk (rw same q))
  ]
  | inr (k, h, q, e) ↦
      let (k', hk, same) = there k h q in pair_of-some s' t' id k' hk (rw same q) ∙ rw same (sym e)
]

-- On a table in order with an id left to give, adding a pair with success sets the map at the new
-- id to the new pair, and changes it nowhere else.
pub pair_of-dh_duo_add_pair :
    (s : State) (a b mode id : ℕ)
    → IsTable s
    → s.duo.next_pair_id + 1 < 2 ^ 32
    → (dh_duo_add_pair s a b mode).1 ≡ ok
    → pair_of (dh_duo_add_pair s a b mode).0 id ≡ (
        if s.duo.next_pair_id + 1 == id
        then some (new_pair (s.duo.next_pair_id + 1) a b mode)
        else pair_of s id)
pair_of-dh_duo_add_pair s a b mode id t room h = elim (Bool-cases (s.duo.next_pair_id + 1 == id)) [
  | inl e ↦ ground (arith, e, at s.duo.pair_count, pair_of-some s' t' id s.duo.pair_count, new_id)
  | inr e ↦ rw e (
      pair_of_ext s s' id t t' (λ k hk q. (k, ground (arith, at k), ground (arith, at k)))
        (λ k hk q. (k, ground (arith, at k, new_id), ground (arith, at k, new_id))))
]
  where
    s' : State
    s' = (dh_duo_add_pair s a b mode).0

    t' : IsTable s'
    t' = dh_duo_add_pair-IsTable s a b mode t room

    at :
        (i : ℕ)
        → (pair_at s' i ≡ (
            if s.duo.pair_count == i
            then new_pair (s.duo.next_pair_id + 1) a b mode
            else pair_at s i))
          × (s'.duo.pair_count ≡ s.duo.pair_count + 1)
    at i = ground (arith, pair_at-dh_duo_add_pair s t a b mode i h)

    new_id : (new_pair (s.duo.next_pair_id + 1) a b mode).pair_id ≡ s.duo.next_pair_id + 1
    new_id = pair_id-new_pair _ a b mode

-- A deletion that found slot `k`.
module _ (s : State) (t : IsTable s) (id k : ℕ) (found : dh_duo_lookup_pair s id ≡ some k)
    (count : (dh_duo_del_pair s id).0.duo.pair_count ≡ s.duo.pair_count - 1) where
  slot : (k < s.duo.pair_count) × ((pair_at s k).pair_id ≡ id)
  slot = (dh_duo_lookup_pair_iff s id k t).0 found

  moved :
      (i : ℕ)
      → i + 1 < s.duo.pair_count
      → pair_at (dh_duo_del_pair s id).0 i ≡ (if ltb i k then pair_at s i else pair_at s (i + 1))
  moved i = pair_at-dh_duo_del_pair s t id k i found

  -- Each slot that is left held a pair with another id before.
  moved_from :
      (j : ℕ)
      → j < (dh_duo_del_pair s id).0.duo.pair_count
      → (i : ℕ) × (i < s.duo.pair_count)
        × (pair_at s i ≡ pair_at (dh_duo_del_pair s id).0 j)
        × ((pair_at s i).pair_id ≢ id)
  moved_from j h = elim (Bool-cases (ltb j k)) [
    | inl e ↦
        (j, omega arith, ground (arith, e, moved j, slot), ground (arith, e, slot, t.growing j k))
    | inr e ↦ (
      j + 1,
      omega arith,
      ground (arith, e, moved j, slot),
      ground (arith, e, slot, t.growing k (j + 1)),
    )
  ]

  -- Each pair with another id is still there.
  moved_to :
      (i : ℕ)
      → i < s.duo.pair_count
      → (pair_at s i).pair_id ≢ id
      → (j : ℕ) × (j < (dh_duo_del_pair s id).0.duo.pair_count)
        × (pair_at (dh_duo_del_pair s id).0 j ≡ pair_at s i)
  moved_to i h other = elim (Bool-cases (ltb i k)) [
    | inl e ↦ (i, ground (arith, slot), ground (arith, e, moved i, slot))
    | inr e ↦ (i - 1, ground (arith, e, slot), ground (arith, e, slot, moved (i - 1)))
  ]

-- On a table in order, deleting a pair clears the map at its id and nowhere else.
pub pair_of-dh_duo_del_pair :
    (s : State) (id other : ℕ)
    → IsTable s
    → pair_of (dh_duo_del_pair s id).0 other ≡ (if id == other then none else pair_of s other)
pair_of-dh_duo_del_pair s id other t = elim (dh_duo_del_pair_cases s id) [
  | inl (e, same) ↦ rw same (ground (arith, e, pair_of-none s id e))
  | inr (k, e, done, count, next, len) ↦ elim (Bool-cases (id == other)) [
    | inl q ↦ elim (pair_of_cases s' t' other) [
      | inl (gone, no_slot) ↦ ground (arith, q, gone)
      | inr (j, h, p, still) ↦ let from = moved_from s t id k e count j h in ground (arith, q, from)
    ]
    | inr q ↦ rw q (
        pair_of_ext s s' other t t' (λ i h p. moved_to s t id k e count i h (ground (arith, q)))
          (λ j h p. let from = moved_from s t id k e count j h in (from.0, from.1, from.2)))
  ]
]
  where
    s' : State
    s' = (dh_duo_del_pair s id).0

    t' : IsTable s'
    t' = dh_duo_del_pair-IsTable s id t

-- On a table in order, a pulse that succeeds rewrites the pair of its id from the two nodes and
-- the clamped value, and no other.
pub pair_of-dh_duo_pulse :
    (s : State) (id value other : ℕ) (p : Pair)
    → IsTable s
    → (dh_duo_pulse s id value).1 ≡ ok
    → pair_of s id ≡ some p
    → pair_of (dh_duo_pulse s id value).0 other ≡ (
        if id == other
        then some (
            dh_duo_recompute_simplex
              (pulsed_pair p (node_at s p.a) (node_at s p.b) (dh_clamp_u32 value 0 1000000)))
        else pair_of s other)
pair_of-dh_duo_pulse s id value other p t h e = elim (pair_of_cases s t id) [
  | inl (gone, _) ↦ ground (arith, e, gone)
  | inr (k, hk, q, here) ↦
      let at = λ (i : ℕ).
        pair_at-dh_duo_pulse s t id value i k h ((dh_duo_lookup_pair_iff s id k t).1 (hk, q)) in
      let same : pair_at s k ≡ p = ground (arith, e, here) in
      let kept =
        pair_id-pulsed (pair_at s k) (node_at s (pair_at s k).a) (node_at s (pair_at s k).b)
          (dh_clamp_u32 value 0 1000000) in
      rw (← same) (elim (Bool-cases (id == other)) [
        | inl r ↦ ground (arith, r, at k, kept, pair_of-some s' t' other k)
        | inr r ↦ rw r (
            pair_of_ext s s' other t t'
              (λ i hi o. (i, ground (arith, at i), ground (arith, r, at i)))
              (λ i hi o. (i, ground (arith, at i), ground (arith, r, at i, kept))))
      ])
]
  where
    s' : State
    s' = (dh_duo_pulse s id value).0

    t' : IsTable s'
    t' = dh_duo_pulse-IsTable s id value t
