-- ===== src/Dawnhex/Duo/Table.antt =====
-- The table of duo pairs in dawnhex_kmod.c: where the lookup stops, and what adding, deleting and
-- pulsing do to each slot.
use ryzen_build.Base.{
  ℕ, zero, suc, ◌+◌, ◌-◌, ◌≤◌, ◌<◌, ◌≡◌, ◌≢◌, inl, inr, refl, ◌∙◌, arith, u32, Bool-cases,
  Option-cases, ◌↔◌, ap,
}
use ryzen_build.Base.{ltb, leb, ◌==◌, ◌&&◌, if◌then◌else◌, none, some}
use ryzen_build.Base.{List, length, get_or, set, length-set, get_or-set}
use ryzen_build.Dawnhex.Types.{Pair, zero_pair, State, ok, max_pairs}
use ryzen_build.Dawnhex.Nodes.{emit}
use ryzen_build.Dawnhex.Duo.{pair_at, find_pair, dh_duo_lookup_pair, dh_duo_add_pair, new_pair}
use ryzen_build.Dawnhex.Duo.{shift_down, dh_duo_del_pair}

-- Where a search stops: at the first slot with the id, or at the end.
abbrev FirstAt : List Pair → ℕ → ℕ → ℕ → ℕ → Type 0
FirstAt pairs i n id k =
    (i ≤ k)
    × (k < i + n)
    × ((get_or pairs k zero_pair).pair_id ≡ id)
    × ((j : ℕ) → i ≤ j → j < k → (get_or pairs j zero_pair).pair_id ≢ id)

find_pair-FirstAt :
    (pairs : List Pair) (n i id k : ℕ) → find_pair pairs n i id ≡ some k → FirstAt pairs i n id k
unfolding find_pair
find_pair-FirstAt pairs zero i id k h = cc
find_pair-FirstAt pairs (suc n) i id k h =
    elim (Bool-cases ((get_or pairs i zero_pair).pair_id == id)) [
      | inl e ↦ (ground arith, ground arith, ground arith, λ j p q t. ground arith)
      | inr e ↦
          let later : find_pair pairs n (i + 1) id ≡ some k = ground arith in
          let ih = find_pair-FirstAt pairs n (i + 1) id k later in
          (omega arith, omega arith, ih.2, λ j p q t. ground (arith, ih.3 j))
    ]

find_pair-none :
    (pairs : List Pair) (n i id j : ℕ)
    → find_pair pairs n i id ≡ none
    → i ≤ j
    → j < i + n
    → (get_or pairs j zero_pair).pair_id ≢ id
unfolding find_pair
find_pair-none pairs zero i id j h p q = absurd (omega arith)
find_pair-none pairs (suc n) i id j h p q = ground (arith, find_pair-none pairs n (i + 1) id j)

pub length-shift_down : (pairs : List Pair) (i n : ℕ) → length (shift_down pairs i n) ≡ length pairs
unfolding shift_down
length-shift_down pairs i zero = refl
length-shift_down pairs i (suc n) =
    let p = get_or pairs (i + 1) zero_pair in
    length-shift_down (set pairs i p) (i + 1) n ∙ length-set pairs i p

-- The move takes each slot of its range from the slot above, and leaves the others alone.
get_or-shift_down :
    (pairs : List Pair) (i n j : ℕ)
    → i + n < length pairs
    → get_or (shift_down pairs i n) j zero_pair
      ≡ get_or pairs (if leb i j && ltb j (i + n) then j + 1 else j) zero_pair
unfolding shift_down
get_or-shift_down pairs i zero j h = ground arith
get_or-shift_down pairs i (suc n) j h =
    let p = get_or pairs (i + 1) zero_pair in
    ground (
      arith,
      get_or-shift_down (set pairs i p) (i + 1) n j,
      length-set pairs i p,
      get_or-set pairs i j p zero_pair,
      get_or-set pairs i (j + 1) p zero_pair,
    )

-- What keeps the table in order: 128 slots, and in those in use the ids grow and are not above
-- the last one given.
pub record IsTable (s : State) : Type 0 where
  pub slots : length s.duo.pairs ≡ max_pairs
  pub fits : s.duo.pair_count ≤ max_pairs
  pub growing :
      (i j : ℕ) → i < j → j < s.duo.pair_count → (pair_at s i).pair_id < (pair_at s j).pair_id
  pub given : (i : ℕ) → i < s.duo.pair_count → (pair_at s i).pair_id ≤ s.duo.next_pair_id

-- On a table in order, the lookup gives slot `k` exactly if it is in use and holds the pair with
-- that id.
pub dh_duo_lookup_pair_iff :
    (s : State) (id k : ℕ)
    → IsTable s
    → (dh_duo_lookup_pair s id ≡ some k) ↔ ((k < s.duo.pair_count) × ((pair_at s k).pair_id ≡ id))
unfolding dh_duo_lookup_pair
dh_duo_lookup_pair_iff s id k t = (found, unique)
  where
    found :
        find_pair s.duo.pairs s.duo.pair_count 0 id ≡ some k
        → (k < s.duo.pair_count) × ((pair_at s k).pair_id ≡ id)
    found h = let f = find_pair-FirstAt s.duo.pairs s.duo.pair_count 0 id k h in (omega arith, f.2)

    unique :
        (k < s.duo.pair_count) × ((pair_at s k).pair_id ≡ id)
        → find_pair s.duo.pairs s.duo.pair_count 0 id ≡ some k
    unique h = elim (Option-cases (find_pair s.duo.pairs s.duo.pair_count 0 id)) [
      | inl e ↦
          absurd
            (find_pair-none s.duo.pairs s.duo.pair_count 0 id k e (omega arith) (omega arith) h.1)
      | inr (m, e) ↦
          let f = find_pair-FirstAt s.duo.pairs s.duo.pair_count 0 id m e in
          let same : m ≡ k = ground (arith, t.growing m k, t.growing k m) in e ∙ ap some same
    ]

module _ (s : State) (t : IsTable s) where
  -- Adding appends the new pair under the next id.
  pub pair_at-dh_duo_add_pair :
      (a b mode i : ℕ)
      → (dh_duo_add_pair s a b mode).1 ≡ ok
      → (pair_at (dh_duo_add_pair s a b mode).0 i ≡ (
          if s.duo.pair_count == i
          then new_pair (u32 (s.duo.next_pair_id + 1)) a b mode
          else pair_at s i))
        × ((dh_duo_add_pair s a b mode).0.duo.pair_count ≡ s.duo.pair_count + 1)
        × (length (dh_duo_add_pair s a b mode).0.duo.pairs ≡ max_pairs)
        × ((dh_duo_add_pair s a b mode).0.duo.next_pair_id ≡ u32 (s.duo.next_pair_id + 1))
        × (s.duo.pair_count < max_pairs)
  unfolding dh_duo_add_pair emit
  pair_at-dh_duo_add_pair a b mode i h =
      let p = new_pair (u32 (s.duo.next_pair_id + 1)) a b mode in
      ground (
        arith,
        t.slots,
        get_or-set s.duo.pairs s.duo.pair_count i p zero_pair,
        length-set s.duo.pairs s.duo.pair_count p,
      )

  -- Deleting takes out the slot that the lookup finds and closes the gap.
  pub pair_at-dh_duo_del_pair :
      (id k i : ℕ)
      → dh_duo_lookup_pair s id ≡ some k
      → i + 1 < s.duo.pair_count
      → pair_at (dh_duo_del_pair s id).0 i ≡ (if ltb i k then pair_at s i else pair_at s (i + 1))
  unfolding dh_duo_del_pair emit
  pair_at-dh_duo_del_pair id k i h hi = ground (
    arith,
    t.slots,
    t.fits,
    (dh_duo_lookup_pair_iff s id k t).0 h,
    get_or-shift_down s.duo.pairs k (s.duo.pair_count - k - 1) i,
  )
