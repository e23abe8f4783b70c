-- ===== src/Dawnhex/Nodes/Links.antt =====
-- What the node operations of dawnhex_kmod.c do to the links.
use ryzen_build.Base.{ℕ, ◌-◌, ◌^◌, ◌<◌, ◌≡◌, ◌≢◌, u64, arith, ◌==◌, if◌then◌else◌, ◌&&◌, ◌||◌}
use ryzen_build.Base.{Bool, true, false, map, length, length-set, length-map}
use ryzen_build.Base.{get_or-set, get_or-map}
use native.Mathlib.Nat.{pow-le-pow_right}
use ryzen_build.Base.Bits.{test_bit, test_bit-zero, test_bit-le-one, test_bit-bit_or}
use ryzen_build.Base.Bits.{test_bit-bit_and, test_bit-pow, test_bit-complement}
use ryzen_build.Dawnhex.Types.{Text, zero_node, State, ok, max_nodes}
use ryzen_build.Dawnhex.Nodes.{node_at, new_node, clear_link, set_link, edit_links, unlink_node}
use ryzen_build.Dawnhex.Nodes.{emit, dh_add_node, dh_del_node, dh_link}

-- Whether node `i` has the bit of node `j` in its mask, 0 or 1.
unfoldable pub linked : State → ℕ → ℕ → ℕ
linked s i j = test_bit (node_at s i).links_mask j

pow-lt : (b : ℕ) → b < 64 → 2 ^ b < 2 ^ 64
pow-lt b h = omega (arith, pow-le-pow_right {n = 2} (omega arith) {i = b} {j = 63} (omega arith))

-- A power of two below the width is not cut off.
shift_lem : (b : ℕ) → b < 64 → u64 (2 ^ b) ≡ 2 ^ b
shift_lem b h = omega (arith, pow-lt b h)

test_bit-set_link :
    (b m j : ℕ) → b < 64 → test_bit (set_link b m) j ≡ (if b == j then 1 else test_bit m j)
test_bit-set_link b m j h =
    ground
      (arith, shift_lem b h, test_bit-bit_or m (2 ^ b) j, test_bit-pow b j, test_bit-le-one m j)

test_bit-clear_link :
    (b m j : ℕ)
    → b < 64
    → j < 64
    → test_bit (clear_link b m) j ≡ (if b == j then 0 else test_bit m j)
test_bit-clear_link b m j h k = ground (
  arith,
  shift_lem b h,
  test_bit-bit_and m (2 ^ 64 - 1 - 2 ^ b) j,
  test_bit-complement 64 (2 ^ b) j (pow-lt b h) k,
  test_bit-pow b j,
  test_bit-le-one m j,
)

module _ (s : State) (slots : length s.nodes ≡ max_nodes) (i j : ℕ) (hi : i < max_nodes)
    (hj : j < max_nodes) where
  -- In a cluster of 64 slots, an addition that succeeds gives the node no link and leaves the
  -- other links alone.
  pub linked-dh_add_node :
      (id : ℕ) (name : Text)
      → (dh_add_node s id name).1 ≡ ok
      → linked (dh_add_node s id name).0 i j ≡ (if id == i then 0 else linked s i j)
  unfolding linked dh_add_node emit
  linked-dh_add_node id name h =
      ground (arith, test_bit-zero j, get_or-set s.nodes id i (new_node id name) zero_node)

  -- In a cluster of 64 slots, a deletion that succeeds clears every link of the node at both ends;
  -- no other link changes.
  pub linked-dh_del_node :
      (id : ℕ)
      → (dh_del_node s id).1 ≡ ok
      → linked (dh_del_node s id).0 i j ≡ (if id == i || id == j then 0 else linked s i j)
  unfolding linked dh_del_node emit
  linked-dh_del_node id h = ground (
    arith,
    test_bit-zero j,
    get_or-set (map (unlink_node id) s.nodes) id i zero_node zero_node,
    length-map s.nodes (unlink_node id),
    get_or-map (unlink_node id) s.nodes i zero_node zero_node,
    test_bit-clear_link id (node_at s i).links_mask j,
  )

  -- Editing two different nodes, the second in the state that the first edit left.
  edited_both :
      (f : ℕ → ℕ → ℕ) (a b : ℕ)
      → a ≢ b
      → a < max_nodes
      → b < max_nodes
      → (node_at (edit_links (edit_links s a (f b)) b (f a)) i).links_mask ≡ (
          if a == i
          then f b (node_at s i).links_mask
          else if b == i
          then f a (node_at s i).links_mask
          else (node_at s i).links_mask)
  edited_both f a b ne ha hb =
      let na = record (node_at s a) { links_mask = f b (node_at s a).links_mask } in
      let s' = edit_links s a (f b) in
      let nb = record (node_at s' b) { links_mask = f a (node_at s' b).links_mask } in
      ground (
        arith,
        length-set s.nodes a na,
        get_or-set s.nodes a b na zero_node,
        get_or-set s.nodes a i na zero_node,
        get_or-set s'.nodes b i nb zero_node,
      )

  -- In a cluster of 64 slots, linking two nodes with success sets exactly the two bits of the pair,
  -- and unlinking clears exactly those.
  pub linked-dh_link :
      (a b : ℕ) (enable : Bool)
      → (dh_link s a b enable).1 ≡ ok
      → linked (dh_link s a b enable).0 i j ≡ (
          if (a == i && b == j) || (b == i && a == j)
          then (if enable then 1 else 0)
          else linked s i j)
  unfolding linked dh_link emit
  linked-dh_link a b true h = ground (
    arith,
    edited_both set_link a b,
    test_bit-set_link b (node_at s i).links_mask j,
    test_bit-set_link a (node_at s i).links_mask j,
  )
  linked-dh_link a b false h = ground (
    arith,
    edited_both clear_link a b,
    test_bit-clear_link b (node_at s i).links_mask j,
    test_bit-clear_link a (node_at s i).links_mask j,
  )
