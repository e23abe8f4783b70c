-- ===== src/Dawnhex/Nodes/Wired.antt =====
-- The links of a DawnHex cluster stay in order under every node operation.
use ryzen_build.Base.{ℕ, ◌<◌, ◌≡◌, ◌≢◌, ◌⊎◌, inl, inr, arith, ◌∙◌, ◌==◌, if◌then◌else◌}
use ryzen_build.Base.{
  Bool, true, false, map, length, set, length-set, length-map, get_or-set, get_or-map,
}
use ryzen_build.Dawnhex.Types.{Text, zero_node, State, Ret, ok, max_nodes}
use ryzen_build.Dawnhex.Nodes.{node_at, new_node, clear_link, set_link, edit_links, unlink_node}
use ryzen_build.Dawnhex.Nodes.{emit, dh_add_node, dh_del_node, dh_link}
use ryzen_build.Dawnhex.Nodes.Links.{linked, linked-dh_add_node, linked-dh_del_node, linked-dh_link}

-- What keeps the links of a cluster in order: 64 slots; a link is seen from both ends; no node is
-- linked to itself; only present nodes are linked; a present node has its own number.
pub record IsWired (s : State) : Type 0 where
  pub slots : length s.nodes ≡ max_nodes
  pub symmetric : (i j : ℕ) → i < max_nodes → j < max_nodes → linked s i j ≡ linked s j i
  pub irreflexive : (i : ℕ) → i < max_nodes → linked s i i ≡ 0
  pub ends_present :
      (i j : ℕ) → i < max_nodes → j < max_nodes → linked s i j ≢ 0 → (node_at s i).present ≡ true
  pub own_id : (i : ℕ) → i < max_nodes → (node_at s i).present ≡ true → (node_at s i).id ≡ i

abbrev Unchanged : State → State × Ret → Type 0
Unchanged s r = (r.1 ≡ ok) ⊎ (r.0 ≡ s)

-- An operation that does not succeed leaves the state alone.
pub dh_add_node-Unchanged : (s : State) (id : ℕ) (name : Text) → Unchanged s (dh_add_node s id name)
unfolding dh_add_node
dh_add_node-Unchanged s id name = ground arith

pub dh_del_node-Unchanged : (s : State) (id : ℕ) → Unchanged s (dh_del_node s id)
unfolding dh_del_node
dh_del_node-Unchanged s id = ground arith

pub dh_link-Unchanged : (s : State) (a b : ℕ) (enable : Bool) → Unchanged s (dh_link s a b enable)
unfolding dh_link
dh_link-Unchanged s a b enable = ground arith

module _ {s : State} (w : IsWired s) where
  module _ (id : ℕ) (name : Text) (h : (dh_add_node s id name).1 ≡ ok) where
    added :
        (id < max_nodes)
        × ((node_at s id).present ≡ false)
        × ((dh_add_node s id name).0.nodes ≡ set s.nodes id (new_node id name))
    unfolding dh_add_node emit
    added = ground arith

    pub node_at-added :
        (i : ℕ)
        → node_at (dh_add_node s id name).0 i ≡ (if id == i then new_node id name else node_at s i)
    node_at-added i =
        rw (added.2)
          (get_or-set s.nodes id i (new_node id name) zero_node (omega (arith, added.0, w.slots)))

    wired_add : IsWired (dh_add_node s id name).0
    wired_add = record {
      slots = rw (added.2) (length-set s.nodes id (new_node id name) ∙ w.slots);
      symmetric = λ i j hi hj. ground (
        arith,
        added,
        linked-dh_add_node s w.slots i j hi hj id name h,
        linked-dh_add_node s w.slots j i hj hi id name h,
        w.symmetric i j hi hj,
        w.ends_present i j,
        w.ends_present j i,
      );
      irreflexive =
          λ i hi. ground (arith, linked-dh_add_node s w.slots i i hi hi id name h, w.irreflexive i);
      ends_present = λ i j hi hj ne. ground (
        arith,
        node_at-added i,
        linked-dh_add_node s w.slots i j hi hj id name h,
        w.ends_present i j,
      );
      own_id = λ i hi p. ground (arith, node_at-added i, w.own_id i);
    }

  module _ (id : ℕ) (h : (dh_del_node s id).1 ≡ ok) where
    deleted :
        (id < max_nodes)
        × ((dh_del_node s id).0.nodes ≡ set (map (unlink_node id) s.nodes) id zero_node)
    unfolding dh_del_node emit
    deleted = ground arith

    pub node_at-deleted :
        (i : ℕ)
        → i < max_nodes
        → node_at (dh_del_node s id).0 i
          ≡ (if id == i then zero_node else unlink_node id (node_at s i))
    node_at-deleted i hi = rw (deleted.1) (
        ground (
          arith,
          deleted.0,
          w.slots,
          length-map s.nodes (unlink_node id),
          get_or-set (map (unlink_node id) s.nodes) id i zero_node zero_node,
          get_or-map (unlink_node id) s.nodes i zero_node zero_node,
        ))

    wired_del : IsWired (dh_del_node s id).0
    wired_del = record {
      slots = rw (deleted.1) (
          length-set (map (unlink_node id) s.nodes) id zero_node
          ∙ length-map s.nodes (unlink_node id)
          ∙ w.slots);
      symmetric = λ i j hi hj. ground (
        arith,
        linked-dh_del_node s w.slots i j hi hj id h,
        linked-dh_del_node s w.slots j i hj hi id h,
        w.symmetric i j hi hj,
      );
      irreflexive =
          λ i hi. ground (arith, linked-dh_del_node s w.slots i i hi hi id h, w.irreflexive i);
      ends_present = λ i j hi hj ne. ground (
        arith,
        node_at-deleted i hi,
        linked-dh_del_node s w.slots i j hi hj id h,
        w.ends_present i j,
      );
      own_id = λ i hi p. ground (arith, node_at-deleted i hi, w.own_id i);
    }

  -- What the two edits of a link leave alone.
  kept_by_edit :
      (t : State) (k i : ℕ) (f : ℕ → ℕ)
      → length t.nodes ≡ max_nodes
      → k < max_nodes
      → ((node_at (edit_links t k f) i).present ≡ (node_at t i).present)
        × ((node_at (edit_links t k f) i).id ≡ (node_at t i).id)
        × ((node_at (edit_links t k f) i).energy_ppm ≡ (node_at t i).energy_ppm)
        × ((node_at (edit_links t k f) i).health_ppm ≡ (node_at t i).health_ppm)
        × (length (edit_links t k f).nodes ≡ max_nodes)
  kept_by_edit t k i f e hk =
      let n = record (node_at t k) { links_mask = f (node_at t k).links_mask } in
      ground (arith, get_or-set t.nodes k i n zero_node, length-set t.nodes k n)

  module _ (a b : ℕ) (enable : Bool) (h : (dh_link s a b enable).1 ≡ ok) where
    ends :
        (a < max_nodes)
        × (b < max_nodes)
        × (a ≢ b)
        × ((node_at s a).present ≡ true)
        × ((node_at s b).present ≡ true)
    unfolding dh_link
    ends = ground arith

    pub kept_by_link :
        (i : ℕ)
        → ((node_at (dh_link s a b enable).0 i).present ≡ (node_at s i).present)
          × ((node_at (dh_link s a b enable).0 i).id ≡ (node_at s i).id)
          × ((node_at (dh_link s a b enable).0 i).energy_ppm ≡ (node_at s i).energy_ppm)
          × ((node_at (dh_link s a b enable).0 i).health_ppm ≡ (node_at s i).health_ppm)
          × (length (dh_link s a b enable).0.nodes ≡ max_nodes)
    unfolding dh_link emit
    kept_by_link i = ground (
      arith,
      w.slots,
      kept_by_edit s a i (set_link b),
      kept_by_edit (edit_links s a (set_link b)) b i (set_link a),
      kept_by_edit s a i (clear_link b),
      kept_by_edit (edit_links s a (clear_link b)) b i (clear_link a),
    )

    wired_link : IsWired (dh_link s a b enable).0
    wired_link = record {
      slots = (kept_by_link 0).4;
      symmetric = λ i j hi hj. ground (
        arith,
        linked-dh_link s w.slots i j hi hj a b enable h,
        linked-dh_link s w.slots j i hj hi a b enable h,
        w.symmetric i j hi hj,
      );
      irreflexive = λ i hi.
          ground (arith, ends, linked-dh_link s w.slots i i hi hi a b enable h, w.irreflexive i);
      ends_present = λ i j hi hj ne. ground (
        arith,
        ends,
        kept_by_link i,
        linked-dh_link s w.slots i j hi hj a b enable h,
        w.ends_present i j,
      );
      own_id = λ i hi p. ground (arith, kept_by_link i, w.own_id i);
    }

-- Adding a node keeps the links in order, whether it succeeds or not.
pub dh_add_node-IsWired :
    {s : State} (id : ℕ) (name : Text) → IsWired s → IsWired (dh_add_node s id name).0
dh_add_node-IsWired {s} id name w = elim (dh_add_node-Unchanged s id name) [
  | inl h ↦ wired_add w id name h
  | inr e ↦ rw e w
]

-- Deleting a node keeps the links in order, whether it succeeds or not.
pub dh_del_node-IsWired : {s : State} (id : ℕ) → IsWired s → IsWired (dh_del_node s id).0
dh_del_node-IsWired {s} id w = elim (dh_del_node-Unchanged s id) [
  | inl h ↦ wired_del w id h
  | inr e ↦ rw e w
]

-- Linking and unlinking keep the links in order, whether they succeed or not.
pub dh_link-IsWired :
    {s : State} (a b : ℕ) (enable : Bool) → IsWired s → IsWired (dh_link s a b enable).0
dh_link-IsWired {s} a b enable w = elim (dh_link-Unchanged s a b enable) [
  | inl h ↦ wired_link w a b enable h
  | inr e ↦ rw e w
]
