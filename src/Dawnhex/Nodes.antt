-- ===== src/Dawnhex/Nodes.antt =====
-- The nodes of dawnhex_kmod.c and the links between them: lookup, count, add, delete and link.
pub mod Links
pub mod Wired
use ryzen_build.Base.{ℕ, ◌+◌, ◌-◌, ◌/◌, ◌^◌, u32, u64, leb, ◌==◌, if◌then◌else◌}
use ryzen_build.Base.{bit_and, bit_or, Bool, true, not, Option, none, some}
use ryzen_build.Base.{List, [], ◌∷◌, map, get_or, set, take}
use ryzen_build.Base.Bits.{hweight}
use ryzen_build.Dawnhex.Events
use ryzen_build.Dawnhex.Types.{Text, Node, zero_node, State, Event, Ret, ok, err}
use ryzen_build.Dawnhex.Types.{max_nodes, name_len}
use ryzen_build.Dawnhex.Types.Errno.{einval, eexist, enoent}

unfoldable pub emit : State → Event → State
unfolding Events.push
emit s e = record s { ring = Events.push s.ring e }

-- The entry `g_dawnhex.nodes[i]`.
abbrev pub node_at : State → ℕ → Node
node_at s i = get_or s.nodes i zero_node

abbrev pub set_node : State → ℕ → Node → State
set_node s i n = record s { nodes = set s.nodes i n }

-- `strscpy` into a buffer of `size` bytes.
abbrev pub strscpy : Text → ℕ → Text
strscpy t size = take (size - 1) t

unfoldable pub dh_lookup_node : State → ℕ → Option Node
dh_lookup_node s id =
    if leb max_nodes id
    then none
    else if not (node_at s id).present
    then none
    else some (node_at s id)

unfoldable pub count_nodes : List Node → ℕ
count_nodes [] = 0
count_nodes (n ∷ ns) = if n.present then u32 (1 + count_nodes ns) else count_nodes ns

unfoldable pub dh_count_nodes : State → ℕ
unfolding count_nodes
dh_count_nodes s = count_nodes s.nodes

unfoldable pub sum_links : List Node → ℕ
sum_links [] = 0
sum_links (n ∷ ns) =
    if n.present then u32 (hweight 64 n.links_mask + sum_links ns) else sum_links ns

unfoldable pub dh_count_links : State → ℕ
unfolding sum_links
dh_count_links s = sum_links s.nodes / 2

abbrev pub bump : State → State
bump s = record s { generation = u32 (s.generation + 1) }

-- The node that `dh_add_node_locked` leaves.
abbrev pub new_node : ℕ → Text → Node
new_node id name = record {
  id = id;
  name = strscpy name name_len;
  present = true;
  online = true;
  energy_ppm = 500000;
  health_ppm = 1000000;
  links_mask = 0;
}

unfoldable pub dh_add_node : State → ℕ → Text → State × Ret
dh_add_node s id name =
    if leb max_nodes id
    then (s, err einval)
    else if (node_at s id).present
    then (s, err eexist)
    else let s' = bump (set_node s id (new_node id name)) in
      (emit s' (Event.add id (new_node id name).name), ok)

-- `m & ~(1ULL << id)` and `m | (1ULL << id)`
abbrev pub clear_link : ℕ → ℕ → ℕ
clear_link id m = bit_and m (2 ^ 64 - 1 - u64 (2 ^ id))

abbrev pub set_link : ℕ → ℕ → ℕ
set_link id m = bit_or m (u64 (2 ^ id))

abbrev pub unlink_node : ℕ → Node → Node
unlink_node id n = record n { links_mask = clear_link id n.links_mask }

unfoldable pub dh_del_node : State → ℕ → State × Ret
dh_del_node s id =
    if leb max_nodes id
    then (s, err einval)
    else if not (node_at s id).present
    then (s, err enoent)
    else let cleared = record s { nodes = map (unlink_node id) s.nodes } in
      (emit (bump (set_node cleared id zero_node)) (Event.del id), ok)

-- `na->links_mask = f(na->links_mask)` through the pointer that the lookup gave.
abbrev pub edit_links : State → ℕ → (ℕ → ℕ) → State
edit_links s i f = set_node s i (record (node_at s i) { links_mask = f (node_at s i).links_mask })

unfoldable pub dh_link : State → ℕ → ℕ → Bool → State × Ret
unfolding dh_lookup_node
dh_link s a b enable = if a == b then (s, err einval) else elim (dh_lookup_node s a) [
  | none ↦ (s, err enoent)
  | some na ↦ elim (dh_lookup_node s b) [
    | none ↦ (s, err enoent)
    | some nb ↦
        if enable
        then (
          bump (emit (edit_links (edit_links s a (set_link b)) b (set_link a)) (Event.link a b)),
          ok,
        )
        else (
          bump (
              emit (edit_links (edit_links s a (clear_link b)) b (clear_link a))
                (Event.unlink a b)),
          ok,
        )
  ]
]
