-- ===== src/Dawnhex/Sound/Nodes.antt =====
-- The node operations and the tick of dawnhex_kmod.c keep the state sound.
use ryzen_build.Base.{
  ℕ, zero, suc, ◌+◌, ◌<◌, ◌≡◌, ◌⊎◌, inl, inr, refl, ◌∙◌, arith, Bool, true, false,
}
use ryzen_build.Base.{if◌then◌else◌, get_or-set, length-set}
use ryzen_build.Dawnhex.Types.{Text, Node, zero_node, State, Event, max_nodes}
use ryzen_build.Base.Bits.{hweight}
use ryzen_build.Dawnhex.Events
use ryzen_build.Dawnhex.Events.Fifo.{IsValid, push-IsValid}
use ryzen_build.Dawnhex.Fixed.{dh_clamp_u32}
use ryzen_build.Dawnhex.Nodes.{
  node_at, emit, set_node, bump, new_node, dh_add_node, dh_del_node, dh_link, dh_lookup_node,
}
use ryzen_build.Dawnhex.Nodes.Wired.{IsWired, dh_add_node-IsWired, dh_del_node-IsWired}
use ryzen_build.Dawnhex.Nodes.Wired.{dh_link-IsWired, dh_add_node-Unchanged, dh_del_node-Unchanged}
use ryzen_build.Dawnhex.Nodes.Wired.{
  dh_link-Unchanged, node_at-added, node_at-deleted, kept_by_link,
}
use ryzen_build.Dawnhex.Tick.{ticked_node, tick_node, tick_loop, dh_tick_once, dh_tick_workfn}
use ryzen_build.Dawnhex.Tick.Laws.{node_at-dh_tick_once, after_tick}
use ryzen_build.Dawnhex.Sound.{IsSound, PowerInRange, IsWired-SameLinks, IsTable_of_duo}
use ryzen_build.Dawnhex.Sound.{IsWired_of_nodes}
use ryzen_build.Dawnhex.Command.{
  edit_node, cmd_energy, cmd_health, cmd_online, set_interactive, set_tick_ms,
}
use ryzen_build.Dawnhex.Command.{to_bool, from_bool}
use ryzen_build.Dawnhex.Fixed.Laws.{dh_clamp_u32-le, dh_clamp_u32_bounds}

-- What an operation on nodes leaves alone, and that it keeps the ring in order.
pub record NodesOnly (s t : State) : Type 0 where
  pub duo : t.duo ≡ s.duo
  pub tick_ms : t.tick_ms ≡ s.tick_ms
  pub ring : IsValid t.ring

pub IsSound-NodesOnly :
    {s t : State}
    → IsSound s
    → NodesOnly s t
    → IsWired t
    → ((i : ℕ) → i < max_nodes → PowerInRange (node_at t i))
    → IsSound t
IsSound-NodesOnly {s} {t} v only wired power = record {
  wired = wired;
  power = power;
  ring = only.ring;
  table = IsTable_of_duo only.duo v.table;
  pairs = rw (only.duo) v.pairs;
  slow = rw (only.tick_ms) v.slow;
  quick = rw (only.tick_ms) v.quick;
}

module _ {s : State} (v : IsSound s) where
  pub emit-IsSound : (e : Event) → IsSound (emit s e)
  unfolding emit
  emit-IsSound e = record {
    wired = IsWired_of_nodes refl v.wired;
    power = v.power;
    ring = push-IsValid Event.blank v.ring e;
    table = IsTable_of_duo refl v.table;
    pairs = v.pairs;
    slow = v.slow;
    quick = v.quick;
  }

  -- The ring after one more event.
  ring_push : (e : Event) → IsValid (Events.push s.ring e)
  ring_push e = push-IsValid Event.blank v.ring e

  add_only : (id : ℕ) (name : Text) → NodesOnly s (dh_add_node s id name).0
  unfolding dh_add_node emit
  add_only id name = ground (arith, v.ring, ring_push (Event.add id (new_node id name).name))

  pub dh_add_node-IsSound : (id : ℕ) (name : Text) → IsSound (dh_add_node s id name).0
  dh_add_node-IsSound id name =
      IsSound-NodesOnly v (add_only id name) (dh_add_node-IsWired id name v.wired) (λ i h.
        elim (dh_add_node-Unchanged s id name) [
          | inl done ↦ ground (arith, node_at-added v.wired id name done i, v.power i h)
          | inr same ↦ rw same (v.power i h)
        ])

  del_only : (id : ℕ) → NodesOnly s (dh_del_node s id).0
  unfolding dh_del_node emit
  del_only id = ground (arith, v.ring, ring_push (Event.del id))

  pub dh_del_node-IsSound : (id : ℕ) → IsSound (dh_del_node s id).0
  dh_del_node-IsSound id =
      IsSound-NodesOnly v (del_only id) (dh_del_node-IsWired id v.wired) (λ i h.
        elim (dh_del_node-Unchanged s id) [
          | inl done ↦ ground (arith, node_at-deleted v.wired id done i h, v.power i h)
          | inr same ↦ rw same (v.power i h)
        ])

  link_only : (a b : ℕ) (enable : Bool) → NodesOnly s (dh_link s a b enable).0
  unfolding dh_link emit
  link_only a b enable =
      ground (arith, v.ring, ring_push (Event.link a b), ring_push (Event.unlink a b))

  pub dh_link-IsSound : (a b : ℕ) (enable : Bool) → IsSound (dh_link s a b enable).0
  dh_link-IsSound a b enable =
      IsSound-NodesOnly v (link_only a b enable) (dh_link-IsWired a b enable v.wired) (λ i h.
        elim (dh_link-Unchanged s a b enable) [
          | inl done ↦ ground (arith, kept_by_link v.wired a b enable done i, v.power i h)
          | inr same ↦ rw same (v.power i h)
        ])

tick_node-NodesOnly : (s : State) (i : ℕ) → IsValid s.ring → NodesOnly s (tick_node s i)
unfolding tick_node emit
tick_node-NodesOnly s i v =
    let n = ticked_node (node_at s i) in
    let e = Event.tick n.id n.energy_ppm n.health_ppm (hweight 64 n.links_mask) in
    ground (arith, push-IsValid Event.blank v e)

tick_loop-NodesOnly : (left i : ℕ) (s : State) → IsValid s.ring → NodesOnly s (tick_loop left i s)
unfolding tick_loop
tick_loop-NodesOnly zero i s v = record { duo = refl; tick_ms = refl; ring = v }
tick_loop-NodesOnly (suc left) i s v =
    let one = tick_node-NodesOnly s i v in
    let rest = tick_loop-NodesOnly left (i + 1) (tick_node s i) one.ring in
    record { duo = rest.duo ∙ one.duo; tick_ms = rest.tick_ms ∙ one.tick_ms; ring = rest.ring }

pub dh_tick_once-NodesOnly : (s : State) → IsValid s.ring → NodesOnly s (dh_tick_once s)
unfolding dh_tick_once
dh_tick_once-NodesOnly s v =
    let all = tick_loop-NodesOnly max_nodes 0 (bump s) v in
    record { duo = all.duo; tick_ms = all.tick_ms; ring = all.ring }

-- What a tick keeps of a node.
after_tick_lem :
    (n : Node)
    → PowerInRange n
    → ((after_tick n).links_mask ≡ n.links_mask)
      × ((after_tick n).present ≡ n.present)
      × ((after_tick n).id ≡ n.id)
      × PowerInRange (after_tick n)
unfolding after_tick ticked_node
after_tick_lem n h = ground (arith, h)

-- A tick keeps the state sound.
pub dh_tick_once-IsSound : {s : State} → IsSound s → IsSound (dh_tick_once s)
dh_tick_once-IsSound {s} v =
    let at = λ (i : ℕ) (h : i < max_nodes). node_at-dh_tick_once s i v.wired.slots h in
    let kept = λ (i : ℕ) (h : i < max_nodes). after_tick_lem (node_at s i) (v.power i h) in
    let wired : IsWired (dh_tick_once s) =
      IsWired-SameLinks
        (record {
          slots = omega (arith, at 0 (omega arith), v.wired.slots);
          same = λ i h. ground (arith, at i h, kept i h);
        })
        v.wired in
    IsSound-NodesOnly v (dh_tick_once-NodesOnly s v.ring) wired
      (λ i h. ground (arith, at i h, kept i h))

-- A change of the flags alone.
pub flags-IsSound :
    {s : State} → IsSound s → (b c : Bool) → IsSound (record s { interactive = b; scheduled = c })
flags-IsSound v b c =
    IsSound-NodesOnly v (record { duo = refl; tick_ms = refl; ring = v.ring })
      (IsWired_of_nodes refl v.wired) v.power

ite-IsSound : (b : Bool) {s t : State} → IsSound s → IsSound t → IsSound (if b then s else t)
ite-IsSound true v w = v
ite-IsSound false v w = w

-- The work function keeps the state sound.
pub dh_tick_workfn-IsSound : {s : State} → IsSound s → IsSound (dh_tick_workfn s)
unfolding dh_tick_workfn
dh_tick_workfn-IsSound {s} v =
    let v1 = flags-IsSound v s.interactive false in
    let v2 = ite-IsSound s.interactive (dh_tick_once-IsSound v1) v1 in
    ite-IsSound _ (flags-IsSound v2 _ true) v2

-- A node that differs from another in its power, its name and being online alone.
abbrev pub KeepsNode : Node → Node → Type 0
KeepsNode m n =
    (n.links_mask ≡ m.links_mask) × (n.present ≡ m.present) × (n.id ≡ m.id) × PowerInRange n

pub set_node-IsSound :
    {s : State}
    → IsSound s
    → (a : ℕ) (n : Node) → a < max_nodes
    → KeepsNode (node_at s a) n
    → IsSound (bump (set_node s a n))
set_node-IsSound {s} v a n h keeps =
    let at = λ (i : ℕ). get_or-set s.nodes a i n zero_node (omega (arith, v.wired.slots)) in
    let wired : IsWired (bump (set_node s a n)) =
      IsWired-SameLinks
        (record { slots = length-set s.nodes a n; same = λ i hi. ground (arith, at i, keeps) })
        v.wired in
    IsSound-NodesOnly v (record { duo = refl; tick_ms = refl; ring = v.ring }) wired
      (λ i hi. ground (arith, at i, keeps, v.power i hi))

edit_node_cases :
    (s : State) (a : ℕ) (f : Node → Node) (event : Node → Event)
    → ((edit_node s a f event).0 ≡ s)
      ⊎ ((a < max_nodes)
          × ((edit_node s a f event).0
              ≡ emit (bump (set_node s a (f (node_at s a)))) (event (f (node_at s a)))))
unfolding edit_node dh_lookup_node
edit_node_cases s a f event = ground arith

-- A command that sets a field of a node other than its links, its number and its presence keeps
-- the state sound.
pub edit_node-IsSound :
    {s : State} (v : IsSound s) (a : ℕ) (f : Node → Node) (event : Node → Event)
    → ((n : Node) → PowerInRange n → KeepsNode n (f n))
    → IsSound (edit_node s a f event).0
edit_node-IsSound {s} v a f event keeps = elim (edit_node_cases s a f event) [
  | inl e ↦ rw e v
  | inr (h, e) ↦ rw e (
      emit-IsSound (set_node-IsSound v a (f (node_at s a)) h (keeps (node_at s a) (v.power a h))) _)
]

pub cmd_energy-IsSound : {s : State} → IsSound s → (a w : ℕ) → IsSound (cmd_energy s a w).0
unfolding cmd_energy
cmd_energy-IsSound v a w =
    edit_node-IsSound v a (λ n. record n { energy_ppm = dh_clamp_u32 w 0 1000000 })
      (λ n. Event.energy a n.energy_ppm)
      (λ n h. (refl, refl, refl, (dh_clamp_u32-le w 0 1000000 (omega arith), h.1)))

pub cmd_health-IsSound : {s : State} → IsSound s → (a w : ℕ) → IsSound (cmd_health s a w).0
unfolding cmd_health
cmd_health-IsSound v a w =
    edit_node-IsSound v a (λ n. record n { health_ppm = dh_clamp_u32 w 0 1000000 })
      (λ n. Event.health a n.health_ppm)
      (λ n h. (refl, refl, refl, (h.0, dh_clamp_u32-le w 0 1000000 (omega arith))))

pub cmd_online-IsSound : {s : State} → IsSound s → (a w : ℕ) → IsSound (cmd_online s a w).0
unfolding cmd_online
cmd_online-IsSound v a w =
    edit_node-IsSound v a (λ n. record n { online = to_bool w })
      (λ n. Event.online a (from_bool (to_bool w))) (λ n h. (refl, refl, refl, h))

pub set_interactive-IsSound : {s : State} → IsSound s → (b : Bool) → IsSound (set_interactive s b)
unfolding set_interactive
set_interactive-IsSound v b = emit-IsSound (flags-IsSound v b b) _

pub set_tick_ms-IsSound : {s : State} → IsSound s → (w : ℕ) → IsSound (set_tick_ms s w)
unfolding set_tick_ms
set_tick_ms-IsSound {s} v w =
    let range = dh_clamp_u32_bounds w 10 60000 (omega arith) in
    let set_lem : IsSound (record s { tick_ms = dh_clamp_u32 w 10 60000 }) = record {
      wired = IsWired_of_nodes refl v.wired;
      power = v.power;
      ring = v.ring;
      table = IsTable_of_duo refl v.table;
      pairs = v.pairs;
      slow = range.0;
      quick = range.1;
    } in
    emit-IsSound set_lem _
