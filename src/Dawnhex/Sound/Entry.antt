-- ===== src/Dawnhex/Sound/Entry.antt =====
-- Each entry point of dawnhex_kmod.c keeps the state sound, and its set-up starts it.
use ryzen_build.Base.{ℕ, ◌+◌, ◌^◌, ◌<◌, ◌≡◌, ◌⊎◌, inl, inr, refl, arith}
use ryzen_build.Base.{
  Bool, true, false, Bool-cases, Option-cases, ◌∙◌, sym, Option, none, some, List, [], ◌∷◌, ◌++◌,
}
use ryzen_build.Base.{get_or-replicate, length-replicate, ◌==◌}
use ryzen_build.Base.Bits.{test_bit-zero}
use ryzen_build.Dawnhex.Types.{Text, zero_node, zero_pair, State, Event, Hook}
use ryzen_build.Dawnhex.Types.{max_nodes, max_pairs}
use ryzen_build.Dawnhex.Events.Fifo.{pop-IsValid, empty_ring-IsValid}
use ryzen_build.Dawnhex.Events
use ryzen_build.Dawnhex.Events.{EventRing}
use ryzen_build.Dawnhex.Nodes.{emit, node_at}
use ryzen_build.Dawnhex.Nodes.Links.{linked}
use ryzen_build.Dawnhex.Duo.{dh_duo_add_pair, dh_duo_del_pair, dh_duo_pulse}
use ryzen_build.Dawnhex.Duo.{dawnhex_duo_hook_register, dawnhex_duo_hook_unregister}
use ryzen_build.Dawnhex.Command.{Command, run_command}
use ryzen_build.Dawnhex.Command.{bytes}
use ryzen_build.Dawnhex.Device.{Ioctl, ioctl_body, dh_read}
use ryzen_build.Dawnhex.Device.{zero_state, dawnhex_init}
use ryzen_build.Dawnhex.Sound.{IsSound, IsWired_of_nodes}
use ryzen_build.Dawnhex.Sound.Nodes.{
  IsSound-NodesOnly, emit-IsSound, dh_add_node-IsSound, dh_del_node-IsSound,
}
use ryzen_build.Dawnhex.Sound.Nodes.{dh_link-IsSound, dh_tick_once-IsSound}
use ryzen_build.Dawnhex.Sound.Nodes.{cmd_online-IsSound, cmd_energy-IsSound, cmd_health-IsSound}
use ryzen_build.Dawnhex.Sound.Nodes.{set_interactive-IsSound, set_tick_ms-IsSound, flags-IsSound}
use ryzen_build.Dawnhex.Sound.Pairs.{dh_duo_add_pair-IsSound, dh_duo_del_pair-IsSound}
use ryzen_build.Dawnhex.Sound.Pulse.{dh_duo_pulse-IsSound}

-- Another id is left to give.
abbrev pub HasRoom : State → Type 0
HasRoom s = s.duo.next_pair_id + 1 < 2 ^ 32

-- Every command keeps the state sound, while there are ids left.
pub run_command-IsSound :
    {s : State} → IsSound s → HasRoom s → (c : Command) → IsSound (run_command s c).0
unfolding run_command
run_command-IsSound v room (Command.add a name) = dh_add_node-IsSound v a name
run_command-IsSound v room (Command.del a) = dh_del_node-IsSound v a
run_command-IsSound v room (Command.link a b) = dh_link-IsSound v a b true
run_command-IsSound v room (Command.unlink a b) = dh_link-IsSound v a b false
run_command-IsSound v room (Command.online a w) = cmd_online-IsSound v a w
run_command-IsSound v room (Command.duo_add a b w) = dh_duo_add_pair-IsSound v a b w room
run_command-IsSound v room (Command.duo_del a) = dh_duo_del_pair-IsSound v a
run_command-IsSound v room (Command.duo_pulse a w) = dh_duo_pulse-IsSound v a w
run_command-IsSound v room Command.duo_snapshot = emit-IsSound v _
run_command-IsSound v room (Command.energy a w) = cmd_energy-IsSound v a w
run_command-IsSound v room (Command.health a w) = cmd_health-IsSound v a w
run_command-IsSound v room Command.tick = dh_tick_once-IsSound v
run_command-IsSound v room (Command.interactive w) = set_interactive-IsSound v _
run_command-IsSound v room (Command.tick_ms w) = set_tick_ms-IsSound v w
run_command-IsSound v room Command.snapshot = emit-IsSound v _
run_command-IsSound v room Command.help = emit-IsSound v _
run_command-IsSound v room Command.unknown = v

-- The queries leave the state alone.
query_lem :
    (s : State) (id : ℕ)
    → ((ioctl_body s (Ioctl.get_node id)).0 ≡ s)
      × ((ioctl_body s (Ioctl.get_pair id)).0 ≡ s)
      × ((ioctl_body s (Ioctl.get_simplex id)).0 ≡ s)
unfolding ioctl_body
query_lem s id = ground arith

-- The ioctls that change the state do what the operations do.
operation_lem :
    (s : State) (a b c : ℕ)
    → ((ioctl_body s (Ioctl.add_pair a b c)).0 ≡ (dh_duo_add_pair s a b c).0)
      × ((ioctl_body s (Ioctl.del_pair a)).0 ≡ (dh_duo_del_pair s a).0)
      × ((ioctl_body s (Ioctl.pulse a b)).0 ≡ (dh_duo_pulse s a b).0)
unfolding ioctl_body
operation_lem s a b c = ground arith

pub ioctl_body-IsSound :
    {s : State} → IsSound s → HasRoom s → (r : Ioctl) → IsSound (ioctl_body s r).0
ioctl_body-IsSound {s} v room Ioctl.get_cluster = unfold ioctl_body in v
ioctl_body-IsSound {s} v room (Ioctl.get_node id) = rw ((query_lem s id).0) v
ioctl_body-IsSound {s} v room Ioctl.step = unfold ioctl_body in dh_tick_once-IsSound v
ioctl_body-IsSound {s} v room (Ioctl.add_pair a b mode) =
    rw ((operation_lem s a b mode).0) (dh_duo_add_pair-IsSound v a b mode room)
ioctl_body-IsSound {s} v room (Ioctl.del_pair id) =
    rw ((operation_lem s id 0 0).1) (dh_duo_del_pair-IsSound v id)
ioctl_body-IsSound {s} v room (Ioctl.pulse id value) =
    rw ((operation_lem s id value 0).2) (dh_duo_pulse-IsSound v id value)
ioctl_body-IsSound {s} v room (Ioctl.get_pair id) = rw ((query_lem s id).1) v
ioctl_body-IsSound {s} v room Ioctl.dump = unfold ioctl_body in v
ioctl_body-IsSound {s} v room (Ioctl.get_simplex id) = rw ((query_lem s id).2) v
ioctl_body-IsSound {s} v room Ioctl.unknown_ioctl = unfold ioctl_body in v

-- Changing the hooks alone.
hooks-IsSound :
    {s : State}
    → IsSound s
    → (hs : List Hook) → IsSound (record s { duo = record (s.duo) { hooks = hs } })
hooks-IsSound v hs = record {
  wired = IsWired_of_nodes refl v.wired;
  power = v.power;
  ring = v.ring;
  table = record {
    slots = v.table.slots;
    fits = v.table.fits;
    growing = v.table.growing;
    given = v.table.given;
  };
  pairs = v.pairs;
  slow = v.slow;
  quick = v.quick;
}

-- Registering a hook leaves the state alone or appends the hook and reports it.
hook_register_cases :
    (s : State) (h : Hook)
    → ((dawnhex_duo_hook_register s (some h)).0 ≡ s)
      ⊎ ((name : Text) × ((dawnhex_duo_hook_register s (some h)).0
            ≡ emit
                (record s { duo = record (s.duo) { hooks = s.duo.hooks ++ (h ∷ []) } })
                (Event.duo_hook_register name)))
unfolding dawnhex_duo_hook_register
hook_register_cases s h = elim (Option-cases h.name) [
  | inl e ↦ inl (ground (arith, e))
  | inr (name, e) ↦ elim (Option-cases h.fn) [
    | inl q ↦ inl (ground (arith, e, q))
    | inr (f, q) ↦ inr (name, ground (arith, e, q))
  ]
]

pub hook_register-IsSound :
    {s : State} → IsSound s → (h : Option Hook) → IsSound (dawnhex_duo_hook_register s h).0
hook_register-IsSound {s} v none = unfold dawnhex_duo_hook_register in v
hook_register-IsSound {s} v (some h) = elim (hook_register_cases s h) [
  | inl e ↦ rw e v
  | inr (name, e) ↦ rw e (emit-IsSound (hooks-IsSound v _) _)
]

pub hook_unregister-IsSound :
    {s : State} → IsSound s → (h : Option Hook) → IsSound (dawnhex_duo_hook_unregister s h)
unfolding dawnhex_duo_hook_unregister
hook_unregister-IsSound v none = v
hook_unregister-IsSound v (some h) = emit-IsSound (hooks-IsSound v _) _

-- A read leaves the state alone or takes one event out of the ring.
pub dh_read_cases :
    (render : Event → Text) (s : State) (len : ℕ) (writable : Bool)
    → ((dh_read render s len writable).0 ≡ s)
      ⊎ ((e : Event) × (r : EventRing Event) × (Events.pop Event.blank s.ring ≡ some (e, r))
          × ((dh_read render s len writable).0 ≡ record s { ring = r }))
unfolding dh_read
dh_read_cases render s len writable = elim (Option-cases (Events.pop Event.blank s.ring)) [
  | inl e ↦ inl (ground (arith, e))
  | inr (x, e) ↦ elim (Bool-cases (len == 0)) [
    | inl q ↦ inl (ground (arith, q))
    | inr q ↦ inr (x.0, x.1, e, ground (arith, e, q))
  ]
]

pub dh_read-IsSound :
    (render : Event → Text) {s : State}
    → IsSound s
    → (len : ℕ) (writable : Bool) → IsSound (dh_read render s len writable).0
dh_read-IsSound render {s} v len writable = elim (dh_read_cases render s len writable) [
  | inl e ↦ rw e v
  | inr (x, r, popped, e) ↦ rw e (
      IsSound-NodesOnly v
        (record { duo = refl; tick_ms = refl; ring = pop-IsValid Event.blank v.ring popped })
        (IsWired_of_nodes refl v.wired) v.power)
]

zero_node_at : (i : ℕ) → node_at zero_state i ≡ zero_node
unfolding zero_state
zero_node_at i = get_or-replicate max_nodes i zero_node

no_links : (i j : ℕ) → linked zero_state i j ≡ 0
unfolding linked
no_links i j = rw (zero_node_at i) (test_bit-zero j)

-- The zeroed state.
zero_state-IsSound : IsSound zero_state
unfolding zero_state
zero_state-IsSound = record {
  wired = record {
    slots = length-replicate max_nodes zero_node;
    symmetric = λ i j hi hj. no_links i j ∙ sym (no_links j i);
    irreflexive = λ i hi. no_links i i;
    ends_present = λ i j hi hj ne. absurd (ne (no_links i j));
    own_id = λ i hi p. ground (arith, zero_node_at i);
  };
  power = λ i hi. ground (arith, zero_node_at i);
  ring = empty_ring-IsValid Event.blank;
  table = record {
    slots = length-replicate max_pairs zero_pair;
    fits = omega arith;
    growing = λ i j p q. absurd (omega arith);
    given = λ i p. absurd (omega arith);
  };
  pairs = λ i p. absurd (omega arith);
  slow = omega arith;
  quick = omega arith;
}

-- The module starts sound.
pub dawnhex_init-IsSound : IsSound dawnhex_init
unfolding dawnhex_init
dawnhex_init-IsSound =
    let v1 = dh_add_node-IsSound zero_state-IsSound 0 (bytes "core") in
    let v2 = dh_add_node-IsSound v1 1 (bytes "mesh-a") in
    let v3 = dh_add_node-IsSound v2 2 (bytes "mesh-b") in
    let v4 = dh_link-IsSound v3 0 1 true in
    let v5 = dh_link-IsSound v4 0 2 true in flags-IsSound v5 _ true
