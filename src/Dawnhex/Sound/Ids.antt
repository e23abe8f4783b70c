-- ===== src/Dawnhex/Sound/Ids.antt =====
-- How fast the duo ids of dawnhex_kmod.c are used up: one for each call, at most.
use ryzen_build.Base.{ℕ, ◌+◌, ◌≤◌, ◌≡◌, refl, arith, Bool, true, false, Option}
use ryzen_build.Dawnhex.Types.{Text, Node, Event, Hook, State}
use ryzen_build.Dawnhex.Nodes.{emit, dh_add_node, dh_del_node, dh_link, dh_lookup_node}
use ryzen_build.Dawnhex.Duo.{dh_duo_add_pair, dh_duo_del_pair, dh_duo_pulse, feed_back}
use ryzen_build.Dawnhex.Duo.{
  dh_duo_emit_hooks, dawnhex_duo_hook_register, dawnhex_duo_hook_unregister,
}
use ryzen_build.Dawnhex.Tick.{dh_tick_once, dh_tick_workfn}
use ryzen_build.Dawnhex.Command.{Command, run_command, edit_node, cmd_online}
use ryzen_build.Dawnhex.Command.{set_interactive, set_tick_ms}
use ryzen_build.Dawnhex.Device.{Ioctl, ioctl_body, dawnhex_init}
use ryzen_build.Dawnhex.Sound.{IsSound}
use ryzen_build.Dawnhex.Sound.Nodes.{flags-IsSound, dh_tick_once-NodesOnly}

abbrev pub OneId : State → State → Type 0
OneId s t = t.duo.next_pair_id ≤ s.duo.next_pair_id + 1

dh_add_node-OneId : (s : State) (a : ℕ) (name : Text) → OneId s (dh_add_node s a name).0
unfolding dh_add_node emit
dh_add_node-OneId s a name = ground arith

dh_del_node-OneId : (s : State) (a : ℕ) → OneId s (dh_del_node s a).0
unfolding dh_del_node emit
dh_del_node-OneId s a = ground arith

dh_link-OneId : (s : State) (a b : ℕ) (enable : Bool) → OneId s (dh_link s a b enable).0
unfolding dh_link emit
dh_link-OneId s a b enable = ground arith

edit_node-OneId :
    (s : State) (a : ℕ) (f : Node → Node) (event : Node → Event) → OneId s (edit_node s a f event).0
unfolding edit_node emit
edit_node-OneId s a f event = ground arith

dh_duo_add_pair-OneId : (s : State) (a b mode : ℕ) → OneId s (dh_duo_add_pair s a b mode).0
unfolding dh_duo_add_pair emit
dh_duo_add_pair-OneId s a b mode = ground arith

dh_duo_del_pair-OneId : (s : State) (id : ℕ) → OneId s (dh_duo_del_pair s id).0
unfolding dh_duo_del_pair emit
dh_duo_del_pair-OneId s id = ground arith

dh_duo_pulse-OneId : (s : State) (id value : ℕ) → OneId s (dh_duo_pulse s id value).0
unfolding dh_duo_pulse emit feed_back dh_duo_emit_hooks
dh_duo_pulse-OneId s id value = ground arith

dh_tick_once-OneId : {s : State} → IsSound s → OneId s (dh_tick_once s)
dh_tick_once-OneId {s} v = rw ((dh_tick_once-NodesOnly s v.ring).duo) (omega arith)

pub run_command-OneId : {s : State} → IsSound s → (c : Command) → OneId s (run_command s c).0
unfolding run_command emit
run_command-OneId v (Command.add a name) = dh_add_node-OneId _ a name
run_command-OneId v (Command.del a) = dh_del_node-OneId _ a
run_command-OneId v (Command.link a b) = dh_link-OneId _ a b true
run_command-OneId v (Command.unlink a b) = dh_link-OneId _ a b false
run_command-OneId v (Command.online a w) = unfold cmd_online in edit_node-OneId _ a _ _
run_command-OneId v (Command.duo_add a b w) = dh_duo_add_pair-OneId _ a b w
run_command-OneId v (Command.duo_del a) = dh_duo_del_pair-OneId _ a
run_command-OneId v (Command.duo_pulse a w) = dh_duo_pulse-OneId _ a w
run_command-OneId v Command.duo_snapshot = omega arith
run_command-OneId v (Command.energy a w) = edit_node-OneId _ a _ _
run_command-OneId v (Command.health a w) = edit_node-OneId _ a _ _
run_command-OneId v Command.tick = dh_tick_once-OneId v
run_command-OneId v (Command.interactive w) = omega arith
run_command-OneId v (Command.tick_ms w) = omega arith
run_command-OneId v Command.snapshot = omega arith
run_command-OneId v Command.help = omega arith
run_command-OneId v Command.unknown = omega arith

pub ioctl_body-OneId : {s : State} → IsSound s → (r : Ioctl) → OneId s (ioctl_body s r).0
unfolding ioctl_body
ioctl_body-OneId v Ioctl.get_cluster = omega arith
ioctl_body-OneId v (Ioctl.get_node id) = ground arith
ioctl_body-OneId v Ioctl.step = dh_tick_once-OneId v
ioctl_body-OneId {s} v (Ioctl.add_pair a b mode) = ground (arith, dh_duo_add_pair-OneId s a b mode)
ioctl_body-OneId {s} v (Ioctl.del_pair id) = ground (arith, dh_duo_del_pair-OneId s id)
ioctl_body-OneId {s} v (Ioctl.pulse id value) = ground (arith, dh_duo_pulse-OneId s id value)
ioctl_body-OneId v (Ioctl.get_pair id) = ground arith
ioctl_body-OneId v Ioctl.dump = omega arith
ioctl_body-OneId v (Ioctl.get_simplex id) = ground arith
ioctl_body-OneId v Ioctl.unknown_ioctl = omega arith

pub set_tick_ms-OneId : (s : State) (v : ℕ) → OneId s (set_tick_ms s v)
unfolding set_tick_ms emit
set_tick_ms-OneId s v = omega arith

pub set_interactive-OneId : (s : State) (b : Bool) → OneId s (set_interactive s b)
unfolding set_interactive emit
set_interactive-OneId s b = omega arith

pub dh_tick_workfn-OneId : {s : State} → IsSound s → OneId s (dh_tick_workfn s)
unfolding dh_tick_workfn
dh_tick_workfn-OneId {s} v =
    ground (arith, dh_tick_once-OneId (flags-IsSound v s.interactive false))

pub hook_register-OneId : (s : State) (h : Option Hook) → OneId s (dawnhex_duo_hook_register s h).0
unfolding dawnhex_duo_hook_register emit
hook_register-OneId s h = ground arith

pub hook_unregister-OneId :
    (s : State) (h : Option Hook) → OneId s (dawnhex_duo_hook_unregister s h)
unfolding dawnhex_duo_hook_unregister emit
hook_unregister-OneId s h = ground arith

-- The loaded module has given no id.
pub no_ids : dawnhex_init.duo.next_pair_id ≡ 0
unfolding dawnhex_init dh_add_node dh_link dh_lookup_node emit
no_ids = refl
