-- ===== src/Dawnhex/Device.antt =====
-- The device file and the attributes of dawnhex_kmod.c: reading, polling, the ioctls, the two
-- attributes that can be written, and the set-up of the module.
use ryzen_build.Base.{ℕ, ◌==◌, leb, if◌then◌else◌, min}
use ryzen_build.Base.{Bool, true, false, not, ◌||◌, ◌&&◌, Option, none, some}
use ryzen_build.Base.{List, [], map, take, length, replicate}
use ryzen_build.Dawnhex.Events
use ryzen_build.Dawnhex.Events.{EventRing}
use ryzen_build.Dawnhex.Types.{Text, Node, zero_node, Pair, zero_pair, SimplexState, State, Event}
use ryzen_build.Dawnhex.Types.{Ret, ok, err, Errno, max_nodes, max_pairs, name_len}
use ryzen_build.Dawnhex.Types.Errno.{einval, enoent, enotty, efault}
use ryzen_build.Dawnhex.Nodes.{node_at, strscpy, dh_add_node, dh_link, dh_count_nodes}
use ryzen_build.Dawnhex.Nodes.{dh_count_links}
use ryzen_build.Dawnhex.Duo.{pair_at, dh_duo_lookup_pair, dh_duo_add_pair, dh_duo_del_pair}
use ryzen_build.Dawnhex.Duo.{dh_duo_pulse}
use ryzen_build.Dawnhex.Tick.{dh_tick_once}
use ryzen_build.Dawnhex.Command.{bytes, from_bool, set_interactive, set_tick_ms}

-- What `dh_read` does: it returns bytes, fails, or sleeps until there is an event.
pub data Read : Type 0 where
  got : Text → Read
  failed : Errno → Read
  blocked : Read

-- `render` is the text that `vscnprintf` makes of an event, at most 159 bytes. `writable` says
-- whether `copy_to_user` succeeds. By then the event is out of the ring.
module _ (render : Event → Text) where
  unfoldable pub dh_read : State → ℕ → Bool → State × Read
  unfolding Events.pop
  dh_read s len writable = if len == 0 then (s, got []) else elim (Events.pop Event.blank s.ring) [
    | none ↦ (s, blocked)
    | some (e, ring') ↦ (
      record s { ring = ring' },
      if not writable then failed efault else got (take (min (length (render e)) len) (render e)),
    )
  ]

-- Whether `dh_poll` reports the device as readable.
unfoldable pub dh_poll : State → Bool
unfolding Events.has_event
dh_poll s = Events.has_event s.ring

-- `struct dawnhex_node_uapi` and the fields of `struct dawnhex_cluster_uapi` that are filled in.
pub record NodeUapi : Type 0 where
  pub id : ℕ
  pub name : Text
  pub present : ℕ
  pub online : ℕ
  pub energy_ppm : ℕ
  pub health_ppm : ℕ
  pub links_mask : ℕ

pub record ClusterUapi : Type 0 where
  pub node_count : ℕ
  pub link_count : ℕ
  pub generation : ℕ
  pub interactive : ℕ
  pub tick_ms : ℕ
  pub nodes : List NodeUapi

pub record PairUapi : Type 0 where
  pub pair_id : ℕ
  pub a : ℕ
  pub b : ℕ
  pub mode : ℕ
  pub active : ℕ
  pub quotient_ppm : ℕ
  pub refraction_ppm : ℕ
  pub energy_ppm : ℕ
  pub pressure_ppm : ℕ
  pub pulses : ℕ
  pub last_value_ppm : ℕ

unfoldable pub node_uapi : Node → NodeUapi
node_uapi n = record {
  id = n.id;
  name = strscpy n.name name_len;
  present = from_bool n.present;
  online = from_bool n.online;
  energy_ppm = n.energy_ppm;
  health_ppm = n.health_ppm;
  links_mask = n.links_mask;
}

unfoldable pub pair_uapi : Pair → PairUapi
pair_uapi p = record {
  pair_id = p.pair_id;
  a = p.a;
  b = p.b;
  mode = p.mode;
  active = from_bool p.active;
  quotient_ppm = p.quotient_ppm;
  refraction_ppm = p.refraction_ppm;
  energy_ppm = p.energy_ppm;
  pressure_ppm = p.pressure_ppm;
  pulses = p.pulses;
  last_value_ppm = p.last_value_ppm;
}

-- The ioctls, with what is copied in.
pub data Ioctl : Type 0 where
  get_cluster : Ioctl
  get_node : ℕ → Ioctl
  step : Ioctl
  add_pair : ℕ → ℕ → ℕ → Ioctl
  del_pair : ℕ → Ioctl
  pulse : ℕ → ℕ → Ioctl
  get_pair : ℕ → Ioctl
  dump : Ioctl
  get_simplex : ℕ → Ioctl
  unknown_ioctl : Ioctl

-- What is copied out beside a return of 0. `get_simplex` copies the ladder with its pair's id.
pub data Reply : Type 0 where
  nothing : Reply
  cluster : ClusterUapi → Reply
  node : NodeUapi → Reply
  out_pair_id : ℕ → Reply
  pair : PairUapi → Reply
  pairs : ℕ → List PairUapi → Reply
  simplex : ℕ → SimplexState → Reply
  error : Errno → Reply

abbrev with_ret : State × Ret → State × Reply
with_ret (s, ok) = (s, nothing)
with_ret (s, err e) = (s, error e)

unfoldable pub cluster_of : State → ClusterUapi
unfolding node_uapi
cluster_of s = record {
  node_count = dh_count_nodes s;
  link_count = dh_count_links s;
  generation = s.generation;
  interactive = from_bool s.interactive;
  tick_ms = s.tick_ms;
  nodes = map node_uapi s.nodes;
}

-- The body of an ioctl, between the copies from and to user space.
unfoldable pub ioctl_body : State → Ioctl → State × Reply
unfolding cluster_of node_uapi pair_uapi
ioctl_body s get_cluster = (s, cluster (cluster_of s))
ioctl_body s (get_node id) =
    if leb max_nodes id || not (node_at s id).present
    then (s, error enoent)
    else (s, node (node_uapi (node_at s id)))
ioctl_body s step = (dh_tick_once s, nothing)
ioctl_body s (add_pair a b mode) =
    let (s', r, id) = dh_duo_add_pair s a b mode in
    elim r [ ok ↦ (s', out_pair_id id) | err e ↦ (s', error e) ]
ioctl_body s (del_pair id) = with_ret (dh_duo_del_pair s id)
ioctl_body s (pulse id value) = with_ret (dh_duo_pulse s id value)
ioctl_body s (get_pair id) = elim (dh_duo_lookup_pair s id) [
  | none ↦ (s, error enoent)
  | some k ↦ (s, pair (pair_uapi (pair_at s k)))
]
ioctl_body s dump = (s, pairs s.duo.pair_count (map pair_uapi (take s.duo.pair_count s.duo.pairs)))
ioctl_body s (get_simplex id) = elim (dh_duo_lookup_pair s id) [
  | none ↦ (s, error enoent)
  | some k ↦ (s, simplex (pair_at s k).pair_id (pair_at s k).simplex)
]
ioctl_body s unknown_ioctl = (s, error enotty)

-- Which ioctls copy their argument in, and which replies are copied out.
abbrev pub copies_in : Ioctl → Bool
copies_in get_cluster = false
copies_in step = false
copies_in dump = false
copies_in unknown_ioctl = false
copies_in _ = true

unfoldable pub copy_out : Bool → Reply → Reply
copy_out writable nothing = nothing
copy_out writable (error e) = error e
copy_out true r = r
copy_out false r = error efault

-- `readable` and `writable` say whether the copies succeed.
unfoldable pub dh_ioctl : State → Ioctl → Bool → Bool → State × Reply
unfolding ioctl_body copy_out
dh_ioctl s req readable writable =
    if copies_in req && not readable
    then (s, error efault)
    else let (s', r) = ioctl_body s req in (s', copy_out writable r)

-- The writable attributes, after `kstrtou32` and `kstrtobool`, which give `none` for a text that
-- is no number.
unfoldable pub tick_ms_store : State → Option ℕ → State × Ret
tick_ms_store s none = (s, err einval)
tick_ms_store s (some v) = (set_tick_ms s v, ok)

unfoldable pub interactive_store : State → Option Bool → State × Ret
interactive_store s none = (s, err einval)
interactive_store s (some v) = (set_interactive s v, ok)

-- The state that `dawnhex_init` has before the first node is added.
unfoldable pub zero_state : State
unfolding Events.empty_ring
zero_state = record {
  ring = Events.empty_ring Event.blank;
  tick_ms = 500;
  interactive = true;
  generation = 0;
  nodes = replicate max_nodes zero_node;
  duo = record {
    pairs = replicate max_pairs zero_pair;
    pair_count = 0;
    next_pair_id = 0;
    hooks = [];
  };
  scheduled = false;
  hook_calls = [];
}

-- The module once it is loaded, if `misc_register` succeeds.
unfoldable pub dawnhex_init : State
unfolding zero_state
dawnhex_init =
    let (s1, r1) = dh_add_node zero_state 0 (bytes "core") in
    let (s2, r2) = dh_add_node s1 1 (bytes "mesh-a") in
    let (s3, r3) = dh_add_node s2 2 (bytes "mesh-b") in
    let (s4, r4) = dh_link s3 0 1 true in
    let (s5, r5) = dh_link s4 0 2 true in record s5 { scheduled = true }
