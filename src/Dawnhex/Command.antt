-- ===== src/Dawnhex/Command.antt =====
-- The text commands of dawnhex_kmod.c: `dh_handle_command_locked` and `dh_write`.
pub mod Shadow
pub use ryzen_build.Base.{bytes}
use Prim.Native.String.{String}
use ryzen_build.Base.{ℕ, ◌==◌, if◌then◌else◌, min}
use ryzen_build.Base.{Bool, true, false, not, Option, none, some}
use ryzen_build.Base.{List, [], ◌∷◌, ◌||◌, take, length}
use ryzen_build.Dawnhex.Fixed.{dh_clamp_u32}
use ryzen_build.Dawnhex.Types.{Text, Node, State, Event, Ret, ok, err, Errno}
use ryzen_build.Dawnhex.Types.Errno.{einval, enoent, efault}
use ryzen_build.Dawnhex.Nodes.{emit, set_node, bump, dh_lookup_node, dh_add_node, dh_del_node}
use ryzen_build.Dawnhex.Nodes.{dh_link, dh_count_nodes, dh_count_links}
use ryzen_build.Dawnhex.Duo.{dh_duo_add_pair, dh_duo_del_pair, dh_duo_pulse}
use ryzen_build.Dawnhex.Tick.{dh_tick_once}
use ryzen_build.Dawnhex.Scan.{Arg, num, str, Directive, space, unsigned, string, literal}
use ryzen_build.Dawnhex.Scan.{sscanf, starts_with}

-- "word %u", "word %u %u", "word %u %u %u" and "word %u %31s"
abbrev pub u_format : String → List Directive
u_format w = literal (bytes w) (space ∷ unsigned ∷ [])

abbrev pub uu_format : String → List Directive
uu_format w = literal (bytes w) (space ∷ unsigned ∷ space ∷ unsigned ∷ [])

abbrev pub uuu_format : String → List Directive
uuu_format w = literal (bytes w) (space ∷ unsigned ∷ space ∷ unsigned ∷ space ∷ unsigned ∷ [])

abbrev pub us_format : String → List Directive
us_format w = literal (bytes w) (space ∷ unsigned ∷ space ∷ string ∷ [])

abbrev pub to_bool : ℕ → Bool
to_bool v = not (v == 0)

abbrev pub from_bool : Bool → ℕ
from_bool true = 1
from_bool false = 0

-- The commands that set one field of a node.
unfoldable pub edit_node : State → ℕ → (Node → Node) → (Node → Event) → State × Ret
edit_node s a f event = elim (dh_lookup_node s a) [
  | none ↦ (s, err enoent)
  | some n ↦ (emit (bump (set_node s a (f n))) (event (f n)), ok)
]

unfoldable pub cmd_online : State → ℕ → ℕ → State × Ret
cmd_online s a v =
    edit_node s a (λ n. record n { online = to_bool v })
      (λ n. Event.online a (from_bool (to_bool v)))

unfoldable pub cmd_energy : State → ℕ → ℕ → State × Ret
cmd_energy s a v =
    edit_node s a (λ n. record n { energy_ppm = dh_clamp_u32 v 0 1000000 })
      (λ n. Event.energy a n.energy_ppm)

unfoldable pub cmd_health : State → ℕ → ℕ → State × Ret
cmd_health s a v =
    edit_node s a (λ n. record n { health_ppm = dh_clamp_u32 v 0 1000000 })
      (λ n. Event.health a n.health_ppm)

-- Setting `interactive` queues the tick or cancels it.
unfoldable pub set_interactive : State → Bool → State
set_interactive s v =
    emit (record s { interactive = v; scheduled = v }) (Event.interactive (from_bool v))

unfoldable pub set_tick_ms : State → ℕ → State
set_tick_ms s v =
    let ms = dh_clamp_u32 v 10 60000 in emit (record s { tick_ms = ms }) (Event.tick_ms ms)

unfoldable pub cmd_snapshot : State → State
cmd_snapshot s = emit s (Event.snapshot s.generation (dh_count_nodes s) (dh_count_links s))

-- A command as its text reads; the first of the tests of the source that matches decides.
pub data Command : Type 0 where
  add : ℕ → Text → Command
  del : ℕ → Command
  link unlink online : ℕ → ℕ → Command
  duo_add : ℕ → ℕ → ℕ → Command
  duo_del : ℕ → Command
  duo_pulse : ℕ → ℕ → Command
  duo_snapshot : Command
  energy health : ℕ → ℕ → Command
  tick : Command
  interactive tick_ms : ℕ → Command
  snapshot help : Command
  unknown : Command

-- A test `sscanf(...) == n`: the command, if all `n` arguments were converted.
unfoldable pub on_u : (ℕ → Command) → List Arg → Option Command
on_u f (num a ∷ []) = some (f a)
on_u f _ = none

unfoldable pub on_uu : (ℕ → ℕ → Command) → List Arg → Option Command
on_uu f (num a ∷ num b ∷ []) = some (f a b)
on_uu f _ = none

unfoldable pub on_uuu : (ℕ → ℕ → ℕ → Command) → List Arg → Option Command
on_uuu f (num a ∷ num b ∷ num c ∷ []) = some (f a b c)
on_uuu f _ = none

unfoldable pub on_us : (ℕ → Text → Command) → List Arg → Option Command
on_us f (num a ∷ str t ∷ []) = some (f a t)
on_us f _ = none

unfoldable pub on_prefix : Command → String → Text → Option Command
on_prefix c w cmd = if starts_with (bytes w) cmd then some c else none

unfoldable pub first_match : List (Option Command) → Command
first_match [] = Command.unknown
first_match (none ∷ tests) = first_match tests
first_match (some c ∷ tests) = c

-- The tests of `dh_handle_command_locked`, in its order.
unfoldable pub parse_command : Text → Command
unfolding on_u on_uu on_uuu on_us on_prefix first_match sscanf starts_with
parse_command cmd = first_match (
    on_us Command.add (sscanf (us_format "add") cmd)
    ∷ on_u Command.del (sscanf (u_format "del") cmd)
    ∷ on_uu Command.link (sscanf (uu_format "link") cmd)
    ∷ on_uu Command.unlink (sscanf (uu_format "unlink") cmd)
    ∷ on_uu Command.online (sscanf (uu_format "online") cmd)
    ∷ on_uuu Command.duo_add (sscanf (uuu_format "duo add") cmd)
    ∷ on_u Command.duo_del (sscanf (u_format "duo del") cmd)
    ∷ on_uu Command.duo_pulse (sscanf (uu_format "duo pulse") cmd)
    ∷ on_prefix Command.duo_snapshot "duo snapshot" cmd
    ∷ on_uu Command.energy (sscanf (uu_format "energy") cmd)
    ∷ on_uu Command.health (sscanf (uu_format "health") cmd)
    ∷ on_prefix Command.tick "tick" cmd
    ∷ on_u Command.interactive (sscanf (u_format "interactive") cmd)
    ∷ on_u Command.tick_ms (sscanf (u_format "tick_ms") cmd)
    ∷ on_prefix Command.snapshot "snapshot" cmd
    ∷ on_prefix Command.help "help" cmd
    ∷ [])

unfoldable pub run_command : State → Command → State × Ret
unfolding cmd_online cmd_energy cmd_health set_interactive set_tick_ms cmd_snapshot
run_command s (Command.add a name) = dh_add_node s a name
run_command s (Command.del a) = dh_del_node s a
run_command s (Command.link a b) = dh_link s a b true
run_command s (Command.unlink a b) = dh_link s a b false
run_command s (Command.online a v) = cmd_online s a v
run_command s (Command.duo_add a b v) = let (s', r, id) = dh_duo_add_pair s a b v in (s', r)
run_command s (Command.duo_del a) = dh_duo_del_pair s a
run_command s (Command.duo_pulse a v) = dh_duo_pulse s a v
run_command s Command.duo_snapshot = (emit s (Event.duo_snapshot s.duo.pair_count), ok)
run_command s (Command.energy a v) = cmd_energy s a v
run_command s (Command.health a v) = cmd_health s a v
run_command s Command.tick = (dh_tick_once s, ok)
run_command s (Command.interactive v) = (set_interactive s (to_bool v), ok)
run_command s (Command.tick_ms v) = (set_tick_ms s v, ok)
run_command s Command.snapshot = (cmd_snapshot s, ok)
run_command s Command.help = (emit s Event.help, ok)
run_command s Command.unknown = (s, err einval)

unfoldable pub dh_handle_command : State → Text → State × Ret
unfolding parse_command run_command
dh_handle_command s cmd = run_command s (parse_command cmd)

-- The bytes before the first NUL or newline: what `strreplace` leaves of the buffer as a string.
unfoldable pub first_line : Text → Text
first_line [] = []
first_line (c ∷ cs) = let rest = first_line cs in if c == 0 || c == 10 then [] else c ∷ rest

-- What `dh_write` returns: the length or an error.
pub data Written : Type 0 where
  wrote : ℕ → Written
  failed : Errno → Written

unfoldable pub write_result : ℕ → Ret → Written
write_result len ok = wrote len
write_result len (err e) = failed e

-- `readable` says whether `copy_from_user` succeeds.
unfoldable pub dh_write : State → Bool → Text → State × Written
unfolding first_line write_result
dh_write s readable buf =
    if not readable
    then (s, failed efault)
    else let (s', r) = dh_handle_command s (first_line (take (min (length buf) 127) buf)) in
      (s', write_result (length buf) r)
