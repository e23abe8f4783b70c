-- ===== src/Ctl.antt =====
-- dawnhex_ctl.c, the command-line tool, as it drives the device of the kernel module.
pub mod Shown
pub mod Calls
mod Tests
use ryzen_build.Base.{
  ℕ, zero, suc, if◌then◌else◌, bytes, same_text, decimal, hex_loop, labelled, strtoul_u32, get_or,
  take,
}
use ryzen_build.Base.{Bool, true, false, not, List, [], ◌∷◌, ◌++◌, ◌==◌}
use ryzen_build.Dawnhex.Types.{Text, State, Event, SimplexLevel, SimplexState}
use ryzen_build.Dawnhex.Command.{Written, dh_write}
use ryzen_build.Dawnhex.Device
use ryzen_build.Dawnhex.Device.{
  Read, NodeUapi, ClusterUapi, PairUapi, Ioctl, Reply, dh_read, dh_ioctl,
}
use ryzen_build.Dawnhex.Device.Ioctl.{
  get_cluster, get_node, step, add_pair, del_pair, pulse, get_pair, dump, get_simplex,
}

-- How a run ends: the status of `exit`, or never while it waits for an event.
pub data Exit : Type 0 where
  exited : ℕ → Exit
  asleep : Exit

-- The state of the module after a run, what stands in the standard output, and the end.
pub record Run : Type 0 where
  pub state : State
  pub out : Text
  pub exit : Exit

abbrev pub succeeded : State → Text → Run
succeeded s out = record { state = s; out = out; exit = exited 0 }

-- An error goes to the standard error and ends with 1.
abbrev pub refused : State → Run
refused s = record { state = s; out = []; exit = exited 1 }

abbrev newline : Text
newline = 10 ∷ []

unfoldable pub pair_line : PairUapi → Text
pair_line p =
    labelled (
      (bytes "pair=", p.pair_id)
      ∷ (bytes " a=", p.a)
      ∷ (bytes " b=", p.b)
      ∷ (bytes " mode=", p.mode)
      ∷ (bytes " active=", p.active)
      ∷ (bytes " quotient=", p.quotient_ppm)
      ∷ (bytes " refraction=", p.refraction_ppm)
      ∷ (bytes " energy=", p.energy_ppm)
      ∷ (bytes " pressure=", p.pressure_ppm)
      ∷ (bytes " pulses=", p.pulses)
      ∷ (bytes " last=", p.last_value_ppm)
      ∷ [])
    ++ newline

unfoldable pub node_line : NodeUapi → Text
node_line n =
    labelled ((bytes "id=", n.id) ∷ [])
    ++ (bytes " name="
        ++ (n.name
            ++ (labelled (
                  (bytes " online=", n.online)
                  ∷ (bytes " energy=", n.energy_ppm)
                  ∷ (bytes " health=", n.health_ppm)
                  ∷ [])
                ++ (bytes " links=0x" ++ hex_loop 16 n.links_mask newline))))

-- The loop over the nodes of a cluster.
unfoldable pub node_lines : List NodeUapi → Text
node_lines [] = []
node_lines (n ∷ rest) = if n.present == 0 then node_lines rest else node_line n ++ node_lines rest

unfoldable pub pair_lines : List PairUapi → Text
pair_lines [] = []
pair_lines (p ∷ rest) = pair_line p ++ pair_lines rest

-- The loop over the `left` shares from `m` on, with commas between them.
unfoldable pub mips : List ℕ → ℕ → ℕ → Text
mips shares m zero = []
mips shares m (suc zero) = decimal (get_or shares m 0)
mips shares m (suc (suc left)) =
    decimal (get_or shares m 0) ++ (44 ∷ mips shares (suc m) (suc left))

unfoldable pub level_line : SimplexLevel → Text
level_line l =
    labelled (
      (bytes "level=", l.level_index)
      ∷ (bytes " fib=", l.fib_value)
      ∷ (bytes " weight=", l.fib_weight_ppm)
      ∷ (bytes " retained=", l.retained_ppm)
      ∷ (bytes " reduction=", l.reduction_ppm)
      ∷ (bytes " cross=", l.crosshatch_ppm)
      ∷ (bytes " cold=", l.coldness_ppm)
      ∷ (bytes " energy=", l.energy_ppm)
      ∷ (bytes " pressure=", l.pressure_ppm)
      ∷ [])
    ++ (bytes " mips=[" ++ (mips l.mip_retained_ppm 0 9 ++ bytes "]\n"))

unfoldable pub level_lines : List SimplexLevel → Text
level_lines [] = []
level_lines (l ∷ rest) = level_line l ++ level_lines rest

unfoldable pub simplex_lines : ℕ → SimplexState → Text
simplex_lines pair_id x =
    labelled (
      (bytes "pair=", pair_id)
      ∷ (bytes " levels=", x.level_count)
      ∷ (bytes " nodes=", x.node_count)
      ∷ (bytes " base_ret=", x.base_retained_ppm)
      ∷ (bytes " rec_ret=", x.recursive_retained_ppm)
      ∷ (bytes " rec_red=", x.recursive_reduction_ppm)
      ∷ (bytes " rec_cross=", x.recursive_crosshatch_ppm)
      ∷ (bytes " rec_cold=", x.recursive_coldness_ppm)
      ∷ (bytes " rec_energy=", x.recursive_energy_ppm)
      ∷ [])
    ++ (newline ++ level_lines (take x.level_count x.levels))

unfoldable pub cluster_lines : ClusterUapi → Text
cluster_lines c =
    labelled (
      (bytes "generation=", c.generation)
      ∷ (bytes " nodes=", c.node_count)
      ∷ (bytes " links=", c.link_count)
      ∷ (bytes " interactive=", c.interactive)
      ∷ (bytes " tick_ms=", c.tick_ms)
      ∷ [])
    ++ (newline ++ node_lines c.nodes)

-- What is printed of a reply.
unfoldable pub shown : Reply → Text
shown Reply.nothing = []
shown (Reply.cluster c) = cluster_lines c
shown (Reply.node n) = node_line n
shown (Reply.out_pair_id id) = bytes "pair_id=" ++ (decimal id ++ newline)
shown (Reply.pair p) = pair_line p
shown (Reply.pairs count ps) =
    labelled ((bytes "pair_count=", count) ∷ []) ++ (newline ++ pair_lines (take count ps))
shown (Reply.simplex id x) = simplex_lines id x
shown (Reply.error e) = []

abbrev pub after_ioctl : State × Reply → Run
after_ioctl (s, Reply.error e) = refused s
after_ioctl (s, r) = succeeded s (shown r)

-- An `ioctl` on the tool's own structures, which the copies can always reach.
unfoldable pub call_ioctl : State → Ioctl → Run
call_ioctl s r = after_ioctl (dh_ioctl s r true true)

abbrev pub after_write : State × Written → Run
after_write (s, Written.wrote n) = succeeded s []
after_write (s, Written.failed e) = refused s

-- `printf` stops at a 0.
abbrev pub string_of : Text → Text
string_of [] = []
string_of (c ∷ rest) = if c == 0 then [] else c ∷ string_of rest

abbrev pub after_read : State × Read → Run
after_read (s, Read.got text) = succeeded s (string_of text ++ newline)
after_read (s, Read.failed e) = refused s
after_read (s, Read.blocked) = record { state = s; out = []; exit = asleep }

-- A command whose first arguments are numbers; the rest of the arguments is ignored.
abbrev pub with_one : State → (ℕ → Ioctl) → List Text → Run
with_one s f [] = refused s
with_one s f (x ∷ rest) = call_ioctl s (f (strtoul_u32 x))

abbrev pub with_two : State → (ℕ → ℕ → Ioctl) → List Text → Run
with_two s f [] = refused s
with_two s f (x ∷ rest) = with_one s (f (strtoul_u32 x)) rest

abbrev pub with_three : State → (ℕ → ℕ → ℕ → Ioctl) → List Text → Run
with_three s f [] = refused s
with_three s f (x ∷ rest) = with_two s (f (strtoul_u32 x)) rest

abbrev pub write_text : State → List Text → Run
write_text s [] = refused s
write_text s (text ∷ rest) = after_write (dh_write s true text)

-- The tests from `duo-dump` on.
unfoldable pub other_command : State → Text → List Text → Run
other_command s name args =
    if same_text name (bytes "duo-dump")
    then call_ioctl s dump
    else if same_text name (bytes "duo-simplex")
    then with_one s get_simplex args
    else if same_text name (bytes "cluster")
    then call_ioctl s get_cluster
    else if same_text name (bytes "node")
    then with_one s get_node args
    else if same_text name (bytes "step")
    then call_ioctl s step
    else refused s

module _ (render : Event → Text) where
  -- The tests of `argv[1]`, in their order.
  unfoldable pub command : State → Text → List Text → Run
  command s name args =
      if same_text name (bytes "cmd")
      then write_text s args
      else if same_text name (bytes "read")
      then after_read (dh_read render s 255 true)
      else if same_text name (bytes "duo-add")
      then with_three s add_pair args
      else if same_text name (bytes "duo-del")
      then with_one s del_pair args
      else if same_text name (bytes "duo-pulse")
      then with_two s pulse args
      else if same_text name (bytes "duo-get")
      then with_one s get_pair args
      else other_command s name args

  -- The arguments are those behind the program's name; `opened` says whether the device opens.
  unfoldable pub main : State → Bool → List Text → Run
  main s opened [] = refused s
  main s opened (name ∷ args) = if opened then command s name args else refused s
