-- ===== src/Ctl/Calls.antt =====
-- A run of the tool against the calls that the kernel module takes.
use ryzen_build.Base.{ℕ, ◌≡◌, refl, if◌then◌else◌, bytes, same_text, strtoul_u32}
use ryzen_build.Base.{Bool, true, false, Option, none, some, List, [], ◌∷◌}
use ryzen_build.Dawnhex.Types.{Text, State, Event}
use ryzen_build.Dawnhex.Command.{Written, dh_write}
use ryzen_build.Dawnhex.Device.{Read, Ioctl, Reply, dh_read, dh_ioctl}
use ryzen_build.Dawnhex.Device.Ioctl.{
  get_cluster, get_node, add_pair, del_pair, pulse, get_pair, dump, get_simplex,
}
use ryzen_build.Dawnhex.Sound.Run.{Call, step, run}
use ryzen_build.Ctl.{
  Run, refused, after_ioctl, call_ioctl, after_write, after_read, with_one, with_two, with_three,
  write_text, command, other_command, main,
}

after_ioctl_state : (x : State × Reply) → (after_ioctl x).state ≡ x.0
after_ioctl_state (s, Reply.nothing) = refl
after_ioctl_state (s, Reply.cluster c) = refl
after_ioctl_state (s, Reply.node n) = refl
after_ioctl_state (s, Reply.out_pair_id id) = refl
after_ioctl_state (s, Reply.pair p) = refl
after_ioctl_state (s, Reply.pairs n ps) = refl
after_ioctl_state (s, Reply.simplex id x) = refl
after_ioctl_state (s, Reply.error e) = refl

after_write_state : (x : State × Written) → (after_write x).state ≡ x.0
after_write_state (s, Written.wrote n) = refl
after_write_state (s, Written.failed e) = refl

after_read_state : (x : State × Read) → (after_read x).state ≡ x.0
after_read_state (s, Read.got t) = refl
after_read_state (s, Read.failed e) = refl
after_read_state (s, Read.blocked) = refl

-- What a command does with its arguments: the call that it makes of the module, if there are enough of
-- them.
abbrev no_number : Ioctl → List Text → Option Call
no_number r args = some (Call.ioctl r true true)

abbrev one_number : (ℕ → Ioctl) → List Text → Option Call
one_number f [] = none
one_number f (x ∷ rest) = some (Call.ioctl (f (strtoul_u32 x)) true true)

abbrev two_numbers : (ℕ → ℕ → Ioctl) → List Text → Option Call
two_numbers f [] = none
two_numbers f (x ∷ []) = none
two_numbers f (x ∷ y ∷ rest) = some (Call.ioctl (f (strtoul_u32 x) (strtoul_u32 y)) true true)

abbrev three_numbers : (ℕ → ℕ → ℕ → Ioctl) → List Text → Option Call
three_numbers f [] = none
three_numbers f (x ∷ []) = none
three_numbers f (x ∷ y ∷ []) = none
three_numbers f (x ∷ y ∷ z ∷ rest) =
    some (Call.ioctl (f (strtoul_u32 x) (strtoul_u32 y) (strtoul_u32 z)) true true)

abbrev one_text : List Text → Option Call
one_text [] = none
one_text (text ∷ rest) = some (Call.write true text)

-- The table of the commands.
abbrev Meaning : Type 0
Meaning = Text × (List Text → Option Call)

abbrev commands : List Meaning
commands =
    (bytes "cmd", one_text)
    ∷ (bytes "read", λ args. some (Call.read 255 true))
    ∷ (bytes "duo-add", three_numbers add_pair)
    ∷ (bytes "duo-del", one_number del_pair)
    ∷ (bytes "duo-pulse", two_numbers pulse)
    ∷ (bytes "duo-get", one_number get_pair)
    ∷ (bytes "duo-dump", no_number dump)
    ∷ (bytes "duo-simplex", one_number get_simplex)
    ∷ (bytes "cluster", no_number get_cluster)
    ∷ (bytes "node", one_number get_node)
    ∷ (bytes "step", no_number Ioctl.step)
    ∷ []

abbrev meant : List Meaning → Text → List Text → Option Call
meant [] name args = none
meant ((n, f) ∷ rest) name args = if same_text name n then f args else meant rest name args

-- The call that a run makes.
abbrev pub call_of : Bool → List Text → Option Call
call_of opened [] = none
call_of opened (name ∷ args) = if opened then meant commands name args else none

-- How the run ends that has made the call.
abbrev pub answered : (Event → Text) → State → Option Call → Run
answered render s (some (Call.write b text)) = after_write (dh_write s b text)
answered render s (some (Call.read n b)) = after_read (dh_read render s n b)
answered render s (some (Call.ioctl r a b)) = after_ioctl (dh_ioctl s r a b)
answered render s c = refused s

abbrev pub calls : Option Call → List Call
calls none = []
calls (some c) = c ∷ []

-- The run ends as the call answers, and leaves the module as the call does.
pub record IsCall (render : Event → Text) (s : State) (c : Option Call) (r : Run) : Type 0 where
  pub ends : r ≡ answered render s c
  pub same : r.state ≡ run render s (calls c)

module _ (render : Event → Text) (s : State) where
  refused-IsCall : IsCall render s none (refused s)
  unfolding run
  refused-IsCall = record { ends = refl; same = refl }

  ioctl-IsCall : (r : Ioctl) → IsCall render s (some (Call.ioctl r true true)) (call_ioctl s r)
  unfolding run step call_ioctl
  ioctl-IsCall r = record { ends = refl; same = after_ioctl_state (dh_ioctl s r true true) }

  write-IsCall : (args : List Text) → IsCall render s (one_text args) (write_text s args)
  unfolding run step
  write-IsCall [] = refused-IsCall
  write-IsCall (text ∷ rest) = record {
    ends = refl;
    same = after_write_state (dh_write s true text);
  }

  read-IsCall : IsCall render s (some (Call.read 255 true)) (after_read (dh_read render s 255 true))
  unfolding run step
  read-IsCall = record { ends = refl; same = after_read_state (dh_read render s 255 true) }

  one-IsCall :
      (f : ℕ → Ioctl) (args : List Text) → IsCall render s (one_number f args) (with_one s f args)
  one-IsCall f [] = refused-IsCall
  one-IsCall f (x ∷ rest) = ioctl-IsCall (f (strtoul_u32 x))

  two-IsCall :
      (f : ℕ → ℕ → Ioctl) (args : List Text)
      → IsCall render s (two_numbers f args) (with_two s f args)
  two-IsCall f [] = refused-IsCall
  two-IsCall f (x ∷ []) = refused-IsCall
  two-IsCall f (x ∷ y ∷ rest) = ioctl-IsCall (f (strtoul_u32 x) (strtoul_u32 y))

  three-IsCall :
      (f : ℕ → ℕ → ℕ → Ioctl) (args : List Text)
      → IsCall render s (three_numbers f args) (with_three s f args)
  three-IsCall f [] = refused-IsCall
  three-IsCall f (x ∷ []) = refused-IsCall
  three-IsCall f (x ∷ y ∷ []) = refused-IsCall
  three-IsCall f (x ∷ y ∷ z ∷ rest) =
      ioctl-IsCall (f (strtoul_u32 x) (strtoul_u32 y) (strtoul_u32 z))

  either-IsCall :
      (b : Bool) (c d : Option Call) (x y : Run)
      → IsCall render s c x
      → IsCall render s d y
      → IsCall render s (if b then c else d) (if b then x else y)
  either-IsCall true c d x y h k = h
  either-IsCall false c d x y h k = k

  command-IsCall :
      (name : Text) (args : List Text)
      → IsCall render s (meant commands name args) (command render s name args)
  unfolding command other_command
  command-IsCall name args =
      either-IsCall (same_text name (bytes "cmd")) _ _ _ _ (write-IsCall args) (
        either-IsCall (same_text name (bytes "read")) _ _ _ _ read-IsCall (
          either-IsCall (same_text name (bytes "duo-add")) _ _ _ _ (three-IsCall add_pair args) (
            either-IsCall (same_text name (bytes "duo-del")) _ _ _ _ (one-IsCall del_pair args) (
              either-IsCall (same_text name (bytes "duo-pulse")) _ _ _ _ (two-IsCall pulse args) (
                either-IsCall (same_text name (bytes "duo-get")) _ _ _ _ (one-IsCall get_pair args)
                  (either-IsCall (same_text name (bytes "duo-dump")) _ _ _ _ (ioctl-IsCall dump) (
                    either-IsCall (same_text name (bytes "duo-simplex")) _ _ _ _
                      (one-IsCall get_simplex args)
                      (either-IsCall (same_text name (bytes "cluster")) _ _ _ _
                        (ioctl-IsCall get_cluster)
                        (either-IsCall (same_text name (bytes "node")) _ _ _ _
                          (one-IsCall get_node args)
                          (either-IsCall (same_text name (bytes "step")) _ _ _ _
                            (ioctl-IsCall Ioctl.step) refused-IsCall))))))))))

  -- A run of the tool makes the one call of the module that the table has for its command, with the
  -- numbers of its first arguments or its text, ends as that call answers and leaves the module as that
  -- call does; it makes none, is refused and leaves the module as it is, where the device does not open, the table
  -- does not have the command or there are too few arguments.
  pub main-IsCall :
      (opened : Bool) (argv : List Text)
      → IsCall render s (call_of opened argv) (main render s opened argv)
  unfolding main
  main-IsCall opened [] = refused-IsCall
  main-IsCall opened (name ∷ args) =
      either-IsCall opened _ _ _ _ (command-IsCall name args) refused-IsCall
