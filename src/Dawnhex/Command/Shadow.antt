-- ===== src/Dawnhex/Command/Shadow.antt =====
-- The order of the tests of `dh_handle_command_locked`.
use ryzen_build.Base.{◌≡◌, refl, ◌++◌}
use ryzen_build.Dawnhex.Types.{Text, State, ok}
use ryzen_build.Dawnhex.Tick.{dh_tick_once}
use ryzen_build.Dawnhex.Command.{bytes, dh_handle_command}

-- Every command that begins with "tick" ticks the cluster once, succeeds and does nothing else,
-- whatever follows, "_ms N" too.
pub dh_handle_command-tick :
    (s : State) (rest : Text) → dh_handle_command s (bytes "tick" ++ rest) ≡ (dh_tick_once s, ok)
unfolding dh_handle_command
dh_handle_command-tick s rest = refl
