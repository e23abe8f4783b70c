-- ===== src/Ctl/Tests.antt =====
-- Runs of the tool, and the theorems at concrete inputs.
use ryzen_build.Base.{◌+◌, ◌^◌, ◌<◌, ◌≡◌, refl, arith, bytes, decimal, List, [], ◌∷◌, true}
use ryzen_build.Base.{
  same_text, strtoul_u32, strtoull, behind_spaces, digits, decimal_loop, hex_loop,
}
use ryzen_build.Dawnhex.Nodes.{dh_link, dh_add_node, emit}
use ryzen_build.Dawnhex.Duo.{dh_duo_add_pair}
use ryzen_build.Dawnhex.Device.{dh_ioctl, ioctl_body, copy_out, node_uapi}
use ryzen_build.Ctl.{command, other_command, call_ioctl, shown, node_line}
use ryzen_build.Base.{labelled}
use ryzen_build.Dawnhex.Types.{Text, Event}
use ryzen_build.Dawnhex.Duo.{new_pair}
use ryzen_build.Dawnhex.Sound.Entry.{dawnhex_init-IsSound}
use ryzen_build.Dawnhex.Device.{dawnhex_init, pair_uapi}
use ryzen_build.Ctl.{exited, main, succeeded, pair_line}
use ryzen_build.Ctl.Calls.{IsCall, call_of, main-IsCall}
use ryzen_build.Ctl.Shown.{main-duo_get-duo_add}

abbrev render : Event → Text
render e = bytes "event\n"

abbrev duo_add : List Text
duo_add = bytes "duo-add" ∷ bytes "0" ∷ bytes "1" ∷ bytes "3" ∷ []

main-IsCall_example :
    IsCall render dawnhex_init (call_of true duo_add) (main render dawnhex_init true duo_add)
main-IsCall_example = main-IsCall render dawnhex_init true duo_add

node_test :
    (main render dawnhex_init true (bytes "node" ∷ bytes " +1x" ∷ [])).out
    ≡ bytes "id=1 name=mesh-a online=1 energy=500000 health=1000000 links=0x0000000000000001\n"
unfolding main command same_text call_ioctl dh_ioctl ioctl_body node_uapi copy_out other_command
    strtoul_u32 strtoull behind_spaces digits dawnhex_init dh_link dh_add_node emit shown node_line
    labelled decimal decimal_loop hex_loop
node_test = refl

added : (main render dawnhex_init true duo_add).exit ≡ exited 0
unfolding main command same_text call_ioctl dh_ioctl strtoul_u32 strtoull behind_spaces digits
    dawnhex_init dh_link dh_add_node emit dh_duo_add_pair
added = refl

room : dawnhex_init.duo.next_pair_id + 1 < 2 ^ 32
unfolding dawnhex_init dh_link dh_add_node emit
room = omega arith

main-duo_get-duo_add_example :
    ((main render dawnhex_init true duo_add).out ≡ bytes "pair_id=1\n")
    × (main render
          (main render dawnhex_init true duo_add).state
          true
          (bytes "duo-get" ∷ bytes "1" ∷ [])
        ≡ succeeded
            (main render dawnhex_init true duo_add).state
            (pair_line (pair_uapi (new_pair 1 0 1 3))))
unfolding decimal decimal_loop main strtoul_u32 strtoull behind_spaces digits dawnhex_init dh_link
    dh_add_node emit
main-duo_get-duo_add_example =
    main-duo_get-duo_add render dawnhex_init (bytes "0") (bytes "1") (bytes "3") []
      (dawnhex_init-IsSound.table) room added
