-- ===== src/Dawnhex/Show.antt =====
-- The attributes of dawnhex_kmod.c that show the state: each fills one page with text.
pub mod Page
use ryzen_build.Base.{
  ℕ, ◌+◌, ◌-◌, leb, if◌then◌else◌, bytes, decimal, hex_loop, labelled, length, take, get_or,
}
use ryzen_build.Base.{Bool, true, false, not, List, [], ◌∷◌, ◌++◌, map}
use ryzen_build.Dawnhex.Types.{Text, Node, Pair, SimplexLevel, State}
use ryzen_build.Dawnhex.Nodes.{dh_count_nodes, dh_count_links}
use ryzen_build.Dawnhex.Command.{from_bool}

-- `PAGE_SIZE` on the machines that the module is for.
abbrev pub page_size : ℕ
page_size = 4096

-- `scnprintf` of `text` behind the `length buf` bytes that are there, in what is left of the page.
unfoldable pub scnprintf : Text → Text → Text
scnprintf buf text = buf ++ take (page_size - length buf - 1) text

unfoldable pub all_written : List Text → Text → Text
all_written [] buf = buf
all_written (t ∷ rest) buf = all_written rest (scnprintf buf t)

-- The loops over pairs, on the texts that each round writes.
unfoldable pub show_loop : List (List Text) → Text → Text
show_loop [] buf = buf
show_loop (texts ∷ rest) buf =
    let written = all_written texts buf in
    let more = show_loop rest written in if leb page_size (length written) then written else more

abbrev newline : Text
newline = 10 ∷ []

unfoldable pub summary_text : State → Text
summary_text s =
    labelled (
      (bytes "generation=", s.generation)
      ∷ (bytes " nodes=", dh_count_nodes s)
      ∷ (bytes " links=", dh_count_links s)
      ∷ (bytes " interactive=", from_bool s.interactive)
      ∷ (bytes " tick_ms=", s.tick_ms)
      ∷ [])
    ++ newline

unfoldable pub node_text : Node → Text
node_text n =
    labelled ((bytes "id=", n.id) ∷ [])
    ++ (bytes " name="
        ++ (n.name
            ++ (labelled (
                  (bytes " online=", from_bool n.online)
                  ∷ (bytes " energy=", n.energy_ppm)
                  ∷ (bytes " health=", n.health_ppm)
                  ∷ [])
                ++ (bytes " links=0x" ++ hex_loop 16 n.links_mask newline))))

unfoldable pub pair_text : Pair → Text
pair_text p =
    labelled (
      (bytes "pair=", p.pair_id)
      ∷ (bytes " a=", p.a)
      ∷ (bytes " b=", p.b)
      ∷ (bytes " mode=", p.mode)
      ∷ (bytes " active=", from_bool p.active)
      ∷ (bytes " quotient=", p.quotient_ppm)
      ∷ (bytes " refraction=", p.refraction_ppm)
      ∷ (bytes " energy=", p.energy_ppm)
      ∷ (bytes " pressure=", p.pressure_ppm)
      ∷ (bytes " pulses=", p.pulses)
      ∷ (bytes " last=", p.last_value_ppm)
      ∷ [])
    ++ newline

unfoldable pub ladder_text : Pair → Text
ladder_text p =
    labelled (
      (bytes "pair=", p.pair_id)
      ∷ (bytes " base_ret=", p.simplex.base_retained_ppm)
      ∷ (bytes " rec_ret=", p.simplex.recursive_retained_ppm)
      ∷ (bytes " rec_red=", p.simplex.recursive_reduction_ppm)
      ∷ (bytes " rec_cross=", p.simplex.recursive_crosshatch_ppm)
      ∷ (bytes " rec_cold=", p.simplex.recursive_coldness_ppm)
      ∷ (bytes " rec_energy=", p.simplex.recursive_energy_ppm)
      ∷ (bytes " levels=", p.simplex.level_count)
      ∷ [])
    ++ newline

unfoldable pub level_text : SimplexLevel → Text
level_text l =
    labelled (
      (bytes "  level0 fib=", l.fib_value)
      ∷ (bytes " retained=", l.retained_ppm)
      ∷ (bytes " reduction=", l.reduction_ppm)
      ∷ (bytes " cross=", l.crosshatch_ppm)
      ∷ (bytes " cold=", l.coldness_ppm)
      ∷ (bytes " energy=", l.energy_ppm)
      ∷ [])
    ++ newline

-- The first level is there where the count says that there is one.
unfoldable pub ladder_texts : Pair → List Text
ladder_texts p = elim p.simplex.levels [
  | [] ↦ ladder_text p ∷ []
  | (l ∷ ls) ↦
      if leb 1 p.simplex.level_count then ladder_text p ∷ level_text l ∷ [] else ladder_text p ∷ []
]

abbrev pub one : Text → List Text
one t = t ∷ []

-- The loop over the nodes, which passes over those that are not present.
unfoldable pub nodes_shown : List Node → Text → Text
nodes_shown [] buf = buf
nodes_shown (n ∷ rest) buf =
    let written = (if not n.present then buf else scnprintf buf (node_text n)) in
    let more = nodes_shown rest written in
    if not n.present then more else if leb page_size (length written) then written else more

abbrev pub pairs_in_use : State → List Pair
pairs_in_use s = take s.duo.pair_count s.duo.pairs

unfoldable pub summary_show : State → Text
summary_show s = scnprintf [] (summary_text s)

unfoldable pub topology_show : State → Text
topology_show s = nodes_shown s.nodes []

unfoldable pub tick_ms_show : State → Text
tick_ms_show s = scnprintf [] (decimal s.tick_ms ++ newline)

unfoldable pub interactive_show : State → Text
interactive_show s = scnprintf [] (decimal (from_bool s.interactive) ++ newline)

unfoldable pub duo_show : State → Text
duo_show s =
    show_loop (map (λ p. one (pair_text p)) (pairs_in_use s))
      (scnprintf [] (labelled ((bytes "pair_count=", s.duo.pair_count) ∷ []) ++ newline))

unfoldable pub duo_simplex_show : State → Text
duo_simplex_show s = show_loop (map ladder_texts (pairs_in_use s)) []
