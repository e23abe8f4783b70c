-- ===== src/Dawnhex/Tests.antt =====
-- The theorems on dawnhex_kmod.c at concrete inputs, and a few runs of its commands.
use ryzen_build.Base.{decimal, labelled, ◌++◌}
use ryzen_build.Dawnhex.Command.{from_bool}
use ryzen_build.Dawnhex.Show.{
  summary_show, topology_show, tick_ms_show, interactive_show, duo_show, duo_simplex_show,
  summary_text, pair_text, ladder_texts,
}
use ryzen_build.Dawnhex.Show.Page.{joined, present_lines, slot_texts, page_of, shown_lem}
use ryzen_build.Base.{ℕ, ◌+◌, ◌≡◌, ◌↔◌, ◌<◌, ◌^◌, refl, arith, true, none, some, List, [], ◌∷◌}
use ryzen_build.Base.{length}
use ryzen_build.Dawnhex.Events.{EventRing, empty_ring, push, pop}
use ryzen_build.Dawnhex.Events.Fifo.{window, pending, enqueue, push-IsValid, empty_ring-IsValid}
use ryzen_build.Dawnhex.Events.Fifo.{pending-push, pending-pop}
use ryzen_build.Dawnhex.Types.{State, Node, zero_pair, ok}
use ryzen_build.Dawnhex.Fixed.{dh_clamp_u32}
use ryzen_build.Dawnhex.Nodes.{emit, node_at, new_node, dh_add_node, dh_del_node, dh_link}
use ryzen_build.Dawnhex.Nodes.Links.{linked, linked-dh_del_node, linked-dh_link}
use ryzen_build.Dawnhex.Nodes.Wired.{IsWired}
use ryzen_build.Dawnhex.Simplex.{simplex_of, dh_duo_recompute_simplex}
use ryzen_build.Dawnhex.Simplex.Bounds.{SimplexInRange, simplex_of-SimplexInRange}
use ryzen_build.Dawnhex.Duo.{pair_at, new_pair, pulsed_pair, dh_duo_add_pair, dh_duo_del_pair}
use ryzen_build.Dawnhex.Duo.{dh_duo_pulse, dh_duo_lookup_pair}
use ryzen_build.Dawnhex.Duo.Table.{IsTable, dh_duo_lookup_pair_iff}
use ryzen_build.Dawnhex.Duo.Order.{dh_duo_add_pair-IsTable}
use ryzen_build.Dawnhex.Duo.Map.{pair_of, pair_of-dh_duo_add_pair, pair_of-dh_duo_del_pair}
use ryzen_build.Dawnhex.Duo.Map.{pair_of-dh_duo_pulse}
use ryzen_build.Dawnhex.Tick.{dh_tick_once}
use ryzen_build.Dawnhex.Tick.Laws.{after_tick, node_at-dh_tick_once}
use ryzen_build.Dawnhex.Command.{
  bytes, dh_handle_command, parse_command, Command, on_u, on_uu, on_uuu, on_us, on_prefix,
  first_match,
}
use ryzen_build.Dawnhex.Scan.{
  sscanf, starts_with, skip_spaces, scan_digits, scan_word, is_space, is_digit,
}
use ryzen_build.Dawnhex.Command.Shadow.{dh_handle_command-tick}
use ryzen_build.Dawnhex.Device.{dawnhex_init}
use ryzen_build.Dawnhex.Sound.{IsSound}
use ryzen_build.Dawnhex.Sound.Entry.{dawnhex_init-IsSound}
use ryzen_build.Dawnhex.Sound.Run.{Call, run, run-dawnhex_init-IsSound}

abbrev wired : IsWired dawnhex_init
wired = dawnhex_init-IsSound.wired

abbrev table : IsTable dawnhex_init
table = dawnhex_init-IsSound.table

-- The loaded module with a crossed pair between its first two nodes.
abbrev paired : State
paired = (dh_duo_add_pair dawnhex_init 0 1 3).0

room : dawnhex_init.duo.next_pair_id + 1 < 2 ^ 32
unfolding dawnhex_init dh_link dh_add_node emit
room = omega arith

paired-IsTable : IsTable paired
paired-IsTable = dh_duo_add_pair-IsTable dawnhex_init 0 1 3 table room

abbrev calls : List Call
calls =
    Call.write true (bytes "link 1 2")
    ∷ Call.write true (bytes "duo add 0 1 crossed")
    ∷ Call.tick_work
    ∷ Call.read 64 true
    ∷ []

run-dawnhex_init-IsSound_example : IsSound (run (λ e. bytes "event") dawnhex_init calls)
run-dawnhex_init-IsSound_example = run-dawnhex_init-IsSound (λ e. bytes "event") calls (omega arith)

abbrev one_event : EventRing ℕ
one_event = push (empty_ring 0) 7

pending-push_example : pending 0 one_event ≡ 7 ∷ []
unfolding empty_ring pending window enqueue
pending-push_example = pending-push 0 (empty_ring-IsValid 0) 7

pending-pop_example : pending 0 one_event ≡ 7 ∷ pending 0 (record one_event { ev_tail = 1 })
unfolding push empty_ring pop
pending-pop_example = pending-pop 0 (push-IsValid 0 (empty_ring-IsValid 0) 7) refl

linked-dh_del_node_example : linked (dh_del_node dawnhex_init 1).0 0 1 ≡ 0
unfolding dawnhex_init dh_del_node dh_link dh_add_node emit
linked-dh_del_node_example =
    linked-dh_del_node dawnhex_init wired.slots 0 1 (omega arith) (omega arith) 1 refl

linked-dh_link_example : linked (dh_link dawnhex_init 1 2 true).0 1 2 ≡ 1
unfolding dawnhex_init dh_del_node dh_link dh_add_node emit
linked-dh_link_example =
    linked-dh_link dawnhex_init wired.slots 1 2 (omega arith) (omega arith) 1 2 true refl

simplex_of-SimplexInRange_example : SimplexInRange (simplex_of zero_pair)
simplex_of-SimplexInRange_example = simplex_of-SimplexInRange zero_pair

dh_duo_lookup_pair_iff_example :
    (dh_duo_lookup_pair paired 1 ≡ some 0)
    ↔ ((0 < paired.duo.pair_count) × ((pair_at paired 0).pair_id ≡ 1))
dh_duo_lookup_pair_iff_example = dh_duo_lookup_pair_iff paired 1 0 paired-IsTable

pair_of-dh_duo_add_pair_example : pair_of paired 1 ≡ some (new_pair 1 0 1 3)
unfolding dawnhex_init dh_duo_add_pair dh_link dh_add_node emit
pair_of-dh_duo_add_pair_example = pair_of-dh_duo_add_pair dawnhex_init 0 1 3 1 table room refl

pair_of-dh_duo_del_pair_example : pair_of (dh_duo_del_pair paired 1).0 1 ≡ none
pair_of-dh_duo_del_pair_example = pair_of-dh_duo_del_pair paired 1 1 paired-IsTable

found : pair_of paired 1 ≡ some (new_pair 1 0 1 3)
unfolding dawnhex_init dh_duo_add_pair dh_link dh_add_node emit
found = pair_of-dh_duo_add_pair dawnhex_init 0 1 3 1 table room refl

pair_of-dh_duo_pulse_example :
    let p = new_pair 1 0 1 3 in
    pair_of (dh_duo_pulse paired 1 600000).0 1
    ≡ some
        (dh_duo_recompute_simplex (pulsed_pair p (node_at paired p.a) (node_at paired p.b) 600000))
unfolding dawnhex_init dh_duo_pulse dh_duo_lookup_pair dh_duo_add_pair dh_link dh_add_node emit
    new_pair dh_clamp_u32
pair_of-dh_duo_pulse_example =
    pair_of-dh_duo_pulse paired 1 600000 1 (new_pair 1 0 1 3) paired-IsTable refl found

node_at-dh_tick_once_example :
    (node_at (dh_tick_once dawnhex_init) 1 ≡ after_tick (node_at dawnhex_init 1))
    × (length (dh_tick_once dawnhex_init).nodes ≡ 64)
node_at-dh_tick_once_example = node_at-dh_tick_once dawnhex_init 1 wired.slots (omega arith)

abbrev core : Node
core = new_node 0 (bytes "core")

dh_handle_command-tick_example :
    dh_handle_command dawnhex_init (bytes "tick_ms 900") ≡ (dh_tick_once dawnhex_init, ok)
dh_handle_command-tick_example = dh_handle_command-tick dawnhex_init (bytes "_ms 900")

shown_lem_example :
    (summary_show dawnhex_init ≡ page_of (summary_text dawnhex_init))
    × (topology_show dawnhex_init ≡ page_of (present_lines dawnhex_init.nodes))
    × (tick_ms_show dawnhex_init ≡ page_of (decimal dawnhex_init.tick_ms ++ bytes "\n"))
    × (interactive_show dawnhex_init
        ≡ page_of (decimal (from_bool dawnhex_init.interactive) ++ bytes "\n"))
    × (duo_show dawnhex_init
        ≡ page_of (
            (labelled ((bytes "pair_count=", dawnhex_init.duo.pair_count) ∷ []) ++ bytes "\n")
            ++ slot_texts pair_text 0 dawnhex_init.duo.pair_count dawnhex_init.duo.pairs))
    × (duo_simplex_show dawnhex_init
        ≡ page_of (
            slot_texts
              (λ p. joined (ladder_texts p))
              0
              dawnhex_init.duo.pair_count
              dawnhex_init.duo.pairs))
shown_lem_example = shown_lem dawnhex_init

-- White space in a format matches any white space, and none.
parse_test :
    (parse_command (bytes "duo  add 0 1 3") ≡ Command.duo_add 0 1 3)
    × (parse_command (bytes "duoadd 0 1 3") ≡ Command.duo_add 0 1 3)
    × (parse_command (bytes "duo del x") ≡ Command.unknown)
unfolding parse_command on_u on_uu on_uuu on_us on_prefix first_match sscanf starts_with skip_spaces
    scan_digits scan_word is_space is_digit
parse_test = (refl, refl, refl)
