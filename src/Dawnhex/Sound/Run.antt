-- ===== src/Dawnhex/Sound/Run.antt =====
-- From the set-up of the module on, every sequence of calls keeps the state sound.
use ryzen_build.Base.{ℕ, ◌+◌, ◌^◌, ◌<◌, ◌≡◌, ◌⊎◌, inl, inr, refl, arith, length}
use ryzen_build.Base.{
  Bool, true, false, Bool-cases, ◌&&◌, Option, none, some, List, [], ◌∷◌, take, min,
}
use ryzen_build.Base.{not}
use ryzen_build.Dawnhex.Types.{Text, State, Event, Hook}
use ryzen_build.Dawnhex.Duo.{dawnhex_duo_hook_register, dawnhex_duo_hook_unregister}
use ryzen_build.Dawnhex.Tick.{dh_tick_workfn}
use ryzen_build.Dawnhex.Command.{Command, run_command, dh_handle_command, parse_command, dh_write}
use ryzen_build.Dawnhex.Command.{first_line}
use ryzen_build.Dawnhex.Device.{Ioctl, copies_in, dh_ioctl, ioctl_body, dh_read, tick_ms_store}
use ryzen_build.Dawnhex.Device.{interactive_store, dawnhex_init}
use ryzen_build.Dawnhex.Sound.{IsSound}
use ryzen_build.Dawnhex.Sound.Ids.{OneId, run_command-OneId, ioctl_body-OneId, no_ids}
use ryzen_build.Dawnhex.Sound.Ids.{set_tick_ms-OneId, set_interactive-OneId, dh_tick_workfn-OneId}
use ryzen_build.Dawnhex.Sound.Ids.{hook_register-OneId, hook_unregister-OneId}
use ryzen_build.Dawnhex.Sound.Nodes.{dh_tick_workfn-IsSound}
use ryzen_build.Dawnhex.Sound.Nodes.{set_interactive-IsSound, set_tick_ms-IsSound}
use ryzen_build.Dawnhex.Sound.Entry.{
  HasRoom, run_command-IsSound, ioctl_body-IsSound, hook_register-IsSound, hook_unregister-IsSound,
  dh_read_cases, dh_read-IsSound, dawnhex_init-IsSound,
}

-- A call from outside: the system calls on the device, the attributes, the tick of the work
-- queue and the two exported functions for hooks.
pub data Call : Type 0 where
  write : Bool → Text → Call
  read : ℕ → Bool → Call
  ioctl : Ioctl → Bool → Bool → Call
  store_tick_ms : Option ℕ → Call
  store_interactive : Option Bool → Call
  tick_work : Call
  register unregister : Option Hook → Call

dh_write_cases :
    (s : State) (readable : Bool) (buf : Text)
    → ((dh_write s readable buf).0 ≡ s)
      ⊎ ((c : Command) × ((dh_write s readable buf).0 ≡ (run_command s c).0))
unfolding dh_write dh_handle_command
dh_write_cases s true buf = inr (parse_command (first_line (take (min (length buf) 127) buf)), refl)
dh_write_cases s false buf = inl refl

dh_ioctl_cases :
    (s : State) (r : Ioctl) (readable writable : Bool)
    → ((dh_ioctl s r readable writable).0 ≡ s)
      ⊎ ((dh_ioctl s r readable writable).0 ≡ (ioctl_body s r).0)
unfolding dh_ioctl
dh_ioctl_cases s r readable writable = elim (Bool-cases (copies_in r && not readable)) [
  | inl e ↦ inl (rw e)
  | inr e ↦ inr (rw e)
]

module _ (render : Event → Text) where
  -- The state after a call.
  unfoldable pub step : State → Call → State
  step s (Call.write readable buf) = (dh_write s readable buf).0
  step s (Call.read len writable) = (dh_read render s len writable).0
  step s (Call.ioctl r readable writable) = (dh_ioctl s r readable writable).0
  step s (Call.store_tick_ms v) = (tick_ms_store s v).0
  step s (Call.store_interactive v) = (interactive_store s v).0
  step s Call.tick_work = dh_tick_workfn s
  step s (Call.register h) = (dawnhex_duo_hook_register s h).0
  step s (Call.unregister h) = dawnhex_duo_hook_unregister s h

  unfoldable pub run : State → List Call → State
  run s [] = s
  run s (c ∷ cs) = run (step s c) cs

  step-IsSound : {s : State} → IsSound s → HasRoom s → (c : Call) → IsSound (step s c)
  unfolding step tick_ms_store interactive_store
  step-IsSound {s} v room (Call.write readable buf) = elim (dh_write_cases s readable buf) [
    | inl e ↦ rw e v
    | inr (c, e) ↦ rw e (run_command-IsSound v room c)
  ]
  step-IsSound v room (Call.read len writable) = dh_read-IsSound render v len writable
  step-IsSound {s} v room (Call.ioctl r readable writable) =
      elim (dh_ioctl_cases s r readable writable) [
        | inl e ↦ rw e v
        | inr e ↦ rw e (ioctl_body-IsSound v room r)
      ]
  step-IsSound v room (Call.store_tick_ms none) = v
  step-IsSound v room (Call.store_tick_ms (some w)) = set_tick_ms-IsSound v w
  step-IsSound v room (Call.store_interactive none) = v
  step-IsSound v room (Call.store_interactive (some b)) = set_interactive-IsSound v b
  step-IsSound v room Call.tick_work = dh_tick_workfn-IsSound v
  step-IsSound v room (Call.register h) = hook_register-IsSound v h
  step-IsSound v room (Call.unregister h) = hook_unregister-IsSound v h

  step-OneId : {s : State} → IsSound s → (c : Call) → OneId s (step s c)
  unfolding step tick_ms_store interactive_store
  step-OneId {s} v (Call.write readable buf) = elim (dh_write_cases s readable buf) [
    | inl e ↦ rw e (omega arith)
    | inr (c, e) ↦ rw e (run_command-OneId v c)
  ]
  step-OneId {s} v (Call.read len writable) = elim (dh_read_cases render s len writable) [
    | inl e ↦ rw e (omega arith)
    | inr (x, r, popped, e) ↦ rw e (omega arith)
  ]
  step-OneId {s} v (Call.ioctl r readable writable) = elim (dh_ioctl_cases s r readable writable) [
    | inl e ↦ rw e (omega arith)
    | inr e ↦ rw e (ioctl_body-OneId v r)
  ]
  step-OneId {s} v (Call.store_tick_ms none) = omega arith
  step-OneId {s} v (Call.store_tick_ms (some w)) = set_tick_ms-OneId s w
  step-OneId {s} v (Call.store_interactive none) = omega arith
  step-OneId {s} v (Call.store_interactive (some b)) = set_interactive-OneId s b
  step-OneId {s} v Call.tick_work = dh_tick_workfn-OneId v
  step-OneId {s} v (Call.register h) = hook_register-OneId s h
  step-OneId {s} v (Call.unregister h) = hook_unregister-OneId s h

  run-IsSound :
      (cs : List Call) {s : State}
      → IsSound s
      → s.duo.next_pair_id + length cs < 2 ^ 32
      → IsSound (run s cs)
  unfolding run
  run-IsSound [] v few = v
  run-IsSound (c ∷ cs) {s} v few =
      run-IsSound cs (step-IsSound v (omega arith) c) (omega (arith, step-OneId v c))

  -- Whatever fewer than 2 ^ 32 calls do to the loaded module, in whatever order, its state stays
  -- sound: links symmetric and between present nodes, shares at most a million, the ring and the
  -- table of pairs in order, every ladder in range, and the interval from 10 to 60000 ms.
  pub run-dawnhex_init-IsSound :
      (cs : List Call) → length cs < 2 ^ 32 → IsSound (run dawnhex_init cs)
  run-dawnhex_init-IsSound cs few = run-IsSound cs dawnhex_init-IsSound (omega (arith, no_ids))
