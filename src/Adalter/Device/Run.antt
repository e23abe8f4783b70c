-- ===== src/Adalter/Device/Run.antt =====
-- Whole runs of simplex_adalter_kmod.c, from the loading of the module on.
use ryzen_build.Base.{ℕ, ◌≡◌, refl, ap, ◌∙◌, if◌then◌else◌, inl}
use ryzen_build.Base.{not, Bool, true, false, Option, List, [], ◌∷◌, set, All}
use ryzen_build.Adalter.Types.{Cfg, PageBase, State}
use ryzen_build.Adalter.Report.{sa_recompute}
use ryzen_build.Adalter.Device.{
  Errno, Ioctl, accepts, simplex_ioctl, stored_key, last_key_store, Params, simplex_init,
}
use ryzen_build.Adalter.Device.Ioctl.{set_cfg, get_cfg, run_base, get_report, unknown_ioctl}
use ryzen_build.Adalter.Device.{Reply}
use ryzen_build.Adalter.Device.Reply.{done, error}
use ryzen_build.Adalter.Device.Errno.{einval}
use ryzen_build.Adalter.Device.Current.{
  IsCurrent, IsSized, simplex_ioctl-IsCurrent, last_key_store-IsCurrent, simplex_init-IsCurrent,
}

-- A call from outside: an ioctl, with whether its copies succeed, or a write of the key attribute.
pub data Call : Type 0 where
  ioctl : Ioctl → Bool → Bool → Call
  store_key : List ℕ → Call

unfoldable pub step : State → Call → State
step s (ioctl req readable writable) = (simplex_ioctl s req readable writable).0
step s (store_key buf) = last_key_store s buf

unfoldable pub run : State → List Call → State
run s [] = s
run s (c ∷ cs) = run (step s c) cs

abbrev pub IsRequest : Call → Type 0
IsRequest (ioctl req readable writable) = IsSized req
IsRequest (store_key buf) = Unit

abbrev pub set_in : State → Cfg × PageBase
set_in s = (s.cfg, s.base)

-- What a call sets, as a description of the interface: an accepted configuration, a base with its key
-- closed, or a key.
abbrev pub settings : Cfg × PageBase → Call → Cfg × PageBase
settings (cfg, base) (ioctl (set_cfg c) true writable) =
    if accepts c then (c, base) else (cfg, base)
settings (cfg, base) (ioctl (run_base b) true writable) = (cfg, record b { key = set b.key 127 0 })
settings (cfg, base) (store_key buf) = (cfg, record base { key = stored_key buf })
settings kept c = kept

abbrev pub all_settings : Cfg × PageBase → List Call → Cfg × PageBase
all_settings kept [] = kept
all_settings kept (c ∷ cs) = all_settings (settings kept c) cs

chosen :
    (b : Bool) (s : State) (c : Cfg)
    → let t : State × Reply =
        if not b then (s, error einval) else (sa_recompute (record s { cfg = c }), done) in
      set_in t.0 ≡ (if b then (c, s.base) else (s.cfg, s.base))
unfolding sa_recompute
chosen true s c = refl
chosen false s c = refl

step-settings : (s : State) (c : Call) → set_in (step s c) ≡ settings (set_in s) c
unfolding step simplex_ioctl last_key_store sa_recompute
step-settings s (ioctl (set_cfg c) true writable) = chosen (accepts c) s c
step-settings s (ioctl (set_cfg c) false writable) = refl
step-settings s (ioctl get_cfg readable writable) = refl
step-settings s (ioctl (run_base b) true writable) = refl
step-settings s (ioctl (run_base b) false writable) = refl
step-settings s (ioctl get_report readable writable) = refl
step-settings s (ioctl unknown_ioctl readable writable) = refl
step-settings s (store_key buf) = refl

step-IsCurrent : (s : State) (c : Call) → IsRequest c → IsCurrent s → IsCurrent (step s c)
unfolding step
step-IsCurrent s (ioctl req readable writable) h v =
    simplex_ioctl-IsCurrent s req readable writable h v
step-IsCurrent s (store_key buf) h v = last_key_store-IsCurrent s buf

run-settings : (s : State) (cs : List Call) → set_in (run s cs) ≡ all_settings (set_in s) cs
unfolding run
run-settings s [] = refl
run-settings s (c ∷ cs) =
    run-settings (step s c) cs ∙ ap (λ (k : Cfg × PageBase). all_settings k cs) (step-settings s c)

run-IsCurrent : (s : State) (cs : List Call) → All IsRequest cs → IsCurrent s → IsCurrent (run s cs)
unfolding run
run-IsCurrent s [] h v = v
run-IsCurrent s (c ∷ cs) (h, hs) v = run-IsCurrent (step s c) cs hs (step-IsCurrent s c h v)

-- Once the module has loaded, with any parameters, then after any calls in any order, with the bases
-- that are copied in having keys of 128 bytes: the configuration is the last that was accepted and the
-- base the last that was set, with the last key; the report is the report of just these two, and the
-- key is a string inside its 128 bytes. Failed copies and configurations that are turned away count
-- for nothing.
pub run-simplex_init-IsCurrent :
    (p : Params) (allocated : Bool) (registered : Option Errno) (s : State) (cs : List Call)
    → simplex_init p allocated registered ≡ inl s
    → All IsRequest cs
    → IsCurrent (run s cs) × (set_in (run s cs) ≡ all_settings (set_in s) cs)
run-simplex_init-IsCurrent p allocated registered s cs loaded h = (
  run-IsCurrent s cs h (simplex_init-IsCurrent p allocated registered s loaded),
  run-settings s cs,
)
