-- ===== src/Adalter/Device/Current.antt =====
-- What the device of simplex_adalter_kmod.c keeps true: the report is that of the configuration
-- and the base, and the key is a string.
use ryzen_build.Base.{ℕ, ◌-◌, ◌≡◌, refl, ap, sym, arith}
use ryzen_build.Base.{Bool, true, false, Option, none, some, ◌⊎◌, inl, inr}
use ryzen_build.Base.{List, ◌++◌, get_or, take, replicate, length, min}
use ryzen_build.Base.{length-append, length-take, length-replicate, length-set}
use ryzen_build.Base.{get_or-append, get_or-replicate, get_or-set, get_or-set_self, Bool-cases}
use ryzen_build.Adalter.Types.{Cfg, State}
use ryzen_build.Adalter.Report.{level_count, node_count, report_of, sa_recompute}
use ryzen_build.Adalter.Device.{Errno, Ioctl, accepts, simplex_ioctl, stored_key}
use ryzen_build.Adalter.Device.{last_key_store, Params, simplex_init}
use ryzen_build.Adalter.Device.Ioctl.{set_cfg, get_cfg, run_base, get_report, unknown_ioctl}
use ryzen_build.Adalter.Device.Reply.{report_out, error}

abbrev pub IsKey : List ℕ → Type 0
IsKey key = (length key ≡ 128) × (get_or key 127 0 ≡ 0)

pub record IsCurrent (s : State) : Type 0 where
  pub report : s.report ≡ report_of s.cfg s.base
  pub key : IsKey s.base.key

-- A request is one of the source's structures: its key has 128 bytes.
abbrev pub IsSized : Ioctl → Type 0
IsSized (run_base b) = length b.key ≡ 128
IsSized _ = Unit

-- Every ioctl, whatever it answers, keeps the report that of the configuration and the base, and
-- the key a string inside its 128 bytes, if a base that is copied in has a key of 128 bytes.
pub simplex_ioctl-IsCurrent :
    (s : State) (req : Ioctl) (readable writable : Bool)
    → IsSized req
    → IsCurrent s
    → IsCurrent (simplex_ioctl s req readable writable).0
unfolding simplex_ioctl sa_recompute
simplex_ioctl-IsCurrent s (set_cfg c) false writable h inv = inv
simplex_ioctl-IsCurrent s (set_cfg c) true writable h inv = elim (Bool-cases (accepts c)) [
  | inl e ↦ rw e (record { report = refl; key = inv.key })
  | inr e ↦ rw e inv
]
simplex_ioctl-IsCurrent s get_cfg readable writable h inv = inv
simplex_ioctl-IsCurrent s (run_base b) false writable h inv = inv
simplex_ioctl-IsCurrent s (run_base b) true writable h inv = record {
  report = refl;
  key =
      (omega (arith, h, length-set b.key 127 0), get_or-set_self b.key 127 0 0 (omega (arith, h)));
}
simplex_ioctl-IsCurrent s get_report readable writable h inv = inv
simplex_ioctl-IsCurrent s unknown_ioctl readable writable h inv = inv

stored_key-IsKey : (buf : List ℕ) → IsKey (stored_key buf)
unfolding stored_key
stored_key-IsKey buf =
    let n = min (length buf) 127 in
    let key = take n buf ++ replicate (128 - n) 0 in
    ground (
      arith,
      length-append (take n buf) (replicate (128 - n) 0),
      length-take n buf,
      length-replicate {A = ℕ} (128 - n) 0,
      length-set key (n - 1) 0,
      get_or-set key (n - 1) 127 0 0,
      get_or-append (take n buf) (replicate (128 - n) 0) 127 0,
      get_or-replicate {A = ℕ} (128 - n) (127 - n) 0,
    )

-- Writing the key attribute, with any bytes, keeps the report current and the key a string.
pub last_key_store-IsCurrent : (s : State) (buf : List ℕ) → IsCurrent (last_key_store s buf)
unfolding last_key_store sa_recompute
last_key_store-IsCurrent s buf = record { report = refl; key = stored_key-IsKey buf }

-- The state of a module that has loaded, or `otherwise`.
abbrev state_or : State → State ⊎ Errno → State
state_or otherwise (inl s) = s
state_or otherwise (inr e) = otherwise

-- A module that loads, with any parameters, starts with a current report and a key that is a
-- string.
pub simplex_init-IsCurrent :
    (p : Params) (allocated : Bool) (registered : Option Errno) (s : State)
    → simplex_init p allocated registered ≡ inl s
    → IsCurrent s
unfolding simplex_init sa_recompute
simplex_init-IsCurrent p false registered s h = absurd (ground (arith, h))
simplex_init-IsCurrent p true (some e) s h = absurd (ground (arith, h))
simplex_init-IsCurrent p true none s h =
    let e = sym (ap (state_or s) h) in rw e (record { report = refl; key = (refl, refl) })

-- An ioctl that answers with an error leaves the state as it was.
pub simplex_ioctl-error :
    (s : State) (req : Ioctl) (readable writable : Bool) (e : Errno)
    → (simplex_ioctl s req readable writable).1 ≡ error e
    → (simplex_ioctl s req readable writable).0 ≡ s
unfolding simplex_ioctl
simplex_ioctl-error s (set_cfg c) false writable e h = refl
simplex_ioctl-error s (set_cfg c) true writable e h = ground (arith, h)
simplex_ioctl-error s get_cfg readable writable e h = refl
simplex_ioctl-error s (run_base b) false writable e h = refl
simplex_ioctl-error s (run_base b) true writable e h = ground (arith, h)
simplex_ioctl-error s get_report readable writable e h = refl
simplex_ioctl-error s unknown_ioctl readable writable e h = refl

-- After SET_CFG with a configuration that is accepted, GET_REPORT copies out the report of that
-- configuration and the page's base, which has just the levels and nodes that it asks for.
pub accepted_report :
    (s : State) (c : Cfg)
    → accepts c ≡ true
    → let s' = (simplex_ioctl s (set_cfg c) true true).0 in
      (simplex_ioctl s' get_report true true ≡ (s', report_out (report_of c s.base)))
      × ((report_of c s.base).recursion_levels ≡ c.recursion_levels)
      × ((report_of c s.base).nodes_per_level ≡ c.nodes_per_level)
unfolding simplex_ioctl sa_recompute report_of level_count node_count accepts
accepted_report s c h = (rw h refl, ground arith, ground arith)
