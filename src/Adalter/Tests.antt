-- ===== src/Adalter/Tests.antt =====
-- Tests of the model of simplex_adalter_kmod.c, and the theorems at concrete inputs.
use ryzen_build.Base.{◌+◌, ◌≡◌, refl, arith, true, none, [], ◌∷◌, get_or, replicate}
use ryzen_build.Adalter.Fixed.{sa_fill_fib}
use ryzen_build.Adalter.Fixed.Fib.{fib, sa_fill_fib_lem}
use ryzen_build.Adalter.Types.{Cfg, PageBase, State, key_of, zero_report}
use ryzen_build.Adalter.Report.{report_of, sa_recompute}
use ryzen_build.Adalter.Report.Bounds.{SharesInRange, report_of-SharesInRange}
use ryzen_build.Adalter.Device.{Ioctl, Reply, Errno, simplex_ioctl, cfg_of}
use ryzen_build.Adalter.Device.{default_params, simplex_init, stored_key, accepts, first_key}
use ryzen_build.Adalter.Device.Current.{IsCurrent}
use ryzen_build.Adalter.Device.Current.{simplex_ioctl-error, accepted_report}
use ryzen_build.Adalter.Device.Run.{Call, run, set_in, all_settings, run-simplex_init-IsCurrent}
use ryzen_build.Base.{List, false}

abbrev cfg : Cfg
cfg = cfg_of default_params

abbrev page : PageBase
page = record {
  key = key_of first_key;
  final_base = 253821252;
  retained_ppm = 10200;
  crosshatch_ppm = 812500;
  coldness_ppm = 904400;
}

abbrev loaded : State
loaded = sa_recompute (record { cfg = cfg; base = page; report = zero_report })

abbrev small : Cfg
small = record cfg { recursion_levels = 2; nodes_per_level = 3 }

abbrev bad : Cfg
bad = record cfg { version = 2 }

-- A key that is written loses its newline.
stored_key_test : stored_key (65 ∷ 10 ∷ []) ≡ 65 ∷ replicate 127 0
unfolding stored_key
stored_key_test = refl

ladder_test : get_or (sa_fill_fib 22 (replicate 22 0)).0 21 0 ≡ 17711
unfolding sa_fill_fib
ladder_test = refl

sa_fill_fib_lem_example :
    (get_or (sa_fill_fib 22 (replicate 22 0)).0 21 0 ≡ 17711)
    × ((sa_fill_fib 22 (replicate 22 0)).1 + 1 ≡ 46368)
unfolding fib
sa_fill_fib_lem_example =
    sa_fill_fib_lem 22 (replicate 22 0) 21 (omega arith) (omega arith) (omega arith)

report_of-SharesInRange_example :
    let r = report_of cfg page in
    SharesInRange 10200 120000 r.average_retained_ppm r.average_reduction_ppm
      r.average_crosshatch_ppm r.average_coldness_ppm
unfolding cfg_of
report_of-SharesInRange_example = report_of-SharesInRange cfg page (omega arith) (omega arith)

loaded-IsCurrent : IsCurrent loaded
unfolding sa_recompute
loaded-IsCurrent = record { report = refl; key = (refl, refl) }

simplex_ioctl-error_example : (simplex_ioctl loaded (Ioctl.set_cfg bad) true true).0 ≡ loaded
unfolding simplex_ioctl accepts
simplex_ioctl-error_example =
    simplex_ioctl-error loaded (Ioctl.set_cfg bad) true true Errno.einval refl

accepted_report_example :
    let s' = (simplex_ioctl loaded (Ioctl.set_cfg small) true true).0 in
    (simplex_ioctl s' Ioctl.get_report true true ≡ (s', Reply.report_out (report_of small page)))
    × ((report_of small page).recursion_levels ≡ 2)
    × ((report_of small page).nodes_per_level ≡ 3)
unfolding accepts sa_recompute cfg_of
accepted_report_example = accepted_report loaded small refl

abbrev calls : List Call
calls =
    Call.ioctl (Ioctl.set_cfg bad) true true
    ∷ Call.store_key (65 ∷ 10 ∷ [])
    ∷ Call.ioctl (Ioctl.set_cfg small) true true
    ∷ Call.ioctl Ioctl.get_report true false
    ∷ []

abbrev final : Cfg × PageBase
final = (small, record page { key = 65 ∷ replicate 127 0 })

run-simplex_init-IsCurrent_example :
    IsCurrent (run loaded calls) × (set_in (run loaded calls) ≡ all_settings (cfg, page) calls)
unfolding accepts simplex_init
run-simplex_init-IsCurrent_example =
    run-simplex_init-IsCurrent default_params true none loaded calls refl (tt, (tt, (tt, (tt, tt))))

-- The refused configuration leaves no trace.
calls_test : all_settings (cfg, page) calls ≡ final
unfolding accepts stored_key cfg_of
calls_test = refl
