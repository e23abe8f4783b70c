-- ===== src/Caustic/Tests.antt =====
-- Tests of the model of caustic.c, and the theorems at concrete inputs.
use ryzen_build.Base.{ℤ, pos, negsuc}
use ryzen_build.Base.{◌≡◌, refl, ltb, true, [], some, bytes}
use ryzen_build.Base.{ℕ, List, ◌∷◌, same_text, atoi, signed_digits, digits}
use ryzen_build.Base.{
  Option, ◌++◌, inr, none, if◌then◌else◌, strtoull, behind_digits, behind_spaces,
}
use ryzen_build.Caustic.System.{
  Xattrs, System, parse_ull_file, read_text_file_trim, trim, c_string, count_xattrs, count_loop,
}
use ryzen_build.Caustic.Config.{Config, config_default, parse_args, args_loop, setter, interval}
use ryzen_build.Caustic.Scores.{
  FileMeta, GpuMetrics, compute_magenta_scores, gpu_pressure, used_ppm,
}
use ryzen_build.Caustic.Scores.Bounds.{IsScored, compute_magenta_scores-IsScored}
use ryzen_build.Caustic.StrBuf.{StrBuf, Memory}

abbrev config : Config
config = record config_default {
  path = bytes "/srv/audience";
  campaign_id = bytes "c";
  advertiser_id = bytes "a";
  once = true;
  interval_sec = 1;
}

abbrev argv : List (List ℕ)
argv =
    bytes "--path"
    ∷ bytes "/srv/audience"
    ∷ bytes "--campaign"
    ∷ bytes "c"
    ∷ bytes "--once"
    ∷ bytes "--interval"
    ∷ bytes "-5"
    ∷ bytes "--advertiser"
    ∷ bytes "a"
    ∷ []

-- An interval below one second becomes one second.
parse_args_test : parse_args config_default argv ≡ some config
unfolding parse_args args_loop setter same_text interval atoi signed_digits digits
parse_args_test = refl

abbrev meta : FileMeta
meta = record { ok = true; size_bytes = 1000000; mtime = pos 5000 }

abbrev gpu : GpuMetrics
gpu = record { ok = true; vram_total = 4; vram_used = 1; gtt_total = 0; gtt_used = 9 }

compute_magenta_scores-IsScored_example :
    IsScored (compute_magenta_scores (pos 9000) config meta gpu 2 30)
compute_magenta_scores-IsScored_example =
    compute_magenta_scores-IsScored (pos 9000) config meta gpu 2 30

pressure_test : (compute_magenta_scores (pos 9000) config meta gpu 2 30).gpu_pressure_ppm ≡ 125000
unfolding compute_magenta_scores gpu_pressure used_ppm config_default
pressure_test = refl

abbrev memory : Memory
memory = record { gives = (λ n. ltb n 1000000); junk = (λ i. 255) }

abbrev buffer : StrBuf
buffer = record { chars = (λ i. 0); len = 0; size = 4 }

-- A file whose first attribute has a value and whose second has none.
abbrev attributes : Xattrs
attributes = record {
  names_size = inr 14;
  names = λ size. inr (bytes "user.a" ++ 0 ∷ bytes "user.b" ++ 0 ∷ []);
  value_size = λ name. if same_text name (bytes "user.a") then some 2 else none;
  value = λ name size. some (bytes "v\"");
}

abbrev sizes : Option (ℕ × ℤ)
sizes = some (1000, negsuc 4999)

abbrev system : System
system = record {
  file_size = λ path. some 4096;
  fread = λ path size. bytes "42 \n";
  stat = λ path. sizes;
  now = pos 9000;
  timestamp = bytes "2026-01-01T00:00:00Z";
  counted = λ path. attributes;
  listed = λ path. attributes;
}

abbrev time_of : Option (ℕ × ℤ) → ℤ
time_of none = pos 0
time_of (some (size, mtime)) = mtime

abbrev no_files : System
no_files = record system { fread = λ path size. [] }

-- A blank file counts as the number 0.
parse_test :
    (parse_ull_file memory system (bytes "p") ≡ some 42)
    × (parse_ull_file memory no_files (bytes "p") ≡ some 0)
unfolding parse_ull_file read_text_file_trim strtoull behind_spaces c_string trim digits
    behind_digits
parse_test = (refl, refl)

count_test : count_xattrs memory attributes ≡ some (2, 12)
unfolding count_xattrs count_loop c_string
count_test = refl
