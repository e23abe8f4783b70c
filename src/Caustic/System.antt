-- ===== src/Caustic/System.antt =====
-- What caustic.c reads of the system: the metrics in sysfs, `stat`, and the extended attributes.
pub mod Names
pub mod Bounds
use ryzen_build.Base.{
  ℕ, zero, suc, ◌+◌, ◌<◌, ◌^◌, ltb, leb, ◌==◌, ◌&&◌, ◌||◌, if◌then◌else◌, u64, length, drop, bytes,
  strtoull,
}
use ryzen_build.Base.{ℤ, pos}
use ryzen_build.Base.{Bool, true, false, List, [], ◌∷◌, ◌++◌, Option, none, some, ◌⊎◌, inl, inr}
use ryzen_build.Caustic.StrBuf.{Memory}
use ryzen_build.Caustic.Scores.{FileMeta, GpuMetrics}

-- What `listxattr` and `getxattr` answer for one file: without an array they give a size, with an
-- array of that size the bytes. `inl` has the `errno` of a failure.
pub record Xattrs : Type 0 where
  pub names_size : ℕ ⊎ ℕ
  pub names : ℕ → ℕ ⊎ List ℕ
  pub value_size : List ℕ → Option ℕ
  pub value : List ℕ → ℕ → Option (List ℕ)

-- The rest of the system. `file_size` is `none` where the file cannot be opened or measured, and
-- `fread` gives the bytes for an array of that size. The attributes may change between the calls of
-- `count_xattrs` and `append_xattrs_json`.
pub record System : Type 0 where
  pub file_size : List ℕ → Option ℕ
  pub fread : List ℕ → ℕ → List ℕ
  pub stat : List ℕ → Option (ℕ × ℤ)
  pub now : ℤ
  pub timestamp : List ℕ
  pub counted : List ℕ → Xattrs
  pub listed : List ℕ → Xattrs

-- The string at the front of an array. A list of bytes that has no 0 is one string: the kernel ends
-- each name with a 0.
unfoldable pub c_string : List ℕ → List ℕ
c_string [] = []
c_string (c ∷ rest) = let more = c_string rest in if c == 0 then [] else c ∷ more

abbrev is_blank : ℕ → Bool
is_blank c = (c == 10) || (c == 13) || (c == 32) || (c == 9)

abbrev trim_front : ℕ → List ℕ → List ℕ
trim_front c [] = if is_blank c then [] else c ∷ []
trim_front c (d ∷ rest) = c ∷ d ∷ rest

-- The loop that cuts blanks off the end.
unfoldable pub trim : List ℕ → List ℕ
trim [] = []
trim (c ∷ rest) = trim_front c (trim rest)

abbrev read_sized : Memory → System → List ℕ → Option ℕ → Option (List ℕ)
read_sized m sys path none = none
read_sized m sys path (some sz) =
    if m.gives (sz + 1) then some (c_string (trim (sys.fread path sz))) else none

-- The array as the string that the caller sees.
unfoldable pub read_text_file_trim : Memory → System → List ℕ → Option (List ℕ)
read_text_file_trim m sys path = read_sized m sys path (sys.file_size path)

abbrev pub whole_number : Option (ℕ × List ℕ) → Option ℕ
whole_number none = none
whole_number (some (v, [])) = some v
whole_number (some (v, c ∷ rest)) = none

abbrev pub parsed : Option (List ℕ) → Option ℕ
parsed none = none
parsed (some s) = whole_number (strtoull s)

unfoldable pub parse_ull_file : Memory → System → List ℕ → Option ℕ
parse_ull_file m sys path = parsed (read_text_file_trim m sys path)

-- The path fits its array, since `card` has at most 31 bytes.
abbrev device_path : List ℕ → List ℕ → List ℕ
device_path card name = bytes "/sys/class/drm/" ++ card ++ bytes "/device/" ++ name

abbrev is_some : Option ℕ → Bool
is_some none = false
is_some (some v) = true

abbrev pub or_zero : Option ℕ → ℕ
or_zero none = 0
or_zero (some v) = v

unfoldable pub read_amdgpu_metrics : Memory → System → List ℕ → GpuMetrics
read_amdgpu_metrics m sys card =
    let a = parse_ull_file m sys (device_path card (bytes "mem_info_vram_total")) in
    let b = parse_ull_file m sys (device_path card (bytes "mem_info_vram_used")) in
    let c = parse_ull_file m sys (device_path card (bytes "mem_info_gtt_total")) in
    let d = parse_ull_file m sys (device_path card (bytes "mem_info_gtt_used")) in
    record {
      ok = is_some a && is_some b && is_some c && is_some d;
      vram_total = or_zero a;
      vram_used = or_zero b;
      gtt_total = or_zero c;
      gtt_used = or_zero d;
    }

abbrev pub meta_of : Option (ℕ × ℤ) → FileMeta
meta_of none = record { ok = false; size_bytes = 0; mtime = pos 0 }
meta_of (some (size, mtime)) = record { ok = true; size_bytes = size; mtime = mtime }

unfoldable pub read_file_meta : System → List ℕ → FileMeta
read_file_meta sys path = meta_of (sys.stat path)

-- The loop over the names, on fuel for their bytes.
unfoldable pub count_loop : ℕ → List ℕ → ℕ → ℕ → ℕ × ℕ
count_loop zero names count name_bytes = (count, name_bytes)
count_loop (suc fuel) [] count name_bytes = (count, name_bytes)
count_loop (suc fuel) (c ∷ cs) count name_bytes =
    let nlen = length (c_string (c ∷ cs)) in
    count_loop fuel (drop (suc nlen) (c ∷ cs)) (u64 (count + 1)) (u64 (name_bytes + nlen))

abbrev pub count_names : ℕ ⊎ List ℕ → Option (ℕ × ℕ)
count_names (inl errno) = none
count_names (inr names) = some (count_loop (length names) names 0 0)

abbrev pub count_sized : Memory → Xattrs → ℕ ⊎ ℕ → Option (ℕ × ℕ)
count_sized m x (inl errno) = none
count_sized m x (inr size) = if m.gives (size + 1) then count_names (x.names size) else none

-- The count and the bytes of the names, where it returns 0.
unfoldable pub count_xattrs : Memory → Xattrs → Option (ℕ × ℕ)
count_xattrs m x = count_sized m x x.names_size

-- What the caller has left in its two variables, which it set to 0.
abbrev pub counts_of : Option (ℕ × ℕ) → ℕ × ℕ
counts_of none = (0, 0)
counts_of (some (count, name_bytes)) = (count, name_bytes)
