-- ===== src/Caustic/System/Bounds.antt =====
-- The sizes of what caustic.c measures: each fits a word of 64 bits.
use ryzen_build.Base.{
  ℕ, zero, suc, ◌+◌, ◌^◌, ◌<◌, ◌≡◌, refl, arith, length, drop, strtoull, strtoull_bound, u64,
}
use ryzen_build.Base.{ℤ, pos, negsuc}
use ryzen_build.Base.{Bool-cases, List, [], ◌∷◌, Option, none, some, ◌⊎◌, inl, inr}
use ryzen_build.Caustic.StrBuf.{Memory}
use ryzen_build.Caustic.Scores.{GpuMetrics}
use ryzen_build.Caustic.System.{
  Xattrs, System, c_string, whole_number, parsed, parse_ull_file, read_text_file_trim, or_zero,
  read_amdgpu_metrics, meta_of, read_file_meta, count_loop, counts_of, count_names, count_sized,
  count_xattrs,
}

-- An `errno` is an `int` that is not negative.
abbrev pub IsErrno : {A : Type 0} → ℕ ⊎ A → Type 0
IsErrno (inl errno) = errno < 2 ^ 31
IsErrno (inr a) = Unit

pub record IsXattrs (x : Xattrs) : Type 0 where
  pub size_errno : IsErrno x.names_size
  pub names_errno : (size : ℕ) → IsErrno (x.names size)

-- A signed integer of 64 bits.
abbrev pub IsLong : ℤ → Type 0
IsLong (pos n) = n < 2 ^ 63
IsLong (negsuc n) = n < 2 ^ 63

-- `stat` gives a size and a time of 64 bits; the attributes are as above.
pub record IsSystem (sys : System) : Type 0 where
  pub sizes :
      (path : List ℕ) (size : ℕ) (mtime : ℤ)
      → sys.stat path ≡ some (size, mtime)
      → (size < 2 ^ 63) × IsLong mtime
  pub attributes : (path : List ℕ) → IsXattrs (sys.listed path)

pub record IsMetrics (gm : GpuMetrics) : Type 0 where
  pub vram_total : gm.vram_total < 2 ^ 64
  pub vram_used : gm.vram_used < 2 ^ 64
  pub gtt_total : gm.gtt_total < 2 ^ 64
  pub gtt_used : gm.gtt_used < 2 ^ 64

whole_number_lem :
    (o : Option (ℕ × List ℕ))
    → ((v : ℕ) (t : List ℕ) → o ≡ some (v, t) → v < 2 ^ 64)
    → or_zero (whole_number o) < 2 ^ 64
whole_number_lem none h = omega arith
whole_number_lem (some (v, [])) h = h v [] refl
whole_number_lem (some (v, c ∷ t)) h = omega arith

parsed_lem : (o : Option (List ℕ)) → or_zero (parsed o) < 2 ^ 64
parsed_lem none = omega arith
parsed_lem (some s) = whole_number_lem (strtoull s) (strtoull_bound s)

file_lem :
    (m : Memory) (sys : System) (path : List ℕ) → or_zero (parse_ull_file m sys path) < 2 ^ 64
unfolding parse_ull_file
file_lem m sys path = parsed_lem (read_text_file_trim m sys path)

pub read_amdgpu_metrics-IsMetrics :
    (m : Memory) (sys : System) (card : List ℕ) → IsMetrics (read_amdgpu_metrics m sys card)
unfolding read_amdgpu_metrics
read_amdgpu_metrics-IsMetrics m sys card = record {
  vram_total = file_lem m sys _;
  vram_used = file_lem m sys _;
  gtt_total = file_lem m sys _;
  gtt_used = file_lem m sys _;
}

meta_lem :
    (o : Option (ℕ × ℤ))
    → ((size : ℕ) (mtime : ℤ) → o ≡ some (size, mtime) → (size < 2 ^ 63) × IsLong mtime)
    → let fm = meta_of o in (fm.size_bytes < 2 ^ 63) × IsLong fm.mtime
meta_lem none h = (omega arith, omega arith)
meta_lem (some (size, mtime)) h = h size mtime refl

pub read_file_meta_bounds :
    (sys : System) (path : List ℕ)
    → IsSystem sys
    → let fm = read_file_meta sys path in (fm.size_bytes < 2 ^ 63) × IsLong fm.mtime
unfolding read_file_meta
read_file_meta_bounds sys path h = meta_lem (sys.stat path) (h.sizes path)

count_loop_bounds :
    (fuel : ℕ) (names : List ℕ) (count name_bytes : ℕ)
    → (count < 2 ^ 64) × (name_bytes < 2 ^ 64)
    → let r = count_loop fuel names count name_bytes in (r.0 < 2 ^ 64) × (r.1 < 2 ^ 64)
unfolding count_loop
count_loop_bounds zero names count name_bytes h = h
count_loop_bounds (suc fuel) [] count name_bytes h = h
count_loop_bounds (suc fuel) (c ∷ cs) count name_bytes h =
    let nlen = length (c_string (c ∷ cs)) in
    count_loop_bounds fuel (drop (suc nlen) (c ∷ cs)) (u64 (count + 1)) (u64 (name_bytes + nlen))
      (omega arith, omega arith)

abbrev TwoWords : ℕ × ℕ → Type 0
TwoWords r = (r.0 < 2 ^ 64) × (r.1 < 2 ^ 64)

count_names_bounds : (r : ℕ ⊎ List ℕ) → TwoWords (counts_of (count_names r))
count_names_bounds (inl errno) = (omega arith, omega arith)
count_names_bounds (inr names) =
    count_loop_bounds (length names) names 0 0 (omega arith, omega arith)

count_sized_bounds :
    (m : Memory) (x : Xattrs) (r : ℕ ⊎ ℕ) → TwoWords (counts_of (count_sized m x r))
count_sized_bounds m x (inl errno) = (omega arith, omega arith)
count_sized_bounds m x (inr size) = elim (Bool-cases (m.gives (size + 1))) [
  | inl e ↦ rw e (count_names_bounds (x.names size))
  | inr e ↦ rw e (omega arith, omega arith)
]

pub count_xattrs_bounds :
    (m : Memory) (x : Xattrs)
    → let r = counts_of (count_xattrs m x) in (r.0 < 2 ^ 64) × (r.1 < 2 ^ 64)
unfolding count_xattrs
count_xattrs_bounds m x = count_sized_bounds m x x.names_size
