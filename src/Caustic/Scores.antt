-- ===== src/Caustic/Scores.antt =====
-- The scores of caustic.c, in parts per million: `compute_magenta_scores` and its helpers.
pub mod Bounds
use ryzen_build.Caustic.Config.{Config}
use ryzen_build.Base.{
  ℕ, ◌+◌, ◌-◌, ◌*◌, ◌/◌, ltb, leb, ◌==◌, ◌&&◌, ◌||◌, not, if◌then◌else◌, u32, u64,
}
use ryzen_build.Base.{ℤ, pos, negsuc}
use ryzen_build.Base.{Bool, true, false, List, [], ◌∷◌, Option, none, some, bytes, strstr_rest}

-- What the scores and the report read of the structures `FileMeta` and `GpuMetrics`. A `time_t` is
-- signed.
pub record FileMeta : Type 0 where
  pub ok : Bool
  pub size_bytes : ℕ
  pub mtime : ℤ

pub record GpuMetrics : Type 0 where
  pub ok : Bool
  pub vram_total : ℕ
  pub vram_used : ℕ
  pub gtt_total : ℕ
  pub gtt_used : ℕ

pub record MagentaScores : Type 0 where
  pub metadata_density_ppm : ℕ
  pub freshness_ppm : ℕ
  pub gpu_pressure_ppm : ℕ
  pub path_weight_ppm : ℕ
  pub xattr_weight_ppm : ℕ
  pub campaign_weight_ppm : ℕ
  pub advertiser_weight_ppm : ℕ
  pub magenta_interest_ppm : ℕ
  pub magenta_causal_ratio_ppm : ℕ
  pub magenta_quality_ppm : ℕ

unfoldable pub clamp_u32 : ℕ → ℕ → ℕ → ℕ
clamp_u32 v lo hi = if ltb v lo then lo else if ltb hi v then hi else v

unfoldable pub ppm_mul : ℕ → ℕ → ℕ
ppm_mul a b = u32 (u64 (u64 (a * b) + 500000) / 1000000)

-- The freshness for an age of a file.
abbrev age_ppm : ℕ → ℕ
age_ppm age =
    if leb age 3600
    then 1000000
    else if leb age 86400
    then 850000
    else if leb age (7 * 86400)
    then 650000
    else if leb age (30 * 86400)
    then 450000
    else 250000

unfoldable pub file_freshness_ppm : ℤ → ℤ → ℕ
file_freshness_ppm now (negsuc t) = 500000
file_freshness_ppm (negsuc t) (pos mtime) = 500000
file_freshness_ppm (pos now) (pos mtime) =
    if (mtime == 0) || ltb now mtime then 500000 else age_ppm (now - mtime)

unfoldable pub used_ppm : ℕ → ℕ → ℕ
used_ppm total used = if total == 0 then 0 else u32 (u64 (used * 1000000) / total)

unfoldable pub gpu_pressure : Config → GpuMetrics → ℕ
gpu_pressure cfg gm =
    if cfg.include_gpu && gm.ok
    then u32 (used_ppm gm.vram_total gm.vram_used + used_ppm gm.gtt_total gm.gtt_used) / 2
    else 0

unfoldable pub metadata_density : FileMeta → ℕ → ℕ → ℕ
metadata_density fm xattr_count xattr_name_bytes =
    if fm.ok
    then (let denom = (if fm.size_bytes == 0 then 1 else fm.size_bytes) in
        let raw = u64 (u64 (xattr_count * 4096 + xattr_name_bytes) * 1000000) / denom in
        if ltb 1000000 raw then 1000000 else raw)
    else 0

abbrev is_found : Option (List ℕ) → Bool
is_found none = false
is_found (some t) = true

unfoldable pub path_weight : List ℕ → ℕ
path_weight path =
    if is_found (strstr_rest path (bytes "campaign"))
    then 800000
    else if is_found (strstr_rest path (bytes "creative"))
    then 760000
    else if is_found (strstr_rest path (bytes "audience"))
    then 820000
    else 550000

abbrev pub id_weight : List ℕ → ℕ
id_weight [] = 300000
id_weight (c ∷ rest) = 900000

abbrev at_most_million : ℕ → ℕ
at_most_million v = if ltb 1000000 v then 1000000 else v

unfoldable pub interest_of : ℕ → ℕ → ℕ → ℕ → ℕ → ℕ
interest_of density freshness xattr campaign advertiser =
    at_most_million
      (u64 (density * 26 + freshness * 18 + xattr * 20 + campaign * 18 + advertiser * 18) / 100)

unfoldable pub quality_of : ℕ → ℕ → ℕ → ℕ → ℕ
quality_of density freshness path xattr =
    at_most_million (u64 (density * 32 + freshness * 24 + path * 18 + xattr * 26) / 100)

unfoldable pub causal_of : ℕ → ℕ → ℕ → ℕ
causal_of interest quality pressure =
    let causal = u64 (interest * 65 + quality * 35) / 100 in
    at_most_million (
      if ltb 0 pressure
      then (if ltb (pressure / 5) causal then causal - pressure / 5 else 0)
      else causal)

unfoldable pub compute_magenta_scores : ℤ → Config → FileMeta → GpuMetrics → ℕ → ℕ → MagentaScores
compute_magenta_scores now cfg fm gm xattr_count xattr_name_bytes =
    let density = metadata_density fm xattr_count xattr_name_bytes in
    let freshness = (if fm.ok then file_freshness_ppm now fm.mtime else 400000) in
    let pressure = gpu_pressure cfg gm in
    let path = path_weight cfg.path in
    let xattr = clamp_u32 (u32 (u64 (xattr_count * 90000))) 120000 1000000 in
    let campaign = id_weight cfg.campaign_id in
    let advertiser = id_weight cfg.advertiser_id in
    let interest = interest_of density freshness xattr campaign advertiser in
    let quality = quality_of density freshness path xattr in
    record {
      metadata_density_ppm = density;
      freshness_ppm = freshness;
      gpu_pressure_ppm = pressure;
      path_weight_ppm = path;
      xattr_weight_ppm = xattr;
      campaign_weight_ppm = campaign;
      advertiser_weight_ppm = advertiser;
      magenta_interest_ppm = interest;
      magenta_causal_ratio_ppm = causal_of interest quality pressure;
      magenta_quality_ppm = quality;
    }
