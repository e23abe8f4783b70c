-- ===== src/Caustic/Scores/Bounds.antt =====
-- The ranges of the scores of caustic.c.
use ryzen_build.Base.{
  ℕ, ◌+◌, ◌-◌, ◌*◌, ◌/◌, ◌≤◌, ◌<◌, ◌^◌, ◌≡◌, arith, List, [], ◌∷◌, if◌then◌else◌,
}
use ryzen_build.Base.{ℤ, pos, negsuc}
use ryzen_build.Caustic.Config.{Config}
use ryzen_build.Caustic.Scores.{FileMeta, GpuMetrics, MagentaScores, compute_magenta_scores}
use ryzen_build.Caustic.Scores.{
  clamp_u32, file_freshness_ppm, gpu_pressure, metadata_density, path_weight, id_weight,
}
use ryzen_build.Caustic.Scores.{interest_of, quality_of, causal_of}

-- Every score but the pressure of the GPU is at most a million and, but for the density, the causal
-- ratio and what goes into them, has a floor; the pressure, a word, lowers the causal ratio by a fifth
-- of it.
pub record IsScored (s : MagentaScores) : Type 0 where
  pub density_top : s.metadata_density_ppm ≤ 1000000
  pub freshness_range : (250000 ≤ s.freshness_ppm) × (s.freshness_ppm ≤ 1000000)
  pub path_range : (550000 ≤ s.path_weight_ppm) × (s.path_weight_ppm ≤ 820000)
  pub xattr_range : (120000 ≤ s.xattr_weight_ppm) × (s.xattr_weight_ppm ≤ 1000000)
  pub interest_range : (177000 ≤ s.magenta_interest_ppm) × (s.magenta_interest_ppm ≤ 1000000)
  pub quality_range : (190200 ≤ s.magenta_quality_ppm) × (s.magenta_quality_ppm ≤ 1000000)
  pub causal_value :
      s.magenta_causal_ratio_ppm
      ≡ (s.magenta_interest_ppm * 65 + s.magenta_quality_ppm * 35) / 100 - s.gpu_pressure_ppm / 5
  pub campaign_range : (300000 ≤ s.campaign_weight_ppm) × (s.campaign_weight_ppm ≤ 900000)
  pub advertiser_range : (300000 ≤ s.advertiser_weight_ppm) × (s.advertiser_weight_ppm ≤ 900000)
  pub pressure_top : s.gpu_pressure_ppm < 2 ^ 32
  pub causal_top : s.magenta_causal_ratio_ppm ≤ 1000000

freshness_lem :
    (now mtime : ℤ)
    → (250000 ≤ file_freshness_ppm now mtime) × (file_freshness_ppm now mtime ≤ 1000000)
unfolding file_freshness_ppm
freshness_lem now (negsuc t) = (omega arith, omega arith)
freshness_lem (negsuc t) (pos mtime) = (omega arith, omega arith)
freshness_lem (pos now) (pos mtime) = ground arith

density_lem : (fm : FileMeta) (c b : ℕ) → metadata_density fm c b ≤ 1000000
unfolding metadata_density
density_lem fm c b = ground arith

path_lem : (p : List ℕ) → (550000 ≤ path_weight p) × (path_weight p ≤ 820000)
unfolding path_weight
path_lem p = ground arith

clamp_lem : (v : ℕ) → (120000 ≤ clamp_u32 v 120000 1000000) × (clamp_u32 v 120000 1000000 ≤ 1000000)
unfolding clamp_u32
clamp_lem v = ground arith

id_weight_lem : (t : List ℕ) → (300000 ≤ id_weight t) × (id_weight t ≤ 900000)
id_weight_lem [] = ground arith
id_weight_lem (c ∷ rest) = ground arith

pressure_lem : (cfg : Config) (gm : GpuMetrics) → gpu_pressure cfg gm < 2 ^ 32
unfolding gpu_pressure
pressure_lem cfg gm = ground arith

interest_lem :
    (d f x c a : ℕ)
    → d ≤ 1000000
    → (250000 ≤ f) × (f ≤ 1000000)
    → (120000 ≤ x) × (x ≤ 1000000)
    → (300000 ≤ c) × (c ≤ 900000)
    → (300000 ≤ a) × (a ≤ 900000)
    → (177000 ≤ interest_of d f x c a) × (interest_of d f x c a ≤ 1000000)
unfolding interest_of
interest_lem d f x c a hd hf hx hc ha = ground arith

quality_lem :
    (d f p x : ℕ)
    → d ≤ 1000000
    → (250000 ≤ f) × (f ≤ 1000000)
    → (550000 ≤ p) × (p ≤ 820000)
    → (120000 ≤ x) × (x ≤ 1000000)
    → (190200 ≤ quality_of d f p x) × (quality_of d f p x ≤ 1000000)
unfolding quality_of
quality_lem d f p x hd hf hp hx = ground arith

causal_lem :
    (i q g : ℕ)
    → i ≤ 1000000
    → q ≤ 1000000
    → (causal_of i q g ≡ (i * 65 + q * 35) / 100 - g / 5) × (causal_of i q g ≤ 1000000)
unfolding causal_of
causal_lem i q g hi hq = ground arith

-- Whatever the file, the GPU and the attributes: every score but the pressure of the GPU is at most a
-- million; freshness, interest, quality and the weights of the path, the attributes, the campaign and the
-- advertiser keep their floors; and the causal ratio is 65 % of the interest and 35 % of the quality less
-- a fifth of the pressure, never below zero.
pub compute_magenta_scores-IsScored :
    (now : ℤ) (cfg : Config) (fm : FileMeta) (gm : GpuMetrics) (xattr_count xattr_name_bytes : ℕ)
    → IsScored (compute_magenta_scores now cfg fm gm xattr_count xattr_name_bytes)
unfolding compute_magenta_scores
compute_magenta_scores-IsScored now cfg fm gm n b =
    let density = density_lem fm n b in
    let fresh : (250000 ≤ (if fm.ok then file_freshness_ppm now fm.mtime else 400000))
        × ((if fm.ok then file_freshness_ppm now fm.mtime else 400000) ≤ 1000000) =
      ground (arith, freshness_lem now fm.mtime) in
    let path = path_lem cfg.path in
    let xattr = clamp_lem _ in
    let interest =
      interest_lem _ _ _ _ _ density fresh xattr (id_weight_lem cfg.campaign_id)
        (id_weight_lem cfg.advertiser_id) in
    let quality = quality_lem _ _ _ _ density fresh path xattr in
    let causal = causal_lem _ _ (gpu_pressure cfg gm) interest.1 quality.1 in
    record {
      density_top = density;
      freshness_range = fresh;
      path_range = path;
      xattr_range = xattr;
      interest_range = interest;
      quality_range = quality;
      causal_value = causal.0;
      campaign_range = id_weight_lem cfg.campaign_id;
      advertiser_range = id_weight_lem cfg.advertiser_id;
      pressure_top = pressure_lem cfg gm;
      causal_top = causal.1;
    }
