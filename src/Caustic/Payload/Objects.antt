-- ===== src/Caustic/Payload/Objects.antt =====
-- The objects in the report of caustic.c: the GPU, the file and the scores.
use ryzen_build.Base.{ℕ, ◌^◌, ◌<◌, refl, arith, bytes, decimal, decimal-IsNumber}
use ryzen_build.Base.{ℤ, pos, negsuc, suc, signed_decimal}
use ryzen_build.Base.{Bool-cases, inl, inr, List, [], ◌∷◌, ◌++◌}
use ryzen_build.Caustic.Config.{Config}
use ryzen_build.Caustic.Scores.{GpuMetrics, MagentaScores}
use ryzen_build.Caustic.Scores.Bounds.{IsScored, compute_magenta_scores-IsScored}
use ryzen_build.Caustic.StrBuf.{Memory}
use ryzen_build.Json.{read_text}
use ryzen_build.Caustic.Escape.RoundTrip.{json_text, read_json_text}
use ryzen_build.Caustic.System.{System}
use ryzen_build.Caustic.System.Bounds.{
  IsSystem, IsLong, IsMetrics, read_amdgpu_metrics-IsMetrics, read_file_meta_bounds,
  count_xattrs_bounds,
}
use ryzen_build.Caustic.Payload.{
  Values, measure, gpu_pieces, file_pieces, head_pieces, magenta_pieces,
}
use ryzen_build.Json.{
  text, integer, object, Fields, no_field, field, IsJson, is_text, is_integer, is_negative,
  is_truth, is_object, IsFields, last_field, next_field,
}
use ryzen_build.Caustic.Payload.Pieces.{all_before, AllFit}
use ryzen_build.Caustic.Payload.Value.{signed_value, magenta_fields, file_fields, gpu_fields}

-- Every number of a report fits 20 digits.
pub record IsMeasured (v : Values) : Type 0 where
  pub metrics : IsMetrics v.gm
  pub meta : (v.fm.size_bytes < 2 ^ 63) × IsLong v.fm.mtime
  pub counts : (v.xattr_count < 2 ^ 64) × (v.xattr_name_bytes < 2 ^ 64)
  pub scored : IsScored v.sc

pub measure-IsMeasured :
    (m : Memory) (sys : System) (cfg : Config) → IsSystem sys → IsMeasured (measure m sys cfg)
unfolding measure
measure-IsMeasured m sys cfg h = record {
  metrics = elim (Bool-cases cfg.include_gpu) [
    | inl e ↦ simp e (read_amdgpu_metrics-IsMetrics m sys cfg.card)
    | inr e ↦ simp e (record {
      vram_total = omega arith;
      vram_used = omega arith;
      gtt_total = omega arith;
      gtt_used = omega arith;
    })
  ];
  meta = read_file_meta_bounds sys cfg.path h;
  counts = elim (Bool-cases cfg.include_xattrs) [
    | inl e ↦ simp e (count_xattrs_bounds m (sys.counted cfg.path))
    | inr e ↦ simp e (omega arith, omega arith)
  ];
  scored = compute_magenta_scores-IsScored sys.now cfg _ _ _ _;
}

pub head-AllFit : (sys : System) (cfg : Config) → AllFit (head_pieces sys cfg)
unfolding head_pieces
head-AllFit sys cfg = (
  refl,
  (
    refl,
    (
      refl,
      (
        tt,
        (
          refl,
          (refl, (refl, (refl, (tt, (refl, (refl, (tt, (refl, (refl, (tt, (refl, tt))))))))))),
        ),
      ),
    ),
  ),
)

pub gpu-AllFit : (cfg : Config) (gm : GpuMetrics) → IsMetrics gm → AllFit (gpu_pieces cfg gm)
unfolding gpu_pieces
gpu-AllFit cfg gm h = (
  refl,
  (
    refl,
    (
      refl,
      (
        refl,
        (
          tt,
          (
            refl,
            (
              (omega (arith, h.vram_total), refl),
              (
                (omega (arith, h.vram_used), refl),
                (
                  (omega (arith, h.gtt_total), refl),
                  ((omega (arith, h.gtt_used), refl), (refl, tt)),
                ),
              ),
            ),
          ),
        ),
      ),
    ),
  ),
)

pub file-AllFit : (v : Values) → IsMeasured v → AllFit (file_pieces v)
unfolding file_pieces
file-AllFit v h = (
  refl,
  (
    refl,
    (
      (omega (arith, h.meta), refl),
      (
        (h.meta.1, refl),
        ((omega (arith, h.counts), refl), ((omega (arith, h.counts), refl), (refl, tt))),
      ),
    ),
  ),
)

pub magenta-AllFit : (sc : MagentaScores) → IsScored sc → AllFit (magenta_pieces sc)
unfolding magenta_pieces
magenta-AllFit sc h = (
  refl,
  (
    (omega (arith, h.density_top), refl),
    (
      (omega (arith, h.freshness_range), refl),
      (
        (omega (arith, h.pressure_top), refl),
        (
          (omega (arith, h.path_range), refl),
          (
            (omega (arith, h.xattr_range), refl),
            (
              (omega (arith, h.campaign_range), refl),
              (
                (omega (arith, h.advertiser_range), refl),
                (
                  (omega (arith, h.interest_range), refl),
                  (
                    (omega (arith, h.causal_top), refl),
                    ((omega (arith, h.quality_range), refl), (refl, (refl, tt))),
                  ),
                ),
              ),
            ),
          ),
        ),
      ),
    ),
  ),
)

-- A number in a report.
number-IsJson : (n : ℕ) (rest : List ℕ) → n < 10 ^ 20 → IsJson (integer n) (decimal n ++ rest) rest
number-IsJson n rest h = is_integer n (decimal n) rest (decimal-IsNumber n h)

signed-IsJson :
    (z : ℤ) (rest : List ℕ) → IsLong z → IsJson (signed_value z) (signed_decimal z ++ rest) rest
signed-IsJson (pos n) rest h = number-IsJson n rest (omega (arith, h))
signed-IsJson (negsuc n) rest h =
    is_negative n (decimal (suc n)) rest (decimal-IsNumber (suc n) (omega (arith, h)))

pub string-IsJson : (s rest : List ℕ) → IsJson (text s) (json_text s ++ rest) rest
string-IsJson s rest = is_text s (json_text s) rest (read_json_text s)

-- The objects in the report, and its fields up to what follows.
pub magenta-IsJson :
    (sc : MagentaScores)
    → IsScored sc
    → IsFields
        (field (bytes "magenta") (object (magenta_fields sc)) no_field)
        (all_before (magenta_pieces sc) [])
        (125 ∷ [])
unfolding magenta_pieces read_text
magenta-IsJson sc h = last_field (bytes "magenta") (bytes "\"magenta\"") refl (
    is_object (
      next_field (bytes "metadata_density_ppm") (bytes "\"metadata_density_ppm\"") refl
        (number-IsJson _ _ (omega (arith, h.density_top)))
        (next_field (bytes "freshness_ppm") (bytes "\"freshness_ppm\"") refl
          (number-IsJson _ _ (omega (arith, h.freshness_range)))
          (next_field (bytes "gpu_pressure_ppm") (bytes "\"gpu_pressure_ppm\"") refl
            (number-IsJson _ _ (omega (arith, h.pressure_top)))
            (next_field (bytes "path_weight_ppm") (bytes "\"path_weight_ppm\"") refl
              (number-IsJson _ _ (omega (arith, h.path_range)))
              (next_field (bytes "xattr_weight_ppm") (bytes "\"xattr_weight_ppm\"") refl
                (number-IsJson _ _ (omega (arith, h.xattr_range)))
                (next_field (bytes "campaign_weight_ppm") (bytes "\"campaign_weight_ppm\"") refl
                  (number-IsJson _ _ (omega (arith, h.campaign_range)))
                  (next_field (bytes "advertiser_weight_ppm") (bytes "\"advertiser_weight_ppm\"")
                    refl (number-IsJson _ _ (omega (arith, h.advertiser_range)))
                    (next_field (bytes "magenta_interest_ppm") (bytes "\"magenta_interest_ppm\"")
                      refl (number-IsJson _ _ (omega (arith, h.interest_range)))
                      (next_field (bytes "magenta_causal_ratio_ppm")
                        (bytes "\"magenta_causal_ratio_ppm\"") refl
                        (number-IsJson _ _ (omega (arith, h.causal_top)))
                        (last_field (bytes "magenta_quality_ppm") (bytes "\"magenta_quality_ppm\"")
                          refl (number-IsJson _ _ (omega (arith, h.quality_range))))))))))))))

pub gpu-IsFields :
    (cfg : Config) (gm : GpuMetrics) (fs : Fields) (u rest : List ℕ)
    → IsMetrics gm
    → IsFields fs u rest
    → IsFields
        (field (bytes "gpu") (object (gpu_fields cfg gm)) fs)
        (all_before (gpu_pieces cfg gm) u)
        rest
unfolding gpu_pieces read_text
gpu-IsFields cfg gm fs u rest h more =
    next_field (bytes "gpu") (bytes "\"gpu\"") refl
      (is_object (
        next_field (bytes "enabled") (bytes "\"enabled\"") refl (is_truth _ _) (
          next_field (bytes "ok") (bytes "\"ok\"") refl (is_truth _ _) (
            next_field (bytes "card") (bytes "\"card\"") refl (string-IsJson _ _) (
              next_field (bytes "vram_total_bytes") (bytes "\"vram_total_bytes\"") refl
                (number-IsJson _ _ (omega (arith, h.vram_total)))
                (next_field (bytes "vram_used_bytes") (bytes "\"vram_used_bytes\"") refl
                  (number-IsJson _ _ (omega (arith, h.vram_used)))
                  (next_field (bytes "gtt_total_bytes") (bytes "\"gtt_total_bytes\"") refl
                    (number-IsJson _ _ (omega (arith, h.gtt_total)))
                    (last_field (bytes "gtt_used_bytes") (bytes "\"gtt_used_bytes\"") refl
                      (number-IsJson _ _ (omega (arith, h.gtt_used)))))))))))
      more

pub file-IsFields :
    (v : Values) (fs : Fields) (u rest : List ℕ)
    → IsMeasured v
    → IsFields fs u rest
    → IsFields
        (field (bytes "file") (object (file_fields v)) fs)
        (all_before (file_pieces v) u)
        rest
unfolding file_pieces read_text
file-IsFields v fs u rest h more =
    next_field (bytes "file") (bytes "\"file\"") refl
      (is_object (
        next_field (bytes "ok") (bytes "\"ok\"") refl (is_truth _ _) (
          next_field (bytes "size_bytes") (bytes "\"size_bytes\"") refl
            (number-IsJson _ _ (omega (arith, h.meta)))
            (next_field (bytes "mtime") (bytes "\"mtime\"") refl
              (signed-IsJson v.fm.mtime _ h.meta.1)
              (next_field (bytes "xattr_count") (bytes "\"xattr_count\"") refl
                (number-IsJson _ _ (omega (arith, h.counts)))
                (last_field (bytes "xattr_name_bytes") (bytes "\"xattr_name_bytes\"") refl
                  (number-IsJson _ _ (omega (arith, h.counts)))))))))
      more
