-- ===== src/Caustic/Payload/Value.antt =====
-- What the report of caustic.c stands for.
use ryzen_build.Base.{ℤ, pos, negsuc, bytes, if◌then◌else◌}
use ryzen_build.Caustic.Config.{Config}
use ryzen_build.Caustic.Scores.{GpuMetrics, MagentaScores}
use ryzen_build.Caustic.StrBuf.{Memory}
use ryzen_build.Caustic.System.{System}
use ryzen_build.Caustic.Payload.{Values, measure}
use ryzen_build.Json.{Value, text, integer, negative, truth_of, object, Fields, no_field, field}
use ryzen_build.Caustic.Payload.Fields.{xattrs_value}

abbrev pub signed_value : ℤ → Value
signed_value (pos n) = integer n
signed_value (negsuc n) = negative n

-- The fields of the report, from its end.
abbrev pub magenta_fields : MagentaScores → Fields
magenta_fields sc = field (bytes "metadata_density_ppm") (integer sc.metadata_density_ppm) (
    field (bytes "freshness_ppm") (integer sc.freshness_ppm) (
      field (bytes "gpu_pressure_ppm") (integer sc.gpu_pressure_ppm) (
        field (bytes "path_weight_ppm") (integer sc.path_weight_ppm) (
          field (bytes "xattr_weight_ppm") (integer sc.xattr_weight_ppm) (
            field (bytes "campaign_weight_ppm") (integer sc.campaign_weight_ppm) (
              field (bytes "advertiser_weight_ppm") (integer sc.advertiser_weight_ppm) (
                field (bytes "magenta_interest_ppm") (integer sc.magenta_interest_ppm) (
                  field (bytes "magenta_causal_ratio_ppm") (integer sc.magenta_causal_ratio_ppm) (
                    field (bytes "magenta_quality_ppm") (integer sc.magenta_quality_ppm)
                      no_field)))))))))

abbrev pub file_fields : Values → Fields
file_fields v = field (bytes "ok") (truth_of v.fm.ok) (
    field (bytes "size_bytes") (integer v.fm.size_bytes) (
      field (bytes "mtime") (signed_value v.fm.mtime) (
        field (bytes "xattr_count") (integer v.xattr_count)
          (field (bytes "xattr_name_bytes") (integer v.xattr_name_bytes) no_field))))

abbrev pub gpu_fields : Config → GpuMetrics → Fields
gpu_fields cfg gm = field (bytes "enabled") (truth_of cfg.include_gpu) (
    field (bytes "ok") (truth_of gm.ok) (
      field (bytes "card") (text cfg.card) (
        field (bytes "vram_total_bytes") (integer gm.vram_total) (
          field (bytes "vram_used_bytes") (integer gm.vram_used) (
            field (bytes "gtt_total_bytes") (integer gm.gtt_total)
              (field (bytes "gtt_used_bytes") (integer gm.gtt_used) no_field))))))

abbrev pub with_xattrs : Memory → System → Config → Fields → Fields
with_xattrs m sys cfg fs =
    if cfg.include_xattrs
    then field (bytes "xattrs") (xattrs_value m (sys.listed cfg.path)) fs
    else fs

-- The value that the report stands for.
abbrev pub payload : Memory → System → Config → Value
payload m sys cfg =
    let v = measure m sys cfg in
    object (
      field (bytes "schema") (text (bytes "magenta-framework-causal-ratio/v1")) (
        field (bytes "timestamp") (text sys.timestamp) (
          field (bytes "platform") (text (bytes "posix")) (
            field (bytes "target") (text (bytes "mntn-reporting-bridge")) (
              field (bytes "campaign_id") (text cfg.campaign_id) (
                field (bytes "advertiser_id") (text cfg.advertiser_id) (
                  field (bytes "path") (text cfg.path) (
                    field (bytes "gpu") (object (gpu_fields cfg v.gm)) (
                      field (bytes "file") (object (file_fields v)) (
                        with_xattrs m sys cfg (
                          field (bytes "magenta") (object (magenta_fields v.sc)) no_field)))))))))))
