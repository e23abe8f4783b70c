-- ===== src/Caustic/Payload.antt =====
-- The report of caustic.c as it is written into the buffer: `build_payload_json` and its helpers.
pub mod Pieces
pub mod Fields
pub mod Value
pub mod Objects
pub mod Report
use ryzen_build.Base.{ℕ, zero, suc, ◌+◌, length, drop, bytes, decimal, if◌then◌else◌}
use ryzen_build.Base.{ℤ, signed_decimal}
use ryzen_build.Base.{Bool, true, false, List, [], ◌∷◌, ◌++◌, Option, none, some, ◌⊎◌, inl, inr}
use ryzen_build.Caustic.Config.{Config}
use ryzen_build.Caustic.Scores.{FileMeta, GpuMetrics, MagentaScores, compute_magenta_scores}
use ryzen_build.Caustic.StrBuf.{
  StrBuf, Memory, Append, appended, died, endless, sb_init, sb_appendf, then_append,
}
use ryzen_build.Caustic.Escape.{json_escape_append}
use ryzen_build.Caustic.System.{
  Xattrs, System, c_string, read_amdgpu_metrics, read_file_meta, count_xattrs, counts_of,
}

-- One append of the report: `sb_appendf` of a text, of a format with one number or one of "true" and
-- "false" between two texts, or `json_escape_append` of a string.
pub data Piece : Type 0 where
  literal : List ℕ → Piece
  number : List ℕ → ℕ → List ℕ → Piece
  signed : List ℕ → ℤ → List ℕ → Piece
  boolean : List ℕ → Bool → List ℕ → Piece
  quoted : List ℕ → Piece

abbrev pub truth : Bool → List ℕ
truth b = if b then bytes "true" else bytes "false"

abbrev pub append_piece : Memory → Piece → StrBuf → Append
append_piece m (literal s) = sb_appendf m s
append_piece m (number before n after) = sb_appendf m (before ++ (decimal n ++ after))
append_piece m (signed before z after) = sb_appendf m (before ++ (signed_decimal z ++ after))
append_piece m (boolean before b after) = sb_appendf m (before ++ (truth b ++ after))
append_piece m (quoted s) = json_escape_append m s

-- One append after another.
unfoldable pub append_all : Memory → List Piece → StrBuf → Append
append_all m [] sb = appended sb
append_all m (p ∷ ps) sb = then_append (append_piece m p sb) (append_all m ps)

-- What a round of the loop in `append_xattrs_json` finds for a name: no value, no memory for it, or
-- the value.
pub data Got : Type 0 where
  skipped no_memory : Got
  got : List ℕ → Got

abbrev pub got_value : Option (List ℕ) → Got
got_value none = skipped
got_value (some val) = got (c_string val)

abbrev pub got_sized : Memory → Xattrs → List ℕ → Option ℕ → Got
got_sized m x name none = skipped
got_sized m x name (some val_sz) =
    if m.gives (val_sz + 1) then got_value (x.value name val_sz) else no_memory

abbrev pub value_of : Memory → Xattrs → List ℕ → Got
value_of m x name = got_sized m x name (x.value_size name)

abbrev pub pair_pieces : Bool → List ℕ → List ℕ → List Piece
pair_pieces first name val =
    let pair = quoted name ∷ literal (bytes ":") ∷ quoted val ∷ [] in
    if first then pair else literal (bytes ",") ∷ pair

-- What a round appends before the loop goes on, which takes whether no pair has been written yet.
abbrev pub on_got : Memory → Bool → List ℕ → Got → (Bool → StrBuf → Append) → StrBuf → Append
on_got m first name skipped more sb = more first sb
on_got m first name no_memory more sb = died
on_got m first name (got val) more sb =
    then_append (append_all m (pair_pieces first name val) sb) (more false)

-- The loop over the names, on fuel for their bytes.
unfoldable pub xattrs_loop : ℕ → Memory → Xattrs → List ℕ → Bool → StrBuf → Append
xattrs_loop zero m x [] first sb = appended sb
xattrs_loop zero m x (c ∷ cs) first sb = endless
xattrs_loop (suc fuel) m x [] first sb = appended sb
xattrs_loop (suc fuel) m x (c ∷ cs) first sb =
    let name = c_string (c ∷ cs) in
    on_got m first name (value_of m x name)
      (xattrs_loop fuel m x (drop (suc (length name)) (c ∷ cs))) sb

abbrev pub failure : ℕ → List Piece
failure errno = number (bytes "{\"ok\":false,\"errno\":") errno (bytes "}") ∷ []

abbrev pub append_names : Memory → Xattrs → ℕ ⊎ List ℕ → StrBuf → Append
append_names m x (inl errno) sb = append_all m (failure errno) sb
append_names m x (inr names) sb =
    then_append (sb_appendf m (bytes "{") sb) (λ sb1.
      then_append (xattrs_loop (length names) m x names true sb1) (sb_appendf m (bytes "}")))

abbrev pub append_sized : Memory → Xattrs → ℕ ⊎ ℕ → StrBuf → Append
append_sized m x (inl errno) sb = append_all m (failure errno) sb
append_sized m x (inr size) sb =
    if m.gives (size + 1) then append_names m x (x.names size) sb else died

unfoldable pub append_xattrs_json : Memory → Xattrs → StrBuf → Append
append_xattrs_json m x sb = append_sized m x x.names_size sb

-- The values that the report is made of.
pub record Values : Type 0 where
  pub fm : FileMeta
  pub gm : GpuMetrics
  pub xattr_count : ℕ
  pub xattr_name_bytes : ℕ
  pub sc : MagentaScores

abbrev no_metrics : GpuMetrics
no_metrics = record { ok = false; vram_total = 0; vram_used = 0; gtt_total = 0; gtt_used = 0 }

unfoldable pub measure : Memory → System → Config → Values
measure m sys cfg =
    let fm = read_file_meta sys cfg.path in
    let gm = (if cfg.include_gpu then read_amdgpu_metrics m sys cfg.card else no_metrics) in
    let counts =
      (if cfg.include_xattrs then counts_of (count_xattrs m (sys.counted cfg.path)) else (0, 0)) in
    record {
      fm = fm;
      gm = gm;
      xattr_count = counts.0;
      xattr_name_bytes = counts.1;
      sc = compute_magenta_scores sys.now cfg fm gm counts.0 counts.1;
    }

unfoldable pub gpu_pieces : Config → GpuMetrics → List Piece
gpu_pieces cfg gm =
    literal (bytes "\"gpu\":{")
    ∷ boolean (bytes "\"enabled\":") cfg.include_gpu (bytes ",")
    ∷ boolean (bytes "\"ok\":") gm.ok (bytes ",")
    ∷ literal (bytes "\"card\":")
    ∷ quoted cfg.card
    ∷ literal (bytes ",")
    ∷ number (bytes "\"vram_total_bytes\":") gm.vram_total (bytes ",")
    ∷ number (bytes "\"vram_used_bytes\":") gm.vram_used (bytes ",")
    ∷ number (bytes "\"gtt_total_bytes\":") gm.gtt_total (bytes ",")
    ∷ number (bytes "\"gtt_used_bytes\":") gm.gtt_used []
    ∷ literal (bytes "},")
    ∷ []

unfoldable pub file_pieces : Values → List Piece
file_pieces v =
    literal (bytes "\"file\":{")
    ∷ boolean (bytes "\"ok\":") v.fm.ok (bytes ",")
    ∷ number (bytes "\"size_bytes\":") v.fm.size_bytes (bytes ",")
    ∷ signed (bytes "\"mtime\":") v.fm.mtime (bytes ",")
    ∷ number (bytes "\"xattr_count\":") v.xattr_count (bytes ",")
    ∷ number (bytes "\"xattr_name_bytes\":") v.xattr_name_bytes []
    ∷ literal (bytes "},")
    ∷ []

-- `strftime` into 64 bytes is a parameter.
abbrev pub append_iso8601_utc : System → Piece
append_iso8601_utc sys = quoted sys.timestamp

unfoldable pub head_pieces : System → Config → List Piece
head_pieces sys cfg =
    literal (bytes "{")
    ∷ literal (bytes "\"schema\":\"magenta-framework-causal-ratio/v1\",")
    ∷ literal (bytes "\"timestamp\":")
    ∷ append_iso8601_utc sys
    ∷ literal (bytes ",")
    ∷ literal (bytes "\"platform\":\"posix\",")
    ∷ literal (bytes "\"target\":\"mntn-reporting-bridge\",")
    ∷ literal (bytes "\"campaign_id\":")
    ∷ quoted cfg.campaign_id
    ∷ literal (bytes ",")
    ∷ literal (bytes "\"advertiser_id\":")
    ∷ quoted cfg.advertiser_id
    ∷ literal (bytes ",")
    ∷ literal (bytes "\"path\":")
    ∷ quoted cfg.path
    ∷ literal (bytes ",")
    ∷ []

unfoldable pub magenta_pieces : MagentaScores → List Piece
magenta_pieces sc =
    literal (bytes "\"magenta\":{")
    ∷ number (bytes "\"metadata_density_ppm\":") sc.metadata_density_ppm (bytes ",")
    ∷ number (bytes "\"freshness_ppm\":") sc.freshness_ppm (bytes ",")
    ∷ number (bytes "\"gpu_pressure_ppm\":") sc.gpu_pressure_ppm (bytes ",")
    ∷ number (bytes "\"path_weight_ppm\":") sc.path_weight_ppm (bytes ",")
    ∷ number (bytes "\"xattr_weight_ppm\":") sc.xattr_weight_ppm (bytes ",")
    ∷ number (bytes "\"campaign_weight_ppm\":") sc.campaign_weight_ppm (bytes ",")
    ∷ number (bytes "\"advertiser_weight_ppm\":") sc.advertiser_weight_ppm (bytes ",")
    ∷ number (bytes "\"magenta_interest_ppm\":") sc.magenta_interest_ppm (bytes ",")
    ∷ number (bytes "\"magenta_causal_ratio_ppm\":") sc.magenta_causal_ratio_ppm (bytes ",")
    ∷ number (bytes "\"magenta_quality_ppm\":") sc.magenta_quality_ppm []
    ∷ literal (bytes "}")
    ∷ literal (bytes "}")
    ∷ []

abbrev pub xattrs_part : Memory → System → Config → StrBuf → Append
xattrs_part m sys cfg sb =
    if cfg.include_xattrs
    then then_append (sb_appendf m (bytes "\"xattrs\":") sb) (λ sb1.
      then_append (append_xattrs_json m (sys.listed cfg.path) sb1) (sb_appendf m (bytes ",")))
    else appended sb

-- The calls of `build_payload_json`, in their order.
unfoldable pub build_payload_json : Memory → System → Config → StrBuf → Append
build_payload_json m sys cfg sb =
    let v = measure m sys cfg in
    then_append (append_all m (head_pieces sys cfg) sb) (λ sb1.
      then_append (append_all m (gpu_pieces cfg v.gm) sb1) (λ sb2.
        then_append (append_all m (file_pieces v) sb2)
          (λ sb3. then_append (xattrs_part m sys cfg sb3) (append_all m (magenta_pieces v.sc)))))

-- The buffer of a round of `main`, before `puts`.
unfoldable pub report : Memory → System → Config → Append
report m sys cfg = then_append (sb_init m 262144) (build_payload_json m sys cfg)
