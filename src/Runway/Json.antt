-- ===== src/Runway/Json.antt =====
-- JSON strings in runway_hook.c: `json_escape` and the two extractors.
pub mod RoundTrip
use ryzen_build.Base.{ℕ, zero, suc, ◌+◌, ◌-◌, ◌==◌, ◌&&◌, if◌then◌else◌, take}
use ryzen_build.Base.{
  Bool, true, false, List, [], ◌∷◌, ◌++◌, Option, none, some, bytes, strstr_rest,
}

-- What the `switch` of `json_escape` writes for one byte.
unfoldable pub escape_byte : ℕ → List ℕ
escape_byte c =
    if c == 92
    then 92 ∷ 92 ∷ []
    else if c == 34
    then 92 ∷ 34 ∷ []
    else if c == 10
    then bytes "\\n"
    else if c == 13
    then bytes "\\r"
    else if c == 9
    then bytes "\\t"
    else c ∷ []

unfoldable pub escape_loop : List ℕ → List ℕ
escape_loop [] = []
escape_loop (c ∷ rest) = escape_byte c ++ escape_loop rest

unfoldable pub json_escape : List ℕ → List ℕ
json_escape s = 34 ∷ (escape_loop s ++ 34 ∷ [])

-- The byte that is copied and where the loop goes on: a backslash that is not the last byte is
-- skipped.
unfoldable pub unslash : ℕ → List ℕ → ℕ × List ℕ
unslash c [] = (c, [])
unslash c (d ∷ rest) = if c == 92 then (d, rest) else (c, d ∷ rest)

-- The loop of the two extractors, with room for so many bytes before the terminator.
unfoldable pub copy_value : ℕ → List ℕ → List ℕ
copy_value zero t = []
copy_value (suc room) [] = []
copy_value (suc room) (c ∷ rest) =
    let tail = copy_value room (unslash c rest).1 in
    if c == 34 then [] else (unslash c rest).0 ∷ tail

-- What the extractors return: `none` for -1, also where the value is empty.
abbrev pub found_value : List ℕ → Option (List ℕ)
found_value [] = none
found_value (c ∷ rest) = some (c ∷ rest)

abbrev pub value_at : Option (List ℕ) → ℕ → Option (List ℕ)
value_at none out_sz = none
value_at (some t) out_sz = found_value (copy_value (out_sz - 1) t)

-- The text that is looked for, cut to the 127 bytes of its array.
unfoldable pub needle : List ℕ → List ℕ
needle field = take 127 (34 ∷ (field ++ bytes "\":\""))

unfoldable pub extract_json_string_field : List ℕ → List ℕ → ℕ → Option (List ℕ)
extract_json_string_field json field out_sz = value_at (strstr_rest json (needle field)) out_sz

unfoldable pub extract_json_status : List ℕ → ℕ → Option (List ℕ)
extract_json_status json out_sz = extract_json_string_field json (bytes "status") out_sz

unfoldable pub extract_json_id : List ℕ → ℕ → Option (List ℕ)
extract_json_id json out_sz = extract_json_string_field json (bytes "id") out_sz
