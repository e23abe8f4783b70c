-- ===== src/Caustic/Escape/RoundTrip.antt =====
-- What `json_escape_append` of caustic.c writes, and a reader of JSON strings.
use ryzen_build.Base.{ℕ, ◌+◌, ◌*◌, ◌/◌, ◌%◌, ◌^◌, ◌<◌, ◌≡◌, refl, ap, ◌∙◌, arith, ltb, ◌==◌}
use ryzen_build.Base.{
  true, false, Bool-cases, inl, inr, List, [], ◌∷◌, ◌++◌, length, Option, none, some, append_assoc,
  append-nil, ==_iff, hex_digit,
}
use ryzen_build.Caustic.StrBuf.{StrBuf, Memory, Append, appended, died, endless, sb_appendf}
use ryzen_build.Caustic.StrBuf.Appends.{
  IsMemory, Holds, IsAppended, ends, sb_appendf_lem, then_append_lem,
}
use ryzen_build.Caustic.Escape.{quote, backslash, escaped, append_escaped, json_escape_append}
use ryzen_build.Json.{plain, hex_value, is_hex, put_front, read_text, read_json}

abbrev all_escaped : List ℕ → List ℕ
all_escaped [] = []
all_escaped (c ∷ rest) = escaped c ++ all_escaped rest

put_nothing : (o : Option (List ℕ)) → put_front [] o ≡ o
put_nothing none = refl
put_nothing (some t) = refl

hex_lem : (n : ℕ) → n < 16 → (is_hex (hex_digit n) ≡ true) × (hex_value (hex_digit n) ≡ n)
hex_lem n h = ground (arith, h)

read_control :
    (c : ℕ) (rest : List ℕ)
    → c < 32
    → read_text (backslash ∷ 117 ∷ 48 ∷ 48 ∷ hex_digit (c / 16) ∷ hex_digit (c % 16) ∷ rest) plain
      ≡ put_front (c ∷ []) (read_text rest plain)
unfolding read_text
read_control c rest h =
    let (a, b) = hex_lem (c / 16) (omega (arith, h)) in
    let (d, e) = hex_lem (c % 16) (omega arith) in
    let value : (0 + hex_value (hex_digit (c / 16))) * 16 + hex_value (hex_digit (c % 16)) ≡ c =
      omega (arith, b, e) in
    let small : ltb c 256 ≡ true = ground (arith, h) in
    rw a (
      rw d (
        rw value (
          rw small
            (put_nothing _ ∙ (put_nothing _ ∙ (put_nothing _ ∙ (put_nothing _ ∙ put_nothing _)))))))

read_plain :
    (c : ℕ) (rest : List ℕ)
    → (c == 34) ≡ false
    → (c == 92) ≡ false
    → ltb c 32 ≡ false
    → read_text (c ∷ rest) plain ≡ put_front (c ∷ []) (read_text rest plain)
unfolding read_text
read_plain c rest a b d = rw a (rw b (rw d refl))

-- One byte.
read_escaped :
    (c : ℕ) (rest : List ℕ)
    → read_text (escaped c ++ rest) plain ≡ put_front (c ∷ []) (read_text rest plain)
unfolding escaped read_text
read_escaped c rest = elim (Bool-cases (c == 34)) [
  | inl e ↦ rw ((==_iff c 34).0 e) (put_nothing _)
  | inr q1 ↦ elim (Bool-cases (c == 92)) [
    | inl e ↦ rw ((==_iff c 92).0 e) (put_nothing _)
    | inr q2 ↦ elim (Bool-cases (c == 8)) [
      | inl e ↦ rw ((==_iff c 8).0 e) (put_nothing _)
      | inr q3 ↦ elim (Bool-cases (c == 12)) [
        | inl e ↦ rw ((==_iff c 12).0 e) (put_nothing _)
        | inr q4 ↦ elim (Bool-cases (c == 10)) [
          | inl e ↦ rw ((==_iff c 10).0 e) (put_nothing _)
          | inr q5 ↦ elim (Bool-cases (c == 13)) [
            | inl e ↦ rw ((==_iff c 13).0 e) (put_nothing _)
            | inr q6 ↦ elim (Bool-cases (c == 9)) [
              | inl e ↦ rw ((==_iff c 9).0 e) (put_nothing _)
              | inr q7 ↦ elim (Bool-cases (ltb c 32)) [
                | inl e ↦ rw q1 (
                    rw q2 (
                      rw q3 (
                        rw q4 (
                          rw q5 (rw q6 (rw q7 (rw e (read_control c rest (ground (arith, e))))))))))
                | inr e ↦ rw q1 (
                    rw q2
                      (rw q3 (rw q4 (rw q5 (rw q6 (rw q7 (rw e (read_plain c rest q1 q2 e))))))))
              ]
            ]
          ]
        ]
      ]
    ]
  ]
]

read_all : (s : List ℕ) → read_text (all_escaped s ++ quote ∷ []) plain ≡ some s
unfolding read_text
read_all [] = refl
read_all (c ∷ s) =
    ap (λ (t : List ℕ). read_text t plain) (append_assoc (escaped c) (all_escaped s) (quote ∷ []))
    ∙ (read_escaped c (all_escaped s ++ quote ∷ []) ∙ ap (put_front (c ∷ [])) (read_all s))

escaped-short : (c : ℕ) → length (escaped c) < 2 ^ 31
unfolding escaped
escaped-short c = ground arith

append_escaped_lem :
    (m : Memory) (s t : List ℕ) (sb : StrBuf)
    → IsMemory m
    → Holds sb t
    → (ends (append_escaped m s sb) ≡ true)
      × IsAppended (t ++ all_escaped s) (append_escaped m s sb)
unfolding append_escaped
append_escaped_lem m [] t sb mem h = (refl, rw (append-nil t) h)
append_escaped_lem m (c ∷ s) t sb mem h = rw⁻¹ (append_assoc t (escaped c) (all_escaped s)) (
    then_append_lem (t ++ escaped c) ((t ++ escaped c) ++ all_escaped s)
      (sb_appendf m (escaped c) sb) (append_escaped m s)
      (sb_appendf_lem m (escaped c) t sb mem (escaped-short c) h)
      (λ sb1 h1. append_escaped_lem m s (t ++ escaped c) sb1 mem h1))

-- What stands behind `t`, after the string `s` was appended to it as JSON.
abbrev pub IsJsonOf : List ℕ → List ℕ → Append → Type 0
IsJsonOf s t (appended sb) = (json : List ℕ) × Holds sb (t ++ json) × (read_json json ≡ some s)
IsJsonOf s t died = Unit
IsJsonOf s t endless = Unit

-- The string with its quotes.
unfoldable pub json_text : List ℕ → List ℕ
json_text s = quote ∷ (all_escaped s ++ quote ∷ [])

pub read_json_text : (s : List ℕ) → read_json (json_text s) ≡ some s
unfolding json_text
read_json_text s = read_all s

pub json_escape_append_text :
    (m : Memory) (s t : List ℕ) (sb : StrBuf)
    → IsMemory m
    → Holds sb t
    → (ends (json_escape_append m s sb) ≡ true)
      × IsAppended (t ++ json_text s) (json_escape_append m s sb)
unfolding json_escape_append json_text
json_escape_append_text m s t sb mem h =
    let one = t ++ quote ∷ [] in
    let two = one ++ all_escaped s in
    let same : two ++ quote ∷ [] ≡ t ++ quote ∷ (all_escaped s ++ quote ∷ []) =
      append_assoc one (all_escaped s) (quote ∷ [])
      ∙ append_assoc t (quote ∷ []) (all_escaped s ++ quote ∷ []) in
    rw⁻¹ same (
      then_append_lem one (two ++ quote ∷ []) (sb_appendf m (quote ∷ []) sb) _
        (sb_appendf_lem m (quote ∷ []) t sb mem (omega arith) h)
        (λ sb1 h1.
          then_append_lem two (two ++ quote ∷ []) (append_escaped m s sb1)
            (sb_appendf m (quote ∷ [])) (append_escaped_lem m s one sb1 mem h1)
            (λ sb2 h2. sb_appendf_lem m (quote ∷ []) two sb2 mem (omega arith) h2)))
