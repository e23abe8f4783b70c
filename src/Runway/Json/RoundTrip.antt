-- ===== src/Runway/Json/RoundTrip.antt =====
-- `json_escape` and the extractors of runway_hook.c together.
use ryzen_build.Base.{
  ℕ, zero, suc, ◌+◌, ◌-◌, ◌*◌, ◌≤◌, ◌<◌, ◌≡◌, ◌≢◌, refl, ap, ◌∙◌, arith, ◌==◌, length,
  length-append, append_assoc,
}
use ryzen_build.Base.{false, Bool-cases, inl, inr, List, [], ◌∷◌, ◌++◌, some, ==_iff, strstr_rest}
use ryzen_build.Runway.Json.{
  escape_byte, escape_loop, json_escape, unslash, copy_value, found_value, needle,
  extract_json_string_field,
}

-- No line end, carriage return or tab.
abbrev pub NoControl : List ℕ → Type 0
NoControl [] = Unit
NoControl (c ∷ rest) = ((c ≢ 10) × (c ≢ 13) × (c ≢ 9)) × NoControl rest

copy_plain :
    (c k : ℕ) (rest : List ℕ)
    → (c == 92) ≡ false
    → (c == 34) ≡ false
    → 0 < length rest
    → copy_value (suc k) (c ∷ rest) ≡ c ∷ copy_value k rest
unfolding copy_value unslash
copy_plain c k [] a b h = absurd (omega (arith, h))
copy_plain c k (d ∷ rest) a b h = rw a (rw b refl)

copy_byte :
    (c k : ℕ) (rest : List ℕ)
    → (c ≢ 10) × (c ≢ 13) × (c ≢ 9)
    → 0 < length rest
    → copy_value (suc k) (escape_byte c ++ rest) ≡ c ∷ copy_value k rest
unfolding copy_value unslash escape_byte
copy_byte c k rest (n, r, t) h = elim (Bool-cases (c == 92)) [
  | inl e ↦ rw ((==_iff c 92).0 e) refl
  | inr a ↦ elim (Bool-cases (c == 34)) [
    | inl e ↦ rw ((==_iff c 34).0 e) refl
    | inr b ↦
        let not_n : (c == 10) ≡ false = ground (arith, n) in
        let not_r : (c == 13) ≡ false = ground (arith, r) in
        let not_t : (c == 9) ≡ false = ground (arith, t) in
        rw a (rw b (rw not_n (rw not_r (rw not_t (copy_plain c k rest a b h)))))
  ]
]

some_end : (s post : List ℕ) → 0 < length (escape_loop s ++ 34 ∷ post)
some_end s post = ground (arith, length-append (escape_loop s) (34 ∷ post))

copy_end : (k : ℕ) (post : List ℕ) → copy_value k (34 ∷ post) ≡ []
unfolding copy_value
copy_end zero post = refl
copy_end (suc k) post = refl

copy_escaped :
    (s post : List ℕ) (k : ℕ)
    → NoControl s
    → length s ≤ k
    → copy_value k (escape_loop s ++ 34 ∷ post) ≡ s
unfolding escape_loop
copy_escaped [] post k c h = copy_end k post
copy_escaped (x ∷ s) post zero c h = absurd (omega (arith, h))
copy_escaped (x ∷ s) post (suc k) (c, more) h =
    ap (copy_value (suc k)) (append_assoc (escape_byte x) (escape_loop s) (34 ∷ post))
    ∙ (copy_byte x k (escape_loop s ++ 34 ∷ post) c (some_end s post)
        ∙ ap (λ (t : List ℕ). x ∷ t) (copy_escaped s post k more (omega (arith, h))))

found_value-some : (s : List ℕ) → 0 < length s → found_value s ≡ some s
found_value-some [] h = absurd (omega (arith, h))
found_value-some (c ∷ rest) h = refl

-- If a text has the name of a field with a quote after the colon first where `json_escape` of a value
-- goes on, the value has no line end, carriage return or tab, is not empty, and fits the array with
-- its terminator, then the extractor gives the value back.
pub extract-json_escape :
    (json field value post : List ℕ) (out_sz : ℕ)
    → strstr_rest json (needle field) ≡ some (escape_loop value ++ 34 ∷ post)
    → NoControl value
    → 0 < length value
    → length value < out_sz
    → extract_json_string_field json field out_sz ≡ some value
unfolding extract_json_string_field
extract-json_escape json field value post out_sz first plain some_value fits = rw first (
    ap found_value (copy_escaped value post (out_sz - 1) plain (omega (arith, fits)))
    ∙ found_value-some value some_value)

length-escape_byte : (c : ℕ) → length (escape_byte c) ≤ 2
unfolding escape_byte
length-escape_byte c = ground arith

length-escape_loop : (s : List ℕ) → length (escape_loop s) ≤ 2 * length s
unfolding escape_loop
length-escape_loop [] = omega arith
length-escape_loop (c ∷ s) = omega (
  arith,
  length-append (escape_byte c) (escape_loop s),
  length-escape_byte c,
  length-escape_loop s,
)

-- The array of `json_escape` has room for the text and its terminator.
pub length-json_escape : (s : List ℕ) → length (json_escape s) + 1 ≤ length s * 2 + 3
unfolding json_escape
length-json_escape s = omega (arith, length-append (escape_loop s) (34 ∷ []), length-escape_loop s)
