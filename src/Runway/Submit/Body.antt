-- ===== src/Runway/Submit/Body.antt =====
-- The body of a request of runway_hook.c as JSON.
use ryzen_build.Base.{
  ℕ, zero, suc, ◌+◌, ◌*◌, ◌^◌, ◌≤◌, ◌<◌, ◌≡◌, refl, ap, ◌∙◌, arith, ltb, ◌==◌, take, length, bytes,
  decimal, decimal-IsNumber, length-decimal, length-append, append_assoc, ==_iff,
}
use ryzen_build.Base.{
  true, false, Bool-cases, inl, inr, List, [], ◌∷◌, ◌++◌, Option, none, some, ◌⊎◌,
}
use ryzen_build.Json.{
  plain, read_text, read_json, put_front, Value, text, integer, object, Fields, no_field, field,
  IsJson, is_text, is_integer, is_object, IsFields, last_field, next_field,
}
use ryzen_build.Runway.Json.{json_escape, escape_loop, escape_byte}
use ryzen_build.Runway.Task.{RunwayConfig}
use ryzen_build.Runway.Submit.{image_field, signed_decimal, body_text, body}

-- No control character but a line end, a carriage return or a tab.
abbrev pub IsPrintable : List ℕ → Type 0
IsPrintable [] = Unit
IsPrintable (c ∷ rest) = ((ltb c 32 ≡ false) ⊎ ((c ≡ 10) ⊎ ((c ≡ 13) ⊎ (c ≡ 9)))) × IsPrintable rest

put_nothing : (o : Option (List ℕ)) → put_front [] o ≡ o
put_nothing none = refl
put_nothing (some t) = refl

read_byte :
    (c : ℕ) (rest : List ℕ)
    → (ltb c 32 ≡ false) ⊎ ((c ≡ 10) ⊎ ((c ≡ 13) ⊎ (c ≡ 9)))
    → read_text (escape_byte c ++ rest) plain ≡ put_front (c ∷ []) (read_text rest plain)
unfolding escape_byte read_text
read_byte c rest (inr (inl e)) = rw e (put_nothing _)
read_byte c rest (inr (inr (inl e))) = rw e (put_nothing _)
read_byte c rest (inr (inr (inr e))) = rw e (put_nothing _)
read_byte c rest (inl h) = elim (Bool-cases (c == 92)) [
  | inl e ↦ rw ((==_iff c 92).0 e) (put_nothing _)
  | inr a ↦ elim (Bool-cases (c == 34)) [
    | inl e ↦ rw ((==_iff c 34).0 e) (put_nothing _)
    | inr b ↦
        let no_n : (c == 10) ≡ false = ground (arith, h) in
        let no_r : (c == 13) ≡ false = ground (arith, h) in
        let no_t : (c == 9) ≡ false = ground (arith, h) in
        rw a (rw b (rw no_n (rw no_r (rw no_t (rw b (rw a (rw h refl)))))))
  ]
]

read_loop : (s : List ℕ) → IsPrintable s → read_text (escape_loop s ++ 34 ∷ []) plain ≡ some s
unfolding escape_loop read_text
read_loop [] h = refl
read_loop (c ∷ s) (h, hs) =
    ap (λ (t : List ℕ). read_text t plain) (append_assoc (escape_byte c) (escape_loop s) (34 ∷ []))
    ∙ (read_byte c (escape_loop s ++ 34 ∷ []) h ∙ ap (put_front (c ∷ [])) (read_loop s hs))

read_json-json_escape : (s : List ℕ) → IsPrintable s → read_json (json_escape s) ≡ some s
unfolding json_escape
read_json-json_escape s h = read_loop s h

string-IsJson : (s rest : List ℕ) → IsPrintable s → IsJson (text s) (json_escape s ++ rest) rest
string-IsJson s rest h = is_text s (json_escape s) rest (read_json-json_escape s h)

-- What a request asks for.
abbrev pub with_image : List ℕ → Fields → Fields
with_image [] fs = fs
with_image (c ∷ image) fs = field (bytes "promptImage") (text (c ∷ image)) fs

abbrev pub request : RunwayConfig → Value
request cfg = object (
    field (bytes "model") (text cfg.model) (
      field (bytes "promptText") (text cfg.prompt) (
        with_image cfg.prompt_image (
          field (bytes "ratio") (text cfg.ratio)
            (field (bytes "duration") (integer cfg.duration) no_field)))))

signed_decimal_lem : (n : ℕ) → n < 2 ^ 31 → signed_decimal n ≡ decimal n
unfolding signed_decimal
signed_decimal_lem n h = let small : ltb n (2 ^ 31) ≡ true = ground (arith, h) in rw small refl

ratio-IsFields :
    (ratio : List ℕ) (duration : ℕ)
    → IsPrintable ratio
    → duration < 2 ^ 31
    → IsFields
        (field (bytes "ratio") (text ratio) (field (bytes "duration") (integer duration) no_field))
        (bytes "\"ratio\":"
          ++ (json_escape ratio
              ++ (bytes ",\"duration\":" ++ (signed_decimal duration ++ bytes "}"))))
        (125 ∷ [])
unfolding read_text
ratio-IsFields ratio duration h small = rw (signed_decimal_lem duration small) (
    next_field (bytes "ratio") (bytes "\"ratio\"") refl (string-IsJson ratio _ h) (
      last_field (bytes "duration") (bytes "\"duration\"") refl (
        is_integer duration (decimal duration) (125 ∷ [])
          (decimal-IsNumber duration (omega (arith, small))))))

image-IsFields :
    (image : List ℕ) (fs : Fields) (u : List ℕ)
    → IsPrintable image
    → IsFields fs u (125 ∷ [])
    → (w : List ℕ) × (image_field image (44 ∷ u) ≡ 44 ∷ w)
      × IsFields (with_image image fs) w (125 ∷ [])
unfolding read_text
image-IsFields [] fs u h k = (u, refl, k)
image-IsFields (c ∷ image) fs u h k = (
  _,
  refl,
  next_field (bytes "promptImage") (bytes "\"promptImage\"") refl (string-IsJson (c ∷ image) _ h) k,
)

prompt-IsFields :
    (prompt image : List ℕ) (fs : Fields) (u : List ℕ)
    → IsPrintable prompt
    → IsPrintable image
    → IsFields fs u (125 ∷ [])
    → IsFields
        (field (bytes "promptText") (text prompt) (with_image image fs))
        (bytes "\"promptText\":" ++ (json_escape prompt ++ image_field image (44 ∷ u)))
        (125 ∷ [])
unfolding read_text
prompt-IsFields prompt image fs u p h k =
    let (w, same, fields) = image-IsFields image fs u h k in
    next_field (bytes "promptText") (bytes "\"promptText\"") refl
      (rw⁻¹ same (string-IsJson prompt (image_field image (44 ∷ u)) p)) fields

text-IsJson :
    (cfg : RunwayConfig)
    → IsPrintable cfg.model
    → IsPrintable cfg.prompt
    → IsPrintable cfg.prompt_image
    → IsPrintable cfg.ratio
    → cfg.duration < 2 ^ 31
    → IsJson (request cfg) (body_text cfg) []
unfolding body_text read_text
text-IsJson cfg m p i r d = is_object (
    next_field (bytes "model") (bytes "\"model\"") refl (string-IsJson cfg.model _ m) (
      prompt-IsFields cfg.prompt cfg.prompt_image _ _ p i
        (ratio-IsFields cfg.ratio cfg.duration r d)))

-- How long the body is.
length-escape_loop : (s : List ℕ) → length (escape_loop s) ≤ 2 * length s
unfolding escape_loop escape_byte
length-escape_loop [] = omega arith
length-escape_loop (c ∷ s) =
    let more = length-append (escape_byte c) (escape_loop s) in
    let two : length (escape_byte c) ≤ 2 = ground arith in
    omega (arith, more, two, length-escape_loop s)

length-json_escape : (s : List ℕ) → length (json_escape s) ≤ 2 * length s + 2
unfolding json_escape
length-json_escape s = omega (arith, length-append (escape_loop s) (34 ∷ []), length-escape_loop s)

length-image_field :
    (image rest : List ℕ) → length (image_field image rest) ≤ 2 * length image + 17 + length rest
length-image_field [] rest = omega arith
length-image_field (c ∷ image) rest =
    omega (arith, length-append (json_escape (c ∷ image)) rest, length-json_escape (c ∷ image))

length-body_text :
    (cfg : RunwayConfig)
    → cfg.duration < 2 ^ 31
    → length (body_text cfg)
      ≤ 2 * (length cfg.model + length cfg.prompt + length cfg.prompt_image + length cfg.ratio) + 88
unfolding body_text
length-body_text cfg d =
    let e4 = bytes ",\"duration\":" ++ (signed_decimal cfg.duration ++ bytes "}") in
    let e3 = bytes ",\"ratio\":" ++ (json_escape cfg.ratio ++ e4) in
    let e2 = image_field cfg.prompt_image e3 in
    omega (
      arith,
      length-append (signed_decimal cfg.duration) (bytes "}"),
      ap length (signed_decimal_lem cfg.duration d),
      length-decimal cfg.duration,
      length-append (json_escape cfg.ratio) e4,
      length-json_escape cfg.ratio,
      length-image_field cfg.prompt_image e3,
      length-append (json_escape cfg.prompt) e2,
      length-json_escape cfg.prompt,
      length-append (json_escape cfg.model)
          (bytes ",\"promptText\":" ++ (json_escape cfg.prompt ++ e2)),
      length-json_escape cfg.model,
    )

take_all : (xs : List ℕ) (n : ℕ) → length xs ≤ n → take n xs ≡ xs
take_all [] zero h = refl
take_all [] (suc n) h = refl
take_all (x ∷ xs) zero h = absurd (omega (arith, h))
take_all (x ∷ xs) (suc n) h = ap (λ (l : List ℕ). x ∷ l) (take_all xs n (omega (arith, h)))

-- If the strings of the configuration have no control character but line ends, carriage returns and
-- tabs, are together at most 4050 bytes, and the duration is no negative `int`, then the body that is
-- sent is a JSON text of the object with the model, the prompt, the image (if there is one), the ratio
-- and the duration.
pub body-IsJson :
    (cfg : RunwayConfig)
    → IsPrintable cfg.model
      × (IsPrintable cfg.prompt × (IsPrintable cfg.prompt_image × IsPrintable cfg.ratio))
    → length cfg.model + length cfg.prompt + length cfg.prompt_image + length cfg.ratio ≤ 4050
    → cfg.duration < 2 ^ 31
    → IsJson (request cfg) (body cfg) []
unfolding body
body-IsJson cfg (m, (p, (i, r))) short d =
    let whole : take 8191 (body_text cfg) ≡ body_text cfg =
      take_all (body_text cfg) 8191 (omega (arith, short, length-body_text cfg d)) in
    rw whole (text-IsJson cfg m p i r d)
