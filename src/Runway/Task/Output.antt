-- ===== src/Runway/Task/Output.antt =====
-- What runway_hook.c prints as the address of a task's output.
use ryzen_build.Base.{
  ℕ, zero, suc, ◌-◌, ◌≤◌, ◌≡◌, refl, sym, ap, ◌∙◌, arith, ◌==◌, inl, inr, Bool-cases,
}
use ryzen_build.Base.{
  List, [], ◌∷◌, ◌++◌, Option, none, some, Option-cases, bytes, after_prefix, strstr, strchr,
  ==_iff,
}
use ryzen_build.Runway.Json.{copy_value, unslash, found_value}
use ryzen_build.Runway.Task.{extract_first_output_url, first_quoted}

after_prefix-some : (ps text q : List ℕ) → after_prefix ps text ≡ some q → text ≡ ps ++ q
unfolding after_prefix
after_prefix-some [] text q h = ground (arith, h)
after_prefix-some (p ∷ ps) [] q h = absurd (ground (arith, h))
after_prefix-some (p ∷ ps) (c ∷ text) q h = elim (Bool-cases (p == c)) [
  | inl e ↦
      let same : c ≡ p = sym ((==_iff p c).0 e) in
      rw same (ap (λ (t : List ℕ). p ∷ t) (after_prefix-some ps text q (rw e at h)))
  | inr e ↦ absurd (ground (arith, h, e))
]

abbrev or_nil : Option (List ℕ) → List ℕ
or_nil none = []
or_nil (some t) = t

strstr-some :
    (text needle p : List ℕ) → strstr text needle ≡ some p → (q : List ℕ) × (p ≡ needle ++ q)
unfolding strstr
strstr-some [] needle p h = elim (Option-cases (after_prefix needle [])) [
  | inl e ↦ absurd (ground (arith, rw e at h))
  | inr (q, e) ↦ (q, sym (ap or_nil (rw e at h)) ∙ after_prefix-some needle [] q e)
]
strstr-some (c ∷ text) needle p h = elim (Option-cases (after_prefix needle (c ∷ text))) [
  | inl e ↦ strstr-some text needle p (rw e at h)
  | inr (q, e) ↦ (q, sym (ap or_nil (rw e at h)) ∙ after_prefix-some needle (c ∷ text) q e)
]

copy_output :
    (k : ℕ) (q : List ℕ)
    → copy_value (suc (suc (suc (suc (suc (suc k)))))) (bytes "output\":[" ++ q) ≡ bytes "output"
unfolding copy_value unslash
copy_output zero q = refl
copy_output (suc k) q = refl

first_quoted_lem :
    (q : List ℕ) (out_sz : ℕ)
    → 7 ≤ out_sz
    → first_quoted (some (bytes "\"output\":[" ++ q)) out_sz ≡ some (bytes "output")
unfolding strchr
first_quoted_lem q out_sz h =
    let room : out_sz - 1 ≡ suc (suc (suc (suc (suc (suc (out_sz - 7)))))) = omega (arith, h) in
    rw room (ap found_value (copy_output (out_sz - 7) q))

-- Whatever a response lists as its output: if it has the text `"output":[` in it, without white space,
-- and there is room for seven bytes or more, what is taken for the address of the output is the word
-- "output" itself.
pub extract_first_output_url_lem :
    (json p : List ℕ) (out_sz : ℕ)
    → 7 ≤ out_sz
    → strstr json (bytes "\"output\":[") ≡ some p
    → extract_first_output_url json out_sz ≡ some (bytes "output")
unfolding extract_first_output_url
extract_first_output_url_lem json p out_sz h found =
    let (q, same) = strstr-some json (bytes "\"output\":[") p found in
    rw found (rw same (first_quoted_lem q out_sz h))
