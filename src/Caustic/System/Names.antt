-- ===== src/Caustic/System/Names.antt =====
-- The names of the extended attributes in caustic.c, one behind another with a 0 after each.
use ryzen_build.Base.{
  ℕ, zero, suc, ◌+◌, ◌^◌, ◌≤◌, ◌<◌, ◌≡◌, refl, ap, arith, ◌==◌, if◌then◌else◌, u64, length, drop,
  length-drop,
}
use ryzen_build.Base.{Bool-cases, inl, inr, List, [], ◌∷◌}
use ryzen_build.Caustic.System.{c_string, count_loop}

abbrev first_more : ℕ → List (List ℕ) → List (List ℕ)
first_more c [] = (c ∷ []) ∷ []
first_more c (n ∷ ns) = (c ∷ n) ∷ ns

-- The bytes between the zeros.
abbrev pub names_of : List ℕ → List (List ℕ)
names_of [] = []
names_of (c ∷ rest) = if c == 0 then [] ∷ names_of rest else first_more c (names_of rest)

-- A round of a loop takes the first name.
pub names_round :
    (c : ℕ) (cs : List ℕ)
    → names_of (c ∷ cs)
      ≡ c_string (c ∷ cs) ∷ names_of (drop (suc (length (c_string (c ∷ cs)))) (c ∷ cs))
unfolding c_string
names_round c [] = elim (Bool-cases (c == 0)) [ inl e ↦ rw e refl | inr e ↦ rw e refl ]
names_round c (d ∷ cs) = elim (Bool-cases (c == 0)) [
  | inl e ↦ rw e refl
  | inr e ↦ rw e (ap (first_more c) (names_round d cs))
]

length-c_string : (names : List ℕ) → length (c_string names) ≤ length names
unfolding c_string
length-c_string [] = omega arith
length-c_string (c ∷ cs) = ground (arith, length-c_string cs)

abbrev pub total : List (List ℕ) → ℕ
total [] = 0
total (n ∷ ns) = length n + total ns

pub count_loop_lem :
    (fuel : ℕ) (names : List ℕ) (count name_bytes : ℕ)
    → length names ≤ fuel
    → count + length names < 2 ^ 64
    → name_bytes + length names < 2 ^ 64
    → count_loop fuel names count name_bytes
      ≡ (count + length (names_of names), name_bytes + total (names_of names))
unfolding count_loop
count_loop_lem zero [] count name_bytes f h k = ground arith
count_loop_lem zero (c ∷ cs) count name_bytes f h k = absurd (omega (arith, f))
count_loop_lem (suc fuel) [] count name_bytes f h k = ground arith
count_loop_lem (suc fuel) (c ∷ cs) count name_bytes f h k =
    let name = c_string (c ∷ cs) in
    let rest = drop (suc (length name)) (c ∷ cs) in
    let short = length-c_string (c ∷ cs) in
    let left = length-drop (suc (length name)) (c ∷ cs) in
    let one : u64 (count + 1) ≡ count + 1 = omega (arith, h) in
    let more : u64 (name_bytes + length name) ≡ name_bytes + length name =
      omega (arith, k, short) in
    let round = names_round c cs in
    let ih =
      count_loop_lem fuel rest (count + 1) (name_bytes + length name) (omega (arith, f, left))
        (omega (arith, h, left, short)) (omega (arith, k, left, short)) in
    let counts : count + length (names_of (c ∷ cs)) ≡ (count + 1) + length (names_of rest) =
      omega (arith, ap length round) in
    let sums : name_bytes + total (names_of (c ∷ cs))
        ≡ (name_bytes + length name) + total (names_of rest) =
      omega (arith, ap total round) in
    rw one (rw more (rw counts (rw sums ih)))
