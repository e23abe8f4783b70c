-- ===== src/Base/Decimal.antt =====
-- Numbers in C's texts: what `printf` makes of an unsigned number, and what `strtoull` reads.
use Prim.Native.Nat.{ℕ, zero, suc, ◌+◌, ◌-◌, ◌*◌, ◌/◌, ◌%◌, ◌^◌, ◌≤◌, ◌<◌}
use mathlib.Core.Path.{◌≡◌, refl, ◌∙◌}
use mathlib.Core.Bool.{Bool, true, false, ◌&&◌, ◌||◌}
use mathlib.Core.Logic.{inl, inr}
use mathlib.Core.Option.{Option, none, some}
use mathlib.Core.List.{List, [], ◌∷◌, ◌++◌}
use native.Mathlib.Omega.{arith}
use native.Mathlib.Nat.{pow-suc}
use ryzen_build.Base.Tests.{◌==◌, leb, ltb, if◌then◌else◌, Bool-cases}
use ryzen_build.Base.Lists.{length}
use ryzen_build.Base.Strings.{digits, is_digit}

-- The digits of a number in front of `acc`; `more` digits may follow the last.
unfoldable pub decimal_loop : ℕ → ℕ → List ℕ → List ℕ
decimal_loop zero n acc = (48 + n) ∷ acc
decimal_loop (suc more) n acc =
    let longer = decimal_loop more (n / 10) ((48 + n % 10) ∷ acc) in
    if ltb n 10 then (48 + n) ∷ acc else longer

-- `%u`, `%llu` and `%zu`: 64 bits have at most 20 digits.
unfoldable pub decimal : ℕ → List ℕ
decimal n = decimal_loop 19 n []

-- `printf` of numbers, each behind its text.
unfoldable pub labelled : List (List ℕ × ℕ) → List ℕ
labelled [] = []
labelled ((name, v) ∷ rest) = name ++ (decimal v ++ labelled rest)

abbrev pub hex_digit : ℕ → ℕ
hex_digit n = if ltb n 10 then 48 + n else 87 + n

-- The low `count` digits to the base 16 in front of `acc`.
unfoldable pub hex_loop : ℕ → ℕ → List ℕ → List ℕ
hex_loop zero n acc = acc
hex_loop (suc count) n acc = hex_loop count (n / 16) (hex_digit (n % 16) ∷ acc)

abbrev pub all_digits : List ℕ → Bool
all_digits [] = true
all_digits (c ∷ rest) = is_digit c && all_digits rest

-- Digits without a needless 0 in front.
abbrev pub no_zero : List ℕ → Bool
no_zero [] = false
no_zero (c ∷ []) = true
no_zero (c ∷ d ∷ rest) = ltb 48 c

digits-decimal_loop :
    (more n : ℕ) (acc : List ℕ)
    → n < 10 ^ suc more
    → digits 0 (decimal_loop more n acc) ≡ digits n acc
unfolding decimal_loop digits
digits-decimal_loop zero n acc h =
    let small : n < 10 = omega (arith, h, pow-suc 10 0) in
    let d : is_digit (48 + n) ≡ true = ground (arith, small) in
    let v : 0 * 10 + (48 + n - 48) ≡ n = omega arith in rw d (rw v refl)
digits-decimal_loop (suc more) n acc h = elim (Bool-cases (ltb n 10)) [
  | inl e ↦
      let d : is_digit (48 + n) ≡ true = ground (arith, e) in
      let v : 0 * 10 + (48 + n - 48) ≡ n = omega arith in rw e (rw d (rw v refl))
  | inr e ↦
      let less : n / 10 < 10 ^ suc more = omega (arith, h, pow-suc 10 (suc more)) in
      let d : is_digit (48 + n % 10) ≡ true = ground arith in
      let v : n / 10 * 10 + (48 + n % 10 - 48) ≡ n = omega arith in
      let step : digits (n / 10) ((48 + n % 10) ∷ acc) ≡ digits n acc = rw d (rw v refl) in
      rw e (digits-decimal_loop more (n / 10) ((48 + n % 10) ∷ acc) less ∙ step)
]

all_digits-decimal_loop :
    (more n : ℕ) (acc : List ℕ)
    → n < 10 ^ suc more
    → all_digits acc ≡ true
    → all_digits (decimal_loop more n acc) ≡ true
unfolding decimal_loop
all_digits-decimal_loop zero n acc h a =
    let small : n < 10 = omega (arith, h, pow-suc 10 0) in ground (arith, small, a)
all_digits-decimal_loop (suc more) n acc h a = elim (Bool-cases (ltb n 10)) [
  | inl e ↦ rw e (ground (arith, e, a))
  | inr e ↦
      let less : n / 10 < 10 ^ suc more = omega (arith, h, pow-suc 10 (suc more)) in
      rw e (all_digits-decimal_loop more (n / 10) ((48 + n % 10) ∷ acc) less (ground (arith, a)))
]

positive_first : (c : ℕ) (acc : List ℕ) → 48 < c → no_zero (c ∷ acc) ≡ true
positive_first c [] h = refl
positive_first c (d ∷ acc) h = ground (arith, h)

no_zero-decimal_loop :
    (more n : ℕ) (acc : List ℕ) → 0 < n → no_zero (decimal_loop more n acc) ≡ true
unfolding decimal_loop
no_zero-decimal_loop zero n acc h = positive_first (48 + n) acc (omega (arith, h))
no_zero-decimal_loop (suc more) n acc h = elim (Bool-cases (ltb n 10)) [
  | inl e ↦ rw e (positive_first (48 + n) acc (omega (arith, h)))
  | inr e ↦ rw e (no_zero-decimal_loop more (n / 10) ((48 + n % 10) ∷ acc) (ground (arith, e)))
]

no_zero-decimal : (n : ℕ) → no_zero (decimal n) ≡ true
unfolding decimal decimal_loop
no_zero-decimal zero = refl
no_zero-decimal (suc n) = no_zero-decimal_loop 19 (suc n) [] (omega arith)

-- A text of digits that stands for a number, without a needless 0 in front.
pub record IsNumber (n : ℕ) (ds : List ℕ) : Type 0 where
  pub value : digits 0 ds ≡ n
  pub all : all_digits ds ≡ true
  pub first : no_zero ds ≡ true

pub decimal-IsNumber : (n : ℕ) → n < 10 ^ 20 → IsNumber n (decimal n)
unfolding decimal digits
decimal-IsNumber n h = record {
  value = digits-decimal_loop 19 n [] h;
  all = all_digits-decimal_loop 19 n [] h refl;
  first = no_zero-decimal n;
}

length-decimal_loop :
    (more n : ℕ) (acc : List ℕ) → length (decimal_loop more n acc) ≤ suc more + length acc
unfolding decimal_loop
length-decimal_loop zero n acc = omega arith
length-decimal_loop (suc more) n acc = elim (Bool-cases (ltb n 10)) [
  | inl e ↦ rw e (omega arith)
  | inr e ↦ rw e (omega (arith, length-decimal_loop more (n / 10) ((48 + n % 10) ∷ acc)))
]

pub length-decimal : (n : ℕ) → length (decimal n) ≤ 20
unfolding decimal
length-decimal n = length-decimal_loop 19 n []

-- The text behind the digits at the front.
unfoldable pub behind_digits : List ℕ → List ℕ
behind_digits [] = []
behind_digits (c ∷ rest) = let more = behind_digits rest in if is_digit c then more else c ∷ rest

unfoldable pub behind_spaces : List ℕ → List ℕ
behind_spaces [] = []
behind_spaces (c ∷ rest) =
    let more = behind_spaces rest in if (leb 9 c && leb c 13) || (c == 32) then more else c ∷ rest

-- Whether there is a minus, and the text behind the sign.
abbrev pub signed : List ℕ → Bool × List ℕ
signed [] = (false, [])
signed (c ∷ rest) =
    if c == 45 then (true, rest) else if c == 43 then (false, rest) else (false, c ∷ rest)

abbrev pub digit_first : List ℕ → Bool
digit_first [] = false
digit_first (c ∷ rest) = is_digit c

-- `strtoull` to the base 10: the number and the text at `end`; `none` for `ERANGE`. A minus negates in
-- 64 bits.
unfoldable pub strtoull : List ℕ → Option (ℕ × List ℕ)
strtoull text =
    let s = signed (behind_spaces text) in
    let v = digits 0 s.1 in
    if digit_first s.1
    then (if ltb v (2 ^ 64)
        then some ((if s.0 then (2 ^ 64 - v) % 2 ^ 64 else v), behind_digits s.1)
        else none)
    else some (0, text)

abbrev or_ulong_max : Option (ℕ × List ℕ) → ℕ
or_ulong_max none = 2 ^ 64 - 1
or_ulong_max (some (v, t)) = v

-- `(unsigned)strtoul(text, NULL, 10)`
unfoldable pub strtoul_u32 : List ℕ → ℕ
strtoul_u32 text = or_ulong_max (strtoull text) % 2 ^ 32

pub strtoull_bound : (text : List ℕ) (v : ℕ) (t : List ℕ) → strtoull text ≡ some (v, t) → v < 2 ^ 64
unfolding strtoull
strtoull_bound text v t e = ground (arith, e)

-- A number that was printed is read back.
strtoull_number :
    (n : ℕ) (ds : List ℕ) → IsNumber n ds → n < 2 ^ 64 → or_ulong_max (strtoull ds) ≡ n
unfolding strtoull behind_spaces
strtoull_number n [] h k = absurd (ground (arith, h.first))
strtoull_number n (c ∷ rest) h k =
    let d : is_digit c ≡ true = ground (arith, h.all) in
    let solid : ((leb 9 c && leb c 13) || (c == 32)) ≡ false = ground (arith, d) in
    let minus : (c == 45) ≡ false = ground (arith, d) in
    let plus : (c == 43) ≡ false = ground (arith, d) in
    let small : ltb (digits 0 (c ∷ rest)) (2 ^ 64) ≡ true = ground (arith, h.value, k) in
    rw solid (rw minus (rw plus (rw d (rw small h.value))))

pub strtoul_u32-decimal : (n : ℕ) → n < 2 ^ 32 → strtoul_u32 (decimal n) ≡ n
unfolding strtoul_u32
strtoul_u32-decimal n h = omega (
  arith,
  h,
  strtoull_number n (decimal n) (decimal-IsNumber n (omega (arith, h))) (omega (arith, h)),
)
