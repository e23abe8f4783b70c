-- ===== src/Base/Strings.antt =====
-- C's strings as lists of bytes without their terminator, and the calls of its library on them.
use Prim.Native.Nat.{ℕ, ◌+◌, ◌-◌, ◌*◌, ◌%◌, ◌^◌, min}
use Prim.Native.Char.{code}
use Prim.Native.String.{String}
use mathlib.Core.Bool.{Bool, true, false, ◌&&◌, ◌||◌}
use mathlib.Core.Option.{Option, none, some}
use mathlib.Core.List.{List, [], ◌∷◌}
use ryzen_build.Base.Tests.{◌==◌, leb, if◌then◌else◌}

abbrev pub bytes : String → List ℕ
bytes String.[] = []
bytes (String.◌∷◌ c s) = code c ∷ bytes s

-- `strcmp(a, b) == 0`
unfoldable pub same_text : List ℕ → List ℕ → Bool
same_text [] [] = true
same_text [] (y ∷ ys) = false
same_text (x ∷ xs) [] = false
same_text (x ∷ xs) (y ∷ ys) = (x == y) && same_text xs ys

abbrev later : Option ℕ → Bool → Option ℕ
later none true = some 0
later none false = none
later (some i) b = some (i + 1)

-- `strrchr`, as the index of the last byte `c`.
unfoldable pub strrchr : List ℕ → ℕ → Option ℕ
strrchr [] c = none
strrchr (x ∷ xs) c = later (strrchr xs c) (x == c)

abbrev pub is_digit : ℕ → Bool
is_digit c = leb 48 c && leb c 57

-- The digits at the front, as a number after `acc`.
unfoldable pub digits : ℕ → List ℕ → ℕ
digits acc [] = acc
digits acc (c ∷ rest) =
    let more = digits (acc * 10 + (c - 48)) rest in if is_digit c then more else acc

-- The digits after the sign: `strtol` stops at the ends of a `long`, and `int` keeps 32 bits.
unfoldable pub signed_digits : List ℕ → ℕ
signed_digits [] = 0
signed_digits (c ∷ rest) =
    if c == 45
    then (2 ^ 64 - min (digits 0 rest) (2 ^ 63)) % 2 ^ 32
    else (if c == 43
        then min (digits 0 rest) (2 ^ 63 - 1)
        else min (digits 0 (c ∷ rest)) (2 ^ 63 - 1))
      % 2 ^ 32

-- `atoi`, as the word of its `int`.
unfoldable pub atoi : List ℕ → ℕ
atoi [] = 0
atoi (c ∷ rest) =
    let more = atoi rest in
    if (leb 9 c && leb c 13) || (c == 32) then more else signed_digits (c ∷ rest)

-- The rest of a text after a prefix, if it has it.
unfoldable pub after_prefix : List ℕ → List ℕ → Option (List ℕ)
after_prefix [] text = some text
after_prefix (p ∷ ps) [] = none
after_prefix (p ∷ ps) (c ∷ text) = if p == c then after_prefix ps text else none

abbrev or_later : Option (List ℕ) → Option (List ℕ) → Option (List ℕ)
or_later none o = o
or_later (some t) o = some t

-- `strstr`, as the text behind the first occurrence.
unfoldable pub strstr_rest : List ℕ → List ℕ → Option (List ℕ)
strstr_rest [] needle = after_prefix needle []
strstr_rest (c ∷ text) needle = or_later (after_prefix needle (c ∷ text)) (strstr_rest text needle)

abbrev from_here : Option (List ℕ) → List ℕ → Option (List ℕ) → Option (List ℕ)
from_here none here o = o
from_here (some t) here o = some here

-- `strstr`, as the text from the first occurrence on.
unfoldable pub strstr : List ℕ → List ℕ → Option (List ℕ)
strstr [] needle = from_here (after_prefix needle []) [] none
strstr (c ∷ text) needle =
    from_here (after_prefix needle (c ∷ text)) (c ∷ text) (strstr text needle)

-- `strchr`, as the text from the first `c` on.
unfoldable pub strchr : List ℕ → ℕ → Option (List ℕ)
strchr [] c = none
strchr (x ∷ text) c = if x == c then some (x ∷ text) else strchr text c
