-- ===== src/Dawnhex/Scan.antt =====
-- What the command parser of dawnhex_kmod.c uses of the kernel's library: `sscanf` with `%u` and `%31s`,
-- and `strncmp` against a literal, over the bytes of a string without its NUL.
use ryzen_build.Base.{ℕ, zero, suc, ◌+◌, ◌-◌, ◌*◌, u32, leb, ◌==◌, if◌then◌else◌}
use ryzen_build.Base.{Bool, true, false, ◌&&◌, ◌||◌, List, [], ◌∷◌}
use ryzen_build.Dawnhex.Types.{Text}

-- A directive of a format: a byte to match, white space, `%u` and `%31s`.
pub data Directive : Type 0 where
  byte : ℕ → Directive
  space : Directive
  unsigned : Directive
  string : Directive

-- A converted argument.
pub data Arg : Type 0 where
  num : ℕ → Arg
  str : Text → Arg

-- The kernel's `isspace`, which holds of the no-break space of Latin-1, too.
unfoldable pub is_space : ℕ → Bool
is_space c = c == 32 || leb 9 c && leb c 13 || c == 160

unfoldable pub is_digit : ℕ → Bool
is_digit c = leb b'0' c && leb c b'9'

unfoldable pub skip_spaces : Text → Text
unfolding is_space
skip_spaces [] = []
skip_spaces (c ∷ cs) = if is_space c then skip_spaces cs else c ∷ cs

-- The digits at the front are read into `acc`, which wraps at 32 bits.
unfoldable pub scan_digits : ℕ → Text → ℕ × Text
unfolding is_digit
scan_digits acc [] = (acc, [])
scan_digits acc (c ∷ cs) =
    let rest = scan_digits (u32 (acc * 10 + (c - b'0'))) cs in
    if is_digit c then rest else (acc, c ∷ cs)

-- At most `width` bytes up to white space.
unfoldable pub scan_word : ℕ → Text → Text × Text
unfolding is_space
scan_word zero cs = ([], cs)
scan_word (suc width) [] = ([], [])
scan_word (suc width) (c ∷ cs) =
    let (word, rest) = scan_word width cs in if is_space c then ([], c ∷ cs) else (c ∷ word, rest)

-- The arguments converted up to the first directive that does not match.
unfoldable pub sscanf : List Directive → Text → List Arg
unfolding skip_spaces scan_digits scan_word
sscanf [] cs = []
sscanf (space ∷ ds) cs = sscanf ds (skip_spaces cs)
sscanf (byte d ∷ ds) [] = []
sscanf (byte d ∷ ds) (c ∷ cs) = if c == d then sscanf ds cs else []
sscanf (unsigned ∷ ds) cs = elim (skip_spaces cs) [
  | [] ↦ []
  | c ∷ r ↦
      let (v, rest) = scan_digits 0 (c ∷ r) in
      let more = sscanf ds rest in if is_digit c then num v ∷ more else []
]
sscanf (string ∷ ds) cs = elim (skip_spaces cs) [
  | [] ↦ []
  | c ∷ r ↦ let (word, rest) = scan_word 31 (c ∷ r) in str word ∷ sscanf ds rest
]

-- `!strncmp(cmd, literal, strlen(literal))`
unfoldable pub starts_with : Text → Text → Bool
starts_with [] cs = true
starts_with (p ∷ ps) [] = false
starts_with (p ∷ ps) (c ∷ cs) = p == c && starts_with ps cs

-- A byte of a format that stands for itself, or for any or no white space.
abbrev pub plain : ℕ → Directive
plain c = if c == 32 then space else byte c

-- The literal words of a format.
abbrev pub literal : Text → List Directive → List Directive
literal [] ds = ds
literal (c ∷ cs) ds = plain c ∷ literal cs ds
