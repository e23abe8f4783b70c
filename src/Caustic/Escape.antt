-- ===== src/Caustic/Escape.antt =====
-- Strings as JSON in caustic.c: `json_escape_append`.
pub mod RoundTrip
use ryzen_build.Base.{
  ℕ, ◌+◌, ◌-◌, ◌/◌, ◌%◌, ltb, ◌==◌, if◌then◌else◌, Bool, true, false, List, [], ◌∷◌, ◌++◌, bytes,
  hex_digit,
}
use ryzen_build.Caustic.StrBuf.{StrBuf, Memory, Append, appended, sb_appendf, then_append}

abbrev pub quote : ℕ
quote = 34

abbrev pub backslash : ℕ
backslash = 92

-- What the `switch` appends for one byte.
unfoldable pub escaped : ℕ → List ℕ
escaped c =
    if c == 34
    then backslash ∷ quote ∷ []
    else if c == 92
    then backslash ∷ backslash ∷ []
    else if c == 8
    then bytes "\\b"
    else if c == 12
    then bytes "\\f"
    else if c == 10
    then bytes "\\n"
    else if c == 13
    then bytes "\\r"
    else if c == 9
    then bytes "\\t"
    else if ltb c 32
    then backslash ∷ 117 ∷ 48 ∷ 48 ∷ hex_digit (c / 16) ∷ hex_digit (c % 16) ∷ []
    else c ∷ []

unfoldable pub append_escaped : Memory → List ℕ → StrBuf → Append
append_escaped m [] sb = appended sb
append_escaped m (c ∷ rest) sb = then_append (sb_appendf m (escaped c) sb) (append_escaped m rest)

unfoldable pub json_escape_append : Memory → List ℕ → StrBuf → Append
json_escape_append m s sb =
    then_append (sb_appendf m (quote ∷ []) sb)
      (λ sb1. then_append (append_escaped m s sb1) (sb_appendf m (quote ∷ [])))
