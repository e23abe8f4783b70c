-- ===== src/Json.antt =====
-- JSON texts, described without any program: a reader of strings, and what a text begins with.
use ryzen_build.Base.{
  ℕ, suc, ◌+◌, ◌-◌, ◌*◌, ◌≡◌, ltb, leb, ◌==◌, ◌&&◌, ◌||◌, if◌then◌else◌, Bool, List, [], ◌∷◌, ◌++◌,
  Option, none, some, bytes, IsNumber,
}

-- A reader of JSON strings: in the text, behind a backslash, in the digits of a `\u`, with how many are
-- to come and their value so far, or behind the closing quote.
pub data Mode : Type 0 where
  plain slash closed : Mode
  digits : ℕ → ℕ → Mode

abbrev pub hex_value : ℕ → ℕ
hex_value c = if ltb c 58 then c - 48 else c - 87

abbrev pub is_hex : ℕ → Bool
is_hex c = (leb 48 c && leb c 57) || (leb 97 c && leb c 102)

-- The next mode and the bytes that a character stands for; `none` for text that is no JSON.
abbrev pub read_slash : ℕ → Option (Mode × List ℕ)
read_slash c =
    if (c == 34) || (c == 92) || (c == 47)
    then some (plain, c ∷ [])
    else if c == 98
    then some (plain, 8 ∷ [])
    else if c == 102
    then some (plain, 12 ∷ [])
    else if c == 110
    then some (plain, 10 ∷ [])
    else if c == 114
    then some (plain, 13 ∷ [])
    else if c == 116
    then some (plain, 9 ∷ [])
    else if c == 117
    then some (digits 4 0, [])
    else none

abbrev pub read_char : Mode → ℕ → Option (Mode × List ℕ)
read_char plain c =
    if c == 34
    then some (closed, [])
    else if c == 92
    then some (slash, [])
    else if ltb c 32
    then none
    else some (plain, c ∷ [])
read_char slash c = read_slash c
read_char closed c = none
read_char (digits k v) c =
    if is_hex c
    then (if k == 1
        then (if ltb (v * 16 + hex_value c) 256
            then some (plain, (v * 16 + hex_value c) ∷ [])
            else none)
        else some (digits (k - 1) (v * 16 + hex_value c), []))
    else none

abbrev pub put_front : List ℕ → Option (List ℕ) → Option (List ℕ)
put_front out none = none
put_front out (some t) = some (out ++ t)

abbrev pub read_on : Option (Mode × List ℕ) → (Mode → Option (List ℕ)) → Option (List ℕ)
read_on none f = none
read_on (some (m, out)) f = put_front out (f m)

unfoldable pub read_text : List ℕ → Mode → Option (List ℕ)
read_text [] plain = none
read_text [] slash = none
read_text [] closed = some []
read_text [] (digits k v) = none
read_text (c ∷ rest) m = read_on (read_char m c) (read_text rest)

-- A JSON string with its quotes.
abbrev pub read_json : List ℕ → Option (List ℕ)
read_json [] = none
read_json (c ∷ rest) = if c == 34 then read_text rest plain else none

mutual
  pub data Value : Type 0 where
    text : List ℕ → Value
    integer : ℕ → Value
    -- `negative n` is -(n + 1).
    negative : ℕ → Value
    truth_of : Bool → Value
    object : Fields → Value
    array : Items → Value

  pub data Fields : Type 0 where
    no_field : Fields
    field : List ℕ → Value → Fields → Fields

  pub data Items : Type 0 where
    no_item : Items
    item : Value → Items → Items

mutual
  -- `IsJson v t rest`: the text `t` is a JSON text of `v` with `rest` behind it.
  pub data IsJson : Value → List ℕ → List ℕ → Type 0 where
    is_text : (s a rest : List ℕ) → read_json a ≡ some s → IsJson (text s) (a ++ rest) rest
    is_integer : (n : ℕ) (ds rest : List ℕ) → IsNumber n ds → IsJson (integer n) (ds ++ rest) rest
    is_negative :
        (n : ℕ) (ds rest : List ℕ)
        → IsNumber (suc n) ds
        → IsJson (negative n) (45 ∷ (ds ++ rest)) rest
    is_truth :
        (b : Bool) (rest : List ℕ)
        → IsJson (truth_of b) ((if b then bytes "true" else bytes "false") ++ rest) rest
    is_empty : (rest : List ℕ) → IsJson (object no_field) (123 ∷ 125 ∷ rest) rest
    is_object :
        {fs : Fields} {t rest : List ℕ}
        → IsFields fs t (125 ∷ rest)
        → IsJson (object fs) (123 ∷ t) rest
    is_array :
        {xs : Items} {t rest : List ℕ} → IsItems xs t (93 ∷ rest) → IsJson (array xs) (91 ∷ t) rest

  -- The fields of an object, with commas between them.
  pub data IsFields : Fields → List ℕ → List ℕ → Type 0 where
    last_field :
        (name a : List ℕ) {v : Value} {t rest : List ℕ}
        → read_json a ≡ some name
        → IsJson v t rest
        → IsFields (field name v no_field) (a ++ 58 ∷ t) rest
    next_field :
        (name a : List ℕ) {v : Value} {fs : Fields} {t u rest : List ℕ}
        → read_json a ≡ some name
        → IsJson v t (44 ∷ u)
        → IsFields fs u rest
        → IsFields (field name v fs) (a ++ 58 ∷ t) rest

  -- The items of an array, with commas between them.
  pub data IsItems : Items → List ℕ → List ℕ → Type 0 where
    last_item : {v : Value} {t rest : List ℕ} → IsJson v t rest → IsItems (item v no_item) t rest
    next_item :
        {v : Value} {xs : Items} {t u rest : List ℕ}
        → IsJson v t (44 ∷ u)
        → IsItems xs u rest
        → IsItems (item v xs) t rest
