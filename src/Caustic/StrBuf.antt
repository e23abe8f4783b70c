-- ===== src/Caustic/StrBuf.antt =====
-- The growing buffer of caustic.c: `sb_init` and `sb_appendf`.
pub mod Appends
use ryzen_build.Base.{
  ℕ, zero, suc, ◌+◌, ◌-◌, ◌*◌, ltb, leb, ◌&&◌, ◌==◌, if◌then◌else◌, u64, length, get_or,
}
use ryzen_build.Base.{Bool, true, false, List, [], ◌∷◌, Option, none, some}

-- The array is a function from its indices; `cap` is how many it has, `len` how many are text.
pub record StrBuf : Type 0 where
  pub chars : ℕ → ℕ
  pub len : ℕ
  pub size : ℕ

-- The allocator: whether it gives so many bytes, and what stands in bytes that it gives.
pub record Memory : Type 0 where
  pub gives : ℕ → Bool
  pub junk : ℕ → ℕ

-- What an append comes to: `die` ends the program, and `endless` is a loop that has not come to its
-- end after the rounds that it was given.
pub data Append : Type 0 where
  appended : StrBuf → Append
  died : Append
  endless : Append

unfoldable pub sb_init : Memory → ℕ → Append
sb_init m size =
    if m.gives size
    then appended (record { chars = (λ i. if i == 0 then 0 else m.junk i); len = 0; size = size })
    else died

-- The array after `vsnprintf` of `text` to the index `len` with room for `room` bytes.
unfoldable pub vsnprintf : (ℕ → ℕ) → ℕ → ℕ → List ℕ → ℕ → ℕ
vsnprintf chars len room text i =
    if room == 0
    then chars i
    else if leb len i && ltb (i - len) (length text)
    then (if ltb (i - len) (room - 1)
        then get_or text (i - len) 0
        else if (i - len) == (room - 1)
        then 0
        else chars i)
    else if (i == len + length text) && ltb (length text) room
    then 0
    else chars i

unfoldable pub realloc : Memory → ℕ → (ℕ → ℕ) → ℕ → ℕ
realloc m size chars i = if ltb i size then chars i else m.junk i

-- The loop of `sb_appendf`, for a text that the format gives, on the number of its rounds.
unfoldable pub append_loop : ℕ → Memory → List ℕ → StrBuf → Append
append_loop zero m text sb = endless
append_loop (suc k) m text sb =
    let chars = vsnprintf sb.chars sb.len (sb.size - sb.len) text in
    let n = length text in
    let new_size = u64 (u64 (sb.size * 2) + n + 64) in
    let rest =
      append_loop k m text
        (record { chars = realloc m sb.size chars; len = sb.len; size = new_size }) in
    if ltb n (sb.size - sb.len)
    then appended (record { chars = chars; len = sb.len + n; size = sb.size })
    else if m.gives new_size
    then rest
    else died

-- Two rounds are enough.
unfoldable pub sb_appendf : Memory → List ℕ → StrBuf → Append
sb_appendf m text sb = append_loop 2 m text sb

abbrev pub then_append : Append → (StrBuf → Append) → Append
then_append (appended sb) f = f sb
then_append died f = died
then_append endless f = endless
