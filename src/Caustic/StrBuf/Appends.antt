-- ===== src/Caustic/StrBuf/Appends.antt =====
-- The text in the buffer of caustic.c, through `sb_appendf`.
use ryzen_build.Base.{
  ℕ, ◌+◌, ◌-◌, ◌*◌, ◌^◌, ◌<◌, ◌≡◌, refl, ap, ◌∙◌, arith, ltb, u64, length, get_or,
}
use ryzen_build.Base.{
  Bool, true, false, Bool-cases, inl, inr, List, ◌++◌, get_or-append, length-append,
}
use ryzen_build.Caustic.StrBuf.{
  StrBuf, Memory, Append, appended, died, endless, vsnprintf, realloc, append_loop, sb_appendf,
  then_append,
}

-- No allocation comes near to what a `size_t` counts.
pub record IsMemory (m : Memory) : Type 0 where
  pub bounded : (n : ℕ) → m.gives n ≡ true → n < 2 ^ 62

-- The text in the buffer, with its terminator inside the array.
pub record Holds (sb : StrBuf) (t : List ℕ) : Type 0 where
  pub size_of : length t ≡ sb.len
  pub room : sb.len < sb.size
  pub bounded : sb.size < 2 ^ 62
  pub same : (i : ℕ) → i < sb.len → sb.chars i ≡ get_or t i 0
  pub closed : sb.chars sb.len ≡ 0

-- What an append of `text` to `t` may come to.
abbrev pub IsAppended : List ℕ → Append → Type 0
IsAppended t (appended sb) = Holds sb t
IsAppended t died = Unit
IsAppended t endless = Unit

abbrev pub ends : Append → Bool
ends (appended sb) = true
ends died = true
ends endless = false

-- A text that fits, on an array that agrees with the buffer's below its length.
fits_lem :
    (sb : StrBuf) (t text : List ℕ) (chars : ℕ → ℕ) (size : ℕ)
    → Holds sb t
    → ((i : ℕ) → i < sb.len → chars i ≡ sb.chars i)
    → length text < size - sb.len
    → size < 2 ^ 62
    → Holds
        (record {
          chars = vsnprintf chars sb.len (size - sb.len) text;
          len = sb.len + length text;
          size = size;
        })
        (t ++ text)
unfolding vsnprintf
fits_lem sb t text chars size h same fit big = record {
  size_of = length-append t text ∙ ap (λ k. k + length text) h.size_of;
  room = omega (arith, fit);
  bounded = big;
  same = λ i p. ground (arith, get_or-append t text i 0, h.size_of, h.same i, same i, fit);
  closed = ground (arith, fit);
}

-- The larger array keeps what lies below the length.
grown_lem :
    (m : Memory) (sb : StrBuf) (text : List ℕ)
    → sb.len < sb.size
    → (i : ℕ) → i < sb.len
    → realloc m sb.size (vsnprintf sb.chars sb.len (sb.size - sb.len) text) i ≡ sb.chars i
unfolding realloc vsnprintf
grown_lem m sb text h i p = ground (arith, h, p)

-- If no allocation reaches 2^62 bytes and the text is shorter than an `int` counts, an append to a
-- buffer that holds a string ends within its two rounds: it leaves the string with the text behind it,
-- closed inside the array, or `realloc` has failed and the program has died.
pub sb_appendf_lem :
    (m : Memory) (text t : List ℕ) (sb : StrBuf)
    → IsMemory m
    → length text < 2 ^ 31
    → Holds sb t
    → (ends (sb_appendf m text sb) ≡ true) × IsAppended (t ++ text) (sb_appendf m text sb)
unfolding sb_appendf append_loop
sb_appendf_lem m text t sb mem short h =
    let n = length text in
    let size = u64 (u64 (sb.size * 2) + n + 64) in
    let big : size ≡ sb.size * 2 + n + 64 = omega (arith, h.bounded, short) in
    elim (Bool-cases (ltb n (sb.size - sb.len))) [
      | inl e ↦
          rw e (
            refl,
            fits_lem sb t text sb.chars sb.size h (λ i p. refl) (ground (arith, e)) h.bounded,
          )
      | inr e ↦ elim (Bool-cases (m.gives size)) [
        | inr k ↦ rw e (rw k (refl, tt))
        | inl k ↦
            let now : ltb n (size - sb.len) ≡ true = ground (arith, big, h.room) in
            rw e (
              rw k (
                rw now (
                  refl,
                  fits_lem sb t text _ size h (grown_lem m sb text h.room) (ground (arith, now))
                      (mem.bounded size k),
                )))
      ]
    ]

-- A second append after a first.
pub then_append_lem :
    (t : List ℕ) (u : List ℕ) (a : Append) (f : StrBuf → Append)
    → (ends a ≡ true) × IsAppended t a
    → ((sb : StrBuf) → Holds sb t → (ends (f sb) ≡ true) × IsAppended u (f sb))
    → (ends (then_append a f) ≡ true) × IsAppended u (then_append a f)
then_append_lem t u (appended sb) f (e, h) k = k sb h
then_append_lem t u died f e k = (refl, tt)
then_append_lem t u endless f (e, h) k = absurd (ground (arith, e))
