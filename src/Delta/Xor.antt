-- ===== src/Delta/Xor.antt =====
-- Exclusive or, bit by bit, and the XOR deltas of deltaffi.c.
use Prim.Native.Nat.{differ, bit_xor-bitwise}
use ryzen_build.Base.{
  ℕ, zero, suc, ◌+◌, ◌-◌, ◌*◌, ◌/◌, ◌%◌, ◌≤◌, ◌<◌, ◌≡◌, refl, arith, bit_xor, u8,
}
use ryzen_build.Base.{
  ◌++◌, ap, sym, ◌∙◌, replicate, get_or-append, get_or-replicate, get_or-past, get_or_ext,
  length-append, length-replicate,
}
use ryzen_build.Base.{
  Option, some, List, length, get_or, set, length-set, get_or-set, leb, ltb, ◌&&◌, if◌then◌else◌,
}
use ryzen_build.Base.Bits.{test_bit, test_bit-digits, test_bit-le-one}
use ryzen_build.Delta.{byte_or_zero, xor_loop, dl_xor_delta}

differ-le-one : (x y : ℕ) → x ≤ 1 → y ≤ 1 → differ x y ≤ 1
differ-le-one zero y h k = k
differ-le-one (suc x) zero h k = h
differ-le-one (suc zero) (suc zero) h k = omega arith
differ-le-one (suc zero) (suc (suc y)) h k = absurd (omega arith)
differ-le-one (suc (suc x)) (suc y) h k = absurd (omega arith)

differ_twice : (x y : ℕ) → x ≤ 1 → y ≤ 1 → differ (differ x y) y ≡ x
differ_twice zero zero h k = refl
differ_twice zero (suc zero) h k = refl
differ_twice zero (suc (suc y)) h k = absurd (omega arith)
differ_twice (suc zero) zero h k = refl
differ_twice (suc zero) (suc zero) h k = refl
differ_twice (suc zero) (suc (suc y)) h k = absurd (omega arith)
differ_twice (suc (suc x)) y h k = absurd (omega arith)

test_bit-bit_xor : (a b j : ℕ) → test_bit (bit_xor a b) j ≡ differ (test_bit a j) (test_bit b j)
test_bit-bit_xor a b j =
    simp bit_xor-bitwise
      (test_bit-digits (λ y. y) differ differ-le-one (λ y i. refl) j a a b (omega arith))

-- The lowest `w` bits of a number.
low : ℕ → ℕ → ℕ
low zero m = 0
low (suc w) m = low w (m / 2) * 2 + m % 2

low_8 : (m : ℕ) → low 8 m ≡ u8 m
unfolding low
low_8 m = omega arith

test_bit-low : (w m j : ℕ) → j < w → test_bit (low w m) j ≡ test_bit m j
unfolding low test_bit
test_bit-low zero m j h = elim h [ ]
test_bit-low (suc w) m zero h = omega arith
test_bit-low (suc w) m (suc j) h =
    let half : (low w (m / 2) * 2 + m % 2) / 2 ≡ low w (m / 2) = omega arith in
    rw half (test_bit-low w (m / 2) j (omega arith))

low_ext : (w m n : ℕ) → ((j : ℕ) → j < w → test_bit m j ≡ test_bit n j) → low w m ≡ low w n
unfolding low test_bit
low_ext zero m n h = refl
low_ext (suc w) m n h =
    let rest = low_ext w (m / 2) (n / 2) (λ j p. h (suc j) (omega arith)) in
    omega (arith, rest, h 0 (omega arith))

-- Exclusive or with the same byte twice gives a byte back.
xor_twice : (x y : ℕ) → x < 256 → u8 (bit_xor (u8 (bit_xor x y)) y) ≡ x
xor_twice x y h =
    let same = low_ext 8 (bit_xor (low 8 (bit_xor x y)) y) x (λ j p.
      rw (test_bit-bit_xor (low 8 (bit_xor x y)) y j) (
        rw (test_bit-low 8 (bit_xor x y) j p) (
          rw (test_bit-bit_xor x y j) (
            differ_twice (test_bit x j) (test_bit y j) (test_bit-le-one x j)
              (test_bit-le-one y j))))) in
    omega (arith, rw (low_8 (bit_xor x y)) at same, low_8 x, low_8 (bit_xor (u8 (bit_xor x y)) y))

module _ (a : Option (List ℕ)) (a_len : ℕ) (b : Option (List ℕ)) (b_len : ℕ) where
  -- The byte that a round writes.
  abbrev delta_byte : ℕ → ℕ
  delta_byte i = u8 (bit_xor (byte_or_zero a a_len i) (byte_or_zero b b_len i))

  xor_loop_lem :
      (left i j : ℕ) (out : List ℕ)
      → i + left ≤ length out
      → (get_or (xor_loop a a_len b b_len left i out) j 0
          ≡ (if leb i j && ltb j (i + left) then delta_byte j else get_or out j 0))
        × (length (xor_loop a a_len b b_len left i out) ≡ length out)
  unfolding xor_loop
  xor_loop_lem zero i j out h = (ground arith, refl)
  xor_loop_lem (suc left) i j out h =
      let rest =
        xor_loop_lem left (i + 1) j (set out i (delta_byte i))
          (omega (arith, length-set out i (delta_byte i))) in
      (
        ground (arith, rest, get_or-set out i j (delta_byte i) 0),
        omega (arith, rest, length-set out i (delta_byte i)),
      )

-- The size of a delta.
abbrev pub longer : List ℕ → List ℕ → ℕ
longer a b = if ltb (length b) (length a) then length a else length b

-- `a` filled up with zeros to the size of its delta with `b`.
abbrev pub padded : List ℕ → List ℕ → List ℕ
padded a b = a ++ replicate (longer a b - length a) 0

get_or-padded : (a b : List ℕ) (j : ℕ) → get_or (padded a b) j 0 ≡ get_or a j 0
get_or-padded a b j = ground (
  arith,
  get_or-append a (replicate (longer a b - length a) 0) j 0,
  get_or-replicate {A = ℕ} (longer a b - length a) (j - length a) 0,
  get_or-past a j 0,
)

length-padded : (a b : List ℕ) → length (padded a b) ≡ longer a b
length-padded a b = ground (
  arith,
  length-append a (replicate (longer a b - length a) 0),
  length-replicate {A = ℕ} (longer a b - length a) 0,
)

byte_lem : (p : List ℕ) (i : ℕ) → byte_or_zero (some p) (length p) i ≡ get_or p i 0
unfolding byte_or_zero
byte_lem p i = ground (arith, get_or-past p i 0)

-- For a list of bytes `a`, the delta with `b` applied to `b` again, both into outputs of the longer
-- one's size, gives `a` back, filled up with zeros to that size.
pub dl_xor_delta_twice :
    (a b mid out : List ℕ)
    → ((i : ℕ) → get_or a i 0 < 256)
    → length mid ≡ longer a b
    → length out ≡ longer a b
    → dl_xor_delta
        (dl_xor_delta (some a) (length a) (some b) (length b) (some mid))
        (longer a b)
        (some b)
        (length b)
        (some out)
      ≡ some (padded a b)
unfolding dl_xor_delta
dl_xor_delta_twice a b mid out bytes hm ho = ap some (
    rw size (
      get_or_ext 0 again (padded a b) (again_size ∙ sym (length-padded a b))
        (λ j h. at j (omega (arith, again_size)))))
  where
    n : ℕ
    n = longer a b

    delta : List ℕ
    delta = xor_loop (some a) (length a) (some b) (length b) n 0 mid

    again : List ℕ
    again = xor_loop (some delta) n (some b) (length b) n 0 out

    size : (if ltb (length b) n then n else length b) ≡ n
    size = ground arith

    delta_size : length delta ≡ n
    delta_size =
        (xor_loop_lem (some a) (length a) (some b) (length b) n 0 0 mid (omega arith)).1 ∙ hm

    again_size : length again ≡ n
    again_size = (xor_loop_lem (some delta) n (some b) (length b) n 0 0 out (omega arith)).1 ∙ ho

    at : (j : ℕ) → j < n → get_or again j 0 ≡ get_or (padded a b) j 0
    at j h = ground (
      arith,
      xor_loop_lem (some delta) n (some b) (length b) n 0 j out,
      xor_loop_lem (some a) (length a) (some b) (length b) n 0 j mid,
      byte_lem a j,
      byte_lem b j,
      byte_lem delta j,
      delta_size,
      xor_twice (get_or a j 0) (get_or b j 0) (bytes j),
      get_or-padded a b j,
    )
