-- ===== src/Adalter/Fixed/Fib.antt =====
-- The ladder of `sa_fill_fib` in simplex_adalter_kmod.c against the Fibonacci numbers.
use ryzen_build.Base.{ℕ, zero, suc, ◌+◌, ◌-◌, ◌≤◌, ◌<◌, ◌≡◌, refl, arith, u32, u64}
use ryzen_build.Base.{List, length, get_or, set, length-set, get_or-set}
use ryzen_build.Adalter.Fixed.{sa_fib_loop, sa_fill_fib}

-- The Fibonacci numbers as the ladder counts them: 1, 1, 2, 3, 5.
unfoldable pub fib : ℕ → ℕ
fib zero = 1
fib (suc zero) = 1
fib (suc (suc n)) = fib (suc n) + fib n

fib_step : (i : ℕ) → 2 ≤ i → fib i ≡ fib (i - 1) + fib (i - 2)
unfolding fib
fib_step zero h = elim h [ ]
fib_step (suc zero) h = absurd (omega arith)
fib_step (suc (suc n)) h = ground arith

fib-suc_le : (n : ℕ) → fib n ≤ fib (suc n)
unfolding fib
fib-suc_le zero = omega arith
fib-suc_le (suc n) = omega arith

fib-le_add : (k n : ℕ) → fib n ≤ fib (k + n)
fib-le_add zero n = ground arith
fib-le_add (suc k) n = ground (arith, fib-le_add k n, fib-suc_le (k + n))

fib_21 : fib 21 ≡ 17711
unfolding fib
fib_21 = refl

fib_22 : fib 22 ≡ 28657
unfolding fib
fib_22 = refl

fib-le : (n : ℕ) → n ≤ 22 → fib n ≤ 28657
fib-le n h =
    let e : 22 - n + n ≡ 22 = omega arith in
    let step : fib n ≤ fib (22 - n + n) = fib-le_add (22 - n) n in
    let step' : fib n ≤ fib 22 = rw e at step in omega (arith, step', fib_22)

-- The ladder up to `i`, with its total.
record Filled (out : List ℕ) (total i : ℕ) : Type 0 where
  rungs : (j : ℕ) → j < i → get_or out j 0 ≡ fib j
  sum : total + 1 ≡ fib (i + 1)

-- The number that a round writes.
abbrev rung : List ℕ → ℕ → ℕ
rung out i = u32 (get_or out (i - 1) 0 + get_or out (i - 2) 0)

round-Filled :
    (out : List ℕ) (total i : ℕ)
    → 2 ≤ i
    → i < 22
    → i < length out
    → Filled out total i
    → Filled (set out i (rung out i)) (u64 (total + rung out i)) (i + 1)
round-Filled out total i h k l inv =
    let a : get_or out (i - 1) 0 ≡ fib (i - 1) = inv.rungs (i - 1) (omega arith) in
    let b : get_or out (i - 2) 0 ≡ fib (i - 2) = inv.rungs (i - 2) (omega arith) in
    let e : rung out i ≡ fib i = omega (arith, fib_step i h, fib-le i, a, b) in
    record {
      rungs = λ j p. ground (arith, get_or-set out i j (rung out i) 0, inv.rungs j, e);
      sum = ground (arith, inv.sum, e, fib-le i, fib-le (i + 1), fib_step (i + 2));
    }

fib_loop_lem :
    (left i : ℕ) (out : List ℕ) (total : ℕ)
    → 2 ≤ i
    → left + i ≤ 22
    → left + i ≤ length out
    → Filled out total i
    → Filled (sa_fib_loop left i out total).0 (sa_fib_loop left i out total).1 (left + i)
unfolding sa_fib_loop
fib_loop_lem zero i out total h k l inv = ground (arith, inv)
fib_loop_lem (suc left) i out total h k l inv =
    let out' = set out i (rung out i) in
    let total' = u64 (total + rung out i) in
    let next =
      fib_loop_lem left (i + 1) out' total' (omega arith) (omega arith)
        (omega (arith, length-set out i (rung out i)))
        (round-Filled out total i h (omega arith) (omega arith) inv) in
    let e : left + (i + 1) ≡ suc left + i = omega arith in rw e at next

filled :
    (count : ℕ) (out : List ℕ)
    → count ≤ 22
    → count ≤ length out
    → Filled (sa_fill_fib count out).0 (sa_fill_fib count out).1 count
unfolding sa_fill_fib fib
filled zero out h k = record { rungs = λ j p. elim p [ ]; sum = refl }
filled (suc zero) out h k = record {
  rungs = λ j p. ground (arith, get_or-set out 0 j 1 0);
  sum = refl;
}
filled (suc (suc n)) out h k =
    let d1 = set out 0 1 in
    let d2 = set d1 1 1 in
    let inv : Filled d2 2 2 = record {
      rungs =
          λ j p. ground (arith, get_or-set out 0 j 1 0, get_or-set d1 1 j 1 0, length-set out 0 1);
      sum = refl;
    } in
    let all =
      fib_loop_lem n 2 d2 2 (omega arith) (omega arith)
        (omega (arith, length-set d1 1 1, length-set out 0 1)) inv in
    record { rungs = λ j p. ground (arith, all.rungs j); sum = ground (arith, all.sum) }

-- For a count of at most 22 that the array has room for, the array's entries below `count` are the
-- Fibonacci numbers 1, 1, 2, 3 and so on, and the total is one less than the number at
-- `count + 1`, which is the sum of those below `count`.
pub sa_fill_fib_lem :
    (count : ℕ) (out : List ℕ) (j : ℕ)
    → count ≤ 22
    → count ≤ length out
    → j < count
    → (get_or (sa_fill_fib count out).0 j 0 ≡ fib j)
      × ((sa_fill_fib count out).1 + 1 ≡ fib (count + 1))
sa_fill_fib_lem count out j h k p = let all = filled count out h k in (all.rungs j p, all.sum)
