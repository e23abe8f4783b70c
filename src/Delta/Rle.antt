-- ===== src/Delta/Rle.antt =====
-- Run-length packing in deltaffi.c: 255, a count and a byte stand for a run. Each loop goes over
-- the bytes that are left. An output is the array, `none` for NULL, beside the count `written`.
pub mod Size
pub mod RoundTrip
use ryzen_build.Base.{
  ℕ, zero, suc, ◌+◌, ◌-◌, ◌*◌, ◌≤◌, ◌≡◌, refl, arith, u8, leb, ltb, ◌==◌, ◌&&◌, ◌||◌,
}
use ryzen_build.Base.{if◌then◌else◌, Bool-cases, inl, inr, Option, none, some}
use ryzen_build.Base.{List, [], ◌∷◌, length, set, take, drop, length-take, length-drop}

abbrev pub Output : Type 0
Output = ℕ × Option (List ℕ)

-- How far the run of `b` goes on, from `run` bytes on.
unfoldable pub run_length : ℕ → List ℕ → ℕ → ℕ
run_length b [] run = run
run_length b (x ∷ xs) run =
    let more = run_length b xs (run + 1) in if ltb run 255 && x == b then more else run

-- One byte, written only where it fits.
unfoldable pub put : ℕ → ℕ → Output → Output
put out_cap v (w, none) = (w + 1, none)
put out_cap v (w, some out) = (w + 1, some (if leb (w + 1) out_cap then set out w v else out))

unfoldable pub put_all : ℕ → List ℕ → Output → Output
put_all out_cap [] o = o
put_all out_cap (x ∷ xs) o = put_all out_cap xs (put out_cap x o)

-- The array after a packed run, which is written only where all of it fits.
abbrev pub packed_into : ℕ → ℕ → ℕ → ℕ → List ℕ → List ℕ
packed_into out_cap run b w out =
    if leb (w + 3) out_cap then set (set (set out w 255) (w + 1) (u8 run)) (w + 2) b else out

unfoldable pub put_packed : ℕ → ℕ → ℕ → Output → Output
put_packed out_cap run b (w, none) = (w + 3, none)
put_packed out_cap run b (w, some out) = (w + 3, some (packed_into out_cap run b w out))

-- What a round does with a run at the head of `bytes`.
unfoldable pub put_run : ℕ → ℕ → ℕ → List ℕ → Output → Output
put_run out_cap run b bytes o =
    if leb 4 run || b == 255 then put_packed out_cap run b o else put_all out_cap (take run bytes) o

-- The outer loop, with fuel: `none` where that runs out.
unfoldable pub pack_loop : ℕ → ℕ → List ℕ → Output → Option Output
pack_loop out_cap zero [] o = some o
pack_loop out_cap zero (b ∷ xs) o = none
pack_loop out_cap (suc fuel) [] o = some o
pack_loop out_cap (suc fuel) (b ∷ xs) o =
    let run = run_length b xs 1 in
    pack_loop out_cap fuel (drop run (b ∷ xs)) (put_run out_cap run b (b ∷ xs) o)

unfoldable pub dl_pack_rle : List ℕ → Option (List ℕ) → ℕ → Option Output
dl_pack_rle src out out_cap = pack_loop out_cap (length src) src (0, out)

-- `val`, `count` times.
unfoldable pub put_times : ℕ → ℕ → ℕ → Output → Output
put_times out_cap zero val o = o
put_times out_cap (suc count) val o = put_times out_cap count val (put out_cap val o)

-- The loop of `dl_unpack_rle`, with fuel. A stream that ends inside a packed run returns 0.
unfoldable pub unpack_loop : ℕ → ℕ → List ℕ → Output → Option Output
unpack_loop out_cap zero [] o = some o
unpack_loop out_cap zero (b ∷ xs) o = none
unpack_loop out_cap (suc fuel) [] o = some o
unpack_loop out_cap (suc fuel) (b ∷ xs) o =
    let literal = unpack_loop out_cap fuel xs (put out_cap b o) in
    let packed : Option Output = elim xs [
      | [] ↦ some (0, o.1)
      | (count ∷ ys) ↦ elim ys [
        | [] ↦ some (0, o.1)
        | (val ∷ zs) ↦ unpack_loop out_cap fuel zs (put_times out_cap count val o)
      ]
    ] in
    if b == 255 then packed else literal

unfoldable pub dl_unpack_rle : List ℕ → Option (List ℕ) → ℕ → Option Output
dl_unpack_rle src out out_cap = unpack_loop out_cap (length src) src (0, out)
