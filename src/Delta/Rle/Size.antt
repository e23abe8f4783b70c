-- ===== src/Delta/Rle/Size.antt =====
-- What the packing of deltaffi.c says of the size that it needs.
use ryzen_build.Base.{ℕ, zero, suc, ◌+◌, ◌*◌, ◌≤◌, ◌≡◌, refl, arith, leb, ◌==◌, ◌||◌}
use ryzen_build.Base.{if◌then◌else◌, Bool-cases, inl, inr, none, some}
use ryzen_build.Base.{List, [], ◌∷◌, length, set, take, drop, length-take, length-drop}
use ryzen_build.Delta.Rle.{
  Output, run_length, put, put_all, put_packed, packed_into, put_run, pack_loop, dl_pack_rle,
}

-- A call that leaves both outputs with the same count, one of them NULL.
abbrev Alike : ℕ → Output → Output → Type 0
Alike n o p = (out : List ℕ) × (o ≡ (n, some out)) × (p ≡ (n, none))

put_all_lem :
    (out_cap : ℕ) (xs : List ℕ) (w : ℕ) (out : List ℕ)
    → Alike (w + length xs) (put_all out_cap xs (w, some out)) (put_all 0 xs (w, none))
unfolding put_all put
put_all_lem out_cap [] w out = (out, ground arith, ground arith)
put_all_lem out_cap (x ∷ xs) w out =
    let (out', e, q) =
      put_all_lem out_cap xs (w + 1) (if leb (w + 1) out_cap then set out w x else out) in
    (out', ground (arith, e), ground (arith, q))

pub run_length_bounds :
    (b : ℕ) (xs : List ℕ) (run : ℕ)
    → (run ≤ run_length b xs run) × (run_length b xs run ≤ run + length xs)
unfolding run_length
run_length_bounds b [] run = omega arith
run_length_bounds b (x ∷ xs) run = ground (arith, run_length_bounds b xs (run + 1))

-- A round on a run of `run` bytes writes at least one byte and at most three for each.
put_run_lem :
    (out_cap run b : ℕ) (bytes : List ℕ) (w : ℕ) (out : List ℕ)
    → 1 ≤ run
    → run ≤ length bytes
    → (n : ℕ) × (n ≤ w + 3 * run)
      × Alike n (put_run out_cap run b bytes (w, some out)) (put_run 0 run b bytes (w, none))
unfolding put_run put_packed
put_run_lem out_cap run b bytes w out h k = elim (Bool-cases (leb 4 run || b == 255)) [
  | inl e ↦ (w + 3, omega arith, (packed_into out_cap run b w out, rw e refl, rw e refl))
  | inr e ↦
      let (out', p, q) = put_all_lem out_cap (take run bytes) w out in
      (w + length (take run bytes), omega (arith, length-take run bytes), (out', rw e p, rw e q))
]

pack_loop_lem :
    (out_cap fuel : ℕ) (rest : List ℕ) (w : ℕ) (out : List ℕ)
    → length rest ≤ fuel
    → (n : ℕ) × (out' : List ℕ) × (pack_loop out_cap fuel rest (w, some out) ≡ some (n, some out'))
      × (pack_loop 0 fuel rest (w, none) ≡ some (n, none))
      × (n ≤ w + 3 * length rest)
unfolding pack_loop
pack_loop_lem out_cap zero [] w out h = (w, out, refl, refl, omega arith)
pack_loop_lem out_cap zero (b ∷ xs) w out h = absurd (omega arith)
pack_loop_lem out_cap (suc fuel) [] w out h = (w, out, refl, refl, omega arith)
pack_loop_lem out_cap (suc fuel) (b ∷ xs) w out h =
    let run = run_length b xs 1 in
    let in_run = run_length_bounds b xs 1 in
    let left = length-drop run (b ∷ xs) in
    let (n, few, (out', e, q)) =
      put_run_lem out_cap run b (b ∷ xs) w out (in_run.0) (omega arith) in
    let (n', out'', e', q', few') =
      pack_loop_lem out_cap fuel (drop run (b ∷ xs)) n out' (omega arith) in
    (n', out'', rw e e', rw q q', omega arith)

-- Packing ends, whatever array it is given and however much of it may be used: it returns the size
-- that the call without an array returns, which is at most three bytes for each byte.
pub dl_pack_rle_size :
    (src out : List ℕ) (out_cap : ℕ)
    → (n : ℕ) × (out' : List ℕ) × (dl_pack_rle src (some out) out_cap ≡ some (n, some out'))
      × (dl_pack_rle src none 0 ≡ some (n, none))
      × (n ≤ 3 * length src)
unfolding dl_pack_rle
dl_pack_rle_size src out out_cap =
    let (n, out', e, q, few) = pack_loop_lem out_cap (length src) src 0 out (omega arith) in
    (n, out', e, q, omega (arith, few))
