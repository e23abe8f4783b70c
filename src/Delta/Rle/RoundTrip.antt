-- ===== src/Delta/Rle/RoundTrip.antt =====
-- Unpacking what was packed: both loops of deltaffi.c against the packed bytes as a list.
use ryzen_build.Base.{
  ℕ, zero, suc, ◌+◌, ◌-◌, ◌≤◌, ◌≡◌, refl, sym, ap, ◌∙◌, arith, u8, leb, ltb, ◌==◌, ◌&&◌, ◌||◌,
}
use ryzen_build.Base.{
  if◌then◌else◌, Bool-cases, inl, inr, none, some, true, false, append_assoc, append-nil,
}
use ryzen_build.Base.{
  List, [], ◌∷◌, ◌++◌, length, set, take, drop, replicate, length-append, length-drop,
  length-replicate, take-append-drop,
}
use ryzen_build.Delta.Rle.{
  Output, run_length, put, put_all, put_packed, packed_into, put_run, pack_loop, dl_pack_rle,
  put_times, unpack_loop, dl_unpack_rle,
}
use ryzen_build.Delta.Rle.Size.{run_length_bounds}

-- The array begins with `t`, and has `out_cap` bytes or more.
abbrev Holds : ℕ → List ℕ → Output → Type 0
Holds out_cap t o =
    (spare : List ℕ) × (o ≡ (length t, some (t ++ spare))) × (out_cap ≤ length t + length spare)

set-append :
    (t : List ℕ) (y : ℕ) (s : List ℕ) (v : ℕ) → set (t ++ y ∷ s) (length t) v ≡ (t ++ v ∷ []) ++ s
set-append [] y s v = refl
set-append (x ∷ t) y s v = ap (λ (l : List ℕ). x ∷ l) (set-append t y s v)

take-append : (t s : List ℕ) → take (length t) (t ++ s) ≡ t
take-append [] s = refl
take-append (x ∷ t) s = ap (λ (l : List ℕ). x ∷ l) (take-append t s)

put-Holds :
    (out_cap v : ℕ) (t : List ℕ) (o : Output)
    → length t + 1 ≤ out_cap
    → Holds out_cap t o
    → Holds out_cap (t ++ v ∷ []) (put out_cap v o)
unfolding put
put-Holds out_cap v t o h ([], e, k) = absurd (omega (arith, h, k))
put-Holds out_cap v t o h (y ∷ s, e, k) =
    let fits : leb (length t + 1) out_cap ≡ true = ground (arith, h) in
    let more = length-append t (v ∷ []) in
    (s, rw e (rw fits (rw (set-append t y s v) (rw more refl))), omega (arith, k, more))

put_all-Holds :
    (out_cap : ℕ) (xs t : List ℕ) (o : Output)
    → length t + length xs ≤ out_cap
    → Holds out_cap t o
    → Holds out_cap (t ++ xs) (put_all out_cap xs o)
unfolding put_all
put_all-Holds out_cap [] t o h k = rw (append-nil t) k
put_all-Holds out_cap (x ∷ xs) t o h k = rw⁻¹ (append_assoc t (x ∷ []) xs) (
    put_all-Holds out_cap xs (t ++ x ∷ []) (put out_cap x o)
      (omega (arith, h, length-append t (x ∷ []))) (put-Holds out_cap x t o (omega (arith, h)) k))

put_packed-Holds :
    (out_cap run b : ℕ) (t : List ℕ) (o : Output)
    → length t + 3 ≤ out_cap
    → Holds out_cap t o
    → Holds out_cap (t ++ 255 ∷ u8 run ∷ b ∷ []) (put_packed out_cap run b o)
unfolding put_packed
put_packed-Holds out_cap run b t o h ([], e, k) = absurd (omega (arith, h, k))
put_packed-Holds out_cap run b t o h (x ∷ [], e, k) = absurd (omega (arith, h, k))
put_packed-Holds out_cap run b t o h (x ∷ y ∷ [], e, k) = absurd (omega (arith, h, k))
put_packed-Holds out_cap run b t o h (x ∷ y ∷ z ∷ s, e, k) =
    let fits : leb (length t + 3) out_cap ≡ true = ground (arith, h) in
    let t1 = t ++ 255 ∷ [] in
    let t2 = t1 ++ u8 run ∷ [] in
    let n1 = length-append t (255 ∷ []) in
    let n2 = length-append t1 (u8 run ∷ []) in
    let at1 : length t + 1 ≡ length t1 = omega (arith, n1) in
    let at2 : length t + 2 ≡ length t2 = omega (arith, n1, n2) in
    let whole : t2 ++ b ∷ [] ≡ t ++ 255 ∷ u8 run ∷ b ∷ [] =
      append_assoc t1 (u8 run ∷ []) (b ∷ []) ∙ append_assoc t (255 ∷ []) (u8 run ∷ b ∷ []) in
    let n3 = length-append t (255 ∷ u8 run ∷ b ∷ []) in
    let written : packed_into out_cap run b (length t) (t ++ x ∷ y ∷ z ∷ s)
        ≡ (t ++ 255 ∷ u8 run ∷ b ∷ []) ++ s =
      rw fits (
        rw (set-append t x (y ∷ z ∷ s) 255) (
          rw at1 (
            rw (set-append t1 y (z ∷ s) (u8 run))
              (rw at2 (set-append t2 z s b ∙ ap (λ (l : List ℕ). l ++ s) whole))))) in
    (s, rw e (rw written (rw n3 refl)), omega (arith, k, n3))

-- The bytes for a run of `b` at the head of `bytes`, and for all of `bytes`.
abbrev piece : ℕ → ℕ → List ℕ → List ℕ
piece run b bytes = if leb 4 run || b == 255 then 255 ∷ u8 run ∷ b ∷ [] else take run bytes

packed : ℕ → List ℕ → List ℕ
packed zero bytes = []
packed (suc fuel) [] = []
packed (suc fuel) (b ∷ xs) =
    let run = run_length b xs 1 in piece run b (b ∷ xs) ++ packed fuel (drop run (b ∷ xs))

put_run-Holds :
    (out_cap run b : ℕ) (bytes t : List ℕ) (o : Output)
    → length t + length (piece run b bytes) ≤ out_cap
    → Holds out_cap t o
    → Holds out_cap (t ++ piece run b bytes) (put_run out_cap run b bytes o)
unfolding put_run
put_run-Holds out_cap run b bytes t o h k = elim (Bool-cases (leb 4 run || b == 255)) [
  | inl e ↦ rw e (put_packed-Holds out_cap run b t o (rw e at h) k)
  | inr e ↦ rw e (put_all-Holds out_cap (take run bytes) t o (rw e at h) k)
]

pack_loop-Holds :
    (out_cap fuel : ℕ) (rest t : List ℕ) (o : Output)
    → length rest ≤ fuel
    → length t + length (packed fuel rest) ≤ out_cap
    → Holds out_cap t o
    → (o' : Output) × (pack_loop out_cap fuel rest o ≡ some o')
      × Holds out_cap (t ++ packed fuel rest) o'
unfolding pack_loop packed
pack_loop-Holds out_cap zero [] t o f h k = (o, refl, rw (append-nil t) k)
pack_loop-Holds out_cap zero (b ∷ xs) t o f h k = absurd (omega (arith, f))
pack_loop-Holds out_cap (suc fuel) [] t o f h k = (o, refl, rw (append-nil t) k)
pack_loop-Holds out_cap (suc fuel) (b ∷ xs) t o f h k =
    let run = run_length b xs 1 in
    let rest = drop run (b ∷ xs) in
    let p = piece run b (b ∷ xs) in
    let n1 = length-append p (packed fuel rest) in
    let n2 = length-append t p in
    let left = length-drop run (b ∷ xs) in
    let in_run = run_length_bounds b xs 1 in
    let (o', e, w) =
      pack_loop-Holds out_cap fuel rest (t ++ p) (put_run out_cap run b (b ∷ xs) o)
        (omega (arith, f, left, in_run.0)) (omega (arith, h, n1, n2))
        (put_run-Holds out_cap run b (b ∷ xs) t o (omega (arith, h, n1)) k) in
    (o', e, rw (append_assoc t p (packed fuel rest)) at w)

-- The size that a call without an array returns.
put_all-none : (xs : List ℕ) (w : ℕ) → put_all 0 xs (w, none) ≡ (w + length xs, none)
unfolding put_all put
put_all-none [] w = ground arith
put_all-none (x ∷ xs) w = put_all-none xs (w + 1) ∙ ground arith

put_run-none :
    (run b w : ℕ) (bytes : List ℕ)
    → put_run 0 run b bytes (w, none) ≡ (w + length (piece run b bytes), none)
unfolding put_run put_packed
put_run-none run b w bytes = elim (Bool-cases (leb 4 run || b == 255)) [
  | inl e ↦ rw e refl
  | inr e ↦ rw e (put_all-none (take run bytes) w)
]

pack_loop-none :
    (fuel : ℕ) (rest : List ℕ) (w : ℕ)
    → length rest ≤ fuel
    → pack_loop 0 fuel rest (w, none) ≡ some (w + length (packed fuel rest), none)
unfolding pack_loop packed
pack_loop-none zero [] w f = ground arith
pack_loop-none zero (b ∷ xs) w f = absurd (omega (arith, f))
pack_loop-none (suc fuel) [] w f = ground arith
pack_loop-none (suc fuel) (b ∷ xs) w f =
    let run = run_length b xs 1 in
    let rest = drop run (b ∷ xs) in
    let p = piece run b (b ∷ xs) in
    let left = length-drop run (b ∷ xs) in
    let in_run = run_length_bounds b xs 1 in
    let sum : (w + length p) + length (packed fuel rest) ≡ w + length (p ++ packed fuel rest) =
      omega (arith, length-append p (packed fuel rest)) in
    ap (pack_loop 0 fuel rest) (put_run-none run b w (b ∷ xs))
    ∙ (pack_loop-none fuel rest (w + length p) (omega (arith, f, left, in_run.0))
        ∙ ap (λ (n : ℕ). some (n, none)) sum)

-- A run is that many times its byte, at most 255.
run_lem :
    (b : ℕ) (xs : List ℕ) (run : ℕ)
    → run ≤ 255
    → (take (run_length b xs run - run) xs ≡ replicate (run_length b xs run - run) b)
      × (run_length b xs run ≤ 255)
unfolding run_length
run_lem b [] run h = let z : run - run ≡ 0 = omega arith in (rw z refl, h)
run_lem b (x ∷ xs) run h = elim (Bool-cases (ltb run 255 && x == b)) [
  | inl e ↦
      let (rest, few) = run_lem b xs (run + 1) (ground (arith, e)) in
      let same : x ≡ b = ground (arith, e) in
      let more : run_length b xs (run + 1) - run ≡ suc (run_length b xs (run + 1) - (run + 1)) =
        omega (arith, (run_length_bounds b xs (run + 1)).0) in
      rw e (rw more (rw same (ap (λ (l : List ℕ). b ∷ l) rest)), few)
  | inr e ↦ let z : run - run ≡ 0 = omega arith in rw e (rw z refl, h)
]

-- The first run of some bytes.
first_run :
    (b : ℕ) (xs : List ℕ)
    → let run = run_length b xs 1 in (take run (b ∷ xs) ≡ replicate run b) × (run ≤ 255)
first_run b xs =
    let (rest, few) = run_lem b xs 1 (omega arith) in
    let run : run_length b xs 1 ≡ suc (run_length b xs 1 - 1) =
      omega (arith, (run_length_bounds b xs 1).0) in
    (rw run (ap (λ (l : List ℕ). b ∷ l) rest), few)

put_times-Holds :
    (out_cap n v : ℕ) (t : List ℕ) (o : Output)
    → length t + n ≤ out_cap
    → Holds out_cap t o
    → Holds out_cap (t ++ replicate n v) (put_times out_cap n v o)
unfolding put_times
put_times-Holds out_cap zero v t o h k = rw (append-nil t) k
put_times-Holds out_cap (suc n) v t o h k = rw⁻¹ (append_assoc t (v ∷ []) (replicate n v)) (
    put_times-Holds out_cap n v (t ++ v ∷ []) (put out_cap v o)
      (omega (arith, h, length-append t (v ∷ []))) (put-Holds out_cap v t o (omega (arith, h)) k))

-- A stream that makes `final` of an array that begins with `t`, with enough fuel.
abbrev Unpacks : ℕ → List ℕ → List ℕ → List ℕ → Type 0
Unpacks out_cap stream t final =
    (fuel : ℕ) (o : Output)
    → length stream ≤ fuel
    → Holds out_cap t o
    → (o' : Output) × (unpack_loop out_cap fuel stream o ≡ some o') × Holds out_cap final o'

literal-Unpacks :
    (out_cap n b : ℕ) (rest t final : List ℕ)
    → (b == 255) ≡ false
    → length t + n ≤ out_cap
    → Unpacks out_cap rest (t ++ replicate n b) final
    → Unpacks out_cap (replicate n b ++ rest) t final
unfolding unpack_loop
literal-Unpacks out_cap zero b rest t final ne h u fuel o f k = u fuel o f (rw (append-nil t) k)
literal-Unpacks out_cap (suc n) b rest t final ne h u zero o f k = absurd (omega (arith, f))
literal-Unpacks out_cap (suc n) b rest t final ne h u (suc fuel) o f k =
    let more =
      literal-Unpacks out_cap n b rest (t ++ b ∷ []) final ne
        (omega (arith, h, length-append t (b ∷ [])))
        (rw (sym (append_assoc t (b ∷ []) (replicate n b))) at u) in
    rw ne (
      more fuel (put out_cap b o) (omega (arith, f)) (put-Holds out_cap b t o (omega (arith, h)) k))

packed-Unpacks :
    (out_cap n b : ℕ) (rest t final : List ℕ)
    → length t + n ≤ out_cap
    → Unpacks out_cap rest (t ++ replicate n b) final
    → Unpacks out_cap (255 ∷ n ∷ b ∷ rest) t final
unfolding unpack_loop
packed-Unpacks out_cap n b rest t final h u zero o f k = absurd (omega (arith, f))
packed-Unpacks out_cap n b rest t final h u (suc fuel) o f k =
    u fuel (put_times out_cap n b o) (omega (arith, f)) (put_times-Holds out_cap n b t o h k)

piece-Unpacks :
    (out_cap run b : ℕ) (xs rest t final : List ℕ)
    → take run (b ∷ xs) ≡ replicate run b
    → run ≤ 255
    → length t + run ≤ out_cap
    → Unpacks out_cap rest (t ++ replicate run b) final
    → Unpacks out_cap (piece run b (b ∷ xs) ++ rest) t final
piece-Unpacks out_cap run b xs rest t final same few h u =
    elim (Bool-cases (leb 4 run || b == 255)) [
      | inl e ↦
          let byte : u8 run ≡ run = omega (arith, few) in
          rw e (rw byte (packed-Unpacks out_cap run b rest t final h u))
      | inr e ↦
          let literal : (b == 255) ≡ false = ground (arith, e) in
          rw e (rw same (literal-Unpacks out_cap run b rest t final literal h u))
    ]

nothing-Unpacks : (out_cap : ℕ) (t : List ℕ) → Unpacks out_cap [] t (t ++ [])
unfolding unpack_loop
nothing-Unpacks out_cap t zero o f k = (o, refl, rw (append-nil t) k)
nothing-Unpacks out_cap t (suc fuel) o f k = (o, refl, rw (append-nil t) k)

packed-all :
    (out_cap m : ℕ) (bytes t : List ℕ)
    → length bytes ≤ m
    → length t + length bytes ≤ out_cap
    → Unpacks out_cap (packed m bytes) t (t ++ bytes)
unfolding packed
packed-all out_cap zero [] t f h = nothing-Unpacks out_cap t
packed-all out_cap zero (b ∷ xs) t f h = absurd (omega (arith, f))
packed-all out_cap (suc m) [] t f h = nothing-Unpacks out_cap t
packed-all out_cap (suc m) (b ∷ xs) t f h =
    let run = run_length b xs 1 in
    let rest = drop run (b ∷ xs) in
    let (same, few) = first_run b xs in
    let in_run = run_length_bounds b xs 1 in
    let left = length-drop run (b ∷ xs) in
    let n = length-append t (replicate run b) in
    let m' = length-replicate run b in
    let whole : (t ++ replicate run b) ++ rest ≡ t ++ b ∷ xs =
      append_assoc t (replicate run b) rest
      ∙ ap (λ (l : List ℕ). t ++ l)
          (ap (λ (l : List ℕ). l ++ rest) (sym same) ∙ take-append-drop run (b ∷ xs)) in
    let u =
      packed-all out_cap m rest (t ++ replicate run b) (omega (arith, f, left, in_run.0))
        (omega (arith, h, left, n, m', in_run.1)) in
    piece-Unpacks out_cap run b xs (packed m rest) t (t ++ b ∷ xs) same few
      (omega (arith, h, in_run.1)) (rw whole at u)

array-Holds : (out : List ℕ) (out_cap : ℕ) → out_cap ≤ length out → Holds out_cap [] (0, some out)
array-Holds out out_cap h = (out, refl, omega (arith, h))

needed_lem :
    (src : List ℕ) (n : ℕ)
    → dl_pack_rle src none 0 ≡ some (n, none)
    → n ≡ length (packed (length src) src)
unfolding dl_pack_rle
needed_lem src n size = ground (arith, pack_loop-none (length src) src 0 (omega arith), size)

pack_lem :
    (src out : List ℕ) (out_cap : ℕ)
    → length (packed (length src) src) ≤ out_cap
    → out_cap ≤ length out
    → (spare : List ℕ) × (dl_pack_rle src (some out) out_cap
        ≡ some (length (packed (length src) src), some (packed (length src) src ++ spare)))
unfolding dl_pack_rle
pack_lem src out out_cap fits room =
    let (o', e, (spare, at_end, k)) =
      pack_loop-Holds out_cap (length src) src [] (0, some out) (omega arith) (omega (arith, fits))
        (array-Holds out out_cap room) in
    (spare, e ∙ ap some at_end)

unpack_lem :
    (src back : List ℕ) (back_cap : ℕ)
    → length src ≤ back_cap
    → back_cap ≤ length back
    → (spare : List ℕ) × (dl_unpack_rle (packed (length src) src) (some back) back_cap
        ≡ some (length src, some (src ++ spare)))
unfolding dl_unpack_rle
unpack_lem src back back_cap large enough =
    let (b', e, (spare, at_end, k)) =
      packed-all back_cap (length src) src [] (omega arith) (omega (arith, large))
        (length (packed (length src) src)) (0, some back) (omega arith)
        (array-Holds back back_cap enough) in
    (spare, e ∙ ap some at_end)

taken : (t spare : List ℕ) (n : ℕ) → n ≡ length t → take n (t ++ spare) ≡ t
taken t spare n e = rw e (take-append t spare)

-- If a call without an array says that the packed bytes need `n`, and the array that is then given has
-- room for them, packing into it ends with `n` bytes; and unpacking these into any array with room for
-- the source ends with the source in front of it.
pub dl_unpack_rle-dl_pack_rle :
    (src out back : List ℕ) (out_cap back_cap n : ℕ)
    → dl_pack_rle src none 0 ≡ some (n, none)
    → (n ≤ out_cap) × (out_cap ≤ length out)
    → (length src ≤ back_cap) × (back_cap ≤ length back)
    → (out' : List ℕ) × (back' : List ℕ) × (dl_pack_rle src (some out) out_cap
        ≡ some (n, some out'))
      × (dl_unpack_rle (take n out') (some back) back_cap ≡ some (length src, some back'))
      × (take (length src) back' ≡ src)
dl_unpack_rle-dl_pack_rle src out back out_cap back_cap n size (fits, room) (large, enough) =
    let stream = packed (length src) src in
    let needed = needed_lem src n size in
    let (spare, e) = pack_lem src out out_cap (omega (arith, needed, fits)) room in
    let (spare', e') = unpack_lem src back back_cap large enough in
    (
      stream ++ spare,
      src ++ spare',
      e ∙ ap (λ (k : ℕ). some (k, some (stream ++ spare))) (sym needed),
      ap (λ (l : List ℕ). dl_unpack_rle l (some back) back_cap) (taken stream spare n needed) ∙ e',
      take-append src spare',
    )
