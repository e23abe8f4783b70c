-- ===== src/Delta/Reverse.antt =====
-- The reversals of deltaffi.c.
use ryzen_build.Base.{ℕ, zero, suc, ◌+◌, ◌-◌, ◌*◌, ◌/◌, ◌%◌, ◌≤◌, ◌<◌, ◌≡◌, refl, ap, ◌∙◌, arith}
use ryzen_build.Base.{leb, ltb, ◌&&◌, if◌then◌else◌}
use ryzen_build.Base.{
  some, List, length, get_or, set, length-set, get_or-set, get_or_ext, get_or-past,
}
use ryzen_build.Delta.{
  reverse_loop, dl_reverse_canonical, pair_loop, inter_reversed, dl_inter_reversed,
}

reverse_loop_lem :
    (src : List ℕ) (left i j : ℕ) (dst : List ℕ)
    → i + left ≤ length dst
    → (get_or (reverse_loop src left i dst) j 0 ≡ (
        if leb i j && ltb j (i + left) then get_or src (length src - 1 - j) 0 else get_or dst j 0))
      × (length (reverse_loop src left i dst) ≡ length dst)
unfolding reverse_loop
reverse_loop_lem src zero i j dst h = (ground arith, refl)
reverse_loop_lem src (suc left) i j dst h =
    let x = get_or src (length src - 1 - i) 0 in
    let rest =
      reverse_loop_lem src left (i + 1) j (set dst i x) (omega (arith, length-set dst i x)) in
    (ground (arith, rest, get_or-set dst i j x 0), rest.1 ∙ length-set dst i x)

-- What the reversal writes.
pub reversed : List ℕ → List ℕ → List ℕ
reversed src dst = reverse_loop src (length src) 0 dst

pub reversed_lem :
    (src dst : List ℕ) (j : ℕ)
    → length src ≤ length dst
    → (get_or (reversed src dst) j 0
        ≡ (if ltb j (length src) then get_or src (length src - 1 - j) 0 else get_or dst j 0))
      × (length (reversed src dst) ≡ length dst)
unfolding reversed
reversed_lem src dst j h =
    let all = reverse_loop_lem src (length src) 0 j dst (omega arith) in
    (ground (arith, all), all.1)

-- Reversing twice, into outputs of the input's size, gives the input back.
pub dl_reverse_canonical_twice :
    (src mid dst : List ℕ)
    → length mid ≡ length src
    → length dst ≡ length src
    → dl_reverse_canonical (dl_reverse_canonical (some src) (some mid)) (some dst) ≡ some src
unfolding dl_reverse_canonical reversed
dl_reverse_canonical_twice src mid dst hm hd = ap some (twice)
  where
    m : List ℕ
    m = reversed src mid

    lm : length m ≡ length src
    lm = omega (arith, reversed_lem src mid 0)

    twice : reversed m dst ≡ src
    twice =
        get_or_ext 0 (reversed m dst) src (omega (arith, lm, reversed_lem m dst 0)) (λ i h.
          ground (arith, lm, reversed_lem m dst i, reversed_lem src mid (length src - 1 - i)))

-- `dl_inter_reversed` reverses the order of the pairs and leaves a last odd byte in place.
pair_loop_lem :
    (src : List ℕ) (count left i j : ℕ) (dst : List ℕ)
    → i + left ≡ count
    → count * 2 ≤ length dst
    → (get_or (pair_loop src count left i dst) j 0 ≡ (
        if leb (i * 2) j && ltb j (count * 2)
        then get_or src ((count - 1 - j / 2) * 2 + j % 2) 0
        else get_or dst j 0))
      × (length (pair_loop src count left i dst) ≡ length dst)
unfolding pair_loop
pair_loop_lem src count zero i j dst e h = (ground arith, refl)
pair_loop_lem src count (suc left) i j dst e h =
    let x = get_or src ((count - 1 - i) * 2) 0 in
    let y = get_or src ((count - 1 - i) * 2 + 1) 0 in
    let d1 = set dst (i * 2) x in
    let d2 = set d1 (i * 2 + 1) y in
    let len1 = length-set dst (i * 2) x in
    let len2 = length-set d1 (i * 2 + 1) y in
    let rest =
      pair_loop_lem src count left (i + 1) j d2 (omega arith) (omega (arith, len1, len2)) in
    (
      ground (arith, rest, len1, get_or-set dst (i * 2) j x 0, get_or-set d1 (i * 2 + 1) j y 0),
      rest.1 ∙ len2 ∙ len1,
    )

-- Into an output of the size of the input, byte `j` of the whole pairs comes from the mirrored
-- pair, the same byte of it, and any other from its own place; the size stays.
pub inter_reversed_lem :
    (src dst : List ℕ) (j : ℕ)
    → length dst ≡ length src
    → (get_or (inter_reversed src dst) j 0 ≡ (
        if ltb j (length src / 2 * 2)
        then get_or src ((length src / 2 - 1 - j / 2) * 2 + j % 2) 0
        else get_or src j 0))
      × (length (inter_reversed src dst) ≡ length src)
unfolding inter_reversed
inter_reversed_lem src dst j h =
    let c = length src / 2 in
    let d = pair_loop src c c 0 dst in
    let all = pair_loop_lem src c c 0 j dst (omega arith) (omega arith) in
    let last = get_or src (length src - 1) 0 in
    ground (
      arith,
      all,
      get_or-set d (length src - 1) j last 0,
      length-set d (length src - 1) last,
      get_or-past src j 0,
      get_or-past dst j 0,
    )

-- The index that a byte of the first `c` pairs comes from, and that it is its own inverse.
abbrev mirror : ℕ → ℕ → ℕ
mirror c i = (c - 1 - i / 2) * 2 + i % 2

mirror_twice : (c i : ℕ) → i < c * 2 → (mirror c i < c * 2) × (mirror c (mirror c i) ≡ i)
mirror_twice c i h = omega arith

inter_reversed_twice :
    (src mid dst : List ℕ)
    → length mid ≡ length src
    → length dst ≡ length src
    → inter_reversed (inter_reversed src mid) dst ≡ src
inter_reversed_twice src mid dst hm hd =
    let m = inter_reversed src mid in
    let lm : length m ≡ length src = (inter_reversed_lem src mid 0 hm).1 in
    let ld : length dst ≡ length m = omega arith in
    let lr : length (inter_reversed m dst) ≡ length m = (inter_reversed_lem m dst 0 ld).1 in
    let c = length src / 2 in
    get_or_ext 0 (inter_reversed m dst) src (omega arith) (λ i h. ground (
      arith,
      lm,
      (inter_reversed_lem m dst i ld).0,
      (inter_reversed_lem src mid i hm).0,
      (inter_reversed_lem src mid (mirror c i) hm).0,
      mirror_twice c i,
    ))

-- Reversing the pairs twice gives the input back, also where its length is odd.
pub dl_inter_reversed_twice :
    (src mid dst : List ℕ)
    → length mid ≡ length src
    → length dst ≡ length src
    → dl_inter_reversed (dl_inter_reversed (some src) (some mid)) (some dst) ≡ some src
unfolding dl_inter_reversed
dl_inter_reversed_twice src mid dst hm hd = ap some (inter_reversed_twice src mid dst hm hd)
