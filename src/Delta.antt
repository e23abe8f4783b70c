-- ===== src/Delta.antt =====
-- deltaffi.c, the C core behind delta_link_ffi.lua: FNV-1a, the two reversals, XOR deltas, block
-- hashes and run-length packing. A `uint8_t` array is the list of its bytes; an output array is
-- the list of what it holds, and a write past its end is the `set` that changes nothing, which
-- the theorems rule out where the code relies on the caller's sizes.
pub mod Blocks
pub mod Reverse
pub mod Rle
pub mod Xor
mod Tests
use ryzen_build.Base.{ℕ, zero, suc, ◌+◌, ◌-◌, ◌*◌, ◌/◌, ◌%◌, u8, u64, bit_xor, max}
use ryzen_build.Base.{Bool, true, false, not, ◌&&◌, ◌||◌, ltb, leb, ◌==◌, if◌then◌else◌}
use ryzen_build.Base.{List, [], ◌∷◌, ◌++◌, get_or, set, length, take, drop, Option, none, some}

-- The loop of `dl_fnv1a64` over the bytes that are left.
unfoldable pub fnv_loop : ℕ → List ℕ → ℕ
fnv_loop h [] = h
fnv_loop h (x ∷ xs) = fnv_loop (u64 (bit_xor h x * 1099511628211)) xs

unfoldable pub dl_fnv1a64 : List ℕ → ℕ
unfolding fnv_loop
dl_fnv1a64 src = fnv_loop 1469598103934665603 src

-- The loop of `dl_reverse_canonical` at index `i`, with `left` rounds to go.
unfoldable pub reverse_loop : List ℕ → ℕ → ℕ → List ℕ → List ℕ
reverse_loop src zero i dst = dst
reverse_loop src (suc left) i dst =
    reverse_loop src left (i + 1) (set dst i (get_or src (length src - 1 - i) 0))

-- `none` is a NULL pointer; `dst` is what the output array holds before, and the result what it
-- holds after. `len` is the length of `src`.
unfoldable pub dl_reverse_canonical : Option (List ℕ) → Option (List ℕ) → Option (List ℕ)
dl_reverse_canonical none dst = dst
dl_reverse_canonical (some src) none = none
dl_reverse_canonical (some src) (some dst) = some (reverse_loop src (length src) 0 dst)

-- The loop of `dl_inter_reversed` at pair `i`, with `left` rounds to go.
unfoldable pub pair_loop : List ℕ → ℕ → ℕ → ℕ → List ℕ → List ℕ
pair_loop src pair_count zero i dst = dst
pair_loop src pair_count (suc left) i dst =
    let src_pair = (pair_count - 1 - i) * 2 in
    let dst_pair = i * 2 in
    pair_loop src pair_count left (i + 1)
      (set (set dst dst_pair (get_or src src_pair 0)) (dst_pair + 1) (get_or src (src_pair + 1) 0))

-- The last byte of an odd length stays in its place.
unfoldable pub inter_reversed : List ℕ → List ℕ → List ℕ
inter_reversed src dst =
    let len = length src in
    let pair_count = len / 2 in
    let dst' = pair_loop src pair_count pair_count 0 dst in
    if len % 2 == 1 then set dst' (len - 1) (get_or src (len - 1) 0) else dst'

unfoldable pub dl_inter_reversed : Option (List ℕ) → Option (List ℕ) → Option (List ℕ)
dl_inter_reversed none dst = dst
dl_inter_reversed (some src) none = none
dl_inter_reversed (some src) (some dst) = some (inter_reversed src dst)

-- `(i < len && p) ? p[i] : 0`
unfoldable pub byte_or_zero : Option (List ℕ) → ℕ → ℕ → ℕ
byte_or_zero none len i = 0
byte_or_zero (some p) len i = if ltb i len then get_or p i 0 else 0

-- The loop of `dl_xor_delta` at index `i`, with `left` rounds to go.
unfoldable pub xor_loop : Option (List ℕ) → ℕ → Option (List ℕ) → ℕ → ℕ → ℕ → List ℕ → List ℕ
xor_loop a a_len b b_len zero i out = out
xor_loop a a_len b b_len (suc left) i out =
    xor_loop a a_len b b_len left (i + 1)
      (set out i (u8 (bit_xor (byte_or_zero a a_len i) (byte_or_zero b b_len i))))

unfoldable pub dl_xor_delta :
    Option (List ℕ) → ℕ → Option (List ℕ) → ℕ → Option (List ℕ) → Option (List ℕ)
dl_xor_delta a a_len b b_len none = none
dl_xor_delta a a_len b b_len (some out) =
    let n = if ltb b_len a_len then a_len else b_len in some (xor_loop a a_len b b_len n 0 out)

-- The loop of `dl_block_hashes`, with fuel: the hashes written so far and the count. `size_t`
-- sums are taken without their wrap: an array is shorter than 2 ^ 63 bytes.
unfoldable pub hash_loop : ℕ → List ℕ → ℕ → ℕ → ℕ → ℕ → List ℕ → Option (ℕ × List ℕ)
hash_loop zero src block_size out_cap off count out = none
hash_loop (suc fuel) src block_size out_cap off count out =
    let n = if ltb (length src) (off + block_size) then length src - off else block_size in
    let rest =
      hash_loop fuel src block_size out_cap (off + block_size) (count + 1)
        (set out count (dl_fnv1a64 (take n (drop off src)))) in
    if not (ltb off (length src))
    then some (count, out)
    else if leb out_cap count
    then some (count, out)
    else rest

-- `none` for `out` is a NULL pointer; `out_cap` is the length of the array.
unfoldable pub dl_block_hashes : List ℕ → ℕ → Option (List ℕ) → Option (ℕ × List ℕ)
dl_block_hashes src block_size none = some (0, [])
dl_block_hashes src block_size (some out) =
    let out_cap = length out in
    if out_cap == 0 || block_size == 0
    then some (0, out)
    else if length src == 0
    then some (1, set out 0 (dl_fnv1a64 []))
    else hash_loop (suc (length src)) src block_size out_cap 0 0 out
