-- ===== src/Delta/Tests.antt =====
-- Tests of the model of deltaffi.c, and the theorems at concrete inputs.
use ryzen_build.Base.{ℕ, zero, suc, ◌<◌, ◌≤◌, ◌≡◌, refl, some, List, [], ◌∷◌, get_or}
use ryzen_build.Delta.{dl_fnv1a64, dl_inter_reversed, inter_reversed, pair_loop}
use ryzen_build.Delta.{dl_xor_delta, xor_loop, byte_or_zero}
use ryzen_build.Base.{arith, none}
use ryzen_build.Delta.Blocks.{Hashed, dl_block_hashes_lem}
use ryzen_build.Delta.{dl_block_hashes}
use ryzen_build.Delta.Xor.{dl_xor_delta_twice}
use ryzen_build.Delta.Rle.{dl_pack_rle, dl_unpack_rle, pack_loop, unpack_loop, run_length}
use ryzen_build.Delta.Rle.{put_run, put_packed, put_all, put, put_times}
use ryzen_build.Delta.Rle.Size.{dl_pack_rle_size}
use ryzen_build.Delta.Rle.RoundTrip.{dl_unpack_rle-dl_pack_rle}
use ryzen_build.Base.{take, replicate}

abbrev five : List ℕ
five = 1 ∷ 2 ∷ 3 ∷ 4 ∷ 5 ∷ []

abbrev zeros : List ℕ
zeros = 0 ∷ 0 ∷ 0 ∷ 0 ∷ 0 ∷ []

-- The published hash of the byte "a" starts from 14695981039346656037; this code starts lower.
fnv_test : dl_fnv1a64 [] ≡ 1469598103934665603
unfolding dl_fnv1a64
fnv_test = refl

inter_test : dl_inter_reversed (some five) (some zeros) ≡ some (3 ∷ 4 ∷ 1 ∷ 2 ∷ 5 ∷ [])
unfolding dl_inter_reversed inter_reversed pair_loop
inter_test = refl

xor_test :
    dl_xor_delta (some (5 ∷ 6 ∷ [])) 2 (some (1 ∷ [])) 1 (some (0 ∷ 0 ∷ [])) ≡ some (4 ∷ 6 ∷ [])
unfolding dl_xor_delta xor_loop byte_or_zero
xor_test = refl

bytes-short : (i : ℕ) → get_or five i 0 < 256
bytes-short zero = omega arith
bytes-short (suc zero) = omega arith
bytes-short (suc (suc zero)) = omega arith
bytes-short (suc (suc (suc zero))) = omega arith
bytes-short (suc (suc (suc (suc zero)))) = omega arith
bytes-short (suc (suc (suc (suc (suc i))))) = omega arith

dl_xor_delta_twice_example :
    dl_xor_delta
      (dl_xor_delta (some five) 5 (some (9 ∷ 9 ∷ [])) 2 (some zeros))
      5
      (some (9 ∷ 9 ∷ []))
      2
      (some zeros)
    ≡ some five
dl_xor_delta_twice_example = dl_xor_delta_twice five (9 ∷ 9 ∷ []) zeros zeros bytes-short refl refl

-- Five equal bytes are packed, and the packed stream gives them back.
pack_test :
    dl_pack_rle (7 ∷ 7 ∷ 7 ∷ 7 ∷ 7 ∷ 1 ∷ []) (some zeros) 5
    ≡ some (4, some (255 ∷ 5 ∷ 7 ∷ 1 ∷ 0 ∷ []))
unfolding dl_pack_rle pack_loop run_length put_run put_packed put_all put
pack_test = refl

unpack_test :
    dl_unpack_rle (255 ∷ 5 ∷ 7 ∷ []) (some zeros) 5 ≡ some (5, some (7 ∷ 7 ∷ 7 ∷ 7 ∷ 7 ∷ []))
unfolding dl_unpack_rle unpack_loop put_times put
unpack_test = refl

dl_pack_rle_size_example :
    (n : ℕ) × (out' : List ℕ) × (dl_pack_rle five (some zeros) 5 ≡ some (n, some out'))
    × (dl_pack_rle five none 0 ≡ some (n, none))
    × (n ≤ 15)
dl_pack_rle_size_example = dl_pack_rle_size five zeros 5

dl_block_hashes_lem_example :
    (c : ℕ) × (out' : List ℕ) × (dl_block_hashes five 2 (some (0 ∷ 0 ∷ 0 ∷ 0 ∷ []))
      ≡ some (c, out'))
    × Hashed five 2 4 out' c
dl_block_hashes_lem_example =
    dl_block_hashes_lem five (0 ∷ 0 ∷ 0 ∷ 0 ∷ []) 2 (omega arith) (omega arith) (omega arith)

abbrev flat : List ℕ
flat = 7 ∷ 7 ∷ 7 ∷ 7 ∷ 255 ∷ []

abbrev ten : List ℕ
ten = replicate 10 0

flat_size : dl_pack_rle flat none 0 ≡ some (6, none)
unfolding dl_pack_rle pack_loop run_length put_run put_packed put_all put
flat_size = refl

dl_unpack_rle-dl_pack_rle_example :
    (out' : List ℕ) × (back' : List ℕ) × (dl_pack_rle flat (some ten) 10 ≡ some (6, some out'))
    × (dl_unpack_rle (take 6 out') (some zeros) 5 ≡ some (5, some back'))
    × (take 5 back' ≡ flat)
dl_unpack_rle-dl_pack_rle_example =
    dl_unpack_rle-dl_pack_rle flat ten zeros 10 5 6 flat_size (omega arith, omega arith)
      (omega arith, omega arith)
