-- ===== src/Delta/Blocks.antt =====
-- The block hashes of deltaffi.c.
use ryzen_build.Base.{
  ℕ, zero, suc, ◌+◌, ◌-◌, ◌*◌, ◌≤◌, ◌<◌, ◌≡◌, ◌⊎◌, inl, inr, refl, sym, arith, ap, ◌∙◌,
}
use ryzen_build.Base.{leb, ltb, if◌then◌else◌, Bool-cases, true, some}
use ryzen_build.Base.{
  List, [], ◌∷◌, length, get_or, set, take, drop, length-drop, length-set, get_or-set,
}
use ryzen_build.Delta.{dl_fnv1a64, hash_loop, dl_block_hashes}

-- The hash of block `j`; the last block may be shorter.
abbrev pub block_hash : List ℕ → ℕ → ℕ → ℕ
block_hash src block_size j = dl_fnv1a64 (take block_size (drop (j * block_size) src))

take_all : (xs : List ℕ) (n m : ℕ) → length xs ≤ n → length xs ≤ m → take n xs ≡ take m xs
take_all [] zero zero h k = refl
take_all [] zero (suc m) h k = refl
take_all [] (suc n) zero h k = refl
take_all [] (suc n) (suc m) h k = refl
take_all (x ∷ xs) zero m h k = elim h [ ]
take_all (x ∷ xs) (suc n) zero h k = elim k [ ]
take_all (x ∷ xs) (suc n) (suc m) h k =
    ap (λ t. x ∷ t) (take_all xs n m (omega arith) (omega arith))

-- What a call that wrote `c` hashes leaves in `out`.
pub record Hashed (src : List ℕ) (block_size out_cap : ℕ) (out : List ℕ) (c : ℕ) : Type 0 where
  pub size : length out ≡ out_cap
  pub fits : c ≤ out_cap
  pub stops : (j : ℕ) → j < c → j * block_size < length src
  pub ended : (c ≡ out_cap) ⊎ (length src ≤ c * block_size)
  pub hashes : (j : ℕ) → j < c → get_or out j 0 ≡ block_hash src block_size j

module _ (src : List ℕ) (block_size out_cap : ℕ) (some_bytes : 0 < block_size) where
  -- The hash that the round at `off` writes.
  abbrev next_hash : ℕ → ℕ
  next_hash off = dl_fnv1a64 (
      take (if ltb (length src) (off + block_size) then length src - off else block_size)
        (drop off src))

  written : (off : ℕ) → next_hash off ≡ dl_fnv1a64 (take block_size (drop off src))
  written off = ap dl_fnv1a64 (elim (Bool-cases (ltb (length src) (off + block_size))) [
    | inl e ↦ rw e (
        take_all (drop off src) (length src - off) block_size (omega (arith, length-drop off src))
          (ground (arith, e, length-drop off src)))
    | inr e ↦ rw e refl
  ])

  next_start :
      {off : ℕ} (count j : ℕ)
      → off ≡ count * block_size
      → ltb off (length src) ≡ true
      → j < count + 1
      → (j < count → j * block_size < length src)
      → j * block_size < length src
  next_start count j e q p h = elim (Bool-cases (ltb j count)) [
    | inl l ↦ h (ground (arith, l))
    | inr l ↦ let same : j ≡ count = ground (arith, l) in rw same (rw (sym e) (ground (arith, q)))
  ]

  hash_loop_lem :
      (fuel off count : ℕ) (out : List ℕ)
      → length src < fuel + count
      → count ≤ length src
      → off ≡ count * block_size
      → length out ≡ out_cap
      → count ≤ out_cap
      → ((j : ℕ) → j < count → get_or out j 0 ≡ block_hash src block_size j)
      → ((j : ℕ) → j < count → j * block_size < length src)
      → (c : ℕ) × (out' : List ℕ) × (hash_loop fuel src block_size out_cap off count out
          ≡ some (c, out'))
        × Hashed src block_size out_cap out' c
  unfolding hash_loop
  hash_loop_lem zero off count out room few e size fits sofar starts = absurd (omega arith)
  hash_loop_lem (suc fuel) off count out room few e size fits sofar starts =
      elim (Bool-cases (ltb off (length src))) [
        | inr q ↦ (
          count,
          out,
          rw q refl,
          record {
            size = size;
            fits = fits;
            stops = starts;
            ended = inr (ground (arith, q));
            hashes = sofar;
          },
        )
        | inl q ↦ elim (Bool-cases (leb out_cap count)) [
          | inl r ↦ (
            count,
            out,
            rw q (rw r refl),
            record {
              size = size;
              fits = fits;
              stops = starts;
              ended = inl (ground (arith, r));
              hashes = sofar;
            },
          )
          | inr r ↦
              let h = block_hash src block_size count in
              let each : count ≤ count * block_size = grind arith in
              let now : next_hash off ≡ h = rw e (written (count * block_size)) in
              rw q (
                rw r (
                  hash_loop_lem fuel (off + block_size) (count + 1) (set out count (next_hash off))
                    (omega arith) (ground (arith, q)) (grind arith)
                    (length-set out count (next_hash off) ∙ size) (ground (arith, r))
                    (λ j p.
                      ground (arith, r, get_or-set out count j (next_hash off) 0, sofar j, now))
                    (λ j p. next_start count j e q p (starts j))))
        ]
      ]

-- Hashing a list of bytes that is not empty, in blocks that are not empty, into an array that is
-- not empty, ends: it writes the hash of each block in order, until the bytes are at their end or
-- the array is full, and no block that it counts starts at or past the end of the bytes.
pub dl_block_hashes_lem :
    (src out : List ℕ) (block_size : ℕ)
    → 0 < length src
    → 0 < block_size
    → 0 < length out
    → (c : ℕ) × (out' : List ℕ) × (dl_block_hashes src block_size (some out) ≡ some (c, out'))
      × Hashed src block_size (length out) out' c
unfolding dl_block_hashes
dl_block_hashes_lem src out block_size h k l =
    let (c, out', e, done) =
      hash_loop_lem src block_size (length out) k (suc (length src)) 0 0 out (omega arith)
        (omega arith) (omega arith) refl (omega arith) (λ j p. elim p [ ]) (λ j p. elim p [ ]) in
    (c, out', ground (arith, e), done)
