-- ===== src/Caustic/Payload/Pieces.antt =====
-- What the appends of caustic.c leave in the buffer, as a text.
use ryzen_build.Base.{
  ℕ, ◌+◌, ◌^◌, ◌≤◌, ◌<◌, ◌≡◌, refl, sym, ap, ◌∙◌, arith, leb, length, decimal, length-decimal,
  length-append,
}
use ryzen_build.Base.{signed_decimal, length-signed_decimal}
use ryzen_build.Base.{true, false, List, [], ◌∷◌, ◌++◌, append_assoc, append-nil}
use ryzen_build.Caustic.StrBuf.{StrBuf, Memory, Append, appended, sb_appendf, then_append}
use ryzen_build.Caustic.StrBuf.Appends.{
  IsMemory, Holds, IsAppended, ends, sb_appendf_lem, then_append_lem,
}
use ryzen_build.Caustic.Escape.RoundTrip.{json_text, json_escape_append_text}
use ryzen_build.Caustic.System.Bounds.{IsLong}
use ryzen_build.Caustic.Payload.{
  Piece, literal, number, signed, boolean, quoted, truth, append_piece, append_all,
}

-- An append with `rest` behind it.
abbrev pub before : Piece → List ℕ → List ℕ
before (literal s) rest = s ++ rest
before (number s n after) rest = s ++ (decimal n ++ (after ++ rest))
before (signed s z after) rest = s ++ (signed_decimal z ++ (after ++ rest))
before (boolean s b after) rest = s ++ (truth b ++ (after ++ rest))
before (quoted s) rest = json_text s ++ rest

abbrev pub all_before : List Piece → List ℕ → List ℕ
all_before [] rest = rest
all_before (p ∷ ps) rest = before p (all_before ps rest)

-- A text of the program is short, and a number has no more digits than a word of 64 bits may have.
abbrev pub IsFit : Piece → Type 0
IsFit (literal s) = leb (length s) 1000 ≡ true
IsFit (number s n after) = (n < 10 ^ 20) × (leb (length s + length after) 1000 ≡ true)
IsFit (signed s z after) = IsLong z × (leb (length s + length after) 1000 ≡ true)
IsFit (boolean s b after) = leb (length s + length after) 1000 ≡ true
IsFit (quoted s) = Unit

abbrev pub AllFit : List Piece → Type 0
AllFit [] = Unit
AllFit (p ∷ ps) = IsFit p × AllFit ps

-- An append that ends and puts a text behind any other, given by what stands before a rest.
abbrev pub Writes : (StrBuf → Append) → (List ℕ → List ℕ) → Type 0
Writes f g =
    (t : List ℕ) (sb : StrBuf) → Holds sb t → (ends (f sb) ≡ true) × IsAppended (t ++ g []) (f sb)

-- What stands before a rest does not depend on it.
abbrev pub IsPrefix : (List ℕ → List ℕ) → Type 0
IsPrefix g = (rest : List ℕ) → g rest ≡ g [] ++ rest

pub Writes-then :
    (f h : StrBuf → Append) (g k : List ℕ → List ℕ)
    → IsPrefix g
    → Writes f g
    → Writes h k
    → Writes (λ sb. then_append (f sb) h) (λ rest. g (k rest))
Writes-then f h g k p w v t sb held =
    let same : (t ++ g []) ++ k [] ≡ t ++ g (k []) =
      append_assoc t (g []) (k []) ∙ ap (λ (l : List ℕ). t ++ l) (sym (p (k []))) in
    rw⁻¹ same
      (then_append_lem (t ++ g []) ((t ++ g []) ++ k []) (f sb) h (w t sb held) (v (t ++ g [])))

pub prefix_then : (g k : List ℕ → List ℕ) → IsPrefix g → IsPrefix k → IsPrefix (λ rest. g (k rest))
prefix_then g k p q rest =
    ap g (q rest)
    ∙ (p (k [] ++ rest)
        ∙ (sym (append_assoc (g []) (k []) rest) ∙ ap (λ (l : List ℕ). l ++ rest) (sym (p (k [])))))

pub fixed-IsPrefix : (s : List ℕ) → IsPrefix (λ rest. s ++ rest)
fixed-IsPrefix s rest = ap (λ (l : List ℕ). l ++ rest) (sym (append-nil s))

pub before-IsPrefix : (p : Piece) → IsPrefix (before p)
before-IsPrefix (literal s) = fixed-IsPrefix s
before-IsPrefix (quoted s) = fixed-IsPrefix (json_text s)
before-IsPrefix (number s n after) =
    prefix_then (λ l. s ++ l) (λ l. decimal n ++ (after ++ l)) (fixed-IsPrefix s)
      (prefix_then (λ l. decimal n ++ l) (λ l. after ++ l) (fixed-IsPrefix (decimal n))
        (fixed-IsPrefix after))
before-IsPrefix (signed s z after) =
    prefix_then (λ l. s ++ l) (λ l. signed_decimal z ++ (after ++ l)) (fixed-IsPrefix s)
      (prefix_then (λ l. signed_decimal z ++ l) (λ l. after ++ l)
        (fixed-IsPrefix (signed_decimal z)) (fixed-IsPrefix after))
before-IsPrefix (boolean s b after) =
    prefix_then (λ l. s ++ l) (λ l. truth b ++ (after ++ l)) (fixed-IsPrefix s)
      (prefix_then (λ l. truth b ++ l) (λ l. after ++ l) (fixed-IsPrefix (truth b))
        (fixed-IsPrefix after))

pub all_before-IsPrefix : (ps : List Piece) → IsPrefix (all_before ps)
all_before-IsPrefix [] rest = refl
all_before-IsPrefix (p ∷ ps) rest =
    prefix_then (before p) (all_before ps) (before-IsPrefix p) (all_before-IsPrefix ps) rest

module _ (m : Memory) (mem : IsMemory m) where
  pub literal-Writes :
      (s : List ℕ) → leb (length s) 2000 ≡ true → Writes (sb_appendf m s) (λ rest. s ++ rest)
  literal-Writes s short t sb h =
      rw (append-nil s) (sb_appendf_lem m s t sb mem (ground (arith, short)) h)

  format-short :
      (s middle after : List ℕ)
      → length middle ≤ 21
      → leb (length s + length after) 1000 ≡ true
      → leb (length (s ++ (middle ++ after))) 2000 ≡ true
  format-short s middle after h k =
      ground (arith, h, k, length-append s (middle ++ after), length-append middle after)

  piece-Writes : (p : Piece) → IsFit p → Writes (append_piece m p) (before p)
  piece-Writes (literal s) f t sb h = literal-Writes s (ground (arith, f)) t sb h
  piece-Writes (quoted s) f t sb h =
      rw (append-nil (json_text s)) (json_escape_append_text m s t sb mem h)
  piece-Writes (number s n after) (small, f) t sb h = rw (append-nil after) (
      sb_appendf_lem m (s ++ (decimal n ++ after)) t sb mem
        (ground (arith, format-short s (decimal n) after (omega (arith, length-decimal n)) f)) h)
  piece-Writes (signed s z after) (small, f) t sb h = rw (append-nil after) (
      sb_appendf_lem m (s ++ (signed_decimal z ++ after)) t sb mem
        (ground (arith, format-short s (signed_decimal z) after (length-signed_decimal z) f)) h)
  piece-Writes (boolean s true after) f t sb h = rw (append-nil after) (
      sb_appendf_lem m (s ++ (truth true ++ after)) t sb mem
        (ground (arith, format-short s (truth true) after (omega arith) f)) h)
  piece-Writes (boolean s false after) f t sb h = rw (append-nil after) (
      sb_appendf_lem m (s ++ (truth false ++ after)) t sb mem
        (ground (arith, format-short s (truth false) after (omega arith) f)) h)

  pub nothing-Writes : Writes appended (λ rest. rest)
  nothing-Writes t sb h = (refl, rw (append-nil t) h)

  pub append_all-Writes : (ps : List Piece) → AllFit ps → Writes (append_all m ps) (all_before ps)
  unfolding append_all
  append_all-Writes [] f = nothing-Writes
  append_all-Writes (p ∷ ps) (f, fs) =
      Writes-then (append_piece m p) (append_all m ps) (before p) (all_before ps)
        (before-IsPrefix p) (piece-Writes p f) (append_all-Writes ps fs)
