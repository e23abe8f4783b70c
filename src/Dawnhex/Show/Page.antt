-- ===== src/Dawnhex/Show/Page.antt =====
-- What the attributes of dawnhex_kmod.c show: the front of the whole text that one page has room for.
use ryzen_build.Base.{
  ℕ, zero, suc, ◌-◌, ◌≤◌, ◌≡◌, refl, sym, ap, ◌∙◌, arith, leb, length, take, bytes, labelled,
  length-take, append_assoc, append-nil, decimal,
}
use ryzen_build.Base.{Bool, false, true, not, ltb, ◌+◌, if◌then◌else◌, List, [], ◌∷◌, ◌++◌, map}
use ryzen_build.Dawnhex.Types.{Text, Node, Pair, State}
use ryzen_build.Dawnhex.Command.{from_bool}
use ryzen_build.Dawnhex.Show.{
  scnprintf, all_written, show_loop, summary_text, node_text, pair_text, ladder_texts, one,
  nodes_shown, pairs_in_use, summary_show, topology_show, tick_ms_show, interactive_show, duo_show,
  duo_simplex_show,
}

abbrev pub joined : List Text → Text
joined [] = []
joined (t ∷ rest) = t ++ joined rest

abbrev pub all_joined : List (List Text) → Text
all_joined [] = []
all_joined (ts ∷ rest) = joined ts ++ all_joined rest

-- The lines of the slots that are present, whatever stands between them.
abbrev pub present_lines : List Node → Text
present_lines [] = []
present_lines (n ∷ rest) = (if n.present then node_text n else []) ++ present_lines rest

-- The texts of the slots whose number is below the count.
abbrev pub slot_texts : (Pair → Text) → ℕ → ℕ → List Pair → Text
slot_texts f i count [] = []
slot_texts f i count (p ∷ rest) =
    (if ltb i count then f p else []) ++ slot_texts f (i + 1) count rest

-- The front of `whole` that a page has room for, with its terminator.
abbrev pub page_of : Text → Text
page_of whole = take 4095 whole

take-append : (n : ℕ) (a b : Text) → length a ≤ n → take n (a ++ b) ≡ a ++ take (n - length a) b
take-append n [] b h = let z : n - 0 ≡ n = omega arith in rw z refl
take-append zero (x ∷ a) b h = absurd (omega (arith, h))
take-append (suc n) (x ∷ a) b h =
    let z : suc n - suc (length a) ≡ n - length a = omega arith in
    rw z (ap (λ (l : Text). x ∷ l) (take-append n a b (omega (arith, h))))

take-take_append : (n : ℕ) (a b : Text) → take n (take n a ++ b) ≡ take n (a ++ b)
take-take_append zero a b = refl
take-take_append (suc n) [] b = refl
take-take_append (suc n) (x ∷ a) b = ap (λ (l : Text). x ∷ l) (take-take_append n a b)

page_short : (whole : Text) → length (page_of whole) ≤ 4095
page_short whole = omega (arith, length-take 4095 whole)

scnprintf_lem : (whole text : Text) → scnprintf (page_of whole) text ≡ page_of (whole ++ text)
unfolding scnprintf
scnprintf_lem whole text =
    let left : 4096 - length (page_of whole) - 1 ≡ 4095 - length (page_of whole) = omega arith in
    rw left (
      sym (take-append 4095 (page_of whole) text (page_short whole))
      ∙ take-take_append 4095 whole text)

all_written_lem :
    (texts : List Text) (whole : Text)
    → all_written texts (page_of whole) ≡ page_of (whole ++ joined texts)
unfolding all_written
all_written_lem [] whole = ap page_of (sym (append-nil whole))
all_written_lem (t ∷ rest) whole =
    ap (all_written rest) (scnprintf_lem whole t)
    ∙ (all_written_lem rest (whole ++ t) ∙ ap page_of (append_assoc whole t (joined rest)))

show_loop_lem :
    (rounds : List (List Text)) (whole : Text)
    → show_loop rounds (page_of whole) ≡ page_of (whole ++ all_joined rounds)
unfolding show_loop
show_loop_lem [] whole = ap page_of (sym (append-nil whole))
show_loop_lem (ts ∷ rest) whole =
    let now = all_written_lem ts whole in
    let never : leb 4096 (length (page_of (whole ++ joined ts))) ≡ false =
      ground (arith, page_short (whole ++ joined ts)) in
    rw now (
      rw never (
        show_loop_lem rest (whole ++ joined ts)
        ∙ ap page_of (append_assoc whole (joined ts) (all_joined rest))))

-- One text in each round.
ones {ℓ} :
    {A : Type ℓ} (f : A → Text) (xs : List A)
    → all_joined (map (λ x. one (f x)) xs) ≡ joined (map f xs)
ones f [] = refl
ones f (x ∷ xs) =
    ap (λ (t : Text). t ++ all_joined (map (λ y. one (f y)) xs)) (append-nil (f x))
    ∙ ap (λ (t : Text). f x ++ t) (ones f xs)

-- A round of the loop over the nodes.
node_round :
    (present : Bool) (line : Text) (rest : List Node) (whole : Text)
    → ((whole' : Text) → nodes_shown rest (page_of whole') ≡ page_of (whole' ++ present_lines rest))
    → let written = (if not present then page_of whole else scnprintf (page_of whole) line) in
      let more = nodes_shown rest written in
      (if not present then more else if leb 4096 (length written) then written else more)
      ≡ page_of (whole ++ ((if present then line else []) ++ present_lines rest))
node_round false line rest whole ih = ih whole
node_round true line rest whole ih =
    let now = scnprintf_lem whole line in
    let never : leb 4096 (length (page_of (whole ++ line))) ≡ false =
      ground (arith, page_short (whole ++ line)) in
    rw now
      (rw never (ih (whole ++ line) ∙ ap page_of (append_assoc whole line (present_lines rest))))

nodes_shown_lem :
    (nodes : List Node) (whole : Text)
    → nodes_shown nodes (page_of whole) ≡ page_of (whole ++ present_lines nodes)
unfolding nodes_shown
nodes_shown_lem [] whole = ap page_of (sym (append-nil whole))
nodes_shown_lem (n ∷ rest) whole =
    node_round n.present (node_text n) rest whole (nodes_shown_lem rest)

slot_texts_end :
    (f : Pair → Text) (i count : ℕ) (ps : List Pair) → count ≤ i → slot_texts f i count ps ≡ []
slot_texts_end f i count [] h = refl
slot_texts_end f i count (p ∷ ps) h =
    let past : ltb i count ≡ false = ground (arith, h) in
    rw past (slot_texts_end f (i + 1) count ps (omega (arith, h)))

-- The texts of the pairs that the loop runs over are those of the slots below the count.
slot_texts-take :
    (f : Pair → Text) (left i : ℕ) (ps : List Pair)
    → joined (map f (take left ps)) ≡ slot_texts f i (left + i) ps
slot_texts-take f zero i ps = sym (slot_texts_end f i (zero + i) ps (omega arith))
slot_texts-take f (suc left) i [] = refl
slot_texts-take f (suc left) i (p ∷ ps) =
    let used : ltb i (suc left + i) ≡ true = ground arith in
    let next : left + (i + 1) ≡ suc left + i = omega arith in
    let rest : joined (map f (take left ps)) ≡ slot_texts f (i + 1) (suc left + i) ps =
      rw⁻¹ next (slot_texts-take f left (i + 1) ps) in
    rw used (ap (λ (t : Text). f p ++ t) rest)

all_joined-map :
    (f : Pair → List Text) (ps : List Pair)
    → all_joined (map f ps) ≡ joined (map (λ p. joined (f p)) ps)
all_joined-map f [] = refl
all_joined-map f (p ∷ ps) = ap (λ (t : Text). joined (f p) ++ t) (all_joined-map f ps)

pairs_lem :
    (f : Pair → Text) (s : State)
    → joined (map f (pairs_in_use s)) ≡ slot_texts f 0 s.duo.pair_count s.duo.pairs
pairs_lem f s =
    let none_before : s.duo.pair_count + 0 ≡ s.duo.pair_count = omega arith in
    slot_texts-take f s.duo.pair_count 0 s.duo.pairs
    ∙ ap (λ n. slot_texts f 0 n s.duo.pairs) none_before

-- Each attribute shows the front, up to 4095 bytes, of a whole text, whose lines are as the model writes
-- them: the summary, the line of each slot of a node that is present, in the order of the slots and of
-- no other, the two settings, the count of the pairs with the line of each slot below it, and the
-- ladder of the pair in each such slot with its first level.
pub shown_lem :
    (s : State)
    → (summary_show s ≡ page_of (summary_text s))
      × (topology_show s ≡ page_of (present_lines s.nodes))
      × (tick_ms_show s ≡ page_of (decimal s.tick_ms ++ bytes "\n"))
      × (interactive_show s ≡ page_of (decimal (from_bool s.interactive) ++ bytes "\n"))
      × (duo_show s
          ≡ page_of (
              (labelled ((bytes "pair_count=", s.duo.pair_count) ∷ []) ++ bytes "\n")
              ++ slot_texts pair_text 0 s.duo.pair_count s.duo.pairs))
      × (duo_simplex_show s
          ≡ page_of (slot_texts (λ p. joined (ladder_texts p)) 0 s.duo.pair_count s.duo.pairs))
unfolding summary_show topology_show tick_ms_show interactive_show duo_show duo_simplex_show
shown_lem s =
    let count = labelled ((bytes "pair_count=", s.duo.pair_count) ∷ []) ++ bytes "\n" in
    (
      scnprintf_lem [] (summary_text s),
      nodes_shown_lem s.nodes [],
      scnprintf_lem [] (decimal s.tick_ms ++ bytes "\n"),
      scnprintf_lem [] (decimal (from_bool s.interactive) ++ bytes "\n"),
      ap (show_loop (map (λ p. one (pair_text p)) (pairs_in_use s))) (scnprintf_lem [] count)
          ∙ (show_loop_lem (map (λ p. one (pair_text p)) (pairs_in_use s)) count
              ∙ ap (λ (t : Text). page_of (count ++ t))
                  (ones pair_text (pairs_in_use s) ∙ pairs_lem pair_text s)),
      show_loop_lem (map ladder_texts (pairs_in_use s)) []
          ∙ ap page_of (
              all_joined-map ladder_texts (pairs_in_use s)
              ∙ pairs_lem (λ p. joined (ladder_texts p)) s),
    )
