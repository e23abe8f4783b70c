-- ===== src/Infinity/Buffer/Stream.antt =====
-- A relay buffer is a queue of bytes.
use ryzen_build.Base.{ℕ, zero, suc, ◌+◌, ◌-◌, ◌≤◌, ◌<◌, ◌≡◌, refl, sym, ◌∙◌, arith, min}
use ryzen_build.Base.{ltb, leb, ◌==◌, ◌&&◌, not, if◌then◌else◌, Bool-cases, inl, inr}
use ryzen_build.Base.{List, [], ◌∷◌, ◌++◌, length, set, take, drop, get_or, append-nil}
use ryzen_build.Base.{
  length-set, get_or-set, length-take, length-drop, get_or_ext, get_or-append, length-append,
}
use ryzen_build.Infinity.Buffer.{inf_buffer_cap, Buffer, buffer_empty, buffer_size, buffer_space}
use ryzen_build.Infinity.Buffer.{
  copy_to, content, buffer_compact, Recv, Send, Rc, idle, broken, eof,
}
use ryzen_build.Infinity.Buffer.{
  relay_read_into_buffer, relay_write_from_buffer, after_recv, after_send,
}

-- The indices are in order inside the array, and an empty buffer starts over.
pub record IsBuffer (b : Buffer) : Type 0 where
  pub room : length b.bytes ≡ inf_buffer_cap
  pub ordered : b.start ≤ b.fin
  pub fits : b.fin ≤ inf_buffer_cap
  pub fresh : b.start ≡ b.fin → b.fin ≡ 0

get_or-cons :
    (v : ℕ) (vs : List ℕ) (k : ℕ)
    → get_or (v ∷ vs) k 0 ≡ (if k == 0 then v else get_or vs (k - 1) 0)
get_or-cons v vs zero = ground arith
get_or-cons v vs (suc k) = ground arith

get_or-copy_to :
    (xs : List ℕ) (i : ℕ) (vs : List ℕ) (j : ℕ)
    → i + length vs ≤ length xs
    → (get_or (copy_to xs i vs) j 0
        ≡ (if leb i j && ltb j (i + length vs) then get_or vs (j - i) 0 else get_or xs j 0))
      × (length (copy_to xs i vs) ≡ length xs)
unfolding copy_to
get_or-copy_to xs i [] j h = (ground arith, refl)
get_or-copy_to xs i (v ∷ vs) j h =
    let rest = get_or-copy_to (set xs i v) (i + 1) vs j (omega (arith, length-set xs i v)) in
    (
      ground (arith, rest.0, get_or-set xs i j v 0, get_or-cons v vs (j - i)),
      rest.1 ∙ length-set xs i v,
    )

get_or-take :
    (n : ℕ) (xs : List ℕ) (j : ℕ) → get_or (take n xs) j 0 ≡ (if ltb j n then get_or xs j 0 else 0)
get_or-take zero xs j = ground arith
get_or-take (suc n) [] j = ground arith
get_or-take (suc n) (x ∷ xs) zero = ground arith
get_or-take (suc n) (x ∷ xs) (suc j) = ground (arith, get_or-take n xs j)

get_or-drop : (n : ℕ) (xs : List ℕ) (j : ℕ) → get_or (drop n xs) j 0 ≡ get_or xs (n + j) 0
get_or-drop zero xs j = ground arith
get_or-drop (suc n) [] j = ground arith
get_or-drop (suc n) (x ∷ xs) j = ground (arith, get_or-drop n xs j)

-- The bytes of a buffer, one by one.
content_lem :
    (b : Buffer) (j : ℕ)
    → (get_or (content b) j 0
        ≡ (if ltb j (b.fin - b.start) then get_or b.bytes (b.start + j) 0 else 0))
      × (length (content b) ≡ min (b.fin - b.start) (length b.bytes - b.start))
content_lem b j = (
  ground (
    arith,
    get_or-take (b.fin - b.start) (drop b.start b.bytes) j,
    get_or-drop b.start b.bytes j,
  ),
  omega (arith, length-take (b.fin - b.start) (drop b.start b.bytes), length-drop b.start b.bytes),
)

-- The buffer that `memmove` leaves.
abbrev compacted : Buffer → Buffer
compacted b = record { bytes = copy_to b.bytes 0 (content b); start = 0; fin = b.fin - b.start }

compacted_lem :
    (b : Buffer) → IsBuffer b → IsBuffer (compacted b) × (content (compacted b) ≡ content b)
compacted_lem b v =
    let size = (content_lem b 0).1 in
    let copied =
      λ (j : ℕ). get_or-copy_to b.bytes 0 (content b) j (omega (arith, size, v.fits, v.room)) in
    (
      record {
        room = (copied 0).1 ∙ v.room;
        ordered = omega arith;
        fits = omega (arith, v.fits);
        fresh = λ q. omega (arith, q);
      },
      get_or_ext 0 (content (compacted b)) (content b)
          (omega (arith, size, (content_lem (compacted b) 0).1, (copied 0).1, v.fits, v.room))
          (λ j h. ground (
            arith,
            (content_lem (compacted b) j).0,
            (content_lem b j).0,
            copied j,
            size,
            (content_lem (compacted b) 0).1,
            v.fits,
            v.room,
          )),
    )

content-empty : (b : Buffer) → b.start ≡ b.fin → content b ≡ []
content-empty b e = let none_left : b.fin - b.start ≡ 0 = omega (arith, e) in rw none_left refl

emptied_lem : (b : Buffer) → IsBuffer b → IsBuffer (record b { start = 0; fin = 0 })
emptied_lem b v = record {
  room = v.room;
  ordered = omega arith;
  fits = omega arith;
  fresh = λ q. refl;
}

buffer_compact_lem :
    (b : Buffer)
    → IsBuffer b
    → IsBuffer (buffer_compact b) × (content (buffer_compact b) ≡ content b)
unfolding buffer_compact
buffer_compact_lem b v = elim (Bool-cases (ltb 0 b.start && not (b.start == b.fin))) [
  | inl e ↦ rw e (compacted_lem b v)
  | inr e ↦ elim (Bool-cases (b.start == b.fin)) [
    | inl q ↦ rw e (rw q ((emptied_lem b v, sym (content-empty b (ground (arith, q))))))
    | inr q ↦ rw e (rw q ((v, refl)))
  ]
]

-- Appending bytes that fit.
abbrev filled : Buffer → List ℕ → Buffer
filled b vs = record b { bytes = copy_to b.bytes b.fin vs; fin = b.fin + length vs }

filled_lem :
    (b : Buffer) (vs : List ℕ)
    → IsBuffer b
    → b.fin + length vs ≤ inf_buffer_cap
    → 0 < length vs
    → IsBuffer (filled b vs) × (content (filled b vs) ≡ content b ++ vs)
filled_lem b vs v h some_vs =
    let copied = λ (j : ℕ). get_or-copy_to b.bytes b.fin vs j (omega (arith, v.room)) in
    (
      record {
        room = (copied 0).1 ∙ v.room;
        ordered = omega (arith, v.ordered);
        fits = h;
        fresh = λ q. omega (arith, q, v.ordered);
      },
      get_or_ext 0 (content (filled b vs)) (content b ++ vs)
          (omega (
            arith,
            (content_lem b 0).1,
            length-append (content b) vs,
            (content_lem (filled b vs) 0).1,
            (copied 0).1,
            v.fits,
            v.room,
            v.ordered,
          ))
          (λ j p. ground (
            arith,
            (content_lem (filled b vs) j).0,
            content_lem b j,
            get_or-append (content b) vs j 0,
            copied (b.start + j),
            (content_lem (filled b vs) 0).1,
            v.fits,
            v.room,
            v.ordered,
          )),
    )

-- Taking bytes from the front.
abbrev advanced : Buffer → ℕ → Buffer
advanced b n = record b { start = b.start + n }

content-advanced :
    (b : Buffer) (n : ℕ)
    → n ≤ b.fin - b.start
    → content b ≡ take n (content b) ++ content (advanced b n)
content-advanced b n h =
    get_or_ext 0 (content b) (take n (content b) ++ content (advanced b n))
      (omega (
        arith,
        length-append (take n (content b)) (content (advanced b n)),
        length-take n (content b),
        (content_lem b 0).1,
        (content_lem (advanced b n) 0).1,
      ))
      (λ j p. ground (
        arith,
        get_or-append (take n (content b)) (content (advanced b n)) j 0,
        length-take n (content b),
        (content_lem b 0).1,
        (content_lem b j).0,
        get_or-take n (content b) j,
        (content_lem (advanced b n) (j - n)).0,
      ))

-- What a read leaves in its result: the bytes that it took from the socket stand behind those of
-- the buffer.
abbrev pub IsRead : Buffer → Rc × Buffer × ℕ × List ℕ → Type 0
IsRead b (rc, b', m', vs) = IsBuffer b' × (content b' ≡ content b ++ vs)

-- What a write leaves: the bytes that it gave to the socket were at the front of the buffer.
abbrev pub IsWritten : Buffer → Rc × Buffer × List ℕ → Type 0
IsWritten b (rc, b', vs) = IsBuffer b' × (content b ≡ vs ++ content b')

-- A read that changes nothing but the place of the bytes.
same-IsRead :
    (b c : Buffer) (rc : Rc) (m : ℕ) → IsBuffer c → content c ≡ content b → IsRead b (rc, c, m, [])
same-IsRead b c rc m v e = (v, e ∙ sym (append-nil (content b)))

after_recv-IsRead :
    (b c : Buffer) (m : ℕ) (answer : Recv)
    → IsBuffer c
    → content c ≡ content b
    → IsRead b (after_recv c m answer)
unfolding after_recv buffer_space
after_recv-IsRead b c m Recv.again v e = same-IsRead b c idle m v e
after_recv-IsRead b c m Recv.failed v e = same-IsRead b c broken m v e
after_recv-IsRead b c m (Recv.got vs) v e =
    let read = take (inf_buffer_cap - c.fin) vs in
    let size = length-take (inf_buffer_cap - c.fin) vs in
    elim (Bool-cases (length read == 0)) [
      | inl q ↦ rw q (same-IsRead b c eof m v e)
      | inr q ↦
          let (w, f) = filled_lem c read v (omega (arith, size, v.fits)) (ground (arith, q)) in
          rw q ((w, rw e at f))
    ]

pub relay_read_lem :
    (answer : Recv) (b : Buffer) (m : ℕ) → IsBuffer b → IsRead b (relay_read_into_buffer answer b m)
unfolding relay_read_into_buffer
relay_read_lem answer b m v =
    let c = buffer_compact b in
    let (w, e) = buffer_compact_lem b v in
    elim (Bool-cases (buffer_space c == 0)) [
      | inl q ↦ rw q (same-IsRead b c idle m w e)
      | inr q ↦ rw q (after_recv-IsRead b c m answer w e)
    ]

after_send-IsWritten :
    (b : Buffer) (answer : Send) → IsBuffer b → b.start < b.fin → IsWritten b (after_send b answer)
unfolding after_send buffer_size
after_send-IsWritten b Send.again v h = (v, refl)
after_send-IsWritten b Send.failed v h = (v, refl)
after_send-IsWritten b (Send.taken m) v h =
    let n = min m (b.fin - b.start) in
    let parts = content-advanced b n (omega arith) in
    elim (Bool-cases (n == 0)) [
      | inl q ↦ rw q (v, refl)
      | inr q ↦ elim (Bool-cases (b.start + n == b.fin)) [
        | inl r ↦
            let none_left = content-empty (advanced b n) (ground (arith, r)) in
            rw q (rw r (emptied_lem b v, rw none_left at parts))
        | inr r ↦ rw q (
            rw r (
              record {
                room = v.room;
                ordered = omega arith;
                fits = v.fits;
                fresh = λ p. absurd (ground (arith, p, r));
              },
              parts,
            ))
      ]
    ]

pub relay_write_lem :
    (answer : Send) (b : Buffer) → IsBuffer b → IsWritten b (relay_write_from_buffer answer b)
unfolding relay_write_from_buffer buffer_empty
relay_write_lem answer b v = elim (Bool-cases (b.start == b.fin)) [
  | inl e ↦ rw e (v, refl)
  | inr e ↦ rw e (after_send-IsWritten b answer v (ground (arith, e, v.ordered)))
]
