-- ===== src/Infinity/Sockets/Open.antt =====
-- Which sockets of infinity.c are open after the addresses of a name have been tried.
use ryzen_build.Base.{ℕ, ◌≡◌, refl, ap, ◌∙◌, arith, ◌==◌, if◌then◌else◌}
use ryzen_build.Base.{◌&&◌, ◌||◌, Bool, true, false, List, [], ◌∷◌, Option, none, some}
use ryzen_build.Infinity.Proxy.{put}
use ryzen_build.Infinity.Sockets.{
  Candidate, Opened, close, set_nonblocking, bind_round, bind_loop, connect_round, connect_loop,
  connect_nonblocking_upstream, resolve_and_bind_listener, or_die,
}

-- The answers that keep a descriptor.
abbrev pub can_listen : Candidate → Bool
can_listen c = c.bound && (c.get_flags && (c.set_flags && c.listening))

abbrev pub can_connect : Candidate → Bool
can_connect c = c.get_flags && (c.set_flags && (c.connected || c.in_progress))

-- The first descriptor whose calls succeed, as a description without the loops.
abbrev pub first_of : (Candidate → Bool) → List Candidate → Option ℕ
first_of good [] = none
first_of good (c ∷ rest) = elim c.fd [
  | none ↦ first_of good rest
  | some fd ↦ if good c then some fd else first_of good rest
]

-- What is open, if `left` is opened beside what was.
abbrev pub with_left : Option ℕ → Opened → Opened
with_left none opened d = opened d
with_left (some fd) opened d = if fd == d then true else opened d

-- `socket` gives descriptors that are not open.
abbrev pub AreClosed : List Candidate → Opened → Type 0
AreClosed [] opened = Unit
AreClosed (c ∷ rest) opened =
    ((fd : ℕ) → c.fd ≡ some fd → opened fd ≡ false) × AreClosed rest opened

-- The result of a loop, and nothing else left open.
pub record IsLeft (found : Option ℕ) (opened : Opened) (r : Option ℕ × Opened) : Type 0 where
  pub result : r.0 ≡ found
  pub only : (d : ℕ) → r.1 d ≡ with_left found opened d

closed_again :
    (fd : ℕ) (opened : Opened) (d : ℕ)
    → opened fd ≡ false
    → close fd (put opened fd true) d ≡ opened d
unfolding put
closed_again fd opened d h = ground (arith, h)

still_closed :
    (cs : List Candidate) (opened opened' : Opened)
    → ((d : ℕ) → opened' d ≡ opened d)
    → AreClosed cs opened
    → AreClosed cs opened'
still_closed [] opened opened' same h = tt
still_closed (c ∷ rest) opened opened' same (h, hs) =
    ((λ fd e. same fd ∙ h fd e), still_closed rest opened opened' same hs)

with_left_ext :
    (found : Option ℕ) (opened opened' : Opened) (d : ℕ)
    → opened' d ≡ opened d
    → with_left found opened' d ≡ with_left found opened d
with_left_ext none opened opened' d e = e
with_left_ext (some fd) opened opened' d e = ap (λ (b : Bool). if fd == d then true else b) e

-- One address, whose socket may have failed.
round-IsLeft :
    (b : Bool) (found : Option ℕ) (loop : Opened → Option ℕ × Opened)
    (round : ℕ → Opened → Option ℕ × Opened) (rest : List Candidate) (opened : Opened)
    (o : Option ℕ)
    → ((fd : ℕ) → o ≡ some fd → opened fd ≡ false)
    → AreClosed rest opened
    → ((fd : ℕ) (before : Opened)
        → round fd before ≡ (if b then (some fd, before) else loop (close fd before)))
    → ((opened' : Opened) → AreClosed rest opened' → IsLeft found opened' (loop opened'))
    → IsLeft
        (elim o as (λ x. Option ℕ) [ none ↦ found | some fd ↦ if b then some fd else found ])
        opened
        (elim o as (λ x. Option ℕ × Opened) [
          | none ↦ loop opened
          | some fd ↦ round fd (put opened fd true)
        ])
unfolding put
round-IsLeft b found loop round rest opened none k hs e ih = ih opened hs
round-IsLeft true found loop round rest opened (some fd) k hs e ih =
    rw (e fd (put opened fd true)) (record { result = refl; only = λ d. refl })
round-IsLeft false found loop round rest opened (some fd) k hs e ih =
    let before = close fd (put opened fd true) in
    let same : (d : ℕ) → before d ≡ opened d = λ d. closed_again fd opened d (k fd refl) in
    let later = ih before (still_closed rest opened before same hs) in
    rw (e fd (put opened fd true)) (record {
      result = later.result;
      only = λ d. later.only d ∙ with_left_ext found opened before d (same d);
    })

bind_round_lem :
    (c : Candidate) (fd : ℕ) (opened : Opened) (more : Opened → Option ℕ × Opened)
    → bind_round c fd opened more
      ≡ (if can_listen c then (some fd, opened) else more (close fd opened))
unfolding bind_round set_nonblocking
bind_round_lem c fd opened more = ground arith

connect_round_lem :
    (c : Candidate) (fd : ℕ) (opened : Opened) (more : Opened → Option ℕ × Opened)
    → connect_round c fd opened more
      ≡ (if can_connect c then (some fd, opened) else more (close fd opened))
unfolding connect_round set_nonblocking
connect_round_lem c fd opened more = ground arith

bind_loop-IsLeft :
    (cs : List Candidate) (opened : Opened)
    → AreClosed cs opened
    → IsLeft (first_of can_listen cs) opened (bind_loop cs opened)
unfolding bind_loop
bind_loop-IsLeft [] opened h = record { result = refl; only = λ d. refl }
bind_loop-IsLeft (c ∷ rest) opened (h, hs) =
    round-IsLeft (can_listen c) (first_of can_listen rest) (bind_loop rest)
      (λ fd before. bind_round c fd before (bind_loop rest)) rest opened c.fd h hs
      (λ fd before. bind_round_lem c fd before (bind_loop rest)) (bind_loop-IsLeft rest)

connect_loop-IsLeft :
    (cs : List Candidate) (opened : Opened)
    → AreClosed cs opened
    → IsLeft (first_of can_connect cs) opened (connect_loop cs opened)
unfolding connect_loop
connect_loop-IsLeft [] opened h = record { result = refl; only = λ d. refl }
connect_loop-IsLeft (c ∷ rest) opened (h, hs) =
    round-IsLeft (can_connect c) (first_of can_connect rest) (connect_loop rest)
      (λ fd before. connect_round c fd before (connect_loop rest)) rest opened c.fd h hs
      (λ fd before. connect_round_lem c fd before (connect_loop rest)) (connect_loop-IsLeft rest)

-- Whatever the calls answer for each address, if `socket` gives descriptors that are not open: the
-- connection to the upstream has the first descriptor that could be made nonblocking and whose
-- `connect` has succeeded or is in progress, or none, and no other socket is left open; and where the
-- listener is set up, which it is exactly if some descriptor could be bound, made nonblocking and
-- listened on, it has the first such and no other socket is left open.
pub sockets_lem :
    (res : List Candidate) (opened : Opened)
    → AreClosed res opened
    → IsLeft (first_of can_connect res) opened (connect_nonblocking_upstream (some res) opened)
      × ((opened' : Opened) × (resolve_and_bind_listener (some res) opened
            ≡ or_die (first_of can_listen res, opened'))
          × ((d : ℕ) → opened' d ≡ with_left (first_of can_listen res) opened d))
unfolding connect_nonblocking_upstream resolve_and_bind_listener
sockets_lem res opened h =
    let bound = bind_loop-IsLeft res opened h in
    let tried = bind_loop res opened in
    (
      connect_loop-IsLeft res opened h,
      (tried.1, ap (λ (o : Option ℕ). or_die (o, tried.1)) bound.result, bound.only),
    )
