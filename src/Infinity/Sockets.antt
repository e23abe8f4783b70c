-- ===== src/Infinity/Sockets.antt =====
-- The sockets of infinity.c: `set_nonblocking`, `resolve_and_bind_listener` and
-- `connect_nonblocking_upstream`, with the answers of the system for each address.
pub mod Open
use ryzen_build.Base.{
  ℕ, ◌&&◌, ◌||◌, if◌then◌else◌, Bool, true, false, List, [], ◌∷◌, Option, none, some,
}
use ryzen_build.Infinity.Proxy.{put}

-- What the system answers for one address: the descriptor of `socket`, whether the two calls of
-- `fcntl`, `bind` and `listen` succeed, and whether `connect` does or is in progress.
pub record Candidate : Type 0 where
  pub fd : Option ℕ
  pub get_flags : Bool
  pub set_flags : Bool
  pub bound : Bool
  pub listening : Bool
  pub connected : Bool
  pub in_progress : Bool

-- Which descriptors are open.
abbrev pub Opened : Type 0
Opened = ℕ → Bool

abbrev pub close : ℕ → Opened → Opened
close fd opened = put opened fd false

-- Whether it returns 0.
unfoldable pub set_nonblocking : Candidate → Bool
set_nonblocking c = if c.get_flags then c.set_flags else false

-- A round of the loop in `resolve_and_bind_listener` with a descriptor, which is closed in each of the
-- three branches that go on with `more`.
unfoldable pub bind_round :
    Candidate → ℕ → Opened → (Opened → Option ℕ × Opened) → Option ℕ × Opened
bind_round c fd opened more =
    let unbound = more (close fd opened) in
    let blocking = more (close fd opened) in
    let not_listening = more (close fd opened) in
    if c.bound
    then (if set_nonblocking c
        then (if c.listening then (some fd, opened) else not_listening)
        else blocking)
    else unbound

-- The descriptor that is left, and the open ones.
unfoldable pub bind_loop : List Candidate → Opened → Option ℕ × Opened
bind_loop [] opened = (none, opened)
bind_loop (c ∷ rest) opened = elim c.fd [
  | none ↦ bind_loop rest opened
  | some fd ↦ bind_round c fd (put opened fd true) (bind_loop rest)
]

-- A round of the loop in `connect_nonblocking_upstream`, which closes it in two branches.
unfoldable pub connect_round :
    Candidate → ℕ → Opened → (Opened → Option ℕ × Opened) → Option ℕ × Opened
connect_round c fd opened more =
    let blocking = more (close fd opened) in
    let unconnected = more (close fd opened) in
    if set_nonblocking c
    then (if c.connected || c.in_progress then (some fd, opened) else unconnected)
    else blocking

unfoldable pub connect_loop : List Candidate → Opened → Option ℕ × Opened
connect_loop [] opened = (none, opened)
connect_loop (c ∷ rest) opened = elim c.fd [
  | none ↦ connect_loop rest opened
  | some fd ↦ connect_round c fd (put opened fd true) (connect_loop rest)
]

abbrev pub or_die : Option ℕ × Opened → Option (ℕ × Opened)
or_die (none, opened) = none
or_die (some fd, opened) = some (fd, opened)

-- The addresses are those of `getaddrinfo`, `none` where it fails. `none` where the program dies.
unfoldable pub resolve_and_bind_listener : Option (List Candidate) → Opened → Option (ℕ × Opened)
resolve_and_bind_listener none opened = none
resolve_and_bind_listener (some res) opened = or_die (bind_loop res opened)

-- The descriptor is `none` where it returns -1.
unfoldable pub connect_nonblocking_upstream : Option (List Candidate) → Opened → Option ℕ × Opened
connect_nonblocking_upstream none opened = (none, opened)
connect_nonblocking_upstream (some res) opened = connect_loop res opened
