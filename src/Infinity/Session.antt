-- ===== src/Infinity/Session.antt =====
-- A session of infinity.c: two peers, two buffers, and what one event does to them.
pub mod Flow
pub mod Ends
pub mod Frame
pub mod Drain
pub mod Integrity
pub mod Progress
use ryzen_build.Base.{ℕ, ◌+◌, ltb, ◌==◌, ◌&&◌, ◌||◌, not, if◌then◌else◌, u64}
use ryzen_build.Base.{Bool, true, false, List, [], ◌++◌, Option, none, some}
use ryzen_build.Infinity.Buffer.{Buffer, empty_buffer, buffer_empty, buffer_space, Recv, Send, Rc}
use ryzen_build.Infinity.Buffer.{moved, idle, broken, eof}
use ryzen_build.Infinity.Buffer.{relay_read_into_buffer, relay_write_from_buffer}

-- The sides 0 and 1 of the source.
pub data Side : Type 0 where
  client_side : Side
  upstream_side : Side

-- `none` stands for the descriptor -1.
pub record Peer : Type 0 where
  pub fd : Option ℕ
  pub read_eof : Bool
  pub write_shutdown : Bool
  pub connecting : Bool

-- A set of epoll events.
pub record Events : Type 0 where
  pub epollin : Bool
  pub epollout : Bool
  pub epollerr : Bool
  pub epollhup : Bool
  pub epollrdhup : Bool

-- What has gone over the two sockets, which the code does not keep: bytes that were read from a
-- peer, and bytes that were sent to it.
pub record Wire : Type 0 where
  pub from_client : List ℕ
  pub to_upstream : List ℕ
  pub from_upstream : List ℕ
  pub to_client : List ℕ

-- `struct Session` without its link, and beside it the wire and the two sets of events that
-- epoll holds for it.
pub record Session : Type 0 where
  pub id : ℕ
  pub created_at : ℕ
  pub last_activity : ℕ
  pub client_addr : List ℕ
  pub client : Peer
  pub upstream : Peer
  pub to_upstream : Buffer
  pub to_client : Buffer
  pub wire : Wire
  pub client_interest : Events
  pub upstream_interest : Events

pub record Metrics : Type 0 where
  pub accepted : ℕ
  pub rejected : ℕ
  pub active : ℕ
  pub closed : ℕ
  pub upstream_connect_fail : ℕ
  pub bytes_c2u : ℕ
  pub bytes_u2c : ℕ
  pub read_errors : ℕ
  pub write_errors : ℕ
  pub idle_kills : ℕ

unfoldable pub peer_shutdown_write : Peer → Peer
peer_shutdown_write p = elim p.fd [
  | none ↦ p
  | some fd ↦ if not p.write_shutdown then record p { write_shutdown = true } else p
]

unfoldable pub session_events_for_side : Session → Side → Events
session_events_for_side s client_side = record {
  epollin = not s.client.read_eof && ltb 0 (buffer_space s.to_upstream);
  epollout = not (buffer_empty s.to_client);
  epollerr = true;
  epollhup = true;
  epollrdhup = true;
}
session_events_for_side s upstream_side = record {
  epollin =
      not s.upstream.connecting && (not s.upstream.read_eof && ltb 0 (buffer_space s.to_client));
  epollout = s.upstream.connecting || not (buffer_empty s.to_upstream);
  epollerr = true;
  epollhup = true;
  epollrdhup = true;
}

-- `epoll_mod` of a descriptor that is there.
abbrev pub modified : Option ℕ → Events → Events → Events
modified none new old = old
modified (some fd) new old = new

unfoldable pub session_refresh_interest : Session → Session
session_refresh_interest s = record s {
  client_interest = modified s.client.fd (session_events_for_side s client_side) s.client_interest;
  upstream_interest =
      modified s.upstream.fd (session_events_for_side s upstream_side) s.upstream_interest;
}

unfoldable pub session_fully_done : Session → Bool
session_fully_done s =
    s.client.read_eof
    && (s.upstream.read_eof && (buffer_empty s.to_upstream && buffer_empty s.to_client))

unfoldable pub session_consider_half_close : Session → Session
session_consider_half_close s = record s {
  upstream =
      if s.client.read_eof && buffer_empty s.to_upstream
      then peer_shutdown_write s.upstream
      else s.upstream;
  client =
      if s.upstream.read_eof && buffer_empty s.to_client
      then peer_shutdown_write s.client
      else s.client;
}

-- What the system answers during one event: the time, whether `getsockopt` finds the connection
-- made, and the answers of `recv` and `send`.
pub record Answers : Type 0 where
  pub now : ℕ
  pub connected : Bool
  pub received : Recv
  pub sent : Send

-- A step of `handle_side_io` goes on, or returns false.
pub data Stage : Type 0 where
  go : Session → Metrics → Stage
  stop : Session → Metrics → Stage

abbrev pub and_then : Stage → (Session → Metrics → Stage) → Stage
and_then (go s m) f = f s m
and_then (stop s m) f = stop s m

-- `handle_connect_complete`, where the upstream is connecting and can be written to.
unfoldable pub connect_stage : Side → Events → Bool → Session → Metrics → Stage
connect_stage client_side ev connected s m = go s m
connect_stage upstream_side ev connected s m =
    if s.upstream.connecting && ev.epollout
    then (if connected
        then go (record s { upstream = record (s.upstream) { connecting = false } }) m
        else stop s (record m { upstream_connect_fail = u64 (m.upstream_connect_fail + 1) }))
    else go s m

-- The result of the read: `read_eof` is set at the end of the stream, and an error stops.
abbrev pub read_result : Side → Rc → Session → Metrics → Stage
read_result side broken s m = stop s (record m { read_errors = u64 (m.read_errors + 1) })
read_result client_side eof s m = go (record s { client = record (s.client) { read_eof = true } }) m
read_result upstream_side eof s m =
    go (record s { upstream = record (s.upstream) { read_eof = true } }) m
read_result side moved s m = go s m
read_result side idle s m = go s m

unfoldable pub read_stage : Side → Recv → Session → Metrics → Stage
read_stage client_side answer s m =
    let (rc, b, bytes, vs) = relay_read_into_buffer answer s.to_upstream m.bytes_c2u in
    read_result client_side rc
      (record s {
        to_upstream = b;
        wire = record (s.wire) { from_client = s.wire.from_client ++ vs };
      })
      (record m { bytes_c2u = bytes })
read_stage upstream_side answer s m =
    let (rc, b, bytes, vs) = relay_read_into_buffer answer s.to_client m.bytes_u2c in
    read_result upstream_side rc
      (record s {
        to_client = b;
        wire = record (s.wire) { from_upstream = s.wire.from_upstream ++ vs };
      })
      (record m { bytes_u2c = bytes })

-- EPOLLRDHUP
unfoldable pub ended_stage : Side → Session → Session
ended_stage client_side s = record s { client = record (s.client) { read_eof = true } }
ended_stage upstream_side s = record s { upstream = record (s.upstream) { read_eof = true } }

abbrev pub write_result : Rc → Session → Metrics → Stage
write_result broken s m = stop s (record m { write_errors = u64 (m.write_errors + 1) })
write_result eof s m = stop s (record m { write_errors = u64 (m.write_errors + 1) })
write_result moved s m = go s m
write_result idle s m = go s m

unfoldable pub write_stage : Side → Send → Session → Metrics → Stage
write_stage client_side answer s m =
    let (rc, b, vs) = relay_write_from_buffer answer s.to_client in
    write_result rc
      (record s { to_client = b; wire = record (s.wire) { to_client = s.wire.to_client ++ vs } }) m
write_stage upstream_side answer s m =
    let (rc, b, vs) = relay_write_from_buffer answer s.to_upstream in
    if s.upstream.connecting
    then go s m
    else write_result rc
        (record s {
          to_upstream = b;
          wire = record (s.wire) { to_upstream = s.wire.to_upstream ++ vs };
        })
        m

-- The end of `handle_side_io`: half-closes, and whether the session is kept.
unfoldable pub settle : Session → Metrics → Bool × Session × Metrics
settle s m =
    let s' = session_consider_half_close s in
    if session_fully_done s' then (false, s', m) else (true, session_refresh_interest s', m)

abbrev pub settled : Stage → Bool × Session × Metrics
settled (stop s m) = (false, s, m)
settled (go s m) = settle s m

-- The steps of `handle_side_io` after the test for errors.
unfoldable pub io_stages : Side → Events → Answers → Session → Metrics → Stage
io_stages side ev a s m = and_then (connect_stage side ev a.connected s m) (λ s1 m1.
    and_then (if ev.epollin then read_stage side a.received s1 m1 else go s1 m1) (λ s2 m2.
      let s3 = if ev.epollrdhup then ended_stage side s2 else s2 in
      if ev.epollout then write_stage side a.sent s3 m2 else go s3 m2))

-- Whether the session is kept, with its state and the counters after the event.
unfoldable pub handle_side_io :
    Side → Events → Answers → Session → Metrics → Bool × Session × Metrics
unfolding settle
handle_side_io side ev a s m =
    let s' = record s { last_activity = a.now } in
    if ev.epollerr || ev.epollhup then (false, s', m) else settled (io_stages side ev a s' m)
