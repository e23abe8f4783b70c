-- ===== src/Infinity/Tests.antt =====
-- Tests of the model of infinity.c, and the theorems at concrete inputs.
use ryzen_build.Base.{ltb}
use ryzen_build.Caustic.StrBuf.{StrBuf, Memory}
use ryzen_build.Infinity.Envelope.{fnv1a64, fnv_loop}
use ryzen_build.Infinity.Sockets.{
  Candidate, set_nonblocking, bind_round, connect_round, connect_nonblocking_upstream,
  resolve_and_bind_listener,
}
use ryzen_build.Infinity.Sockets.Open.{IsLeft, with_left, sockets_lem}
use ryzen_build.Base.{
  ℕ, ◌≤◌, ◌≡◌, ◌↔◌, refl, arith, Bool, true, false, List, [], ◌∷◌, some, bytes, ◌||◌, same_text,
  strrchr,
}
use ryzen_build.Infinity.Buffer.{
  Recv, Send, inf_buffer_cap, buffer_size, empty_buffer, relay_read_into_buffer, buffer_space,
  buffer_compact, after_recv, relay_write_from_buffer, buffer_empty,
}
use ryzen_build.Infinity.Session.{
  Side, client_side, upstream_side, Events, Session, Answers, handle_side_io,
}
use ryzen_build.Infinity.Session.{
  io_stages, connect_stage, read_stage, write_stage, session_fully_done,
  session_consider_half_close, session_refresh_interest,
}
use ryzen_build.Infinity.Session.Integrity.{IsRelay, ended_at, handle_side_io-IsRelay}
use ryzen_build.Infinity.Session.Progress.{asks, handle_side_io-progress}
use ryzen_build.Infinity.Session.Drain.{client_sends, client_sends-drained}
use ryzen_build.Infinity.Proxy.{
  Proxy, Limits, Connection, peer, start, zero_metrics, new_session, put, Reported, handle_batch,
  close_all_sessions, accept_one,
}
use ryzen_build.Infinity.Proxy.Accept.{IsFresh}
use ryzen_build.Infinity.Proxy.Accept.Outcome.{Outcome, added_session, accept_one-Outcome}
use ryzen_build.Infinity.Proxy.Served.{added-IsServed}
use ryzen_build.Infinity.Proxy.Steps.{IsSafe}
use ryzen_build.Infinity.Proxy.Steps.Batch.{AllDelivered}
use ryzen_build.Infinity.Proxy.Steps.Ends.{
  batch, Reach, started, next, Reach-IsSafe, close_all_sessions_lem,
}
use ryzen_build.Infinity.Config.{
  ProxyConfig, config_init, parse_host_port, parse_args, args_loop, next_place, opt_of, set_value,
  host_port_at,
}
use ryzen_build.Infinity.Config.HostPort.{IsHostPort, parse_host_port_iff}
use ryzen_build.Infinity.Config.Accepted.{IsConfig, parse_args-IsConfig}

abbrev limits : Limits
limits = record { max_connections = 2; idle_timeout_sec = 120 }

abbrev input : Events
input = record {
  epollin = true;
  epollout = false;
  epollerr = false;
  epollhup = false;
  epollrdhup = false;
}

abbrev both_ways : Events
both_ways = record {
  epollin = true;
  epollout = true;
  epollerr = false;
  epollhup = false;
  epollrdhup = false;
}

abbrev answers : Answers
answers = record {
  now = 100;
  connected = true;
  received = Recv.got (7 ∷ 8 ∷ []);
  sent = Send.taken 1;
}

abbrev connection : Connection
connection = record {
  cfd = 4;
  nonblocking = true;
  alloc = true;
  now = 99;
  client_addr = bytes "a";
  ufd = some 5;
  client_ctx = true;
  upstream_ctx = true;
  client_added = true;
  upstream_added = true;
}

connection-IsFresh : IsFresh connection (start 3)
unfolding start put
connection-IsFresh = record {
  new_cfd = refl;
  new_ufd = λ u e. ground (arith, e);
  id_left = omega arith;
}

-- A connection is accepted, and a stale event has the number that its socket gets.
abbrev events : List Reported
events =
    record { fd = 3; events = input; accepted = connection ∷ []; answers = answers }
    ∷ record { fd = 4; events = input; accepted = []; answers = answers }
    ∷ []

abbrev one_session : Proxy
one_session = handle_batch limits events (start 3)

delivered : AllDelivered (start 3) events
unfolding start put
delivered = (
  (λ id side s e f h. absurd (ground (arith, e))),
  ((λ id side s e f h. absurd (ground (arith, e))), tt),
)

reached : Reach limits 3 one_session
reached = next started (
    batch events (start 3) (omega arith) (((λ e. ground (arith, e)), tt), (tt, tt))
      ((connection-IsFresh, tt), (tt, tt)) delivered)

Reach-IsSafe_example : IsSafe 3 limits one_session
Reach-IsSafe_example = Reach-IsSafe limits 3 one_session (omega arith) (omega arith) reached

close_all_sessions_lem_example :
    let q = close_all_sessions one_session in
    (q.sessions ≡ [])
    × (q.metrics.active ≡ 0)
    × ((fd id : ℕ) (side : Side) → ¬ (q.fd_map fd ≡ some (peer id side)))
close_all_sessions_lem_example =
    close_all_sessions_lem 3 limits one_session (omega arith)
      (Reach-IsSafe limits 3 one_session (omega arith) (omega arith) reached)

accept_one-Outcome_example : Outcome connection (start 3) (accept_one limits connection (start 3))
accept_one-Outcome_example =
    accept_one-Outcome (Reach-IsSafe limits 3 (start 3) (omega arith) (omega arith) started).proxy
      limits connection connection-IsFresh

abbrev session : Session
session = added_session connection 5 (start 3)

session-IsRelay : IsRelay session
session-IsRelay = (added-IsServed connection 5 (start 3)).relay

not_ended : (side : Side) → ended_at side session ≡ false
unfolding new_session
not_ended client_side = refl
not_ended upstream_side = refl

kept : (handle_side_io client_side input answers session zero_metrics).0 ≡ true
unfolding handle_side_io io_stages connect_stage read_stage relay_read_into_buffer buffer_space
    inf_buffer_cap buffer_compact new_session empty_buffer after_recv session_fully_done
    session_consider_half_close
kept = refl

handle_side_io-progress_example :
    let s = (handle_side_io client_side input answers session zero_metrics).1 in
    (asks s.client_interest || asks s.upstream_interest) ≡ true
handle_side_io-progress_example =
    handle_side_io-progress client_side input answers session zero_metrics 4 5 refl refl
      (λ e. not_ended client_side) session-IsRelay kept

-- The session with two bytes of the upstream that wait for the client.
abbrev filled : Session
filled = (handle_side_io upstream_side both_ways answers session zero_metrics).1

filled-IsRelay : IsRelay filled
filled-IsRelay =
    handle_side_io-IsRelay upstream_side both_ways answers session zero_metrics
      (λ e. not_ended upstream_side) session-IsRelay

filled-size : (buffer_size filled.to_client ≡ 2) × (buffer_size filled.to_upstream ≡ 0)
unfolding handle_side_io buffer_size io_stages connect_stage read_stage relay_read_into_buffer
    buffer_space inf_buffer_cap buffer_compact new_session empty_buffer after_recv write_stage
    relay_write_from_buffer buffer_empty session_fully_done session_consider_half_close
    session_refresh_interest
filled-size = (refl, refl)

some_room : 2 ≤ inf_buffer_cap
unfolding inf_buffer_cap
some_room = omega arith

client_sends-drained_example :
    (client_sends (answers ∷ answers ∷ []) filled zero_metrics).1.wire.to_client
    ≡ filled.wire.from_upstream
client_sends-drained_example =
    client_sends-drained (answers ∷ answers ∷ []) filled zero_metrics
      ((1, omega arith, refl), ((1, omega arith, refl), tt)) (omega (arith, filled-size))
      filled-IsRelay

parse_host_port_iff_example :
    (parse_host_port (bytes "a:b:80") 256 32 ≡ some (bytes "a:b", bytes "80"))
    ↔ IsHostPort (bytes "a:b:80") 256 32 (bytes "a:b") (bytes "80")
parse_host_port_iff_example = parse_host_port_iff (bytes "a:b:80") (bytes "a:b") (bytes "80") 256 32

parse_host_port_test : parse_host_port (bytes "a:b:80") 256 32 ≡ some (bytes "a:b", bytes "80")
unfolding parse_host_port strrchr host_port_at
parse_host_port_test = refl

abbrev argv : List (List ℕ)
argv = bytes "--listen" ∷ bytes "h:1" ∷ bytes "--no-delta-link" ∷ []

abbrev accepted : ProxyConfig
accepted = record config_init {
  listen_host = bytes "h";
  listen_port = bytes "1";
  delta_link_on_close = false;
}

parse_args_test : parse_args config_init argv ≡ some accepted
unfolding parse_args args_loop next_place opt_of same_text set_value parse_host_port strrchr
    host_port_at
parse_args_test = refl

parse_args-IsConfig_example : IsConfig accepted
parse_args-IsConfig_example = parse_args-IsConfig argv accepted parse_args_test

-- The first address gives no connection, the second one does.
abbrev refused : Candidate
refused = record {
  fd = some 7;
  get_flags = true;
  set_flags = true;
  bound = true;
  listening = false;
  connected = false;
  in_progress = false;
}

abbrev addresses : List Candidate
addresses = refused ∷ record refused { fd = some 8; listening = true; in_progress = true } ∷ []

abbrev nothing_open : ℕ → Bool
nothing_open d = false

sockets_lem_example :
    IsLeft (some 8) nothing_open (connect_nonblocking_upstream (some addresses) nothing_open)
    × ((opened' : ℕ → Bool) × (resolve_and_bind_listener (some addresses) nothing_open
          ≡ some (8, opened'))
        × ((d : ℕ) → opened' d ≡ with_left (some 8) nothing_open d))
unfolding connect_round bind_round set_nonblocking
sockets_lem_example = sockets_lem addresses nothing_open ((λ fd e. refl), ((λ fd e. refl), tt))

abbrev memory : Memory
memory = record { gives = (λ n. ltb n 1000000); junk = (λ i. 255) }

abbrev empty : StrBuf
empty = record { chars = (λ i. 0); len = 0; size = 4 }

-- The hash of the empty text.
hash_test : fnv1a64 [] ≡ 1469598103934665603
unfolding fnv1a64 fnv_loop
hash_test = refl
