-- ===== src/Infinity/Proxy.antt =====
-- The proxy of infinity.c: the sessions, the registry of descriptors, and the events of the loop.
pub mod Sessions
pub mod Registry
pub mod Accept
pub mod Served
pub mod Steps
use ryzen_build.Base.{ℕ, ◌+◌, ◌-◌, ◌^◌, ltb, leb, ◌==◌, ◌&&◌, ◌||◌, not, if◌then◌else◌, u32, u64}
use ryzen_build.Base.{Bool, true, false, List, [], ◌∷◌, Option, none, some}
use ryzen_build.Infinity.Buffer.{empty_buffer}
use ryzen_build.Infinity.Session.{
  Side, client_side, upstream_side, Peer, Events, Session, Wire, Metrics, Answers,
}
use ryzen_build.Infinity.Session.{session_events_for_side, handle_side_io}

abbrev pub inf_fd_map_cap : ℕ
inf_fd_map_cap = 65536

-- `struct FdCtx`: the listener, or a side of a session, which its id stands for.
pub data FdCtx : Type 0 where
  listener : FdCtx
  peer : ℕ → Side → FdCtx

-- `ProxyConfig`, as far as the loop reads it. An `int` is its word of 32 bits.
pub record Limits : Type 0 where
  pub max_connections : ℕ
  pub idle_timeout_sec : ℕ

-- The globals `g_fd_map`, `g_sessions`, `g_next_session_id` and `g_metrics`, and the descriptors
-- that the process has open.
pub record Proxy : Type 0 where
  pub fd_map : ℕ → Option FdCtx
  pub sessions : List Session
  pub next_session_id : ℕ
  pub metrics : Metrics
  pub opened : ℕ → Bool

unfoldable pub put {ℓ} : {A : Type ℓ} → (ℕ → A) → ℕ → A → ℕ → A
put f i x j = if i == j then x else f j

-- The comparison of two `int`s.
unfoldable pub int_leb : ℕ → ℕ → Bool
int_leb a b = leb (u32 (a + 2 ^ 31)) (u32 (b + 2 ^ 31))

unfoldable pub close : ℕ → Proxy → Proxy
close fd p = record p { opened = put p.opened fd false }

unfoldable pub unregister_fd_ctx : ℕ → Proxy → Proxy
unregister_fd_ctx fd p =
    if ltb fd inf_fd_map_cap then record p { fd_map = put p.fd_map fd none } else p

-- Whether it worked, with `alloc` for that of `malloc`.
unfoldable pub register_fd_ctx : Bool → ℕ → FdCtx → Proxy → Bool × Proxy
register_fd_ctx alloc fd ctx p =
    if leb inf_fd_map_cap fd
    then (false, p)
    else if alloc
    then (true, record p { fd_map = put p.fd_map fd (some ctx) })
    else (false, p)

abbrev pub no_peer : Peer
no_peer = record { fd = none; read_eof = false; write_shutdown = false; connecting = false }

abbrev pub no_events : Events
no_events = record {
  epollin = false;
  epollout = false;
  epollerr = false;
  epollhup = false;
  epollrdhup = false;
}

-- A session after `calloc`, with its id and the time.
unfoldable pub new_session : ℕ → ℕ → Session
new_session id now = record {
  id = id;
  created_at = now;
  last_activity = now;
  client_addr = [];
  client = no_peer;
  upstream = no_peer;
  to_upstream = empty_buffer;
  to_client = empty_buffer;
  wire = record { from_client = []; to_upstream = []; from_upstream = []; to_client = [] };
  client_interest = no_events;
  upstream_interest = no_events;
}

-- `session_create`, where `calloc` does not fail.
unfoldable pub session_create : ℕ → Proxy → Session × Proxy
session_create now p =
    let s = new_session p.next_session_id now in
    (
      s,
      record p {
        sessions = s ∷ p.sessions;
        next_session_id = u64 (p.next_session_id + 1);
        metrics = record (p.metrics) { active = u64 (p.metrics.active + 1) };
      },
    )

unfoldable pub find_session : List Session → ℕ → Option Session
find_session [] id = none
find_session (s ∷ rest) id = if s.id == id then some s else find_session rest id

-- What a write through the pointer to a session changes.
unfoldable pub store_session : Session → List Session → List Session
store_session s' [] = []
store_session s' (s ∷ rest) = if s.id == s'.id then s' ∷ rest else s ∷ store_session s' rest

unfoldable pub session_unlink : ℕ → List Session → List Session
session_unlink id [] = []
session_unlink id (s ∷ rest) = if s.id == id then rest else s ∷ session_unlink id rest

-- The end of a peer: `epoll_del`, `unregister_fd_ctx` and `close`.
unfoldable pub release : Option ℕ → Proxy → Proxy
release none p = p
release (some fd) p = close fd (unregister_fd_ctx fd p)

-- `session_destroy` of `s`, with the counters.
unfoldable pub session_destroy : Session → Proxy → Proxy
session_destroy s p =
    let q = release s.upstream.fd (release s.client.fd p) in
    record q {
      sessions = session_unlink s.id q.sessions;
      metrics = record (q.metrics) {
        closed = u64 (q.metrics.closed + 1);
        active = (if ltb 0 q.metrics.active then q.metrics.active - 1 else q.metrics.active);
      };
    }

unfoldable pub store : Session → Proxy → Proxy
store s p = record p { sessions = store_session s p.sessions }

-- What the system answers for one connection: the descriptor of the client, whether it and the
-- structures could be set up, the descriptor of the upstream if there is one, and the time.
pub record Connection : Type 0 where
  pub cfd : ℕ
  pub nonblocking : Bool
  pub alloc : Bool
  pub now : ℕ
  pub client_addr : List ℕ
  pub ufd : Option ℕ
  pub client_ctx : Bool
  pub upstream_ctx : Bool
  pub client_added : Bool
  pub upstream_added : Bool

-- `epoll_add` of both sides, or the end of the session.
unfoldable pub watch : Connection → Session → Proxy → Proxy
watch c s p =
    if not c.client_added || not c.upstream_added
    then session_destroy s p
    else store
        (record s {
          client_interest = session_events_for_side s client_side;
          upstream_interest = session_events_for_side s upstream_side;
        })
        (record p { metrics = record (p.metrics) { accepted = u64 (p.metrics.accepted + 1) } })

-- The registration of both sides, or the end of the session.
unfoldable pub enlist : Connection → ℕ → Session → Proxy → Proxy
enlist c ufd s p =
    let (ok1, p1) = register_fd_ctx c.client_ctx c.cfd (peer s.id client_side) p in
    let (ok2, p2) = register_fd_ctx c.upstream_ctx ufd (peer s.id upstream_side) p1 in
    if not ok1 then session_destroy s p1 else if not ok2 then session_destroy s p2 else watch c s p2

-- What follows `connect_nonblocking_upstream`, from its result.
unfoldable pub connect_upstream : Option ℕ → Connection → Session → Proxy → Proxy
connect_upstream none c s p = session_destroy s (record p {
  metrics = record (p.metrics) {
    upstream_connect_fail = u64 (p.metrics.upstream_connect_fail + 1);
  };
})
connect_upstream (some ufd) c s p =
    let s' : Session = record s {
      upstream = record (s.upstream) { fd = some ufd; connecting = true };
    } in
    enlist c ufd s' (store s' (record p { opened = put p.opened ufd true }))

-- The body of the loop of `handle_listener_accept`, after `accept` has given a descriptor.
unfoldable pub accept_one : Limits → Connection → Proxy → Proxy
accept_one cfg c p =
    let q : Proxy = record p { opened = put p.opened c.cfd true } in
    if int_leb cfg.max_connections (u32 p.metrics.active)
    then close c.cfd
        (record q { metrics = record (q.metrics) { rejected = u64 (q.metrics.rejected + 1) } })
    else if not c.nonblocking
    then close c.cfd q
    else if not c.alloc
    then close c.cfd q
    else let (s, r) = session_create c.now q in
      let s' : Session = record s {
        client = record (s.client) { fd = some c.cfd };
        client_addr = c.client_addr;
      } in
      connect_upstream c.ufd c s' (store s' r)

-- The connections that `accept` gives until it fails.
unfoldable pub handle_listener_accept : Limits → List Connection → Proxy → Proxy
handle_listener_accept cfg [] p = p
handle_listener_accept cfg (c ∷ rest) p = handle_listener_accept cfg rest (accept_one cfg c p)

-- `close_all_sessions`
unfoldable pub destroy_each : List Session → Proxy → Proxy
destroy_each [] p = p
destroy_each (s ∷ rest) p = destroy_each rest (session_destroy s p)

unfoldable pub close_all_sessions : Proxy → Proxy
close_all_sessions p = destroy_each p.sessions p

-- The test of `enforce_idle_timeouts`, of a difference of times against an `int`.
unfoldable pub is_idle : Limits → ℕ → Session → Bool
is_idle cfg now s =
    let limit = u32 cfg.idle_timeout_sec in
    ltb (s.last_activity + limit) (now + (if ltb limit (2 ^ 31) then 0 else 2 ^ 32))

unfoldable pub idle_each : Limits → ℕ → List Session → Proxy → Proxy
idle_each cfg now [] p = p
idle_each cfg now (s ∷ rest) p = idle_each cfg now rest (
    if is_idle cfg now s
    then session_destroy s
        (record p { metrics = record (p.metrics) { idle_kills = u64 (p.metrics.idle_kills + 1) } })
    else p)

unfoldable pub enforce_idle_timeouts : Limits → ℕ → Proxy → Proxy
enforce_idle_timeouts cfg now p = idle_each cfg now p.sessions p

-- An event at a side of a session.
unfoldable pub serve : Side → Events → Answers → Session → Proxy → Proxy
serve side ev a s p =
    let (keep, s', m') = handle_side_io side ev a s p.metrics in
    let q = store s' (record p { metrics = m' }) in if keep then q else session_destroy s' q

abbrev pub serve_found : Option Session → Side → Events → Answers → Proxy → Proxy
serve_found none side ev a p = p
serve_found (some s) side ev a p = serve side ev a s p

abbrev pub dispatch : Option FdCtx → Limits → List Connection → Events → Answers → Proxy → Proxy
dispatch none cfg cs ev a p = p
dispatch (some listener) cfg cs ev a p = handle_listener_accept cfg cs p
dispatch (some (peer id side)) cfg cs ev a p = serve_found (find_session p.sessions id) side ev a p

-- One event of `epoll_wait` in the loop of `main`: it is looked up, and goes to the listener or to a
-- session.
unfoldable pub handle_event : Limits → List Connection → ℕ → Events → Answers → Proxy → Proxy
handle_event cfg cs fd ev a p =
    if leb inf_fd_map_cap fd then p else dispatch (p.fd_map fd) cfg cs ev a p

-- An event as `epoll_wait` reports it, with what the calls answer while it is handled: the
-- connections that the listener accepts, or the answers for a session.
pub record Reported : Type 0 where
  pub fd : ℕ
  pub events : Events
  pub accepted : List Connection
  pub answers : Answers

-- The loop over the events of one `epoll_wait`.
unfoldable pub handle_batch : Limits → List Reported → Proxy → Proxy
handle_batch cfg [] p = p
handle_batch cfg (e ∷ rest) p =
    handle_batch cfg rest (handle_event cfg e.accepted e.fd e.events e.answers p)

abbrev pub inf_epoll_max_events : ℕ
inf_epoll_max_events = 128

abbrev pub zero_metrics : Metrics
zero_metrics = record {
  accepted = 0;
  rejected = 0;
  active = 0;
  closed = 0;
  upstream_connect_fail = 0;
  bytes_c2u = 0;
  bytes_u2c = 0;
  read_errors = 0;
  write_errors = 0;
  idle_kills = 0;
}

-- The start of `main`: the globals of the file, and the registration of the listener.
unfoldable pub start : ℕ → Proxy
start listen_fd = record {
  fd_map = put (λ fd. none) listen_fd (some listener);
  sessions = [];
  next_session_id = 1;
  metrics = zero_metrics;
  opened = put (λ fd. false) listen_fd true;
}
