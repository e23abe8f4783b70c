-- ===== src/Infinity/Proxy/Accept.antt =====
-- A connection that infinity.c accepts, or turns away: the way into the list of sessions.
pub mod Outcome
pub mod Added
use ryzen_build.Base.{
  ℕ, ◌+◌, ◌-◌, ◌*◌, ◌^◌, ◌%◌, ◌≤◌, ◌<◌, ◌≡◌, ◌≢◌, refl, sym, ap, ◌∙◌, arith, ltb, leb, ◌==◌, ◌&&◌,
  ◌||◌, not, if◌then◌else◌, u64, u32,
}
use ryzen_build.Base.{
  Bool, true, false, Bool-cases, inl, inr, ◌⊎◌, List, [], ◌∷◌, length, Option, none, some,
  Option-cases, ◌↔◌, ==_iff,
}
use ryzen_build.Infinity.Session.{
  Side, client_side, upstream_side, Peer, Session, Metrics, session_events_for_side,
}
use ryzen_build.Infinity.Proxy.{
  inf_fd_map_cap, FdCtx, listener, peer, Proxy, put, close, register_fd_ctx, Limits, Connection,
}
use ryzen_build.Infinity.Proxy.{
  find_session, session_unlink, session_destroy, store_session, store, new_session, session_create,
}
use ryzen_build.Infinity.Proxy.{watch, enlist, connect_upstream, accept_one, int_leb}
use ryzen_build.Infinity.Proxy.Sessions.{
  IsListed, IsListed-weaken, length-IsListed, find-IsListed, find-id,
}
use ryzen_build.Infinity.Proxy.Registry.{
  IsProxy, IsDestroyed, session_destroy_lem, is_fd, is_some, fd_of, fd_at, owns,
}

-- The descriptors that the system gives are not open yet, and an id is left to give.
pub record IsFresh (c : Connection) (p : Proxy) : Type 0 where
  pub new_cfd : p.opened c.cfd ≡ false
  pub new_ufd : (u : ℕ) → c.ufd ≡ some u → (p.opened u ≡ false) × (c.cfd ≢ u)
  pub id_left : p.next_session_id + 1 < 2 ^ 64

-- The proxy as before, for all but the counters and the next id.
pub record IsBack (p q : Proxy) : Type 0 where
  pub same_map : (j : ℕ) → q.fd_map j ≡ p.fd_map j
  pub same_open : (j : ℕ) → q.opened j ≡ p.opened j
  pub same_sessions : q.sessions ≡ p.sessions
  pub same_active : q.metrics.active ≡ p.metrics.active
  pub id_later : p.next_session_id ≤ q.next_session_id

pub back-IsProxy : (l : ℕ) (p q : Proxy) → IsBack p q → IsProxy l p → IsProxy l q
back-IsProxy l p q b v = record {
  listed = rw (b.same_sessions) (IsListed-weaken _ _ p.sessions b.id_later v.listed);
  counted = rw (b.same_sessions) (b.same_active ∙ v.counted);
  known = λ fd id side e. rw (b.same_sessions) (v.known fd id side (sym (b.same_map fd) ∙ e));
  reached = λ fd id side e. b.same_map fd ∙ v.reached fd id side (rw (b.same_sessions) at e);
  open_iff = λ j. b.same_open j ∙ (rw (b.same_map j) (v.open_iff j));
  inside = λ j e. v.inside j (sym (b.same_open j) ∙ e);
  listening = b.same_map l ∙ v.listening;
}

-- A session `s` on its way into the list of `p`, where `r` is the proxy now.
pub record IsPending (s : Session) (p r : Proxy) : Type 0 where
  pub same_map : (j : ℕ) → (owns s j && ltb j inf_fd_map_cap) ≡ false → r.fd_map j ≡ p.fd_map j
  pub same_open : (j : ℕ) → owns s j ≡ false → r.opened j ≡ p.opened j
  pub unused : (j : ℕ) → owns s j ≡ true → (p.opened j ≡ false) × (p.fd_map j ≡ none)
  pub head : (s0 : Session) × (r.sessions ≡ s0 ∷ p.sessions) × (s0.id ≡ s.id)
  pub active : r.metrics.active ≡ p.metrics.active + 1
  pub next_id : r.next_session_id ≡ p.next_session_id + 1

unlink-head :
    (s : Session) (rest : List Session) (id : ℕ) → s.id ≡ id → session_unlink id (s ∷ rest) ≡ rest
unfolding session_unlink
unlink-head s rest id h = ground (arith, h)

-- A session that is destroyed on its way leaves nothing.
pub gone-IsBack : (s : Session) (p r : Proxy) → IsPending s p r → IsBack p (session_destroy s r)
gone-IsBack s p r w =
    let d = session_destroy_lem s r in
    let (s0, e, i) = w.head in
    record {
      same_map = λ j. ground (arith, d.unmapped j, w.same_map j, w.unused j);
      same_open = λ j. ground (arith, d.closed j, w.same_open j, w.unused j);
      same_sessions = d.unlinked ∙ (ap (session_unlink s.id) e ∙ unlink-head s0 p.sessions s.id i);
      same_active = omega (arith, d.uncounted, w.active);
      id_later = omega (arith, d.id_same, w.next_id);
    }

-- Registering one of the session's descriptors.
pub register_fd_ctx-IsPending :
    (s : Session) (p r : Proxy) (alloc : Bool) (fd : ℕ) (ctx : FdCtx)
    → owns s fd ≡ true
    → IsPending s p r
    → IsPending s p (register_fd_ctx alloc fd ctx r).1
unfolding register_fd_ctx put
register_fd_ctx-IsPending s p r alloc fd ctx o w = elim (Bool-cases (leb inf_fd_map_cap fd)) [
  | inl e ↦ rw e w
  | inr e ↦ elim (Bool-cases alloc) [
    | inl k ↦ rw e (
        rw k (record {
          same_map = λ j h. ground (arith, w.same_map j, h, o, e);
          same_open = w.same_open;
          unused = w.unused;
          head = w.head;
          active = w.active;
          next_id = w.next_id;
        }))
    | inr k ↦ rw e (rw k w)
  ]
]

-- Its result tells whether the descriptor leads to the session.
pub registered :
    (r : Proxy) (alloc : Bool) (fd : ℕ) (ctx : FdCtx)
    → (register_fd_ctx alloc fd ctx r).0 ≡ true
    → (fd < inf_fd_map_cap)
      × ((register_fd_ctx alloc fd ctx r).1 ≡ record r { fd_map = put r.fd_map fd (some ctx) })
unfolding register_fd_ctx
registered r alloc fd ctx h = elim (Bool-cases (leb inf_fd_map_cap fd)) [
  | inl e ↦ absurd (ground (arith, h, e))
  | inr e ↦ elim (Bool-cases alloc) [
    | inl k ↦ (ground (arith, e), rw e (rw k refl))
    | inr k ↦ absurd (ground (arith, h, e, k))
  ]
]

-- The session and the proxy when the client is in, and when the upstream is.
abbrev pub first : Connection → Proxy → Session
first c p = record (new_session p.next_session_id c.now) {
  client = record { fd = some c.cfd; read_eof = false; write_shutdown = false; connecting = false };
  client_addr = c.client_addr;
}

abbrev pub entered : Connection → Proxy → Proxy
entered c p =
    store (first c p) (session_create c.now (record p { opened = put p.opened c.cfd true })).1

abbrev pub second : Connection → ℕ → Proxy → Session
second c u p = record (first c p) {
  upstream = record { fd = some u; read_eof = false; write_shutdown = false; connecting = true };
}

abbrev pub wired : Connection → ℕ → Proxy → Proxy
wired c u p =
    let q = entered c p in store (second c u p) (record q { opened = put q.opened u true })

pub store-head :
    (s t : Session) (rest : List Session) → t.id ≡ s.id → store_session s (t ∷ rest) ≡ s ∷ rest
unfolding store_session
store-head s t rest h = rw ((==_iff t.id s.id).1 h) refl

closed-unmapped :
    {l : ℕ} {p : Proxy} → IsProxy l p → (j : ℕ) → p.opened j ≡ false → p.fd_map j ≡ none
closed-unmapped {p = p} v j h = elim (Option-cases (p.fd_map j)) [
  | inl e ↦ e
  | inr (x, e) ↦ absurd (ground (arith, v.open_iff j, e, h))
]

module _ {l : ℕ} {p : Proxy} (v : IsProxy l p) (c : Connection) (f : IsFresh c p) where
  pub active-wrap : u64 (p.metrics.active + 1) ≡ p.metrics.active + 1
  active-wrap =
      omega (arith, v.counted, length-IsListed p.next_session_id p.sessions v.listed, f.id_left)

  pub entered-sessions : (entered c p).sessions ≡ first c p ∷ p.sessions
  unfolding store session_create new_session
  entered-sessions = store-head (first c p) (new_session p.next_session_id c.now) p.sessions refl

  pub entered-IsPending : IsPending (first c p) p (entered c p)
  unfolding store session_create put new_session
  entered-IsPending = record {
    same_map = λ j h. refl;
    same_open = λ j h. ground (arith, h);
    unused = λ j h.
        let e : j ≡ c.cfd = ground (arith, h) in
        let w = rw (sym e) at (f.new_cfd) in (w, closed-unmapped v j w);
    head = (first c p, entered-sessions, refl);
    active = active-wrap;
    next_id = omega (arith, f.id_left);
  }

  module _ (u : ℕ) (h : c.ufd ≡ some u) where
    pub wired-sessions : (wired c u p).sessions ≡ second c u p ∷ p.sessions
    unfolding store
    wired-sessions = rw entered-sessions (store-head (second c u p) (first c p) p.sessions refl)

    pub wired-IsPending : IsPending (second c u p) p (wired c u p)
    unfolding store session_create put new_session
    wired-IsPending = record {
      same_map = λ j h. refl;
      same_open = λ j h. ground (arith, h);
      unused = λ j q.
          let w : p.opened j ≡ false = elim (Bool-cases (c.cfd == j)) [
            | inl e ↦ rw ((==_iff c.cfd j).0 e) at (f.new_cfd)
            | inr e ↦ let e' : u ≡ j = ground (arith, q, e) in rw e' at ((f.new_ufd u h).0)
          ] in
          (w, closed-unmapped v j w);
      head = (second c u p, wired-sessions, refl);
      active = active-wrap;
      next_id = omega (arith, f.id_left);
    }
