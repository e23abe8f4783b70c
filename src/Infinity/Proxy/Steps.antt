-- ===== src/Infinity/Proxy/Steps.antt =====
-- The loop of infinity.c as steps, and what holds at every one.
pub mod OneEvent
pub mod Batch
pub mod Ends
use ryzen_build.Base.{
  ℕ, ◌+◌, ◌-◌, ◌^◌, ◌≤◌, ◌<◌, ◌≡◌, refl, sym, ap, ◌∙◌, arith, ltb, leb, ◌==◌, ◌||◌, if◌then◌else◌,
  u32, u64,
}
use ryzen_build.Base.{
  Bool, true, false, Bool-cases, inl, inr, List, [], ◌∷◌, length, Option, none, some, Option-cases,
  ==_iff,
}
use ryzen_build.Infinity.Session.{
  Side, client_side, upstream_side, Events, Session, Metrics, Answers, handle_side_io,
}
use ryzen_build.Infinity.Session.Integrity.{ended_at}
use ryzen_build.Infinity.Session.Frame.{handle_side_io-IsSame}
use ryzen_build.Infinity.Proxy.{
  inf_fd_map_cap, FdCtx, listener, peer, Proxy, Limits, Connection, put, start, int_leb,
}
use ryzen_build.Infinity.Proxy.{
  find_session, session_destroy, store, accept_one, handle_listener_accept, serve, serve_found,
  dispatch, handle_event,
}
use ryzen_build.Infinity.Proxy.Sessions.{find-id, length-store, length-unlink, replaced, find-store}
use ryzen_build.Infinity.Proxy.Registry.{
  IsProxy, session_destroy_lem, destroyed-IsProxy, fd_at, fd_of, is_some,
}
use ryzen_build.Infinity.Proxy.Accept.{IsFresh, IsBack, back-IsProxy}
use ryzen_build.Infinity.Proxy.Accept.Outcome.{IsAdded, accept_one-Outcome, accept_one-full}
use ryzen_build.Infinity.Proxy.Accept.Added.{added-IsProxy}
use ryzen_build.Infinity.Proxy.Served.{AllServed, IsServed, interest_of, handle_side_io-IsServed}
use ryzen_build.Infinity.Proxy.Served.{
  stored-IsProxy, stored-Each, find_self, ended-Each, destroyed-Each, back-Each, added-Each, Each,
  IsServed, added-IsServed,
}

-- The registry is that of the sessions, each session is served, and there are no more of them than
-- the limit.
pub record IsSafe (l : ℕ) (cfg : Limits) (p : Proxy) : Type 0 where
  pub proxy : IsProxy l p
  pub served : AllServed p
  pub limited : length p.sessions ≤ cfg.max_connections

-- Each connection finds its descriptors free.
abbrev pub AllFresh : Limits → List Connection → Proxy → Type 0
AllFresh cfg [] p = Unit
AllFresh cfg (c ∷ rest) p = IsFresh c p × AllFresh cfg rest (accept_one cfg c p)

-- If the event has input, no session's side with that descriptor has ended.
abbrev pub IsOpenAt : ℕ → Events → Session → Type 0
IsOpenAt fd ev s =
    ev.epollin ≡ true → (side : Side) → fd_of side s ≡ some fd → ended_at side s ≡ false

stored-length :
    (p : Proxy) (t : Session) (m : Metrics)
    → length (store t (record p { metrics = m })).sessions ≡ length p.sessions
unfolding store
stored-length p t m = length-store p.sessions t

module _ {l : ℕ} {cfg : Limits} (small : cfg.max_connections < 2 ^ 31) where
  pub destroy-IsSafe :
      {p : Proxy} (s : Session)
      → find_session p.sessions s.id ≡ some s
      → IsSafe l cfg p
      → IsSafe l cfg (session_destroy s p)
  destroy-IsSafe {p = p} s h v =
      let d = session_destroy_lem s p in
      record {
        proxy = destroyed-IsProxy v.proxy s h _ d;
        served = destroyed-Each IsServed v.proxy s h v.served;
        limited = rw (d.unlinked) (omega (arith, length-unlink p.sessions s.id s h, v.limited));
      }

  back-IsSafe : {p q : Proxy} → IsBack p q → IsSafe l cfg p → IsSafe l cfg q
  back-IsSafe {p = p} {q = q} b v = record {
    proxy = back-IsProxy l p q b v.proxy;
    served = back-Each IsServed p q b v.served;
    limited = rw (b.same_sessions) (v.limited);
  }

  accept_one-limited :
      (p q : Proxy) (c : Connection) (u : ℕ)
      → IsSafe l cfg p
      → int_leb cfg.max_connections (u32 p.metrics.active) ≡ false
      → IsAdded c u p q
      → length q.sessions ≤ cfg.max_connections
  unfolding int_leb
  accept_one-limited p q c u v e a =
      rw (a.in_front) (ground (arith, small, v.limited, v.proxy.counted, e))

  pub accept_one-IsSafe :
      (p : Proxy) (c : Connection)
      → IsFresh c p
      → IsSafe l cfg p
      → IsSafe l cfg (accept_one cfg c p)
  accept_one-IsSafe p c f v =
      elim (Bool-cases (int_leb cfg.max_connections (u32 p.metrics.active))) [
        | inl e ↦ back-IsSafe (accept_one-full cfg c f e) v
        | inr e ↦ elim (accept_one-Outcome v.proxy cfg c f) [
          | inl b ↦ back-IsSafe b v
          | inr (u, h, a) ↦ record {
            proxy = added-IsProxy v.proxy c u f a;
            served = added-Each IsServed v.proxy c u f a (added-IsServed c u p) v.served;
            limited = accept_one-limited p _ c u v e a;
          }
        ]
      ]

  accept-IsSafe :
      (cs : List Connection) (p : Proxy)
      → AllFresh cfg cs p
      → IsSafe l cfg p
      → IsSafe l cfg (handle_listener_accept cfg cs p)
  unfolding handle_listener_accept
  accept-IsSafe [] p f v = v
  accept-IsSafe (c ∷ rest) p f v = accept-IsSafe rest _ f.1 (accept_one-IsSafe p c f.0 v)

  serve-IsSafe :
      (side : Side) (ev : Events) (a : Answers) (s : Session) (p : Proxy)
      → find_session p.sessions s.id ≡ some s
      → (ev.epollin ≡ true → ended_at side s ≡ false)
      → IsSafe l cfg p
      → IsSafe l cfg (serve side ev a s p)
  unfolding serve
  serve-IsSafe side ev a s p found h v =
      let r = handle_side_io side ev a s p.metrics in
      let f = handle_side_io-IsSame side ev a s p.metrics in
      let proxy = stored-IsProxy v.proxy s r.1 r.2 found f in
      elim (Bool-cases r.0) [
        | inl k ↦ rw k (record {
          proxy = proxy;
          served =
              stored-Each v.proxy s r.1 r.2 found f IsServed
                (handle_side_io-IsServed side ev a s p.metrics h (v.served s.id s found) k)
                v.served;
          limited = rw (stored-length p r.1 r.2) (v.limited);
        })
        | inr k ↦
            let me = find_self v.proxy s r.1 r.2 found f in
            let d = session_destroy_lem r.1 (store r.1 (record p { metrics = r.2 })) in
            rw k (record {
              proxy = destroyed-IsProxy proxy r.1 me _ d;
              served = ended-Each v.proxy s r.1 r.2 found f IsServed v.served;
              limited = rw (d.unlinked) (
                  omega (arith, length-unlink _ r.1.id r.1 me, stored-length p r.1 r.2, v.limited));
            })
      ]

  serve_found-IsSafe :
      (id : ℕ) (side : Side) (ev : Events) (a : Answers) (p : Proxy) (o : Option Session)
      → find_session p.sessions id ≡ o
      → ((s : Session) → o ≡ some s → ev.epollin ≡ true → ended_at side s ≡ false)
      → IsSafe l cfg p
      → IsSafe l cfg (serve_found o side ev a p)
  serve_found-IsSafe id side ev a p none e h v = v
  serve_found-IsSafe id side ev a p (some s) e h v =
      let same = find-id p.sessions id s e in
      serve-IsSafe side ev a s p (ap (find_session p.sessions) same ∙ e) (h s refl) v

  dispatch-IsSafe :
      (cs : List Connection) (fd : ℕ) (ev : Events) (a : Answers) (p : Proxy) (o : Option FdCtx)
      → p.fd_map fd ≡ o
      → AllFresh cfg cs p
      → Each (IsOpenAt fd ev) p
      → IsSafe l cfg p
      → IsSafe l cfg (dispatch o cfg cs ev a p)
  dispatch-IsSafe cs fd ev a p none e f h v = v
  dispatch-IsSafe cs fd ev a p (some listener) e f h v = accept-IsSafe cs p f v
  dispatch-IsSafe cs fd ev a p (some (peer id side)) e f h v =
      serve_found-IsSafe id side ev a p (find_session p.sessions id) refl
        (λ s q i. h id s q i side (rw q at (v.proxy.known fd id side e))) v

  pub handle_event-IsSafe :
      (cs : List Connection) (fd : ℕ) (ev : Events) (a : Answers) (p : Proxy)
      → AllFresh cfg cs p
      → Each (IsOpenAt fd ev) p
      → IsSafe l cfg p
      → IsSafe l cfg (handle_event cfg cs fd ev a p)
  unfolding handle_event
  handle_event-IsSafe cs fd ev a p f h v = elim (Bool-cases (leb inf_fd_map_cap fd)) [
    | inl e ↦ rw e v
    | inr e ↦ rw e (dispatch-IsSafe cs fd ev a p (p.fd_map fd) refl f h v)
  ]
