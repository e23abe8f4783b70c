-- ===== src/Infinity/Proxy/Steps/OneEvent.antt =====
-- A property of each session of infinity.c over one event of the loop.
use ryzen_build.Base.{ℕ, ◌^◌, ◌<◌, ◌≡◌, refl, ap, ◌∙◌, leb, u32}
use ryzen_build.Base.{Bool-cases, inl, inr, List, [], ◌∷◌, Option, none, some}
use ryzen_build.Infinity.Session.{Side, Events, Session, Answers, handle_side_io}
use ryzen_build.Infinity.Session.Frame.{handle_side_io-IsSame}
use ryzen_build.Infinity.Proxy.{
  inf_fd_map_cap, FdCtx, listener, peer, Proxy, Limits, Connection, int_leb, find_session,
  accept_one, handle_listener_accept, serve, serve_found, dispatch, handle_event,
}
use ryzen_build.Infinity.Proxy.Sessions.{find-id}
use ryzen_build.Infinity.Proxy.Accept.{IsFresh}
use ryzen_build.Infinity.Proxy.Accept.Outcome.{accept_one-full, accept_one-Outcome, added_session}
use ryzen_build.Infinity.Proxy.Served.{Each, stored-Each, ended-Each, back-Each, added-Each}
use ryzen_build.Infinity.Proxy.Steps.{IsSafe, AllFresh, accept_one-IsSafe}

module _ {l : ℕ} {cfg : Limits} (small : cfg.max_connections < 2 ^ 31) where
  -- What holds of each session and is not lost at an event holds of each after it.
  module _ (P : Session → Type 0)
      (new : (c : Connection) (u : ℕ) (p : Proxy) → P (added_session c u p)) where
    accept_one-Each :
        (p : Proxy) (c : Connection)
        → IsFresh c p
        → IsSafe l cfg p
        → Each P p
        → Each P (accept_one cfg c p)
    accept_one-Each p c f v all =
        elim (Bool-cases (int_leb cfg.max_connections (u32 p.metrics.active))) [
          | inl e ↦ back-Each P _ _ (accept_one-full cfg c f e) all
          | inr e ↦ elim (accept_one-Outcome v.proxy cfg c f) [
            | inl b ↦ back-Each P _ _ b all
            | inr (u, h, a) ↦ added-Each P v.proxy c u f a (new c u p) all
          ]
        ]

    accept-Each :
        (cs : List Connection) (p : Proxy)
        → AllFresh cfg cs p
        → IsSafe l cfg p
        → Each P p
        → Each P (handle_listener_accept cfg cs p)
    unfolding handle_listener_accept
    accept-Each [] p f v all = all
    accept-Each (c ∷ rest) p f v all =
        accept-Each rest _ f.1 (accept_one-IsSafe small p c f.0 v) (accept_one-Each p c f.0 v all)

    serve-Each :
        (side : Side) (ev : Events) (a : Answers) (s : Session) (p : Proxy)
        → find_session p.sessions s.id ≡ some s
        → P (handle_side_io side ev a s p.metrics).1
        → IsSafe l cfg p
        → Each P p
        → Each P (serve side ev a s p)
    unfolding serve
    serve-Each side ev a s p found ok v all =
        let r = handle_side_io side ev a s p.metrics in
        let f = handle_side_io-IsSame side ev a s p.metrics in
        elim (Bool-cases r.0) [
          | inl k ↦ rw k (stored-Each v.proxy s r.1 r.2 found f P ok all)
          | inr k ↦ rw k (ended-Each v.proxy s r.1 r.2 found f P all)
        ]

    found-Each :
        (id : ℕ) (side : Side) (ev : Events) (a : Answers) (p : Proxy) (o : Option Session)
        → find_session p.sessions id ≡ o
        → ((s : Session) → o ≡ some s → P (handle_side_io side ev a s p.metrics).1)
        → IsSafe l cfg p
        → Each P p
        → Each P (serve_found o side ev a p)
    found-Each id side ev a p none e ok v all = all
    found-Each id side ev a p (some s) e ok v all =
        let same = find-id p.sessions id s e in
        serve-Each side ev a s p (ap (find_session p.sessions) same ∙ e) (ok s refl) v all

    dispatch-Each :
        (cs : List Connection) (ev : Events) (a : Answers) (p : Proxy) (o : Option FdCtx)
        → AllFresh cfg cs p
        → ((id : ℕ) (side : Side) (s : Session)
            → o ≡ some (peer id side)
            → find_session p.sessions id ≡ some s
            → P (handle_side_io side ev a s p.metrics).1)
        → IsSafe l cfg p
        → Each P p
        → Each P (dispatch o cfg cs ev a p)
    dispatch-Each cs ev a p none f ok v all = all
    dispatch-Each cs ev a p (some listener) f ok v all = accept-Each cs p f v all
    dispatch-Each cs ev a p (some (peer id side)) f ok v all =
        found-Each id side ev a p (find_session p.sessions id) refl (λ s e. ok id side s refl e) v
          all

    pub event-Each :
        (cs : List Connection) (fd : ℕ) (ev : Events) (a : Answers) (p : Proxy)
        → AllFresh cfg cs p
        → ((id : ℕ) (side : Side) (s : Session)
            → p.fd_map fd ≡ some (peer id side)
            → find_session p.sessions id ≡ some s
            → P (handle_side_io side ev a s p.metrics).1)
        → IsSafe l cfg p
        → Each P p
        → Each P (handle_event cfg cs fd ev a p)
    unfolding handle_event
    event-Each cs fd ev a p f ok v all = elim (Bool-cases (leb inf_fd_map_cap fd)) [
      | inl e ↦ rw e all
      | inr e ↦ rw e (dispatch-Each cs ev a p (p.fd_map fd) f ok v all)
    ]
