-- ===== src/Infinity/Proxy/Accept/Outcome.antt =====
-- What comes of a connection that infinity.c accepts: one session more, or nothing.
use ryzen_build.Base.{
  ℕ, ◌+◌, ◌<◌, ◌≡◌, ◌≢◌, refl, ap, ◌∙◌, arith, ◌==◌, ◌||◌, not, if◌then◌else◌, u64, u32,
}
use ryzen_build.Base.{Bool, true, false, Bool-cases, inl, inr, ◌⊎◌, ◌∷◌, Option, none, some}
use ryzen_build.Infinity.Session.{client_side, upstream_side, Session, session_events_for_side}
use ryzen_build.Infinity.Proxy.{
  inf_fd_map_cap, peer, Proxy, put, close, register_fd_ctx, Limits, Connection,
}
use ryzen_build.Infinity.Proxy.{store, new_session, session_create}
use ryzen_build.Infinity.Proxy.{watch, enlist, connect_upstream, accept_one, int_leb}
use ryzen_build.Infinity.Proxy.Registry.{IsProxy}
use ryzen_build.Infinity.Proxy.Accept.{
  IsFresh, IsBack, IsPending, gone-IsBack, register_fd_ctx-IsPending, registered, first, entered,
  second, wired, store-head, active-wrap, entered-IsPending, wired-sessions, wired-IsPending,
}

-- The session that is added at last: epoll has what it asks for.
abbrev pub finished : Session → Session
finished s = record s {
  client_interest = session_events_for_side s client_side;
  upstream_interest = session_events_for_side s upstream_side;
}

abbrev pub added_session : Connection → ℕ → Proxy → Session
added_session c u p = finished (second c u p)

-- The proxy with one session more, in front of the others, and its two descriptors registered.
pub record IsAdded (c : Connection) (u : ℕ) (p q : Proxy) : Type 0 where
  pub mapped :
      (j : ℕ)
      → q.fd_map j ≡ (
          if u == j
          then some (peer p.next_session_id upstream_side)
          else if c.cfd == j
          then some (peer p.next_session_id client_side)
          else p.fd_map j)
  pub now_open : (j : ℕ) → q.opened j ≡ (if (c.cfd == j) || (u == j) then true else p.opened j)
  pub in_front : q.sessions ≡ added_session c u p ∷ p.sessions
  pub one_more : q.metrics.active ≡ p.metrics.active + 1
  pub next_id : q.next_session_id ≡ p.next_session_id + 1
  pub cfd_inside : c.cfd < inf_fd_map_cap
  pub ufd_inside : u < inf_fd_map_cap
  pub ufd_fresh : (p.opened u ≡ false) × (c.cfd ≢ u)

abbrev pub Outcome : Connection → Proxy → Proxy → Type 0
Outcome c p q = IsBack p q ⊎ ((u : ℕ) × (c.ufd ≡ some u) × IsAdded c u p q)

module _ {l : ℕ} {p : Proxy} (v : IsProxy l p) (c : Connection) (f : IsFresh c p) (u : ℕ)
    (h : c.ufd ≡ some u) where
  abbrev sess : Session
  sess = second c u p

  abbrev one : Proxy
  one = (register_fd_ctx c.client_ctx c.cfd (peer sess.id client_side) (wired c u p)).1

  abbrev two : Proxy
  two = (register_fd_ctx c.upstream_ctx u (peer sess.id upstream_side) one).1

  one-IsPending : IsPending sess p one
  one-IsPending =
      register_fd_ctx-IsPending sess p (wired c u p) c.client_ctx c.cfd _ (ground arith)
        (wired-IsPending v c f u h)

  two-IsPending : IsPending sess p two
  two-IsPending =
      register_fd_ctx-IsPending sess p one c.upstream_ctx u _ (ground arith) one-IsPending

  module _
      (ok1 : (register_fd_ctx c.client_ctx c.cfd (peer sess.id client_side) (wired c u p)).0 ≡ true)
      (ok2 : (register_fd_ctx c.upstream_ctx u (peer sess.id upstream_side) one).0 ≡ true) where
    abbrev both : Proxy
    both =
        let w = wired c u p in
        record w {
          fd_map =
              put (put w.fd_map c.cfd (some (peer sess.id client_side))) u
                (some (peer sess.id upstream_side));
        }

    two-both : two ≡ both
    two-both =
        let a = registered (wired c u p) c.client_ctx c.cfd (peer sess.id client_side) ok1 in
        let b = registered one c.upstream_ctx u (peer sess.id upstream_side) ok2 in
        b.1
        ∙ ap
            (λ (q : Proxy). record q {
              fd_map = put q.fd_map u (some (peer sess.id upstream_side));
            })
            a.1

    added :
        (acc : ℕ)
        → IsAdded c u p (
            store
              (added_session c u p)
              (record both { metrics = record (both.metrics) { accepted = acc } }))
    unfolding store session_create put new_session
    added acc =
        let a = registered (wired c u p) c.client_ctx c.cfd (peer sess.id client_side) ok1 in
        let b = registered one c.upstream_ctx u (peer sess.id upstream_side) ok2 in
        record {
          mapped = λ j. refl;
          now_open = λ j. ground arith;
          in_front =
              rw (wired-sessions v c f u h) (store-head (added_session c u p) sess p.sessions refl);
          one_more = active-wrap v c f;
          next_id = omega (arith, f.id_left);
          cfd_inside = a.0;
          ufd_inside = b.0;
          ufd_fresh = f.new_ufd u h;
        }

    watch-Outcome : Outcome c p (watch c sess two)
    unfolding watch
    watch-Outcome = elim (Bool-cases (not c.client_added || not c.upstream_added)) [
      | inl e ↦ rw e (inl (gone-IsBack sess p two two-IsPending))
      | inr e ↦ rw e (inr (u, h, rw two-both (added (u64 (both.metrics.accepted + 1)))))
    ]

enlist-Outcome :
    {l : ℕ} {p : Proxy} (v : IsProxy l p) (c : Connection) (f : IsFresh c p) (u : ℕ)
    (h : c.ufd ≡ some u)
    → Outcome c p (enlist c u (second c u p) (wired c u p))
unfolding enlist
enlist-Outcome {p = p} v c f u h =
    let a = register_fd_ctx c.client_ctx c.cfd (peer p.next_session_id client_side) (wired c u p) in
    elim (Bool-cases
      (register_fd_ctx c.client_ctx c.cfd (peer (second c u p).id client_side) (wired c u p)).0) [
        | inr e ↦ rw e (inl (gone-IsBack _ p _ (one-IsPending v c f u h)))
        | inl e ↦
            elim (Bool-cases
              (register_fd_ctx c.upstream_ctx u (peer (second c u p).id upstream_side)
                (one v c f u h)).0) [
                  | inr k ↦ rw e (rw k (inl (gone-IsBack _ p _ (two-IsPending v c f u h))))
                  | inl k ↦ rw e (rw k (watch-Outcome v c f u h e k))
                ]
      ]

counted-IsPending :
    (s : Session) (p r : Proxy) (n : ℕ)
    → IsPending s p r
    → IsPending s p (record r { metrics = record (r.metrics) { upstream_connect_fail = n } })
counted-IsPending s p r n w = record {
  same_map = w.same_map;
  same_open = w.same_open;
  unused = w.unused;
  head = w.head;
  active = w.active;
  next_id = w.next_id;
}

connect_upstream-Outcome :
    {l : ℕ} {p : Proxy} (v : IsProxy l p) (c : Connection) (f : IsFresh c p) (o : Option ℕ)
    → c.ufd ≡ o
    → Outcome c p (connect_upstream o c (first c p) (entered c p))
unfolding connect_upstream new_session
connect_upstream-Outcome {p = p} v c f none e = inl (
    gone-IsBack (first c p) p _
      (counted-IsPending (first c p) p (entered c p) _ (entered-IsPending v c f)))
connect_upstream-Outcome {p = p} v c f (some u) e = enlist-Outcome v c f u e

-- A descriptor that is closed at once.
turned_away :
    (p : Proxy) (fd n : ℕ)
    → p.opened fd ≡ false
    → IsBack p (
        close fd (record p {
          opened = put p.opened fd true;
          metrics = record (p.metrics) { rejected = n };
        }))
unfolding close put
turned_away p fd n h = record {
  same_map = λ j. refl;
  same_open = λ j. ground (arith, h);
  same_sessions = refl;
  same_active = refl;
  id_later = omega arith;
}

either_way : {A : Type 0} (P : A → Type 0) (b : Bool) (x y : A) → P x → P y → P (if b then x else y)
either_way P true x y a b = a
either_way P false x y a b = b

-- From a proxy in order, with fresh descriptors: a connection that is accepted either stands in front
-- of the sessions, registered and waiting for its events, or leaves the registry, the sessions, their
-- count and the open descriptors as they were.
pub accept_one-Outcome :
    {l : ℕ} {p : Proxy} (v : IsProxy l p) (cfg : Limits) (c : Connection)
    → IsFresh c p
    → Outcome c p (accept_one cfg c p)
unfolding accept_one session_create new_session
accept_one-Outcome {p = p} v cfg c f =
    let P = Outcome c p in
    let away = turned_away p c.cfd in
    either_way P (int_leb cfg.max_connections (u32 p.metrics.active)) _ _ (inl (away _ f.new_cfd)) (
      either_way P (not c.nonblocking) _ _ (inl (away _ f.new_cfd)) (
        either_way P (not c.alloc) _ _ (inl (away _ f.new_cfd))
          (connect_upstream-Outcome v c f c.ufd refl)))

-- At the limit a connection is turned away.
pub accept_one-full :
    {p : Proxy} (cfg : Limits) (c : Connection)
    → IsFresh c p
    → int_leb cfg.max_connections (u32 p.metrics.active) ≡ true
    → IsBack p (accept_one cfg c p)
unfolding accept_one
accept_one-full {p = p} cfg c f e = rw e (turned_away p c.cfd _ f.new_cfd)
