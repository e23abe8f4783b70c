-- ===== src/Infinity/Session/Progress.antt =====
-- What a session of infinity.c has epoll wait for after an event.
use ryzen_build.Base.{ℕ, ◌≡◌, refl, ◌∙◌, arith, ◌||◌}
use ryzen_build.Base.{Bool, true, false, Bool-cases, inl, inr, Option, none, some}
use ryzen_build.Infinity.Buffer.{inf_buffer_cap, buffer_empty, buffer_space}
use ryzen_build.Infinity.Buffer.Stream.{IsBuffer}
use ryzen_build.Infinity.Session.{
  Side, client_side, upstream_side, Events, Session, Metrics, Answers,
}
use ryzen_build.Infinity.Session.{
  session_events_for_side, session_fully_done, session_consider_half_close,
}
use ryzen_build.Infinity.Session.{
  Stage, go, stop, modified, session_refresh_interest, settle, settled, io_stages, handle_side_io,
}
use ryzen_build.Infinity.Session.Integrity.{IsRelay, ended_at, handle_side_io-IsRelay}
use ryzen_build.Infinity.Session.Frame.{handle_side_io-IsSame}

-- Whether epoll is to wait for input or output of a side.
abbrev pub asks : Events → Bool
asks ev = ev.epollin || ev.epollout

-- A session that is not done, with its buffers in order, asks for input or output of a side: it
-- does not wait for an error or a hang-up alone.
pub session_events-progress :
    (s : Session)
    → IsBuffer s.to_upstream
    → IsBuffer s.to_client
    → session_fully_done s ≡ false
    → (asks (session_events_for_side s client_side)
        || asks (session_events_for_side s upstream_side))
      ≡ true
unfolding session_events_for_side session_fully_done buffer_empty buffer_space inf_buffer_cap
session_events-progress s b c h = ground (arith, b.fresh, c.fresh)

-- What `epoll_mod` leaves for a session that goes on: what it asks for now.
pub record IsAsked (s : Session) : Type 0 where
  pub unfinished : session_fully_done s ≡ false
  pub client_asked :
      (fd : ℕ) → s.client.fd ≡ some fd → s.client_interest ≡ session_events_for_side s client_side
  pub upstream_asked :
      (fd : ℕ)
      → s.upstream.fd ≡ some fd
      → s.upstream_interest ≡ session_events_for_side s upstream_side

modified-some : (x : Option ℕ) (fd : ℕ) (new old : Events) → x ≡ some fd → modified x new old ≡ new
modified-some none fd new old h = absurd (ground (arith, h))
modified-some (some k) fd new old h = refl

refreshed_lem : (t : Session) → session_fully_done t ≡ false → IsAsked (session_refresh_interest t)
unfolding session_refresh_interest session_events_for_side session_fully_done
refreshed_lem t h = record {
  unfinished = h;
  client_asked = λ fd q. modified-some t.client.fd fd _ _ q;
  upstream_asked = λ fd q. modified-some t.upstream.fd fd _ _ q;
}

settled_lem : (x : Stage) → (settled x).0 ≡ true → IsAsked (settled x).1
unfolding settle
settled_lem (stop s m) h = absurd (ground (arith, h))
settled_lem (go s m) h = elim (Bool-cases (session_fully_done (session_consider_half_close s))) [
  | inl e ↦ rw e (absurd (ground (arith, h, e)))
  | inr e ↦ rw e (refreshed_lem (session_consider_half_close s) e)
]

pub handle_side_io-IsAsked :
    (side : Side) (ev : Events) (a : Answers) (s : Session) (m : Metrics)
    → (handle_side_io side ev a s m).0 ≡ true
    → IsAsked (handle_side_io side ev a s m).1
unfolding handle_side_io
handle_side_io-IsAsked side ev a s m h =
    let t : Session = record s { last_activity = a.now } in
    elim (Bool-cases (ev.epollerr || ev.epollhup)) [
      | inl e ↦ absurd (ground (arith, h, e))
      | inr e ↦ rw e (settled_lem (io_stages side ev a t m) (rw e at h))
    ]

-- If an event keeps a session, the session then has epoll wait for input or output of one of its
-- sides, whatever the sockets answered: the conditions are that both descriptors are there, that the
-- relay was in order, and that the event asks for a read only of a side that has not ended.
pub handle_side_io-progress :
    (side : Side) (ev : Events) (a : Answers) (s : Session) (m : Metrics) (cfd ufd : ℕ)
    → s.client.fd ≡ some cfd
    → s.upstream.fd ≡ some ufd
    → (ev.epollin ≡ true → ended_at side s ≡ false)
    → IsRelay s
    → (handle_side_io side ev a s m).0 ≡ true
    → let s' = (handle_side_io side ev a s m).1 in
      (asks s'.client_interest || asks s'.upstream_interest) ≡ true
handle_side_io-progress side ev a s m cfd ufd hc hu asked r kept =
    let q = handle_side_io-IsAsked side ev a s m kept in
    let f = handle_side_io-IsSame side ev a s m in
    let w = handle_side_io-IsRelay side ev a s m asked r in
    rw (q.client_asked cfd (f.same_client ∙ hc)) (
      rw (q.upstream_asked ufd (f.same_upstream ∙ hu))
        (session_events-progress _ w.up.buffer w.down.buffer q.unfinished))
