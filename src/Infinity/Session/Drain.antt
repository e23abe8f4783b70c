-- ===== src/Infinity/Session/Drain.antt =====
-- The bytes that wait for a client of infinity.c, over many events.
use ryzen_build.Base.{ℕ, ◌-◌, ◌≤◌, ◌<◌, ◌≡◌, refl, sym, ap, ◌∙◌, arith, if◌then◌else◌}
use ryzen_build.Base.{
  Bool, true, false, Bool-cases, inl, inr, ◌⊎◌, List, [], ◌∷◌, ◌++◌, length, append-nil,
}
use ryzen_build.Infinity.Buffer.{
  Buffer, buffer_empty, buffer_size, Send, Rc, moved, idle, broken, eof,
}
use ryzen_build.Infinity.Buffer.{relay_write_from_buffer, after_send}
use ryzen_build.Infinity.Buffer.Stream.{IsBuffer}
use ryzen_build.Infinity.Session.{client_side, Events, Session, Metrics, Answers}
use ryzen_build.Infinity.Session.{
  go, settle, session_consider_half_close, session_fully_done, session_refresh_interest,
}
use ryzen_build.Infinity.Session.{
  io_stages, connect_stage, write_stage, write_result, handle_side_io,
}
use ryzen_build.Infinity.Session.Integrity.{IsRelay, handle_side_io-IsRelay}

-- The event that the client's socket has room.
abbrev pub writable : Events
writable = record {
  epollin = false;
  epollout = true;
  epollerr = false;
  epollhup = false;
  epollrdhup = false;
}

-- That event again and again, with the answers of the system to each, until the session ends.
abbrev pub client_sends : List Answers → Session → Metrics → Bool × Session × Metrics
client_sends [] s m = (true, s, m)
client_sends (a ∷ more) s m =
    let (keep, s', m') = handle_side_io client_side writable a s m in
    if keep then client_sends more s' m' else (false, s', m')

-- Each time `send` takes a byte or more.
abbrev pub AllTaken : List Answers → Type 0
AllTaken [] = Unit
AllTaken (a ∷ more) = ((n : ℕ) × (0 < n) × (a.sent ≡ Send.taken n)) × AllTaken more

-- What one such event does.
record IsSent (s : Session) (n : ℕ) (out : Bool × Session × Metrics) : Type 0 where
  relay : IsRelay out.1
  smaller : buffer_size out.1.to_client ≡ buffer_size s.to_client - n
  same_source : out.1.wire.from_upstream ≡ s.wire.from_upstream
  done : out.0 ≡ false → buffer_size out.1.to_client ≡ 0

sent_rc :
    (b : Buffer) (n : ℕ)
    → IsBuffer b
    → 0 < n
    → let r = (relay_write_from_buffer (Send.taken n) b) in
      ((r.0 ≡ moved) ⊎ (r.0 ≡ idle)) × (buffer_size r.1 ≡ buffer_size b - n)
unfolding relay_write_from_buffer after_send buffer_empty buffer_size
sent_rc b n v h = ground (arith, v.ordered)

-- The session after the send, before its end is looked at.
abbrev after : Session → Answers → ℕ → Session
after s a n =
    let (rc, b, vs) = relay_write_from_buffer (Send.taken n) s.to_client in
    record s {
      last_activity = a.now;
      to_client = b;
      wire = record (s.wire) { to_client = s.wire.to_client ++ vs };
    }

go_on :
    (rc : Rc) (t : Session) (m : Metrics)
    → (rc ≡ moved) ⊎ (rc ≡ idle)
    → write_result rc t m ≡ go t m
go_on moved t m h = refl
go_on idle t m h = refl
go_on broken t m h = absurd (ground (arith, h))
go_on eof t m h = absurd (ground (arith, h))

handle_side_io-writable :
    (s : Session) (m : Metrics) (a : Answers) (n : ℕ)
    → a.sent ≡ Send.taken n
    → 0 < n
    → IsBuffer s.to_client
    → handle_side_io client_side writable a s m ≡ settle (after s a n) m
unfolding handle_side_io io_stages connect_stage write_stage
handle_side_io-writable s m a n e h v =
    rw e (rw (go_on _ (after s a n) m (sent_rc s.to_client n v h).0) refl)

settle_lem :
    (t : Session) (m : Metrics)
    → let out = settle t m in
      (out.1.to_client ≡ t.to_client)
      × (out.1.wire.from_upstream ≡ t.wire.from_upstream)
      × (out.0 ≡ false → buffer_size t.to_client ≡ 0)
unfolding settle session_refresh_interest session_consider_half_close session_fully_done
    buffer_empty buffer_size
settle_lem t m = elim (Bool-cases (session_fully_done (session_consider_half_close t))) [
  | inl e ↦ rw e (refl, refl, λ h. ground (arith, e))
  | inr e ↦ rw e (refl, refl, λ h. absurd (ground (arith, h)))
]

one_sent :
    (s : Session) (m : Metrics) (a : Answers) (n : ℕ)
    → a.sent ≡ Send.taken n
    → 0 < n
    → IsRelay s
    → IsSent s n (handle_side_io client_side writable a s m)
one_sent s m a n e h r =
    let q = settle_lem (after s a n) m in
    let w = (sent_rc s.to_client n r.down.buffer h).1 in
    let same = handle_side_io-writable s m a n e h r.down.buffer in
    record {
      relay = handle_side_io-IsRelay client_side writable a s m (λ f. absurd (ground (arith, f))) r;
      smaller = rw same (ap buffer_size q.0 ∙ w);
      same_source = rw same q.1;
      done = λ f. rw same (ap buffer_size q.0 ∙ q.2 (rw same at f));
    }

-- If the relay of a session is in order, and the client's socket has room and takes a byte or more
-- each time, then after as many such events as bytes wait for it, whether the session goes on or has
-- ended, all that was read from the upstream has been sent to the client.
pub client_sends-drained :
    (answers : List Answers) (s : Session) (m : Metrics)
    → AllTaken answers
    → buffer_size s.to_client ≤ length answers
    → IsRelay s
    → (client_sends answers s m).1.wire.to_client ≡ s.wire.from_upstream
unfolding buffer_size
client_sends-drained [] s m t h r =
    let none_left : s.to_client.fin - s.to_client.start ≡ 0 = omega (arith, h) in
    sym ((rw none_left at (r.down.whole)) ∙ append-nil _)
client_sends-drained (a ∷ more) s m ((n, pos, e), t) h r =
    let q = one_sent s m a n e pos r in
    elim (Bool-cases (handle_side_io client_side writable a s m).0) [
      | inl k ↦
          rw k
            (client_sends-drained more _ _ t (omega (arith, q.smaller, h)) q.relay ∙ q.same_source)
      | inr k ↦
          rw k (sym (sym q.same_source ∙ (rw (q.done k) at (q.relay.down.whole)) ∙ append-nil _))
    ]
