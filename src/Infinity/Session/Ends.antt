-- ===== src/Infinity/Session/Ends.antt =====
-- An event at one side of a session of infinity.c does not end the stream of the other side.
use ryzen_build.Base.{ℕ, ◌≡◌, arith, ◌&&◌, ◌||◌, if◌then◌else◌, Bool, true, false}
use ryzen_build.Base.{Bool-cases, inl, inr}
use ryzen_build.Infinity.Buffer.{Recv, Send, Rc, moved, idle, broken, eof, buffer_empty}
use ryzen_build.Infinity.Buffer.{relay_read_into_buffer, relay_write_from_buffer}
use ryzen_build.Infinity.Session.{
  Side, client_side, upstream_side, Peer, Events, Session, Metrics, Answers, Stage, go, stop,
  and_then, connect_stage, read_stage, read_result, ended_stage, write_stage, write_result,
  peer_shutdown_write, session_consider_half_close, session_refresh_interest, session_fully_done,
  settle, settled, io_stages, handle_side_io,
}
use ryzen_build.Infinity.Session.Integrity.{ended_at}

abbrev pub other : Side → Side
other client_side = upstream_side
other upstream_side = client_side

-- Whether the stream of the other side has ended is `b`.
abbrev Kept : Bool → Side → Session → Type 0
Kept b side t = ended_at (other side) t ≡ b

abbrev StageKept : Bool → Side → Stage → Type 0
StageKept b side (go t n) = Kept b side t
StageKept b side (stop t n) = Kept b side t

module _ {b : Bool} where
  connect_stage-Kept :
      (side : Side) (ev : Events) (c : Bool) (t : Session) (n : Metrics)
      → Kept b side t
      → StageKept b side (connect_stage side ev c t n)
  unfolding connect_stage
  connect_stage-Kept client_side ev c t n f = f
  connect_stage-Kept upstream_side ev true t n f =
      elim (Bool-cases (t.upstream.connecting && ev.epollout)) [ inl e ↦ rw e f | inr e ↦ rw e f ]
  connect_stage-Kept upstream_side ev false t n f =
      elim (Bool-cases (t.upstream.connecting && ev.epollout)) [ inl e ↦ rw e f | inr e ↦ rw e f ]

  read_result-Kept :
      (side : Side) (rc : Rc) (t : Session) (n : Metrics)
      → Kept b side t
      → StageKept b side (read_result side rc t n)
  read_result-Kept side broken t n f = f
  read_result-Kept client_side eof t n f = f
  read_result-Kept upstream_side eof t n f = f
  read_result-Kept client_side moved t n f = f
  read_result-Kept upstream_side moved t n f = f
  read_result-Kept client_side idle t n f = f
  read_result-Kept upstream_side idle t n f = f

  read_if-Kept :
      (side : Side) (c : Bool) (answer : Recv) (t : Session) (n : Metrics)
      → Kept b side t
      → StageKept b side (if c then read_stage side answer t n else go t n)
  unfolding read_stage
  read_if-Kept client_side true answer t n f =
      read_result-Kept client_side (relay_read_into_buffer answer t.to_upstream n.bytes_c2u).0 _ _ f
  read_if-Kept upstream_side true answer t n f =
      read_result-Kept upstream_side (relay_read_into_buffer answer t.to_client n.bytes_u2c).0 _ _ f
  read_if-Kept side false answer t n f = f

  end_if-Kept :
      (side : Side) (c : Bool) (t : Session)
      → Kept b side t
      → Kept b side (if c then ended_stage side t else t)
  unfolding ended_stage
  end_if-Kept client_side true t f = f
  end_if-Kept upstream_side true t f = f
  end_if-Kept side false t f = f

  write_result-Kept :
      (side : Side) (rc : Rc) (t : Session) (n : Metrics)
      → Kept b side t
      → StageKept b side (write_result rc t n)
  write_result-Kept side broken t n f = f
  write_result-Kept side eof t n f = f
  write_result-Kept side moved t n f = f
  write_result-Kept side idle t n f = f

  write_if-Kept :
      (side : Side) (c : Bool) (answer : Send) (t : Session) (n : Metrics)
      → Kept b side t
      → StageKept b side (if c then write_stage side answer t n else go t n)
  unfolding write_stage
  write_if-Kept side false answer t n f = f
  write_if-Kept client_side true answer t n f =
      write_result-Kept client_side (relay_write_from_buffer answer t.to_client).0 _ n f
  write_if-Kept upstream_side true answer t n f = elim (Bool-cases t.upstream.connecting) [
    | inl e ↦ simp e f
    | inr e ↦
        simp e
          (write_result-Kept upstream_side (relay_write_from_buffer answer t.to_upstream).0 _ n f)
  ]

  and_then-Kept :
      (side : Side) (x : Stage) (k : Session → Metrics → Stage)
      → ((t : Session) (n : Metrics) → Kept b side t → StageKept b side (k t n))
      → StageKept b side x
      → StageKept b side (and_then x k)
  and_then-Kept side (go t n) k h f = h t n f
  and_then-Kept side (stop t n) k h f = f

  io_stages-Kept :
      (side : Side) (ev : Events) (a : Answers) (t : Session) (n : Metrics)
      → Kept b side t
      → StageKept b side (io_stages side ev a t n)
  unfolding io_stages
  io_stages-Kept side ev a t n f =
      and_then-Kept side _ _
        (λ t1 n1 f1.
          and_then-Kept side _ _
            (λ t2 n2 f2.
              write_if-Kept side ev.epollout a.sent _ n2 (end_if-Kept side ev.epollrdhup t2 f2))
            (read_if-Kept side ev.epollin a.received t1 n1 f1))
        (connect_stage-Kept side ev a.connected t n f)

  shut-Kept :
      (c : Bool) (p : Peer) → p.read_eof ≡ b → (if c then peer_shutdown_write p else p).read_eof ≡ b
  unfolding peer_shutdown_write
  shut-Kept c p h = ground (arith, h)

  half_close-Kept :
      (side : Side) (t : Session) → Kept b side t → Kept b side (session_consider_half_close t)
  unfolding session_consider_half_close
  half_close-Kept client_side t f =
      shut-Kept (t.client.read_eof && buffer_empty t.to_upstream) t.upstream f
  half_close-Kept upstream_side t f =
      shut-Kept (t.upstream.read_eof && buffer_empty t.to_client) t.client f

  refresh-Kept :
      (side : Side) (t : Session) → Kept b side t → Kept b side (session_refresh_interest t)
  unfolding session_refresh_interest
  refresh-Kept client_side t f = f
  refresh-Kept upstream_side t f = f

  settled-Kept : (side : Side) (x : Stage) → StageKept b side x → Kept b side (settled x).1
  unfolding settle
  settled-Kept side (stop t n) f = f
  settled-Kept side (go t n) f =
      let q = half_close-Kept side t f in
      elim (Bool-cases (session_fully_done (session_consider_half_close t))) [
        | inl e ↦ rw e q
        | inr e ↦ rw e (refresh-Kept side (session_consider_half_close t) q)
      ]

  touched-Kept :
      (side : Side) (t : Session) (now : ℕ)
      → Kept b side t
      → Kept b side (record t { last_activity = now })
  touched-Kept client_side t now f = f
  touched-Kept upstream_side t now f = f

  pub handle_side_io-Kept :
      (side : Side) (ev : Events) (a : Answers) (s : Session) (m : Metrics)
      → ended_at (other side) s ≡ b
      → ended_at (other side) (handle_side_io side ev a s m).1 ≡ b
  unfolding handle_side_io
  handle_side_io-Kept side ev a s m f =
      let q = touched-Kept side s a.now f in
      elim (Bool-cases (ev.epollerr || ev.epollhup)) [
        | inl e ↦ rw e q
        | inr e ↦ rw e (settled-Kept side _ (io_stages-Kept side ev a _ m q))
      ]
