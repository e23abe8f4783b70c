-- ===== src/Infinity/Session/Integrity.antt =====
-- The two streams of bytes of a session of infinity.c, through the stages of an event.
use ryzen_build.Base.{ℕ, ◌≡◌, refl, arith, ◌==◌, ◌&&◌, ◌||◌, if◌then◌else◌, Bool, true, false, List}
use ryzen_build.Base.{Bool-cases, inl, inr, ◌∙◌}
use ryzen_build.Infinity.Buffer.{Buffer, Recv, Send, Rc, moved, idle, broken, eof, buffer_empty}
use ryzen_build.Infinity.Buffer.{relay_read_into_buffer, relay_write_from_buffer}
use ryzen_build.Infinity.Session.{
  Side, client_side, upstream_side, Peer, Events, Session, Metrics, Answers,
}
use ryzen_build.Infinity.Session.{
  Stage, go, stop, and_then, connect_stage, read_stage, read_result, ended_stage,
}
use ryzen_build.Infinity.Session.{
  write_stage, write_result, peer_shutdown_write, session_consider_half_close,
}
use ryzen_build.Infinity.Session.{
  session_refresh_interest, session_fully_done, settle, settled, io_stages, handle_side_io,
}
use ryzen_build.Infinity.Session.Flow.{IsFlow, read-IsFlow, write-IsFlow, end-IsFlow, shut-IsFlow}

-- Both directions of a session.
pub record IsRelay (s : Session) : Type 0 where
  pub up :
      IsFlow s.to_upstream s.client.read_eof s.upstream.write_shutdown s.wire.from_client
        s.wire.to_upstream
  pub down :
      IsFlow s.to_client s.upstream.read_eof s.client.write_shutdown s.wire.from_upstream
        s.wire.to_client

abbrev StageIsRelay : Stage → Type 0
StageIsRelay (go s m) = IsRelay s
StageIsRelay (stop s m) = IsRelay s

abbrev StageKeeps : (Session → Type 0) → Stage → Type 0
StageKeeps P (go s m) = P s
StageKeeps P (stop s m) = P s

-- Whether the stream of a side has ended.
abbrev pub ended_at : Side → Session → Bool
ended_at client_side s = s.client.read_eof
ended_at upstream_side s = s.upstream.read_eof

connect_stage_lem :
    (side : Side) (ev : Events) (connected : Bool) (s : Session) (m : Metrics)
    → IsRelay s
    → StageIsRelay (connect_stage side ev connected s m)
unfolding connect_stage
connect_stage_lem client_side ev connected s m r = r
connect_stage_lem upstream_side ev true s m r =
    elim (Bool-cases (s.upstream.connecting && ev.epollout)) [
      | inl e ↦ rw e (record { up = r.up; down = r.down })
      | inr e ↦ rw e r
    ]
connect_stage_lem upstream_side ev false s m r =
    elim (Bool-cases (s.upstream.connecting && ev.epollout)) [
      | inl e ↦ rw e (record { up = r.up; down = r.down })
      | inr e ↦ rw e r
    ]

read_result_lem :
    (side : Side) (rc : Rc) (s : Session) (m : Metrics)
    → IsRelay s
    → StageIsRelay (read_result side rc s m)
read_result_lem side broken s m r = r
read_result_lem client_side eof s m r = record { up = end-IsFlow (r.up); down = r.down }
read_result_lem upstream_side eof s m r = record { up = r.up; down = end-IsFlow (r.down) }
read_result_lem client_side moved s m r = r
read_result_lem upstream_side moved s m r = r
read_result_lem client_side idle s m r = r
read_result_lem upstream_side idle s m r = r

read_stage_lem :
    (side : Side) (answer : Recv) (s : Session) (m : Metrics)
    → ended_at side s ≡ false
    → IsRelay s
    → StageIsRelay (read_stage side answer s m)
unfolding read_stage
read_stage_lem client_side answer s m h r =
    read_result_lem client_side (relay_read_into_buffer answer s.to_upstream m.bytes_c2u).0 _ _
      (record { up = read-IsFlow (r.up) answer m.bytes_c2u h; down = r.down })
read_stage_lem upstream_side answer s m h r =
    read_result_lem upstream_side (relay_read_into_buffer answer s.to_client m.bytes_u2c).0 _ _
      (record { up = r.up; down = read-IsFlow (r.down) answer m.bytes_u2c h })

ended_stage_lem : (side : Side) (s : Session) → IsRelay s → IsRelay (ended_stage side s)
unfolding ended_stage
ended_stage_lem client_side s r = record { up = end-IsFlow (r.up); down = r.down }
ended_stage_lem upstream_side s r = record { up = r.up; down = end-IsFlow (r.down) }

write_result_lem :
    (rc : Rc) (s : Session) (m : Metrics) → IsRelay s → StageIsRelay (write_result rc s m)
write_result_lem broken s m r = r
write_result_lem eof s m r = r
write_result_lem moved s m r = r
write_result_lem idle s m r = r

write_stage_lem :
    (side : Side) (answer : Send) (s : Session) (m : Metrics)
    → IsRelay s
    → StageIsRelay (write_stage side answer s m)
unfolding write_stage
write_stage_lem client_side answer s m r =
    write_result_lem (relay_write_from_buffer answer s.to_client).0 _ m
      (record { up = r.up; down = write-IsFlow (r.down) answer })
write_stage_lem upstream_side answer s m r = elim (Bool-cases s.upstream.connecting) [
  | inl e ↦ simp e r
  | inr e ↦ simp e (
      write_result_lem (relay_write_from_buffer answer s.to_upstream).0 _ m
        (record { up = write-IsFlow (r.up) answer; down = r.down }))
]

-- The side's end of its stream is set by nothing before the read.
connect_stage-ended :
    (side : Side) (ev : Events) (connected : Bool) (s : Session) (m : Metrics)
    → let keep = λ (t : Session). ended_at side t ≡ ended_at side s in
      StageKeeps keep (connect_stage side ev connected s m)
unfolding connect_stage
connect_stage-ended client_side ev connected s m = refl
connect_stage-ended upstream_side ev true s m = ground arith
connect_stage-ended upstream_side ev false s m = ground arith

abbrev shut_if : Bool → Peer → Peer
shut_if c p = if c then peer_shutdown_write p else p

read_eof-shut_if : (c : Bool) (p : Peer) → (shut_if c p).read_eof ≡ p.read_eof
unfolding peer_shutdown_write
read_eof-shut_if c p = ground arith

shut_if_lem :
    {b : Buffer} {at_end : Bool} {read sent : List ℕ} (c : Bool) (p : Peer)
    → (c ≡ true → (at_end ≡ true) × (b.start ≡ b.fin))
    → IsFlow b at_end p.write_shutdown read sent
    → IsFlow b at_end (shut_if c p).write_shutdown read sent
shut_if_lem true p h f = shut-IsFlow f (h refl).0 (h refl).1 _
shut_if_lem false p h f = f

half_close_lem : (s : Session) → IsRelay s → IsRelay (session_consider_half_close s)
unfolding session_consider_half_close buffer_empty
half_close_lem s r =
    let c = s.client.read_eof && (s.to_upstream.start == s.to_upstream.fin) in
    let d = s.upstream.read_eof && (s.to_client.start == s.to_client.fin) in
    record {
      up =
          rw (read_eof-shut_if d s.client) (shut_if_lem c s.upstream (λ h. ground (arith, h)) r.up);
      down =
          rw (read_eof-shut_if c s.upstream)
            (shut_if_lem d s.client (λ h. ground (arith, h)) r.down);
    }

settle_lem : (s : Session) (m : Metrics) → IsRelay s → IsRelay (settle s m).1
unfolding settle session_refresh_interest
settle_lem s m r =
    let t = session_consider_half_close s in
    let h = half_close_lem s r in
    elim (Bool-cases (session_fully_done t)) [
      | inl e ↦ rw e h
      | inr e ↦ rw e (record { up = h.up; down = h.down })
    ]

settled_lem : (x : Stage) → StageIsRelay x → IsRelay (settled x).1
settled_lem (go s m) r = settle_lem s m r
settled_lem (stop s m) r = r

and_then-StageIsRelay :
    (x : Stage) (f : Session → Metrics → Stage)
    → ((s : Session) (m : Metrics) → IsRelay s → StageIsRelay (f s m))
    → StageIsRelay x
    → StageIsRelay (and_then x f)
and_then-StageIsRelay (go s m) f h r = h s m r
and_then-StageIsRelay (stop s m) f h r = r

-- The two stages after the connection.
abbrev moving : Side → Events → Answers → Session → Metrics → Stage
moving side ev a s1 m1 =
    and_then (if ev.epollin then read_stage side a.received s1 m1 else go s1 m1) (λ s2 m2.
      let s3 = if ev.epollrdhup then ended_stage side s2 else s2 in
      if ev.epollout then write_stage side a.sent s3 m2 else go s3 m2)

read_if_lem :
    (side : Side) (c : Bool) (answer : Recv) (s : Session) (m : Metrics)
    → (c ≡ true → ended_at side s ≡ false)
    → IsRelay s
    → StageIsRelay (if c then read_stage side answer s m else go s m)
read_if_lem side true answer s m h r = read_stage_lem side answer s m (h refl) r
read_if_lem side false answer s m h r = r

write_if_lem :
    (side : Side) (c : Bool) (answer : Send) (s : Session) (m : Metrics)
    → IsRelay s
    → StageIsRelay (if c then write_stage side answer s m else go s m)
write_if_lem side true answer s m r = write_stage_lem side answer s m r
write_if_lem side false answer s m r = r

end_if_lem :
    (side : Side) (c : Bool) (s : Session)
    → IsRelay s
    → IsRelay (if c then ended_stage side s else s)
end_if_lem side true s r = ended_stage_lem side s r
end_if_lem side false s r = r

moving_lem :
    (side : Side) (ev : Events) (a : Answers) (s : Session) (m : Metrics)
    → (ev.epollin ≡ true → ended_at side s ≡ false)
    → IsRelay s
    → StageIsRelay (moving side ev a s m)
moving_lem side ev a s m asked r =
    and_then-StageIsRelay _ _
      (λ s2 m2 q. write_if_lem side ev.epollout a.sent _ m2 (end_if_lem side ev.epollrdhup s2 q))
      (read_if_lem side ev.epollin a.received s m asked r)

-- What comes after a connection that went well.
connected_lem :
    (side : Side) (ev : Events) (a : Answers) (s : Session) (x : Stage)
    → (ev.epollin ≡ true → ended_at side s ≡ false)
    → StageKeeps (λ (t : Session). ended_at side t ≡ ended_at side s) x
    → StageIsRelay x
    → StageIsRelay (and_then x (moving side ev a))
connected_lem side ev a s (go t m) asked same r = moving_lem side ev a t m (λ h. same ∙ asked h) r
connected_lem side ev a s (stop t m) asked same r = r

io_stages_lem :
    (side : Side) (ev : Events) (a : Answers) (s : Session) (m : Metrics)
    → (ev.epollin ≡ true → ended_at side s ≡ false)
    → IsRelay s
    → StageIsRelay (io_stages side ev a s m)
unfolding io_stages
io_stages_lem side ev a s m asked r =
    connected_lem side ev a s (connect_stage side ev a.connected s m) asked
      (connect_stage-ended side ev a.connected s m) (connect_stage_lem side ev a.connected s m r)

touched_lem : (s : Session) (now : ℕ) → IsRelay s → IsRelay (record s { last_activity = now })
touched_lem s now r = record { up = r.up; down = r.down }

ended_at-touched :
    (side : Side) (s : Session) (now : ℕ)
    → ended_at side (record s { last_activity = now }) ≡ ended_at side s
ended_at-touched client_side s now = refl
ended_at-touched upstream_side s now = refl

pub handle_side_io-IsRelay :
    (side : Side) (ev : Events) (a : Answers) (s : Session) (m : Metrics)
    → (ev.epollin ≡ true → ended_at side s ≡ false)
    → IsRelay s
    → IsRelay (handle_side_io side ev a s m).1
unfolding handle_side_io
handle_side_io-IsRelay side ev a s m asked r =
    let t : Session = record s { last_activity = a.now } in
    let q = touched_lem s a.now r in
    elim (Bool-cases (ev.epollerr || ev.epollhup)) [
      | inl e ↦ rw e q
      | inr e ↦ rw e (
          settled_lem (io_stages side ev a t m)
            (io_stages_lem side ev a t m (λ h. ended_at-touched side s a.now ∙ asked h) q))
    ]
