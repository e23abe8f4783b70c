-- ===== src/Infinity/Session/Frame.antt =====
-- What an event at a session of infinity.c leaves alone: the session's id and its descriptors, and
-- the counts of the sessions.
use ryzen_build.Base.{◌≡◌, refl, ◌∙◌, arith, ◌&&◌, ◌||◌, if◌then◌else◌, Bool, true, false}
use ryzen_build.Base.{Bool-cases, inl, inr}
use ryzen_build.Infinity.Buffer.{Recv, Send, Rc, moved, idle, broken, eof}
use ryzen_build.Infinity.Buffer.{relay_read_into_buffer, relay_write_from_buffer}
use ryzen_build.Infinity.Session.{
  Side, client_side, upstream_side, Peer, Events, Session, Metrics, Answers,
}
use ryzen_build.Infinity.Session.{
  Stage, go, stop, and_then, connect_stage, read_stage, read_result, ended_stage,
}
use ryzen_build.Infinity.Session.{
  write_stage, write_result, peer_shutdown_write, session_consider_half_close,
}
use ryzen_build.Infinity.Session.{
  session_refresh_interest, session_fully_done, settle, settled, io_stages, handle_side_io,
}

pub record IsSame (s : Session) (m : Metrics) (s' : Session) (m' : Metrics) : Type 0 where
  pub same_id : s'.id ≡ s.id
  pub same_client : s'.client.fd ≡ s.client.fd
  pub same_upstream : s'.upstream.fd ≡ s.upstream.fd
  pub same_active : m'.active ≡ m.active

module _ (s : Session) (m : Metrics) where
  abbrev StageIsSame : Stage → Type 0
  StageIsSame (go s' m') = IsSame s m s' m'
  StageIsSame (stop s' m') = IsSame s m s' m'

  -- From here on, a second session and its counters stand for what the first has become.
  abbrev From : Session → Metrics → Type 0
  From t n = IsSame s m t n

  again :
      (t t' : Session) (n n' : Metrics)
      → t'.id ≡ t.id
      → t'.client.fd ≡ t.client.fd
      → t'.upstream.fd ≡ t.upstream.fd
      → n'.active ≡ n.active
      → From t n
      → From t' n'
  again t t' n n' a b c d f = record {
    same_id = a ∙ f.same_id;
    same_client = b ∙ f.same_client;
    same_upstream = c ∙ f.same_upstream;
    same_active = d ∙ f.same_active;
  }

  connect_stage-Same :
      (side : Side) (ev : Events) (c : Bool) (t : Session) (n : Metrics)
      → From t n
      → StageIsSame (connect_stage side ev c t n)
  unfolding connect_stage
  connect_stage-Same client_side ev c t n f = f
  connect_stage-Same upstream_side ev true t n f =
      elim (Bool-cases (t.upstream.connecting && ev.epollout)) [
        | inl e ↦ rw e (again t _ n _ refl refl refl refl f)
        | inr e ↦ rw e f
      ]
  connect_stage-Same upstream_side ev false t n f =
      elim (Bool-cases (t.upstream.connecting && ev.epollout)) [
        | inl e ↦ rw e (again t _ n _ refl refl refl refl f)
        | inr e ↦ rw e f
      ]

  read_result-Same :
      (side : Side) (rc : Rc) (t : Session) (n : Metrics)
      → From t n
      → StageIsSame (read_result side rc t n)
  read_result-Same side broken t n f = again t _ n _ refl refl refl refl f
  read_result-Same client_side eof t n f = again t _ n _ refl refl refl refl f
  read_result-Same upstream_side eof t n f = again t _ n _ refl refl refl refl f
  read_result-Same client_side moved t n f = f
  read_result-Same upstream_side moved t n f = f
  read_result-Same client_side idle t n f = f
  read_result-Same upstream_side idle t n f = f

  read_stage-Same :
      (side : Side) (answer : Recv) (t : Session) (n : Metrics)
      → From t n
      → StageIsSame (read_stage side answer t n)
  unfolding read_stage
  read_stage-Same client_side answer t n f =
      read_result-Same client_side (relay_read_into_buffer answer t.to_upstream n.bytes_c2u).0 _ _
        (again t _ n _ refl refl refl refl f)
  read_stage-Same upstream_side answer t n f =
      read_result-Same upstream_side (relay_read_into_buffer answer t.to_client n.bytes_u2c).0 _ _
        (again t _ n _ refl refl refl refl f)

  ended_stage-Same :
      (side : Side) (t : Session) (n : Metrics) → From t n → From (ended_stage side t) n
  unfolding ended_stage
  ended_stage-Same client_side t n f = again t _ n _ refl refl refl refl f
  ended_stage-Same upstream_side t n f = again t _ n _ refl refl refl refl f

  write_result-Same :
      (rc : Rc) (t : Session) (n : Metrics) → From t n → StageIsSame (write_result rc t n)
  write_result-Same broken t n f = again t _ n _ refl refl refl refl f
  write_result-Same eof t n f = again t _ n _ refl refl refl refl f
  write_result-Same moved t n f = f
  write_result-Same idle t n f = f

  write_stage-Same :
      (side : Side) (answer : Send) (t : Session) (n : Metrics)
      → From t n
      → StageIsSame (write_stage side answer t n)
  unfolding write_stage
  write_stage-Same client_side answer t n f =
      write_result-Same (relay_write_from_buffer answer t.to_client).0 _ n
        (again t _ n _ refl refl refl refl f)
  write_stage-Same upstream_side answer t n f = elim (Bool-cases t.upstream.connecting) [
    | inl e ↦ simp e f
    | inr e ↦ simp e (
        write_result-Same (relay_write_from_buffer answer t.to_upstream).0 _ n
          (again t _ n _ refl refl refl refl f))
  ]

  and_then-Same :
      (x : Stage) (k : Session → Metrics → Stage)
      → ((t : Session) (n : Metrics) → From t n → StageIsSame (k t n))
      → StageIsSame x
      → StageIsSame (and_then x k)
  and_then-Same (go t n) k h f = h t n f
  and_then-Same (stop t n) k h f = f

  read_if-Same :
      (side : Side) (c : Bool) (answer : Recv) (t : Session) (n : Metrics)
      → From t n
      → StageIsSame (if c then read_stage side answer t n else go t n)
  read_if-Same side true answer t n f = read_stage-Same side answer t n f
  read_if-Same side false answer t n f = f

  write_if-Same :
      (side : Side) (c : Bool) (answer : Send) (t : Session) (n : Metrics)
      → From t n
      → StageIsSame (if c then write_stage side answer t n else go t n)
  write_if-Same side true answer t n f = write_stage-Same side answer t n f
  write_if-Same side false answer t n f = f

  end_if-Same :
      (side : Side) (c : Bool) (t : Session) (n : Metrics)
      → From t n
      → From (if c then ended_stage side t else t) n
  end_if-Same side true t n f = ended_stage-Same side t n f
  end_if-Same side false t n f = f

  fd-shutdown_if : (c : Bool) (p : Peer) → (if c then peer_shutdown_write p else p).fd ≡ p.fd
  unfolding peer_shutdown_write
  fd-shutdown_if c p = ground arith

  settle-Same : (t : Session) (n : Metrics) → From t n → From (settle t n).1 (settle t n).2
  unfolding settle session_refresh_interest session_consider_half_close
  settle-Same t n f = elim (Bool-cases (session_fully_done (session_consider_half_close t))) [
    | inl e ↦ rw e (again t _ n _ refl (fd-shutdown_if _ _) (fd-shutdown_if _ _) refl f)
    | inr e ↦ rw e (again t _ n _ refl (fd-shutdown_if _ _) (fd-shutdown_if _ _) refl f)
  ]

  settled-Same : (x : Stage) → StageIsSame x → From (settled x).1 (settled x).2
  settled-Same (go t n) f = settle-Same t n f
  settled-Same (stop t n) f = f

  io_stages-Same :
      (side : Side) (ev : Events) (a : Answers) (t : Session) (n : Metrics)
      → From t n
      → StageIsSame (io_stages side ev a t n)
  unfolding io_stages
  io_stages-Same side ev a t n f =
      and_then-Same (connect_stage side ev a.connected t n) _
        (λ t1 n1 f1.
          and_then-Same (if ev.epollin then read_stage side a.received t1 n1 else go t1 n1) _
            (λ t2 n2 f2.
              write_if-Same side ev.epollout a.sent _ n2 (end_if-Same side ev.epollrdhup t2 n2 f2))
            (read_if-Same side ev.epollin a.received t1 n1 f1))
        (connect_stage-Same side ev a.connected t n f)

pub handle_side_io-IsSame :
    (side : Side) (ev : Events) (a : Answers) (s : Session) (m : Metrics)
    → IsSame s m (handle_side_io side ev a s m).1 (handle_side_io side ev a s m).2
unfolding handle_side_io
handle_side_io-IsSame side ev a s m =
    let t : Session = record s { last_activity = a.now } in
    let f : IsSame s m t m = record {
      same_id = refl;
      same_client = refl;
      same_upstream = refl;
      same_active = refl;
    } in
    elim (Bool-cases (ev.epollerr || ev.epollhup)) [
      | inl e ↦ rw e f
      | inr e ↦
          rw e (settled-Same s m (io_stages side ev a t m) (io_stages-Same s m side ev a t m f))
    ]
