-- ===== src/Infinity/Proxy/Steps/Ends.antt =====
-- The sessions that infinity.c ends by itself, and the loop as a whole.
use ryzen_build.Base.{ℕ, ◌+◌, ◌^◌, ◌≤◌, ◌<◌, ◌≡◌, refl, ◌∙◌, arith, ◌==◌, if◌then◌else◌, u64}
use ryzen_build.Base.{length, false, Bool-cases, inl, inr, List, [], ◌∷◌, none, some, ==_iff}
use ryzen_build.Infinity.Session.{Side, Session}
use ryzen_build.Infinity.Proxy.{inf_fd_map_cap, peer, Proxy, Limits, put, start}
use ryzen_build.Infinity.Proxy.{
  find_session, session_unlink, session_destroy, destroy_each, close_all_sessions, is_idle,
  idle_each, enforce_idle_timeouts, Reported, handle_batch, inf_epoll_max_events,
}
use ryzen_build.Infinity.Proxy.Sessions.{IsListed}
use ryzen_build.Infinity.Proxy.Registry.{session_destroy_lem, find-left}
use ryzen_build.Infinity.Proxy.Steps.{IsSafe, destroy-IsSafe}
use ryzen_build.Infinity.Proxy.Steps.Batch.{AllDelivered, AllApart, BatchFresh, handle_batch-IsSafe}

-- The sessions of a list that are still to be looked at: each is in the list of the proxy.
abbrev AllFound : List Session → Proxy → Type 0
AllFound [] p = Unit
AllFound (s ∷ rest) p = (find_session p.sessions s.id ≡ some s) × AllFound rest p

found-cons :
    (n : ℕ) (t : Session) (ss rest : List Session) (p q : Proxy)
    → n ≤ t.id
    → IsListed n ss
    → p.sessions ≡ rest
    → q.sessions ≡ t ∷ rest
    → AllFound ss p
    → AllFound ss q
unfolding find_session
found-cons n t [] rest p q h l e k a = tt
found-cons n t (s ∷ ss) rest p q h l e k (a, b) =
    let other : (t.id == s.id) ≡ false = ground (arith, l.0) in
    (rw k (rw other (rw e at a)), found-cons s.id t ss rest p q (omega (arith, l.0)) l.1 e k b)

found_self :
    (n : ℕ) (ss : List Session) (p : Proxy) → IsListed n ss → p.sessions ≡ ss → AllFound ss p
unfolding find_session
found_self n [] p l e = tt
found_self n (s ∷ ss) p l e = (
  rw e (rw ((==_iff s.id s.id).1 refl) refl),
  found-cons s.id s ss ss (record p { sessions = ss }) p (omega arith) l.1 refl e
      (found_self s.id ss (record p { sessions = ss }) l.1 refl),
)

-- The end of one leaves the others in the list.
found-left :
    (n : ℕ) (ss : List Session) (p q : Proxy) (id : ℕ)
    → IsListed n ss
    → n ≤ id
    → ((j : ℕ) → find_session q.sessions j ≡ (if id == j then none else find_session p.sessions j))
    → AllFound ss p
    → AllFound ss q
found-left n [] p q id l h f a = tt
found-left n (s ∷ ss) p q id l h f (a, b) =
    let other : (id == s.id) ≡ false = ground (arith, l.0) in
    (f s.id ∙ (rw other a), found-left s.id ss p q id l.1 (omega (arith, l.0)) f b)

module _ {l : ℕ} {cfg : Limits} (small : cfg.max_connections < 2 ^ 31) where
  counted-IsSafe :
      (p : Proxy) (n : ℕ)
      → IsSafe l cfg p
      → IsSafe l cfg (record p { metrics = record (p.metrics) { idle_kills = n } })
  counted-IsSafe p n v =
      let w = v.proxy in
      record {
        proxy = record {
          listed = w.listed;
          counted = w.counted;
          known = w.known;
          reached = w.reached;
          open_iff = w.open_iff;
          inside = w.inside;
          listening = w.listening;
        };
        served = v.served;
        limited = v.limited;
      }

  idle_each-IsSafe :
      (now n : ℕ) (ss : List Session) (p : Proxy)
      → IsListed n ss
      → AllFound ss p
      → IsSafe l cfg p
      → IsSafe l cfg (idle_each cfg now ss p)
  unfolding idle_each
  idle_each-IsSafe now n [] p li a v = v
  idle_each-IsSafe now n (s ∷ ss) p li (a, b) v = elim (Bool-cases (is_idle cfg now s)) [
    | inr e ↦ rw e (idle_each-IsSafe now s.id ss p li.1 b v)
    | inl e ↦
        let p' : Proxy = record p {
          metrics = record (p.metrics) { idle_kills = u64 (p.metrics.idle_kills + 1) };
        } in
        let w = counted-IsSafe p (u64 (p.metrics.idle_kills + 1)) v in
        rw e (
          idle_each-IsSafe now s.id ss (session_destroy s p') li.1
            (found-left s.id ss p _ s.id li.1 (omega arith)
              (find-left w.proxy s a _ (session_destroy_lem s p')) b)
            (destroy-IsSafe small s a w))
  ]

  pub enforce_idle_timeouts-IsSafe :
      (now : ℕ) (p : Proxy) → IsSafe l cfg p → IsSafe l cfg (enforce_idle_timeouts cfg now p)
  unfolding enforce_idle_timeouts
  enforce_idle_timeouts-IsSafe now p v =
      let w = v.proxy in
      idle_each-IsSafe now p.next_session_id p.sessions p w.listed
        (found_self p.next_session_id p.sessions p w.listed refl) v

  destroy_each-IsSafe :
      (n : ℕ) (ss : List Session) (p : Proxy)
      → IsListed n ss
      → AllFound ss p
      → IsSafe l cfg p
      → IsSafe l cfg (destroy_each ss p)
  unfolding destroy_each
  destroy_each-IsSafe n [] p li a v = v
  destroy_each-IsSafe n (s ∷ ss) p li (a, b) v =
      destroy_each-IsSafe s.id ss (session_destroy s p) li.1
        (found-left s.id ss p _ s.id li.1 (omega arith)
          (find-left v.proxy s a _ (session_destroy_lem s p)) b)
        (destroy-IsSafe small s a v)

  pub close_all_sessions-IsSafe : (p : Proxy) → IsSafe l cfg p → IsSafe l cfg (close_all_sessions p)
  unfolding close_all_sessions
  close_all_sessions-IsSafe p v =
      let w = v.proxy in
      destroy_each-IsSafe p.next_session_id p.sessions p w.listed
        (found_self p.next_session_id p.sessions p w.listed refl) v

sessions-destroy_each :
    (ss : List Session) (p : Proxy) → p.sessions ≡ ss → (destroy_each ss p).sessions ≡ []
unfolding destroy_each session_unlink
sessions-destroy_each [] p e = e
sessions-destroy_each (s ∷ ss) p e =
    sessions-destroy_each ss (session_destroy s p)
      ((session_destroy_lem s p).unlinked ∙ (rw e (rw ((==_iff s.id s.id).1 refl) refl)))

-- Closing all sessions of a proxy in order leaves none: the list is empty, the count is zero, and no
-- descriptor leads to a session.
pub close_all_sessions_lem :
    (l : ℕ) (cfg : Limits) (p : Proxy)
    → cfg.max_connections < 2 ^ 31
    → IsSafe l cfg p
    → let q = close_all_sessions p in
      (q.sessions ≡ [])
      × (q.metrics.active ≡ 0)
      × ((fd id : ℕ) (side : Side) → ¬ (q.fd_map fd ≡ some (peer id side)))
unfolding close_all_sessions find_session
close_all_sessions_lem l cfg p small v =
    let none_left = sessions-destroy_each p.sessions p refl in
    let w = (close_all_sessions-IsSafe small p v).proxy in
    (
      none_left,
      w.counted ∙ (rw none_left refl),
      λ fd id side e. ground (arith, rw none_left at (w.known fd id side e)),
    )

-- The events of one `epoll_wait`, the test for idle sessions, or the end of the loop.
pub data Step (cfg : Limits) : Proxy → Proxy → Type 0 where
  batch :
      (es : List Reported) (p : Proxy)
      → length es ≤ inf_epoll_max_events
      → AllApart es
      → BatchFresh cfg es p
      → AllDelivered p es
      → Step cfg p (handle_batch cfg es p)
  maintenance : (now : ℕ) (p : Proxy) → Step cfg p (enforce_idle_timeouts cfg now p)
  shutdown : (p : Proxy) → Step cfg p (close_all_sessions p)

pub data Reach (cfg : Limits) (l : ℕ) : Proxy → Type 0 where
  started : Reach cfg l (start l)
  next : {p q : Proxy} → Reach cfg l p → Step cfg p q → Reach cfg l q

Step-IsSafe :
    {l : ℕ} {cfg : Limits} {p q : Proxy}
    → cfg.max_connections < 2 ^ 31
    → Step cfg p q
    → IsSafe l cfg p
    → IsSafe l cfg q
Step-IsSafe small (batch es p few apart f d) v = handle_batch-IsSafe small es p apart f d v
Step-IsSafe small (maintenance now p) v = enforce_idle_timeouts-IsSafe small now p v
Step-IsSafe small (shutdown p) v = close_all_sessions-IsSafe small p v

start-IsSafe : (l : ℕ) (cfg : Limits) → l < inf_fd_map_cap → IsSafe l cfg (start l)
unfolding start put find_session
start-IsSafe l cfg h = record {
  proxy = record {
    listed = tt;
    counted = refl;
    known = λ fd id side e. absurd (ground (arith, e));
    reached = λ fd id side e. absurd (ground (arith, e));
    open_iff = λ fd. ground arith;
    inside = λ fd e. ground (arith, e, h);
    listening = ground arith;
  };
  served = λ id s e. absurd (ground (arith, e));
  limited = omega arith;
}

-- In every state that the loop reaches, if the limit is no negative `int`, the listener's descriptor has
-- its place in the array, `accept` and `socket` give descriptors that are not open, the ids last, and one
-- `epoll_wait` reports a descriptor once and input only where it was asked for at that time, though the
-- event may be stale when its turn comes: a descriptor leads to a side of a session exactly if the
-- session is in the list and has it, the open descriptors are the registered ones, `active` counts the
-- sessions and keeps to the limit, each session has in both directions sent what it has read but for
-- what is in the buffer, and epoll waits for one of its sides.
pub Reach-IsSafe :
    (cfg : Limits) (l : ℕ) (p : Proxy)
    → l < inf_fd_map_cap
    → cfg.max_connections < 2 ^ 31
    → Reach cfg l p
    → IsSafe l cfg p
Reach-IsSafe cfg l p h small started = start-IsSafe l cfg h
Reach-IsSafe cfg l q h small (next {p} r st) = Step-IsSafe small st (Reach-IsSafe cfg l p h small r)
