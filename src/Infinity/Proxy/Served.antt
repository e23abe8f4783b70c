-- ===== src/Infinity/Proxy/Served.antt =====
-- What holds of each session that infinity.c has in its list.
use ryzen_build.Base.{
  ℕ, ◌≡◌, refl, sym, ap, ◌∙◌, arith, ◌==◌, ◌||◌, if◌then◌else◌, length-replicate,
}
use ryzen_build.Base.{true, false, Bool-cases, inl, inr, [], Option, none, some, ==_iff}
use ryzen_build.Infinity.Buffer.{empty_buffer, inf_buffer_cap}
use ryzen_build.Infinity.Session.{
  Side, client_side, upstream_side, Events, Session, Metrics, Answers, handle_side_io,
  session_events_for_side,
}
use ryzen_build.Infinity.Session.Flow.{IsFlow}
use ryzen_build.Infinity.Session.Frame.{IsSame, handle_side_io-IsSame}
use ryzen_build.Infinity.Session.Integrity.{IsRelay, ended_at, handle_side_io-IsRelay}
use ryzen_build.Infinity.Session.Progress.{IsAsked, handle_side_io-IsAsked, handle_side_io-progress}
use ryzen_build.Infinity.Proxy.{
  Proxy, Connection, find_session, store, session_destroy, new_session,
}
use ryzen_build.Infinity.Proxy.Sessions.{find-store, IsListed-store, length-store}
use ryzen_build.Infinity.Proxy.Registry.{IsProxy, fd_at, fd_of, find-left, session_destroy_lem}
use ryzen_build.Infinity.Proxy.Accept.{IsFresh, IsBack}
use ryzen_build.Infinity.Proxy.Accept.Outcome.{IsAdded, added_session}
use ryzen_build.Infinity.Proxy.Accept.Added.{find-added}

abbrev pub interest_of : Side → Session → Events
interest_of client_side s = s.client_interest
interest_of upstream_side s = s.upstream_interest

-- Its two descriptors are there, its relay is in order, epoll does not wait for input from a side that
-- has ended, and waits for input or output of one of them.
pub record IsServed (s : Session) : Type 0 where
  pub has_client : (fd : ℕ) × (s.client.fd ≡ some fd)
  pub has_upstream : (fd : ℕ) × (s.upstream.fd ≡ some fd)
  pub relay : IsRelay s
  pub asked : (side : Side) → (interest_of side s).epollin ≡ true → ended_at side s ≡ false
  pub waits :
      ((s.client_interest.epollin || s.client_interest.epollout)
        || (s.upstream_interest.epollin || s.upstream_interest.epollout))
      ≡ true

-- Every session of the list.
abbrev pub Each : (Session → Type 0) → Proxy → Type 0
Each P p = (id : ℕ) (s : Session) → find_session p.sessions id ≡ some s → P s

abbrev pub AllServed : Proxy → Type 0
AllServed p = Each IsServed p

asked-IsAsked :
    (s : Session) (side : Side)
    → IsAsked s
    → (fd : ℕ) × (s.client.fd ≡ some fd)
    → (fd : ℕ) × (s.upstream.fd ≡ some fd)
    → (interest_of side s).epollin ≡ true
    → ended_at side s ≡ false
unfolding session_events_for_side
asked-IsAsked s client_side q (cfd, hc) (ufd, hu) e =
    ground (arith, rw (q.client_asked cfd hc) at e)
asked-IsAsked s upstream_side q (cfd, hc) (ufd, hu) e =
    ground (arith, rw (q.upstream_asked ufd hu) at e)

-- An event at a session that goes on.
pub handle_side_io-IsServed :
    (side : Side) (ev : Events) (a : Answers) (s : Session) (m : Metrics)
    → (ev.epollin ≡ true → ended_at side s ≡ false)
    → IsServed s
    → (handle_side_io side ev a s m).0 ≡ true
    → IsServed (handle_side_io side ev a s m).1
handle_side_io-IsServed side ev a s m h v kept =
    let (cfd, hc) = v.has_client in
    let (ufd, hu) = v.has_upstream in
    let f = handle_side_io-IsSame side ev a s m in
    let hc' = f.same_client ∙ hc in
    let hu' = f.same_upstream ∙ hu in
    record {
      has_client = (cfd, hc');
      has_upstream = (ufd, hu');
      relay = handle_side_io-IsRelay side ev a s m h v.relay;
      asked = λ x e.
          asked-IsAsked _ x (handle_side_io-IsAsked side ev a s m kept) (cfd, hc') (ufd, hu') e;
      waits = handle_side_io-progress side ev a s m cfd ufd hc hu h v.relay kept;
    }

empty-IsFlow : IsFlow empty_buffer false false [] []
unfolding empty_buffer
empty-IsFlow = record {
  buffer = record {
    room = length-replicate inf_buffer_cap 0;
    ordered = omega arith;
    fits = omega arith;
    fresh = λ e. refl;
  };
  whole = refl;
  ended = λ e. absurd (ground (arith, e));
}

asked_new :
    (c : Connection) (u : ℕ) (p : Proxy) (side : Side)
    → (interest_of side (added_session c u p)).epollin ≡ true
    → ended_at side (added_session c u p) ≡ false
unfolding new_session
asked_new c u p client_side e = refl
asked_new c u p upstream_side e = refl

pub added-IsServed : (c : Connection) (u : ℕ) (p : Proxy) → IsServed (added_session c u p)
unfolding new_session session_events_for_side
added-IsServed c u p = record {
  has_client = (c.cfd, refl);
  has_upstream = (u, refl);
  relay = record { up = empty-IsFlow; down = empty-IsFlow };
  asked = λ side e. asked_new c u p side e;
  waits = ground arith;
}

abbrev unsome : Session → Option Session → Session
unsome d none = d
unsome d (some s) = s

-- A session put back after an event.
module _ {l : ℕ} {p : Proxy} (v : IsProxy l p) (s t : Session) (m : Metrics)
    (found : find_session p.sessions s.id ≡ some s) (f : IsSame s p.metrics t m) where
  abbrev stored : Proxy
  stored = store t (record p { metrics = m })

  found_at : (id : ℕ) → (t.id == id) ≡ true → find_session p.sessions id ≡ some s
  found_at id e = ap (find_session p.sessions) (sym (sym f.same_id ∙ (==_iff t.id id).0 e)) ∙ found

  fd_of-same : (side : Side) → fd_of side t ≡ fd_of side s
  fd_of-same client_side = f.same_client
  fd_of-same upstream_side = f.same_upstream

  pub find-stored :
      (id : ℕ)
      → find_session stored.sessions id
        ≡ (if t.id == id then some t else find_session p.sessions id)
  unfolding store
  find-stored id = elim (Bool-cases (t.id == id)) [
    | inl e ↦ find-store p.sessions t id ∙ (rw e (rw (found_at id e) refl))
    | inr e ↦ find-store p.sessions t id ∙ (rw e refl)
  ]

  fd_at-stored :
      (side : Side) (id : ℕ)
      → fd_at side (find_session stored.sessions id) ≡ fd_at side (find_session p.sessions id)
  fd_at-stored side id = elim (Bool-cases (t.id == id)) [
    | inl e ↦ rw (find-stored id) (rw e (rw (found_at id e) (fd_of-same side)))
    | inr e ↦ rw (find-stored id) (rw e refl)
  ]

  pub stored-IsProxy : IsProxy l stored
  unfolding store
  stored-IsProxy = record {
    listed = IsListed-store p.next_session_id p.sessions t v.listed;
    counted = f.same_active ∙ (v.counted ∙ sym (length-store p.sessions t));
    known = λ fd id side e. fd_at-stored side id ∙ v.known fd id side e;
    reached = λ fd id side e. v.reached fd id side (sym (fd_at-stored side id) ∙ e);
    open_iff = v.open_iff;
    inside = v.inside;
    listening = v.listening;
  }

  pub stored-Each : (P : Session → Type 0) → P t → Each P p → Each P stored
  stored-Each P ok all id s' e = elim (Bool-cases (t.id == id)) [
    | inl i ↦
        let here : find_session stored.sessions id ≡ some t = find-stored id ∙ (rw i refl) in
        let same : t ≡ s' = ap (unsome t) (sym here ∙ e) in rw same at ok
    | inr i ↦ all id s' (sym (find-stored id ∙ (rw i refl)) ∙ e)
  ]

-- A session that ends with an event.
module _ {l : ℕ} {p : Proxy} (v : IsProxy l p) (s t : Session) (m : Metrics)
    (found : find_session p.sessions s.id ≡ some s) (f : IsSame s p.metrics t m) where
  abbrev after_event : Proxy
  after_event = store t (record p { metrics = m })

  pub find_self : find_session after_event.sessions t.id ≡ some t
  find_self = find-stored v s t m found f t.id ∙ (rw ((==_iff t.id t.id).1 refl) refl)

  pub ended-Each : (P : Session → Type 0) → Each P p → Each P (session_destroy t after_event)
  ended-Each P all id x e =
      let left =
        find-left (stored-IsProxy v s t m found f) t find_self _ (session_destroy_lem t after_event)
          id in
      elim (Bool-cases (t.id == id)) [
        | inl i ↦
            let gone : find_session (session_destroy t after_event).sessions id ≡ none =
              left ∙ (rw i refl) in
            absurd (ground (arith, gone, e))
        | inr i ↦
            let same : find_session (session_destroy t after_event).sessions id
                ≡ find_session p.sessions id =
              left ∙ (rw i (find-stored v s t m found f id ∙ (rw i refl))) in
            all id x (sym same ∙ e)
      ]

-- The two ends of an event, and of an accepted connection, for all sessions.
pub destroyed-Each :
    (P : Session → Type 0) {l : ℕ} {p : Proxy} (v : IsProxy l p) (s : Session)
    → find_session p.sessions s.id ≡ some s
    → Each P p
    → Each P (session_destroy s p)
destroyed-Each P {p = p} v s h all id t e = elim (Bool-cases (s.id == id)) [
  | inl i ↦
      let gone : find_session (session_destroy s p).sessions id ≡ none =
        find-left v s h _ (session_destroy_lem s p) id ∙ (rw i refl) in
      absurd (ground (arith, gone, e))
  | inr i ↦
      let same : find_session (session_destroy s p).sessions id ≡ find_session p.sessions id =
        find-left v s h _ (session_destroy_lem s p) id ∙ (rw i refl) in
      all id t (sym same ∙ e)
]

pub back-Each : (P : Session → Type 0) (p q : Proxy) → IsBack p q → Each P p → Each P q
back-Each P p q b all id s e = all id s (rw (b.same_sessions) at e)

pub added-Each :
    (P : Session → Type 0) {l : ℕ} {p q : Proxy} (v : IsProxy l p) (c : Connection) (u : ℕ)
    (f : IsFresh c p) (a : IsAdded c u p q)
    → P (added_session c u p)
    → Each P p
    → Each P q
added-Each P {p = p} {q = q} v c u f a new all id s e =
    elim (Bool-cases (p.next_session_id == id)) [
      | inl i ↦
          let here : find_session q.sessions id ≡ some (added_session c u p) =
            find-added v c u f a id ∙ (rw i refl) in
          let same : added_session c u p ≡ s = ap (unsome s) (sym here ∙ e) in rw same at new
      | inr i ↦
          let same : find_session q.sessions id ≡ find_session p.sessions id =
            find-added v c u f a id ∙ (rw i refl) in
          all id s (sym same ∙ e)
    ]
