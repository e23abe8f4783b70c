-- ===== src/Infinity/Proxy/Registry.antt =====
-- The registry of descriptors of infinity.c against the list of its sessions.
use ryzen_build.Base.{
  ℕ, ◌-◌, ◌<◌, ◌≡◌, refl, sym, ap, ◌∙◌, arith, ltb, ◌==◌, ◌&&◌, ◌||◌, if◌then◌else◌,
}
use ryzen_build.Base.{
  Bool, true, false, Bool-cases, inl, inr, length, Option, none, some, ◌↔◌, ==_iff,
}
use ryzen_build.Infinity.Session.{Side, client_side, upstream_side, Session}
use ryzen_build.Infinity.Proxy.{
  inf_fd_map_cap, listener, peer, Proxy, put, close, unregister_fd_ctx, release,
}
use ryzen_build.Infinity.Proxy.{find_session, session_unlink, session_destroy}
use ryzen_build.Infinity.Proxy.Sessions.{IsListed, find-unlink, IsListed-unlink, length-unlink}

-- The descriptor of a side of a session, if there is one.
abbrev pub fd_of : Side → Session → Option ℕ
fd_of client_side s = s.client.fd
fd_of upstream_side s = s.upstream.fd

abbrev pub fd_at : Side → Option Session → Option ℕ
fd_at side none = none
fd_at side (some s) = fd_of side s

abbrev pub is_some {ℓ} : {A : Type ℓ} → Option A → Bool
is_some none = false
is_some (some a) = true

-- The sessions have ids of their own below the next one, and `active` is their number; a descriptor
-- leads to a side of a session exactly if the session is in the list and the descriptor is that of
-- the side; the descriptors that are open are the registered ones, the listener's among them, and
-- lie inside the array.
pub record IsProxy (l : ℕ) (p : Proxy) : Type 0 where
  pub listed : IsListed p.next_session_id p.sessions
  pub counted : p.metrics.active ≡ length p.sessions
  pub known :
      (fd id : ℕ) (side : Side)
      → p.fd_map fd ≡ some (peer id side)
      → fd_at side (find_session p.sessions id) ≡ some fd
  pub reached :
      (fd id : ℕ) (side : Side)
      → fd_at side (find_session p.sessions id) ≡ some fd
      → p.fd_map fd ≡ some (peer id side)
  pub open_iff : (fd : ℕ) → p.opened fd ≡ is_some (p.fd_map fd)
  pub inside : (fd : ℕ) → p.opened fd ≡ true → fd < inf_fd_map_cap
  pub listening : p.fd_map l ≡ some listener

abbrev pub is_fd : Option ℕ → ℕ → Bool
is_fd none j = false
is_fd (some k) j = k == j

-- What `release` does.
pub record IsReleased (o : Option ℕ) (p q : Proxy) : Type 0 where
  pub unmapped :
      (j : ℕ) → q.fd_map j ≡ (if is_fd o j && ltb j inf_fd_map_cap then none else p.fd_map j)
  pub closed : (j : ℕ) → q.opened j ≡ (if is_fd o j then false else p.opened j)
  pub sessions_same : q.sessions ≡ p.sessions
  pub metrics_same : q.metrics ≡ p.metrics
  pub id_same : q.next_session_id ≡ p.next_session_id

unmapped_lem :
    (fd j : ℕ) (p : Proxy)
    → (unregister_fd_ctx fd p).fd_map j
      ≡ (if (fd == j) && ltb j inf_fd_map_cap then none else p.fd_map j)
unfolding unregister_fd_ctx put
unmapped_lem fd j p = ground arith

unregister-rest :
    (fd : ℕ) (p : Proxy)
    → let q = unregister_fd_ctx fd p in
      (q.opened ≡ p.opened)
      × (q.sessions ≡ p.sessions)
      × (q.metrics ≡ p.metrics)
      × (q.next_session_id ≡ p.next_session_id)
unfolding unregister_fd_ctx
unregister-rest fd p = elim (Bool-cases (ltb fd inf_fd_map_cap)) [
  | inl e ↦ rw e (refl, refl, refl, refl)
  | inr e ↦ rw e (refl, refl, refl, refl)
]

pub release_lem : (o : Option ℕ) (p : Proxy) → IsReleased o p (release o p)
unfolding release close put
release_lem none p = record {
  unmapped = λ j. refl;
  closed = λ j. refl;
  sessions_same = refl;
  metrics_same = refl;
  id_same = refl;
}
release_lem (some fd) p =
    let (same_open, same_sessions, same_metrics, same_id) = unregister-rest fd p in
    record {
      unmapped = λ j. unmapped_lem fd j p;
      closed = λ j. rw same_open refl;
      sessions_same = same_sessions;
      metrics_same = same_metrics;
      id_same = same_id;
    }

-- What `session_destroy` does, for any session.
pub record IsDestroyed (s : Session) (p q : Proxy) : Type 0 where
  pub unmapped :
      (j : ℕ)
      → q.fd_map j ≡ (
          if (is_fd s.client.fd j || is_fd s.upstream.fd j) && ltb j inf_fd_map_cap
          then none
          else p.fd_map j)
  pub closed :
      (j : ℕ)
      → q.opened j ≡ (if is_fd s.client.fd j || is_fd s.upstream.fd j then false else p.opened j)
  pub unlinked : q.sessions ≡ session_unlink s.id p.sessions
  pub uncounted : q.metrics.active ≡ p.metrics.active - 1
  pub id_same : q.next_session_id ≡ p.next_session_id

pub session_destroy_lem : (s : Session) (p : Proxy) → IsDestroyed s p (session_destroy s p)
unfolding session_destroy
session_destroy_lem s p =
    let r = release s.client.fd p in
    let f = release_lem s.client.fd p in
    let g = release_lem s.upstream.fd r in
    record {
      unmapped = λ j. ground (arith, f.unmapped j, g.unmapped j);
      closed = λ j. ground (arith, f.closed j, g.closed j);
      unlinked = ap (session_unlink s.id) (g.sessions_same ∙ f.sessions_same);
      uncounted = rw (g.metrics_same ∙ f.metrics_same) (ground arith);
      id_same = g.id_same ∙ f.id_same;
    }

none≢some {ℓ} : {A : Type ℓ} {a : A} → ¬ (none ≡ some a)
none≢some h = absurd (ground (arith, h))

is_fd-some : (o : Option ℕ) (j : ℕ) → is_fd o j ≡ true → o ≡ some j
is_fd-some none j h = ground (arith, h)
is_fd-some (some k) j h = ap some (ground (arith, h))

is_fd-own : (o : Option ℕ) (j : ℕ) → o ≡ some j → is_fd o j ≡ true
is_fd-own o j h = rw h (ground arith)

abbrev pub owns : Session → ℕ → Bool
owns s j = is_fd s.client.fd j || is_fd s.upstream.fd j

owns-fd_of : (side : Side) (s : Session) (j : ℕ) → fd_of side s ≡ some j → owns s j ≡ true
owns-fd_of client_side s j h = ground (arith, is_fd-own s.client.fd j h)
owns-fd_of upstream_side s j h = ground (arith, is_fd-own s.upstream.fd j h)

module _ {l : ℕ} {p : Proxy} (v : IsProxy l p) (s : Session)
    (h : find_session p.sessions s.id ≡ some s) where
  reached-own : (side : Side) (j : ℕ) → fd_of side s ≡ some j → p.fd_map j ≡ some (peer s.id side)
  reached-own side j q = v.reached j s.id side (rw h q)

  -- A descriptor of the session leads to it.
  owned : (j : ℕ) → owns s j ≡ true → (side : Side) × (p.fd_map j ≡ some (peer s.id side))
  owned j q = elim (Bool-cases (is_fd s.client.fd j)) [
    | inl e ↦ (client_side, reached-own client_side j (is_fd-some s.client.fd j e))
    | inr e ↦ (
      upstream_side,
      reached-own upstream_side j (is_fd-some s.upstream.fd j (ground (arith, q, e))),
    )
  ]

  owned-inside : (j : ℕ) → owns s j ≡ true → ltb j inf_fd_map_cap ≡ true
  owned-inside j q =
      let (side, e) = owned j q in ground (arith, v.inside j (v.open_iff j ∙ (rw e refl)))

  module _ (q : Proxy) (d : IsDestroyed s p q) where
    unmapped-owned : (j : ℕ) → q.fd_map j ≡ (if owns s j then none else p.fd_map j)
    unmapped-owned j = elim (Bool-cases (owns s j)) [
      | inl e ↦ ground (arith, d.unmapped j, owned-inside j e, e)
      | inr e ↦ ground (arith, d.unmapped j, e)
    ]

    pub find-left :
        (id : ℕ)
        → find_session q.sessions id ≡ (if s.id == id then none else find_session p.sessions id)
    find-left id = rw (d.unlinked) (find-unlink p.next_session_id p.sessions s.id id v.listed)

    -- Another session's descriptor is none of this one's.
    apart :
        (j id : ℕ) (side : Side)
        → p.fd_map j ≡ some (peer id side)
        → (owns s j ≡ true) ↔ (s.id ≡ id)
    apart j id side e = (
      (λ w. let (side', e') = owned j w in ground (arith, e, e')),
      (λ i. owns-fd_of side s j (
          (sym (ap (fd_at side) (ap (find_session p.sessions) (sym i) ∙ h)))
          ∙ v.known j id side e)),
    )

    known-left :
        (fd id : ℕ) (side : Side)
        → q.fd_map fd ≡ some (peer id side)
        → fd_at side (find_session q.sessions id) ≡ some fd
    known-left fd id side e = elim (Bool-cases (owns s fd)) [
      | inl o ↦ absurd (ground (arith, e, unmapped-owned fd, o))
      | inr o ↦
          let e' : p.fd_map fd ≡ some (peer id side) = ground (arith, e, unmapped-owned fd, o) in
          elim (Bool-cases (s.id == id)) [
            | inl i ↦ absurd (ground (arith, o, (apart fd id side e').1 ((==_iff s.id id).0 i)))
            | inr i ↦ rw (find-left id) (rw i (v.known fd id side e'))
          ]
    ]

    reached-left :
        (fd id : ℕ) (side : Side)
        → fd_at side (find_session q.sessions id) ≡ some fd
        → q.fd_map fd ≡ some (peer id side)
    reached-left fd id side e = elim (Bool-cases (s.id == id)) [
      | inl i ↦ absurd (none≢some (rw i at (rw (find-left id) at e)))
      | inr i ↦
          let e' = v.reached fd id side (rw i at (rw (find-left id) at e)) in
          elim (Bool-cases (owns s fd)) [
            | inl o ↦ absurd (ground (arith, i, (apart fd id side e').0 o))
            | inr o ↦ unmapped-owned fd ∙ (rw o e')
          ]
    ]

    open-left : (j : ℕ) → q.opened j ≡ is_some (q.fd_map j)
    open-left j = elim (Bool-cases (owns s j)) [
      | inl o ↦ d.closed j ∙ (rw (unmapped-owned j) (rw o refl))
      | inr o ↦ d.closed j ∙ (rw (unmapped-owned j) (rw o (v.open_iff j)))
    ]

    listening-left : q.fd_map l ≡ some listener
    listening-left = elim (Bool-cases (owns s l)) [
      | inl o ↦ let (side, e) = owned l o in absurd (ground (arith, e, v.listening))
      | inr o ↦ unmapped-owned l ∙ (rw o (v.listening))
    ]

  pub destroyed-IsProxy : (q : Proxy) → IsDestroyed s p q → IsProxy l q
  destroyed-IsProxy q d = record {
    listed =
        rw (d.unlinked)
          (rw (d.id_same) (IsListed-unlink p.next_session_id p.sessions s.id v.listed));
    counted =
        rw (d.unlinked) (ground (arith, d.uncounted, v.counted, length-unlink p.sessions s.id s h));
    known = λ fd id side e. known-left q d fd id side e;
    reached = λ fd id side e. reached-left q d fd id side e;
    open_iff = λ j. open-left q d j;
    inside = λ j e. v.inside j (ground (arith, d.closed j, e));
    listening = listening-left q d;
  }
