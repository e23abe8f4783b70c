-- ===== src/Infinity/Proxy/Accept/Added.antt =====
-- The registry of infinity.c with a session added.
use ryzen_build.Base.{ℕ, ◌+◌, ◌<◌, ◌≡◌, refl, ap, arith, ◌==◌, if◌then◌else◌}
use ryzen_build.Base.{false, Bool-cases, inl, inr, some, ==_iff}
use ryzen_build.Infinity.Session.{Side, client_side, upstream_side}
use ryzen_build.Infinity.Proxy.{peer, Proxy, Connection}
use ryzen_build.Infinity.Proxy.{find_session, new_session}
use ryzen_build.Infinity.Proxy.Sessions.{find-IsListed}
use ryzen_build.Infinity.Proxy.Registry.{IsProxy, fd_of, fd_at}
use ryzen_build.Infinity.Proxy.Accept.{IsFresh}
use ryzen_build.Infinity.Proxy.Accept.Outcome.{IsAdded, added_session}

module _ {l : ℕ} {p q : Proxy} (v : IsProxy l p) (c : Connection) (u : ℕ) (f : IsFresh c p)
    (a : IsAdded c u p q) where
  abbrev fresh_id : ℕ
  fresh_id = p.next_session_id

  pub find-added :
      (id : ℕ)
      → find_session q.sessions id
        ≡ (if fresh_id == id then some (added_session c u p) else find_session p.sessions id)
  unfolding find_session new_session
  find-added id = rw (a.in_front) refl

  not_yet : (j id : ℕ) (side : Side) → p.fd_map j ≡ some (peer id side) → (fresh_id == id) ≡ false
  not_yet j id side e = elim (Bool-cases (fresh_id == id)) [
    | inr i ↦ i
    | inl i ↦
        let none_found = find-IsListed fresh_id p.sessions id v.listed (ground (arith, i)) in
        absurd (ground (arith, rw none_found at (v.known j id side e)))
  ]

  -- A descriptor that was there already.
  known-old :
      (fd id : ℕ) (side : Side)
      → p.fd_map fd ≡ some (peer id side)
      → fd_at side (find_session q.sessions id) ≡ some fd
  known-old fd id side e = rw (find-added id) (rw (not_yet fd id side e) (v.known fd id side e))

  known-new :
      (fd id : ℕ) (side : Side)
      → fresh_id ≡ id
      → fd_of side (added_session c u p) ≡ some fd
      → fd_at side (find_session q.sessions id) ≡ some fd
  known-new fd id side i e = rw (find-added id) (rw ((==_iff fresh_id id).1 i) e)

  known-added :
      (fd id : ℕ) (side : Side)
      → q.fd_map fd ≡ some (peer id side)
      → fd_at side (find_session q.sessions id) ≡ some fd
  known-added fd id client_side e = elim (Bool-cases (u == fd)) [
    | inl k ↦ absurd (ground (arith, e, a.mapped fd, k))
    | inr k ↦ elim (Bool-cases (c.cfd == fd)) [
      | inl m ↦
          known-new fd id client_side (ground (arith, e, a.mapped fd, k, m))
            (ap some (ground (arith, m)))
      | inr m ↦ known-old fd id client_side (ground (arith, e, a.mapped fd, k, m))
    ]
  ]
  known-added fd id upstream_side e = elim (Bool-cases (u == fd)) [
    | inl k ↦
        known-new fd id upstream_side (ground (arith, e, a.mapped fd, k))
          (ap some (ground (arith, k)))
    | inr k ↦ elim (Bool-cases (c.cfd == fd)) [
      | inl m ↦ absurd (ground (arith, e, a.mapped fd, k, m))
      | inr m ↦ known-old fd id upstream_side (ground (arith, e, a.mapped fd, k, m))
    ]
  ]

  reached-new :
      (fd : ℕ) (side : Side)
      → fd_of side (added_session c u p) ≡ some fd
      → q.fd_map fd ≡ some (peer fresh_id side)
  reached-new fd client_side e = ground (arith, e, a.mapped fd, a.ufd_fresh)
  reached-new fd upstream_side e = ground (arith, e, a.mapped fd)

  reached-added :
      (fd id : ℕ) (side : Side)
      → fd_at side (find_session q.sessions id) ≡ some fd
      → q.fd_map fd ≡ some (peer id side)
  reached-added fd id side e = elim (Bool-cases (fresh_id == id)) [
    | inl i ↦
        let same : fresh_id ≡ id = (==_iff fresh_id id).0 i in
        rw⁻¹ same (reached-new fd side (rw i at (rw (find-added id) at e)))
    | inr i ↦
        let e' = v.reached fd id side (rw i at (rw (find-added id) at e)) in
        ground (arith, a.mapped fd, e', v.open_iff fd, f.new_cfd, a.ufd_fresh)
  ]

  new_first : (added_session c u p).id < fresh_id + 1
  unfolding new_session
  new_first = omega arith

  pub added-IsProxy : IsProxy l q
  unfolding new_session
  added-IsProxy = record {
    listed = rw (a.in_front) (rw (a.next_id) (new_first, v.listed));
    counted = rw (a.in_front) (ground (arith, a.one_more, v.counted));
    known = known-added;
    reached = reached-added;
    open_iff = λ j. ground (arith, a.now_open j, a.mapped j, v.open_iff j);
    inside = λ j e. ground (arith, a.now_open j, v.inside j, e, a.cfd_inside, a.ufd_inside);
    listening = ground (arith, a.mapped l, v.listening, v.open_iff l, f.new_cfd, a.ufd_fresh);
  }
