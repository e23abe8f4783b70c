-- ===== src/Infinity/Proxy/Steps/Batch.antt =====
-- The events of one `epoll_wait` in infinity.c: what epoll knew when it reported them, and what still
-- holds of it when they are handled, one after the other.
use ryzen_build.Base.{ℕ, ◌^◌, ◌<◌, ◌≡◌, ◌≢◌, refl, sym, ap, ◌∙◌}
use ryzen_build.Base.{true, false, List, [], ◌∷◌, Option, none, some}
use ryzen_build.Infinity.Session.{
  Side, client_side, upstream_side, Events, Session, Answers, handle_side_io,
}
use ryzen_build.Infinity.Session.Frame.{handle_side_io-IsSame}
use ryzen_build.Infinity.Session.Integrity.{ended_at}
use ryzen_build.Infinity.Session.Ends.{handle_side_io-Kept}
use ryzen_build.Infinity.Proxy.{
  peer, Proxy, Limits, Connection, new_session, find_session, handle_event, Reported, handle_batch,
}
use ryzen_build.Infinity.Proxy.Registry.{fd_at, fd_of}
use ryzen_build.Infinity.Proxy.Accept.Outcome.{added_session}
use ryzen_build.Infinity.Proxy.Served.{Each, interest_of}
use ryzen_build.Infinity.Proxy.Steps.OneEvent.{event-Each}
use ryzen_build.Infinity.Proxy.Steps.{IsSafe, AllFresh, IsOpenAt, handle_event-IsSafe}

-- When epoll reports input for a descriptor, it has been asked to by the session that has it then.
abbrev pub IsDelivered : Proxy → Reported → Type 0
IsDelivered p e =
    (id : ℕ) (side : Side) (s : Session)
    → p.fd_map e.fd ≡ some (peer id side)
    → find_session p.sessions id ≡ some s
    → e.events.epollin ≡ true
    → (interest_of side s).epollin ≡ true

abbrev pub AllDelivered : Proxy → List Reported → Type 0
AllDelivered p [] = Unit
AllDelivered p (e ∷ rest) = IsDelivered p e × AllDelivered p rest

-- No other event of the batch is for the descriptor.
abbrev pub IsApart : ℕ → List Reported → Type 0
IsApart fd [] = Unit
IsApart fd (e ∷ rest) = (fd ≢ e.fd) × IsApart fd rest

abbrev pub AllApart : List Reported → Type 0
AllApart [] = Unit
AllApart (e ∷ rest) = IsApart e.fd rest × AllApart rest

-- Each connection finds its descriptors free when it is accepted.
abbrev pub BatchFresh : Limits → List Reported → Proxy → Type 0
BatchFresh cfg [] p = Unit
BatchFresh cfg (e ∷ rest) p =
    AllFresh cfg e.accepted p
    × BatchFresh cfg rest (handle_event cfg e.accepted e.fd e.events e.answers p)

-- The events still to be handled: none has input for a side that has ended.
abbrev AllOpen : List Reported → Proxy → Type 0
AllOpen [] p = Unit
AllOpen (e ∷ rest) p = Each (IsOpenAt e.fd e.events) p × AllOpen rest p

abbrev unwrap : ℕ → Option ℕ → ℕ
unwrap d none = d
unwrap d (some n) = n

some_same : {m n : ℕ} → some m ≡ some n → m ≡ n
some_same {m = m} e = ap (unwrap m) e

new_not_ended :
    (side : Side) (c : Connection) (u : ℕ) (p : Proxy) → ended_at side (added_session c u p) ≡ false
unfolding new_session
new_not_ended client_side c u p = refl
new_not_ended upstream_side c u p = refl

fd_at-some :
    (p : Proxy) (id fd : ℕ) (side : Side) (s : Session)
    → find_session p.sessions id ≡ some s
    → fd_of side s ≡ some fd
    → fd_at side (find_session p.sessions id) ≡ some fd
fd_at-some p id fd side s found e = rw found e

-- An event at one descriptor leaves a side with another descriptor open.
still_open :
    (fd : ℕ) (ev' : Events) (j : ℕ) (side : Side) (ev : Events) (a : Answers) (s : Session)
    (p : Proxy)
    → j ≢ fd
    → fd_of side s ≡ some j
    → IsOpenAt fd ev' s
    → IsOpenAt fd ev' (handle_side_io side ev a s p.metrics).1
still_open fd ev' j client_side ev a s p apart at_j still input client_side e =
    let f = handle_side_io-IsSame client_side ev a s p.metrics in
    absurd (apart (some_same (sym at_j ∙ (sym f.same_client ∙ e))))
still_open fd ev' j client_side ev a s p apart at_j still input upstream_side e =
    let f = handle_side_io-IsSame client_side ev a s p.metrics in
    handle_side_io-Kept client_side ev a s p.metrics
      (still input upstream_side (sym f.same_upstream ∙ e))
still_open fd ev' j upstream_side ev a s p apart at_j still input client_side e =
    let f = handle_side_io-IsSame upstream_side ev a s p.metrics in
    handle_side_io-Kept upstream_side ev a s p.metrics
      (still input client_side (sym f.same_client ∙ e))
still_open fd ev' j upstream_side ev a s p apart at_j still input upstream_side e =
    let f = handle_side_io-IsSame upstream_side ev a s p.metrics in
    absurd (apart (some_same (sym at_j ∙ (sym f.same_upstream ∙ e))))

new_open :
    (fd : ℕ) (ev : Events) (c : Connection) (u : ℕ) (p : Proxy)
    → IsOpenAt fd ev (added_session c u p)
new_open fd ev c u p input side e = new_not_ended side c u p

module _ {l : ℕ} {cfg : Limits} (small : cfg.max_connections < 2 ^ 31) where
  delivered_lem :
      (p : Proxy) (e : Reported)
      → IsSafe l cfg p
      → IsDelivered p e
      → Each (IsOpenAt e.fd e.events) p
  delivered_lem p e v d id s found input side at_fd = (v.served id s found).asked side (
      d id side s (v.proxy.reached e.fd id side (fd_at-some p id e.fd side s found at_fd)) found
        input)

  all_delivered_lem :
      (p : Proxy) (es : List Reported) → IsSafe l cfg p → AllDelivered p es → AllOpen es p
  all_delivered_lem p [] v d = tt
  all_delivered_lem p (e ∷ rest) v (d, ds) = (delivered_lem p e v d, all_delivered_lem p rest v ds)

  rest_open :
      (e : Reported) (rest : List Reported) (p : Proxy)
      → IsApart e.fd rest
      → AllFresh cfg e.accepted p
      → IsSafe l cfg p
      → AllOpen rest p
      → AllOpen rest (handle_event cfg e.accepted e.fd e.events e.answers p)
  rest_open e [] p apart f v all = tt
  rest_open e (x ∷ rest) p (apart, aparts) f v (all, alls) = (
    event-Each small (IsOpenAt x.fd x.events) (new_open x.fd x.events) e.accepted e.fd e.events
        e.answers p f
        (λ id side s known found.
          still_open x.fd x.events e.fd side e.events e.answers s p apart
            (rw found at (v.proxy.known e.fd id side known)) (all id s found))
        v all,
    rest_open e rest p aparts f v alls,
  )

  batch-IsSafe :
      (es : List Reported) (p : Proxy)
      → AllApart es
      → BatchFresh cfg es p
      → AllOpen es p
      → IsSafe l cfg p
      → IsSafe l cfg (handle_batch cfg es p)
  unfolding handle_batch
  batch-IsSafe [] p apart f all v = v
  batch-IsSafe (e ∷ rest) p (apart, aparts) (f, fs) (all, alls) v =
      batch-IsSafe rest _ aparts fs (rest_open e rest p apart f v alls)
        (handle_event-IsSafe small e.accepted e.fd e.events e.answers p f all v)

  pub handle_batch-IsSafe :
      (es : List Reported) (p : Proxy)
      → AllApart es
      → BatchFresh cfg es p
      → AllDelivered p es
      → IsSafe l cfg p
      → IsSafe l cfg (handle_batch cfg es p)
  handle_batch-IsSafe es p apart f d v = batch-IsSafe es p apart f (all_delivered_lem p es v d) v
