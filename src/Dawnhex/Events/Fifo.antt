-- ===== src/Dawnhex/Events/Fifo.antt =====
-- The ring of events behaves as a first-in first-out queue of at most 127 events.
use ryzen_build.Base.{ℕ, zero, suc, ◌+◌, ◌-◌, ◌%◌, ◌<◌, ◌≡◌, ◌≢◌, ◌↔◌, refl, ap, ap₂}
use ryzen_build.Base.{arith, ◌==◌, if◌then◌else◌}
use ryzen_build.Base.{List, [], ◌∷◌, ◌++◌, none, some}
use ryzen_build.Base.{length, get_or, set, drop, length-set, length-replicate}
use ryzen_build.Base.{get_or-set_self, get_or-set_ne}
use ryzen_build.Dawnhex.Events.{EventRing, event_q, empty_ring, push, pop}

module _ {A : Type 0} where
  pub record IsValid (r : EventRing A) : Type 0 where
    pub slots : length r.events ≡ event_q
    pub head_in : r.ev_head < event_q
    pub tail_in : r.ev_tail < event_q

  -- The events from slot `t` on, `n` of them, going round at 128.
  unfoldable pub window : A → List A → ℕ → ℕ → List A
  window blank l t zero = []
  window blank l t (suc n) = get_or l t blank ∷ window blank l ((t + 1) % event_q) n

  abbrev pub count : EventRing A → ℕ
  count r = (r.ev_head + event_q - r.ev_tail) % event_q

  -- What the ring holds, oldest first.
  unfoldable pub pending : A → EventRing A → List A
  pending blank r = window blank r.events r.ev_tail (count r)

  -- A queue of at most 127 events: when it is full the oldest goes.
  unfoldable pub enqueue : List A → A → List A
  enqueue q e = if length q == 127 then drop 1 q ++ (e ∷ []) else q ++ (e ∷ [])

  length-window : (blank : A) (l : List A) (t n : ℕ) → length (window blank l t n) ≡ n
  unfolding window
  length-window blank l t zero = refl
  length-window blank l t (suc n) = ap suc (length-window blank l ((t + 1) % event_q) n)

  pub length-pending : (blank : A) (r : EventRing A) → length (pending blank r) ≡ count r
  unfolding pending
  length-pending blank r = length-window blank r.events r.ev_tail (count r)

  -- Writing just past a window extends it by that event.
  window-set :
      (blank : A) (l : List A) (e : A) (n t i : ℕ)
      → length l ≡ event_q
      → t < event_q
      → n < event_q
      → i ≡ (t + n) % event_q
      → window blank (set l i e) t (suc n) ≡ window blank l t n ++ (e ∷ [])
  unfolding window
  window-set blank l e zero t i hl ht hn hi =
      let at : i ≡ t = omega arith in rw (at, get_or-set_self l t e blank (omega arith))
  window-set blank l e (suc n) t i hl ht hn hi =
      ap₂ ◌∷◌ (get_or-set_ne l i t e blank (omega arith))
        (window-set blank l e n ((t + 1) % event_q) i hl (omega arith) (omega arith) (omega arith))

  window_of_pos :
      (blank : A) (l : List A) (t n : ℕ)
      → n ≢ 0
      → window blank l t n ≡ get_or l t blank ∷ window blank l ((t + 1) % event_q) (n - 1)
  unfolding window
  window_of_pos blank l t zero h = absurd (h refl)
  window_of_pos blank l t (suc n) h = ap (λ k. window blank l t (suc k)) (omega arith)

  -- A full window without its first event.
  drop-window :
      (blank : A) (l : List A) (t n : ℕ)
      → drop 1 (window blank l t (suc n)) ≡ window blank l ((t + 1) % event_q) n
  unfolding window
  drop-window blank l t zero = refl
  drop-window blank l t (suc n) = refl

  module _ (blank : A) {r : EventRing A} (v : IsValid r) where
    pub push-IsValid : (e : A) → IsValid (push r e)
    unfolding push
    push-IsValid e = ground (arith, length-set r.events r.ev_head e)

    -- A valid ring appends the new event, and drops its oldest one when 127 are pending.
    pub pending-push : (e : A) → pending blank (push r e) ≡ enqueue (pending blank r) e
    unfolding push pending enqueue
    pending-push e = ground (
      arith,
      length-window blank r.events r.ev_tail (count r),
      window-set blank r.events e (count r) r.ev_tail r.ev_head,
      window-set blank r.events e 126 ((r.ev_tail + 1) % event_q) r.ev_head,
      drop-window blank r.events r.ev_tail 126,
    )

    pub pop-IsValid : {e : A} {r' : EventRing A} → pop blank r ≡ some (e, r') → IsValid r'
    unfolding pop
    pop-IsValid h = ground arith

    -- What comes out of a valid ring is the oldest pending event, and the others stay in order.
    pub pending-pop :
        {e : A} {r' : EventRing A}
        → pop blank r ≡ some (e, r')
        → pending blank r ≡ e ∷ pending blank r'
    unfolding pop pending
    pending-pop h = ground (arith, window_of_pos blank r.events r.ev_tail (count r))

    -- Nothing comes out of a valid ring exactly when nothing is pending.
    pub pop-none_iff : (pop blank r ≡ none) ↔ (pending blank r ≡ [])
    unfolding pop pending
    pop-none_iff = ground (arith, length-window blank r.events r.ev_tail (count r))

  pub empty_ring-IsValid : (blank : A) → IsValid (empty_ring blank)
  unfolding empty_ring
  empty_ring-IsValid blank = omega (arith, length-replicate event_q blank)
