-- ===== src/Dawnhex/Events.antt =====
-- The event queue of dawnhex_kmod.c: a ring of 128 slots that drops its oldest event when full.
pub mod Fifo
use ryzen_build.Base.{ℕ, zero, suc, ◌+◌, ◌-◌, ◌%◌, ◌^◌, u32, ◌==◌, if◌then◌else◌}
use ryzen_build.Base.{List, Bool, not, get_or, set, replicate, Option, none, some}

abbrev pub event_q : ℕ
event_q = 128

-- The fields `events`, `ev_head` and `ev_tail` of `struct dawnhex_state`.
pub record EventRing {ℓ} (A : Type ℓ) : Type ℓ where
  pub events : List A
  pub ev_head : ℕ
  pub ev_tail : ℕ

module _ {ℓ} {A : Type ℓ} where
  -- The zeroed ring; `blank` is what a zeroed slot holds.
  unfoldable pub empty_ring : A → EventRing A
  empty_ring blank = record { events = replicate event_q blank; ev_head = 0; ev_tail = 0 }

  -- The tail of `dh_emit_event_locked`, with the text already formatted.
  unfoldable pub push : EventRing A → A → EventRing A
  push r e =
      let next = u32 (r.ev_head + 1) % event_q in
      record r {
        events = set r.events r.ev_head e;
        ev_head = next;
        ev_tail = if next == r.ev_tail then u32 (r.ev_tail + 1) % event_q else r.ev_tail;
      }

  -- The condition on which `dh_read` sleeps and which `dh_poll` reports.
  unfoldable pub has_event : EventRing A → Bool
  has_event r = not (r.ev_head == r.ev_tail)

  -- The locked part of `dh_read`: the oldest event, and the ring without it.
  unfoldable pub pop : A → EventRing A → Option (A × EventRing A)
  pop blank r =
      if r.ev_head == r.ev_tail
      then none
      else some
          (get_or r.events r.ev_tail blank, record r { ev_tail = u32 (r.ev_tail + 1) % event_q })
