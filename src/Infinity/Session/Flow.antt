-- ===== src/Infinity/Session/Flow.antt =====
-- One direction of a session of infinity.c: a stream of bytes through a buffer.
use ryzen_build.Base.{ℕ, ◌≡◌, refl, sym, arith, Bool, true, false, List, [], ◌++◌, append_assoc}
use ryzen_build.Infinity.Buffer.{
  Buffer, content, Recv, Send, idle, buffer_empty, relay_read_into_buffer, relay_write_from_buffer,
}
use ryzen_build.Infinity.Buffer.Stream.{IsBuffer, relay_read_lem, relay_write_lem}

-- The buffer, whether its source has ended, whether its target was shut for writing, and the bytes
-- that were read from the source and sent to the target: nothing is lost, doubled or moved, and the
-- target is shut only after the source has ended and every byte has been sent.
pub record IsFlow (b : Buffer) (eof shut : Bool) (read sent : List ℕ) : Type 0 where
  pub buffer : IsBuffer b
  pub whole : read ≡ sent ++ content b
  pub ended : shut ≡ true → (eof ≡ true) × (b.start ≡ b.fin)

-- Nothing is written from an empty buffer.
relay_write-empty :
    (answer : Send) (b : Buffer)
    → b.start ≡ b.fin
    → relay_write_from_buffer answer b ≡ (idle, b, [])
unfolding relay_write_from_buffer buffer_empty
relay_write-empty answer b h = ground (arith, h)

module _ {b : Buffer} {eof shut : Bool} {read sent : List ℕ} (f : IsFlow b eof shut read sent) where
  pub read-IsFlow :
      (answer : Recv) (m : ℕ)
      → eof ≡ false
      → IsFlow
          (relay_read_into_buffer answer b m).1
          eof
          shut
          (read ++ (relay_read_into_buffer answer b m).3)
          sent
  read-IsFlow answer m open_still =
      let (v, e) = relay_read_lem answer b m f.buffer in
      record {
        buffer = v;
        whole = rw (f.whole) (rw e (append_assoc sent (content b) _));
        ended = λ h. absurd (ground (arith, f.ended h, open_still));
      }

  pub write-IsFlow :
      (answer : Send)
      → IsFlow
          (relay_write_from_buffer answer b).1
          eof
          shut
          read
          (sent ++ (relay_write_from_buffer answer b).2)
  write-IsFlow answer =
      let (v, e) = relay_write_lem answer b f.buffer in
      record {
        buffer = v;
        whole = rw (f.whole) (rw e (sym (append_assoc sent _ _)));
        ended = λ h.
            let (at_end, none_left) = f.ended h in
            (at_end, rw (relay_write-empty answer b none_left) none_left);
      }

  pub end-IsFlow : IsFlow b true shut read sent
  end-IsFlow = record { buffer = f.buffer; whole = f.whole; ended = λ h. (refl, (f.ended h).1) }

  pub shut-IsFlow : eof ≡ true → b.start ≡ b.fin → (s : Bool) → IsFlow b eof s read sent
  shut-IsFlow h k s = record { buffer = f.buffer; whole = f.whole; ended = λ q. (h, k) }
