-- ===== src/Infinity/Buffer.antt =====
-- The relay buffers of infinity.c, and the two calls that fill and empty them.
pub mod Stream
use ryzen_build.Base.{ℕ, ◌+◌, ◌-◌, ltb, ◌==◌, ◌&&◌, if◌then◌else◌, u64, min}
use ryzen_build.Base.{
  Bool, true, false, not, List, [], ◌∷◌, ◌++◌, length, set, take, drop, replicate,
}

-- Not an `abbrev`: no proof needs to build an array of this length.
unfoldable pub inf_buffer_cap : ℕ
inf_buffer_cap = 65536

-- `struct Buffer`: `bytes` is the array `data`, and `fin` the index `end`.
pub record Buffer : Type 0 where
  pub bytes : List ℕ
  pub start : ℕ
  pub fin : ℕ

-- A buffer of a session after `calloc`.
unfoldable pub empty_buffer : Buffer
empty_buffer = record { bytes = replicate inf_buffer_cap 0; start = 0; fin = 0 }

unfoldable pub buffer_empty : Buffer → Bool
buffer_empty b = b.start == b.fin

unfoldable pub buffer_size : Buffer → ℕ
buffer_size b = b.fin - b.start

unfoldable pub buffer_space : Buffer → ℕ
buffer_space b = inf_buffer_cap - b.fin

-- `memcpy` and `memmove` of `vs` to the array from index `i` on.
unfoldable pub copy_to : List ℕ → ℕ → List ℕ → List ℕ
copy_to xs i [] = xs
copy_to xs i (v ∷ vs) = copy_to (set xs i v) (i + 1) vs

-- The bytes between the two indices.
abbrev pub content : Buffer → List ℕ
content b = take (b.fin - b.start) (drop b.start b.bytes)

unfoldable pub buffer_compact : Buffer → Buffer
buffer_compact b =
    if ltb 0 b.start && not (b.start == b.fin)
    then record { bytes = copy_to b.bytes 0 (content b); start = 0; fin = b.fin - b.start }
    else if b.start == b.fin
    then record b { start = 0; fin = 0 }
    else b

-- What `recv` and `send` answer. `recv` gives the next bytes of its stream, as many as there is
-- room for, and none at the end of the stream; `send` takes `n` bytes, at most those offered;
-- `again` stands for EAGAIN, EWOULDBLOCK and EINTR.
pub data Recv : Type 0 where
  got : List ℕ → Recv
  again : Recv
  failed : Recv

pub data Send : Type 0 where
  taken : ℕ → Send
  again : Send
  failed : Send

-- The `int` that the two relay functions return: 1, 0, -1 and -2.
pub data Rc : Type 0 where
  moved : Rc
  idle : Rc
  broken : Rc
  eof : Rc

-- The result, the buffer, the counter of bytes, and the bytes that went over the socket, after the
-- answer of `recv`.
unfoldable pub after_recv : Buffer → ℕ → Recv → Rc × Buffer × ℕ × List ℕ
after_recv b metric_bytes Recv.again = (idle, b, metric_bytes, [])
after_recv b metric_bytes Recv.failed = (broken, b, metric_bytes, [])
after_recv b metric_bytes (got vs) =
    let read = take (buffer_space b) vs in
    let n = length read in
    if n == 0 then (eof, b, metric_bytes, []) else (
      moved,
      record b { bytes = copy_to b.bytes b.fin read; fin = b.fin + n },
      u64 (metric_bytes + n),
      read,
    )

unfoldable pub relay_read_into_buffer : Recv → Buffer → ℕ → Rc × Buffer × ℕ × List ℕ
relay_read_into_buffer answer dst metric_bytes =
    let b = buffer_compact dst in
    if buffer_space b == 0 then (idle, b, metric_bytes, []) else after_recv b metric_bytes answer

-- The result, the buffer and the bytes that went over the socket, after the answer of `send`.
unfoldable pub after_send : Buffer → Send → Rc × Buffer × List ℕ
after_send src Send.again = (idle, src, [])
after_send src Send.failed = (broken, src, [])
after_send src (taken m) =
    let n = min m (buffer_size src) in
    if n == 0 then (broken, src, []) else (
      moved,
      (if src.start + n == src.fin
          then record src { start = 0; fin = 0 }
          else record src { start = src.start + n }),
      take n (content src),
    )

unfoldable pub relay_write_from_buffer : Send → Buffer → Rc × Buffer × List ℕ
relay_write_from_buffer answer src =
    if buffer_empty src then (idle, src, []) else after_send src answer
