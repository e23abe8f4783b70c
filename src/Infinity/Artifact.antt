-- ===== src/Infinity/Artifact.antt =====
-- What `session_emit_artifact` of infinity.c writes when a session ends.
use ryzen_build.Base.{ℕ, ◌+◌, ◌-◌, ◌/◌, ◌≤◌, ◌≡◌, refl, arith, ltb, if◌then◌else◌}
use ryzen_build.Base.{List, ◌++◌, take, drop, length, length-take, length-append}
use ryzen_build.Infinity.Buffer.{inf_buffer_cap, buffer_size, content}
use ryzen_build.Infinity.Buffer.Stream.{IsBuffer}
use ryzen_build.Infinity.Session.{Session}

-- How many bytes of the two buffers go in, from their sizes.
unfoldable pub shares : ℕ → ℕ → ℕ × ℕ
shares a b =
    if ltb inf_buffer_cap (a + b)
    then (let a' = (if ltb (inf_buffer_cap / 2) a then inf_buffer_cap / 2 else a) in
        (a', (if ltb (inf_buffer_cap - a') b then inf_buffer_cap - a' else b)))
    else (a, b)

-- The bytes that are copied to the buffer of the artifact.
unfoldable pub merged : Session → List ℕ
merged s =
    let (a, b) = shares (buffer_size s.to_upstream) (buffer_size s.to_client) in
    take a (drop s.to_upstream.start s.to_upstream.bytes)
    ++ take b (drop s.to_client.start s.to_client.bytes)

shares_lem :
    (a b : ℕ)
    → a ≤ inf_buffer_cap
    → b ≤ inf_buffer_cap
    → ((shares a b).0 + (shares a b).1 ≤ inf_buffer_cap)
      × ((shares a b).0 ≤ a)
      × ((shares a b).1 ≤ b)
      × (a + b ≤ inf_buffer_cap → ((shares a b).0 ≡ a) × ((shares a b).1 ≡ b))
unfolding shares inf_buffer_cap
shares_lem a b ha hb = ground arith

-- If the buffers of a session are in order, the artifact fits its own buffer.
pub length-merged :
    (s : Session)
    → IsBuffer s.to_upstream
    → IsBuffer s.to_client
    → length (merged s) ≤ inf_buffer_cap
unfolding merged buffer_size
length-merged s u c =
    let (fits, a, b, whole) =
      shares_lem (s.to_upstream.fin - s.to_upstream.start) (s.to_client.fin - s.to_client.start)
        (omega (arith, u.fits)) (omega (arith, c.fits)) in
    let n =
      shares (s.to_upstream.fin - s.to_upstream.start) (s.to_client.fin - s.to_client.start) in
    let xs = drop s.to_upstream.start s.to_upstream.bytes in
    let ys = drop s.to_client.start s.to_client.bytes in
    omega (
      arith,
      fits,
      length-append (take n.0 xs) (take n.1 ys),
      length-take n.0 xs,
      length-take n.1 ys,
    )

-- If the buffers of a session are in order and their unsent bytes fit one buffer together, the
-- artifact is the bytes for the upstream and then those for the client.
pub merged_lem :
    (s : Session)
    → IsBuffer s.to_upstream
    → IsBuffer s.to_client
    → buffer_size s.to_upstream + buffer_size s.to_client ≤ inf_buffer_cap
    → merged s ≡ content s.to_upstream ++ content s.to_client
unfolding merged buffer_size
merged_lem s u c h =
    let (fits, a, b, whole) =
      shares_lem (s.to_upstream.fin - s.to_upstream.start) (s.to_client.fin - s.to_client.start)
        (omega (arith, u.fits)) (omega (arith, c.fits)) in
    rw ((whole h).0) (rw ((whole h).1) refl)
