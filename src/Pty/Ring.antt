-- ===== src/Pty/Ring.antt =====
-- The byte rings of kernel/proc/pty.c. A call that may wait is a pass: it runs until it returns
-- or blocks, and whoever wakes it makes the next pass with what is left to do.
use drunix_os.Base.{
  ℕ, zero, suc, ◌+◌, ◌-◌, ◌%◌, ◌^◌, Bool, false, List, [], ◌∷◌, ltb, ◌==◌, if◌then◌else◌, get_or,
  set,
}

-- `pty_ring_t`. The wait queue belongs to the scheduler and is not part of the state.
pub record PtyRing : Type 0 where
  pub buf : List ℕ
  pub head : ℕ
  pub tail : ℕ
  pub count : ℕ
  pub closed : Bool

-- `PTY_RING_BYTES`
abbrev pub ring_bytes : ℕ
ring_bytes = 1024

unfoldable pub reset : PtyRing → PtyRing
reset r = record r { head = 0; tail = 0; count = 0; closed = false }

-- The body of the inner loop of `pty_ring_write`.
unfoldable pub put : PtyRing → ℕ → PtyRing
put r byte = record r {
  buf = set r.buf r.head byte;
  head = (r.head + 1) % ring_bytes;
  count = (r.count + 1) % 2 ^ 32;
}

-- The inner loop: the ring, and the bytes not copied yet.
unfoldable pub fill : PtyRing → List ℕ → PtyRing × List ℕ
fill r [] = (r, [])
fill r (byte ∷ bytes) =
    let next = fill (put r byte) bytes in if ltb r.count ring_bytes then next else (r, byte ∷ bytes)

-- How a pass ends: the call returns, it sleeps on the wait queue, or the rounds ran out.
pub data Outcome : Type 0 where
  returned blocked spinning : Outcome

-- The outer loop of `pty_ring_write`, by rounds; the list is what is left of the caller's bytes.
unfoldable pub write_loop : ℕ → PtyRing → List ℕ → Outcome × PtyRing × List ℕ
write_loop zero r bytes = (spinning, r, bytes)
write_loop (suc rounds) r [] = (returned, r, [])
write_loop (suc rounds) r (byte ∷ bytes) =
    let (filled, rest) = fill r (byte ∷ bytes) in
    let more = write_loop rounds filled rest in
    if r.count == ring_bytes
    then (if r.closed then returned else blocked, r, byte ∷ bytes)
    else more

unfoldable pub write_pass : PtyRing → List ℕ → Outcome × PtyRing × List ℕ
write_pass r bytes = write_loop 2 r bytes

-- The body of the copying loop of `pty_ring_read`.
unfoldable pub take_one : PtyRing → ℕ × PtyRing
take_one r =
    (get_or r.buf r.tail 0, record r { tail = (r.tail + 1) % ring_bytes; count = r.count - 1 })

-- The copying loop, by the room left in the caller's buffer: the bytes copied, and the ring.
unfoldable pub drain : ℕ → PtyRing → List ℕ × PtyRing
drain zero r = ([], r)
drain (suc room) r =
    let (byte, next) = take_one r in
    let (bytes, last) = drain room next in if ltb 0 r.count then (byte ∷ bytes, last) else ([], r)

unfoldable pub read_pass : PtyRing → ℕ → Outcome × PtyRing × List ℕ
read_pass r zero = (returned, r, [])
read_pass r (suc room) =
    let (bytes, last) = drain (suc room) r in
    if r.count == 0
    then (if r.closed then returned else blocked, r, [])
    else (returned, last, bytes)
