-- ===== src/Pty/Fifo.antt =====
-- What one pass of a writer or a reader does to a ring of kernel/proc/pty.c, seen as a queue.
use drunix_os.Base.{
  ℕ, zero, suc, ◌+◌, ◌-◌, ◌%◌, ◌^◌, ◌≤◌, ◌<◌, min, ◌≡◌, refl, sym, ap, ◌∙◌, ◌⊎◌, inl, inr, true,
  false, List, [], ◌∷◌, ◌++◌, arith, ltb, ◌==◌, if◌then◌else◌, Bool-cases, append_assoc, append-nil,
  length, length-set,
}
use drunix_os.Ring.{window, window-set_end}
use drunix_os.Pty.Ring.{
  PtyRing, ring_bytes, put, fill, Outcome, returned, blocked, write_loop, write_pass, take_one,
  drain, read_pass,
}

-- The indices stay inside the array, and the head is `count` entries past the tail.
pub record IsValid (r : PtyRing) : Type 0 where
  pub storage : ring_bytes ≤ length r.buf
  pub tail_in : r.tail < ring_bytes
  pub fits : r.count ≤ ring_bytes
  pub head_at : r.head ≡ (r.tail + r.count) % ring_bytes

-- The bytes written and not yet read, oldest first.
unfoldable pub contents : PtyRing → List ℕ
contents r = window 0 ring_bytes r.buf r.tail r.count

put-IsValid : (r : PtyRing) (byte : ℕ) → IsValid r → r.count < ring_bytes → IsValid (put r byte)
unfolding put
put-IsValid r byte v h = ground (arith, length-set r.buf r.head byte)

contents-put :
    (r : PtyRing) (byte : ℕ)
    → IsValid r
    → r.count < ring_bytes
    → contents (put r byte) ≡ contents r ++ (byte ∷ [])
unfolding put contents
contents-put r byte v h =
    let grows : (r.count + 1) % 2 ^ 32 ≡ suc r.count = omega (arith, v.fits) in
    rw grows
      (window-set_end 0 ring_bytes r.buf r.tail r.count r.head byte v.storage v.tail_in h v.head_at)

-- What filling does: it takes bytes from the front until none is left or the ring is full.
record Filled (r : PtyRing) (bytes : List ℕ) (out : PtyRing × List ℕ) : Type 0 where
  valid : IsValid out.0
  sent : List ℕ
  split : bytes ≡ sent ++ out.1
  grown : contents out.0 ≡ contents r ++ sent
  closed_same : out.0.closed ≡ r.closed
  ends : (out.1 ≡ []) ⊎ (out.0.count ≡ ring_bytes)

fill-Filled : (r : PtyRing) (bytes : List ℕ) → IsValid r → Filled r bytes (fill r bytes)
unfolding fill
fill-Filled r [] v = record {
  valid = v;
  sent = [];
  split = refl;
  grown = sym (append-nil (contents r));
  closed_same = refl;
  ends = inl refl;
}
fill-Filled r (byte ∷ bytes) v = elim (Bool-cases (ltb r.count ring_bytes)) [
  | inr full ↦ rw full (record {
    valid = v;
    sent = [];
    split = refl;
    grown = sym (append-nil (contents r));
    closed_same = refl;
    ends = inr (ground arith);
  })
  | inl room ↦
      let h : r.count < ring_bytes = ground arith in
      let f = fill-Filled (put r byte) bytes (put-IsValid r byte v h) in
      rw room (record {
        valid = f.valid;
        sent = byte ∷ f.sent;
        split = ap (λ l. byte ∷ l) f.split;
        grown =
            f.grown
            ∙ ap (λ l. l ++ f.sent) (contents-put r byte v h)
            ∙ append_assoc (contents r) (byte ∷ []) f.sent;
        closed_same = f.closed_same ∙ unfold put in refl;
        ends = f.ends;
      })
]

-- What a pass of a writer does. It returns with all bytes written, or with the ring full and closed;
-- it sleeps only on a full open ring.
pub record Wrote (r : PtyRing) (bytes : List ℕ) (out : Outcome × PtyRing × List ℕ) : Type 0 where
  pub valid : IsValid out.1
  pub sent : List ℕ
  pub split : bytes ≡ sent ++ out.2
  pub grown : contents out.1 ≡ contents r ++ sent
  pub closed_same : out.1.closed ≡ r.closed
  pub ends :
      ((out.0 ≡ returned) × (out.2 ≡ []))
      ⊎ ((out.0 ≡ (if r.closed then returned else blocked))
          × (out.1.count ≡ ring_bytes)
          × (0 < length out.2))

stop-Wrote :
    (r : PtyRing) (bytes : List ℕ) (o : Outcome)
    → IsValid r
    → ((o ≡ returned) × (bytes ≡ []))
      ⊎ ((o ≡ (if r.closed then returned else blocked))
          × (r.count ≡ ring_bytes)
          × (0 < length bytes))
    → Wrote r bytes (o, r, bytes)
stop-Wrote r bytes o v e = record {
  valid = v;
  sent = [];
  split = refl;
  grown = sym (append-nil (contents r));
  closed_same = refl;
  ends = e;
}

-- The last round only finds that it is done.
last_round :
    (r : PtyRing) (bytes : List ℕ)
    → IsValid r
    → (bytes ≡ []) ⊎ (r.count ≡ ring_bytes)
    → Wrote r bytes (write_loop 1 r bytes)
unfolding write_loop
last_round r [] v e = stop-Wrote r [] returned v (inl (refl, refl))
last_round r (byte ∷ bytes) v e =
    let full : (r.count == ring_bytes) ≡ true = ground arith in
    rw full (
      stop-Wrote r (byte ∷ bytes) (if r.closed then returned else blocked) v
        (inr (refl, ground arith, omega arith)))

-- A pass of `pty_ring_write` does what `Wrote` says: it keeps the ring valid, appends the bytes that it
-- has taken, and ends with all of them taken, or with bytes left and the ring full, where it
-- returns if the ring is closed and sleeps if not.
pub write_pass-Wrote :
    (r : PtyRing) (bytes : List ℕ) → IsValid r → Wrote r bytes (write_pass r bytes)
unfolding write_pass write_loop
write_pass-Wrote r [] v = stop-Wrote r [] returned v (inl (refl, refl))
write_pass-Wrote r (byte ∷ bytes) v = elim (Bool-cases (r.count == ring_bytes)) [
  | inl full ↦ rw full (
      stop-Wrote r (byte ∷ bytes) (if r.closed then returned else blocked) v
        (inr (refl, ground arith, omega arith)))
  | inr room ↦
      let f = fill-Filled r (byte ∷ bytes) v in
      let (filled, rest) = fill r (byte ∷ bytes) in
      let w = last_round filled rest f.valid f.ends in
      rw room (record {
        valid = w.valid;
        sent = f.sent ++ w.sent;
        split = f.split ∙ ap (λ l. f.sent ++ l) w.split ∙ sym (append_assoc f.sent w.sent _);
        grown = w.grown ∙ ap (λ l. l ++ w.sent) f.grown ∙ append_assoc (contents r) f.sent w.sent;
        closed_same = w.closed_same ∙ f.closed_same;
        ends = rw f.closed_same at w.ends;
      })
]

take_one-IsValid : (r : PtyRing) → IsValid r → 0 < r.count → IsValid (take_one r).1
unfolding take_one
take_one-IsValid r v h = ground arith

contents-take_one :
    (r : PtyRing) → IsValid r → 0 < r.count → contents r ≡ (take_one r).0 ∷ contents (take_one r).1
unfolding take_one contents window
contents-take_one r v h =
    let e : r.count ≡ suc (r.count - 1) = omega arith in
    ap (λ n. window 0 ring_bytes r.buf r.tail n) e

count-take_one : (r : PtyRing) → (take_one r).1.count ≡ r.count - 1
unfolding take_one
count-take_one r = refl

-- What draining does: it takes the oldest bytes, as many as there are and the buffer holds.
record Drained (r : PtyRing) (room : ℕ) (out : List ℕ × PtyRing) : Type 0 where
  valid : IsValid out.1
  shrunk : contents r ≡ out.0 ++ contents out.1
  amount : length out.0 ≡ min room r.count

drain-Drained : (room : ℕ) (r : PtyRing) → IsValid r → Drained r room (drain room r)
unfolding drain
drain-Drained zero r v = record { valid = v; shrunk = refl; amount = omega arith }
drain-Drained (suc room) r v = elim (Bool-cases (ltb 0 r.count)) [
  | inr none_left ↦ rw none_left (record { valid = v; shrunk = refl; amount = ground arith })
  | inl some_left ↦
      let h : 0 < r.count = ground arith in
      let d = drain-Drained room (take_one r).1 (take_one-IsValid r v h) in
      rw some_left (record {
        valid = d.valid;
        shrunk = contents-take_one r v h ∙ ap (λ l. (take_one r).0 ∷ l) d.shrunk;
        amount = omega (arith, d.amount, count-take_one r);
      })
]

-- What a pass of a reader does: it gives the oldest bytes that fit; it sleeps only on an empty open
-- ring.
pub record Read (r : PtyRing) (room : ℕ) (out : Outcome × PtyRing × List ℕ) : Type 0 where
  pub valid : IsValid out.1
  pub shrunk : contents r ≡ out.2 ++ contents out.1
  pub amount : length out.2 ≡ min room r.count
  pub ends : (out.0 ≡ returned) ⊎ ((out.0 ≡ blocked) × (r.count ≡ 0) × (r.closed ≡ false))

-- A pass of `pty_ring_read` does what `Read` says: it keeps the ring valid, and gives the oldest bytes, as
-- many as there are and fit; it sleeps only where the ring is empty and not closed.
pub read_pass-Read : (r : PtyRing) (room : ℕ) → IsValid r → Read r room (read_pass r room)
unfolding read_pass
read_pass-Read r zero v = record { valid = v; shrunk = refl; amount = omega arith; ends = inl refl }
read_pass-Read r (suc room) v = elim (Bool-cases (r.count == 0)) [
  | inl empty ↦
      rw empty (record { valid = v; shrunk = refl; amount = ground arith; ends = ground arith })
  | inr some_left ↦
      let d = drain-Drained (suc room) r v in
      rw some_left
        (record { valid = d.valid; shrunk = d.shrunk; amount = d.amount; ends = inl refl })
]
