-- ===== src/Pty/Trip.antt =====
-- The way of the bytes from one end of a pseudo-terminal of kernel/proc/pty.c to the other.
use drunix_os.Base.{
  get_elem?-set_self, ℕ, ◌+◌, ◌≤◌, ◌<◌, ◌≡◌, refl, sym, ap, ◌∙◌, inl, inr, true, Option, some, List,
  [], ◌∷◌, ◌++◌, arith, ◌>>=◌, append-nil, length, get_elem?, set, length-append,
}
use drunix_os.Ring.{length-window}
use drunix_os.Pty.Ring.{PtyRing, ring_bytes, Outcome, returned, write_pass, read_pass}
use drunix_os.Pty.Fifo.{IsValid, contents, Wrote, write_pass-Wrote, read_pass-Read}
use drunix_os.Pty.Pool.{Pty, live_entry, master_write, slave_read, slave_write, master_read}

-- A write that the ring has the room for is finished in one pass, and leaves what was there followed
-- by the bytes.
record Finished (r : PtyRing) (bytes : List ℕ) (out : Outcome × PtyRing × List ℕ) : Type 0 where
  returns : out.0 ≡ returned
  nothing_left : out.2 ≡ []
  valid : IsValid out.1
  grown : contents out.1 ≡ contents r ++ bytes

length-contents : (r : PtyRing) → length (contents r) ≡ r.count
unfolding contents
length-contents r = length-window 0 ring_bytes r.buf r.tail r.count

Wrote-Finished :
    (r : PtyRing) (bytes : List ℕ) (out : Outcome × PtyRing × List ℕ)
    → r.count + length bytes ≤ ring_bytes
    → Wrote r bytes out
    → Finished r bytes out
Wrote-Finished r bytes out h w =
    let total : length bytes ≡ length w.sent + length out.2 =
      ap (λ (l : List ℕ). length l) w.split ∙ length-append w.sent out.2 in
    let after : out.1.count ≡ r.count + length w.sent =
      sym (length-contents out.1)
      ∙ ap (λ (l : List ℕ). length l) w.grown
      ∙ length-append (contents r) w.sent
      ∙ ap (λ (n : ℕ). n + length w.sent) (length-contents r) in
    elim w.ends [
      | inr (o, full, left) ↦ absurd (omega (arith, total, after, full, left, h))
      | inl (o, nothing) ↦ record {
        returns = o;
        nothing_left = nothing;
        valid = w.valid;
        grown =
            w.grown
            ∙ ap (λ l. contents r ++ l)
                (sym (append-nil w.sent) ∙ ap (λ l. w.sent ++ l) (sym nothing) ∙ sym w.split);
      }
    ]

length-zero : (xs : List ℕ) → length xs ≡ 0 → xs ≡ []
length-zero [] e = refl
length-zero (x ∷ xs) e = absurd (omega (arith, e))

-- A read of all that there is gives it, and does not sleep.
read_pass_all :
    (r : PtyRing) (room : ℕ)
    → IsValid r
    → 0 < r.count
    → r.count ≤ room
    → ((read_pass r room).0 ≡ returned) × ((read_pass r room).2 ≡ contents r)
read_pass_all r room v some_there fits =
    let d = read_pass-Read r room v in
    let total : r.count ≡ length (read_pass r room).2 + length (contents (read_pass r room).1) =
      sym (length-contents r)
      ∙ ap (λ (l : List ℕ). length l) d.shrunk
      ∙ length-append (read_pass r room).2 (contents (read_pass r room).1) in
    let nothing : contents (read_pass r room).1 ≡ [] =
      length-zero (contents (read_pass r room).1) (omega (arith, total, d.amount, fits)) in
    (
      elim d.ends [ inl o ↦ o | inr (o, empty, c) ↦ absurd (omega (arith, empty, some_there)) ],
      sym (append-nil (read_pass r room).2)
          ∙ ap (λ l. (read_pass r room).2 ++ l) (sym nothing)
          ∙ sym d.shrunk,
    )

live_entry-some :
    (pool : List Pty) (idx : ℕ) (p : Pty)
    → get_elem? pool idx ≡ some p
    → p.in_use ≡ true
    → live_entry pool idx ≡ some p
unfolding live_entry
live_entry-some pool idx p at used = simp (at, used) refl

-- What the slave's end sees after a write at the master's end.
abbrev pub to_slave_trip : List Pty → ℕ → List ℕ → ℕ → Option (Outcome × List ℕ × Outcome × List ℕ)
to_slave_trip pool idx bytes room =
    master_write pool idx bytes >>= λ t. slave_read t.1 idx room >>= λ u. some (t.0, t.2, u.0, u.2)

-- The same in the other direction.
abbrev pub to_master_trip : List Pty → ℕ → List ℕ → ℕ → Option (Outcome × List ℕ × Outcome × List ℕ)
to_master_trip pool idx bytes room =
    slave_write pool idx bytes >>= λ t. master_read t.1 idx room >>= λ u. some (t.0, t.2, u.0, u.2)

ring_trip :
    (r : PtyRing) (bytes : List ℕ) (room : ℕ)
    → IsValid r
    → 0 < r.count + length bytes
    → r.count + length bytes ≤ ring_bytes
    → r.count + length bytes ≤ room
    → Finished r bytes (write_pass r bytes)
      × ((read_pass (write_pass r bytes).1 room).0 ≡ returned)
      × ((read_pass (write_pass r bytes).1 room).2 ≡ contents r ++ bytes)
ring_trip r bytes room v some_there fits big =
    let w = Wrote-Finished r bytes (write_pass r bytes) fits (write_pass-Wrote r bytes v) in
    let after : (write_pass r bytes).1.count ≡ r.count + length bytes =
      sym (length-contents (write_pass r bytes).1)
      ∙ ap (λ (l : List ℕ). length l) w.grown
      ∙ length-append (contents r) bytes
      ∙ ap (λ (n : ℕ). n + length bytes) (length-contents r) in
    let (o, got) =
      read_pass_all (write_pass r bytes).1 room w.valid (omega (arith, after, some_there))
        (omega (arith, after, big)) in
    (w, o, got ∙ w.grown)

-- On a pair in use, a write at the master's end that fits into the ring returns at once with all its
-- bytes taken, and a read at the slave's end with a large enough buffer then returns at once with
-- the bytes that waited there followed by those written, in order.
pub master_write-slave_read :
    (pool : List Pty) (idx : ℕ) (p : Pty) (bytes : List ℕ) (room : ℕ)
    → get_elem? pool idx ≡ some p
    → p.in_use ≡ true
    → IsValid p.to_slave
    → 0 < p.to_slave.count + length bytes
    → p.to_slave.count + length bytes ≤ ring_bytes
    → p.to_slave.count + length bytes ≤ room
    → to_slave_trip pool idx bytes room
      ≡ some (returned, [], returned, contents p.to_slave ++ bytes)
unfolding master_write slave_read
master_write-slave_read pool idx p bytes room at used v some_there fits big =
    let q = record p { to_slave = (write_pass p.to_slave bytes).1 } in
    let (w, o, got) = ring_trip p.to_slave bytes room v some_there fits big in
    simp
      (
        live_entry-some pool idx p at used,
        live_entry-some (set pool idx q) idx q (get_elem?-set_self pool idx p q at) used,
        w.returns,
        w.nothing_left,
        o,
        got,
      )
      refl

-- The same from the slave's end to the master's.
pub slave_write-master_read :
    (pool : List Pty) (idx : ℕ) (p : Pty) (bytes : List ℕ) (room : ℕ)
    → get_elem? pool idx ≡ some p
    → p.in_use ≡ true
    → IsValid p.to_master
    → 0 < p.to_master.count + length bytes
    → p.to_master.count + length bytes ≤ ring_bytes
    → p.to_master.count + length bytes ≤ room
    → to_master_trip pool idx bytes room
      ≡ some (returned, [], returned, contents p.to_master ++ bytes)
unfolding slave_write master_read
slave_write-master_read pool idx p bytes room at used v some_there fits big =
    let q = record p { to_master = (write_pass p.to_master bytes).1 } in
    let (w, o, got) = ring_trip p.to_master bytes room v some_there fits big in
    simp
      (
        live_entry-some pool idx p at used,
        live_entry-some (set pool idx q) idx q (get_elem?-set_self pool idx p q at) used,
        w.returns,
        w.nothing_left,
        o,
        got,
      )
      refl
