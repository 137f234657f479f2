-- ===== src/Pty/Pool.antt =====
-- The pool of kernel/proc/pty.c and the calls on its entries.
use drunix_os.Base.{
  ℕ, ◌+◌, ◌-◌, ◌%◌, ◌^◌, Bool, true, false, not, ◌&&◌, ◌||◌, Option, none, some, List, [], ◌∷◌, ltb,
  ◌==◌, if◌then◌else◌, ◌>>=◌, get_elem?, set,
}
use drunix_os.Pty.Ring.{PtyRing, Outcome, reset, write_pass, read_pass}

-- `pty_t`
pub record Pty : Type 0 where
  pub in_use : Bool
  pub master_open : ℕ
  pub slave_open : ℕ
  pub to_slave : PtyRing
  pub to_master : PtyRing

-- `PTY_MAX`; the pool is a list of so many entries.
abbrev pub pty_max : ℕ
pty_max = 4

-- The entry that `pty_alloc_master` makes of a free one.
unfoldable pub opened : Pty → Pty
opened p = record {
  in_use = true;
  master_open = 1;
  slave_open = 0;
  to_slave = reset p.to_slave;
  to_master = reset p.to_master;
}

-- The scan of `pty_alloc_master` from index `i` on.
unfoldable pub alloc_from : List Pty → ℕ → Option ℕ × List Pty
alloc_from [] i = (none, [])
alloc_from (p ∷ pool) i =
    let (found, rest) = alloc_from pool (i + 1) in
    if p.in_use then (found, p ∷ rest) else (some i, opened p ∷ pool)

unfoldable pub alloc_master : List Pty → Option ℕ × List Pty
alloc_master pool = alloc_from pool 0

-- A change of the entry at an index; an index of `PTY_MAX` or more is refused.
unfoldable pub at_entry : List Pty → ℕ → (Pty → Pty) → List Pty
at_entry pool idx change = elim (get_elem? pool idx) [
  | none ↦ pool
  | some p ↦ set pool idx (change p)
]

-- A Boolean for the status: `true` is 0.
unfoldable pub open_slave : List Pty → ℕ → Bool × List Pty
open_slave pool idx = elim (get_elem? pool idx) [
  | none ↦ (false, pool)
  | some p ↦
      if not p.in_use || p.master_open == 0 || not (p.slave_open == 0)
      then (false, pool)
      else (true, set pool idx (record p { slave_open = 1 }))
]

unfoldable pub get_master_entry : Pty → Pty
get_master_entry p =
    if p.in_use && ltb 0 p.master_open
    then record p { master_open = (p.master_open + 1) % 2 ^ 32 }
    else p

unfoldable pub get_slave_entry : Pty → Pty
get_slave_entry p =
    if p.in_use && ltb 0 p.slave_open
    then record p { slave_open = (p.slave_open + 1) % 2 ^ 32 }
    else p

abbrev close_ring : PtyRing → PtyRing
close_ring r = record r { closed = true }

-- Both rings are closed once an end has no reference left.
unfoldable pub close_rings_if : Bool → Pty → Pty
close_rings_if gone p =
    if gone
    then record p { to_slave = close_ring p.to_slave; to_master = close_ring p.to_master }
    else p

unfoldable pub drop_if : Bool → Pty → Pty
drop_if gone p = if gone then record p { in_use = false } else p

unfoldable pub release_master_entry : Pty → Pty
release_master_entry p =
    let dropped = record p { master_open = p.master_open - 1 } in
    if p.in_use
    then drop_if (p.slave_open == 0) (close_rings_if (p.master_open - 1 == 0) dropped)
    else p

unfoldable pub release_slave_entry : Pty → Pty
release_slave_entry p =
    let dropped = record p { slave_open = p.slave_open - 1 } in
    if p.in_use
    then drop_if (p.master_open == 0) (close_rings_if (p.slave_open - 1 == 0) dropped)
    else p

unfoldable pub get_master : List Pty → ℕ → List Pty
get_master pool idx = at_entry pool idx get_master_entry

unfoldable pub get_slave : List Pty → ℕ → List Pty
get_slave pool idx = at_entry pool idx get_slave_entry

unfoldable pub release_master : List Pty → ℕ → List Pty
release_master pool idx = at_entry pool idx release_master_entry

unfoldable pub release_slave : List Pty → ℕ → List Pty
release_slave pool idx = at_entry pool idx release_slave_entry

-- The entry that a transfer works on; `none` is the status -1.
unfoldable pub live_entry : List Pty → ℕ → Option Pty
live_entry pool idx = get_elem? pool idx >>= λ p. if p.in_use then some p else none

-- A pass of a transfer: how it ends, the pool, and the bytes left to write or those read.
abbrev pub Transfer : Type 0
Transfer = Option (Outcome × List Pty × List ℕ)

unfoldable pub master_write : List Pty → ℕ → List ℕ → Transfer
master_write pool idx bytes = live_entry pool idx >>= λ p.
    let (o, r, rest) = write_pass p.to_slave bytes in
    some (o, set pool idx (record p { to_slave = r }), rest)

unfoldable pub slave_write : List Pty → ℕ → List ℕ → Transfer
slave_write pool idx bytes = live_entry pool idx >>= λ p.
    let (o, r, rest) = write_pass p.to_master bytes in
    some (o, set pool idx (record p { to_master = r }), rest)

unfoldable pub master_read : List Pty → ℕ → ℕ → Transfer
master_read pool idx room = live_entry pool idx >>= λ p.
    let (o, r, bytes) = read_pass p.to_master room in
    some (o, set pool idx (record p { to_master = r }), bytes)

unfoldable pub slave_read : List Pty → ℕ → ℕ → Transfer
slave_read pool idx room = live_entry pool idx >>= λ p.
    let (o, r, bytes) = read_pass p.to_slave room in
    some (o, set pool idx (record p { to_slave = r }), bytes)

unfoldable pub master_read_available : List Pty → ℕ → ℕ
master_read_available pool idx = elim (live_entry pool idx) [
  | none ↦ 0
  | some p ↦ p.to_master.count
]

unfoldable pub slave_read_available : List Pty → ℕ → ℕ
slave_read_available pool idx = elim (live_entry pool idx) [ none ↦ 0 | some p ↦ p.to_slave.count ]

unfoldable pub master_read_closed : List Pty → ℕ → Bool
master_read_closed pool idx = elim (live_entry pool idx) [
  | none ↦ false
  | some p ↦ p.to_master.closed
]

unfoldable pub slave_read_closed : List Pty → ℕ → Bool
slave_read_closed pool idx = elim (live_entry pool idx) [
  | none ↦ false
  | some p ↦ p.to_slave.closed
]
