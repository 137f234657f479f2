-- ===== src/Tty/Table.antt =====
-- The table of terminals of kernel/drivers/tty.c, and its calls by index. An index below 0 is one that
-- `tty_get` refuses, as it does one past the table.
use drunix_os.Base.{
  ℕ, ◌≡◌, refl, ◌≢◌, inl, inr, Bool, Option, none, some, List, [], ◌∷◌, leb, if◌then◌else◌,
  Option-cases, ◌>>=◌, get_elem?, set, get_elem?-set_ne,
}
use drunix_os.Tty.Line.{
  Tty, Effect, wakes, Outcome, fails, init_one, read_available, input_char, ctrl_c, ctrl_z,
  read_round,
}

-- `MAX_TTYS`
abbrev pub max_ttys : ℕ
max_ttys = 4

-- The loop of `tty_init`.
unfoldable pub init_each : List Tty → List Tty
init_each [] = []
init_each (t ∷ table) = init_one t ∷ init_each table

unfoldable pub tty_get : List Tty → ℕ → Option Tty
tty_get table idx =
    if leb max_ttys idx
    then none
    else get_elem? table idx >>= λ t. if t.in_use then some t else none

-- A call that changes the terminal at an index.
unfoldable pub change_at : (Tty → Tty × List Effect) → List Tty → ℕ → List Tty × List Effect
change_at change table idx = elim (tty_get table idx) [
  | none ↦ (table, [])
  | some t ↦ let (next, out) = change t in (set table idx next, out)
]

unfoldable pub tty_wake_readers : List Tty → ℕ → List Effect
tty_wake_readers table idx = elim (tty_get table idx) [ none ↦ [] | some t ↦ wakes ∷ [] ]

unfoldable pub tty_read_available : List Tty → ℕ → ℕ
tty_read_available table idx = elim (tty_get table idx) [ none ↦ 0 | some t ↦ read_available t ]

unfoldable pub tty_input_char : List Tty → ℕ → ℕ → List Tty × List Effect
tty_input_char table idx c = change_at (λ t. input_char t c) table idx

unfoldable pub tty_ctrl_c : List Tty → ℕ → List Tty × List Effect
tty_ctrl_c table idx = change_at ctrl_c table idx

unfoldable pub tty_ctrl_z : List Tty → ℕ → List Tty × List Effect
tty_ctrl_z table idx = change_at ctrl_z table idx

-- A round of `tty_read` by a process that runs.
unfoldable pub tty_read : Bool → List ℕ → Bool → List Tty → ℕ → ℕ → Outcome × List Tty × List Effect
tty_read before keys after table idx count = elim (tty_get table idx) [
  | none ↦ (fails, table, [])
  | some t ↦
      let (outcome, next, out) = read_round before keys after t count in
      (outcome, set table idx next, out)
]

-- A call on one terminal leaves the others.
pub change_at_apart :
    (change : Tty → Tty × List Effect) (table : List Tty) (idx other : ℕ)
    → idx ≢ other
    → get_elem? (change_at change table idx).0 other ≡ get_elem? table other
unfolding change_at
change_at_apart change table idx other apart = elim (Option-cases (tty_get table idx)) [
  | inl nothing ↦ rw (change_at, nothing) refl
  | inr (t, here) ↦ rw (change_at, here) (get_elem?-set_ne table idx other (change t).0 apart)
]
