-- ===== src/Tty/View.antt =====
-- The specification of kernel/drivers/tty.c: a line that is edited and a queue of bytes, without
-- buffers.
use drunix_os.Base.{
  drop, take, ℕ, ◌+◌, ◌-◌, ◌%◌, ◌<◌, ◌≡◌, Bool, true, false, not, ◌||◌, List, [], ◌∷◌, ◌++◌, ltb,
  leb, ◌==◌, if◌then◌else◌, length, get_or,
}
use drunix_os.Ring.{window}
use drunix_os.Tty.Line.{
  Tty, Termios, Outcome, gives, fails, sleeps, raw_bytes, canon_bytes, icanon, vintr, vsusp, vmin,
  has, is_erase, is_stop, mapped,
}

-- A terminal as its users see it.
pub record Seen : Type 0 where
  pub line : List ℕ
  pub ready : Bool
  pub raw : List ℕ
  pub interrupted : Bool
  pub termios : Termios
  pub fg_pgid : ℕ

-- The number of bytes in the ring.
abbrev pub raw_count : Tty → ℕ
raw_count t = (t.raw_head + raw_bytes - t.raw_tail) % raw_bytes

unfoldable pub line_of : Tty → List ℕ
line_of t = take t.canon_len t.canon_buf

unfoldable pub raw_of : Tty → List ℕ
raw_of t = window 0 raw_bytes t.raw_buf t.raw_tail (raw_count t)

abbrev pub seen : Tty → Seen
seen t = record {
  line = line_of t;
  ready = t.canon_ready;
  raw = raw_of t;
  interrupted = t.interrupted;
  termios = t.termios;
  fg_pgid = t.fg_pgid;
}

-- The indices stay inside the buffers, and a line leaves the last byte of its buffer free.
pub record IsValid (t : Tty) : Type 0 where
  pub raw_size : length t.raw_buf ≡ raw_bytes
  pub canon_size : length t.canon_buf ≡ canon_bytes
  pub head_in : t.raw_head < raw_bytes
  pub tail_in : t.raw_tail < raw_bytes
  pub line_in : t.canon_len < canon_bytes

-- A byte that is lost when there is no room for it.
unfoldable pub offered : List ℕ → ℕ → List ℕ
offered l c = if ltb (length l) 255 then l ++ (c ∷ []) else l

unfoldable pub drop_last : List ℕ → List ℕ
drop_last [] = []
drop_last (x ∷ []) = []
drop_last (x ∷ y ∷ l) = x ∷ drop_last (y ∷ l)

-- What a key does, after its translation.
unfoldable pub keyed : Seen → ℕ → Seen
keyed a c =
    if is_stop a.termios vintr c || is_stop a.termios vsusp c
    then (if a.fg_pgid == 0 then a else record a { interrupted = true })
    else if has a.termios.c_lflag icanon
    then (if is_erase a.termios c
        then record a { line = drop_last a.line }
        else record a { line = offered a.line c; ready = c == 10 || a.ready })
    else record a { raw = offered a.raw c }

unfoldable pub typed : Seen → List ℕ → Seen
typed a [] = a
typed a (c ∷ keys) = typed (keyed a (mapped a.termios c)) keys

-- What a reader of `count` bytes gets and leaves.
unfoldable pub answered : Seen → ℕ → Outcome × Seen
answered a count =
    if has a.termios.c_lflag icanon
    then (if a.ready
        then (
          gives (take count a.line),
          record a {
            line = drop count a.line;
            ready = if leb (length a.line) count then false else true;
          },
        )
        else (sleeps, a))
    else if not (length a.raw == 0)
    then (gives (take count a.raw), record a { raw = drop count a.raw })
    else if get_or a.termios.c_cc vmin 0 == 0
    then (gives [], a)
    else (sleeps, a)

-- A round of a read, with the keys that come in meanwhile; `before` and `after` are signals.
unfoldable pub read_seen : Bool → List ℕ → Bool → Seen → ℕ → Outcome × Seen
read_seen before keys after a count =
    let late = typed a keys in
    if count == 0
    then (fails, a)
    else if before
    then (fails, a)
    else if a.interrupted
    then (fails, record a { interrupted = false })
    else if after
    then (fails, late)
    else if late.interrupted
    then (fails, record late { interrupted = false })
    else answered late count
