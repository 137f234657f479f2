-- ===== src/Tty/Line.antt =====
-- One terminal of kernel/drivers/tty.c, kernel/drivers/tty.h: its buffers, its keys and its reads.
use drunix_os.Base.{
  drop, take, ℕ, zero, suc, ◌+◌, ◌-◌, ◌%◌, min, Bool, true, false, not, ◌&&◌, ◌||◌, List, [], ◌∷◌,
  ◌++◌, ltb, leb, ◌==◌, if◌then◌else◌, get_or, set, replicate, bit_and,
}

-- `TTY_RAW_BUF_SIZE` and `TTY_CANON_BUF_SIZE`
abbrev pub raw_bytes : ℕ
raw_bytes = 256

abbrev pub canon_bytes : ℕ
canon_bytes = 256

-- The bits of `c_iflag` and `c_lflag` that the file reads.
abbrev pub icrnl : ℕ
icrnl = 1

abbrev pub icanon : ℕ
icanon = 1

abbrev pub echo_bit : ℕ
echo_bit = 2

abbrev pub echoe : ℕ
echoe = 4

abbrev pub isig : ℕ
isig = 8

-- The indices of `c_cc` that the file reads.
abbrev pub vintr : ℕ
vintr = 0

abbrev pub verase : ℕ
verase = 2

abbrev pub vmin : ℕ
vmin = 6

abbrev pub vsusp : ℕ
vsusp = 10

-- `termios_t`; `c_cc` has 19 entries.
pub record Termios : Type 0 where
  pub c_iflag : ℕ
  pub c_oflag : ℕ
  pub c_cflag : ℕ
  pub c_lflag : ℕ
  pub c_cc : List ℕ

-- `tty_t`; a reader that waits is told by what a read gives.
pub record Tty : Type 0 where
  pub raw_buf : List ℕ
  pub raw_head : ℕ
  pub raw_tail : ℕ
  pub canon_buf : List ℕ
  pub canon_len : ℕ
  pub canon_ready : Bool
  pub termios : Termios
  pub ctrl_sid : ℕ
  pub fg_pgid : ℕ
  pub interrupted : Bool
  pub in_use : Bool

-- What a call does outside the terminal, in order: bytes written to the console, a signal sent to a
-- group of processes, and the waking of readers.
pub data Effect : Type 0 where
  feedback : List ℕ → Effect
  sends : (pgid signum : ℕ) → Effect
  wakes : Effect

-- `SIGINT` and `SIGTSTP`
abbrev pub sigint : ℕ
sigint = 2

abbrev pub sigtstp : ℕ
sigtstp = 20

unfoldable pub has : ℕ → ℕ → Bool
has flags bit = not (bit_and flags bit == 0)

-- `tty_termios_set_defaults`
abbrev pub default_termios : Termios
default_termios = record {
  c_iflag = icrnl;
  c_oflag = 1 + 2;
  c_cflag = 1 + 2;
  c_lflag = icanon + echo_bit + echoe + isig;
  c_cc = 3 ∷ 0 ∷ 0x7f ∷ 0 ∷ 4 ∷ 0 ∷ 1 ∷ 0 ∷ 0x11 ∷ 0x13 ∷ 0x1a ∷ replicate 8 0;
}

-- The body of the loop of `tty_init`.
unfoldable pub init_one : Tty → Tty
init_one t = record t {
  raw_head = 0;
  raw_tail = 0;
  canon_len = 0;
  canon_ready = false;
  termios = default_termios;
  ctrl_sid = 0;
  fg_pgid = 0;
  interrupted = false;
  in_use = true;
}

unfoldable pub read_available : Tty → ℕ
read_available t =
    if has t.termios.c_lflag icanon
    then (if t.canon_ready then t.canon_len else 0)
    else if leb t.raw_tail t.raw_head
    then t.raw_head - t.raw_tail
    else raw_bytes - t.raw_tail + t.raw_head

-- `^C` or `^Z` with a newline, for a foreground group.
unfoldable pub stopped_by : Tty → ℕ → ℕ → Tty × List Effect
stopped_by t letter signum = if t.fg_pgid == 0 then (t, []) else (
  record t { interrupted = true },
  feedback (94 ∷ letter ∷ 10 ∷ []) ∷ sends t.fg_pgid signum ∷ wakes ∷ [],
)

unfoldable pub ctrl_c : Tty → Tty × List Effect
ctrl_c t = stopped_by t 67 sigint

unfoldable pub ctrl_z : Tty → Tty × List Effect
ctrl_z t = stopped_by t 90 sigtstp

-- The branches of `tty_input_char`: a key that erases, a key of a line, a key in raw mode.
abbrev pub is_erase : Termios → ℕ → Bool
is_erase m c = c == 8 || c == 0x7f || c == get_or m.c_cc verase 0

unfoldable pub erase : Tty → Tty × List Effect
erase t =
    if ltb 0 t.canon_len
    then (
      record t { canon_len = t.canon_len - 1 },
      if has t.termios.c_lflag echoe then feedback (8 ∷ 32 ∷ 8 ∷ []) ∷ [] else [],
    )
    else (t, [])

unfoldable pub store : Tty → ℕ → Tty
store t c =
    if ltb t.canon_len (canon_bytes - 1)
    then record t { canon_buf = set t.canon_buf t.canon_len c; canon_len = t.canon_len + 1 }
    else t

unfoldable pub echoed : Tty → ℕ → List Effect
echoed t c =
    if ltb t.canon_len (canon_bytes - 1) && has t.termios.c_lflag echo_bit
    then feedback (c ∷ []) ∷ []
    else []

unfoldable pub add_key : Tty → ℕ → Tty × List Effect
add_key t c =
    if c == 10
    then (record (store t c) { canon_ready = true }, echoed t c ++ (wakes ∷ []))
    else (store t c, echoed t c)

unfoldable pub push_raw : Tty → ℕ → Tty × List Effect
push_raw t c =
    let next = (t.raw_head + 1) % raw_bytes in
    (
      if next == t.raw_tail
          then t
          else record t { raw_buf = set t.raw_buf t.raw_head c; raw_head = next },
      wakes ∷ [],
    )

abbrev pub mapped : Termios → ℕ → ℕ
mapped m c = if c == 13 && has m.c_iflag icrnl then 10 else c

-- A key that stops the foreground group.
abbrev pub is_stop : Termios → ℕ → ℕ → Bool
is_stop m which c = c == get_or m.c_cc which 0 && has m.c_lflag isig

-- `tty_input_char` after the translation of the key.
unfoldable pub take_key : Tty → ℕ → Tty × List Effect
take_key t c =
    if is_stop t.termios vintr c
    then ctrl_c t
    else if is_stop t.termios vsusp c
    then ctrl_z t
    else if has t.termios.c_lflag icanon
    then (if is_erase t.termios c then erase t else add_key t c)
    else push_raw t c

unfoldable pub input_char : Tty → ℕ → Tty × List Effect
input_char t c = take_key t (mapped t.termios c)

-- Keys that come in one by one.
unfoldable pub input_each : Tty → List ℕ → Tty × List Effect
input_each t [] = (t, [])
input_each t (c ∷ keys) =
    let (next, out) = input_char t c in
    let (last, rest) = input_each next keys in (last, out ++ rest)

-- How a round of the loop of `tty_read` ends: with bytes, with -1, or asleep.
pub data Outcome : Type 0 where
  gives : List ℕ → Outcome
  fails sleeps : Outcome

-- `tty_read_was_interrupted`; whether a signal waits for the process is told by the scheduler.
unfoldable pub was_interrupted : Bool → Tty → Bool × Tty
was_interrupted waiting t =
    if waiting
    then (true, t)
    else if t.interrupted
    then (true, record t { interrupted = false })
    else (false, t)

-- The move of what is left of a line to the start of its buffer.
abbrev pub shifted : List ℕ → ℕ → ℕ → List ℕ
shifted buf n remaining = take remaining (drop n buf) ++ drop remaining buf

unfoldable pub read_line : Tty → ℕ → List ℕ × Tty
read_line t count =
    let n = min t.canon_len count in
    let remaining = t.canon_len - n in
    (
      take n t.canon_buf,
      record t {
        canon_buf = shifted t.canon_buf n remaining;
        canon_len = remaining;
        canon_ready = if remaining == 0 then false else t.canon_ready;
      },
    )

-- The loop that drains the ring, by the bytes that are still wanted.
unfoldable pub drain : ℕ → Tty → List ℕ × Tty
drain zero t = ([], t)
drain (suc count) t =
    let (bytes, last) = drain count (record t { raw_tail = (t.raw_tail + 1) % raw_bytes }) in
    if t.raw_head == t.raw_tail then ([], t) else (get_or t.raw_buf t.raw_tail 0 ∷ bytes, last)

-- The end of a round.
unfoldable pub answer : Tty → ℕ → Outcome × Tty
answer t count =
    let (line, after_line) = read_line t count in
    let (bytes, after_bytes) = drain count t in
    if has t.termios.c_lflag icanon
    then (if t.canon_ready then (gives line, after_line) else (sleeps, t))
    else if not (t.raw_head == t.raw_tail)
    then (gives bytes, after_bytes)
    else if get_or t.termios.c_cc vmin 0 == 0
    then (gives [], t)
    else (sleeps, t)

-- One round of `tty_read`: `before` and `after` say whether a signal waits before and after the poll,
-- in which `keys` come in.
unfoldable pub read_round : Bool → List ℕ → Bool → Tty → ℕ → Outcome × Tty × List Effect
read_round before keys after t count =
    let (stop, t1) = was_interrupted before t in
    let (t2, out) = input_each t1 keys in
    let (stop', t3) = was_interrupted after t2 in
    let (outcome, t4) = answer t3 count in
    if count == 0
    then (fails, t, [])
    else if stop
    then (fails, t1, [])
    else if stop'
    then (fails, t3, out)
    else (outcome, t4, out)
