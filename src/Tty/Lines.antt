-- ===== src/Tty/Lines.antt =====
-- What lines, signals and empty reads come to in kernel/drivers/tty.c.
use drunix_os.Base.{
  take_nil, take, ℕ, ◌<◌, ◌≡◌, refl, sym, ap, ◌∙◌, ◌≢◌, inl, inr, Bool, true, false, not, ◌&&◌,
  ◌||◌, List, [], ◌∷◌, arith, leb, ◌==◌, if◌then◌else◌, Bool-cases, length,
}
use drunix_os.Tty.Line.{
  Tty, Termios, gives, fails, feedback, sends, wakes, icanon, vintr, vsusp, sigint, has, is_erase,
  is_stop, mapped, stopped_by, ctrl_c, take_key, input_char, was_interrupted, read_round,
  read_available,
}
use drunix_os.Tty.View.{
  Seen, seen, line_of, raw_of, IsValid, offered, drop_last, keyed, typed, answered, read_seen,
}
use drunix_os.Tty.Keys.{length-line_of, length-raw_of}
use drunix_os.Tty.Rounds.{read_round-Answers}

-- A key that a line takes as it is.
abbrev pub is_plain : Termios → ℕ → Bool
is_plain m c =
    not (is_stop m vintr c) && not (is_stop m vsusp c) && not (is_erase m c) && mapped m c == c

unfoldable pub all_plain : Termios → List ℕ → Bool
all_plain m [] = true
all_plain m (c ∷ keys) = is_plain m c && all_plain m keys

keyed_plain :
    (a : Seen) (c : ℕ)
    → has a.termios.c_lflag icanon ≡ true
    → is_plain a.termios c ≡ true
    → keyed a (mapped a.termios c)
      ≡ record a { line = offered a.line c; ready = c == 10 || a.ready }
unfolding keyed
keyed_plain a c canon plain =
    let same : mapped a.termios c ≡ c = ground arith in
    let i : is_stop a.termios vintr c ≡ false = ground arith in
    let z : is_stop a.termios vsusp c ≡ false = ground arith in
    let e : is_erase a.termios c ≡ false = ground arith in rw same (simp (i, z, canon, e) refl)

-- A reader of a line that is ready once the keys are typed.
read_seen_ready :
    (keys : List ℕ) (a late : Seen) (count : ℕ)
    → 0 < count
    → a.interrupted ≡ false
    → typed a keys ≡ late
    → late.interrupted ≡ false
    → has late.termios.c_lflag icanon ≡ true
    → late.ready ≡ true
    → (read_seen false keys false a count).0 ≡ gives (take count late.line)
unfolding read_seen answered
read_seen_ready keys a late count some_room going e on canon ready =
    let wants : (count == 0) ≡ false = ground arith in
    simp (wants, going) (rw e (simp (on, canon, ready) refl))

-- A newline and then a key that erases, typed at a valid terminal in canonical mode with an empty line, that
-- is not interrupted: a reader gets no byte, whatever its room.
pub read_nothing :
    (t : Tty) (key count : ℕ)
    → IsValid t
    → has t.termios.c_lflag icanon ≡ true
    → t.interrupted ≡ false
    → line_of t ≡ []
    → is_plain t.termios 10 ≡ true
    → is_erase t.termios (mapped t.termios key) ≡ true
    → is_stop t.termios vintr (mapped t.termios key) ≡ false
    → is_stop t.termios vsusp (mapped t.termios key) ≡ false
    → 0 < count
    → (read_round false (10 ∷ key ∷ []) false t count).0 ≡ gives []
unfolding typed keyed
read_nothing t key count v canon going empty newline erases no_intr no_susp some_room =
    let r = read_round-Answers false (10 ∷ key ∷ []) false t count v in
    let one : keyed (seen t) (mapped t.termios 10)
        ≡ record (seen t) { line = 10 ∷ []; ready = true } =
      keyed_plain (seen t) 10 canon newline
      ∙ ap (λ (l : List ℕ). record (seen t) { line = offered l 10; ready = true }) empty
      ∙ unfold offered in refl in
    let late : typed (seen t) (10 ∷ key ∷ []) ≡ record (seen t) { line = []; ready = true } =
      ap (λ (a : Seen). keyed a (mapped a.termios key)) one
      ∙ simp (no_intr, no_susp, canon, erases) (unfold drop_last in refl) in
    r.outcome
    ∙ read_seen_ready (10 ∷ key ∷ []) (seen t) (record (seen t) { line = []; ready = true }) count
        some_room going late going canon refl
    ∙ ap gives (take_nil count)

-- The key of VINTR at a terminal that is not interrupted, where signals are on and there is a foreground group:
-- the group gets SIGINT and the readers are woken. A round of a read for at least one byte then gives
-- -1. If no signal waits for its reader, it leaves the terminal as before the key. If one waits,
-- as SIGINT does for a reader of the group that does not block it, the terminal stays interrupted,
-- so that the next round for which no signal waits gives -1 too, and only then is it as before.
pub input_char_stop :
    (t : Tty) (c : ℕ) (keys : List ℕ) (after : Bool) (count : ℕ) (keys' : List ℕ) (after' : Bool)
    (count' : ℕ)
    → is_stop t.termios vintr (mapped t.termios c) ≡ true
    → t.fg_pgid ≢ 0
    → t.interrupted ≡ false
    → 0 < count
    → 0 < count'
    → ((input_char t c).1 ≡ feedback (94 ∷ 67 ∷ 10 ∷ []) ∷ sends t.fg_pgid sigint ∷ wakes ∷ [])
      × (read_round false keys after (input_char t c).0 count ≡ (fails, t, []))
      × ((read_round true keys after (input_char t c).0 count).0 ≡ fails)
      × (((read_round true keys after (input_char t c).0 count).1).interrupted ≡ true)
      × (read_round false keys' after'
            (read_round true keys after (input_char t c).0 count).1
            count'
          ≡ (fails, t, []))
unfolding input_char take_key ctrl_c stopped_by read_round was_interrupted
input_char_stop t c keys after count keys' after' count' stop there going some_room more_room =
    let real : (t.fg_pgid == 0) ≡ false = ground arith in
    let wants : (count == 0) ≡ false = ground arith in
    let wants' : (count' == 0) ≡ false = ground arith in
    (
      simp (stop, real) refl,
      simp (stop, real, wants)
          (ap (λ (b : Bool). (fails, record t { interrupted = b }, [])) (sym going)),
      simp (stop, real, wants) refl,
      simp (stop, real, wants) refl,
      simp (stop, real, wants, wants')
          (ap (λ (b : Bool). (fails, record t { interrupted = b }, [])) (sym going)),
    )

-- The bytes that can be read at once are counted right.
pub read_available-seen :
    (t : Tty)
    → IsValid t
    → read_available t ≡ (
        if has t.termios.c_lflag icanon
        then (if t.canon_ready then length (line_of t) else 0)
        else length (raw_of t))
unfolding read_available
read_available-seen t v =
    let n = length-raw_of t in
    let l = length-line_of t v in
    let head_in = v.head_in in
    let tail_in = v.tail_in in
    rw (n, l)
      (elim (Bool-cases (has t.termios.c_lflag icanon)) [
        | inl canon ↦ simp canon refl
        | inr raw ↦ elim (Bool-cases (leb t.raw_tail t.raw_head)) [
          | inl ahead ↦ simp (raw, ahead) (ground arith)
          | inr round ↦ simp (raw, round) (ground arith)
        ]
      ])
