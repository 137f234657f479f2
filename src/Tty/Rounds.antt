-- ===== src/Tty/Rounds.antt =====
-- Rounds of `tty_read` of kernel/drivers/tty.c against the specification, and what follows for keys and
-- reads in any order.
use drunix_os.Base.{
  ℕ, ◌≡◌, refl, sym, ap, ◌∙◌, inl, inr, Bool, true, false, List, arith, ◌==◌, if◌then◌else◌,
  Bool-cases, get_or,
}
use drunix_os.Tty.Line.{
  Tty, Outcome, gives, fails, icanon, vmin, has, answer, was_interrupted, input_each, read_round,
  Effect,
}
use drunix_os.Tty.View.{Seen, seen, line_of, raw_of, raw_count, IsValid, typed, answered, read_seen}
use drunix_os.Tty.Keys.{Becomes, length-raw_of, input_each-Becomes}
use drunix_os.Tty.Reads.{Answers, read_line-Answers, drain-Answers}

answer-Answers :
    (t : Tty) (count : ℕ) → IsValid t → Answers (answer t count) (answered (seen t) count)
unfolding answer answered
answer-Answers t count v = elim (Bool-cases (has t.termios.c_lflag icanon)) [
  | inl canon ↦ elim (Bool-cases t.canon_ready) [
    | inr busy ↦
        simp (canon, busy)
          (record {
            outcome = refl;
            leaves = record {
              valid = v;
              same = ap (λ (b : Bool). record (seen t) { ready = b }) busy;
            };
          })
    | inl ready ↦
        let (bytes, b) = read_line-Answers t count v in
        let b' = simp ready at b in
        simp (canon, ready) (record { outcome = ap gives bytes; leaves = b' })
  ]
  | inr raw ↦
      let n = length-raw_of t in
      let head_in = v.head_in in
      let tail_in = v.tail_in in
      elim (Bool-cases (t.raw_head == t.raw_tail)) [
        | inr more ↦
            let some_bytes : (raw_count t == 0) ≡ false = ground arith in
            let (bytes, b) = drain-Answers count t v in
            simp (raw, more, n, some_bytes) (record { outcome = ap gives bytes; leaves = b })
        | inl empty ↦
            let none_left : (raw_count t == 0) ≡ true = ground arith in
            elim (Bool-cases (get_or t.termios.c_cc vmin 0 == 0)) [
              | inl poll ↦
                  simp (raw, empty, n, none_left, poll)
                    (record { outcome = refl; leaves = record { valid = v; same = refl } })
              | inr wait ↦
                  simp (raw, empty, n, none_left, wait)
                    (record { outcome = refl; leaves = record { valid = v; same = refl } })
            ]
      ]
]

calm :
    (t : Tty)
    → IsValid t
    → Becomes (record t { interrupted = false }) (record (seen t) { interrupted = false })
unfolding line_of raw_of
calm t v = record {
  valid = record {
    raw_size = v.raw_size;
    canon_size = v.canon_size;
    head_in = v.head_in;
    tail_in = v.tail_in;
    line_in = v.line_in;
  };
  same = refl;
}

abbrev late_round : Bool → Tty → ℕ → Outcome × Tty
late_round after t count =
    if (was_interrupted after t).0
    then (fails, (was_interrupted after t).1)
    else answer (was_interrupted after t).1 count

abbrev late_seen : Bool → Seen → ℕ → Outcome × Seen
late_seen after a count =
    if after
    then (fails, a)
    else if a.interrupted
    then (fails, record a { interrupted = false })
    else answered a count

-- What follows the poll.
after_poll :
    (after : Bool) (t : Tty) (count : ℕ) (a : Seen)
    → IsValid t
    → seen t ≡ a
    → Answers (late_round after t count) (late_seen after a count)
unfolding was_interrupted
after_poll after t count a v e =
    let flag : t.interrupted ≡ a.interrupted = ap (λ (x : Seen). x.interrupted) e in
    elim (Bool-cases after) [
      | inl signal ↦
          simp signal (record { outcome = refl; leaves = record { valid = v; same = e } })
      | inr still ↦ elim (Bool-cases t.interrupted) [
        | inl stopped ↦
            let stopped' : a.interrupted ≡ true = sym flag ∙ stopped in
            let c = calm t v in
            simp (still, stopped, stopped')
              (record {
                outcome = refl;
                leaves = record {
                  valid = c.valid;
                  same = c.same ∙ ap (λ (x : Seen). record x { interrupted = false }) e;
                };
              })
        | inr on ↦
            let on' : a.interrupted ≡ false = sym flag ∙ on in
            let r = answer-Answers t count v in
            simp (still, on, on')
              (record {
                outcome = r.outcome ∙ ap (λ (x : Seen). (answered x count).0) e;
                leaves = record {
                  valid = r.leaves.valid;
                  same = r.leaves.same ∙ ap (λ (x : Seen). (answered x count).1) e;
                };
              })
      ]
    ]

abbrev poll_round : List ℕ → Bool → Tty → ℕ → Outcome × Tty × List Effect
poll_round keys after t count =
    let (next, out) = input_each t keys in
    let (stop, last) = was_interrupted after next in
    let (outcome, end) = answer last count in
    if stop then (fails, last, out) else (outcome, end, out)

poll-Answers :
    (keys : List ℕ) (after : Bool) (t : Tty) (count : ℕ) (a : Seen)
    → IsValid t
    → seen t ≡ a
    → Answers
        ((poll_round keys after t count).0, (poll_round keys after t count).1)
        (late_seen after (typed a keys) count)
poll-Answers keys after t count a v e =
    let k = input_each-Becomes t keys v in
    let next = (input_each t keys).0 in
    let r =
      after_poll after next count (typed a keys) k.valid (k.same ∙ ap (λ x. typed x keys) e) in
    elim (Bool-cases (was_interrupted after next).0) [
      | inl stop ↦ simp stop (simp stop at r)
      | inr on ↦ simp on (simp on at r)
    ]

round_from :
    (before : Bool) (keys : List ℕ) (after : Bool) (t : Tty) (count : ℕ) (a : Seen)
    → IsValid t
    → seen t ≡ a
    → Answers
        ((read_round before keys after t count).0, (read_round before keys after t count).1)
        (read_seen before keys after a count)
unfolding read_round read_seen was_interrupted
round_from before keys after t count a v e =
    let flag : t.interrupted ≡ a.interrupted = ap (λ (x : Seen). x.interrupted) e in
    elim (Bool-cases (count == 0)) [
      | inl nothing ↦
          simp nothing (record { outcome = refl; leaves = record { valid = v; same = e } })
      | inr wants ↦ elim (Bool-cases before) [
        | inl signal ↦
            simp (wants, signal)
              (record { outcome = refl; leaves = record { valid = v; same = e } })
        | inr quiet ↦ elim (Bool-cases t.interrupted) [
          | inl stopped ↦
              let stopped' : a.interrupted ≡ true = sym flag ∙ stopped in
              let c = calm t v in
              simp (wants, quiet, stopped, stopped')
                (record {
                  outcome = refl;
                  leaves = record {
                    valid = c.valid;
                    same = c.same ∙ ap (λ (x : Seen). record x { interrupted = false }) e;
                  };
                })
          | inr going ↦
              let going' : a.interrupted ≡ false = sym flag ∙ going in
              simp (wants, quiet, going, going') (poll-Answers keys after t count a v e)
        ]
      ]
    ]

-- A round of a read at a valid terminal, with the keys and signals that come in meanwhile, leaves it valid,
-- ends as the specification says, and does to what is seen of the terminal what the specification says.
pub read_round-Answers :
    (before : Bool) (keys : List ℕ) (after : Bool) (t : Tty) (count : ℕ)
    → IsValid t
    → Answers
        ((read_round before keys after t count).0, (read_round before keys after t count).1)
        (read_seen before keys after (seen t) count)
read_round-Answers before keys after t count v =
    round_from before keys after t count (seen t) v refl
