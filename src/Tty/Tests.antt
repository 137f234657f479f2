-- ===== src/Tty/Tests.antt =====
-- Runs of the model of kernel/drivers/tty.c on small inputs.
use drunix_os.Base.{ℕ, ◌≡◌, refl, true, false, [], ◌∷◌, arith, replicate, length-replicate}
use drunix_os.Tty.Line.{
  erase, Tty, default_termios, input_char, input_each, read_round, gives, fails, feedback, sends,
  wakes, has, mapped, store, add_key, take_key, answer, read_line, was_interrupted,
}
use drunix_os.Tty.View.{seen, IsValid, line_of, keyed, read_seen}
use drunix_os.Tty.Keys.{Becomes, input_char-Becomes}
use drunix_os.Tty.Reads.{Answers}
use drunix_os.Tty.Rounds.{read_round-Answers}
use drunix_os.Tty.Lines.{read_nothing, input_char_stop}

-- A terminal with a foreground group.
abbrev shell : Tty
shell = record {
  raw_buf = replicate 256 0;
  raw_head = 0;
  raw_tail = 0;
  canon_buf = replicate 256 0;
  canon_len = 0;
  canon_ready = false;
  termios = default_termios;
  ctrl_sid = 1;
  fg_pgid = 7;
  interrupted = false;
  in_use = true;
}

shell-IsValid : IsValid shell
shell-IsValid = record {
  raw_size = length-replicate {A = ℕ} 256 0;
  canon_size = length-replicate {A = ℕ} 256 0;
  head_in = omega arith;
  tail_in = omega arith;
  line_in = omega arith;
}

-- Two letters, the first of which is erased by the second key.
two_keys : (read_round false (104 ∷ 0x7f ∷ 105 ∷ 13 ∷ []) false shell 10).0 ≡ gives (105 ∷ 10 ∷ [])
unfolding read_round was_interrupted input_each input_char take_key add_key store erase answer
    read_line has
two_keys = refl

input_char-Becomes_example :
    Becomes (input_char shell 104).0 (keyed (seen shell) (mapped shell.termios 104))
input_char-Becomes_example = input_char-Becomes shell 104 shell-IsValid

read_round-Answers_example :
    Answers
      (
        (read_round false (104 ∷ 10 ∷ []) false shell 10).0,
        (read_round false (104 ∷ 10 ∷ []) false shell 10).1,
      )
      (read_seen false (104 ∷ 10 ∷ []) false (seen shell) 10)
read_round-Answers_example = read_round-Answers false (104 ∷ 10 ∷ []) false shell 10 shell-IsValid

read_nothing_example : (read_round false (10 ∷ 0x7f ∷ []) false shell 10).0 ≡ gives []
unfolding has line_of
read_nothing_example =
    read_nothing shell 0x7f 10 shell-IsValid refl refl refl refl refl refl refl (omega arith)

input_char_stop_example :
    ((input_char shell 3).1 ≡ feedback (94 ∷ 67 ∷ 10 ∷ []) ∷ sends 7 2 ∷ wakes ∷ [])
    × (read_round false [] false (input_char shell 3).0 10 ≡ (fails, shell, []))
    × ((read_round true [] false (input_char shell 3).0 10).0 ≡ fails)
    × (((read_round true [] false (input_char shell 3).0 10).1).interrupted ≡ true)
    × (read_round false [] false (read_round true [] false (input_char shell 3).0 10).1 5
        ≡ (fails, shell, []))
unfolding has
input_char_stop_example =
    input_char_stop shell 3 [] false 10 [] false 5 refl (λ e. omega arith) refl (omega arith)
      (omega arith)
