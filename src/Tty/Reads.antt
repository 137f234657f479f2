-- ===== src/Tty/Reads.antt =====
-- Reads of a terminal of kernel/drivers/tty.c do what the specification says.
use drunix_os.Base.{
  drop-take, take-take, length-drop, take-append, length-take, drop, take, ℕ, zero, suc, ◌+◌, ◌-◌,
  ◌%◌, ◌≤◌, min, ◌≡◌, refl, sym, ap, ◌∙◌, ◌≢◌, inl, inr, true, false, List, [], ◌∷◌, arith, leb,
  ◌==◌, if◌then◌else◌, Bool-cases, subst, length, get_or, length-append,
}
use drunix_os.Ring.{window}
use drunix_os.Tty.Line.{Tty, Outcome, raw_bytes, shifted, read_line, drain}
use drunix_os.Tty.View.{Seen, seen, line_of, raw_of, raw_count, IsValid}
use drunix_os.Tty.Keys.{Becomes, seen-eq}

-- An answer and the terminal it leaves, as the specification has them.
pub record Answers (out : Outcome × Tty) (spec : Outcome × Seen) : Type 0 where
  pub outcome : out.0 ≡ spec.0
  pub leaves : Becomes out.1 spec.1

length-shifted :
    (buf : List ℕ) (n remaining : ℕ)
    → n + remaining ≤ length buf
    → (length (take remaining (drop n buf)) ≡ remaining)
      × (length (shifted buf n remaining) ≡ length buf)
length-shifted buf n remaining h =
    let d = length-drop n buf in
    let front = length-take remaining (drop n buf) (omega (arith, d)) in
    (
      front,
      omega (
        arith,
        front,
        length-drop remaining buf,
        length-append (take remaining (drop n buf)) (drop remaining buf),
      ),
    )

take-shifted :
    (buf : List ℕ) (n remaining : ℕ)
    → n + remaining ≤ length buf
    → take remaining (shifted buf n remaining) ≡ take remaining (drop n buf)
take-shifted buf n remaining h =
    let (front, whole) = length-shifted buf n remaining h in
    subst (λ (k : ℕ). take k (shifted buf n remaining) ≡ take remaining (drop n buf)) front
      (take-append (take remaining (drop n buf)) (drop remaining buf))

-- A read of a line.
pub read_line-Answers :
    (t : Tty) (count : ℕ)
    → IsValid t
    → ((read_line t count).0 ≡ take count (line_of t))
      × Becomes (read_line t count).1 (record (seen t) {
        line = drop count (line_of t);
        ready = if leb (length (line_of t)) count then false else t.canon_ready;
      })
unfolding read_line line_of
read_line-Answers t count v =
    let n = min t.canon_len count in
    let inside : n + (t.canon_len - n) ≤ length t.canon_buf =
      omega (arith, v.canon_size, v.line_in) in
    let (front, whole) = length-shifted t.canon_buf n (t.canon_len - n) inside in
    let all : length (take t.canon_len t.canon_buf) ≡ t.canon_len =
      length-take t.canon_len t.canon_buf (omega (arith, v.canon_size, v.line_in)) in
    (
      sym (take-take t.canon_len count t.canon_buf),
      record {
        valid = record {
          raw_size = v.raw_size;
          canon_size = whole ∙ v.canon_size;
          head_in = v.head_in;
          tail_in = v.tail_in;
          line_in = omega (arith, v.line_in);
        };
        same =
            seen-eq (read_line t count).1 _
              (take-shifted t.canon_buf n (t.canon_len - n) inside
                ∙ sym (drop-take t.canon_len count t.canon_buf))
              (rw all (elim (Bool-cases (leb t.canon_len count)) [
                | inl done ↦
                    let nothing : (t.canon_len - n == 0) ≡ true = ground arith in
                    simp (done, nothing) refl
                | inr more ↦
                    let left : (t.canon_len - n == 0) ≡ false = ground arith in
                    simp (more, left) refl
              ]))
              (unfold raw_of in refl) refl refl refl;
      },
    )

abbrev past_one : Tty → Tty
past_one t = record t { raw_tail = (t.raw_tail + 1) % raw_bytes }

past_one-IsValid : (t : Tty) → IsValid t → IsValid (past_one t)
past_one-IsValid t v = record {
  raw_size = v.raw_size;
  canon_size = v.canon_size;
  head_in = v.head_in;
  tail_in = omega arith;
  line_in = v.line_in;
}

raw_of-past_one :
    (t : Tty)
    → IsValid t
    → t.raw_head ≢ t.raw_tail
    → raw_of t ≡ get_or t.raw_buf t.raw_tail 0 ∷ raw_of (past_one t)
unfolding raw_of window
raw_of-past_one t v more =
    let head_in = v.head_in in
    let tail_in = v.tail_in in
    let n : raw_count t ≡ suc (raw_count (past_one t)) = omega arith in rw n refl

raw_of_empty : (t : Tty) → IsValid t → t.raw_head ≡ t.raw_tail → raw_of t ≡ []
unfolding raw_of window
raw_of_empty t v e = let head_in = v.head_in in let n : raw_count t ≡ 0 = omega arith in rw n refl

-- A read of the ring.
pub drain-Answers :
    (count : ℕ) (t : Tty)
    → IsValid t
    → ((drain count t).0 ≡ take count (raw_of t))
      × Becomes (drain count t).1 (record (seen t) { raw = drop count (raw_of t) })
unfolding drain
drain-Answers zero t v = (refl, record { valid = v; same = refl })
drain-Answers (suc count) t v = elim (Bool-cases (t.raw_head == t.raw_tail)) [
  | inl empty ↦
      let nothing = raw_of_empty t v (ground arith) in
      simp empty (
        ap (take (suc count)) (sym nothing),
        record {
          valid = v;
          same =
              ap (λ (l : List ℕ). record (seen t) { raw = l })
                (nothing ∙ ap (drop (suc count)) (sym nothing));
        },
      )
  | inr more ↦
      let step = raw_of-past_one t v (λ e. ground arith) in
      let (bytes, rest) = drain-Answers count (past_one t) (past_one-IsValid t v) in
      simp more (
        ap (λ l. get_or t.raw_buf t.raw_tail 0 ∷ l) bytes ∙ ap (take (suc count)) (sym step),
        record {
          valid = rest.valid;
          same =
              rest.same
              ∙ unfold line_of in
                (ap (λ (l : List ℕ). record (seen t) { raw = l })
                  (ap (drop (suc count)) (sym step)));
        },
      )
]
