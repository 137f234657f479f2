-- ===== src/Tty/Keys.antt =====
-- Keys at a terminal of kernel/drivers/tty.c do what the specification says.
use drunix_os.Base.{
  take-set_end, length-take, take, ℕ, zero, suc, ◌+◌, ◌-◌, ◌%◌, ◌≤◌, ◌≡◌, refl, sym, ap, ◌∙◌, ◌≢◌,
  inl, inr, true, false, ◌||◌, List, [], ◌∷◌, ◌++◌, arith, ltb, ◌==◌, if◌then◌else◌, Bool-cases,
  length, set, length-set,
}
use drunix_os.Ring.{window-set_end, length-window}
use drunix_os.Tty.Line.{
  Tty, raw_bytes, icanon, vintr, vsusp, has, is_erase, is_stop, mapped, stopped_by, ctrl_c, ctrl_z,
  erase, store, add_key, push_raw, take_key, input_char, input_each,
}
use drunix_os.Tty.View.{
  Seen, seen, line_of, raw_of, raw_count, IsValid, offered, drop_last, keyed, typed,
}

-- The terminal keeps its invariant and is seen as the specification says.
pub record Becomes (next : Tty) (a : Seen) : Type 0 where
  pub valid : IsValid next
  pub same : seen next ≡ a

drop_last-take : (n : ℕ) (xs : List ℕ) → n ≤ length xs → drop_last (take n xs) ≡ take (n - 1) xs
unfolding drop_last
drop_last-take zero xs h = refl
drop_last-take (suc n) [] h = absurd (omega arith)
drop_last-take (suc zero) (x ∷ xs) h = refl
drop_last-take (suc (suc n)) (x ∷ []) h = absurd (omega arith)
drop_last-take (suc (suc n)) (x ∷ y ∷ xs) h =
    let one : suc (suc n) - 1 ≡ suc n = omega arith in
    let less : suc n - 1 ≡ n = omega arith in
    let rest = drop_last-take (suc n) (y ∷ xs) (omega arith) in
    rw one (ap (λ l. x ∷ l) (rw less at rest))

pub length-line_of : (t : Tty) → IsValid t → length (line_of t) ≡ t.canon_len
unfolding line_of
length-line_of t v = length-take t.canon_len t.canon_buf (omega (arith, v.canon_size, v.line_in))

pub length-raw_of : (t : Tty) → length (raw_of t) ≡ raw_count t
unfolding raw_of
length-raw_of t = length-window 0 raw_bytes t.raw_buf t.raw_tail (raw_count t)

erase-Becomes :
    (t : Tty) → IsValid t → Becomes (erase t).0 (record (seen t) { line = drop_last (line_of t) })
unfolding erase line_of raw_of
erase-Becomes t v =
    let cut = drop_last-take t.canon_len t.canon_buf (omega (arith, v.canon_size, v.line_in)) in
    elim (Bool-cases (ltb 0 t.canon_len)) [
      | inl some_left ↦ simp some_left (record {
        valid = record {
          raw_size = v.raw_size;
          canon_size = v.canon_size;
          head_in = v.head_in;
          tail_in = v.tail_in;
          line_in = omega (arith, v.line_in);
        };
        same = ap (λ (l : List ℕ). record (seen t) { line = l }) (sym cut);
      })
      | inr empty ↦
          let zero_len : t.canon_len - 1 ≡ t.canon_len = ground arith in
          simp empty (record {
            valid = v;
            same =
                ap (λ (l : List ℕ). record (seen t) { line = l })
                  (ap (λ (n : ℕ). take n t.canon_buf) (sym zero_len) ∙ sym cut);
          })
    ]

line_of-store : (t : Tty) (c : ℕ) → IsValid t → line_of (store t c) ≡ offered (line_of t) c
unfolding store line_of offered
line_of-store t c v =
    let n = length-take t.canon_len t.canon_buf (omega (arith, v.canon_size, v.line_in)) in
    rw n (elim (Bool-cases (ltb t.canon_len 255)) [
      | inl room ↦
          simp room
            (take-set_end t.canon_len t.canon_buf c (omega (arith, v.canon_size, v.line_in)))
      | inr full ↦ simp full refl
    ])

-- The store of a key in a line leaves all but the line.
record Stored (t next : Tty) : Type 0 where
  valid : IsValid next
  ready : next.canon_ready ≡ t.canon_ready
  raw : raw_of next ≡ raw_of t
  interrupted : next.interrupted ≡ t.interrupted
  termios : next.termios ≡ t.termios
  fg_pgid : next.fg_pgid ≡ t.fg_pgid

store-Stored : (t : Tty) (c : ℕ) → IsValid t → Stored t (store t c)
unfolding store raw_of
store-Stored t c v = elim (Bool-cases (ltb t.canon_len 255)) [
  | inr full ↦ simp full (record {
    valid = v;
    ready = refl;
    raw = refl;
    interrupted = refl;
    termios = refl;
    fg_pgid = refl;
  })
  | inl room ↦ simp room (record {
    valid = record {
      raw_size = v.raw_size;
      canon_size = length-set t.canon_buf t.canon_len c ∙ v.canon_size;
      head_in = v.head_in;
      tail_in = v.tail_in;
      line_in = ground arith;
    };
    ready = refl;
    raw = refl;
    interrupted = refl;
    termios = refl;
    fg_pgid = refl;
  })
]

-- A terminal is seen as `a` if it is so field by field.
pub seen-eq :
    (t : Tty) (a : Seen)
    → line_of t ≡ a.line
    → t.canon_ready ≡ a.ready
    → raw_of t ≡ a.raw
    → t.interrupted ≡ a.interrupted
    → t.termios ≡ a.termios
    → t.fg_pgid ≡ a.fg_pgid
    → seen t ≡ a
seen-eq t a l r w i m f = cc

add_key-Becomes :
    (t : Tty) (c : ℕ)
    → IsValid t
    → Becomes
        (add_key t c).0
        (record (seen t) { line = offered (line_of t) c; ready = c == 10 || t.canon_ready })
unfolding add_key
add_key-Becomes t c v =
    let s = store-Stored t c v in
    let l = line_of-store t c v in
    elim (Bool-cases (c == 10)) [
      | inl ends ↦ simp ends (record {
        valid = record {
          raw_size = s.valid.raw_size;
          canon_size = s.valid.canon_size;
          head_in = s.valid.head_in;
          tail_in = s.valid.tail_in;
          line_in = s.valid.line_in;
        };
        same =
            seen-eq (record (store t c) { canon_ready = true }) _ (unfold line_of in l) refl
              (unfold raw_of in s.raw) s.interrupted s.termios s.fg_pgid;
      })
      | inr more ↦ simp more (record {
        valid = s.valid;
        same = seen-eq (store t c) _ l s.ready s.raw s.interrupted s.termios s.fg_pgid;
      })
    ]

raw_pushed :
    (t : Tty) (c : ℕ)
    → IsValid t
    → (t.raw_head + 1) % raw_bytes ≢ t.raw_tail
    → raw_of
        (record t { raw_buf = set t.raw_buf t.raw_head c; raw_head = (t.raw_head + 1) % raw_bytes })
      ≡ raw_of t ++ (c ∷ [])
unfolding raw_of
raw_pushed t c v at =
    let tail_in = v.tail_in in
    let head_in = v.head_in in
    let grows : ((t.raw_head + 1) % raw_bytes + raw_bytes - t.raw_tail) % raw_bytes
        ≡ suc (raw_count t) =
      omega arith in
    rw grows (
      window-set_end 0 raw_bytes t.raw_buf t.raw_tail (raw_count t) t.raw_head c
        (omega (arith, v.raw_size)) tail_in (omega arith) (omega arith))

push_raw-Becomes :
    (t : Tty) (c : ℕ)
    → IsValid t
    → Becomes (push_raw t c).0 (record (seen t) { raw = offered (raw_of t) c })
unfolding push_raw offered
push_raw-Becomes t c v =
    let n = length-raw_of t in
    let next = (t.raw_head + 1) % raw_bytes in
    let tail_in = v.tail_in in
    let head_in = v.head_in in
    elim (Bool-cases (next == t.raw_tail)) [
      | inl full ↦
          let at : next ≡ t.raw_tail = ground arith in
          let many : ltb (raw_count t) 255 ≡ false = ground arith in
          simp (full, n, many) (record { valid = v; same = refl })
      | inr room ↦
          let at : next ≢ t.raw_tail = λ e. ground arith in
          let few : ltb (raw_count t) 255 ≡ true = ground arith in
          simp (room, n, few)
            (record {
              valid = record {
                raw_size = length-set t.raw_buf t.raw_head c ∙ v.raw_size;
                canon_size = v.canon_size;
                head_in = omega arith;
                tail_in = v.tail_in;
                line_in = v.line_in;
              };
              same =
                  seen-eq (record t { raw_buf = set t.raw_buf t.raw_head c; raw_head = next }) _
                    (unfold line_of in refl) refl (raw_pushed t c v at) refl refl refl;
            })
    ]

stopped_by-Becomes :
    (t : Tty) (letter signum : ℕ)
    → IsValid t
    → Becomes
        (stopped_by t letter signum).0
        (if t.fg_pgid == 0 then seen t else record (seen t) { interrupted = true })
unfolding stopped_by
stopped_by-Becomes t letter signum v = elim (Bool-cases (t.fg_pgid == 0)) [
  | inl none_there ↦ simp none_there (record { valid = v; same = refl })
  | inr there ↦ simp there (record {
    valid = record {
      raw_size = v.raw_size;
      canon_size = v.canon_size;
      head_in = v.head_in;
      tail_in = v.tail_in;
      line_in = v.line_in;
    };
    same =
        seen-eq (record t { interrupted = true }) _ (unfold line_of in refl) refl
          (unfold raw_of in refl) refl refl refl;
  })
]

take_key-Becomes : (t : Tty) (c : ℕ) → IsValid t → Becomes (take_key t c).0 (keyed (seen t) c)
unfolding take_key keyed ctrl_c ctrl_z
take_key-Becomes t c v = elim (Bool-cases (is_stop t.termios vintr c)) [
  | inl intr ↦ simp intr (stopped_by-Becomes t 67 2 v)
  | inr no_intr ↦ elim (Bool-cases (is_stop t.termios vsusp c)) [
    | inl susp ↦ simp (no_intr, susp) (stopped_by-Becomes t 90 20 v)
    | inr no_susp ↦ elim (Bool-cases (has t.termios.c_lflag icanon)) [
      | inr raw ↦ simp (no_intr, no_susp, raw) (push_raw-Becomes t c v)
      | inl canon ↦ elim (Bool-cases (is_erase t.termios c)) [
        | inl erases ↦ simp (no_intr, no_susp, canon, erases) (erase-Becomes t v)
        | inr adds ↦ simp (no_intr, no_susp, canon, adds) (add_key-Becomes t c v)
      ]
    ]
  ]
]

-- Any key at a valid terminal leaves it valid, and does to what is seen of it what the specification says.
pub input_char-Becomes :
    (t : Tty) (c : ℕ) → IsValid t → Becomes (input_char t c).0 (keyed (seen t) (mapped t.termios c))
unfolding input_char
input_char-Becomes t c v = take_key-Becomes t (mapped t.termios c) v

-- So do any keys one after the other.
pub input_each-Becomes :
    (t : Tty) (keys : List ℕ) → IsValid t → Becomes (input_each t keys).0 (typed (seen t) keys)
unfolding input_each typed
input_each-Becomes t [] v = record { valid = v; same = refl }
input_each-Becomes t (c ∷ keys) v =
    let b = input_char-Becomes t c v in
    let r = input_each-Becomes (input_char t c).0 keys b.valid in
    record { valid = r.valid; same = r.same ∙ ap (λ a. typed a keys) b.same }
