-- ===== src/Input/Buttons.antt =====
-- What the reader of /dev/mouse can tell of the buttons and the movement from the events that
-- kernel/drivers/inputdev.c reports.
use drunix_os.Input.Packet.{
  push_packet, MouseRing, sign_extend, ev_rel, motion, ev_syn, motion_x, event_at, one_of,
  btn_middle, btn_right, ev_key, has_flag, Packet, btn_left, has_changed,
}
use drunix_os.Input.Ring.{InputEvent}
use drunix_os.Input.Report.{prev_buttons-push_packet, push_packets, reports, when, report}
use drunix_os.Base.{
  ℕ, ◌+◌, ◌-◌, ◌%◌, ◌^◌, ◌<◌, ◌≡◌, refl, sym, ap, ◌∙◌, ◌≢◌, inl, inr, Bool, true, false, not, ◌&&◌,
  List, [], ◌∷◌, ◌++◌, arith, leb, ◌==◌, if◌then◌else◌, Bool-cases,
}

-- The buttons of the mouse, with the codes of inputdev.h and the bits of a packet's first byte.
pub data Button : Type 0 where
  left right middle : Button

abbrev pub code_of : Button → ℕ
code_of left = btn_left
code_of right = btn_right
code_of middle = btn_middle

abbrev pub mask_of : Button → ℕ
mask_of left = 1
mask_of right = 2
mask_of middle = 4

-- Whether a reader takes a button to be held after some events.
unfoldable pub held : Button → Bool → List InputEvent → Bool
held b down [] = down
held b down (event ∷ events) =
    held b
      (if (event.kind == ev_key) && (event.code == code_of b) then not (event.value == 0) else down)
      events

held-append :
    (b : Button) (xs ys : List InputEvent) (down : Bool)
    → held b down (xs ++ ys) ≡ held b (held b down xs) ys
unfolding held
held-append b [] ys down = refl
held-append b (x ∷ xs) ys down = held-append b xs ys _

abbrev same_button : Button → Button → Bool
same_button left left = true
same_button left right = false
same_button left middle = false
same_button right left = false
same_button right right = true
same_button right middle = false
same_button middle left = false
same_button middle right = false
same_button middle middle = true

same_button-code_of : (b c : Button) → (code_of c == code_of b) ≡ same_button b c
same_button-code_of left left = refl
same_button-code_of left right = refl
same_button-code_of left middle = refl
same_button-code_of right left = refl
same_button-code_of right right = refl
same_button-code_of right middle = refl
same_button-code_of middle left = refl
same_button-code_of middle right = refl
same_button-code_of middle middle = refl

held_key :
    (b c : Button) (down test : Bool) (sec usec value : ℕ)
    → held b down (when test (event_at sec usec ev_key (code_of c) value))
      ≡ (if same_button b c && test then not (value == 0) else down)
unfolding held
held_key b c down true sec usec value = elim (Bool-cases (same_button b c)) [
  | inl e ↦ simp (same_button-code_of b c, e) refl
  | inr e ↦ simp (same_button-code_of b c, e) refl
]
held_key b c down false sec usec value = elim (Bool-cases (same_button b c)) [
  | inl e ↦ simp e refl
  | inr e ↦ simp e refl
]

-- A movement changes nothing.
held_move :
    (b : Button) (down test : Bool) (sec usec code value : ℕ)
    → held b down (when test (event_at sec usec ev_rel code value)) ≡ down
unfolding held
held_move b down true sec usec code value = refl
held_move b down false sec usec code value = refl

held_end :
    (b : Button) (down : Bool) (sec usec code value : ℕ)
    → held b down (event_at sec usec ev_syn code value ∷ []) ≡ down
unfolding held
held_end b down sec usec code value = refl

-- The event for the button itself, where its bit differs, says whether it is held now.
own_key :
    (cur prev mask : ℕ)
    → (if has_changed cur prev mask
        then not (one_of (has_flag cur mask) == 0)
        else has_flag prev mask)
      ≡ has_flag cur mask
unfolding has_changed has_flag one_of
own_key cur prev mask = ground arith

held-report :
    (b : Button) (prev : ℕ) (p : Packet)
    → held b (has_flag prev (mask_of b)) (report prev p) ≡ has_flag (p.flags % 8) (mask_of b)
unfolding report
held-report left prev p =
    simp
      (
        held-append,
        held_move,
        held_end,
        held_key left left,
        held_key left right,
        held_key left middle,
      )
      (own_key (p.flags % 8) prev 1)
held-report right prev p =
    simp
      (
        held-append,
        held_move,
        held_end,
        held_key right left,
        held_key right right,
        held_key right middle,
      )
      (own_key (p.flags % 8) prev 2)
held-report middle prev p =
    simp
      (
        held-append,
        held_move,
        held_end,
        held_key middle left,
        held_key middle right,
        held_key middle middle,
      )
      (own_key (p.flags % 8) prev 4)

-- A reader that has all the events of some packets, and knew before them which buttons were held,
-- knows which ones the ring's state says are held after them.
pub held-reports :
    (b : Button) (m : MouseRing) (ps : List Packet)
    → held b (has_flag m.prev_buttons (mask_of b)) (reports m.prev_buttons ps)
      ≡ has_flag (push_packets m ps).prev_buttons (mask_of b)
unfolding reports push_packets held
held-reports b m [] = refl
held-reports b m (p ∷ ps) =
    held-append b (report m.prev_buttons p) (reports (p.flags % 8) ps) _
    ∙ ap (λ down. held b down (reports (p.flags % 8) ps)) (held-report b m.prev_buttons p)
    ∙ ap (λ (n : ℕ). held b (has_flag n (mask_of b)) (reports n ps))
        (sym (prev_buttons-push_packet m p))
    ∙ held-reports b (push_packet m p) ps

-- The 32 bits of the 9-bit movement that a packet carries: `d`, below 0 where the sign bit is set.
abbrev pub wire_value : Bool → ℕ → ℕ
wire_value negative d = if negative then d + (2 ^ 32 - 256) else d

-- Without overflow, the movement along x that a packet reports is the one that it carries exactly if its
-- sign bit repeats the top bit of the low byte.
pub motion_x-wire_value :
    (flags dx : ℕ)
    → has_flag flags 0x40 ≡ false
    → dx < 256
    → ((has_flag flags 0x10 ≡ leb 128 dx) → motion_x flags dx ≡ wire_value (has_flag flags 0x10) dx)
      × (¬ (has_flag flags 0x10 ≡ leb 128 dx)
          → motion_x flags dx ≢ wire_value (has_flag flags 0x10) dx)
unfolding motion_x motion sign_extend
motion_x-wire_value flags dx clear byte = elim (Bool-cases (has_flag flags 0x10)) [
  | inl s ↦ simp (clear, s) ((λ e. ground arith), (λ n e. n (ground arith)))
  | inr s ↦ simp (clear, s) ((λ e. ground arith), (λ n e. n (ground arith)))
]
