-- ===== src/Input/Packet.antt =====
-- What kernel/drivers/inputdev.c puts into its rings: key events, and the reports of mouse packets.
use drunix_os.Input.Ring.{InputEvent, EventRing, emit}
use drunix_os.Base.{ℕ, ◌+◌, ◌-◌, ◌/◌, ◌%◌, ◌^◌, Bool, not, ltb, ◌==◌, if◌then◌else◌}

-- Codes of inputdev.h.
abbrev pub ev_syn : ℕ
ev_syn = 0

abbrev pub ev_key : ℕ
ev_key = 1

abbrev pub ev_rel : ℕ
ev_rel = 2

abbrev pub syn_report : ℕ
syn_report = 0

abbrev pub rel_x : ℕ
rel_x = 0

abbrev pub rel_y : ℕ
rel_y = 1

abbrev pub btn_left : ℕ
btn_left = 0x110

abbrev pub btn_right : ℕ
btn_right = 0x111

abbrev pub btn_middle : ℕ
btn_middle = 0x112

-- `mouse_ring_t`
pub record MouseRing : Type 0 where
  pub events : EventRing
  pub prev_buttons : ℕ

abbrev pub event_at : ℕ → ℕ → ℕ → ℕ → ℕ → InputEvent
event_at sec usec kind code value = record {
  sec = sec;
  usec = usec;
  kind = kind;
  code = code;
  value = value;
}

-- `sec` and `usec` are the readings of the clock that the source takes at the start.
unfoldable pub push_key : EventRing → ℕ → ℕ → ℕ → ℕ → EventRing
push_key r sec usec code value =
    emit (emit r (event_at sec usec ev_key code value)) (event_at sec usec ev_syn syn_report 0)

unfoldable pub push_event : EventRing → ℕ → ℕ → ℕ → ℕ → ℕ → EventRing
push_event r sec usec kind code value = emit r (event_at sec usec kind code value)

unfoldable pub mouse_push_event : MouseRing → ℕ → ℕ → ℕ → ℕ → ℕ → MouseRing
mouse_push_event m sec usec kind code value = record m {
  events = push_event m.events sec usec kind code value;
}

-- `value & mask` as a test, for a mask of one bit
unfoldable pub has_flag : ℕ → ℕ → Bool
has_flag value mask = value / mask % 2 == 1

-- `(cur ^ prev) & mask` as a test, for a mask of one bit
unfoldable pub has_changed : ℕ → ℕ → ℕ → Bool
has_changed cur prev mask = not (cur / mask % 2 == prev / mask % 2)

-- `-v` on 32 bits
unfoldable pub negate : ℕ → ℕ
negate v = (2 ^ 32 - v) % 2 ^ 32

-- `(int32_t)(int8_t)d` on 32 bits
unfoldable pub sign_extend : ℕ → ℕ
sign_extend d = if ltb d 128 then d else d + (2 ^ 32 - 256)

-- The movement along an axis, with the masks of its sign and overflow bits.
unfoldable pub motion : ℕ → ℕ → ℕ → ℕ → ℕ
motion sign overflow flags d =
    if has_flag flags overflow
    then (if has_flag flags sign then negate 127 else 127)
    else sign_extend d

unfoldable pub motion_x : ℕ → ℕ → ℕ
motion_x flags dx = motion 0x10 0x40 flags dx

unfoldable pub motion_y : ℕ → ℕ → ℕ
motion_y flags dy = negate (motion 0x20 0x80 flags dy)

unfoldable pub emit_if : Bool → EventRing → InputEvent → EventRing
emit_if test r event = if test then emit r event else r

unfoldable pub one_of : Bool → ℕ
one_of b = if b then 1 else 0

-- A packet of the mouse: the flags of its first byte and its two movements.
pub record Packet : Type 0 where
  pub sec : ℕ
  pub usec : ℕ
  pub flags : ℕ
  pub dx : ℕ
  pub dy : ℕ

unfoldable pub push_packet : MouseRing → Packet → MouseRing
push_packet m p =
    let cur = p.flags % 8 in
    let x = motion_x p.flags p.dx in
    let y = motion_y p.flags p.dy in
    let r1 = emit_if (not (x == 0)) m.events (event_at p.sec p.usec ev_rel rel_x x) in
    let r2 = emit_if (not (y == 0)) r1 (event_at p.sec p.usec ev_rel rel_y y) in
    let r3 =
      emit_if (has_changed cur m.prev_buttons 1) r2
        (event_at p.sec p.usec ev_key btn_left (one_of (has_flag cur 1))) in
    let r4 =
      emit_if (has_changed cur m.prev_buttons 2) r3
        (event_at p.sec p.usec ev_key btn_right (one_of (has_flag cur 2))) in
    let r5 =
      emit_if (has_changed cur m.prev_buttons 4) r4
        (event_at p.sec p.usec ev_key btn_middle (one_of (has_flag cur 4))) in
    record { events = emit r5 (event_at p.sec p.usec ev_syn syn_report 0); prev_buttons = cur }

-- What `mousedev_init` does to the state; the registration belongs to the character devices.
unfoldable pub mouse_init : MouseRing → MouseRing
mouse_init m = record m { prev_buttons = 0 }
