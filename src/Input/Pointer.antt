-- ===== src/Input/Pointer.antt =====
-- What the reader of /dev/mouse makes of the events that kernel/drivers/inputdev.c puts into its ring: where
-- the pointer goes, and which buttons are held.
use drunix_os.Input.Packet.{ev_rel, has_flag, Packet}
use drunix_os.Input.Ring.{InputEvent}
use drunix_os.Base.{
  ℕ, ◌+◌, ◌-◌, ◌%◌, ◌^◌, Bool, true, not, ◌&&◌, List, [], ◌∷◌, ltb, ◌==◌, if◌then◌else◌,
}

-- Where a reader takes the pointer to be along an axis, on 32 bits, after some events: it adds the values of
-- the movements that have the axis's code.
unfoldable pub travelled : ℕ → ℕ → List InputEvent → ℕ
travelled code at [] = at
travelled code at (event ∷ events) =
    travelled code
      (if (event.kind == ev_rel) && (event.code == code) then (at + event.value) % 2 ^ 32 else at)
      events

-- A step to the one or the other side, on 32 bits.
abbrev pub step : Bool → ℕ → ℕ → ℕ
step back n at = if back then (at + 2 ^ 32 - n) % 2 ^ 32 else (at + n) % 2 ^ 32

-- The movement of a packet along an axis: 127 with an overflow, to the side of the sign; else the byte as a
-- signed one. The side comes first, and then how far.
abbrev pub side : Bool → Bool → ℕ → Bool
side negative overflow d = if overflow then negative else not (ltb d 128)

abbrev pub far : Bool → ℕ → ℕ
far overflow d = if overflow then 127 else if ltb d 128 then d else 256 - d

-- The pointer on the screen, which moves right with the mouse, and up where the mouse moves up: its height
-- is counted downwards.
unfoldable pub across : ℕ → List Packet → ℕ
across at [] = at
across at (p ∷ ps) =
    across
      (step (side (has_flag p.flags 0x10) (has_flag p.flags 0x40) p.dx)
        (far (has_flag p.flags 0x40) p.dx) at)
      ps

unfoldable pub down : ℕ → List Packet → ℕ
down at [] = at
down at (p ∷ ps) =
    down
      (step (not (side (has_flag p.flags 0x20) (has_flag p.flags 0x80) p.dy))
        (far (has_flag p.flags 0x80) p.dy) at)
      ps

-- The buttons that the last packet says are held, one bit each.
unfoldable pub last_buttons : ℕ → List Packet → ℕ
last_buttons prev [] = prev
last_buttons prev (p ∷ ps) = last_buttons (p.flags % 8) ps

-- The movements of the packets are bytes.
unfoldable pub all_bytes : List Packet → Bool
all_bytes [] = true
all_bytes (p ∷ ps) = ltb p.dx 256 && ltb p.dy 256 && all_bytes ps
