-- ===== src/Input/Tests.antt =====
-- Runs of the model of kernel/drivers/inputdev.c on small inputs.
use drunix_os.Input.Pointer.{across, down}
use drunix_os.Input.Refine.{run-queue_run, puts, queue_run, reads, run, Call}
use drunix_os.Input.Queue.{IsValid, contents}
use drunix_os.Input.Ring.{InputEvent, blank_event, EventRing}
use drunix_os.Input.Packet.{motion_x, has_flag, MouseRing, Packet}
use drunix_os.Input.Buttons.{motion_x-wire_value, wire_value}
use drunix_os.Base.{◌≡◌, refl, ◌≢◌, List, [], ◌∷◌, arith, leb, replicate, length-replicate}

abbrev idle_ring : EventRing
idle_ring = record { buf = replicate 64 blank_event; head = 62; tail = 62; count = 0 }

idle_ring-IsValid : IsValid idle_ring
idle_ring-IsValid = record {
  storage = omega (arith, length-replicate {A = InputEvent} 64 blank_event);
  tail_in = omega arith;
  fits = omega arith;
  head_at = refl;
}

abbrev idle_mouse : MouseRing
idle_mouse = record { events = idle_ring; prev_buttons = 1 }

-- The left button goes up, the right one goes down, and the mouse moves.
abbrev a_packet : Packet
a_packet = record { sec = 5; usec = 6; flags = 0x0a; dx = 3; dy = 0 }

-- A movement of 200 to the right.
abbrev fast_packet : Packet
fast_packet = record { sec = 5; usec = 7; flags = 0x0a; dx = 200; dy = 4 }

abbrev some_calls : List Call
some_calls = reads 8 ∷ reads 64 ∷ puts blank_event ∷ reads 64 ∷ []

run-queue_run_example :
    IsValid (run idle_ring some_calls).1
    × (queue_run (contents idle_ring) some_calls
        ≡ ((run idle_ring some_calls).0, contents (run idle_ring some_calls).1))
run-queue_run_example = run-queue_run idle_ring some_calls idle_ring-IsValid

-- 3 to the right, and then 56 to the left for the byte 200; 4 up.
pointer_at : across 100 (a_packet ∷ fast_packet ∷ []) ≡ 47
unfolding across has_flag
pointer_at = refl

pointer_height : down 50 (a_packet ∷ fast_packet ∷ []) ≡ 46
unfolding down has_flag
pointer_height = refl

motion_x-wire_value_example :
    ((has_flag 0x0a 0x10 ≡ leb 128 200) → motion_x 0x0a 200 ≡ wire_value (has_flag 0x0a 0x10) 200)
    × (¬ (has_flag 0x0a 0x10 ≡ leb 128 200)
        → motion_x 0x0a 200 ≢ wire_value (has_flag 0x0a 0x10) 200)
unfolding has_flag
motion_x-wire_value_example = motion_x-wire_value 0x0a 200 refl (omega arith)
