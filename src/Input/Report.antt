-- ===== src/Input/Report.antt =====
-- The reports of mouse packets in kernel/drivers/inputdev.c: what they say, and in which order.
use drunix_os.Input.Newest.{newest}
use drunix_os.Input.Ring.{ring_records, emit, EventRing, InputEvent}
use drunix_os.Input.Packet.{
  syn_report, ev_syn, btn_middle, btn_right, btn_left, has_changed, rel_y, has_flag, motion_y,
  one_of, rel_x, ev_rel, ev_key, event_at, emit_if, motion_x, push_packet, MouseRing, Packet,
}
use drunix_os.Input.Queue.{contents-emit_each, contents, IsValid, emit_each}
use drunix_os.Base.{
  ℕ, ◌%◌, ◌≡◌, refl, sym, ap, ◌∙◌, Bool, true, false, not, List, [], ◌∷◌, ◌++◌, ◌==◌, if◌then◌else◌,
}

abbrev pub when : Bool → InputEvent → List InputEvent
when test event = if test then event ∷ [] else []

-- The event for a button whose mask is `mask`.
abbrev pub button_event : Packet → ℕ → ℕ → InputEvent
button_event p code mask = event_at p.sec p.usec ev_key code (one_of (has_flag (p.flags % 8) mask))

-- What a packet reports, given the buttons held before: movements that are not 0, then the buttons
-- that differ, then the end of the report.
unfoldable pub report : ℕ → Packet → List InputEvent
report prev p =
    when (not (motion_x p.flags p.dx == 0))
      (event_at p.sec p.usec ev_rel rel_x (motion_x p.flags p.dx))
    ++ when (not (motion_y p.flags p.dy == 0))
        (event_at p.sec p.usec ev_rel rel_y (motion_y p.flags p.dy))
    ++ when (has_changed (p.flags % 8) prev 1) (button_event p btn_left 1)
    ++ when (has_changed (p.flags % 8) prev 2) (button_event p btn_right 2)
    ++ when (has_changed (p.flags % 8) prev 4) (button_event p btn_middle 4)
    ++ (event_at p.sec p.usec ev_syn syn_report 0 ∷ [])

emit_each-append :
    (r : EventRing) (xs ys : List InputEvent)
    → emit_each r (xs ++ ys) ≡ emit_each (emit_each r xs) ys
unfolding emit_each
emit_each-append r [] ys = refl
emit_each-append r (x ∷ xs) ys = emit_each-append (emit r x) xs ys

emit_each-when :
    (test : Bool) (r : EventRing) (event : InputEvent)
    → emit_each r (when test event) ≡ emit_if test r event
unfolding emit_each emit_if
emit_each-when true r event = refl
emit_each-when false r event = refl

push_packet-report :
    (m : MouseRing) (p : Packet)
    → (push_packet m p).events ≡ emit_each m.events (report m.prev_buttons p)
unfolding push_packet report
push_packet-report m p = sym (simp (emit_each-append, emit_each-when) (unfold emit_each in refl))

-- Packets handed in one after the other.
unfoldable pub push_packets : MouseRing → List Packet → MouseRing
push_packets m [] = m
push_packets m (p ∷ ps) = push_packets (push_packet m p) ps

-- The reports of packets one after the other, from the buttons held before the first.
unfoldable pub reports : ℕ → List Packet → List InputEvent
reports prev [] = []
reports prev (p ∷ ps) = report prev p ++ reports (p.flags % 8) ps

pub prev_buttons-push_packet :
    (m : MouseRing) (p : Packet) → (push_packet m p).prev_buttons ≡ p.flags % 8
unfolding push_packet
prev_buttons-push_packet m p = refl

push_packets-reports :
    (m : MouseRing) (ps : List Packet)
    → (push_packets m ps).events ≡ emit_each m.events (reports m.prev_buttons ps)
unfolding push_packets reports
push_packets-reports m [] = unfold emit_each in refl
push_packets-reports m (p ∷ ps) =
    push_packets-reports (push_packet m p) ps
    ∙ ap (λ (r : EventRing). emit_each r (reports (push_packet m p).prev_buttons ps))
        (push_packet-report m p)
    ∙ ap (λ (b : ℕ). emit_each (emit_each m.events (report m.prev_buttons p)) (reports b ps))
        (prev_buttons-push_packet m p)
    ∙ sym (emit_each-append m.events (report m.prev_buttons p) (reports (p.flags % 8) ps))

-- After any packets the ring of the mouse holds the newest 64 of the events that it held and those
-- that the packets report.
pub contents-push_packets :
    (m : MouseRing) (ps : List Packet)
    → IsValid m.events
    → contents (push_packets m ps).events
      ≡ newest ring_records (contents m.events ++ reports m.prev_buttons ps)
contents-push_packets m ps v =
    ap (λ (r : EventRing). contents r) (push_packets-reports m ps)
    ∙ contents-emit_each m.events (reports m.prev_buttons ps) v
