-- ===== src/Input/Ring.antt =====
-- The event rings of kernel/drivers/inputdev.c. A read that waits is a pass that ends at once; the
-- caller makes the next pass when it is woken.
use drunix_os.Base.{
  ℕ, zero, suc, ◌+◌, ◌-◌, ◌/◌, ◌%◌, ◌^◌, List, [], ◌∷◌, ltb, ◌==◌, if◌then◌else◌, get_or, set,
}

-- `input_event_t`; `kind` is the field `type`, and `value` is the 32 bits of an `int32_t`.
pub record InputEvent : Type 0 where
  pub sec : ℕ
  pub usec : ℕ
  pub kind : ℕ
  pub code : ℕ
  pub value : ℕ

-- `kbd_ring_t`, and what `mouse_ring_t` shares with it.
pub record EventRing : Type 0 where
  pub buf : List InputEvent
  pub head : ℕ
  pub tail : ℕ
  pub count : ℕ

-- `KBD_RING_RECORDS` and `MOUSE_RING_RECORDS`
abbrev pub ring_records : ℕ
ring_records = 64

-- `sizeof(input_event_t)`
abbrev pub event_size : ℕ
event_size = 16

-- What stands for a read out of range.
abbrev pub blank_event : InputEvent
blank_event = record { sec = 0; usec = 0; kind = 0; code = 0; value = 0 }

-- The first statement of `evt_ring_emit`: a full ring loses its oldest event.
unfoldable pub make_room : EventRing → EventRing
make_room r =
    if r.count == ring_records
    then record r { tail = (r.tail + 1) % ring_records; count = r.count - 1 }
    else r

unfoldable pub store : EventRing → InputEvent → EventRing
store r event = record r {
  buf = set r.buf r.head event;
  head = (r.head + 1) % ring_records;
  count = (r.count + 1) % 2 ^ 32;
}

unfoldable pub emit : EventRing → InputEvent → EventRing
emit r event = store (make_room r) event

-- The body of the copying loop of `evt_ring_read`.
unfoldable pub take_event : EventRing → InputEvent × EventRing
take_event r = (
  get_or r.buf r.tail blank_event,
  record r { tail = (r.tail + 1) % ring_records; count = r.count - 1 },
)

-- The copying loop, by the records that the caller's buffer still holds.
unfoldable pub take_events : ℕ → EventRing → List InputEvent × EventRing
take_events zero r = ([], r)
take_events (suc records) r =
    let (event, next) = take_event r in
    let (events, last) = take_events records next in
    if ltb 0 r.count then (event ∷ events, last) else ([], r)

-- How a read ends: with -1, asleep, or with events.
pub data Reply : Type 0 where
  too_short waits : Reply
  got : List InputEvent → Reply

unfoldable pub evt_read : EventRing → ℕ → Reply × EventRing
evt_read r bytes =
    let (events, last) = take_events (bytes / event_size) r in
    if ltb bytes event_size
    then (too_short, r)
    else if r.count == 0
    then (waits, r)
    else (got events, last)
