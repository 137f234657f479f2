-- ===== src/Input/Queue.antt =====
-- An event ring of kernel/drivers/inputdev.c is a queue of bounded length that loses its oldest
-- events: whatever the calls, it answers as a list of the newest events does.
use drunix_os.Input.Newest.{
  drop-cons, take-cons, drop-empty, newest-newest, take-empty, newest-long, newest_snoc, drop,
  newest-short, take, newest,
}
use drunix_os.Ring.{window-set_end, window, length-window}
use drunix_os.Input.Ring.{
  take_events, make_room, emit, blank_event, InputEvent, ring_records, take_event, EventRing, store,
}
use drunix_os.Base.{
  ℕ, zero, suc, ◌+◌, ◌-◌, ◌%◌, ◌^◌, ◌≤◌, ◌<◌, ◌≡◌, refl, sym, ap, ◌∙◌, inl, inr, List, [], ◌∷◌,
  ◌++◌, arith, ltb, ◌==◌, Bool-cases, append_assoc, append-nil, subst, length, length-set,
}

-- The indices stay inside the array, and the head is `count` entries past the tail.
pub record IsValid (r : EventRing) : Type 0 where
  pub storage : ring_records ≤ length r.buf
  pub tail_in : r.tail < ring_records
  pub fits : r.count ≤ ring_records
  pub head_at : r.head ≡ (r.tail + r.count) % ring_records

-- The events put in and neither read nor lost, oldest first.
unfoldable pub contents : EventRing → List InputEvent
contents r = window blank_event ring_records r.buf r.tail r.count

pub length-contents : (r : EventRing) → length (contents r) ≡ r.count
unfolding contents
length-contents r = length-window blank_event ring_records r.buf r.tail r.count

store-IsValid :
    (r : EventRing) (event : InputEvent)
    → IsValid r
    → r.count < ring_records
    → IsValid (store r event)
unfolding store
store-IsValid r event v h = ground (arith, length-set r.buf r.head event)

contents-store :
    (r : EventRing) (event : InputEvent)
    → IsValid r
    → r.count < ring_records
    → contents (store r event) ≡ contents r ++ (event ∷ [])
unfolding store contents
contents-store r event v h =
    let grows : (r.count + 1) % 2 ^ 32 ≡ suc r.count = omega (arith, v.fits) in
    rw grows (
      window-set_end blank_event ring_records r.buf r.tail r.count r.head event v.storage v.tail_in
        h v.head_at)

take_event-IsValid : (r : EventRing) → IsValid r → 0 < r.count → IsValid (take_event r).1
unfolding take_event
take_event-IsValid r v h = ground arith

contents-take_event :
    (r : EventRing) → 0 < r.count → contents r ≡ (take_event r).0 ∷ contents (take_event r).1
unfolding take_event contents window
contents-take_event r h =
    let e : r.count ≡ suc (r.count - 1) = omega arith in
    ap (λ n. window blank_event ring_records r.buf r.tail n) e

make_room-IsValid :
    (r : EventRing)
    → IsValid r
    → IsValid (make_room r)
      × ((make_room r).count < ring_records)
      × (newest 63 (contents r) ≡ contents (make_room r))
unfolding make_room
make_room-IsValid r v = elim (Bool-cases (r.count == ring_records)) [
  | inr room ↦
      let low : r.count < ring_records = ground (arith, v.fits) in
      simp room (v, low, newest-short 63 (contents r) (omega (arith, length-contents r, low)))
  | inl full ↦
      let e : r.count ≡ ring_records = ground arith in
      let first = contents-take_event r (omega (arith, e)) in
      let next = (take_event r).1 in
      let next_count : next.count ≡ 63 = unfold take_event in omega (arith, e) in
      let long : 63 ≤ length (contents next) = omega (arith, length-contents next, next_count) in
      let short : length (contents next) ≤ 63 = omega (arith, length-contents next, next_count) in
      let kept : newest 63 (contents r) ≡ contents next =
        ap (λ l. newest 63 l) first
        ∙ newest-long 63 (take_event r).0 (contents next) long
        ∙ newest-short 63 (contents next) short in
      let moved : next ≡ record r { tail = (r.tail + 1) % ring_records; count = r.count - 1 } =
        unfold take_event in refl in
      simp full (
        subst
          (λ (t : EventRing).
            IsValid t × (t.count < ring_records) × (newest 63 (contents r) ≡ contents t))
          moved (take_event-IsValid r v (omega (arith, e)), omega (arith, next_count), kept))
]

pub emit-IsValid : (r : EventRing) (event : InputEvent) → IsValid r → IsValid (emit r event)
unfolding emit
emit-IsValid r event v =
    let (w, low, kept) = make_room-IsValid r v in store-IsValid (make_room r) event w low

pub contents-emit :
    (r : EventRing) (event : InputEvent)
    → IsValid r
    → contents (emit r event) ≡ newest ring_records (contents r ++ (event ∷ []))
unfolding emit
contents-emit r event v =
    let (w, low, kept) = make_room-IsValid r v in
    contents-store (make_room r) event w low
    ∙ ap (λ l. l ++ (event ∷ [])) (sym kept)
    ∙ sym (newest_snoc 63 (contents r) event)

-- Events put in one after the other.
unfoldable pub emit_each : EventRing → List InputEvent → EventRing
emit_each r [] = r
emit_each r (event ∷ events) = emit_each (emit r event) events

pub emit_each-IsValid :
    (r : EventRing) (events : List InputEvent) → IsValid r → IsValid (emit_each r events)
unfolding emit_each
emit_each-IsValid r [] v = v
emit_each-IsValid r (event ∷ events) v =
    emit_each-IsValid (emit r event) events (emit-IsValid r event v)

-- After any number of events a ring holds the newest 64 of those that it held and those put in.
pub contents-emit_each :
    (r : EventRing) (events : List InputEvent)
    → IsValid r
    → contents (emit_each r events) ≡ newest ring_records (contents r ++ events)
unfolding emit_each
contents-emit_each r [] v = sym (
    ap (λ l. newest ring_records l) (append-nil (contents r))
    ∙ newest-short ring_records (contents r) (omega (arith, length-contents r, v.fits)))
contents-emit_each r (event ∷ events) v =
    contents-emit_each (emit r event) events (emit-IsValid r event v)
    ∙ ap (λ l. newest ring_records (l ++ events)) (contents-emit r event v)
    ∙ newest-newest ring_records (contents r ++ (event ∷ [])) events
    ∙ ap (λ l. newest ring_records l) (append_assoc (contents r) (event ∷ []) events)

-- What copying does: it takes events from the front.
pub record Taken (r : EventRing) (records : ℕ) (out : List InputEvent × EventRing) : Type 0 where
  pub valid : IsValid out.1
  pub given : out.0 ≡ take records (contents r)
  pub left : contents out.1 ≡ drop records (contents r)

pub take_events-Taken :
    (records : ℕ) (r : EventRing) → IsValid r → Taken r records (take_events records r)
unfolding take_events
take_events-Taken zero r v = record {
  valid = v;
  given = unfold take in refl;
  left = unfold drop in refl;
}
take_events-Taken (suc records) r v = elim (Bool-cases (ltb 0 r.count)) [
  | inr none_left ↦
      let empty : length (contents r) ≡ 0 = ground (arith, length-contents r) in
      simp none_left (record {
        valid = v;
        given = sym (take-empty (suc records) (contents r) empty);
        left = sym (drop-empty (suc records) (contents r) empty);
      })
  | inl some_left ↦
      let h : 0 < r.count = ground arith in
      let t = take_events-Taken records (take_event r).1 (take_event-IsValid r v h) in
      let first = contents-take_event r h in
      simp some_left (record {
        valid = t.valid;
        given =
            ap (λ l. (take_event r).0 ∷ l) t.given
            ∙ sym (take-cons records (take_event r).0 (contents (take_event r).1))
            ∙ sym (ap (λ l. take (suc records) l) first);
        left =
            t.left
            ∙ sym (drop-cons records (take_event r).0 (contents (take_event r).1))
            ∙ sym (ap (λ l. drop (suc records) l) first);
      })
]
