-- ===== src/Input/Refine.antt =====
-- The calls on an event ring of kernel/drivers/inputdev.c against a queue of bounded length.
use drunix_os.Input.Newest.{drop, take, newest}
use drunix_os.Input.Queue.{
  contents-emit, length-contents, take_events-Taken, emit-IsValid, contents,
}
use drunix_os.Input.Queue.{IsValid}
use drunix_os.Input.Ring.{
  got, waits, too_short, ring_records, event_size, emit, Reply, InputEvent, evt_read, EventRing,
}
use drunix_os.Base.{
  ℕ, ◌/◌, ◌≡◌, refl, sym, ap, ◌∙◌, inl, inr, List, [], ◌∷◌, ◌++◌, ltb, ◌==◌, if◌then◌else◌,
  Bool-cases, length,
}

-- A call on a ring: `evt_ring_emit`, or `evt_ring_read` with a buffer of so many bytes.
pub data Call : Type 0 where
  puts : InputEvent → Call
  reads : ℕ → Call

-- The replies of calls made one after the other, and the ring after them.
unfoldable pub run : EventRing → List Call → List Reply × EventRing
run r [] = ([], r)
run r (puts event ∷ calls) = run (emit r event) calls
run r (reads bytes ∷ calls) =
    let (reply, next) = evt_read r bytes in
    let (replies, last) = run next calls in (reply ∷ replies, last)

-- What a queue replies to a read.
unfoldable pub queue_read : List InputEvent → ℕ → Reply × List InputEvent
queue_read q bytes =
    if ltb bytes event_size
    then (too_short, q)
    else if length q == 0
    then (waits, q)
    else (got (take (bytes / event_size) q), drop (bytes / event_size) q)

-- The same calls on a queue that keeps the newest 64 events.
unfoldable pub queue_run : List InputEvent → List Call → List Reply × List InputEvent
queue_run q [] = ([], q)
queue_run q (puts event ∷ calls) = queue_run (newest ring_records (q ++ (event ∷ []))) calls
queue_run q (reads bytes ∷ calls) =
    let (reply, next) = queue_read q bytes in
    let (replies, last) = queue_run next calls in (reply ∷ replies, last)

evt_read-queue_read :
    (r : EventRing) (bytes : ℕ)
    → IsValid r
    → IsValid (evt_read r bytes).1
      × (queue_read (contents r) bytes ≡ ((evt_read r bytes).0, contents (evt_read r bytes).1))
unfolding evt_read queue_read
evt_read-queue_read r bytes v =
    let t = take_events-Taken (bytes / event_size) r v in
    let n = length-contents r in
    elim (Bool-cases (ltb bytes event_size)) [
      | inl short ↦ simp short (v, refl)
      | inr long ↦ elim (Bool-cases (r.count == 0)) [
        | inl empty ↦ simp (long, n, empty) (v, refl)
        | inr some_left ↦ simp (long, n, some_left, t.given, t.left) (t.valid, refl)
      ]
    ]

-- From a valid ring, any sequence of emissions and reads gives the replies that the queue of its
-- contents gives, and leaves a valid ring that holds what the queue then holds.
pub run-queue_run :
    (r : EventRing) (calls : List Call)
    → IsValid r
    → IsValid (run r calls).1
      × (queue_run (contents r) calls ≡ ((run r calls).0, contents (run r calls).1))
unfolding run queue_run
run-queue_run r [] v = (v, refl)
run-queue_run r (puts event ∷ calls) v =
    let (w, same) = run-queue_run (emit r event) calls (emit-IsValid r event v) in
    (w, ap (λ q. queue_run q calls) (sym (contents-emit r event v)) ∙ same)
run-queue_run r (reads bytes ∷ calls) v =
    let (v', reply) = evt_read-queue_read r bytes v in
    let (w, same) = run-queue_run (evt_read r bytes).1 calls v' in simp (reply, same) (w, refl)
