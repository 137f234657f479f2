-- ===== src/Bcache/Turned.antt =====
-- Finding a slot in kernel/blk/bcache.c keeps the list of slots whole.
use drunix_os.Base.{
  get_elem?-length, ℕ, zero, suc, ◌<◌, ◌≡◌, refl, ap, ◌∙◌, ◌⊎◌, inl, inr, Bool, true, false, Option,
  none, some, List, arith, Bool-cases, Option-cases, length, get_elem?, set, length-set,
}
use drunix_os.Bcache.Disk.{Io, disk_write_block}
use drunix_os.Bcache.Cache.{
  Cache, Slot, Victim, found, absent, spinning, touch, demote, reorder, find_slot, flushed, hunt,
  tail, prev, claim, acquire_slot, fill_slot, invalidate,
}
use drunix_os.Bcache.Ring.{Ringed, touch-IsRing, demote-IsRing}
use drunix_os.Bcache.View.{find_slot-some}
use drunix_os.Bcache.Hunt.{is_usable, hunt_missing, hunt_usable, hunt-flushed, hunt_stuck}
use drunix_os.Bcache.Acquire.{acquire_hit, acquire_miss, after_hunt}

-- As many slots as before, and a whole list.
pub record Turned {S X : Type 0} (c next : Cache S X) : Type 0 where
  pub ring : Ringed next
  pub size : length next.slots ≡ length c.slots

module _ {S X : Type 0} where
  pub Turned-refl : (c : Cache S X) → Ringed c → Turned c c
  Turned-refl c r = record { ring = r; size = refl }

  pub Turned-trans : (c d e : Cache S X) → Turned c d → Turned d e → Turned c e
  Turned-trans c d e p q = record { ring = q.ring; size = q.size ∙ p.size }

  -- A slot that is there, changed and moved to the front or the end, or left in its place.
  pub set-Turned :
      (c : Cache S X) (i : ℕ) (s t : Slot X) (next : Cache S X)
      → Ringed c
      → get_elem? c.slots i ≡ some s
      → (next.slots ≡ set c.slots i t) ⊎ (next.slots ≡ c.slots)
      → (next.order ≡ c.order) ⊎ ((next.order ≡ touch c.order i) ⊎ (next.order ≡ demote c.order i))
      → Turned c next
  set-Turned c i s t next r at slots order =
      let n : length next.slots ≡ length c.slots = elim slots [
        | inl e ↦ ap (λ (x : List (Slot X)). length x) e ∙ length-set c.slots i t
        | inr e ↦ ap (λ (x : List (Slot X)). length x) e
      ] in
      let below = get_elem?-length c.slots i s at in
      record {
        ring = rw n (elim order [
          | inl e ↦ rw e r
          | inr moved ↦ elim moved [
            | inl e ↦ rw e (touch-IsRing (length c.slots) i c.order r below)
            | inr e ↦ rw e (demote-IsRing (length c.slots) i c.order r below)
          ]
        ]);
        size = n;
      }

  pub fill_slot-Turned :
      (c : Cache S X) (i : ℕ) (block : List X) (dirty : Bool)
      → Ringed c
      → Turned c (fill_slot c i block dirty)
  unfolding fill_slot
  fill_slot-Turned c i block dirty r = elim (Option-cases (get_elem? c.slots i)) [
    | inl e ↦ rw (fill_slot, e) (Turned-refl c r)
    | inr (s, at) ↦
        rw (fill_slot, at)
          (set-Turned c i s (record s { valid = true; dirty = dirty; block = block }) _ r at
            (inl refl) (inl refl))
  ]

  claim-Turned : (c : Cache S X) (i dev lba : ℕ) → Ringed c → Turned c (claim c i dev lba)
  unfolding claim
  claim-Turned c i dev lba r = elim (Option-cases (get_elem? c.slots i)) [
    | inl e ↦ rw (claim, e) (Turned-refl c r)
    | inr (s, at) ↦ rw (claim, at) (set-Turned c i s _ _ r at (inl refl) (inr (inl refl)))
  ]

  pub touched-Turned :
      (c : Cache S X) (dev lba i : ℕ) (next : Cache S X)
      → Ringed c
      → find_slot c.slots dev lba ≡ some i
      → next.slots ≡ c.slots
      → next.order ≡ touch c.order i
      → Turned c next
  touched-Turned c dev lba i next r f slots order =
      let (s, at, own) = find_slot-some c.slots dev lba i f in
      set-Turned c i s s next r at (inr slots) (inr (inl order))

  pub invalidate-Turned : (c : Cache S X) (dev lba : ℕ) → Ringed c → Turned c (invalidate c dev lba)
  unfolding invalidate
  invalidate-Turned c dev lba r = elim (Option-cases (find_slot c.slots dev lba)) [
    | inl f ↦ rw (invalidate, f) (Turned-refl c r)
    | inr (i, f) ↦
        let (s, at, own) = find_slot-some c.slots dev lba i f in
        rw (invalidate, f, at) (set-Turned c i s _ _ r at (inl refl) (inr (inr refl)))
  ]

module _ {S X : Type 0} (io : Io S X) where
  pub flushed-Turned :
      (c : Cache S X) (i : ℕ) (s : Slot X)
      → Ringed c
      → get_elem? c.slots i ≡ some s
      → Turned c (flushed io c i s).1
  unfolding flushed
  flushed-Turned c i s r at = elim (Bool-cases (disk_write_block io c.disk s.dev s.lba s.block).0) [
    | inl ok ↦ simp ok (set-Turned c i s (record s { dirty = false }) _ r at (inl refl) (inl refl))
    | inr bad ↦ simp bad (record { ring = r; size = refl })
  ]

  hunt-Turned :
      (rounds : ℕ) (c : Cache S X) (at : Option ℕ) → Ringed c → Turned c (hunt io rounds c at).1
  hunt-Turned zero c at r = unfold hunt in Turned-refl c r
  hunt-Turned (suc rounds) c none r = unfold hunt in Turned-refl c r
  hunt-Turned (suc rounds) c (some i) r = elim (Option-cases (get_elem? c.slots i)) [
    | inl missing ↦ rw (hunt_missing io rounds c i missing) (Turned-refl c r)
    | inr (s, at) ↦ elim (Bool-cases (is_usable s)) [
      | inl u ↦ rw (hunt_usable io rounds c i s at u) (Turned-refl c r)
      | inr u ↦
          let next = (flushed io c i s).1 in
          let k = flushed-Turned c i s r at in
          elim (Bool-cases (flushed io c i s).0) [
            | inl ok ↦ rw (hunt-flushed io rounds c i s at u ok) k
            | inr bad ↦
                let below : i < length next.slots =
                  omega (arith, get_elem?-length c.slots i s at, k.size) in
                let turn : Turned c (reorder next (touch next.order i)) = record {
                  ring = touch-IsRing (length next.slots) i next.order k.ring below;
                  size = k.size;
                } in
                rw (hunt_stuck io rounds c i s at u bad) (
                  Turned-trans c (reorder next (touch next.order i)) _ turn (
                    hunt-Turned rounds (reorder next (touch next.order i)) (prev c.order i)
                      turn.ring))
          ]
    ]
  ]

  pub acquire_slot-Turned :
      (rounds : ℕ) (c : Cache S X) (dev lba : ℕ)
      → Ringed c
      → Turned c (acquire_slot io rounds c dev lba).1
  acquire_slot-Turned rounds c dev lba r = elim (Option-cases (find_slot c.slots dev lba)) [
    | inr (i, f) ↦
        rw (acquire_hit io rounds c dev lba i f) (touched-Turned c dev lba i _ r f refl refl)
    | inl f ↦ rw (acquire_miss io rounds c dev lba f) (
        close (hunt io rounds c (tail c.order)).0 (hunt io rounds c (tail c.order)).1
          (hunt-Turned rounds c (tail c.order) r))
  ]
    where
      close :
          (v : Victim) (next : Cache S X)
          → Turned c next
          → Turned c (after_hunt io dev lba v next).1
      close (found i) next t = Turned-trans c next _ t (claim-Turned next i dev lba t.ring)
      close absent next t = t
      close spinning next t = t
