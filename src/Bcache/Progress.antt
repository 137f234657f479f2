-- ===== src/Bcache/Progress.antt =====
-- When the operations of kernel/blk/bcache.c that need a slot come to an end.
use drunix_os.Base.{
  get_elem?_below, get_elem?-length, ℕ, ◌≤◌, ◌≡◌, refl, ap, ◌∙◌, ◌≢◌, inl, inr, true, Option, none,
  some, List, arith, Option-cases, length, get_elem?,
}
use drunix_os.Bcache.Disk.{Io}
use drunix_os.Bcache.Cache.{
  Cache, Slot, Status, done, hangs, Victim, found, absent, spinning, find_slot, hunt, tail,
  acquire_slot, read, write,
}
use drunix_os.Bcache.Order.{occurs}
use drunix_os.Bcache.Turns.{IsStuck, IsReady, hunt-spins, hunt_finds}
use drunix_os.Bcache.Ring.{Ringed}
use drunix_os.Bcache.Acquire.{acquire_hit, acquire_miss, after_hunt}
use drunix_os.Bcache.Access.{read_miss, after_acquire}
use drunix_os.Bcache.Store.{write_real, after_write}

module _ {S X : Type 0} (io : Io S X) where
  present :
      (c : Cache S X) (j : ℕ)
      → Ringed c
      → occurs j c.order ≡ true
      → (t : Slot X) × (get_elem? c.slots j ≡ some t)
  present c j r there = get_elem?_below c.slots j (let known = r.full j in ground arith)

  -- A slot is found for every block, in as many rounds as there are slots, if one slot is clean or
  -- invalid, or its disk takes its block.
  acquire_slot_finds :
      (rounds : ℕ) (c : Cache S X) (dev lba i : ℕ) (s : Slot X)
      → Ringed c
      → length c.slots ≤ rounds
      → get_elem? c.slots i ≡ some s
      → IsReady io s
      → (k : ℕ) × ((acquire_slot io rounds c dev lba).0 ≡ found k)
  acquire_slot_finds rounds c dev lba i s r enough at ready =
      elim (Option-cases (find_slot c.slots dev lba)) [
        | inr (j, f) ↦
            (j, ap (λ (x : Victim × Cache S X). x.0) (acquire_hit io rounds c dev lba j f))
        | inl f ↦
            let below = get_elem?-length c.slots i s at in
            let (k, e) =
              hunt_finds io rounds c i s (omega (arith, r.size)) r.apart
                (λ j there. present c j r there) (let known = r.full i in ground arith) at ready in
            (
              k,
              ap (λ (x : Victim × Cache S X). x.0) (acquire_miss io rounds c dev lba f)
                  ∙ close (hunt io rounds c (tail c.order)).0 (hunt io rounds c (tail c.order)).1 k
                      e,
            )
      ]
    where
      close :
          (v : Victim) (next : Cache S X) (k : ℕ)
          → v ≡ found k
          → (after_hunt io dev lba v next).0 ≡ found k
      close (found j) next k e = e
      close absent next k e = e
      close spinning next k e = e

  -- A write of a block ends and succeeds if one slot is clean or invalid, or its disk takes its block.
  pub write_done :
      (rounds : ℕ) (c : Cache S X) (dev lba : ℕ) (block : List X) (i : ℕ) (s : Slot X)
      → Ringed c
      → length c.slots ≤ rounds
      → dev ≢ 0
      → get_elem? c.slots i ≡ some s
      → IsReady io s
      → (write io rounds c dev lba block).0 ≡ done
  write_done rounds c dev lba block i s r enough real at ready =
      let (k, e) = acquire_slot_finds rounds c dev lba i s r enough at ready in
      ap (λ (x : Status × Cache S X). x.0) (write_real io rounds c dev lba block real)
      ∙ close (acquire_slot io rounds c dev lba).0 (acquire_slot io rounds c dev lba).1 k e
    where
      close :
          (v : Victim) (next : Cache S X) (k : ℕ)
          → v ≡ found k
          → (after_write io block (v, next)).0 ≡ done
      close (found j) next k e = refl
      close absent next k e = absurd (cc)
      close spinning next k e = absurd (cc)

  -- A read of a block that is not cached, and a write of it, go round the slots for ever if every slot is
  -- dirty and no disk takes its block.
  pub access_hangs :
      (rounds : ℕ) (c : Cache S X) (dev lba : ℕ) (block : List X)
      → Ringed c
      → 2 ≤ length c.slots
      → dev ≢ 0
      → find_slot c.slots dev lba ≡ none
      → ((j : ℕ) (s : Slot X) → get_elem? c.slots j ≡ some s → IsStuck io s)
      → ((read io rounds c dev lba).0 ≡ hangs) × ((write io rounds c dev lba block).0 ≡ hangs)
  access_hangs rounds c dev lba block r two real f stuck =
      let e =
        hunt-spins io rounds c (omega (arith, r.size)) r.apart
          (λ j there. let (s, at) = present c j r there in (s, at, stuck j s at)) in
      let a = acquire_miss io rounds c dev lba f in
      let v = (hunt io rounds c (tail c.order)).0 in
      let next = (hunt io rounds c (tail c.order)).1 in
      let (p, q) = close v next e in
      (
        ap (λ (x : Status × Cache S X × Option (List X)). x.0)
              (read_miss io rounds c dev lba real f)
            ∙ ap (λ (x : Victim × Cache S X). (after_acquire io dev lba x).0) a
            ∙ p,
        ap (λ (x : Status × Cache S X). x.0) (write_real io rounds c dev lba block real)
            ∙ ap (λ (x : Victim × Cache S X). (after_write io block x).0) a
            ∙ q,
      )
    where
      close :
          (v : Victim) (next : Cache S X)
          → v ≡ spinning
          → ((after_acquire io dev lba (after_hunt io dev lba v next)).0 ≡ hangs)
            × ((after_write io block (after_hunt io dev lba v next)).0 ≡ hangs)
      close (found j) next e = absurd (cc)
      close absent next e = absurd (cc)
      close spinning next e = (refl, refl)
