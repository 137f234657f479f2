-- ===== src/Bcache/Store.antt =====
-- Writes of blocks through the cache of kernel/blk/bcache.c.
use drunix_os.Base.{
  ℕ, ◌≡◌, refl, ◌∙◌, ◌≢◌, ◌⊎◌, inl, inr, Bool, true, false, some, List, arith, ℕ_discrete, ◌==◌,
  length, get_elem?, set,
}
use drunix_os.Bcache.Disk.{Io, IsDisk, block_sectors}
use drunix_os.Bcache.Cache.{
  Cache, Slot, Status, done, failed, hangs, Victim, found, absent, spinning, acquire_slot, write,
  fill_slot,
}
use drunix_os.Bcache.View.{IsGrid, Coherent, view}
use drunix_os.Bcache.Acquire.{Acquired, acquire_slot-Acquired}
use drunix_os.Bcache.Fill.{filled, filled-Updated}

module _ {S X : Type 0} (io : Io S X) where
  fill_slot_there :
      (c : Cache S X) (i : ℕ) (s : Slot X) (block : List X) (dirty : Bool)
      → get_elem? c.slots i ≡ some s
      → ((fill_slot c i block dirty).slots ≡ set c.slots i (filled s dirty block))
        × ((fill_slot c i block dirty).disk ≡ c.disk)
  unfolding fill_slot
  fill_slot_there c i s block dirty at = rw (fill_slot, at) (refl, refl)

  abbrev pub after_write : List X → Victim × Cache S X → Status × Cache S X
  after_write block (found i, next) = (done, fill_slot next i block true)
  after_write block (absent, next) = (failed, next)
  after_write block (spinning, next) = (hangs, next)

  pub write_real :
      (rounds : ℕ) (c : Cache S X) (dev lba : ℕ) (block : List X)
      → dev ≢ 0
      → write io rounds c dev lba block ≡ after_write block (acquire_slot io rounds c dev lba)
  unfolding write
  write_real rounds c dev lba block real =
      let e : (dev == 0) ≡ false = ground arith in
      rw (write, e)
        (split (acquire_slot io rounds c dev lba).0 (acquire_slot io rounds c dev lba).1)
    where
      split :
          (v : Victim) (next : Cache S X)
          → elim v as (λ _. Status × Cache S X) [
            | found i ↦ (done, fill_slot next i block true)
            | absent ↦ (failed, next)
            | spinning ↦ (hangs, next)
          ]
            ≡ after_write block (v, next)
      split (found i) next = refl
      split absent next = refl
      split spinning next = refl

  pub write_null :
      (rounds : ℕ) (c : Cache S X) (lba : ℕ) (block : List X)
      → write io rounds c 0 lba block ≡ (failed, c)
  unfolding write
  write_null rounds c lba block = refl

module _ {S X : Type 0} (io : Io S X) (stored : S → ℕ → ℕ → X) (laws : IsDisk io stored)
    (grid : ℕ → ℕ → Bool) (lawful : IsGrid grid) where
  -- A write that succeeds changes the block seen at its place to the one written, and one that does not
  -- succeeds changes none.
  pub record WriteOf (c : Cache S X) (dev lba : ℕ) (block : List X) (out : Status × Cache S X)
      : Type 0 where
    pub coherent : Coherent stored grid out.1.slots out.1.disk
    pub own :
        ((out.0 ≡ done) × (view stored out.1.slots out.1.disk dev lba ≡ block))
        ⊎ ((out.0 ≢ done)
            × (view stored out.1.slots out.1.disk dev lba ≡ view stored c.slots c.disk dev lba))
    pub others :
        (dev' lba' : ℕ)
        → grid dev' lba' ≡ true
        → (dev' ≢ dev) ⊎ (lba' ≢ lba)
        → view stored out.1.slots out.1.disk dev' lba' ≡ view stored c.slots c.disk dev' lba'

  after-WriteOf :
      (c next : Cache S X) (dev lba : ℕ) (block : List X) (victim : Victim)
      → grid dev lba ≡ true
      → length block ≡ block_sectors
      → Acquired stored grid c dev lba (victim, next)
      → WriteOf c dev lba block (after_write io block (victim, next))
  after-WriteOf c next dev lba block (found i) g n a =
      let t = a.taken i refl in
      let u =
        filled-Updated stored grid next dev lba i t.slot true block a.coherent t t.here g n
          (λ p. absurd (cc)) in
      let (slots, disk) = fill_slot_there io next i t.slot block true t.here in
      record {
        coherent = rw (slots, disk) (u.coherent);
        own = inl (refl, rw (slots, disk) (u.own));
        others = λ dev' lba' g' away.
            rw (slots, disk) (u.others dev' lba' g' away ∙ a.same dev' lba' g');
      }
  after-WriteOf c next dev lba block absent g n a = record {
    coherent = a.coherent;
    own = inr ((λ e. cc), a.same dev lba g);
    others = λ dev' lba' g' away. a.same dev' lba' g';
  }
  after-WriteOf c next dev lba block spinning g n a = record {
    coherent = a.coherent;
    own = inr ((λ e. cc), a.same dev lba g);
    others = λ dev' lba' g' away. a.same dev' lba' g';
  }

  -- In a coherent cache, a write of a whole block at a place of the grid leaves the cache coherent and the
  -- other places seen as before; its place is seen with the block if it succeeds, and as before if not.
  pub write-WriteOf :
      (rounds : ℕ) (c : Cache S X) (dev lba : ℕ) (block : List X)
      → Coherent stored grid c.slots c.disk
      → grid dev lba ≡ true
      → length block ≡ block_sectors
      → WriteOf c dev lba block (write io rounds c dev lba block)
  write-WriteOf rounds c dev lba block v g n = elim (ℕ_discrete dev 0) [
    | yes null ↦
        rw (null, write_null io rounds c lba block)
          (record { coherent = v; own = inr ((λ e. cc), refl); others = λ dev' lba' g' away. refl })
    | no real ↦ rw (write_real io rounds c dev lba block real) (
        after-WriteOf c (acquire_slot io rounds c dev lba).1 dev lba block
          (acquire_slot io rounds c dev lba).0 g n
          (acquire_slot-Acquired io stored laws grid lawful rounds c dev lba v))
  ]
