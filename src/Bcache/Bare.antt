-- ===== src/Bcache/Bare.antt =====
-- Disks without a cache, and the calls of kernel/blk/bcache.c in any order against them.
use drunix_os.Base.{
  ℕ, ◌≡◌, refl, ◌≢◌, ◌⊎◌, inl, inr, Bool, true, false, none, some, ◌&&◌, List, arith, ℕ_discrete,
  ◌==◌, if◌then◌else◌, Bool-cases, length, get_elem?,
}
use drunix_os.Bcache.Disk.{Io, block_sectors}
use drunix_os.Bcache.Blocks.{stored_block}
use drunix_os.Bcache.Cache.{
  Cache, Slot, done, is_for, find_slot, read, write, write_through, sync, invalidate, reset_stats,
}

-- Disks without a cache: a block at each place. `put` is a write.
unfoldable pub put : {X : Type 0} → (ℕ → ℕ → List X) → ℕ → ℕ → List X → ℕ → ℕ → List X
put blocks dev lba block dev' lba' = if dev' == dev && lba' == lba then block else blocks dev' lba'

pub put_here :
    {X : Type 0} (b : ℕ → ℕ → List X) (dev lba : ℕ) (block : List X)
    → put b dev lba block dev lba ≡ block
unfolding put
put_here b dev lba block = ground arith

pub put_away :
    {X : Type 0} (b : ℕ → ℕ → List X) (dev lba : ℕ) (block : List X) (dev' lba' : ℕ)
    → (dev' ≢ dev) ⊎ (lba' ≢ lba)
    → put b dev lba block dev' lba' ≡ b dev' lba'
unfolding put
put_away b dev lba block dev' lba' away = elim away [
  | inl p ↦ let e : (dev' == dev) ≡ false = ground arith in simp e refl
  | inr p ↦
      let e : (lba' == lba) ≡ false = ground arith in
      elim (Bool-cases (dev' == dev)) [ inl q ↦ simp (q, e) refl | inr q ↦ simp q refl ]
]

-- The same place, or another.
pub away_cases :
    (dev lba dev' lba' : ℕ) → ((dev' ≡ dev) × (lba' ≡ lba)) ⊎ ((dev' ≢ dev) ⊎ (lba' ≢ lba))
away_cases dev lba dev' lba' = elim (ℕ_discrete dev' dev) [
  | no p ↦ inr (inl p)
  | yes p ↦ elim (ℕ_discrete lba' lba) [ no q ↦ inr (inr q) | yes q ↦ inl (p, q) ]
]

module _ {S X : Type 0} where
  -- The cache holds a newer block for the place.
  abbrev pub IsHeldDirty : Cache S X → ℕ → ℕ → Type 0
  IsHeldDirty c dev lba =
      (i : ℕ) × (s : Slot X) × (get_elem? c.slots i ≡ some s)
      × (is_for s dev lba ≡ true)
      × (s.dirty ≡ true)

module _ {S X : Type 0} (io : Io S X) (stored : S → ℕ → ℕ → X) (grid : ℕ → ℕ → Bool)
    (rounds : ℕ) where
  -- The calls after which the cache is `d` and disks without a cache have the blocks `b`: those last written
  -- to their places, a block that is invalidated being the one that the disk then holds. A write that
  -- does not succeed changes no block. Nor does a write through that fails, where it leaves the
  -- disk's block or the cache holds a newer one; where the place is not cached, the block is what is
  -- then left on the disk. A write through that fails and changes the disk below a cached copy that
  -- is not dirty is no such call.
  pub data History (c : Cache S X) (first : ℕ → ℕ → List X)
      : Cache S X → (ℕ → ℕ → List X) → Type 0 where
    start : History c first c first
    then_read :
        {d : Cache S X} {b : ℕ → ℕ → List X} (dev lba : ℕ)
        → History c first d b
        → grid dev lba ≡ true
        → History c first (read io rounds d dev lba).1 b
    then_write :
        {d : Cache S X} {b : ℕ → ℕ → List X} (dev lba : ℕ) (block : List X)
        → History c first d b
        → grid dev lba ≡ true
        → length block ≡ block_sectors
        → (write io rounds d dev lba block).0 ≡ done
        → History c first (write io rounds d dev lba block).1 (put b dev lba block)
    then_refuse :
        {d : Cache S X} {b : ℕ → ℕ → List X} (dev lba : ℕ) (block : List X)
        → History c first d b
        → grid dev lba ≡ true
        → length block ≡ block_sectors
        → (write io rounds d dev lba block).0 ≢ done
        → History c first (write io rounds d dev lba block).1 b
    then_through :
        {d : Cache S X} {b : ℕ → ℕ → List X} (dev lba : ℕ) (block : List X)
        → History c first d b
        → grid dev lba ≡ true
        → length block ≡ block_sectors
        → (write_through io d dev lba block).0 ≡ done
        → History c first (write_through io d dev lba block).1 (put b dev lba block)
    then_through_fails :
        {d : Cache S X} {b : ℕ → ℕ → List X} (dev lba : ℕ) (block : List X)
        → History c first d b
        → grid dev lba ≡ true
        → length block ≡ block_sectors
        → (write_through io d dev lba block).0 ≢ done
        → IsHeldDirty d dev lba
          ⊎ (stored_block stored (write_through io d dev lba block).1.disk dev lba
              ≡ stored_block stored d.disk dev lba)
        → History c first (write_through io d dev lba block).1 b
    then_through_torn :
        {d : Cache S X} {b : ℕ → ℕ → List X} (dev lba : ℕ) (block : List X)
        → History c first d b
        → grid dev lba ≡ true
        → length block ≡ block_sectors
        → (write_through io d dev lba block).0 ≢ done
        → find_slot d.slots dev lba ≡ none
        → History c first
            (write_through io d dev lba block).1
            (put b dev lba (stored_block stored (write_through io d dev lba block).1.disk dev lba))
    then_sync :
        {d : Cache S X} {b : ℕ → ℕ → List X} (dev : ℕ)
        → History c first d b
        → History c first (sync io d dev).1 b
    then_drop :
        {d : Cache S X} {b : ℕ → ℕ → List X} (dev lba : ℕ)
        → History c first d b
        → History c first
            (invalidate d dev lba)
            (put b dev lba (stored_block stored d.disk dev lba))
    then_reset :
        {d : Cache S X} {b : ℕ → ℕ → List X}
        → History c first d b
        → History c first (reset_stats d) b
