-- ===== src/Bcache/Disk.antt =====
-- The devices below kernel/blk/bcache.c: sectors that are read and written one by one through
-- `blkdev_ops_t`, and the block of eight sectors that the cache moves.
use drunix_os.Base.{
  ℕ, zero, suc, ◌+◌, ◌%◌, ◌^◌, ◌≡◌, ◌≢◌, ◌⊎◌, Bool, true, false, Option, some, List, [], ◌∷◌,
  if◌then◌else◌, ◌>>=◌,
}

-- `BCACHE_SECS_PER_BLK`
abbrev pub block_sectors : ℕ
block_sectors = 8

-- The operations of the devices, as `blkdev_ops_t` gives them, on a state `S` of all disks and
-- sectors of type `X`. A device is told by the pointer to its operations; `has_write` says
-- whether its `write_sector` is there. A write gives `false` for a status other than 0.
pub record Io (S X : Type 0) : Type 0 where
  pub has_write : ℕ → Bool
  pub read_sector : S → ℕ → ℕ → Option X
  pub write_sector : S → ℕ → ℕ → X → Bool × S

module _ {S X : Type 0} (io : Io S X) where
  open io use {has_write, read_sector, write_sector}

  -- The loop of `disk_read_block`, by the sectors that are left; `none` is the status -1.
  unfoldable pub read_sectors : ℕ → S → ℕ → ℕ → Option (List X)
  read_sectors zero disk dev lba = some []
  read_sectors (suc n) disk dev lba = read_sector disk dev (lba % 2 ^ 32) >>= λ x.
      read_sectors n disk dev (lba + 1) >>= λ xs. some (x ∷ xs)

  unfoldable pub disk_read_block : S → ℕ → ℕ → Option (List X)
  disk_read_block disk dev lba = read_sectors block_sectors disk dev lba

  -- The loop of `disk_write_block`.
  unfoldable pub write_sectors : S → ℕ → ℕ → List X → Bool × S
  write_sectors disk dev lba [] = (true, disk)
  write_sectors disk dev lba (x ∷ xs) =
      let (ok, next) = write_sector disk dev (lba % 2 ^ 32) x in
      let rest = write_sectors next dev (lba + 1) xs in if ok then rest else (false, next)

  unfoldable pub disk_write_block : S → ℕ → ℕ → List X → Bool × S
  disk_write_block disk dev lba block =
      if has_write dev then write_sectors disk dev lba block else (false, disk)

-- What the cache relies on in the devices: `stored` tells the sectors of a state; a read that succeeds
-- gives the stored sector; a write that succeeds stores its sector; and a write, also one that
-- fails, changes no other sector.
pub record IsDisk {S X : Type 0} (io : Io S X) (stored : S → ℕ → ℕ → X) : Type 0 where
  pub reads :
      (disk : S) (dev lba : ℕ) (x : X)
      → io.read_sector disk dev lba ≡ some x
      → stored disk dev lba ≡ x
  pub writes :
      (disk : S) (dev lba : ℕ) (x : X)
      → (io.write_sector disk dev lba x).0 ≡ true
      → stored (io.write_sector disk dev lba x).1 dev lba ≡ x
  pub keeps :
      (disk : S) (dev lba : ℕ) (x : X) (dev' lba' : ℕ)
      → (dev' ≢ dev) ⊎ (lba' ≢ lba)
      → stored (io.write_sector disk dev lba x).1 dev' lba' ≡ stored disk dev' lba'
