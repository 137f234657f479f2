-- ===== src/Bcache/Whole.antt =====
-- The list of slots of kernel/blk/bcache.c after calls in any order.
use drunix_os.Base.{ℕ, refl, List}
use drunix_os.Bcache.Disk.{Io}
use drunix_os.Bcache.Cache.{Cache, init, read, write, write_through, sync, invalidate, reset_stats}
use drunix_os.Bcache.Ring.{Ringed, init-Ringed}
use drunix_os.Bcache.Turned.{Turned, Turned-refl, Turned-trans, invalidate-Turned}
use drunix_os.Bcache.Calls.{read-Turned, write-Turned, write_through-Turned, sync-Turned}

module _ {S X : Type 0} (io : Io S X) (rounds : ℕ) where
  -- Calls in any order, with any arguments, whatever they return.
  pub data Called (c : Cache S X) : Cache S X → Type 0 where
    at_first : Called c c
    called_read : {d : Cache S X} (dev lba : ℕ) → Called c d → Called c (read io rounds d dev lba).1
    called_write :
        {d : Cache S X} (dev lba : ℕ) (block : List X)
        → Called c d
        → Called c (write io rounds d dev lba block).1
    called_through :
        {d : Cache S X} (dev lba : ℕ) (block : List X)
        → Called c d
        → Called c (write_through io d dev lba block).1
    called_sync : {d : Cache S X} (dev : ℕ) → Called c d → Called c (sync io d dev).1
    called_invalidate : {d : Cache S X} (dev lba : ℕ) → Called c d → Called c (invalidate d dev lba)
    called_reset : {d : Cache S X} → Called c d → Called c (reset_stats d)

  then-Turned : (c d e : Cache S X) → Turned c d → (Ringed d → Turned d e) → Turned c e
  then-Turned c d e t step = Turned-trans c d e t (step t.ring)

  reset_stats-Turned : (c : Cache S X) → Ringed c → Turned c (reset_stats c)
  unfolding reset_stats
  reset_stats-Turned c r = record { ring = r; size = refl }

  Called-Turned : {c d : Cache S X} → Called c d → Ringed c → Turned c d
  Called-Turned {c} at_first r = Turned-refl c r
  Called-Turned {c} (called_read {d} dev lba h) r =
      then-Turned c d _ (Called-Turned h r) (read-Turned io rounds d dev lba)
  Called-Turned {c} (called_write {d} dev lba block h) r =
      then-Turned c d _ (Called-Turned h r) (write-Turned io rounds d dev lba block)
  Called-Turned {c} (called_through {d} dev lba block h) r =
      then-Turned c d _ (Called-Turned h r) (write_through-Turned io d dev lba block)
  Called-Turned {c} (called_sync {d} dev h) r =
      then-Turned c d _ (Called-Turned h r) (sync-Turned io d dev)
  Called-Turned {c} (called_invalidate {d} dev lba h) r =
      then-Turned c d _ (Called-Turned h r) (invalidate-Turned d dev lba)
  Called-Turned {c} (called_reset {d} h) r =
      then-Turned c d _ (Called-Turned h r) (reset_stats-Turned d)

  -- After the start of the cache and then any calls of its operations, with any arguments and whatever they
  -- return, the list from the most to the least recently used slot holds every slot once.
  pub history_whole : (c : Cache S X) {d : Cache S X} → Called (init c) d → Ringed d
  history_whole c h = (Called-Turned h (init-Ringed c)).ring
