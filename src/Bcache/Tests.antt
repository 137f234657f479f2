-- ===== src/Bcache/Tests.antt =====
-- Runs of the model of kernel/blk/bcache.c on small caches.
use drunix_os.Bcache.Whole.{
  history_whole, at_first, called_read, called_write, called_through, called_invalidate,
}
use drunix_os.Bcache.Bare.{start, then_write, then_drop, put, History}
use drunix_os.Bcache.Sync.{Chosen, sync_durable}
use drunix_os.Bcache.Store.{write-WriteOf, WriteOf}
use drunix_os.Bcache.Through.{write_through-Updated}
use drunix_os.Bcache.Order.{occurs, distinct}
use drunix_os.Bcache.Blocks.{stored_block}
use drunix_os.Bcache.Progress.{write_done, access_hangs}
use drunix_os.Bcache.Ring.{init-Ringed, Ringed}
use drunix_os.Bcache.Fill.{Updated}
use drunix_os.Bcache.History.{history_last, init-Shows, History-Shows}
use drunix_os.Base.{
  ℕ, zero, suc, ◌+◌, ◌%◌, ◌^◌, ◌≡◌, refl, inl, inr, Bool, true, false, not, ◌&&◌, none, some, List,
  [], ◌∷◌, arith, ltb, ◌==◌, if◌then◌else◌, Bool-cases, subst, get_elem?, replicate,
}
use drunix_os.Bcache.Access.{read-ReadOf, ReadOf}
use drunix_os.Bcache.Drop.{invalidate-Invalidated, Invalidated}
use drunix_os.Bcache.Turns.{IsStuck}
use drunix_os.Bcache.Disk.{Io, IsDisk, disk_write_block, write_sectors}
use drunix_os.Bcache.Cache.{
  detach, touch, push_each, claim, fill_slot, find_slot, tail, is_for, flushed, hunt, blank_all,
  invalidate, sync_from, find_from, acquire_slot, Cache, Slot, done, hangs, no_stats, read, write,
  write_through, sync, init,
}
use drunix_os.Bcache.View.{IsGrid, Coherent, view}

abbrev Disks : Type 0
Disks = ℕ → ℕ → ℕ

abbrev held : Disks → ℕ → ℕ → ℕ
held disk = disk

-- Disks in memory, of which the device 9 cannot be written.
abbrev memory : Io Disks ℕ
memory = record {
  has_write = λ dev. not (dev == 9);
  read_sector = λ disk dev lba. some (disk dev lba);
  write_sector = λ disk dev lba x. (true, λ d l. if d == dev && l == lba then x else disk d l);
}

memory-IsDisk : IsDisk memory held
memory-IsDisk = record {
  reads = λ disk dev lba x e. some_injective (disk dev lba) x e;
  writes = λ disk dev lba x e. ground arith;
  keeps = λ disk dev lba x d l away. elim away [
    | inl p ↦ let e : (d == dev) ≡ false = ground arith in simp e refl
    | inr p ↦
        let e : (l == lba) ≡ false = ground arith in
        elim (Bool-cases (d == dev)) [ inl q ↦ simp (q, e) refl | inr q ↦ simp q refl ]
  ];
}
  where
    some_injective : (x y : ℕ) → some x ≡ some y → x ≡ y
    some_injective x y e = cc

abbrev aligned : ℕ → ℕ → Bool
aligned dev lba = lba % 8 == 0 && ltb lba (2 ^ 31)

aligned-IsGrid : IsGrid aligned
aligned-IsGrid = record { room = λ dev lba g. ground arith; apart = λ dev a b g h n. ground arith }

abbrev empty_slot : Slot ℕ
empty_slot = record { dev = 0; lba = 0; valid = false; dirty = false; block = [] }

abbrev two_slots : Cache Disks ℕ
two_slots = record {
  slots = empty_slot ∷ empty_slot ∷ [];
  order = [];
  stats = no_stats;
  disk = λ dev lba. dev + lba;
}

abbrev fresh : Cache Disks ℕ
fresh = init two_slots

abbrev nines : List ℕ
nines = replicate 8 9

-- A block that waits in the cache to be written to the disk.
abbrev written : Cache Disks ℕ
written = (write memory 2 fresh 1 8 nines).1

abbrev first_blocks : ℕ → ℕ → List ℕ
first_blocks dev lba = stored_block held two_slots.disk dev lba

fresh-Ringed : Ringed fresh
fresh-Ringed = init-Ringed two_slots

fresh-Coherent : Coherent held aligned fresh.slots fresh.disk
fresh-Coherent = (init-Shows memory held memory-IsDisk aligned aligned-IsGrid 2 two_slots).coherent

first_slot : get_elem? fresh.slots 0 ≡ some empty_slot
unfolding init blank_all
first_slot = refl

write_done_example : (write memory 2 fresh 1 8 nines).0 ≡ done
unfolding init blank_all
write_done_example =
    write_done memory 2 fresh 1 8 nines 0 empty_slot fresh-Ringed (omega arith) (λ e. omega arith)
      first_slot (inl refl)

succeeds : (write memory 2 fresh 1 8 nines).0 ≡ done
unfolding write acquire_slot find_from hunt tail fill_slot claim init blank_all push_each is_for
succeeds = refl

one_write : History memory held aligned 2 fresh first_blocks written (put first_blocks 1 8 nines)
one_write = then_write 1 8 nines start refl refl succeeds

written-Coherent : Coherent held aligned written.slots written.disk
written-Coherent =
    (History-Shows memory held memory-IsDisk aligned aligned-IsGrid 2 one_write
      (init-Shows memory held memory-IsDisk aligned aligned-IsGrid 2 two_slots)).coherent

-- The block is dropped before it is written to the disk, which still holds the first one.
abbrev dropped_blocks : ℕ → ℕ → List ℕ
dropped_blocks = put (put first_blocks 1 8 nines) 1 8 (stored_block held written.disk 1 8)

write_and_drop :
    History memory held aligned 2 fresh first_blocks (invalidate written 1 8) dropped_blocks
write_and_drop = then_drop 1 8 one_write

history_last_example :
    ((read memory 2 (invalidate written 1 8) 1 8).0 ≡ done
      → (read memory 2 (invalidate written 1 8) 1 8).2 ≡ some (dropped_blocks 1 8))
    × ((chosen : ℕ)
        → Chosen chosen 1
        → (sync memory (invalidate written 1 8) chosen).0 ≡ true
        → stored_block held (sync memory (invalidate written 1 8) chosen).1.disk 1 8
          ≡ dropped_blocks 1 8)
history_last_example =
    history_last memory held memory-IsDisk aligned aligned-IsGrid 2 two_slots 1 8 write_and_drop
      refl

history_whole_example :
    Ringed
      (read memory 2
        (invalidate
          (write_through memory (write memory 2 (init two_slots) 1 8 nines).1 9 16 nines).1
          1
          8)
        1
        24).1
history_whole_example = history_whole memory 2 two_slots (
    called_read 1 24
      (called_invalidate 1 8 (called_through 9 16 nines (called_write 1 8 nines at_first))))

read-ReadOf_example :
    ReadOf memory held memory-IsDisk aligned aligned-IsGrid written 1 16
      (read memory 2 written 1 16)
read-ReadOf_example =
    read-ReadOf memory held memory-IsDisk aligned aligned-IsGrid 2 written 1 16 written-Coherent
      refl

write-WriteOf_example :
    WriteOf memory held memory-IsDisk aligned aligned-IsGrid written 1 24 nines
      (write memory 2 written 1 24 nines)
write-WriteOf_example =
    write-WriteOf memory held memory-IsDisk aligned aligned-IsGrid 2 written 1 24 nines
      written-Coherent refl refl

through_succeeds : (write_through memory written 1 8 nines).0 ≡ done
unfolding write_through disk_write_block write_sectors write acquire_slot find_from hunt tail
    fill_slot claim init blank_all push_each is_for
through_succeeds = refl

write_through-Updated_example :
    Updated held aligned written.slots written.disk 1 8 nines
      (write_through memory written 1 8 nines).1.slots
      (write_through memory written 1 8 nines).1.disk
    × (stored_block held (write_through memory written 1 8 nines).1.disk 1 8 ≡ nines)
write_through-Updated_example =
    write_through-Updated memory held memory-IsDisk aligned aligned-IsGrid written 1 8 nines
      written-Coherent refl refl through_succeeds

sync_succeeds : (sync memory written 1).0 ≡ true
unfolding sync sync_from flushed disk_write_block write_sectors write acquire_slot find_from hunt
    tail fill_slot claim init blank_all push_each is_for touch detach
sync_succeeds = refl

sync_durable_example :
    stored_block held (sync memory written 1).1.disk 1 8 ≡ view held written.slots written.disk 1 8
sync_durable_example =
    sync_durable memory held memory-IsDisk aligned aligned-IsGrid written 1 1 8 written-Coherent
      sync_succeeds refl (inr refl)

invalidate-Invalidated_example : Invalidated held aligned written 1 8 (invalidate written 1 8)
invalidate-Invalidated_example = invalidate-Invalidated held aligned written 1 8 written-Coherent

-- Blocks that wait for a device that cannot be written.
abbrev stuck_slot : ℕ → Slot ℕ
stuck_slot lba = record { dev = 9; lba = lba; valid = true; dirty = true; block = nines }

abbrev stuck : Cache Disks ℕ
stuck = record {
  slots = stuck_slot 0 ∷ stuck_slot 8 ∷ [];
  order = 0 ∷ 1 ∷ [];
  stats = no_stats;
  disk = λ dev lba. 0;
}

some_injective : (x y : Slot ℕ) → some x ≡ some y → x ≡ y
some_injective x y e = cc

no_write : (lba : ℕ) (disk : Disks) → (disk_write_block memory disk 9 lba nines).0 ≡ false
unfolding disk_write_block
no_write lba disk = refl

unwritten : (lba : ℕ) (s : Slot ℕ) → some (stuck_slot lba) ≡ some s → IsStuck memory s
unwritten lba s e =
    let same : stuck_slot lba ≡ s = some_injective (stuck_slot lba) s e in
    subst (λ (t : Slot ℕ). IsStuck memory t) same (refl, no_write lba)

all-IsStuck : (j : ℕ) (s : Slot ℕ) → get_elem? stuck.slots j ≡ some s → IsStuck memory s
all-IsStuck zero s e = unwritten 0 s e
all-IsStuck (suc zero) s e = unwritten 8 s e
all-IsStuck (suc (suc j)) s e = absurd (cc)

stuck-Ringed : Ringed stuck
unfolding distinct occurs
stuck-Ringed = record { apart = refl; size = refl; full = λ i. ground arith }

uncached : find_slot stuck.slots 1 8 ≡ none
unfolding find_from is_for
uncached = refl

access_hangs_example :
    ((read memory 64 stuck 1 8).0 ≡ hangs) × ((write memory 64 stuck 1 8 nines).0 ≡ hangs)
access_hangs_example =
    access_hangs memory 64 stuck 1 8 nines stuck-Ringed (omega arith) (λ e. omega arith) uncached
      all-IsStuck
