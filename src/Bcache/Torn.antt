-- ===== src/Bcache/Torn.antt =====
-- `bcache_write_through` of kernel/blk/bcache.c where it fails: the disk may hold part of the block, and the
-- slots are as they were.
use drunix_os.Base.{
  ℕ, ◌≡◌, refl, ◌∙◌, ◌≢◌, ◌⊎◌, inl, inr, Bool, true, false, none, some, List, ◌==◌, Bool-cases,
  length, subst, sym, Option-cases,
}
use drunix_os.Bcache.Disk.{Io, IsDisk, block_sectors, disk_write_block}
use drunix_os.Bcache.Blocks.{stored_block}
use drunix_os.Bcache.Cache.{Cache, Slot, done, find_slot, write_through}
use drunix_os.Bcache.View.{IsGrid, Coherent, view, view_free, find_slot-none}
use drunix_os.Bcache.Change.{view-disk, view-disk_cached, disk-Coherent}
use drunix_os.Bcache.Flush.{elsewhere}
use drunix_os.Bcache.Bare.{away_cases, IsHeldDirty}
use drunix_os.Bcache.Fill.{Updated}

module _ {S X : Type 0} (stored : S → ℕ → ℕ → X) (grid : ℕ → ℕ → Bool) where
  -- What a write through that fails leaves: the slots, and the disks at all other places.
  record Fails (c : Cache S X) (dev lba : ℕ) (next : Cache S X) : Type 0 where
    slots : next.slots ≡ c.slots
    rest :
        (dev' lba' : ℕ)
        → grid dev' lba' ≡ true
        → (dev' ≢ dev) ⊎ (lba' ≢ lba)
        → stored_block stored next.disk dev' lba' ≡ stored_block stored c.disk dev' lba'

module _ {S X : Type 0} (io : Io S X) (stored : S → ℕ → ℕ → X) (laws : IsDisk io stored)
    (grid : ℕ → ℕ → Bool) (lawful : IsGrid grid) where
  through_null :
      (c : Cache S X) (dev lba : ℕ) (block : List X)
      → (dev == 0) ≡ true
      → (write_through io c dev lba block).1 ≡ c
  unfolding write_through
  through_null c dev lba block null = simp null refl

  through_bad :
      (c : Cache S X) (dev lba : ℕ) (block : List X)
      → (dev == 0) ≡ false
      → (disk_write_block io c.disk dev lba block).0 ≡ false
      → (write_through io c dev lba block).1
        ≡ record c { disk = (disk_write_block io c.disk dev lba block).1 }
  unfolding write_through
  through_bad c dev lba block real bad = simp (real, bad) refl

  through_good :
      (c : Cache S X) (dev lba : ℕ) (block : List X)
      → (dev == 0) ≡ false
      → (disk_write_block io c.disk dev lba block).0 ≡ true
      → (write_through io c dev lba block).0 ≡ done
  unfolding write_through
  through_good c dev lba block real ok = elim (Option-cases (find_slot c.slots dev lba)) [
    | inl f ↦ rw (write_through, real, ok, f) refl
    | inr (i, f) ↦ rw (write_through, real, ok, f) refl
  ]

  write_through-Fails :
      (c : Cache S X) (dev lba : ℕ) (block : List X)
      → grid dev lba ≡ true
      → length block ≡ block_sectors
      → (write_through io c dev lba block).0 ≢ done
      → Fails stored grid c dev lba (write_through io c dev lba block).1
  write_through-Fails c dev lba block g n fails = elim (Bool-cases (dev == 0)) [
    | inl null ↦
        rw (through_null c dev lba block null)
          (record { slots = refl; rest = λ dev' lba' g' away. refl })
    | inr real ↦ elim (Bool-cases (disk_write_block io c.disk dev lba block).0) [
      | inl ok ↦ absurd (fails (through_good c dev lba block real ok))
      | inr bad ↦ rw (through_bad c dev lba block real bad) (record {
        slots = refl;
        rest = elsewhere io stored laws grid lawful c.disk dev lba block g n;
      })
    ]
  ]

  -- The disk's block is as it was, or the cache holds a newer one: the cache stays coherent and shows at every
  -- place what it showed.
  pub write_through_fails :
      (c : Cache S X) (dev lba : ℕ) (block : List X)
      → Coherent stored grid c.slots c.disk
      → grid dev lba ≡ true
      → length block ≡ block_sectors
      → (write_through io c dev lba block).0 ≢ done
      → IsHeldDirty c dev lba
        ⊎ (stored_block stored (write_through io c dev lba block).1.disk dev lba
            ≡ stored_block stored c.disk dev lba)
      → Coherent stored grid
          (write_through io c dev lba block).1.slots
          (write_through io c dev lba block).1.disk
        × ((dev' lba' : ℕ)
            → grid dev' lba' ≡ true
            → view stored
                (write_through io c dev lba block).1.slots
                (write_through io c dev lba block).1.disk
                dev'
                lba'
              ≡ view stored c.slots c.disk dev' lba')
  write_through_fails c dev lba block v g n fails kept =
      let f = write_through-Fails c dev lba block g n fails in
      let disk' = (write_through io c dev lba block).1.disk in
      rw f.slots (elim kept [
        | inl (i, s, at, own, bad) ↦ (
          disk-Coherent stored grid c.slots c.disk disk' dev lba v f.rest (λ j t e own'.
              let same : j ≡ i = v.single j i t s dev lba e at own' own in
              let one : s ≡ t = some_injective s t (sym at ∙ (rw same at e)) in
              subst (λ (u : Slot X). u.dirty ≡ true) one bad),
          λ dev' lba' g'. elim (away_cases dev lba dev' lba') [
            | inl (p, q) ↦
                rw (p, q) (view-disk_cached stored grid c.slots c.disk disk' dev lba i s at own)
            | inr away ↦
                view-disk stored grid c.slots c.disk disk' dev' lba' (f.rest dev' lba' g' away)
          ],
        )
        | inr same ↦
            let all : (dev' lba' : ℕ)
                → grid dev' lba' ≡ true
                → stored_block stored disk' dev' lba' ≡ stored_block stored c.disk dev' lba' =
              λ dev' lba' g'. elim (away_cases dev lba dev' lba') [
                | inl (p, q) ↦ rw (p, q) same
                | inr away ↦ f.rest dev' lba' g' away
              ] in
            (
              record {
                placed = v.placed;
                single = v.single;
                clean = λ i s e ok d. all s.dev s.lba (v.placed i s e ok).0 ∙ v.clean i s e ok d;
              },
              λ dev' lba' g'.
                  view-disk stored grid c.slots c.disk disk' dev' lba' (all dev' lba' g'),
            )
      ])
    where
      some_injective : (x y : Slot X) → some x ≡ some y → x ≡ y
      some_injective x y e = cc

  -- The place is not cached: it shows what is left on the disk, and the others what they showed.
  pub write_through_torn :
      (c : Cache S X) (dev lba : ℕ) (block : List X)
      → Coherent stored grid c.slots c.disk
      → grid dev lba ≡ true
      → length block ≡ block_sectors
      → (write_through io c dev lba block).0 ≢ done
      → find_slot c.slots dev lba ≡ none
      → Updated stored grid c.slots c.disk dev lba
          (stored_block stored (write_through io c dev lba block).1.disk dev lba)
          (write_through io c dev lba block).1.slots
          (write_through io c dev lba block).1.disk
  write_through_torn c dev lba block v g n fails uncached =
      let f = write_through-Fails c dev lba block g n fails in
      let disk' = (write_through io c dev lba block).1.disk in
      let free = find_slot-none c.slots dev lba uncached in
      rw f.slots (record {
        coherent =
            disk-Coherent stored grid c.slots c.disk disk' dev lba v f.rest
              (λ j t e own. let miss = free j t e in absurd (cc));
        own = view_free stored c.slots disk' dev lba free;
        others = λ dev' lba' g' away.
            view-disk stored grid c.slots c.disk disk' dev' lba' (f.rest dev' lba' g' away);
      })
