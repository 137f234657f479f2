-- ===== src/Bcache/Through.antt =====
-- `bcache_write_through` of kernel/blk/bcache.c.
use drunix_os.Base.{
  set-set, ℕ, ◌≡◌, refl, ◌∙◌, ◌≢◌, ◌⊎◌, inl, inr, Bool, true, false, none, some, List, arith, ◌==◌,
  Option-cases, subst, length, get_elem?, set, get_elem?-set_self,
}
use drunix_os.Bcache.Disk.{Io, IsDisk, block_sectors, disk_write_block}
use drunix_os.Bcache.Blocks.{stored_block, disk_write_block-inside}
use drunix_os.Bcache.Cache.{Cache, Slot, done, is_for, find_slot, write_through, fill_slot}
use drunix_os.Bcache.View.{IsGrid, Coherent, view, view_free, find_slot-some, find_slot-none}
use drunix_os.Bcache.Change.{
  is_for_here, is_for-key, set-Coherent, view-set_other, view-disk, disk-Coherent, set-cases,
}
use drunix_os.Bcache.Flush.{elsewhere}
use drunix_os.Bcache.Acquire.{Taken, hit-Taken}
use drunix_os.Bcache.Fill.{is_for-apart, filled, Updated, filled-Updated}

module _ {S X : Type 0} (io : Io S X) (stored : S → ℕ → ℕ → X) (laws : IsDisk io stored)
    (grid : ℕ → ℕ → Bool) (lawful : IsGrid grid) where
  through_hit :
      (c : Cache S X) (dev lba i : ℕ) (block : List X)
      → dev ≢ 0
      → (disk_write_block io c.disk dev lba block).0 ≡ true
      → find_slot c.slots dev lba ≡ some i
      → (s : Slot X) → get_elem? c.slots i ≡ some s
      → ((write_through io c dev lba block).1.slots ≡ set c.slots i (filled s false block))
        × ((write_through io c dev lba block).1.disk ≡ (disk_write_block io c.disk dev lba block).1)
  unfolding write_through fill_slot
  through_hit c dev lba i block real ok f s at =
      let e : (dev == 0) ≡ false = ground arith in
      rw (write_through, e, ok, f) (rw (fill_slot, at) (refl, refl))

  through_miss :
      (c : Cache S X) (dev lba : ℕ) (block : List X)
      → dev ≢ 0
      → (disk_write_block io c.disk dev lba block).0 ≡ true
      → find_slot c.slots dev lba ≡ none
      → ((write_through io c dev lba block).1.slots ≡ c.slots)
        × ((write_through io c dev lba block).1.disk ≡ (disk_write_block io c.disk dev lba block).1)
  unfolding write_through
  through_miss c dev lba block real ok f =
      let e : (dev == 0) ≡ false = ground arith in rw (write_through, e, ok, f) (refl, refl)

  through_done :
      (c : Cache S X) (dev lba : ℕ) (block : List X)
      → (write_through io c dev lba block).0 ≡ done
      → (dev ≢ 0) × ((disk_write_block io c.disk dev lba block).0 ≡ true)
  unfolding write_through
  through_done c dev lba block h = ((λ z. ground arith), ground arith)

  -- The slots and the disks after the write, where the block was cached.
  through-Updated :
      (c : Cache S X) (dev lba i : ℕ) (s : Slot X) (block : List X) (disk' : S)
      → Coherent stored grid c.slots c.disk
      → grid dev lba ≡ true
      → length block ≡ block_sectors
      → ((dev' lba' : ℕ)
          → grid dev' lba' ≡ true
          → (dev' ≢ dev) ⊎ (lba' ≢ lba)
          → stored_block stored disk' dev' lba' ≡ stored_block stored c.disk dev' lba')
      → stored_block stored disk' dev lba ≡ block
      → find_slot c.slots dev lba ≡ some i
      → get_elem? c.slots i ≡ some s
      → Updated stored grid c.slots c.disk dev lba block
          (set c.slots i (filled s false block))
          disk'
  through-Updated c dev lba i s block disk' v g n rest own f at =
      let t = hit-Taken stored grid c dev lba i v f in
      let same : t.slot ≡ s = cc in
      let d : s.dev ≡ dev = rw same at t.dev_set in
      let l : s.lba ≡ lba = rw same at t.lba_set in
      let (s', at', own') = find_slot-some c.slots dev lba i f in
      let same' : s' ≡ s = cc in
      let hit : is_for s dev lba ≡ true = rw same' at own' in
      let (valid, d', l') = is_for-key s dev lba hit in
      -- Were the slot dirty, the write to the disks would keep the cache coherent.
      let dirty : Slot X = record s { dirty = true } in
      let slots1 = set c.slots i dirty in
      let at1 = get_elem?-set_self c.slots i s dirty at in
      let (g', n') = v.placed i s at valid in
      let hit1 : is_for dirty dev lba ≡ true = is_for_here dirty dev lba valid d l in
      let alone1 : (j : ℕ) (r : Slot X)
          → j ≢ i
          → get_elem? slots1 j ≡ some r
          → is_for r dev lba ≡ false =
        λ j r apart e. elim (set-cases c.slots i j s dirty r at e) [
          | inl (p, q) ↦ absurd (apart p)
          | inr (p, e') ↦ t.alone j r p e'
        ] in
      let w1 : Coherent stored grid slots1 c.disk =
        set-Coherent stored grid c.slots c.disk i s dirty v at (λ ok. record {
          placed = (g', n');
          alone = λ j r apart e. rw (d, l) (t.alone j r apart e);
          clean = λ p. absurd (cc);
        }) in
      let w2 : Coherent stored grid slots1 disk' =
        disk-Coherent stored grid slots1 c.disk disk' dev lba w1 rest (λ j r e h.
          elim (set-cases c.slots i j s dirty r at e) [
            | inl (p, q) ↦ rw q refl
            | inr (p, e') ↦ let miss = t.alone j r p e' in absurd (cc)
          ]) in
      let c1 : Cache S X = record c { slots = slots1; disk = disk' } in
      let t1 : Taken stored grid c1 dev lba i = record {
        slot = dirty;
        here = at1;
        dev_set = d;
        lba_set = l;
        alone = alone1;
        state = inl hit1;
      } in
      let u = filled-Updated stored grid c1 dev lba i dirty false block w2 t1 at1 g n (λ p. own) in
      let twice : set slots1 i (filled s false block) ≡ set c.slots i (filled s false block) =
        set-set c.slots i dirty (filled s false block) in
      record {
        coherent = subst (λ (q : List (Slot X)). Coherent stored grid q disk') twice u.coherent;
        own = subst (λ (q : List (Slot X)). view stored q disk' dev lba ≡ block) twice u.own;
        others = λ dev' lba' g'' away.
            subst
              (λ (q : List (Slot X)).
                view stored q disk' dev' lba' ≡ view stored slots1 disk' dev' lba')
              twice (u.others dev' lba' g'' away)
            ∙ view-disk stored grid slots1 c.disk disk' dev' lba' (rest dev' lba' g'' away)
            ∙ view-set_other stored grid c.slots c.disk i s dirty dev' lba' v w1 at
                (is_for-apart s dev lba dev' lba' d l away)
                (is_for-apart dirty dev lba dev' lba' d l away);
      }

  -- In a coherent cache, a write through of a whole block at a place of the grid that succeeds leaves the cache
  -- coherent; its place is seen with the block, which the disk then holds, and the others as before.
  pub write_through-Updated :
      (c : Cache S X) (dev lba : ℕ) (block : List X)
      → Coherent stored grid c.slots c.disk
      → grid dev lba ≡ true
      → length block ≡ block_sectors
      → (write_through io c dev lba block).0 ≡ done
      → Updated stored grid c.slots c.disk dev lba block
          (write_through io c dev lba block).1.slots
          (write_through io c dev lba block).1.disk
        × (stored_block stored (write_through io c dev lba block).1.disk dev lba ≡ block)
  write_through-Updated c dev lba block v g n h =
      let (real, ok) = through_done c dev lba block h in
      let disk' = (disk_write_block io c.disk dev lba block).1 in
      let rest = elsewhere io stored laws grid lawful c.disk dev lba block g n in
      let own =
        disk_write_block-inside io stored laws c.disk dev lba block n (lawful.room dev lba g) ok in
      elim (Option-cases (find_slot c.slots dev lba)) [
        | inr (i, f) ↦
            let (s, at, hit) = find_slot-some c.slots dev lba i f in
            let (slots, disk) = through_hit c dev lba i block real ok f s at in
            let u = through-Updated c dev lba i s block disk' v g n rest own f at in
            (rw (slots, disk) u, rw disk own)
        | inl f ↦
            let (slots, disk) = through_miss c dev lba block real ok f in
            let free = find_slot-none c.slots dev lba f in
            let w : Coherent stored grid c.slots disk' =
              disk-Coherent stored grid c.slots c.disk disk' dev lba v rest
                (λ j r e h'. let miss = free j r e in absurd (cc)) in
            (
              rw (slots, disk)
                  (record {
                    coherent = w;
                    own = view_free stored c.slots disk' dev lba free ∙ own;
                    others = λ dev' lba' g' away.
                        view-disk stored grid c.slots c.disk disk' dev' lba'
                          (rest dev' lba' g' away);
                  }),
              rw disk own,
            )
      ]
