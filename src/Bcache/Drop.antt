-- ===== src/Bcache/Drop.antt =====
-- `bcache_invalidate` of kernel/blk/bcache.c.
use drunix_os.Base.{
  ℕ, ◌≡◌, refl, ◌≢◌, ◌⊎◌, inl, inr, Bool, none, some, Option-cases, get_elem?, set,
}
use drunix_os.Bcache.Blocks.{stored_block}
use drunix_os.Bcache.Cache.{Cache, Slot, find_slot, dropped, invalidate}
use drunix_os.Bcache.View.{Coherent, view, view_free, find_slot-some, find_slot-none}
use drunix_os.Bcache.Change.{
  set-Coherent, view-set_gone, view-set_other, is_for-key, is_for_invalid,
}
use drunix_os.Bcache.Fill.{is_for-apart}

module _ {S X : Type 0} where
  invalidate_miss :
      (c : Cache S X) (dev lba : ℕ) → find_slot c.slots dev lba ≡ none → invalidate c dev lba ≡ c
  unfolding invalidate
  invalidate_miss c dev lba f = rw (invalidate, f) refl

  invalidate_hit :
      (c : Cache S X) (dev lba i : ℕ) (s : Slot X)
      → find_slot c.slots dev lba ≡ some i
      → get_elem? c.slots i ≡ some s
      → ((invalidate c dev lba).slots ≡ set c.slots i (dropped s))
        × ((invalidate c dev lba).disk ≡ c.disk)
  unfolding invalidate
  invalidate_hit c dev lba i s f at = rw (invalidate, f, at) (refl, refl)

module _ {S X : Type 0} (stored : S → ℕ → ℕ → X) (grid : ℕ → ℕ → Bool) where
  -- The place is seen as the disk holds it, also when a newer block was waiting to be written, and every
  -- other place as before; the disks are as they were.
  pub record Invalidated (c : Cache S X) (dev lba : ℕ) (next : Cache S X) : Type 0 where
    pub coherent : Coherent stored grid next.slots next.disk
    pub disk : next.disk ≡ c.disk
    pub own : view stored next.slots next.disk dev lba ≡ stored_block stored c.disk dev lba
    pub others :
        (dev' lba' : ℕ)
        → (dev' ≢ dev) ⊎ (lba' ≢ lba)
        → view stored next.slots next.disk dev' lba' ≡ view stored c.slots c.disk dev' lba'

  -- In a coherent cache, the place that is invalidated is then seen as the disk holds it, the other places are
  -- seen as before, and the disks and the coherence are kept.
  pub invalidate-Invalidated :
      (c : Cache S X) (dev lba : ℕ)
      → Coherent stored grid c.slots c.disk
      → Invalidated c dev lba (invalidate c dev lba)
  invalidate-Invalidated c dev lba v = elim (Option-cases (find_slot c.slots dev lba)) [
    | inl f ↦ rw (invalidate_miss c dev lba f) (record {
      coherent = v;
      disk = refl;
      own = view_free stored c.slots c.disk dev lba (find_slot-none c.slots dev lba f);
      others = λ dev' lba' away. refl;
    })
    | inr (i, f) ↦
        let (s, at, own) = find_slot-some c.slots dev lba i f in
        let (slots, disk) = invalidate_hit c dev lba i s f at in
        let (valid, d, l) = is_for-key s dev lba own in
        let w = set-Coherent stored grid c.slots c.disk i s (dropped s) v at (λ bad. absurd (cc)) in
        record {
          coherent = rw (slots, disk) w;
          disk = disk;
          own =
              rw (slots, disk)
                (view-set_gone stored grid c.slots c.disk i s (dropped s) dev lba v at own
                  (is_for_invalid (dropped s) dev lba refl));
          others = λ dev' lba' away.
              rw (slots, disk)
                (view-set_other stored grid c.slots c.disk i s (dropped s) dev' lba' v w at
                  (is_for-apart s dev lba dev' lba' d l away)
                  (is_for_invalid (dropped s) dev' lba' refl));
        }
  ]
