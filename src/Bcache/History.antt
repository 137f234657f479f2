-- ===== src/Bcache/History.antt =====
-- Calls of kernel/blk/bcache.c in any order, against disks of blocks without a cache.
use drunix_os.Bcache.Change.{is_for_invalid}
use drunix_os.Base.{
  ℕ, zero, suc, ◌≡◌, sym, ap, ◌∙◌, ◌≢◌, ◌⊎◌, inl, inr, Bool, true, false, some, List, [], ◌∷◌,
  get_elem?,
}
use drunix_os.Bcache.Disk.{Io, IsDisk}
use drunix_os.Bcache.Blocks.{stored_block}
use drunix_os.Bcache.Cache.{
  blank, blank_all, init, Cache, Slot, done, read, write, sync, invalidate, reset_stats,
}
use drunix_os.Bcache.View.{view_free, IsGrid, Coherent, view}
use drunix_os.Bcache.Access.{read-ReadOf}
use drunix_os.Bcache.Store.{write-WriteOf}
use drunix_os.Bcache.Through.{write_through-Updated}
use drunix_os.Bcache.Sync.{Chosen, sync-Keeps, sync_durable}
use drunix_os.Bcache.Drop.{invalidate-Invalidated}
use drunix_os.Bcache.Torn.{write_through_fails, write_through_torn}
use drunix_os.Bcache.Bare.{
  put, put_here, put_away, away_cases, History, start, then_read, then_write, then_refuse,
  then_through, then_through_fails, then_through_torn, then_sync, then_drop, then_reset,
}

blank_all-invalid :
    {X : Type 0} (slots : List (Slot X)) (i : ℕ) (s : Slot X)
    → get_elem? (blank_all slots) i ≡ some s
    → s.valid ≡ false
unfolding blank_all
blank_all-invalid [] i s e = absurd (cc)
blank_all-invalid (t ∷ slots) zero s e =
    let same : blank t ≡ s = cc in ap (λ (u : Slot _). u.valid) (sym same)
blank_all-invalid (t ∷ slots) (suc i) s e = blank_all-invalid slots i s e

module _ {S X : Type 0} (io : Io S X) (stored : S → ℕ → ℕ → X) (grid : ℕ → ℕ → Bool)
    (rounds : ℕ) where
  -- The cache shows the blocks.
  pub record Shows (c : Cache S X) (b : ℕ → ℕ → List X) : Type 0 where
    pub coherent : Coherent stored grid c.slots c.disk
    pub seen : (dev lba : ℕ) → grid dev lba ≡ true → view stored c.slots c.disk dev lba ≡ b dev lba

module _ {S X : Type 0} (io : Io S X) (stored : S → ℕ → ℕ → X) (laws : IsDisk io stored)
    (grid : ℕ → ℕ → Bool) (lawful : IsGrid grid) (rounds : ℕ) where
  -- The place is seen with the block, and the others as before.
  Shows-put :
      (d next : Cache S X) (b : ℕ → ℕ → List X) (dev lba : ℕ) (block : List X)
      → Shows io stored grid rounds d b
      → Coherent stored grid next.slots next.disk
      → view stored next.slots next.disk dev lba ≡ block
      → ((dev' lba' : ℕ)
          → grid dev' lba' ≡ true
          → (dev' ≢ dev) ⊎ (lba' ≢ lba)
          → view stored next.slots next.disk dev' lba' ≡ view stored d.slots d.disk dev' lba')
      → Shows io stored grid rounds next (put b dev lba block)
  Shows-put d next b dev lba block v w own others = record {
    coherent = w;
    seen = λ dev' lba' g. elim (away_cases dev lba dev' lba') [
      | inl (p, q) ↦ rw (p, q) (own ∙ sym (put_here b dev lba block))
      | inr away ↦
          others dev' lba' g away
          ∙ v.seen dev' lba' g
          ∙ sym (put_away b dev lba block dev' lba' away)
    ];
  }

  reset-Shows :
      (d : Cache S X) (b : ℕ → ℕ → List X)
      → Shows io stored grid rounds d b
      → Shows io stored grid rounds (reset_stats d) b
  unfolding reset_stats
  reset-Shows d b w = record { coherent = w.coherent; seen = w.seen }

  -- After calls in any order, the cache shows the blocks that disks without a cache would have.
  pub History-Shows :
      {c : Cache S X} {first : ℕ → ℕ → List X} {d : Cache S X} {b : ℕ → ℕ → List X}
      → History io stored grid rounds c first d b
      → Shows io stored grid rounds c first
      → Shows io stored grid rounds d b
  History-Shows start v = v
  History-Shows (then_read {d} {b} dev lba h g) v =
      let w = History-Shows h v in
      let r = read-ReadOf io stored laws grid lawful rounds d dev lba w.coherent g in
      record {
        coherent = r.coherent;
        seen = λ dev' lba' g'. r.same dev' lba' g' ∙ w.seen dev' lba' g';
      }
  History-Shows (then_write {d} {b} dev lba block h g n ok) v =
      let w = History-Shows h v in
      let r = write-WriteOf io stored laws grid lawful rounds d dev lba block w.coherent g n in
      Shows-put d _ b dev lba block w r.coherent
        (elim r.own [ inl (o, own) ↦ own | inr (bad, same) ↦ absurd (bad ok) ]) r.others
  History-Shows (then_refuse {d} {b} dev lba block h g n bad) v =
      let w = History-Shows h v in
      let r = write-WriteOf io stored laws grid lawful rounds d dev lba block w.coherent g n in
      let here : view stored (write io rounds d dev lba block).1.slots
            (write io rounds d dev lba block).1.disk dev lba
          ≡ view stored d.slots d.disk dev lba =
        elim r.own [ inl (ok, own) ↦ absurd (bad ok) | inr (o, same) ↦ same ] in
      record {
        coherent = r.coherent;
        seen = λ dev' lba' g'. elim (away_cases dev lba dev' lba') [
          | inl (p, q) ↦ rw (p, q) (here ∙ w.seen dev lba g)
          | inr away ↦ r.others dev' lba' g' away ∙ w.seen dev' lba' g'
        ];
      }
  History-Shows (then_through {d} {b} dev lba block h g n ok) v =
      let w = History-Shows h v in
      let (r, own) =
        write_through-Updated io stored laws grid lawful d dev lba block w.coherent g n ok in
      Shows-put d _ b dev lba block w r.coherent r.own r.others
  History-Shows (then_sync {d} {b} dev h) v =
      let w = History-Shows h v in
      let k = sync-Keeps io stored laws grid lawful d dev w.coherent in
      record {
        coherent = k.coherent;
        seen = λ dev' lba' g. k.same dev' lba' g ∙ w.seen dev' lba' g;
      }
  History-Shows (then_through_fails {d} {b} dev lba block h g n bad kept) v =
      let w = History-Shows h v in
      let (coherent, same) =
        write_through_fails io stored laws grid lawful d dev lba block w.coherent g n bad kept in
      record { coherent = coherent; seen = λ dev' lba' g'. same dev' lba' g' ∙ w.seen dev' lba' g' }
  History-Shows (then_through_torn {d} {b} dev lba block h g n bad uncached) v =
      let w = History-Shows h v in
      let r =
        write_through_torn io stored laws grid lawful d dev lba block w.coherent g n bad uncached in
      Shows-put d _ b dev lba _ w r.coherent r.own r.others
  History-Shows (then_drop {d} {b} dev lba h) v =
      let w = History-Shows h v in
      let r = invalidate-Invalidated stored grid d dev lba w.coherent in
      Shows-put d (invalidate d dev lba) b dev lba (stored_block stored d.disk dev lba) w r.coherent
        (r.own) (λ dev' lba' g away. r.others dev' lba' away)
  History-Shows (then_reset {d} {b} h) v = let w = History-Shows h v in reset-Shows d b w

  pub init-Shows :
      (c : Cache S X)
      → Shows io stored grid rounds (init c) (λ dev lba. stored_block stored c.disk dev lba)
  unfolding init
  init-Shows c = record {
    coherent = record {
      placed = λ i s e v. let no_slot = blank_all-invalid c.slots i s e in absurd (cc);
      single = λ i j s t dev lba e e' own own'.
          let no_slot = is_for_invalid s dev lba (blank_all-invalid c.slots i s e) in absurd (cc);
      clean = λ i s e v d. let no_slot = blank_all-invalid c.slots i s e in absurd (cc);
    };
    seen = λ dev lba g.
        view_free stored (blank_all c.slots) c.disk dev lba
          (λ j s e. is_for_invalid s dev lba (blank_all-invalid c.slots j s e));
  }

  -- After the start of the cache and then, in any order, reads, writes and writes through of whole
  -- blocks at places of a grid, syncs, invalidations and resets of the statistics, a read at a place
  -- of the grid that succeeds gives the block last written to its place with success, or, where
  -- nothing was written since, the one that the disk held there at the start, at the last
  -- invalidation of the place, or after a write through that failed while the place was not cached;
  -- and a sync that succeeds leaves those blocks on its devices. The one call left out is a write
  -- through that fails and changes the disk's block while the cache holds a copy that is not dirty.
  pub history_last :
      (c : Cache S X) {d : Cache S X} {b : ℕ → ℕ → List X} (dev lba : ℕ)
      → History io stored grid rounds
          (init c)
          (λ dev' lba'. stored_block stored c.disk dev' lba')
          d
          b
      → grid dev lba ≡ true
      → ((read io rounds d dev lba).0 ≡ done → (read io rounds d dev lba).2 ≡ some (b dev lba))
        × ((chosen : ℕ)
            → Chosen chosen dev
            → (sync io d chosen).0 ≡ true
            → stored_block stored (sync io d chosen).1.disk dev lba ≡ b dev lba)
  history_last c {d} {b} dev lba h g =
      let w = History-Shows h (init-Shows c) in
      let r = read-ReadOf io stored laws grid lawful rounds d dev lba w.coherent g in
      (
        (λ ok. r.given ok ∙ ap some (w.seen dev lba g)),
        (λ chosen own ok.
            sync_durable io stored laws grid lawful d chosen dev lba w.coherent ok g own
            ∙ w.seen dev lba g),
      )
