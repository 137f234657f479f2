-- ===== src/Bcache/Flush.antt =====
-- Writing dirty slots back and looking for a slot to reuse, in kernel/blk/bcache.c, changes no block
-- that is seen through the cache.
use drunix_os.Base.{
  ℕ, ◌≡◌, refl, sym, ◌∙◌, ◌≢◌, ◌⊎◌, inl, inr, Bool, true, false, some, List, ℕ_discrete, Bool-cases,
  subst, length, get_elem?, set,
}
use drunix_os.Bcache.Disk.{Io, IsDisk, block_sectors, disk_write_block}
use drunix_os.Bcache.Blocks.{stored_block, disk_write_block-outside, disk_write_block-inside}
use drunix_os.Bcache.Cache.{Cache, Slot, is_for, flushed}
use drunix_os.Bcache.View.{view_cached, IsGrid, Coherent, view}
use drunix_os.Bcache.Change.{
  view-set_other, view-set_own, is_for_here, is_for-away, set-Coherent, disk-Coherent, view-disk,
  view-disk_cached, is_for-key, is_for_own, set-cases,
}

-- No slot is for the place.
abbrev pub Uncached : {X : Type 0} → List (Slot X) → ℕ → ℕ → Type 0
Uncached {X} slots dev lba =
    (j : ℕ) (t : Slot X) → get_elem? slots j ≡ some t → is_for t dev lba ≡ false

module _ {S X : Type 0} (stored : S → ℕ → ℕ → X) (grid : ℕ → ℕ → Bool) where
  -- A change of the cache and the disks that no reader sees, and by which no slot comes to be for
  -- a place.
  pub record Keeps (c next : Cache S X) : Type 0 where
    pub coherent : Coherent stored grid next.slots next.disk
    pub same :
        (dev lba : ℕ)
        → grid dev lba ≡ true
        → view stored next.slots next.disk dev lba ≡ view stored c.slots c.disk dev lba
    pub free : (dev lba : ℕ) → Uncached c.slots dev lba → Uncached next.slots dev lba

  pub Keeps-refl : (c : Cache S X) → Coherent stored grid c.slots c.disk → Keeps c c
  Keeps-refl c v = record { coherent = v; same = λ dev lba g. refl; free = λ dev lba u. u }

  pub Keeps-trans : (c d e : Cache S X) → Keeps c d → Keeps d e → Keeps c e
  Keeps-trans c d e p q = record {
    coherent = q.coherent;
    same = λ dev lba g. q.same dev lba g ∙ p.same dev lba g;
    free = λ dev lba u. q.free dev lba (p.free dev lba u);
  }

module _ {S X : Type 0} (io : Io S X) (stored : S → ℕ → ℕ → X) (laws : IsDisk io stored)
    (grid : ℕ → ℕ → Bool) (lawful : IsGrid grid) where
  same_miss :
      (s t : Slot X) (dev lba : ℕ)
      → s.valid ≡ true
      → is_for s dev lba ≡ false
      → t.dev ≡ s.dev
      → t.lba ≡ s.lba
      → is_for t dev lba ≡ false
  same_miss s t dev lba ok miss td tl = elim (Bool-cases (is_for t dev lba)) [
    | inr out ↦ out
    | inl hit ↦
        let (tv, d, l) = is_for-key t dev lba hit in
        let bad = is_for_here s dev lba ok (sym td ∙ d) (sym tl ∙ l) in absurd (cc)
  ]

  -- A write of a whole block at a place of the grid leaves the other places.
  pub elsewhere :
      (disk : S) (dev lba : ℕ) (block : List X)
      → grid dev lba ≡ true
      → length block ≡ block_sectors
      → (dev' lba' : ℕ) → grid dev' lba' ≡ true
      → (dev' ≢ dev) ⊎ (lba' ≢ lba)
      → stored_block stored (disk_write_block io disk dev lba block).1 dev' lba'
        ≡ stored_block stored disk dev' lba'
  elsewhere disk dev lba block g n dev' lba' g' away =
      disk_write_block-outside io stored laws disk dev lba block dev' lba' n (lawful.room dev lba g)
        (elim (ℕ_discrete dev' dev) [
          | no p ↦ inl p
          | yes p ↦ inr (elim away [
            | inl q ↦ absurd (q p)
            | inr q ↦ lawful.apart dev lba' lba (rw p at g') g q
          ])
        ])

  -- The write of a dirty slot.
  flushed-disk :
      (c : Cache S X) (i : ℕ) (s : Slot X)
      → Coherent stored grid c.slots c.disk
      → get_elem? c.slots i ≡ some s
      → s.valid ≡ true
      → s.dirty ≡ true
      → Coherent stored grid c.slots (disk_write_block io c.disk s.dev s.lba s.block).1
        × ((dev lba : ℕ)
            → grid dev lba ≡ true
            → view stored c.slots (disk_write_block io c.disk s.dev s.lba s.block).1 dev lba
              ≡ view stored c.slots c.disk dev lba)
  flushed-disk c i s v at ok bad =
      let (g, n) = v.placed i s at ok in
      let own = is_for_own s ok in
      let disk' = (disk_write_block io c.disk s.dev s.lba s.block).1 in
      (
        disk-Coherent stored grid c.slots c.disk disk' s.dev s.lba v
            (elsewhere c.disk s.dev s.lba s.block g n)
            (λ j t e f.
              let same : j ≡ i = v.single j i t s s.dev s.lba e at f own in
              let e' = rw same at e in
              let one : s ≡ t = cc in subst (λ (u : Slot X). u.dirty ≡ true) one bad),
        λ dev lba g'. elim (Bool-cases (is_for s dev lba)) [
          | inl hit ↦ view-disk_cached stored grid c.slots c.disk disk' dev lba i s at hit
          | inr miss ↦
              view-disk stored grid c.slots c.disk disk' dev lba (
                elsewhere c.disk s.dev s.lba s.block g n dev lba g' (is_for-away s dev lba ok miss))
        ],
      )

  -- The slot once its block is on the disk.
  pub cleaned-Keeps :
      (c : Cache S X) (disk : S) (i : ℕ) (s t : Slot X)
      → Coherent stored grid c.slots disk
      → get_elem? c.slots i ≡ some s
      → s.valid ≡ true
      → t.valid ≡ true
      → t.dev ≡ s.dev
      → t.lba ≡ s.lba
      → t.block ≡ s.block
      → stored_block stored disk s.dev s.lba ≡ s.block
      → Coherent stored grid (set c.slots i t) disk
        × ((dev lba : ℕ)
            → view stored (set c.slots i t) disk dev lba ≡ view stored c.slots disk dev lba)
        × ((dev lba : ℕ) → Uncached c.slots dev lba → Uncached (set c.slots i t) dev lba)
  cleaned-Keeps c disk i s t v at ok tok td tl tb held =
      let (g, n) = v.placed i s at ok in
      let own = is_for_own s ok in
      let w : Coherent stored grid (set c.slots i t) disk =
        set-Coherent stored grid c.slots disk i s t v at (λ valid. record {
          placed = rw (td, tl, tb) (g, n);
          alone = λ j u apart e.
              rw (td, tl)
                (elim (Bool-cases (is_for u s.dev s.lba)) [
                  | inr miss ↦ miss
                  | inl hit ↦ absurd (apart (v.single j i u s s.dev s.lba e at hit own))
                ]);
          clean = λ d. rw (td, tl, tb) held;
        }) in
      (
        w,
        λ dev lba. elim (Bool-cases (is_for s dev lba)) [
          | inl hit ↦
              let (sv, sd, sl) = is_for-key s dev lba hit in
              view-set_own stored grid c.slots disk i s t dev lba w at
                (is_for_here t dev lba tok (td ∙ sd) (tl ∙ sl))
              ∙ tb
              ∙ sym (view_cached stored grid c.slots disk dev lba i s v at hit)
          | inr miss ↦
              let miss' : is_for t dev lba ≡ false = same_miss s t dev lba ok miss td tl in
              view-set_other stored grid c.slots disk i s t dev lba v w at miss miss'
        ],
        λ dev lba u j r e. elim (set-cases c.slots i j s t r at e) [
          | inl (p, q) ↦ rw q (same_miss s t dev lba ok (u i s at) td tl)
          | inr (p, e') ↦ u j r e'
        ],
      )

  pub flushed-Keeps :
      (c : Cache S X) (i : ℕ) (s : Slot X)
      → Coherent stored grid c.slots c.disk
      → get_elem? c.slots i ≡ some s
      → s.valid ≡ true
      → s.dirty ≡ true
      → Keeps stored grid c (flushed io c i s).1
  unfolding flushed
  flushed-Keeps c i s v at ok bad =
      let (w, seen) = flushed-disk c i s v at ok bad in
      elim (Bool-cases (disk_write_block io c.disk s.dev s.lba s.block).0) [
        | inr fails ↦ simp fails (record { coherent = w; same = seen; free = λ dev lba u. u })
        | inl succeeds ↦
            let (g, n) = v.placed i s at ok in
            let disk' = (disk_write_block io c.disk s.dev s.lba s.block).1 in
            let held =
              disk_write_block-inside io stored laws c.disk s.dev s.lba s.block n
                (lawful.room s.dev s.lba g) succeeds in
            let (w', seen', free') =
              cleaned-Keeps c disk' i s (record s { dirty = false }) w at ok ok refl refl refl
                held in
            simp succeeds (record {
              coherent = w';
              same = λ dev lba g'. seen' dev lba ∙ seen dev lba g';
              free = free';
            })
      ]
