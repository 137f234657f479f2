-- ===== src/Bcache/Fill.antt =====
-- A block put into the slot for its place, in kernel/blk/bcache.c.
use drunix_os.Base.{
  ℕ, ◌≡◌, refl, sym, ◌∙◌, ◌≢◌, ◌⊎◌, inl, inr, Bool, true, false, some, List, Bool-cases, length,
  get_elem?, set,
}
use drunix_os.Bcache.Disk.{block_sectors}
use drunix_os.Bcache.Blocks.{stored_block}
use drunix_os.Bcache.Cache.{Cache, Slot, is_for}
use drunix_os.Bcache.View.{Coherent, view}
use drunix_os.Bcache.Change.{set-Coherent, view-set_own, view-set_other, is_for-key, is_for_here}
use drunix_os.Bcache.Acquire.{Taken}

abbrev pub filled : {X : Type 0} → Slot X → Bool → List X → Slot X
filled s dirty block = record s { valid = true; dirty = dirty; block = block }

-- A slot for one place is for no other.
pub is_for-apart :
    {X : Type 0} (u : Slot X) (dev lba dev' lba' : ℕ)
    → u.dev ≡ dev
    → u.lba ≡ lba
    → (dev' ≢ dev) ⊎ (lba' ≢ lba)
    → is_for u dev' lba' ≡ false
is_for-apart u dev lba dev' lba' d l away = elim (Bool-cases (is_for u dev' lba')) [
  | inr miss ↦ miss
  | inl hit ↦
      let (v', d', l') = is_for-key u dev' lba' hit in
      elim away [ inl p ↦ absurd (p (sym d' ∙ d)) | inr p ↦ absurd (p (sym l' ∙ l)) ]
]

module _ {S X : Type 0} (stored : S → ℕ → ℕ → X) (grid : ℕ → ℕ → Bool) where
  -- The place is seen with the block, and every other place of the grid as before.
  pub record Updated (slots : List (Slot X)) (disk : S) (dev lba : ℕ) (block : List X)
      (slots' : List (Slot X)) (disk' : S) : Type 0 where
    pub coherent : Coherent stored grid slots' disk'
    pub own : view stored slots' disk' dev lba ≡ block
    pub others :
        (dev' lba' : ℕ)
        → grid dev' lba' ≡ true
        → (dev' ≢ dev) ⊎ (lba' ≢ lba)
        → view stored slots' disk' dev' lba' ≡ view stored slots disk dev' lba'

  pub filled-Updated :
      (c : Cache S X) (dev lba i : ℕ) (s : Slot X) (dirty : Bool) (block : List X)
      → Coherent stored grid c.slots c.disk
      → (t : Taken stored grid c dev lba i) → get_elem? c.slots i ≡ some s
      → grid dev lba ≡ true
      → length block ≡ block_sectors
      → (dirty ≡ false → stored_block stored c.disk dev lba ≡ block)
      → Updated c.slots c.disk dev lba block (set c.slots i (filled s dirty block)) c.disk
  filled-Updated c dev lba i s dirty block v t at g n held =
      let one : t.slot ≡ s = some_injective t.slot s (sym t.here ∙ at) in
      let d : s.dev ≡ dev = rw one at t.dev_set in
      let l : s.lba ≡ lba = rw one at t.lba_set in
      let new = filled s dirty block in
      let w : Coherent stored grid (set c.slots i new) c.disk =
        set-Coherent stored grid c.slots c.disk i s new v at (λ ok. record {
          placed = rw (d, l) (g, n);
          alone = λ j u apart e. rw (d, l) (t.alone j u apart e);
          clean = λ p. rw (d, l) (held p);
        }) in
      record {
        coherent = w;
        own =
            view-set_own stored grid c.slots c.disk i s new dev lba w at
              (is_for_here new dev lba refl d l);
        others = λ dev' lba' g' away.
            view-set_other stored grid c.slots c.disk i s new dev' lba' v w at
              (is_for-apart s dev lba dev' lba' d l away)
              (is_for-apart new dev lba dev' lba' d l away);
      }
    where
      some_injective : (a b : Slot X) → some a ≡ some b → a ≡ b
      some_injective a b e = cc
