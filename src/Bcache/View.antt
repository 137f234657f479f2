-- ===== src/Bcache/View.antt =====
-- The specification of kernel/blk/bcache.c: what the blocks of the disks are, seen through the cache.
use drunix_os.Base.{
  ℕ, zero, suc, ◌+◌, ◌^◌, ◌≤◌, ◌≡◌, refl, ◌≢◌, ◌⊎◌, inl, inr, Bool, true, false, none, some, List,
  [], ◌∷◌, arith, Bool-cases, Option-cases, ◌>>=◌, subst, length, get_elem?,
}
use drunix_os.Bcache.Disk.{block_sectors}
use drunix_os.Bcache.Blocks.{stored_block}
use drunix_os.Bcache.Cache.{Slot, is_for, find_from, find_slot}

-- The places where callers keep blocks: no two of a device overlap, and none passes the last sector
-- that 32 bits can name.
pub record IsGrid (grid : ℕ → ℕ → Bool) : Type 0 where
  pub room : (dev lba : ℕ) → grid dev lba ≡ true → lba + block_sectors ≤ 2 ^ 32
  pub apart :
      (dev a b : ℕ)
      → grid dev a ≡ true
      → grid dev b ≡ true
      → a ≢ b
      → (a + block_sectors ≤ b) ⊎ (b + block_sectors ≤ a)

module _ {X : Type 0} where
  find_from-some :
      (slots : List (Slot X)) (dev lba i k : ℕ)
      → find_from slots dev lba i ≡ some k
      → (j : ℕ) × (s : Slot X) × (k ≡ i + j)
        × (get_elem? slots j ≡ some s)
        × (is_for s dev lba ≡ true)
  unfolding find_from
  find_from-some [] dev lba i k h = absurd (cc)
  find_from-some (s ∷ slots) dev lba i k h = elim (Bool-cases (is_for s dev lba)) [
    | inl hit ↦ (zero, s, ground arith, refl, hit)
    | inr miss ↦
        let (j, t, at, here, own) = find_from-some slots dev lba (i + 1) k (ground arith) in
        (suc j, t, omega arith, here, own)
  ]

  pub find_slot-some :
      (slots : List (Slot X)) (dev lba i : ℕ)
      → find_slot slots dev lba ≡ some i
      → (s : Slot X) × (get_elem? slots i ≡ some s) × (is_for s dev lba ≡ true)
  find_slot-some slots dev lba i h =
      let (j, s, at, here, own) = find_from-some slots dev lba 0 i h in
      let same : j ≡ i = omega arith in (s, rw same at here, own)

  find_from-none :
      (slots : List (Slot X)) (dev lba i : ℕ)
      → find_from slots dev lba i ≡ none
      → (j : ℕ) (s : Slot X) → get_elem? slots j ≡ some s
      → is_for s dev lba ≡ false
  unfolding find_from
  find_from-none [] dev lba i h j s e = absurd (cc)
  find_from-none (t ∷ slots) dev lba i h zero s e =
      let same : t ≡ s = cc in
      elim (Bool-cases (is_for t dev lba)) [
        | inl hit ↦ absurd (ground arith)
        | inr miss ↦ subst (λ (u : Slot X). is_for u dev lba ≡ false) same miss
      ]
  find_from-none (t ∷ slots) dev lba i h (suc j) s e = elim (Bool-cases (is_for t dev lba)) [
    | inl hit ↦ absurd (ground arith)
    | inr miss ↦ find_from-none slots dev lba (i + 1) (ground arith) j s e
  ]

  pub find_slot-none :
      (slots : List (Slot X)) (dev lba : ℕ)
      → find_slot slots dev lba ≡ none
      → (j : ℕ) (s : Slot X) → get_elem? slots j ≡ some s
      → is_for s dev lba ≡ false
  find_slot-none slots dev lba h = find_from-none slots dev lba 0 h

module _ {S X : Type 0} (stored : S → ℕ → ℕ → X) where
  -- The block at a place, as a reader sees it: that of the slot that is for the place, or the disk's.
  unfoldable pub view : List (Slot X) → S → ℕ → ℕ → List X
  view slots disk dev lba = elim (find_slot slots dev lba >>= λ i. get_elem? slots i) [
    | none ↦ stored_block stored disk dev lba
    | some s ↦ s.block
  ]

  pub view-slot :
      (slots : List (Slot X)) (disk : S) (dev lba i : ℕ) (s : Slot X)
      → find_slot slots dev lba ≡ some i
      → get_elem? slots i ≡ some s
      → view slots disk dev lba ≡ s.block
  unfolding view
  view-slot slots disk dev lba i s f e = rw (view, f, e) refl

  pub view_free :
      (slots : List (Slot X)) (disk : S) (dev lba : ℕ)
      → ((j : ℕ) (t : Slot X) → get_elem? slots j ≡ some t → is_for t dev lba ≡ false)
      → view slots disk dev lba ≡ stored_block stored disk dev lba
  unfolding view
  view_free slots disk dev lba free = elim (Option-cases (find_slot slots dev lba)) [
    | inl nothing ↦ rw (view, nothing) refl
    | inr (i, f) ↦
        let (s, at, own) = find_slot-some slots dev lba i f in
        let none_for = free i s at in absurd (ground arith)
  ]

module _ {S X : Type 0} (stored : S → ℕ → ℕ → X) (grid : ℕ → ℕ → Bool) where
  -- Valid slots are for places of the grid and hold whole blocks; no two are for the same place; and
  -- one that is not dirty holds what the disk holds.
  pub record Coherent (slots : List (Slot X)) (disk : S) : Type 0 where
    pub placed :
        (i : ℕ) (s : Slot X)
        → get_elem? slots i ≡ some s
        → s.valid ≡ true
        → (grid s.dev s.lba ≡ true) × (length s.block ≡ block_sectors)
    pub single :
        (i j : ℕ) (s t : Slot X) (dev lba : ℕ)
        → get_elem? slots i ≡ some s
        → get_elem? slots j ≡ some t
        → is_for s dev lba ≡ true
        → is_for t dev lba ≡ true
        → i ≡ j
    pub clean :
        (i : ℕ) (s : Slot X)
        → get_elem? slots i ≡ some s
        → s.valid ≡ true
        → s.dirty ≡ false
        → stored_block stored disk s.dev s.lba ≡ s.block

  pub view_cached :
      (slots : List (Slot X)) (disk : S) (dev lba i : ℕ) (s : Slot X)
      → Coherent slots disk
      → get_elem? slots i ≡ some s
      → is_for s dev lba ≡ true
      → view stored slots disk dev lba ≡ s.block
  view_cached slots disk dev lba i s c at own = elim (Option-cases (find_slot slots dev lba)) [
    | inl nothing ↦
        let none_for = find_slot-none slots dev lba nothing i s at in absurd (ground arith)
    | inr (k, f) ↦
        let (t, there, own') = find_slot-some slots dev lba k f in
        let same : k ≡ i = c.single k i t s dev lba there at own' own in
        view-slot stored slots disk dev lba i s (rw same at f) at
  ]
