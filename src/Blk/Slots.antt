-- ===== src/Blk/Slots.antt =====
-- Slots of the table of kernel/drivers/blkdev.c: what a write into a free one leaves as it was.
use drunix_os.Blk.Table.{is_free, DevEntry, alloc_slot}
use drunix_os.Base.{
  ℕ, zero, suc, ◌+◌, ◌≡◌, refl, inl, inr, true, some, List, [], ◌∷◌, arith, Bool-cases, get_elem?,
}

-- A slot that the scan gives is free.
pub alloc_slot-is_free :
    (table : List DevEntry) (i k : ℕ)
    → alloc_slot table i ≡ some k
    → (j : ℕ) × (e : DevEntry) × (k ≡ i + j) × (get_elem? table j ≡ some e) × (is_free e ≡ true)
unfolding alloc_slot
alloc_slot-is_free [] i k h = absurd (cc)
alloc_slot-is_free (e ∷ es) i k h = elim (Bool-cases (is_free e)) [
  | inl free ↦ (zero, e, ground arith, refl, free)
  | inr used ↦
      let (j, f, at, here, free) = alloc_slot-is_free es (i + 1) k (ground arith) in
      (suc j, f, omega arith, here, free)
]
