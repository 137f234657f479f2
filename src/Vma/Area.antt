-- ===== src/Vma/Area.antt =====
-- One memory area of kernel/mm/vma.c: overlap, slicing, and when two areas merge.
use drunix_os.Base.{ℕ, ◌+◌, ◌-◌, ◌*◌, ◌/◌, ◌%◌, ◌^◌, Bool, not, ◌&&◌, ltb, ◌==◌, if◌then◌else◌}

-- `vfs_file_ref_t`
pub record FileRef : Type 0 where
  pub mount_id : ℕ
  pub inode_num : ℕ

-- `vm_area_t`: the addresses from `start` up to and without `end`. Fields are `uint32_t`.
pub record VmArea : Type 0 where
  pub start : ℕ
  pub end : ℕ
  pub flags : ℕ
  pub kind : ℕ
  pub file_offset : ℕ
  pub file_size : ℕ
  pub file_ref : FileRef

-- `vma_kind_t`
abbrev pub kind_generic : ℕ
kind_generic = 0

abbrev pub kind_heap : ℕ
kind_heap = 1

abbrev pub kind_stack : ℕ
kind_stack = 2

-- `flags & VMA_FLAG_ANON`, the flag being bit 3
abbrev pub is_anon : ℕ → Bool
is_anon flags = (flags / 8) % 2 == 1

unfoldable pub overlaps : VmArea → ℕ → ℕ → Bool
overlaps lhs start end = ltb start lhs.end && ltb lhs.start end

unfoldable pub is_file_backed : VmArea → Bool
is_file_backed vma = (vma.kind == kind_generic) && not (is_anon vma.flags)

unfoldable pub slice : VmArea → ℕ → ℕ → VmArea
slice vma start end = record vma {
  start = start;
  end = end;
  file_offset =
      if is_file_backed vma && ltb vma.start start
      then (vma.file_offset + (start - vma.start)) % 2 ^ 32
      else vma.file_offset;
}

-- `(old_flags & ~VMA_PROT_FLAGS) | (new_flags & VMA_PROT_FLAGS)`, the mask being the low three bits
unfoldable pub replace_prot_flags : ℕ → ℕ → ℕ
replace_prot_flags old_flags new_flags = old_flags / 8 * 8 + new_flags % 8

unfoldable pub can_merge : VmArea → VmArea → Bool
can_merge lhs rhs =
    not (is_file_backed lhs)
    && not (is_file_backed rhs)
    && lhs.end == rhs.start
    && lhs.flags == rhs.flags
    && lhs.kind == rhs.kind
    && lhs.file_offset == rhs.file_offset
    && lhs.file_size == rhs.file_size
    && lhs.file_ref.mount_id == rhs.file_ref.mount_id
    && lhs.file_ref.inode_num == rhs.file_ref.inode_num
