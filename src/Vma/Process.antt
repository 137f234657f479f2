-- ===== src/Vma/Process.antt =====
-- The owner of a table in kernel/mm/vma.c: the growing table of a shared address space, or the
-- fixed one inside `process_t`; and the operations that add, find and clear areas. A value of
-- `Process` is a pointer that is not null. A status of -1 comes with the process as it is then.
use drunix_os.Base.{
  ℕ, zero, suc, ◌+◌, ◌*◌, ◌%◌, ◌^◌, Bool, ltb, leb, ◌==◌, if◌then◌else◌, List, [], length, Option,
  none, some,
}
use drunix_os.Vma.Area.{VmArea, FileRef}
use drunix_os.Vma.Table.{coalesce, insert_sorted, find, find_kind}

-- What the code keeps in `proc_address_space_t`.
pub record AddressSpace : Type 0 where
  pub vmas : List VmArea
  pub vma_capacity : ℕ
  pub brk : ℕ

-- What the code keeps in `process_t`; `space` is the pointer `as`.
pub record Process : Type 0 where
  pub space : Option AddressSpace
  pub vmas : List VmArea
  pub brk : ℕ

abbrev pub process_max_vmas : ℕ
process_max_vmas = 16

abbrev pub table : Process → List VmArea
table p = elim p.space [ none ↦ p.vmas | some s ↦ s.vmas ]

abbrev pub capacity : Process → ℕ
capacity p = elim p.space [ none ↦ process_max_vmas | some s ↦ s.vma_capacity ]

abbrev pub current_brk : Process → ℕ
current_brk p = elim p.space [ none ↦ p.brk | some s ↦ s.brk ]

-- A write of the table and its count.
abbrev pub put_table : Process → List VmArea → Process
put_table p areas = elim p.space [
  | none ↦ record p { vmas = areas }
  | some s ↦ record p { space = some (record s { vmas = areas }) }
]

-- How the doubling loop of `vma_ensure_capacity` ends; `spinning` is fuel that ran out.
pub data Growth : Type 0 where
  grown : ℕ → Growth
  refused : Growth
  spinning : Growth

-- `while (next_cap < needed)`, with `next_cap *= 2u` on 32 bits.
unfoldable pub grow_capacity : ℕ → ℕ → ℕ → Growth
grow_capacity zero next_cap needed = spinning
grow_capacity (suc fuel) next_cap needed =
    let rest = grow_capacity fuel (next_cap * 2 % 2 ^ 32) needed in
    if ltb next_cap needed
    then (if ltb 0x80000000 next_cap then refused else rest)
    else grown next_cap

-- Success, the status -1, or a loop without end.
pub data Status : Type 0 where
  done failed hangs : Status

abbrev pub growth_fuel : ℕ
growth_fuel = 33

unfoldable pub resize : Process → AddressSpace → Bool → Growth → Status × Process
resize p s memory (grown cap) =
    if memory
    then (done, record p { space = some (record s { vma_capacity = cap }) })
    else (failed, p)
resize p s memory refused = (failed, p)
resize p s memory spinning = (hangs, p)

-- `memory` says whether this call of `kmalloc` gives a block.
unfoldable pub ensure_capacity : Bool → Process → ℕ → Status × Process
unfolding resize
ensure_capacity memory p needed = elim p.space [
  | none ↦ (if leb needed process_max_vmas then done else failed, p)
  | some s ↦
      if leb needed s.vma_capacity
      then (done, p)
      else resize p s memory
          (grow_capacity growth_fuel (if s.vma_capacity == 0 then 32 else s.vma_capacity) needed)
]

-- `vma_init`
unfoldable pub init : Process → Process
init p = put_table p []

-- The rest of an operation, run when `vma_ensure_capacity` succeeds.
abbrev pub when_done : Status × Process → (Process → Status × Process) → Status × Process
when_done (done, p) run = run p
when_done (failed, p) run = (failed, p)
when_done (hangs, p) run = (hangs, p)

abbrev pub commit : Process → Option (List VmArea) → Status × Process
commit p none = (failed, p)
commit p (some areas) = (done, put_table p areas)

unfoldable pub place : VmArea → Process → Status × Process
place area p = elim (insert_sorted (table p) area) [
  | none ↦ (failed, p)
  | some areas ↦ (done, put_table p (coalesce areas))
]

unfoldable pub insert_area : Bool → Process → VmArea → Status × Process
unfolding place
insert_area memory p area =
    if ltb area.end area.start
    then (failed, p)
    else when_done (ensure_capacity memory p (length (table p) + 1)) (place area)

abbrev pub no_file : FileRef
no_file = record { mount_id = 0; inode_num = 0 }

abbrev pub plain_area : ℕ → ℕ → ℕ → ℕ → VmArea
plain_area start end flags kind = record {
  start = start;
  end = end;
  flags = flags;
  kind = kind;
  file_offset = 0;
  file_size = 0;
  file_ref = no_file;
}

unfoldable pub add : Bool → Process → ℕ → ℕ → ℕ → ℕ → Status × Process
add memory p start end flags kind = insert_area memory p (plain_area start end flags kind)

-- `vma_find` and `vma_find_const` give the area, where the code gives a pointer to it.
unfoldable pub find_area : Process → ℕ → Option VmArea
find_area p addr = find (table p) addr

unfoldable pub find_area_kind : Process → ℕ → Option VmArea
find_area_kind p kind = find_kind (table p) kind
